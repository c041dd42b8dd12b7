-- ===== src/Aws/Errors.antt =====
-- Go's error values, as internal/substrate/aws tells them apart with errors.Is and errors.As: a tree
-- of `%w` wrappers over a value of a known type. Errors that wrap several (errors.Join) are not
-- values here. FaultError is the type of client.go.
use queuezero.Prelude.{String, ◌<>◌, Bool, true, false, Option, none, some}
use queuezero.Cohort.State.{Fault, class_name}

-- The text of `url` and `wrapped` stands before the error that they wrap; `api` is a smithy.APIError
-- with its code and message, `net` a net.Error that wraps nothing, `plain` any other error.
pub data GoError : Type 0 where
  canceled deadline_exceeded : GoError
  net plain : String → GoError
  api : String → String → GoError
  fault : Fault → GoError
  url wrapped : String → GoError → GoError

-- err.Error()
pub text_of : GoError → String
text_of GoError.canceled = "context canceled"
text_of GoError.deadline_exceeded = "context deadline exceeded"
text_of (GoError.net s) = s
text_of (GoError.plain s) = s
text_of (GoError.api code message) = "api error " <> (code <> (": " <> message))
text_of (GoError.fault f) = class_name f.class <> ("/" <> (f.code <> (": " <> f.message)))
text_of (GoError.url s e) = s <> (": " <> text_of e)
text_of (GoError.wrapped s e) = s <> (": " <> text_of e)

-- errors.Is(err, context.Canceled) and errors.Is(err, context.DeadlineExceeded)
abbrev pub is_canceled : GoError → Bool
is_canceled GoError.canceled = true
is_canceled (GoError.url s e) = is_canceled e
is_canceled (GoError.wrapped s e) = is_canceled e
is_canceled _ = false

abbrev pub is_deadline : GoError → Bool
is_deadline GoError.deadline_exceeded = true
is_deadline (GoError.url s e) = is_deadline e
is_deadline (GoError.wrapped s e) = is_deadline e
is_deadline _ = false

-- errors.As with a smithy.APIError: the code and the message of the first one.
abbrev pub as_api : GoError → Option (String × String)
as_api (GoError.api code message) = some (code, message)
as_api (GoError.url s e) = as_api e
as_api (GoError.wrapped s e) = as_api e
as_api _ = none

-- errors.As with a *FaultError
abbrev pub as_fault : GoError → Option Fault
as_fault (GoError.fault f) = some f
as_fault (GoError.url s e) = as_fault e
as_fault (GoError.wrapped s e) = as_fault e
as_fault _ = none
