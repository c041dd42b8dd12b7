-- ===== src/Aws/Classifier.antt =====
-- internal/substrate/aws/classifier.go
pub mod Classes
use queuezero.Prelude.{
  String, Bool, true, false, ◌||◌, Option, none, some, List, [], ◌∷◌, ◌==◌, if◌then◌else◌,
}
use queuezero.Cohort.State.{Fault, FaultClass}
use queuezero.Aws.Errors.{GoError, text_of, is_canceled, is_deadline, as_api}

-- awsFaultTable
abbrev pub aws_fault_table : List (String × FaultClass)
aws_fault_table =
    ("InvalidInstanceID.NotFound", FaultClass.retryable_consistency)
    ∷ ("InvalidAMIID.NotFound", FaultClass.retryable_consistency)
    ∷ ("InvalidGroup.NotFound", FaultClass.retryable_consistency)
    ∷ ("InvalidSubnetID.NotFound", FaultClass.retryable_consistency)
    ∷ ("InvalidNetworkInterfaceID.NotFound", FaultClass.retryable_consistency)
    ∷ ("InvalidParameterValue.IamInstanceProfileNotReady", FaultClass.retryable_consistency)
    ∷ ("InvalidPlacementGroup.NotFound", FaultClass.retryable_consistency)
    ∷ ("InvalidKeyPair.NotFound", FaultClass.retryable_consistency)
    ∷ ("RequestLimitExceeded", FaultClass.throttle)
    ∷ ("Throttling", FaultClass.throttle)
    ∷ ("ThrottlingException", FaultClass.throttle)
    ∷ ("EC2ThrottledException", FaultClass.throttle)
    ∷ ("RequestExpired", FaultClass.throttle)
    ∷ ("InsufficientInstanceCapacity", FaultClass.capacity_exhausted)
    ∷ ("InsufficientHostCapacity", FaultClass.capacity_exhausted)
    ∷ ("SpotMaxPriceTooLow", FaultClass.capacity_exhausted)
    ∷ ("MaxSpotInstanceCountExceeded", FaultClass.capacity_exhausted)
    ∷ ("InsufficientFreeAddressesInSubnet", FaultClass.capacity_exhausted)
    ∷ ("Unsupported", FaultClass.capacity_exhausted)
    ∷ ("UnauthorizedOperation", FaultClass.terminal)
    ∷ ("AccessDenied", FaultClass.terminal)
    ∷ ("AuthFailure", FaultClass.terminal)
    ∷ ("InstanceLimitExceeded", FaultClass.terminal)
    ∷ ("VcpuLimitExceeded", FaultClass.terminal)
    ∷ ("InvalidParameterValue", FaultClass.terminal)
    ∷ ("InvalidParameterCombination", FaultClass.terminal)
    ∷ ("InvalidAMIID.Malformed", FaultClass.terminal)
    ∷ ("InvalidSpotInstanceRequest", FaultClass.terminal)
    ∷ ("InvalidBlockDeviceMapping", FaultClass.terminal)
    ∷ ("InvalidInstanceType", FaultClass.terminal)
    ∷ []

-- The lookup, with Terminal for a code that the table has not.
unfoldable pub class_of_code : List (String × FaultClass) → String → FaultClass
class_of_code [] code = FaultClass.terminal
class_of_code ((c, class) ∷ rest) code = if c == code then class else class_of_code rest code

-- isTypedTransportError. A *url.Error is a net.Error too, and so is context.DeadlineExceeded.
abbrev pub is_typed_transport_error : GoError → Bool
is_typed_transport_error GoError.deadline_exceeded = true
is_typed_transport_error (GoError.net s) = true
is_typed_transport_error (GoError.url s e) = true
is_typed_transport_error (GoError.wrapped s e) = is_typed_transport_error e
is_typed_transport_error _ = false

abbrev pub retries : FaultClass → Bool
retries FaultClass.retryable_consistency = true
retries FaultClass.throttle = true
retries FaultClass.capacity_exhausted = false
retries FaultClass.terminal = false
retries FaultClass.ambiguous = false

abbrev stop_fault : FaultClass → String → String → Fault
stop_fault class code message = record {
  class = class;
  code = code;
  retryable = false;
  message = message;
}

-- The structured error, or the default.
abbrev pub on_api : GoError → Option (String × String) → Fault
on_api e none = stop_fault FaultClass.terminal "UnknownError" (text_of e)
on_api e (some (code, message)) =
    let class = class_of_code aws_fault_table code in
    record { class = class; code = code; retryable = retries class; message = message }

-- Classifier.Classify of an error that is not nil.
unfoldable pub classify : GoError → Fault
unfolding class_of_code
classify e =
    if is_canceled e
    then stop_fault FaultClass.terminal "ContextCanceled" (text_of e)
    else if is_deadline e
    then stop_fault FaultClass.ambiguous "ContextDeadlineExceeded" (text_of e)
    else if is_typed_transport_error e
    then stop_fault FaultClass.ambiguous "TransportError" (text_of e)
    else on_api e (as_api e)
