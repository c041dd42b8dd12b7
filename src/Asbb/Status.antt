-- ===== src/Asbb/Status.antt =====
-- The test of the status in postJSON.
use queuezero.Prelude.{◌≡◌, ℕ, Bool, not, ◌&&◌, ltb, leb, arith}
use queuezero.Asbb.{is_refused_status}

abbrev pub is_success : ℕ → Bool
is_success code = leb 200 code && ltb code 300

pub status_tests : (code : ℕ) → is_success code ≡ not (is_refused_status code)
status_tests code = ground arith
