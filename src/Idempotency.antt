-- ===== src/Idempotency.antt =====
-- cache.idempotency.go: cacheIdempotencyStore, the marks of processed events in a shared cache. The
-- marker bytes (the formatted time) are an argument.
pub mod Marks
pub mod Tests
use grnoti.Prelude.{
  Bool, true, false, Option, none, some, Result, ok, err, [], String, concat, if◌then◌else◌,
}
use grnoti.Prelude.Int.{ℤ, pos, negsuc}
use grnoti.Types.{Error, wrapped, joined, err_backend_unavailable}
use grnoti.Cache.{Cache}

abbrev pub key_prefix : String
key_prefix = "grnoti:idempotency:"

-- fmt.Errorf with errors.Join(err, ErrBackendUnavailable)
abbrev pub unavailable_error : String → String → Error → Error
unavailable_error what event_id e =
    wrapped (concat what event_id) (joined e err_backend_unavailable)

abbrev pub checked : String → Result Error Bool → Result Error Bool
checked event_id (err e) = err (unavailable_error "grnoti: idempotency check for " event_id e)
checked event_id (ok b) = ok b

abbrev pub set_failure : String → Option Error → Option Error
set_failure event_id none = none
set_failure event_id (some e) = some (unavailable_error "grnoti: mark processed for " event_id e)

-- A negative time to live counts as 0.
abbrev pub at_least_zero : ℤ → ℤ
at_least_zero (pos n) = pos n
at_least_zero (negsuc n) = pos 0

module _ {Raw C : Type 0} (cache : Cache Raw C) where
  unfoldable pub is_processed : C → String → Result Error Bool × C
  is_processed c event_id =
      let r = cache.exists c (concat key_prefix event_id) in (checked event_id r.0, r.1)

  unfoldable pub mark_processed : C → Raw → String → ℤ → Option Error × C
  mark_processed c marker event_id ttl =
      let r = cache.set c (concat key_prefix event_id) marker (at_least_zero ttl) [] in
      (set_failure event_id r.0, r.1)
