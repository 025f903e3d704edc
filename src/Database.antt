-- ===== src/Database.antt =====
-- What the stores over PostgreSQL and MongoDB share. A statement is atomic in both databases, so
-- it is a function on the table. The driver may also fail: before the statement takes effect, or
-- after it, when its answer is lost.
use grnoti.Prelude.{
  ℕ, ◌+◌, ◌-◌, ◌%◌, arith, ◌≡◌, refl, Option, none, some, Result, ok, err, List, [], ◌∷◌, String,
}
use grnoti.Types.{Error, err_backend_unavailable, wrapped, joined}

-- The whole units of a time, in nanoseconds. A TIMESTAMPTZ column keeps the microseconds of the
-- time that is written, and a date of BSON its milliseconds.
unfoldable pub whole : ℕ → ℕ → ℕ
whole unit t = t - t % unit

abbrev pub micros : ℕ → ℕ
micros t = whole 1000 t

abbrev pub millis : ℕ → ℕ
millis t = whole 1000000 t

-- A time in whole microseconds.
abbrev pub IsMicros : ℕ → Type 0
IsMicros t = micros t ≡ t

pub IsMicros-add : (t more : ℕ) → IsMicros t → micros (t + more) ≡ t + micros more
unfolding whole
IsMicros-add t more w = omega (arith, w)

pub IsMicros-sub : (t less : ℕ) → IsMicros t → IsMicros less → IsMicros (t - less)
unfolding whole
IsMicros-sub t less w v = omega (arith, w, v)

-- How the call of a statement goes.
pub data Fault : Type 0 where
  served : Fault
  refused unanswered : Error → Fault

-- The call of a statement on a table, from what the statement does there.
abbrev pub executed : {A T : Type 0} → Fault → T → A × T → Result Error A × T
executed served table outcome = (ok outcome.0, outcome.1)
executed (refused e) table outcome = (err e, table)
executed (unanswered e) table outcome = (err e, outcome.1)

-- The call of a statement without a result, from the table that it leaves.
abbrev pub applied : {T : Type 0} → Fault → T → T → Option Error × T
applied served table changed = (none, changed)
applied (refused e) table changed = (some e, table)
applied (unanswered e) table changed = (some e, changed)

-- The table after the call of a statement that may change it.
abbrev pub left_by : {T : Type 0} → Fault → T → T → T
left_by fault table changed = (applied fault table changed).1

pub left_by-same : {T : Type 0} (fault : Fault) (table : T) → left_by fault table table ≡ table
left_by-same served table = refl
left_by-same (refused e) table = refl
left_by-same (unanswered e) table = refl

-- The call of a statement that only reads.
abbrev pub queried : {A : Type 0} → Fault → A → Result Error A
queried served answer = ok answer
queried (refused e) answer = err e
queried (unanswered e) answer = err e

-- fmt.Errorf("text: %w", errors.Join(err, ErrBackendUnavailable))
abbrev pub unavailable_error : String → Error → Error
unavailable_error text e = wrapped text (joined e err_backend_unavailable)

-- A test of the error that a statement without a result ended with.
abbrev pub failed_as : String → Option Error → Option Error
failed_as text none = none
failed_as text (some e) = some (unavailable_error text e)

-- The operations whose statements took effect, of a sequence of calls.
abbrev pub in_effect : {Op : Type 0} → List (Fault × Op) → List Op
in_effect [] = []
in_effect ((served, op) ∷ rest) = op ∷ in_effect rest
in_effect ((refused e, op) ∷ rest) = in_effect rest
in_effect ((unanswered e, op) ∷ rest) = op ∷ in_effect rest
