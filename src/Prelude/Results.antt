-- ===== src/Prelude/Results.antt =====
-- The outcome of a fallible Go function: a value, or a non-nil error.
pub data Result {ℓ κ} (E : Type κ) (A : Type ℓ) : Type (ℓ ⊔ κ) where
  ok : A → Result E A
  err : E → Result E A
