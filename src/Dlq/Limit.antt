-- ===== src/Dlq/Limit.antt =====
-- The limit on the candidates of ClaimRetryableEvents in memory.go, for a limit above 0.
use grnoti.Prelude.{
  ℕ, zero, suc, ◌<◌, ◌≡◌, refl, sym, ap, false, ◌&&◌, List, [], ◌∷◌, arith, ltb, if◌then◌else◌,
  if_cases, take, length,
}

take_long : {A : Type 0} (n : ℕ) (xs : List A) → ltb n (length xs) ≡ false → take n xs ≡ xs
take_long zero [] h = refl
take_long zero (x ∷ xs) h = ground (arith, h)
take_long (suc n) [] h = refl
take_long (suc n) (x ∷ xs) h = ap (λ ys. x ∷ ys) (take_long n xs (ground (arith, h)))

-- The limit of memory.go.
pub limited :
    {A : Type 0} (n : ℕ) (xs : List A)
    → 0 < n
    → (if ltb 0 n && ltb n (length xs) then take n xs else xs) ≡ take n xs
limited n xs positive =
    if_cases (λ ys. ys ≡ take n xs) (ltb 0 n && ltb n (length xs)) (take n xs) xs (λ cut. refl)
      (λ whole. sym (take_long n xs (ground (arith, whole, positive))))
