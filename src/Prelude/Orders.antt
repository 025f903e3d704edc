-- ===== src/Prelude/Orders.antt =====
-- Permutations under the list functions of the model. They come with their steps, as Permᴰ, or
-- without them, as Perm.
use mathlib.Core.Path.{subst}
use mathlib.Core.Logic.{∥∥₁_map}
use mathlib.Core.List.{Perm, Permᴰ}
use mathlib.Core.List.Permᴰ
use grnoti.Prelude.{◌≡◌, refl, ap, Bool, List, ◌∷◌, map, select, Bool-cases, inl, inr}

module _ {A B : Type 0} where
  permuted-map : (f : A → B) {xs ys : List A} → Permᴰ xs ys → Permᴰ (map f xs) (map f ys)
  permuted-map f Permᴰ.nil = Permᴰ.nil
  permuted-map f (Permᴰ.cons e p) = Permᴰ.cons (ap f e) (permuted-map f p)
  permuted-map f (Permᴰ.swap e e') = Permᴰ.swap (ap f e) (ap f e')
  permuted-map f (Permᴰ.trans p q) = Permᴰ.trans (permuted-map f p) (permuted-map f q)

  pub map-Perm : (f : A → B) {xs ys : List A} → Perm xs ys → Perm (map f xs) (map f ys)
  map-Perm f {xs} {ys} p = ∥∥₁_map {B = Permᴰ (map f xs) (map f ys)} p (permuted-map f)

module _ {A : Type 0} where
  select-cons :
      (keep : A → Bool) (xs ys : List A) {a b : A}
      → a ≡ b
      → Permᴰ (select keep xs) (select keep ys)
      → Permᴰ (select keep (a ∷ xs)) (select keep (b ∷ ys))
  select-cons keep xs ys {a} {b} e p =
      subst (λ c. Permᴰ (select keep (a ∷ xs)) (select keep (c ∷ ys))) e
        (elim (Bool-cases (keep a)) [
          | inl kept ↦ rw kept (Permᴰ.cons refl p)
          | inr left ↦ rw left p
        ])

  select-swap :
      (keep : A → Bool) (a b : A) (xs : List A)
      → Permᴰ (select keep (a ∷ b ∷ xs)) (select keep (b ∷ a ∷ xs))
  select-swap keep a b xs = elim (Bool-cases (keep a)) [
    | inl kept ↦ elim (Bool-cases (keep b)) [
      | inl too ↦ rw (kept, too) (Permᴰ.swap refl refl)
      | inr left ↦ rw (kept, left) (Permᴰ.refl _)
    ]
    | inr left ↦ rw left (Permᴰ.refl _)
  ]

  pub permuted-select :
      (keep : A → Bool) {xs ys : List A} → Permᴰ xs ys → Permᴰ (select keep xs) (select keep ys)
  permuted-select keep Permᴰ.nil = Permᴰ.nil
  permuted-select keep (Permᴰ.cons {a} {b} {l₁} {l₂} e p) =
      select-cons keep l₁ l₂ e (permuted-select keep p)
  permuted-select keep (Permᴰ.swap {a} {b} {a'} {b'} {l} e e') =
      subst (λ c. Permᴰ (select keep (a ∷ b ∷ l)) (select keep (c ∷ b' ∷ l))) e'
        (subst (λ c. Permᴰ (select keep (a ∷ b ∷ l)) (select keep (b ∷ c ∷ l))) e
          (select-swap keep a b l))
  permuted-select keep (Permᴰ.trans p q) =
      Permᴰ.trans (permuted-select keep p) (permuted-select keep q)

  pub select-Perm :
      (keep : A → Bool) {xs ys : List A} → Perm xs ys → Perm (select keep xs) (select keep ys)
  select-Perm keep {xs} {ys} p =
      ∥∥₁_map {B = Permᴰ (select keep xs) (select keep ys)} p (permuted-select keep)
