-- ===== src/Prelude/Sorting.antt =====
-- Insertion sort by a number: when no two numbers are equal, the order of the list to sort does not
-- matter. A sort is given by its insertion and by the equations of the two.
use mathlib.Core.Path.{subst}
use mathlib.Core.List.{Permᴰ}
use grnoti.Prelude.{ℕ, ◌≡◌, ◌≢◌, refl, sym, ap, ◌∙◌, List, [], ◌∷◌, All, ltb, if◌then◌else◌, arith}

module _ {A : Type 0} where
  All-permuted : (P : A → Type 0) {xs ys : List A} → Permᴰ xs ys → All P xs → All P ys
  All-permuted P Permᴰ.nil a = a
  All-permuted P (Permᴰ.cons e p) a = (subst P e a.0, All-permuted P p a.1)
  All-permuted P (Permᴰ.swap e e') a = (subst P e' a.1.0, (subst P e a.0, a.1.1))
  All-permuted P (Permᴰ.trans p q) a = All-permuted P q (All-permuted P p a)

module _ {A : Type 0} (key : A → ℕ) where
  -- No two elements have the same number.
  abbrev pub Untied : List A → Type 0
  Untied [] = Unit
  Untied (x ∷ xs) = All (λ y. key x ≢ key y) xs × Untied xs

module _ {A : Type 0} (key : A → ℕ) (insert : A → List A → List A) (sort : List A → List A)
    (insert_last : (c : A) → insert c [] ≡ c ∷ [])
    (insert_cons : (c d : A) (ds : List A)
      → insert c (d ∷ ds) ≡ (if ltb (key d) (key c) then d ∷ insert c ds else c ∷ d ∷ ds))
    (sort_cons : (c : A) (cs : List A) → sort (c ∷ cs) ≡ insert c (sort cs)) where
  insert_comm :
      (a b : A) (ds : List A) → key a ≢ key b → insert a (insert b ds) ≡ insert b (insert a ds)
  insert_comm a b [] differ =
      rw
        (
          insert_last a,
          insert_last b,
          insert_cons a b [],
          insert_cons b a [],
          insert_last a,
          insert_last b,
        )
        (ground (arith, differ))
  insert_comm a b (d ∷ ds) differ = ground (
    arith,
    differ,
    insert_comm a b ds differ,
    insert_cons a d ds,
    insert_cons b d ds,
    insert_cons a d (insert b ds),
    insert_cons b d (insert a ds),
    insert_cons a b (d ∷ ds),
    insert_cons b a (d ∷ ds),
  )

  -- The sorted lists are equal, and no two elements tie in the other list either.
  pub sort-permuted :
      {xs ys : List A} → Permᴰ xs ys → Untied key xs → (sort xs ≡ sort ys) × Untied key ys
  sort-permuted Permᴰ.nil u = (refl, u)
  sort-permuted (Permᴰ.cons {a} {b} {l₁} {l₂} e p) u =
      let rest = sort-permuted p u.1 in
      (
        sort_cons a l₁
            ∙ ap (insert a) rest.0
            ∙ ap (λ c. insert c (sort l₂)) e
            ∙ sym (sort_cons b l₂),
        (
          subst (λ c. All (λ y. key c ≢ key y) l₂) e (All-permuted (λ y. key a ≢ key y) p u.0),
          rest.1,
        ),
      )
  sort-permuted (Permᴰ.swap {a} {b} {a'} {b'} {l} e e') u =
      subst (λ c. (sort (a ∷ b ∷ l) ≡ sort (c ∷ b' ∷ l)) × Untied key (c ∷ b' ∷ l)) e'
        (subst (λ c. (sort (a ∷ b ∷ l) ≡ sort (b ∷ c ∷ l)) × Untied key (b ∷ c ∷ l)) e
          (
            rw (sort_cons a (b ∷ l), sort_cons b l, sort_cons b (a ∷ l), sort_cons a l)
                (insert_comm a b (sort l) u.0.0),
            ((λ same. u.0.0 (sym same), u.1.0), (u.0.1, u.1.1)),
          ))
  sort-permuted (Permᴰ.trans p q) u =
      let first = sort-permuted p u in
      let second = sort-permuted q first.1 in (first.0 ∙ second.0, second.1)
