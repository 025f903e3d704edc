-- ===== src/Prelude/Keys.antt =====
-- Maps whose keys are distinct, as Go's are, and predicates that hold of every entry.
use Prim.Native.String.{String}
use mathlib.Core.Path.{◌≡◌, refl, sym, ◌∙◌, subst}
use mathlib.Core.Logic.{inl, inr}
use mathlib.Core.Option.{none, some}
use mathlib.Core.List.{[], ◌∷◌, Permᴰ}
use native.Mathlib.Omega.{arith}
use text.Mathlib.Text.{◌==◌}
use text.Mathlib.TextEquality.{eq_iff}
use grnoti.Prelude.Tests.{Bool-cases}
use grnoti.Prelude.Lists.{All, All-weaken}
use grnoti.Prelude.Maps.{Map, lookup, insert, delete, lookup-insert, lookup-delete}

module _ {ℓ} {V : Type ℓ} where
  abbrev pub Unique : Map V → Type ℓ
  Unique [] = Unit
  Unique ((key, value) ∷ rest) = (lookup key rest ≡ none) × Unique rest

  pub insert-Unique : (key : String) (new : V) (m : Map V) → Unique m → Unique (insert key new m)
  unfolding lookup insert
  insert-Unique key new [] u = (refl, tt)
  insert-Unique key new ((first, value) ∷ rest) u = ground (
    arith,
    u,
    eq_iff first key,
    eq_iff key first,
    lookup-insert key first new rest,
    insert-Unique key new rest,
  )

  pub delete-Unique : (key : String) (m : Map V) → Unique m → Unique (delete key m)
  unfolding delete
  delete-Unique key [] u = tt
  delete-Unique key ((first, value) ∷ rest) u =
      ground (arith, u, lookup-delete key first rest, delete-Unique key rest)

  lookup-cons :
      (key other : String) (v w : V) (rest : Map V)
      → lookup key rest ≡ none
      → lookup other rest ≡ some w
      → lookup other ((key, v) ∷ rest) ≡ some w
  unfolding lookup
  lookup-cons key other v w rest absent found = ground (arith, eq_iff key other)

  lookup_first : (key : String) (v : V) (rest : Map V) → lookup key ((key, v) ∷ rest) ≡ some v
  unfolding lookup
  lookup_first key v rest = ground (arith, eq_iff key key)

  -- Every entry is the one that its key finds.
  pub lookup-entries : (m : Map V) → Unique m → All (λ (e : String × V). lookup e.0 m ≡ some e.1) m
  lookup-entries [] u = tt
  lookup-entries ((key, v) ∷ rest) u = (
    lookup_first key v rest,
    All-weaken (λ e. lookup e.0 rest ≡ some e.1) (λ e. lookup e.0 ((key, v) ∷ rest) ≡ some e.1) rest
        (λ e found. lookup-cons key e.0 v e.1 rest u.0 found) (lookup-entries rest u.1),
  )

-- A map with distinct keys finds the same values in any order of its entries.
module _ {V : Type 0} where
  swapped-same :
      (a b : String × V) (m : Map V) (id : String)
      → Unique (a ∷ b ∷ m)
      → lookup id (a ∷ b ∷ m) ≡ lookup id (b ∷ a ∷ m)
  unfolding lookup
  swapped-same a b m id u = ground (arith, u, eq_iff a.0 id, eq_iff b.0 id, eq_iff b.0 a.0)

  swapped-Unique : (a b : String × V) (m : Map V) → Unique (a ∷ b ∷ m) → Unique (b ∷ a ∷ m)
  unfolding lookup
  swapped-Unique a b m u = ground (arith, u, eq_iff a.0 b.0, eq_iff b.0 a.0)

  pub lookup-permuted :
      {m n : Map V} → Permᴰ m n → Unique m → ((id : String) → lookup id m ≡ lookup id n) × Unique n
  unfolding lookup
  lookup-permuted Permᴰ.nil u = (λ id. refl, u)
  lookup-permuted (Permᴰ.cons {a} {b} {l₁} {l₂} e p) u =
      let rest = lookup-permuted p u.1 in
      subst (λ c. ((id : String) → lookup id (a ∷ l₁) ≡ lookup id (c ∷ l₂)) × Unique (c ∷ l₂)) e
        (λ id. rw (rest.0 id) refl, (sym (rest.0 a.0) ∙ u.0, rest.1))
  lookup-permuted (Permᴰ.swap {a} {b} {a'} {b'} {l} e e') u =
      subst
        (λ c.
          ((id : String) → lookup id (a ∷ b ∷ l) ≡ lookup id (c ∷ b' ∷ l)) × Unique (c ∷ b' ∷ l))
        e'
        (subst
          (λ c.
            ((id : String) → lookup id (a ∷ b ∷ l) ≡ lookup id (b ∷ c ∷ l)) × Unique (b ∷ c ∷ l))
          e (λ id. swapped-same a b l id u, swapped-Unique a b l u))
  lookup-permuted (Permᴰ.trans p q) u =
      let first = lookup-permuted p u in
      let second = lookup-permuted q first.1 in (λ id. first.0 id ∙ second.0 id, second.1)

module _ {ℓ κ} {V : Type ℓ} (P : String × V → Type κ) where
  pub All-insert :
      (key : String) (new : V) (m : Map V) → P (key, new) → All P m → All P (insert key new m)
  unfolding insert
  All-insert key new [] p ps = (p, tt)
  All-insert key new ((first, value) ∷ rest) p ps = elim (Bool-cases (first == key)) [
    | inl e ↦ rw e (p, ps.1)
    | inr e ↦ rw e (ps.0, All-insert key new rest p ps.1)
  ]

  pub All-delete : (key : String) (m : Map V) → All P m → All P (delete key m)
  unfolding delete
  All-delete key [] ps = tt
  All-delete key ((first, value) ∷ rest) ps = elim (Bool-cases (first == key)) [
    | inl e ↦ rw e (All-delete key rest ps.1)
    | inr e ↦ rw e (ps.0, All-delete key rest ps.1)
  ]

  pub All-lookup :
      (key : String) (found : V) (m : Map V) → All P m → lookup key m ≡ some found → P (key, found)
  unfolding lookup
  All-lookup key found [] ps e = ground (arith, e)
  All-lookup key found ((first, value) ∷ rest) ps e =
      ground (arith, eq_iff first key, ps, All-lookup key found rest)
