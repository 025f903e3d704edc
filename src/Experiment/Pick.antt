-- ===== src/Experiment/Pick.antt =====
-- deterministicPick of experiment.go: every variant has the share of buckets that is its weight.
use native.Mathlib.Nat.{mod-lt}
use grnoti.Prelude.{
  ℕ, zero, suc, ◌+◌, ◌-◌, ◌%◌, ◌^◌, ◌≡◌, ◌≤◌, ◌<◌, refl, ap, sym, ◌∙◌, true, false, Option, none,
  some, List, [], ◌∷◌, String, concat, arith, ltb, eqb, if◌then◌else◌, is_some,
}
use grnoti.Experiment.{
  ExperimentVariant, effective_weight, total_weight, pick_from, divisor, deterministic_pick,
}

-- n copies of a variant, before others.
abbrev copies : ℕ → ExperimentVariant → List ExperimentVariant → List ExperimentVariant
copies zero v rest = rest
copies (suc n) v rest = v ∷ copies n v rest

-- The buckets in order, each by the variant that owns it.
unfoldable pub bucket_owners : List ExperimentVariant → List ExperimentVariant
bucket_owners [] = []
bucket_owners (v ∷ vs) = copies (effective_weight v) v (bucket_owners vs)

abbrev pub element_at : List ExperimentVariant → ℕ → Option ExperimentVariant
element_at [] i = none
element_at (v ∷ vs) zero = some v
element_at (v ∷ vs) (suc i) = element_at vs i

element_at-copies :
    (n i : ℕ) (v : ExperimentVariant) (rest : List ExperimentVariant)
    → element_at (copies n v rest) i ≡ (if ltb i n then some v else element_at rest (i - n))
element_at-copies zero zero v rest = refl
element_at-copies zero (suc i) v rest = ground arith
element_at-copies (suc n) zero v rest = ground arith
element_at-copies (suc n) (suc i) v rest = ground (arith, element_at-copies n i v rest)

weight_pos : (v : ExperimentVariant) → 0 < effective_weight v
unfolding effective_weight
weight_pos v = ground arith

pick_from-owner :
    (bucket start : ℕ) (v : ExperimentVariant) (vs : List ExperimentVariant)
    → start ≤ bucket
    → bucket < start + total_weight (v ∷ vs)
    → element_at (bucket_owners (v ∷ vs)) (bucket - start) ≡ some (pick_from bucket start v vs)
unfolding pick_from total_weight bucket_owners
pick_from-owner bucket start v [] low high =
    ground (arith, element_at-copies (effective_weight v) (bucket - start) v [])
pick_from-owner bucket start v (w ∷ ws) low high =
    let n = effective_weight v in
    ground (
      arith,
      element_at-copies n (bucket - start) v (bucket_owners (w ∷ ws)),
      pick_from-owner bucket (start + n) w ws,
    )

total_pos : (v : ExperimentVariant) (vs : List ExperimentVariant) → 0 < total_weight (v ∷ vs)
unfolding total_weight
total_pos v vs = omega (arith, weight_pos v)

divisor-total :
    (v : ExperimentVariant) (vs : List ExperimentVariant)
    → total_weight (v ∷ vs) < 2 ^ 32
    → divisor (v ∷ vs) ≡ total_weight (v ∷ vs)
divisor-total v vs small = omega arith

owner-at :
    (n : ℕ) (v : ExperimentVariant) (vs : List ExperimentVariant)
    → element_at (bucket_owners (v ∷ vs)) (n % total_weight (v ∷ vs))
      ≡ some (pick_from (n % total_weight (v ∷ vs)) 0 v vs)
owner-at n v vs =
    let bucket = n % total_weight (v ∷ vs) in
    let below : bucket < total_weight (v ∷ vs) = mod-lt n (total_pos v vs) in
    let same : bucket - 0 ≡ bucket = omega arith in
    ap (element_at (bucket_owners (v ∷ vs))) (sym same)
    ∙ pick_from-owner bucket 0 v vs (omega arith) (omega (arith, below))

picks :
    (hash32 : String → ℕ) (user_id experiment_id : String) (v : ExperimentVariant)
    (vs : List ExperimentVariant)
    → total_weight (v ∷ vs) < 2 ^ 32
    → deterministic_pick hash32 user_id experiment_id v vs
      ≡ some (
          pick_from
            (hash32 (concat user_id (concat ":" experiment_id)) % total_weight (v ∷ vs))
            0
            v
            vs)
unfolding deterministic_pick
picks hash32 user_id experiment_id v vs small =
    let not_zero : eqb (total_weight (v ∷ vs)) 0 ≡ false = ground (arith, total_pos v vs) in
    rw (divisor-total v vs small) (rw not_zero refl)

-- For weights that add up to less than 2^32, the pick does not panic and is the owner of the bucket
-- that the hash of the user and the experiment falls in, where the buckets belong to the variants
-- in order, as many to each as its weight, and one to a variant of weight 0 or less.
pub pick_owner :
    (hash32 : String → ℕ) (user_id experiment_id : String) (v : ExperimentVariant)
    (vs : List ExperimentVariant)
    → total_weight (v ∷ vs) < 2 ^ 32
    → let bucket = hash32 (concat user_id (concat ":" experiment_id)) % total_weight (v ∷ vs) in
      (is_some (deterministic_pick hash32 user_id experiment_id v vs) ≡ true)
      × (deterministic_pick hash32 user_id experiment_id v vs
          ≡ element_at (bucket_owners (v ∷ vs)) bucket)
pick_owner hash32 user_id experiment_id v vs small =
    let hash = hash32 (concat user_id (concat ":" experiment_id)) in
    let picked = picks hash32 user_id experiment_id v vs small in
    (ap is_some picked, picked ∙ sym (owner-at hash v vs))
