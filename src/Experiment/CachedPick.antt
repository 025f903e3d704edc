-- ===== src/Experiment/CachedPick.antt =====
-- The cached engine of cache.experiment.go answers as if it had no cache.
use text.Mathlib.TextLemmas.{append_cancel_right}
use grnoti.Prelude.{
  ℕ, ◌≡◌, refl, sym, ap, ◌∙◌, Option, none, some, Result, ok, List, [], ◌∷◌, String, concat, map,
  inl, inr, arith,
}
use grnoti.Types.{Error}
use grnoti.Calls.{Env, History}
use grnoti.Cache.{CacheLaws, Read, found, missing, failed}
use grnoti.Experiment.{ExperimentVariant, Experiment, assignment_key, deterministic_pick}
use grnoti.Experiment.Cached.{
  CacheEngine, read_variant, get_cached_variant, existing_variant, put_variant, cache_pick,
  cache_or_pick, assign_cached,
}

same_user : (a b id : String) → assignment_key a id ≡ assignment_key b id → a ≡ b
unfolding assignment_key
same_user a b id s = append_cancel_right a b (concat ":" id) s

abbrev pub answer_of : Option ExperimentVariant → Option (Result Error ExperimentVariant)
answer_of none = none
answer_of (some w) = some (ok w)

module _ {Raw C : Type 0} (e : CacheEngine Raw C) (hash32 : String → ℕ) (x : Experiment)
    (v : ExperimentVariant) (vs : List ExperimentVariant) where
  -- The answers to one call for each of the users, in their order.
  abbrev pub assign_each :
      C → List String → Env → History → List (Option (Result Error ExperimentVariant))
  assign_each c [] env h = []
  assign_each c (user_id ∷ users) env h =
      let r = assign_cached e hash32 c user_id (some (record x { variants = v ∷ vs })) env h in
      r.0.0 ∷ assign_each r.0.1 users env r.1

module _ {Raw C : Type 0} (e : CacheEngine Raw C) (hash32 : String → ℕ) (laws : CacheLaws e.cache)
    (round_trip : (v : ExperimentVariant) (raw : Raw)
      → e.codec.marshal v ≡ some raw
      → e.codec.unmarshal raw ≡ some v)
    (x : Experiment) (v : ExperimentVariant) (vs : List ExperimentVariant) where
  abbrev pick : String → Option ExperimentVariant
  pick user_id = deterministic_pick hash32 user_id x.id v vs

  -- Every entry of the experiment is the pick of its user.
  abbrev pub HoldsPicks : C → Type 0
  HoldsPicks c =
      (user_id : String) (raw : Raw) (tags : List String)
      → laws.Entry c (assignment_key user_id x.id) raw tags
      → (w : ExperimentVariant) → e.codec.unmarshal raw ≡ some w
      → pick user_id ≡ some w

  get-HoldsPicks : (c : C) (key : String) → HoldsPicks c → HoldsPicks (e.cache.get c key).1
  get-HoldsPicks c key h user_id raw tags entry =
      h user_id raw tags (laws.Entry-get c key _ raw tags entry)

  put-HoldsPicks :
      (c : C) (user_id : String) (w : ExperimentVariant) (raw : Option Raw)
      → HoldsPicks c
      → pick user_id ≡ some w
      → e.codec.marshal w ≡ raw
      → HoldsPicks (put_variant e hash32 c user_id x.id raw)
  put-HoldsPicks c user_id w none h p m other r ts entry u d = h other r ts entry u d
  put-HoldsPicks c user_id w (some raw) h p m other r ts entry u d =
      elim (laws.Entry-set c _ _ raw r _ [] ts entry) [
        | inl old ↦ h other r ts old u d
        | inr new ↦
            ap pick (same_user other user_id x.id new.0)
            ∙ p
            ∙ sym (round_trip w raw m)
            ∙ ap e.codec.unmarshal (sym new.1)
            ∙ d
      ]

  -- One call: its answer is the pick, and the entries stay picks.
  abbrev Picked : String → Option (Result Error ExperimentVariant) × C → Type 0
  Picked user_id r = (r.0 ≡ answer_of (pick user_id)) × HoldsPicks r.1

  cache_pick_lem :
      (c : C) (user_id : String) (choice : Option ExperimentVariant) (env : Env) (h : History)
      → HoldsPicks c
      → pick user_id ≡ choice
      → Picked user_id (cache_pick e hash32 c user_id x.id choice env h).0
  cache_pick_lem c user_id none env h k p = (ap answer_of (sym p), k)
  cache_pick_lem c user_id (some w) env h k p =
      (ap answer_of (sym p), put-HoldsPicks c user_id w (e.codec.marshal w) k p refl)

  cache_or_pick_lem :
      (c : C) (user_id : String) (old : Option ExperimentVariant) (env : Env) (h : History)
      → HoldsPicks c
      → ((w : ExperimentVariant) → old ≡ some w → pick user_id ≡ some w)
      → Picked user_id (cache_or_pick e hash32 c user_id x.id v vs old env h).0
  cache_or_pick_lem c user_id (some w) env h k p = (ap answer_of (sym (p w refl)), k)
  cache_or_pick_lem c user_id none env h k p = cache_pick_lem c user_id (pick user_id) env h k refl

  existing_lem :
      (c : C) (user_id : String) (read : Read Raw)
      → (e.cache.get c (assignment_key user_id x.id)).0 ≡ read
      → HoldsPicks c
      → (w : ExperimentVariant) → existing_variant e hash32 (read_variant e hash32 read) ≡ some w
      → pick user_id ≡ some w
  existing_lem c user_id (found raw) r k w d =
      let entry = laws.get-Entry c (assignment_key user_id x.id) raw r in
      k user_id raw entry.0 entry.1 w d
  existing_lem c user_id missing r k w d = ground (arith, d)
  existing_lem c user_id (failed why) r k w d = ground (arith, d)

  assign_lem :
      (c : C) (user_id : String) (env : Env) (h : History)
      → HoldsPicks c
      → Picked user_id
          (assign_cached e hash32 c user_id (some (record x { variants = v ∷ vs })) env h).0
  unfolding assign_cached get_cached_variant
  assign_lem c user_id env h k =
      let read = e.cache.get c (assignment_key user_id x.id) in
      cache_or_pick_lem read.1 user_id (existing_variant e hash32 (read_variant e hash32 read.0))
        env h (get-HoldsPicks c (assignment_key user_id x.id) k)
        (existing_lem c user_id read.0 refl k)

  assign_each_lem :
      (c : C) (users : List String) (env : Env) (h : History)
      → HoldsPicks c
      → assign_each e hash32 x v vs c users env h ≡ map (λ user_id. answer_of (pick user_id)) users
  assign_each_lem c [] env h k = refl
  assign_each_lem c (user_id ∷ users) env h k =
      let r = assign_cached e hash32 c user_id (some (record x { variants = v ∷ vs })) env h in
      let one = assign_lem c user_id env h k in
      rw (one.0, assign_each_lem r.0.1 users env r.1 one.1)

  -- The answers of the cached engine about an experiment, to any users in any order, are the picks
  -- that the engine computes without a cache: for every cache that is empty at first and whose
  -- entries come from Set, whether its operations succeed or fail and whether entries vanish.
  -- Unmarshal is assumed to give back what Marshal took.
  pub cached_picks :
      (c : C) (users : List String) (env : Env) (h : History)
      → ((key : String) (raw : Raw) (tags : List String) → ¬ laws.Entry c key raw tags)
      → assign_each e hash32 x v vs c users env h
        ≡ map (λ user_id. answer_of (deterministic_pick hash32 user_id x.id v vs)) users
  cached_picks c users env h empty =
      assign_each_lem c users env h (λ user_id raw tags entry. absurd (empty _ raw tags entry))
