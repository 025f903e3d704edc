-- ===== src/Idempotency/Marks.antt =====
-- The service of service.go over the idempotency store of cache.idempotency.go: what it is told of
-- the events that it recorded.
use text.Mathlib.TextLemmas.{append_cancel_left}
use grnoti.Prelude.{
  ℕ, ◌+◌, ◌≤◌, ◌≡◌, refl, sym, ap, ◌∙◌, Bool, true, false, ◌||◌, ◌&&◌, ok, List, [], ◌∷◌, String,
  concat, ◌==◌, arith, eq_iff, Bool-cases, inl, inr, ltb, eqb, if◌then◌else◌,
}
use grnoti.Prelude.Int.{ℤ, pos, negsuc}
use grnoti.Calls.{Call, mark_processed as marks_call, is_processed as checks_call, History, Env}
use grnoti.Service.Tally.{marked}
use grnoti.Service.Delivery.{contains}
use grnoti.Cache.{Cache}
use grnoti.Idempotency.{key_prefix, checked, is_processed, mark_processed}

-- A key that was set at a reading of the clock with a time to live, at a later reading: 0 stands for
-- no expiry.
abbrev pub is_alive : ℕ → ℕ → ℕ → Bool
is_alive set_at ttl now = eqb ttl 0 || ltb now (set_at + ttl)

-- A cache that loses nothing before its time: every operation succeeds and nothing is evicted. The
-- operations of a cache come by the reading of its clock, and `has` tells what stands in it at a
-- reading. A Set replaces the time to live of its key. Nothing is said of a negative one.
pub record Expiring {Raw C : Type 0} (cache : ℕ → Cache Raw C) : Type 0 where
  pub has : C → ℕ → String → Bool
  pub exists_lem :
      (c : C) (now : ℕ) (key : String) → ((cache now).exists c key).0 ≡ ok (has c now key)
  pub has-exists :
      (c : C) (now later : ℕ) (key other : String)
      → now ≤ later
      → has ((cache now).exists c key).1 later other ≡ has c later other
  pub has-set :
      (c : C) (now later : ℕ) (key other : String) (raw : Raw) (ttl : ℕ) (tags : List String)
      → now ≤ later
      → has ((cache now).set c key raw (pos ttl) tags).1 later other
        ≡ (if key == other then is_alive now ttl later else has c later other)

-- A ttl at most 0 means no expiry.
abbrev pub life : ℤ → ℕ
life (pos n) = n
life (negsuc n) = 0

same_key : (a b : String) → (concat key_prefix a == concat key_prefix b) ≡ (a == b)
same_key a b = elim (Bool-cases (a == b)) [
  | inl equal ↦
      (eq_iff (concat key_prefix a) (concat key_prefix b)).1
        (ap (concat key_prefix) ((eq_iff a b).0 equal))
      ∙ sym equal
  | inr differ ↦ elim (Bool-cases (concat key_prefix a == concat key_prefix b)) [
    | inl same ↦ ground (
      arith,
      (eq_iff a b).1 (
          append_cancel_left key_prefix a b
            ((eq_iff (concat key_prefix a) (concat key_prefix b)).0 same)),
      differ,
    )
    | inr other ↦ other ∙ sym differ
  ]
]

-- What IdempotencyStore promises of a history of calls, made at the readings `at`: an event is
-- processed at a reading when its latest mark has not expired by then.
module _ (at : History → ℕ) where
  abbrev pub is_marked : History → ℕ → String → Bool
  is_marked [] now id = false
  is_marked (marks_call other ttl ∷ h) now id =
      if other == id then is_alive (at h) (life ttl) now else is_marked h now id
  is_marked (_ ∷ h) now id = is_marked h now id

  -- No mark of the history has expired.
  abbrev pub all_last : History → ℕ → Bool
  all_last [] now = true
  all_last (marks_call other ttl ∷ h) now = is_alive (at h) (life ttl) now && all_last h now
  all_last (_ ∷ h) now = all_last h now

  is_marked-eq-contains :
      (h : History) (now : ℕ) (id : String)
      → all_last h now ≡ true
      → is_marked h now id ≡ contains (marked h) id
  is_marked-eq-contains [] now id last = refl
  is_marked-eq-contains (marks_call other ttl ∷ h) now id last =
      ground (arith, last, is_marked-eq-contains h now id (ground (arith, last)))
  is_marked-eq-contains (_ ∷ h) now id last = is_marked-eq-contains h now id last

module _ {Raw C : Type 0} (cache : ℕ → Cache Raw C) (at : History → ℕ) (marker : History → Raw)
    (start : C) where
  -- What a call of the service does to the cache behind its idempotency store.
  abbrev pub applied : C → Call → History → C
  applied c (marks_call id ttl) h = (mark_processed (cache (at h)) c (marker h) id ttl).1
  applied c (checks_call id) h = (is_processed (cache (at h)) c id).1
  applied c _ h = c

  abbrev pub replayed : History → C
  replayed [] = start
  replayed (call ∷ h) = applied (replayed h) call h

  -- The environment whose idempotency store is cacheIdempotencyStore.
  abbrev pub with_cache : Env → Env
  with_cache env = record env {
    is_processed_reply = λ h id. (is_processed (cache (at h)) (replayed h) id).0;
    mark_processed_reply =
        λ h id ttl. (mark_processed (cache (at h)) (replayed h) (marker h) id ttl).0;
  }

  module _ (expiring : Expiring cache)
      (empty : (now : ℕ) (key : String) → expiring.has start now key ≡ false)
      (steady : (call : Call) (h : History) → at h ≤ at (call ∷ h)) where
    has-marks :
        (h : History) (other : String) (ttl : ℤ) (now : ℕ) (id : String)
        → at h ≤ now
        → expiring.has (applied (replayed h) (marks_call other ttl) h) now (concat key_prefix id)
          ≡ (if other == id
              then is_alive (at h) (life ttl) now
              else expiring.has (replayed h) now (concat key_prefix id))
    unfolding mark_processed
    has-marks h other (pos n) now id later =
        expiring.has-set (replayed h) (at h) now (concat key_prefix other) (concat key_prefix id)
          (marker h) n [] later
        ∙ rw (same_key other id) refl
    has-marks h other (negsuc n) now id later =
        expiring.has-set (replayed h) (at h) now (concat key_prefix other) (concat key_prefix id)
          (marker h) 0 [] later
        ∙ rw (same_key other id) refl

    has-replayed :
        (h : History) (now : ℕ) (id : String)
        → at h ≤ now
        → expiring.has (replayed h) now (concat key_prefix id) ≡ is_marked at h now id
    unfolding is_processed
    has-replayed [] now id later = empty now (concat key_prefix id)
    has-replayed (marks_call other ttl ∷ h) now id later =
        let before : at h ≤ now = omega (arith, later, steady (marks_call other ttl) h) in
        has-marks h other ttl now id before ∙ rw (has-replayed h now id before) refl
    has-replayed (checks_call other ∷ h) now id later =
        let before : at h ≤ now = omega (arith, later, steady (checks_call other) h) in
        expiring.has-exists (replayed h) (at h) now (concat key_prefix other) (concat key_prefix id)
          before
        ∙ has-replayed h now id before
    has-replayed (call ∷ h) now id later =
        has-replayed h now id (omega (arith, later, steady call h))

    -- Over a cache that loses no key before its time to live has passed and starts without keys,
    -- under a clock that never goes back, and whatever else is called in between, the service is
    -- told of an event that it was processed exactly when its latest mark has not expired: a mark
    -- with a ttl at most 0 never does, and one with a positive ttl does when this time has passed.
    pub marks_expire :
        (env : Env) (h : History) (id : String)
        → (with_cache env).is_processed_reply h id ≡ ok (is_marked at h (at h) id)
    unfolding is_processed
    marks_expire env h id =
        ap (checked id) (expiring.exists_lem (replayed h) (at h) (concat key_prefix id))
        ∙ ap ok (has-replayed h (at h) id (omega arith))

    -- While no mark has expired, the answer is what redelivery_sends_nothing assumes of the store.
    pub unexpired_marks :
        (env : Env) (h : History) (id : String)
        → all_last at h (at h) ≡ true
        → (with_cache env).is_processed_reply h id ≡ ok (contains (marked h) id)
    unexpired_marks env h id last =
        marks_expire env h id ∙ ap ok (is_marked-eq-contains at h (at h) id last)
