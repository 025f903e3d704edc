-- ===== src/PreferencesStore/Coherence.antt =====
-- The cached store of cache.preferences.go keeps the promise of its interface, in front of a store
-- that does: what the cache may still give is never older than the last write.
use text.Mathlib.TextLemmas.{append_cancel_left}
use grnoti.Prelude.{
  ℕ, ◌≡◌, refl, sym, ap, ◌∙◌, true, Option, none, some, Result, ok, err, List, [], ◌∷◌, String, inl,
  inr, arith, if_both, if_cases, ◌==◌, eq_iff, eq_refl,
}
use grnoti.Types.{EventType, Error}
use grnoti.Cache.{CacheLaws, Read, found, missing, failed, has_tag}
use grnoti.Preferences.{NotificationPreferences, is_not_found}
use grnoti.PreferencesStore.{
  Implements, View, get_answer, enabled_answer, save_answer, view_saved, Request, answers, promises,
  answers-eq-promises,
}
use grnoti.PreferencesStore.Cached.{
  CachedPreferences, preferences_cache_key, preferences_cache_tag, usable, put, filled, hit_or,
  get_cached, invalidated, save_cached, enabled_cached, is_enabled_cached, cached_store,
}

key_injective : (a b : String) → preferences_cache_key a ≡ preferences_cache_key b → a ≡ b
key_injective a b e = append_cancel_left "grnoti:preferences:" a b e

answered :
    (o : Option NotificationPreferences) (prefs : NotificationPreferences)
    → ok prefs ≡ get_answer o
    → o ≡ some prefs
answered none prefs a = ground (arith, a)
answered (some old) prefs a = ground (arith, a)

module _ {T Raw C : Type 0} (s : CachedPreferences T Raw C) (impl : Implements s.store)
    (laws : CacheLaws s.cache)
    (round_trip : (p : NotificationPreferences) (raw : Raw)
      → s.codec.marshal p ≡ some raw
      → s.codec.unmarshal raw ≡ some p)
    (reliable : (c : C) (tag : String) → (s.cache.invalidate_tag c tag).0 ≡ none) where
  -- The preferences that the entry under a user's key gives are the user's, and the entry carries
  -- the user's tag.
  abbrev pub Coherent : C → View → Type 0
  Coherent c v =
      (user_id : String) (raw : Raw) (tags : List String)
      → laws.Entry c (preferences_cache_key user_id) raw tags
      → (has_tag (preferences_cache_tag user_id) tags ≡ true)
        × ((p : NotificationPreferences) → s.codec.unmarshal raw ≡ some p → v user_id ≡ some p)

  set-Coherent :
      (c : C) (v : View) (user_id : String) (prefs : NotificationPreferences) (raw : Raw)
      → Coherent c v
      → v user_id ≡ some prefs
      → s.codec.marshal prefs ≡ some raw
      → Coherent (put s c user_id prefs (some raw)) v
  set-Coherent c v user_id prefs raw h e m other r ts entry =
      elim (laws.Entry-set c _ _ raw r s.ttl (preferences_cache_tag user_id ∷ []) ts entry) [
        | inl old ↦ h other r ts old
        | inr new ↦
            let same = key_injective other user_id new.0 in
            (
              rw (new.2, same, eq_refl (preferences_cache_tag user_id)),
              λ p d.
                  ap v same
                  ∙ e
                  ∙ sym (round_trip prefs raw m)
                  ∙ ap s.codec.unmarshal (sym new.1)
                  ∙ d,
            )
      ]

  put-Coherent :
      (c : C) (v : View) (user_id : String) (prefs : NotificationPreferences) (raw : Option Raw)
      → Coherent c v
      → v user_id ≡ some prefs
      → s.codec.marshal prefs ≡ raw
      → Coherent (put s c user_id prefs raw) v
  put-Coherent c v user_id prefs none h e m = h
  put-Coherent c v user_id prefs (some raw) h e m = set-Coherent c v user_id prefs raw h e m

  ShowsBoth : T × C → View → Type 0
  ShowsBoth state v = impl.Shows state.0 v × Coherent state.1 v

  filled_lem :
      (c : C) (v : View) (user_id : String) (r : Result Error NotificationPreferences × T)
      → r.0 ≡ get_answer (v user_id)
      → impl.Shows r.1 v
      → Coherent c v
      → ((filled s c user_id r).0 ≡ get_answer (v user_id)) × ShowsBoth (filled s c user_id r).1 v
  unfolding ShowsBoth
  filled_lem c v user_id (err e, t) a shows h = (a, (shows, h))
  filled_lem c v user_id (ok prefs, t) a shows h = (
    a,
    (
      shows,
      put-Coherent c v user_id prefs (s.codec.marshal prefs) h (answered (v user_id) prefs a) refl,
    ),
  )

  hit_or_lem :
      (t : T) (c : C) (v : View) (user_id : String) (hit : Option NotificationPreferences)
      → ((p : NotificationPreferences) → hit ≡ some p → v user_id ≡ some p)
      → impl.Shows t v
      → Coherent c v
      → ((hit_or s t c user_id hit).0 ≡ get_answer (v user_id))
        × ShowsBoth (hit_or s t c user_id hit).1 v
  unfolding ShowsBoth
  hit_or_lem t c v user_id (some p) right shows h = (ap get_answer (sym (right p refl)), (shows, h))
  hit_or_lem t c v user_id none right shows h =
      let r = impl.get_lem t v user_id shows in
      filled_lem c v user_id (s.store.get_preferences t user_id) r.0 r.1 h

  usable_lem :
      (c : C) (v : View) (user_id : String) (read : Read Raw)
      → (s.cache.get c (preferences_cache_key user_id)).0 ≡ read
      → Coherent c v
      → (p : NotificationPreferences) → usable s read ≡ some p
      → v user_id ≡ some p
  usable_lem c v user_id (found raw) e h p d =
      let entry = laws.get-Entry c (preferences_cache_key user_id) raw e in
      (h user_id raw entry.0 entry.1).1 p d
  usable_lem c v user_id missing e h p d = ground (arith, d)
  usable_lem c v user_id (failed why) e h p d = ground (arith, d)

  get_cached_lem :
      (state : T × C) (v : View) (user_id : String)
      → ShowsBoth state v
      → ((get_cached s state user_id).0 ≡ get_answer (v user_id))
        × ShowsBoth (get_cached s state user_id).1 v
  unfolding ShowsBoth get_cached
  get_cached_lem (t, c) v user_id (shows, h) =
      let read = s.cache.get c (preferences_cache_key user_id) in
      hit_or_lem t read.1 v user_id (usable s read.0) (usable_lem c v user_id read.0 refl h) shows
        (λ other raw tags entry. h other raw tags (laws.Entry-get c _ _ raw tags entry))

  enabled_cached_lem :
      (user_id : String) (type : EventType) (o : Option NotificationPreferences)
      → enabled_cached s user_id type (get_answer o) ≡ ok (enabled_answer o type)
  unfolding is_not_found
  enabled_cached_lem user_id type none = refl
  enabled_cached_lem user_id type (some prefs) = refl

  -- A write leaves no entry of its user.
  invalidate-Coherent :
      (c : C) (v : View) (now : ℕ) (prefs : NotificationPreferences)
      → Coherent c v
      → Coherent
          (s.cache.invalidate_tag c (preferences_cache_tag prefs.user_id)).1
          (view_saved v now prefs)
  invalidate-Coherent c v now prefs h other raw tags entry =
      let kept = laws.Entry-invalidate c _ _ raw tags entry in
      let dropped = kept.1 (reliable c (preferences_cache_tag prefs.user_id)) in
      let was = h other raw tags kept.0 in
      (
        was.0,
        λ p d.
            if_both (λ x. x ≡ some p) (prefs.user_id == "") _ _ (was.1 p d)
              (if_cases (λ x. x ≡ some p) (prefs.user_id == other) _ _
                (λ same. ground (
                  arith,
                  ap (λ u. has_tag (preferences_cache_tag u) tags)
                        ((eq_iff prefs.user_id other).0 same)
                      ∙ was.0,
                  dropped,
                ))
                (λ differ. was.1 p d)),
      )

  -- A refused write changes no view.
  refused-Coherent :
      (c : C) (v : View) (now : ℕ) (prefs : NotificationPreferences) (e : Error)
      → some e ≡ save_answer prefs
      → Coherent c v
      → Coherent c (view_saved v now prefs)
  refused-Coherent c v now prefs e refused h other raw tags entry =
      let was = h other raw tags entry in
      (
        was.0,
        λ p d.
            if_cases (λ x. x ≡ some p) (prefs.user_id == "") _ _ (λ blank. was.1 p d)
              (λ named. ground (arith, refused, named)),
      )

  invalidated_lem :
      (c : C) (v : View) (now : ℕ) (prefs : NotificationPreferences) (r : Option Error × T)
      → r.0 ≡ save_answer prefs
      → impl.Shows r.1 (view_saved v now prefs)
      → Coherent c v
      → ((invalidated s c prefs r).0 ≡ save_answer prefs)
        × ShowsBoth (invalidated s c prefs r).1 (view_saved v now prefs)
  unfolding ShowsBoth
  invalidated_lem c v now prefs (some e, t) a shows h =
      (a, (shows, refused-Coherent c v now prefs e a h))
  invalidated_lem c v now prefs (none, t) a shows h =
      (a, (shows, invalidate-Coherent c v now prefs h))

  save_cached_lem :
      (state : T × C) (v : View) (now : ℕ) (prefs : NotificationPreferences)
      → ShowsBoth state v
      → ((save_cached s state now prefs).0 ≡ save_answer prefs)
        × ShowsBoth (save_cached s state now prefs).1 (view_saved v now prefs)
  unfolding ShowsBoth save_cached
  save_cached_lem (t, c) v now prefs (shows, h) =
      let r = impl.save_lem t v now prefs shows in
      invalidated_lem c v now prefs (s.store.save_preferences t now prefs) r.0 r.1 h

  is_enabled_cached_lem :
      (state : T × C) (v : View) (user_id : String) (type : EventType)
      → ShowsBoth state v
      → ((is_enabled_cached s state user_id type).0 ≡ ok (enabled_answer (v user_id) type))
        × ShowsBoth (is_enabled_cached s state user_id type).1 v
  unfolding is_enabled_cached
  is_enabled_cached_lem state v user_id type shows =
      let r = get_cached_lem state v user_id shows in
      (ap (enabled_cached s user_id type) r.0 ∙ enabled_cached_lem user_id type (v user_id), r.1)

  cached-Implements : Implements (cached_store s)
  cached-Implements = record {
    Shows = ShowsBoth;
    get_lem = get_cached_lem;
    save_lem = save_cached_lem;
    enabled_lem = is_enabled_cached_lem;
  }

  -- The cached store, with an empty cache in front of any store that keeps the promise of
  -- PreferencesStore, answers every sequence of reads and writes as that promise says, so no
  -- answer is stale: for every cache whose entries come from Set, may vanish at any time and are
  -- gone once InvalidateTag of one of their tags succeeds. Reads and writes of the cache may fail;
  -- invalidations are assumed to succeed, and Unmarshal to give back what Marshal took.
  pub cached_answers :
      (t : T) (c : C) (v : View) (requests : List Request)
      → impl.Shows t v
      → ((key : String) (raw : Raw) (tags : List String) → ¬ laws.Entry c key raw tags)
      → answers (cached_store s) (t, c) requests ≡ promises v requests
  unfolding ShowsBoth cached-Implements
  cached_answers t c v requests shows empty =
      answers-eq-promises (cached_store s) cached-Implements (t, c) v requests
        (shows, λ user_id raw tags entry. absurd (empty _ raw tags entry))
