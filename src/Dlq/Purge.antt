-- ===== src/Dlq/Purge.antt =====
-- Which records PurgeExpiredEvents of memory.go deletes.
use grnoti.Prelude.{
  ℕ, ◌+◌, ◌-◌, ◌≡◌, refl, Option, none, some, [], ◌∷◌, String, arith, eq_iff, length, if◌then◌else◌,
}
use grnoti.Prelude.Maps.{Map, lookup}
use grnoti.Prelude.Keys.{Unique}
use grnoti.Dlq.{DlqEvent, Handler, is_expired, purge, purge_expired_events}
use grnoti.Dlq.Invariant.{Inv, expired-lookup}

-- A record that has not expired.
abbrev pub kept : ℕ → Option DlqEvent → Option DlqEvent
kept cutoff none = none
kept cutoff (some e) = if is_expired cutoff e then none else some e

purge-kept :
    (cutoff : ℕ) (id : String) (events : Map DlqEvent)
    → Unique events
    → lookup id (purge cutoff events).1 ≡ kept cutoff (lookup id events)
unfolding purge lookup
purge-kept cutoff id [] u = refl
purge-kept cutoff id ((k, e) ∷ rest) u =
    ground (arith, u, eq_iff k id, purge-kept cutoff id rest, expired-lookup cutoff k rest)

purge-length :
    (cutoff : ℕ) (events : Map DlqEvent)
    → (purge cutoff events).0 + length (purge cutoff events).1 ≡ length events
unfolding purge
purge-length cutoff [] = omega arith
purge-length cutoff ((k, e) ∷ rest) = ground (arith, purge-length cutoff rest)

-- A purge deletes exactly the records that are resolved, exhausted or older than the given age,
-- keeps every other record as it is, and returns how many it deleted.
pub purge_exactly :
    (h : Handler) (max_age now : ℕ) (id : String)
    → Inv h
    → let x = purge_expired_events h max_age now in
      (lookup id x.1.events ≡ kept (now - max_age) (lookup id h.events))
      × (x.0 + length x.1.events ≡ length h.events)
unfolding purge_expired_events
purge_exactly h max_age now id v =
    (purge-kept (now - max_age) id h.events v.unique, purge-length (now - max_age) h.events)
