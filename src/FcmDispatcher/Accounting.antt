-- ===== src/FcmDispatcher/Accounting.antt =====
-- The counts that Send of dispatcher.fcm.go returns, over all platforms and batches.
use mathlib.Core.Path.{subst}
use mathlib.Core.List.{flatten}
use grnoti.Prelude.{
  ℕ, ◌+◌, ◌≡◌, refl, ap, true, ◌&&◌, not, Option, none, some, List, [], ◌∷◌, ◌++◌, arith, if_both,
  is_empty, length, length-append, length-append_one,
}
use grnoti.Prelude.Maps.{Map, lookup, insert}
use grnoti.Types.{Platform, Device, Message, DispatchResult, no_dispatch, Error}
use grnoti.BatchSplitter.{deduplicate, deduplicate_from, split}
use grnoti.BatchSplitter.Split.{flatten-split}
use grnoti.FcmDispatcher.{config_is_valid, FcmDispatcher, FcmEnv, Trace, checks}
use grnoti.FcmDispatcher.Send.{
  fcm_max_batch_size, add_batch, checked_batch, send_batch_list, send_platform_batches, platform_of,
  devices_at, group_by_platform, add_platform, send_groups, send_sized, send,
}
use grnoti.FcmDispatcher.Counts.{IsFcmClient, Accounts, checked-Accounts}

add-Accounts :
    (n m : ℕ) (a b : DispatchResult)
    → Accounts n a
    → Accounts m b
    → Accounts (n + m) (add_batch a b)
add-Accounts n m a b v w = record {
  all_counted = omega (arith, v.all_counted, w.all_counted);
  classified =
      omega (arith, v.classified, w.classified, length-append a.invalid_fids b.invalid_fids);
}

abbrev group_total : Map (List Device) → ℕ
group_total [] = 0
group_total ((platform, devices) ∷ rest) = length devices + group_total rest

group_total-insert :
    (platform : Platform) (new : List Device) (groups : Map (List Device))
    → group_total (insert platform new groups) + length (devices_at (lookup platform groups))
      ≡ group_total groups + length new
unfolding insert lookup
group_total-insert platform new [] = omega arith
group_total-insert platform new ((p, devices) ∷ rest) =
    ground (arith, group_total-insert platform new rest)

group_total-group :
    (groups : Map (List Device)) (ds : List Device)
    → group_total (group_by_platform groups ds) ≡ group_total groups + length ds
unfolding group_by_platform
group_total-group groups [] = omega arith
group_total-group groups (dev ∷ rest) =
    let p = platform_of dev in
    let old = devices_at (lookup p groups) in
    let new = old ++ (dev ∷ []) in
    omega (
      arith,
      group_total-group (insert p new groups) rest,
      group_total-insert p new groups,
      length-append_one old dev,
    )

-- How many recipients Send accounts for: all that it is given if the message is refused as too
-- large, and else one for each FID.
abbrev pub accounted : List Device → Option Error → ℕ
accounted devices (some e) = length devices
accounted devices none = length (deduplicate devices)

accounted-nil : (refusal : Option Error) → accounted [] refusal ≡ 0
unfolding deduplicate deduplicate_from
accounted-nil (some e) = refl
accounted-nil none = refl

module _ (d : FcmDispatcher) (env : FcmEnv) (client : IsFcmClient env)
    (valid : config_is_valid d.config ≡ true) (msg : Message) where
  send_batch_list-Accounts :
      (batches : List (List Device)) (platform : Platform) (n : ℕ) (x : DispatchResult × Trace)
      → Accounts n x.0
      → Accounts (n + length (flatten batches)) (send_batch_list d env batches msg platform x).0
  unfolding send_batch_list flatten
  send_batch_list-Accounts [] platform n (result, t) v =
      subst (λ m. Accounts m result) (omega arith) v
  send_batch_list-Accounts (batch ∷ rest) platform n (result, t) v =
      let one = checked_batch d env batch msg platform (checks ∷ t) (env.cancelled t) in
      let both =
        add-Accounts n (length batch) result one.0 v
          (checked-Accounts d env client batch msg platform valid (checks ∷ t) (env.cancelled t)) in
      subst
        (λ m.
          Accounts m (send_batch_list d env rest msg platform (add_batch result one.0, one.1)).0)
        (omega (arith, length-append batch (flatten rest)))
        (send_batch_list-Accounts rest platform (n + length batch) (add_batch result one.0, one.1)
          both)

  send_platform-Accounts :
      (devices : List Device) (platform : Platform) (t : Trace)
      → Accounts (length devices) (send_platform_batches d env devices msg platform t).0
  unfolding send_platform_batches
  send_platform-Accounts devices platform t =
      let batches = split devices fcm_max_batch_size in
      subst (λ m. Accounts m (send_batch_list d env batches msg platform (no_dispatch, t)).0)
        (omega
          (arith, ap (λ (ds : List Device). length ds) (flatten-split devices fcm_max_batch_size)))
        (send_batch_list-Accounts batches platform 0 (no_dispatch, t)
          (record { all_counted = omega arith; classified = omega arith }))

  send_groups-Accounts :
      (groups : Map (List Device)) (n : ℕ) (x : DispatchResult × Trace)
      → Accounts n x.0
      → Accounts (n + group_total groups) (send_groups d env groups msg x).0
  unfolding send_groups
  send_groups-Accounts [] n (result, t) v = subst (λ m. Accounts m result) (omega arith) v
  send_groups-Accounts ((platform, devices) ∷ rest) n (result, t) v =
      let r = send_platform_batches d env devices msg platform t in
      let both =
        add-Accounts n (length devices) result r.0 v (send_platform-Accounts devices platform t) in
      subst (λ m. Accounts m (send_groups d env rest msg (add_platform result platform r.0, r.1)).0)
        (omega arith)
        (send_groups-Accounts rest (n + length devices) (add_platform result platform r.0, r.1)
          (record { all_counted = both.all_counted; classified = both.classified }))

  send_sized-Accounts :
      (devices : List Device) (t : Trace) (refusal : Option Error)
      → Accounts (accounted devices refusal) (send_sized d env devices msg t refusal).0.0
  send_sized-Accounts devices t (some e) = record {
    all_counted = omega arith;
    classified = omega arith;
  }
  send_sized-Accounts devices t none =
      let groups = group_by_platform [] (deduplicate devices) in
      let x = send_groups d env groups msg (no_dispatch, t) in
      let all =
        send_groups-Accounts groups 0 (no_dispatch, t)
          (record { all_counted = omega arith; classified = omega arith }) in
      if_both
        (λ (y : (DispatchResult × Option Error) × Trace).
          Accounts (length (deduplicate devices)) y.0.0)
        (d.has_metrics && not (is_empty x.0.invalid_fids)) _ _
        (subst (λ m. Accounts m x.0) (omega (arith, group_total-group [] (deduplicate devices)))
          all)
        (subst (λ m. Accounts m x.0) (omega (arith, group_total-group [] (deduplicate devices)))
          all)

  -- For a client that answers as the Firebase library documents and a configuration that the
  -- constructor accepts, whatever the rate limiter, the breaker and the context do: Send accounts
  -- for every recipient, one for each FID (or all those given, if the message is too large), as a
  -- success or as a failure; and the invalid FIDs and retryable failures are among the failures.
  pub send-Accounts :
      (devices : List Device) (t : Trace)
      → Accounts (accounted devices (env.validate_size msg)) (send d env devices msg t).0.0
  unfolding send
  send-Accounts [] t =
      let none_sent = accounted-nil (env.validate_size msg) in
      record { all_counted = omega (arith, none_sent); classified = omega arith }
  send-Accounts (dev ∷ devs) t = send_sized-Accounts (dev ∷ devs) t (env.validate_size msg)
