-- ===== src/DeviceStore/Invalid.antt =====
-- A FID that the device store of memory.go was told is invalid.
use grnoti.Prelude.{
  ℕ, ◌≡◌, ◌≢◌, refl, ap, ◌∙◌, Bool, true, false, not, ◌&&◌, Option, none, some, List, [], ◌∷◌,
  String, ◌==◌, eq_iff, eq_refl, if◌then◌else◌, arith, select, all, All, All-weaken, All-both,
  All-select,
}
use grnoti.Prelude.Maps.{lookup, insert, values, lookup-insert, lookup-delete}
use grnoti.Prelude.Keys.{
  Unique, insert-Unique, All-insert, All-delete, delete-Unique, All-lookup, lookup-entries,
}
use grnoti.Types.{Device, Error, validate_device}
use grnoti.DeviceStore.{
  invalidate, save_checked, DeviceStore, get_active_devices, mark_invalid, invalidated, saved,
  save_device, delete_device, Op, marks_invalid, saves, deletes, step, run,
}

abbrev active_in : Option Device → Bool
active_in none = false
active_in (some d) = d.is_active

-- Whether a FID has an active device.
abbrev pub is_active_at : String → DeviceStore → Bool
is_active_at fid s = active_in (lookup fid s)

-- Every device stands under its FID, once.
pub record Inv (s : DeviceStore) : Type 0 where
  pub unique : Unique s
  pub keyed : All (λ (e : String × Device). e.1.fid ≡ e.0) s

-- An operation does not save a device under the FID.
abbrev pub spares : String → Op → Bool
spares fid (saves d now) = not (d.fid == fid)
spares fid _ = true

invalidate-inactive :
    (s : DeviceStore) (k fid : String) (now : ℕ) (found : Option Device)
    → lookup k s ≡ found
    → is_active_at fid (invalidate s k now found) ≡ (if k == fid then false else is_active_at fid s)
invalidate-inactive s k fid now none e = ground (arith, e, eq_iff k fid)
invalidate-inactive s k fid now (some d) e =
    ground (arith, lookup-insert k fid (invalidated d now) s)

mark_invalid-inactive :
    (s : DeviceStore) (k fid : String) (now : ℕ)
    → is_active_at fid (mark_invalid s k now) ≡ (if k == fid then false else is_active_at fid s)
unfolding mark_invalid
mark_invalid-inactive s k fid now = invalidate-inactive s k fid now (lookup k s) refl

step-inactive :
    (s : DeviceStore) (op : Op) (fid : String)
    → is_active_at fid s ≡ false
    → spares fid op ≡ true
    → is_active_at fid (step s op) ≡ false
unfolding step save_device delete_device
step-inactive s (marks_invalid k now) fid off spared =
    ground (arith, off, mark_invalid-inactive s k fid now)
step-inactive s (saves d now) fid off spared =
    ground (arith, off, spared, lookup-insert d.fid fid (saved s d now) s)
step-inactive s (deletes k) fid off spared = ground (arith, off, lookup-delete k fid s)

insert-Inv :
    (s : DeviceStore) (fid : String) (d : Device) → Inv s → d.fid ≡ fid → Inv (insert fid d s)
insert-Inv s fid d v same = record {
  unique = insert-Unique fid d s v.unique;
  keyed = All-insert (λ e. e.1.fid ≡ e.0) fid d s same v.keyed;
}

invalidate-Inv :
    (s : DeviceStore) (k : String) (now : ℕ) (found : Option Device)
    → Inv s
    → lookup k s ≡ found
    → Inv (invalidate s k now found)
invalidate-Inv s k now none v e = v
invalidate-Inv s k now (some d) v e =
    insert-Inv s k (invalidated d now) v (All-lookup (λ e. e.1.fid ≡ e.0) k d s v.keyed e)

save-Inv :
    (s : DeviceStore) (d : Device) (now : ℕ) (refusal : Option Error)
    → Inv s
    → Inv (save_checked s d now refusal).1
save-Inv s d now (some e) v = v
save-Inv s d now none v = insert-Inv s d.fid (saved s d now) v refl

pub step-Inv : (s : DeviceStore) (op : Op) → Inv s → Inv (step s op)
unfolding step mark_invalid save_device delete_device
step-Inv s (marks_invalid k now) v = invalidate-Inv s k now (lookup k s) v refl
step-Inv s (saves d now) v = save-Inv s d now (validate_device d) v
step-Inv s (deletes k) v = record {
  unique = delete-Unique k s v.unique;
  keyed = All-delete (λ e. e.1.fid ≡ e.0) k s v.keyed;
}

map-found :
    (s m : DeviceStore)
    → All (λ (e : String × Device). (e.1.fid ≡ e.0) × (lookup e.0 s ≡ some e.1)) m
    → All (λ (d : Device). lookup d.fid s ≡ some d) (values m)
map-found s [] ps = tt
map-found s ((k, d) ∷ m) ps = (ap (λ j. lookup j s) ps.0.0 ∙ ps.0.1, map-found s m ps.1)

values-found : (s : DeviceStore) → Inv s → All (λ (d : Device). lookup d.fid s ≡ some d) (values s)
values-found s v = map-found s s (
    All-both (λ e. e.1.fid ≡ e.0) (λ e. lookup e.0 s ≡ some e.1) s v.keyed
      (lookup-entries s v.unique))

active-found :
    (s : DeviceStore) (user_id : String)
    → Inv s
    → All (λ (d : Device). is_active_at d.fid s ≡ true) (get_active_devices s user_id)
unfolding get_active_devices
active-found s user_id v =
    let Found : Device → Type 0 = λ d. lookup d.fid s ≡ some d in
    let test : Device → Bool = λ d. d.user_id == user_id && d.is_active in
    All-weaken (λ d. Found d × (test d ≡ true)) (λ d. is_active_at d.fid s ≡ true)
      (select test (values s)) (λ d p. ground (arith, p))
      (All-select Found test (values s) (values-found s v))

run-hides :
    (s : DeviceStore) (ops : List Op) (fid user_id : String)
    → Inv s
    → is_active_at fid s ≡ false
    → all (spares fid) ops ≡ true
    → All (λ (d : Device). d.fid ≢ fid) (get_active_devices (run s ops) user_id)
unfolding run
run-hides s [] fid user_id v off spared =
    All-weaken (λ d. is_active_at d.fid s ≡ true) (λ d. d.fid ≢ fid) (get_active_devices s user_id)
      (λ d on same. ground (arith, on, off, ap (λ k. is_active_at k s) same))
      (active-found s user_id v)
run-hides s (op ∷ ops) fid user_id v off spared =
    run-hides (step s op) ops fid user_id (step-Inv s op v)
      (step-inactive s op fid off (ground (arith, spared))) (ground (arith, spared))

-- A FID that was marked invalid is returned for no user any more, through any later calls, until a
-- device is saved under it again.
pub invalid_is_hidden :
    (s : DeviceStore) (ops : List Op) (fid user_id : String) (now : ℕ)
    → Inv s
    → all (spares fid) ops ≡ true
    → All
        (λ (d : Device). d.fid ≢ fid)
        (get_active_devices (run (mark_invalid s fid now) ops) user_id)
unfolding step
invalid_is_hidden s ops fid user_id now v spared =
    run-hides (mark_invalid s fid now) ops fid user_id (step-Inv s (marks_invalid fid now) v)
      (ground (arith, mark_invalid-inactive s fid fid now, eq_refl fid)) spared
