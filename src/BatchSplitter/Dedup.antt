-- ===== src/BatchSplitter/Dedup.antt =====
-- Deduplicate of batchsplitter.go against a description with no set of seen FIDs.
use grnoti.Prelude.{
  ◌≡◌, refl, ap, ◌∙◌, true, not, List, [], ◌∷◌, String, ◌==◌, eq_iff, arith, select, is_some,
}
use grnoti.Prelude.Maps.{Map, lookup, insert, lookup-insert}
use grnoti.Types.{Device}
use grnoti.BatchSplitter.{deduplicate_from, deduplicate}

-- Keep the first device of each FID: keep a device, and drop the later ones with its FID.
pub first_of_each_fid : List Device → List Device
first_of_each_fid [] = []
first_of_each_fid (d ∷ ds) = d ∷ select (λ e. not (d.fid == e.fid)) (first_of_each_fid ds)

-- The devices whose FID is not yet in the set.
abbrev unseen : Map (Unit {0}) → List Device → List Device
unseen seen = select (λ e. not (is_some (lookup e.fid seen)))

unseen-insert :
    (k : String) (seen : Map (Unit {0})) (ds : List Device)
    → unseen (insert k tt seen) ds ≡ unseen seen (select (λ e. not (k == e.fid)) ds)
unseen-insert k seen [] = refl
unseen-insert k seen (d ∷ ds) =
    ground (arith, lookup-insert k d.fid tt seen, unseen-insert k seen ds)

unseen-select :
    (k : String) (seen : Map (Unit {0})) (ds : List Device)
    → is_some (lookup k seen) ≡ true
    → unseen seen (select (λ e. not (k == e.fid)) ds) ≡ unseen seen ds
unseen-select k seen [] h = refl
unseen-select k seen (d ∷ ds) h = ground (arith, eq_iff k d.fid, unseen-select k seen ds h)

deduplicate_from-unseen :
    (seen : Map (Unit {0})) (ds : List Device)
    → deduplicate_from seen ds ≡ unseen seen (first_of_each_fid ds)
unfolding deduplicate_from first_of_each_fid
deduplicate_from-unseen seen [] = refl
deduplicate_from-unseen seen (d ∷ ds) = ground (
  arith,
  deduplicate_from-unseen seen ds,
  deduplicate_from-unseen (insert d.fid tt seen) ds,
  unseen-insert d.fid seen (first_of_each_fid ds),
  unseen-select d.fid seen (first_of_each_fid ds),
)

unseen-nil : (ds : List Device) → unseen [] ds ≡ ds
unfolding lookup
unseen-nil [] = refl
unseen-nil (d ∷ ds) = ap (◌∷◌ d) (unseen-nil ds)

-- Deduplicate returns exactly the first device of each FID, in the order of the input.
pub deduplicate-eq-first_of_each_fid : (ds : List Device) → deduplicate ds ≡ first_of_each_fid ds
unfolding deduplicate
deduplicate-eq-first_of_each_fid ds =
    deduplicate_from-unseen [] ds ∙ unseen-nil (first_of_each_fid ds)
