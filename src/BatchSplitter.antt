-- ===== src/BatchSplitter.antt =====
-- batchsplitter.go: deviceBatchSplitter, which deduplicates and splits lists of devices. The
-- children prove each method against an independent description. An int at most 0 is 0 here.
pub mod Split
pub mod Dedup
pub mod Tests
use grnoti.Prelude.{
  ℕ, zero, suc, ◌||◌, List, [], ◌∷◌, Option, none, some, leb, is_empty, if◌then◌else◌, length, take,
  drop,
}
use grnoti.Prelude.Maps.{Map, lookup, insert}
use grnoti.Types.{Device}

-- The loop of Deduplicate: `seen` is the set of the FIDs that were kept.
unfoldable pub deduplicate_from : Map (Unit {0}) → List Device → List Device
deduplicate_from seen [] = []
deduplicate_from seen (dev ∷ rest) = elim (lookup dev.fid seen) [
  | some _ ↦ deduplicate_from seen rest
  | none ↦ dev ∷ deduplicate_from (insert dev.fid tt seen) rest
]

unfoldable pub deduplicate : List Device → List Device
deduplicate devices = deduplicate_from [] devices

-- The loop of Split: each round cuts off up to `size` devices. With `size` positive, as many
-- rounds as there are devices suffice (`batches-flatten`).
unfoldable pub batches : ℕ → ℕ → List Device → List (List Device)
batches fuel size [] = []
batches zero size (dev ∷ rest) = []
batches (suc fuel) size (dev ∷ rest) =
    take size (dev ∷ rest) ∷ batches fuel size (drop size (dev ∷ rest))

unfoldable pub split : List Device → ℕ → List (List Device)
split devices max_batch_size =
    if leb max_batch_size 0 || is_empty devices
    then devices ∷ []
    else batches (length devices) max_batch_size devices
