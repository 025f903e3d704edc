-- ===== src/BatchSplitter/Tests.antt =====
-- Runs of the batch splitter, and its theorems at concrete devices.
use grnoti.Prelude.{◌≡◌, refl, true, List, [], ◌∷◌, String}
use grnoti.Prelude.Maps.{lookup, insert}
use grnoti.Types.{Device, platform_android}
use grnoti.BatchSplitter.{deduplicate_from, deduplicate, batches, split}
use grnoti.BatchSplitter.Dedup.{first_of_each_fid, deduplicate-eq-first_of_each_fid}

abbrev pub device : String → Device
device fid = record {
  fid = fid;
  platform = platform_android;
  user_id = "u";
  anonymous_id = "";
  device_id = "";
  app_version = "";
  is_active = true;
  created_at = 0;
  updated_at = 0;
}

abbrev pub five : List Device
five = device "a" ∷ device "b" ∷ device "a" ∷ device "c" ∷ device "b" ∷ []

deduplicate-five : deduplicate five ≡ device "a" ∷ device "b" ∷ device "c" ∷ []
unfolding deduplicate deduplicate_from lookup insert
deduplicate-five = refl

split-five :
    split five 2
    ≡ (device "a" ∷ device "b" ∷ []) ∷ (device "a" ∷ device "c" ∷ []) ∷ (device "b" ∷ []) ∷ []
unfolding split batches
split-five = refl

deduplicate-eq-first_of_each_fid_example : deduplicate five ≡ first_of_each_fid five
deduplicate-eq-first_of_each_fid_example = deduplicate-eq-first_of_each_fid five
