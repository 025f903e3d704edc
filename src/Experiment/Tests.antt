-- ===== src/Experiment/Tests.antt =====
-- Runs of the experiment engine, and its theorems at a concrete experiment.
use grnoti.Prelude.{
  ℕ, ◌%◌, ◌≡◌, refl, sym, map, List, true, false, none, some, ok, err, [], ◌∷◌, String, arith,
  is_some,
}
use grnoti.Prelude.Int.{pos, negsuc}
use grnoti.Prelude.Maps.{lookup}
use grnoti.Types.{no_dispatch, err_closed}
use grnoti.Calls.{Env}
use grnoti.Experiment.{
  ExperimentVariant, Experiment, Engine, assignment_key, effective_weight, total_weight, pick_from,
  deterministic_pick, store_pick, assign_new, assign_variant,
}
use grnoti.Cache.Tests.{Item, list_cache, list_cache-Laws, empty_list_cache}
use grnoti.Experiment.Cached.{CacheEngine}
use grnoti.Experiment.CachedPick.{answer_of, assign_each, cached_picks}
use grnoti.Experiment.Pick.{bucket_owners, element_at, pick_owner}
use grnoti.Experiment.Sticky.{variant_of}

abbrev pub control : ExperimentVariant
control = record { id = "control"; name = ""; weight = pos 3; payload = [] }

-- A weight below 1 counts as 1.
abbrev pub trial : ExperimentVariant
trial = record { id = "trial"; name = ""; weight = negsuc 4; payload = [] }

abbrev pub colours : Experiment
colours = record {
  id = "colours";
  name = "";
  variants = control ∷ trial ∷ [];
  enabled = true;
  created_at = 0;
  updated_at = 0;
}

abbrev pub idle : Env
idle = record {
  now = λ h. 7;
  is_processed_reply = λ h id. ok false;
  mark_processed_reply = λ h id ttl. none;
  should_send_reply = λ h event. (true, "", none);
  build_message_reply = λ h event. err err_closed;
  resolve_target_reply = λ h event. err err_closed;
  active_devices_reply = λ h id. ok [];
  anonymous_devices_reply = λ h id. ok [];
  mark_invalid_reply = λ h fid. none;
  send_reply = λ h ds msg. (no_dispatch, none);
  send_to_topic_reply = λ h topic msg. none;
  publish_to_dlq_reply = λ h event reason. none;
  publish_reply = λ h event. none;
  and_more = λ text n. text;
}

abbrev engine : Engine
engine = record { assignments = []; has_bus = true }

-- A hash with the last bucket for every text.
abbrev pub seven : String → ℕ
seven text = 7

owners : bucket_owners colours.variants ≡ control ∷ control ∷ control ∷ trial ∷ []
unfolding bucket_owners effective_weight
owners = refl

first_assignment :
    variant_of (assign_variant seven engine "u" (some colours) idle []).0.0 ≡ some trial
unfolding assign_variant assign_new store_pick deterministic_pick pick_from total_weight
    effective_weight lookup assignment_key
first_assignment = refl

pick_owner_example :
    let bucket = 7 % total_weight (control ∷ trial ∷ []) in
    (is_some (deterministic_pick seven "u" "colours" control (trial ∷ [])) ≡ true)
    × (deterministic_pick seven "u" "colours" control (trial ∷ [])
        ≡ element_at (bucket_owners (control ∷ trial ∷ [])) bucket)
unfolding total_weight effective_weight
pick_owner_example = pick_owner seven "u" "colours" control (trial ∷ []) (omega arith)

abbrev cached_engine : CacheEngine ExperimentVariant (List (Item ExperimentVariant))
cached_engine = record {
  cache = list_cache;
  codec = record { marshal = some; unmarshal = some };
  has_bus = true;
}

-- The second call for a user is answered from the cache.
cached_picks_example :
    assign_each cached_engine seven colours control (trial ∷ []) [] ("u" ∷ "v" ∷ "u" ∷ []) idle []
    ≡ map
        (λ user_id. answer_of (deterministic_pick seven user_id "colours" control (trial ∷ [])))
        ("u" ∷ "v" ∷ "u" ∷ [])
cached_picks_example =
    cached_picks cached_engine seven list_cache-Laws (λ v raw e. sym e) colours control (trial ∷ [])
      [] ("u" ∷ "v" ∷ "u" ∷ []) idle [] empty_list_cache
