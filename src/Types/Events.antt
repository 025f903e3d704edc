-- ===== src/Types/Events.antt =====
-- Event of types.go, and EventType.IsValid of eventtypes.go. Priority, Platform and EventType are
-- strings in the source, open to values other than the constants, and strings here.
use grnoti.Prelude.{
  ℕ, Bool, not, ◌&&◌, ◌||◌, List, Option, none, some, String, ◌==◌, if◌then◌else◌, is_empty,
}
use grnoti.Prelude.Maps.{Map}
use grnoti.Types.Errors.{
  Error, err_invalid_event_id, err_no_target_specified, err_invalid_fid, err_invalid_event_type,
  err_invalid_priority,
}
use grnoti.Types.Fid.{all_valid_fids}

abbrev pub Priority : Type 0
Priority = String

abbrev pub EventType : Type 0
EventType = String

pub record Event : Type 0 where
  pub event_id : String
  pub user_id : String
  pub anonymous_id : String
  pub fids : List String
  pub type : EventType
  pub payload : Map String
  pub priority : Priority
  pub timestamp : ℕ
  pub experiment_id : String

-- Priority.IsValid
unfoldable pub priority_is_valid : Priority → Bool
priority_is_valid p = p == "high" || p == "normal" || p == "low"

-- EventType.IsValid
unfoldable pub event_type_is_valid : EventType → Bool
event_type_is_valid t = not (t == "")

unfoldable pub is_authenticated : Event → Bool
is_authenticated e = not (e.user_id == "")

unfoldable pub is_anonymous : Event → Bool
is_anonymous e = not (e.anonymous_id == "")

unfoldable pub has_direct_fids : Event → Bool
has_direct_fids e = not (is_empty e.fids)

unfoldable pub get_target_id : Event → String
get_target_id e =
    if not (e.user_id == "")
    then e.user_id
    else if not (e.anonymous_id == "")
    then e.anonymous_id
    else "direct"

-- Event.Validate
unfoldable pub validate : Event → Option Error
unfolding all_valid_fids event_type_is_valid priority_is_valid
validate e =
    if e.event_id == ""
    then some err_invalid_event_id
    else if e.user_id == "" && e.anonymous_id == "" && is_empty e.fids
    then some err_no_target_specified
    else if not (all_valid_fids e.fids)
    then some err_invalid_fid
    else if not (event_type_is_valid e.type)
    then some err_invalid_event_type
    else if not (priority_is_valid e.priority)
    then some err_invalid_priority
    else none
