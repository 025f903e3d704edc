-- ===== src/TopicRouter.antt =====
-- topicrouter.go: how the recipients of an event are found.
use grnoti.Prelude.{
  true, List, [], Option, none, some, String, Result, ok, err, concat, ◌==◌, if◌then◌else◌, map,
}
use grnoti.Prelude.Maps.{Map, lookup}
use grnoti.Types.{
  Error, wrapped, Event, is_authenticated, is_anonymous, has_direct_fids, Device, platform_android,
  Target, device_target, topic_target,
}
use grnoti.Calls.{Env, Go, get_active_devices, get_active_devices_by_anonymous_id, pure, ask, ◌>>=◌}

-- A FID given on the event itself comes with no platform, and counts as an Android device.
abbrev pub direct_device : String → Device
direct_device fid = record {
  fid = fid;
  platform = platform_android;
  user_id = "";
  anonymous_id = "";
  device_id = "";
  app_version = "";
  is_active = true;
  created_at = 0;
  updated_at = 0;
}

unfoldable pub resolve_devices_for_event : Event → Go (Result Error (List Device))
resolve_devices_for_event event =
    if has_direct_fids event
    then pure (ok (map direct_device event.fids))
    else if is_authenticated event
    then ask (get_active_devices event.user_id)
        (λ (env : Env) h. env.active_devices_reply h event.user_id)
    else if is_anonymous event
    then ask (get_active_devices_by_anonymous_id event.anonymous_id)
        (λ (env : Env) h. env.anonymous_devices_reply h event.anonymous_id)
    else pure (ok [])

-- topic, ok := m[k]; ok && topic != ""
abbrev topic_of : Option String → Option String
topic_of none = none
topic_of (some topic) = if topic == "" then none else some topic

unfoldable pub device_fallback : Event → Go (Result Error Target)
device_fallback event = do
  devices ← resolve_devices_for_event event
  pure (elim devices [
    | ok ds ↦ ok (device_target ds)
    | err e ↦ err (wrapped (concat "grnoti: failed to get devices for event " event.event_id) e)
  ])

-- eventTypeTopicRouter.ResolveTarget
unfoldable pub event_type_resolve_target : Map String → Event → Go (Result Error Target)
event_type_resolve_target topic_mappings event = elim (topic_of (lookup "topic" event.payload)) [
  | some topic ↦ pure (ok (topic_target topic))
  | none ↦ elim (topic_of (lookup event.type topic_mappings)) [
    | some topic ↦ pure (ok (topic_target topic))
    | none ↦ device_fallback event
  ]
]

-- staticTopicRouter.ResolveTarget
unfoldable pub static_resolve_target : String → Event → Go (Result Error Target)
static_resolve_target topic event = pure (ok (topic_target topic))

-- deviceOnlyRouter.ResolveTarget
unfoldable pub device_only_resolve_target : Event → Go (Result Error Target)
device_only_resolve_target = device_fallback
