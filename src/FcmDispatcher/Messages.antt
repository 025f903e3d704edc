-- ===== src/FcmDispatcher/Messages.antt =====
-- dispatcher.fcm.go: the messages of the Firebase library that the dispatcher builds. Its structs
-- are records here, with `none` for a nil map or pointer and "" for a field that is not set. The
-- JSON of the actions, and the two texts of a duration, are parameters.
use grnoti.Prelude.{
  ◌*◌, ◌^◌, Bool, true, ◌||◌, not, Option, none, some, List, [], ◌∷◌, String, ◌==◌, map, is_empty,
  ltb, eqb, if◌then◌else◌,
}
use grnoti.Prelude.Int.{ℤ, pos, negsuc, pos_part}
use grnoti.Prelude.Maps.{Map, insert}
use grnoti.Types.{
  Platform, platform_android, platform_ios, platform_web, Message, NotificationAction,
}

pub record MessageTexts : Type 0 where
  pub actions_json : List NotificationAction → Option String
  -- The Unix second after the duration from now, and the whole seconds of the duration.
  pub expiration_after : ℤ → String
  pub seconds_of : ℤ → String

pub record FcmNotification : Type 0 where
  pub title : String
  pub body : String
  pub image_url : String

pub record AndroidConfig : Type 0 where
  pub priority : String
  pub ttl : ℤ
  pub collapse_key : String
  pub channel_id : String
  pub sound : String
  pub values : Option (Map String)

pub data CustomValue : Type 0 where
  text : String → CustomValue
  action_list : List NotificationAction → CustomValue

pub record ApnsConfig : Type 0 where
  pub headers : Map String
  pub alert_title : String
  pub alert_body : String
  pub mutable_content : Bool
  pub sound : String
  pub badge : Option ℤ
  pub category : String
  pub custom_data : Option (Map CustomValue)

pub record WebpushAction : Type 0 where
  pub action : String
  pub title : String
  pub icon : String

pub record WebpushConfig : Type 0 where
  pub headers : Map String
  pub title : String
  pub body : String
  pub image : String
  pub actions : List WebpushAction
  pub values : Option (Map String)

-- messaging.Message and messaging.MulticastMessage: one of the receivers is set.
pub record FcmMessage : Type 0 where
  pub fid : String
  pub fids : List String
  pub topic : String
  pub notification : FcmNotification
  pub payload : Map String
  pub android : Option AndroidConfig
  pub apns : Option ApnsConfig
  pub webpush : Option WebpushConfig

abbrev is_set : String → Bool
is_set s = not (s == "")

-- if text != "" { m[key] = value }
abbrev put_if {ℓ} : {V : Type ℓ} → Bool → String → V → Map V → Map V
put_if b key value m = if b then insert key value m else m

abbrev is_positive : ℤ → Bool
is_positive ttl = ltb 0 (pos_part ttl)

-- DefaultTTL, in nanoseconds
abbrev pub default_ttl : ℤ
default_ttl = pos (24 * 3600 * 10 ^ 9)

abbrev pub ttl_or_default : ℤ → ℤ
ttl_or_default (pos n) = if eqb n 0 then default_ttl else pos n
ttl_or_default (negsuc n) = negsuc n

abbrev pub put_actions : List NotificationAction → Option String → Map String → Map String
put_actions [] json m = m
put_actions (a ∷ actions) none m = m
put_actions (a ∷ actions) (some json) m = insert "actions" json m

abbrev pub put_link : String → Map String → Map String
put_link link m = put_if (is_set link) "deep_link" link (put_if (is_set link) "click_action" link m)

unfoldable pub build_android_config : MessageTexts → Message → AndroidConfig
build_android_config texts msg = record {
  priority = if msg.priority == "high" then "high" else "normal";
  ttl = ttl_or_default msg.ttl;
  collapse_key = msg.collapse_key;
  channel_id = msg.channel_id;
  sound = msg.sound;
  values =
      if is_set msg.deep_link || not (is_empty msg.actions) || is_set msg.category
      then some (
          put_if (is_set msg.category) "category" msg.category
            (put_actions msg.actions (texts.actions_json msg.actions) (put_link msg.deep_link [])))
      else none;
}

abbrev pub some_if_any : Map CustomValue → Option (Map CustomValue)
some_if_any [] = none
some_if_any (e ∷ rest) = some (e ∷ rest)

unfoldable pub build_apns_config : MessageTexts → Message → ApnsConfig
build_apns_config texts msg = record {
  headers = put_if (is_set msg.collapse_key) "apns-collapse-id" msg.collapse_key (
      put_if (is_positive msg.ttl) "apns-expiration" (texts.expiration_after msg.ttl)
        (insert "apns-priority" (if msg.priority == "high" then "10" else "5") []));
  alert_title = msg.title;
  alert_body = msg.body;
  mutable_content = true;
  sound = if is_set msg.sound then msg.sound else "default";
  badge = msg.badge;
  category = msg.category;
  custom_data = some_if_any (
      put_if (not (is_empty msg.actions)) "actions" (action_list msg.actions) (
        put_if (is_set msg.deep_link) "click_action" (text msg.deep_link)
          (put_if (is_set msg.deep_link) "deep_link" (text msg.deep_link) [])));
}

abbrev pub urgency : String → String
urgency priority =
    if priority == "high" then "high" else if priority == "low" then "low" else "normal"

unfoldable pub build_webpush_config : MessageTexts → Message → WebpushConfig
build_webpush_config texts msg = record {
  headers =
      insert "Urgency" (urgency msg.priority)
        (put_if (is_positive msg.ttl) "TTL" (texts.seconds_of msg.ttl) []);
  title = msg.title;
  body = msg.body;
  image = msg.image_url;
  actions =
      map (λ (a : NotificationAction). record { action = a.id; title = a.title; icon = a.icon })
        msg.actions;
  values =
      if is_set msg.deep_link || is_set msg.category
      then some (put_if (is_set msg.category) "category" msg.category (put_link msg.deep_link []))
      else none;
}

-- A message without a receiver, with the configuration of these platforms.
abbrev for_platforms : MessageTexts → Message → Bool → Bool → Bool → FcmMessage
for_platforms texts msg android ios web = record {
  fid = "";
  fids = [];
  topic = "";
  notification = record { title = msg.title; body = msg.body; image_url = msg.image_url };
  payload = msg.payload;
  android = if android then some (build_android_config texts msg) else none;
  apns = if ios then some (build_apns_config texts msg) else none;
  webpush = if web then some (build_webpush_config texts msg) else none;
}

abbrev for_platform : MessageTexts → Message → Platform → FcmMessage
for_platform texts msg platform =
    for_platforms texts msg (platform == platform_android) (platform == platform_ios)
      (platform == platform_web)

unfoldable pub build_topic_message : MessageTexts → String → Message → FcmMessage
build_topic_message texts topic msg = record (for_platforms texts msg true true true) {
  topic = topic;
}

unfoldable pub build_multicast_message :
    MessageTexts → List String → Message → Platform → FcmMessage
build_multicast_message texts fids msg platform = record (for_platform texts msg platform) {
  fids = fids;
}

unfoldable pub build_fcm_message : MessageTexts → String → Message → Platform → FcmMessage
build_fcm_message texts fid msg platform = record (for_platform texts msg platform) { fid = fid }
