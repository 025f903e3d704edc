-- ===== src/Types/Messages.antt =====
-- Message and NotificationAction of types.go. A TTL may be negative; an absent Badge is `none`.
use grnoti.Prelude.{List, Option, String}
use grnoti.Prelude.Int.{ℤ}
use grnoti.Prelude.Maps.{Map}
use grnoti.Types.Events.{Priority}

pub record NotificationAction : Type 0 where
  pub id : String
  pub title : String
  pub icon : String
  pub url : String

pub record Message : Type 0 where
  pub title : String
  pub body : String
  pub payload : Map String
  pub image_url : String
  pub priority : Priority
  pub ttl : ℤ
  pub collapse_key : String
  pub channel_id : String
  pub badge : Option ℤ
  pub sound : String
  pub actions : List NotificationAction
  pub deep_link : String
  pub category : String
