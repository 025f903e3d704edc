-- ===== src/PayloadSize.antt =====
-- payloadvalidator.go: fcmPayloadValidator. The length of encoding/json's output is a parameter,
-- `none` where Marshal fails, and so is the text of the error's detail.
use Prim.Native.String.{len}
use grnoti.Prelude.{ℕ, ◌+◌, Option, none, some, String, ltb, ◌==◌, if◌then◌else◌}
use grnoti.Prelude.Maps.{Map}
use grnoti.Types.{Error, err_fcm_payload_too_large, Message}

-- The value that is encoded; the image is left out if there is none.
pub record PayloadShape : Type 0 where
  pub title : String
  pub body : String
  pub image : Option String
  pub payload : Map String

pub record Sizing : Type 0 where
  pub marshalled_length : PayloadShape → Option ℕ
  pub with_detail : Error → ℕ → ℕ → Error

-- FCMMaxPayloadSize
abbrev pub fcm_max_payload_size : ℕ
fcm_max_payload_size = 4096

abbrev pub payload_shape : Message → PayloadShape
payload_shape msg = record {
  title = msg.title;
  body = msg.body;
  image = if msg.image_url == "" then none else some msg.image_url;
  payload = msg.payload;
}

unfoldable pub estimate_size : Sizing → Message → ℕ
estimate_size sizing msg = elim (sizing.marshalled_length (payload_shape msg)) [
  | some n ↦ n
  | none ↦ len msg.title + len msg.body
]

unfoldable pub validate_size : Sizing → Message → Option Error
validate_size sizing msg =
    let size = estimate_size sizing msg in
    if ltb fcm_max_payload_size size
    then some (sizing.with_detail err_fcm_payload_too_large size fcm_max_payload_size)
    else none
