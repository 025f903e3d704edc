-- ===== src/Types/Devices.antt =====
-- Device of types.go.
use grnoti.Prelude.{ℕ, Bool, Option, none, some, String, if◌then◌else◌}
use grnoti.Types.Errors.{Error, err_invalid_fid}
use grnoti.Types.Fid.{valid_fid}

abbrev pub Platform : Type 0
Platform = String

abbrev pub platform_android : Platform
platform_android = "android"

abbrev pub platform_ios : Platform
platform_ios = "ios"

abbrev pub platform_web : Platform
platform_web = "web"

pub record Device : Type 0 where
  pub fid : String
  pub platform : Platform
  pub user_id : String
  pub anonymous_id : String
  pub device_id : String
  pub app_version : String
  pub is_active : Bool
  pub created_at : ℕ
  pub updated_at : ℕ

-- Device.Validate
unfoldable pub validate_device : Device → Option Error
validate_device d = if valid_fid d.fid then none else some err_invalid_fid
