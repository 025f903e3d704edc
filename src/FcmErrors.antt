-- ===== src/FcmErrors.antt =====
-- dispatcher.fcm.go: classifyFCMError. The checks messaging.IsX of the Firebase library are one
-- parameter, `is_kind`. A text is searched by its code points, and lowered as ASCII.
use grnoti.Prelude.{
  ℕ, ◌+◌, Bool, true, false, ◌&&◌, ◌||◌, Option, none, some, List, [], ◌∷◌, String, leb, eqb,
  if◌then◌else◌, map,
}
use grnoti.Types.{
  Error, error_text, FcmErrorCode, unspecified, invalid_argument, unregistered, sender_id_mismatch,
  quota_exceeded, unavailable, internal, third_party_auth_err,
}
use grnoti.Types.Fid.{codes}

abbrev lower_code : ℕ → ℕ
lower_code c = if leb b'A' c && leb c b'Z' then c + 32 else c

unfoldable pub to_lower : List ℕ → List ℕ
to_lower = map lower_code

unfoldable pub is_prefix : List ℕ → List ℕ → Bool
is_prefix [] text = true
is_prefix (c ∷ cs) [] = false
is_prefix (c ∷ cs) (d ∷ ds) = eqb c d && is_prefix cs ds

-- strings.Contains
unfoldable pub contains_text : List ℕ → List ℕ → Bool
contains_text sub [] = is_prefix sub []
contains_text sub (c ∷ text) = is_prefix sub (c ∷ text) || contains_text sub text

unfoldable pub contains_any : List ℕ → List String → Bool
contains_any lower [] = false
contains_any lower (sub ∷ subs) =
    contains_text (to_lower (codes sub)) lower || contains_any lower subs

unfoldable pub contains_any_fold : String → List String → Bool
contains_any_fold s substrings = contains_any (to_lower (codes s)) substrings

-- The description of a code, the same in both tables.
abbrev pub description : FcmErrorCode → String
description unregistered = "FID is no longer registered"
description invalid_argument = "invalid FID or payload"
description sender_id_mismatch = "sender ID mismatch"
description quota_exceeded = "quota exceeded"
description unavailable = "FCM service temporarily unavailable"
description internal = "FCM internal error"
description third_party_auth_err = "third party auth error"
description unspecified = "unspecified FCM error"

-- fcmStructuredChecks, in order of priority.
abbrev pub structured_checks : List FcmErrorCode
structured_checks =
    unregistered ∷ invalid_argument ∷ sender_id_mismatch ∷ quota_exceeded ∷ unavailable ∷ internal
    ∷ third_party_auth_err ∷ []

unfoldable pub classify_structured :
    (FcmErrorCode → Error → Bool) → List FcmErrorCode → Error → Option FcmErrorCode
classify_structured is_kind [] e = none
classify_structured is_kind (code ∷ rest) e =
    if is_kind code e then some code else classify_structured is_kind rest e

unfoldable pub classify_text : String → FcmErrorCode
classify_text text =
    if contains_any_fold text ("unregistered" ∷ "not-registered" ∷ "NotRegistered" ∷ [])
    then unregistered
    else if contains_any_fold text
        ("invalid-argument" ∷ "InvalidRegistration" ∷ "invalid registration" ∷ [])
    then invalid_argument
    else if contains_any_fold text ("sender-id-mismatch" ∷ "MismatchSenderId" ∷ [])
    then sender_id_mismatch
    else if contains_any_fold text ("quota-exceeded" ∷ "QuotaExceeded" ∷ "rate limit" ∷ [])
    then quota_exceeded
    else if contains_any_fold text ("unavailable" ∷ "temporarily unavailable" ∷ [])
    then unavailable
    else if contains_any_fold text ("internal" ∷ "InternalError" ∷ [])
    then internal
    else if contains_any_fold text ("third-party-auth-error" ∷ [])
    then third_party_auth_err
    else unspecified

-- The code of a failure; the FCMError carries it with its description.
unfoldable pub classify_fcm_error : (FcmErrorCode → Error → Bool) → Error → FcmErrorCode
unfolding classify_structured
classify_fcm_error is_kind e = elim (classify_structured is_kind structured_checks e) [
  | some code ↦ code
  | none ↦ classify_text (error_text e)
]
