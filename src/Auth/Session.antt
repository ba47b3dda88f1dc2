-- ===== src/Auth/Session.antt =====
-- The session cookies of internal/auth/auth.go: sign, IssueCookie, Clear and verify. A cookie comes
-- as its value, `none` where the request has no cookie of that name.
pub mod Tokens
use wafportal.Base.{
  Text, text, text_eq, cut, ℕ, ◌+◌, ◌*◌, ◌/◌, ℤ, pos, ltb_ℤ, negsuc, Bool, true, false, ◌||◌, not,
  if◌then◌else◌, Option, none, some, List, [], ◌∷◌, ◌++◌, format_int, parse_int, Parsed, hex_encode,
  base64_encode, base64_decode,
}
use wafportal.Store.Models.{Time}
use wafportal.Auth.Primitives.{Crypto}

abbrev pub second : Time
second = 1_000_000_000

-- 7 * 24 * time.Hour
abbrev pub session_duration : Time
session_duration = 604_800 * second

-- The attributes that IssueCookie and Clear vary; both set HttpOnly, SameSite strict and the path "/".
pub record Cookie : Type 0 where
  pub value : Text
  pub expires : Option Time
  pub max_age : ℤ
  pub secure : Bool

module _ (k : Crypto) (secret : Text) where
  unfoldable pub sign : Text → Text
  sign payload = hex_encode (k.mac secret payload)

  abbrev pub payload_of : Text → Time → Text
  payload_of username exp = username ++ b'|' ∷ format_int (exp / second)

  unfoldable pub token_of : Text → Time → Text
  token_of username exp =
      base64_encode (payload_of username exp) ++ b'.' ∷ sign (payload_of username exp)

  unfoldable pub issue_cookie : Time → Bool → Text → Cookie
  issue_cookie now tls username =
      let exp = now + session_duration in
      record { value = token_of username exp; expires = some exp; max_age = pos 0; secure = tls }

  abbrev pub unexpired : Time → Text → Parsed → Option Text
  unexpired now username exp =
      if not exp.valid || ltb_ℤ exp.value (pos (now / second)) then none else some username

  abbrev pub read_payload : Time → Option (Text × Text) → Option Text
  read_payload now none = none
  read_payload now (some (username, exp)) = unexpired now username (parse_int exp)

  abbrev pub check_signature : Time → Text → Option Text → Option Text
  check_signature now sig none = none
  check_signature now sig (some payload) =
      if text_eq sig (sign payload) then read_payload now (cut b'|' payload) else none

  abbrev pub read_token : Time → Option (Text × Text) → Option Text
  read_token now none = none
  read_token now (some (encoded, sig)) = check_signature now sig (base64_decode encoded)

  unfoldable pub verify : Time → Option Text → Option Text
  verify now none = none
  verify now (some value) = read_token now (cut b'.' value)

  -- CurrentUser
  abbrev pub current_user : Time → Option Text → Option Text
  current_user now session = verify now session

abbrev pub clear : Cookie
clear = record { value = []; expires = none; max_age = negsuc 0; secure = false }
