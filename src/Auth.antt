-- ===== src/Auth.antt =====
-- internal/auth/auth.go: the administrator's account. The session cookies are in Auth/Session.antt.
pub mod Primitives
pub mod Session
pub mod Account
pub mod Startup
pub mod Keeps
use wafportal.Base.{
  Text, text, text_eq, is_empty, trim_space, length, ltb, Bool, true, false, not, ◌&&◌,
  if◌then◌else◌, Option, none, some, List, [], ◌∷◌, ◌++◌, Result, ok, err, Error, ◌>>=◌, ◌>>◌, pure,
  raise, hex_encode, hex_decode, base64_encode,
}
use wafportal.Store.Db.{Db, Call}
use wafportal.Store.Settings.{get_setting, set_setting}
use wafportal.Auth.Primitives.{Crypto, Entropy}

abbrev pub key_username : Text
key_username = text "admin_username"

abbrev pub key_hash : Text
key_hash = text "admin_password_hash"

abbrev pub key_secret : Text
key_secret = text "session_secret"

abbrev pub invalid_credentials : Error
invalid_credentials = text "invalid username or password"

abbrev pub too_short : Error
too_short = text "new password must be at least 8 characters"

pub record Authenticator : Type 0 where
  pub secret : Text
  pub generated_password : Text

abbrev pub lift : {A : Type 0} → Result A → Call A
lift r db = (r, db)

-- `v, ok, _ := GetSetting(key)`: an error counts as a missing key.
abbrev pub value_or_none : Result (Option Text) → Option Text
value_or_none (ok v) = v
value_or_none (err e) = none

unfoldable pub peek_setting : Text → Db → Option Text × Db
peek_setting key db = let (r, db') = get_setting key db in (value_or_none r, db')

abbrev pub decoded : Option Text → Result Text
decoded none = err (text "encoding/hex: invalid byte or odd length")
decoded (some s) = ok s

abbrev prefixed : Result Text → Result Text
prefixed (ok s) = ok s
prefixed (err e) = err (text "generate session secret: " ++ e)

abbrev make_secret : Result Text → Call Text
make_secret random = do
  buf ← lift (prefixed random)
  set_setting key_secret (hex_encode buf)
  pure buf

abbrev pub secret_from : Result Text → Option Text → Call Text
secret_from random none = make_secret random
secret_from random (some v) =
    if is_empty v then make_secret random else lift (decoded (hex_decode v))

unfoldable pub load_or_create_secret : Result Text → Call Text
load_or_create_secret random = get_setting key_secret >>= secret_from random

abbrev pub or_admin : Option Text → Text
or_admin none = text "admin"
or_admin (some v) = if is_empty v then text "admin" else v

unfoldable pub choose_username : Text → Call Text
choose_username given db =
    let (stored, db') = peek_setting key_username db in
    if is_empty given then (ok (or_admin stored), db') else (ok given, db)

abbrev pub or_empty_text : Option Text → Text
or_empty_text none = []
or_empty_text (some v) = v

abbrev pub random_password : Result Text → Result Text
random_password (ok buf) = ok (base64_encode buf)
random_password (err e) = err e

unfoldable pub username : Db → Text × Db
username db = let (v, db') = peek_setting key_username db in (or_empty_text v, db')

module _ (k : Crypto) where
  unfoldable pub set_password : Text → Text → Call (Unit {0})
  set_password salt password = do
    hash ← lift (k.hash_password salt password)
    set_setting key_hash hash

  -- The switch of New; the text is GeneratedPassword.
  abbrev pub bootstrap : Entropy → Text → Option Text → Call Text
  bootstrap entropy [] (some hash) = pure []
  bootstrap entropy [] none = do
    pw ← lift (random_password entropy.password_bytes)
    set_password entropy.salt pw
    pure pw
  bootstrap entropy (ch ∷ rest) stored = do set_password entropy.salt (ch ∷ rest); pure []

  unfoldable pub new : Entropy → Text → Text → Call Authenticator
  new entropy bootstrap_user bootstrap_password = do
    secret ← load_or_create_secret entropy.secret_bytes
    username ← choose_username (trim_space bootstrap_user)
    set_setting key_username username
    stored ← get_setting key_hash
    generated ← bootstrap entropy bootstrap_password stored
    pure (record { secret = secret; generated_password = generated })

  abbrev pub compare : Text → Text → Text → Option Text → Bool
  compare user password stored_user none = false
  compare user password stored_user (some hash) =
      text_eq user stored_user && k.compare_hash hash password

  unfoldable pub check : Text → Text → Db → Bool × Db
  check user password db =
      let (stored_user, db') = peek_setting key_username db in
      let (hash, db'') = peek_setting key_hash db' in
      (compare user password (or_empty_text stored_user) hash, db'')

  abbrev pub replace_password : Text → Text → Bool → Call (Unit {0})
  replace_password salt next false = raise invalid_credentials
  replace_password salt next true =
      if ltb (length next) 8 then raise too_short else set_password salt next

  unfoldable pub change_password : Text → Text → Text → Call (Unit {0})
  change_password salt current next db =
      let (user, db') = username db in
      let (valid, db'') = check user current db' in replace_password salt next valid db''
