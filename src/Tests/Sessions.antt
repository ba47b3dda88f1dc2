-- ===== src/Tests/Sessions.antt =====
-- The theorems about internal/auth and internal/api for the user "ann" and the password "password".
use wafportal.Api.{dispatch}
use wafportal.Api.Account.{login}
use wafportal.Api.Login.{login-handle}
use wafportal.Store.Settings.{get_setting}
use wafportal.Base.{
  ◌↔◌, put, get, scan_digits, text_eq, Text, text, cut, ltb, ltb_ℤ, length, ◌≤◌, ◌+◌, ◌/◌, pos, ◌≡◌,
  refl, ◌⊎◌, true, false, if◌then◌else◌, none, some, [], ◌∷◌, ◌++◌, ok, parse_int, base64_decode,
  hex_encode, arith,
}
use wafportal.Store.Models.{Site}
use wafportal.Store.Db.{Db, Tables, empty_tables}
use wafportal.Auth.{key_secret, peek_setting, check, change_password, key_hash, key_username}
use wafportal.Auth.Session.{second, session_duration, sign, issue_cookie, verify}
use wafportal.Auth.Session.Tokens.{verify-issue_cookie, verify-issue_cookie_bar, verify_sound}
use wafportal.Auth.Account.{calm, may_change, change_password_lem}
use wafportal.Api.{is_public, handle}
use wafportal.Api.Wire.{Endpoint, Call}
use wafportal.Api.State.{State, unauthorized}
use wafportal.Api.Guard.{handle-unauthorized}
use wafportal.Api.Validate.{validate_site}
use wafportal.Api.Validate.Accepted.{with_waf, with_tls, IsComplete, validate_site_lem}
use wafportal.Tests.Fixtures.{shop, empty_db, toy_crypto, a_moment}

abbrev ann : Text
ann = text "ann"

abbrev secret : Text
secret = text "s"

verify-issue_cookie_example :
    verify toy_crypto secret 5 (some (issue_cookie toy_crypto secret 1 true ann).value)
    ≡ (if ltb ((1 + session_duration) / second) (5 / second) then none else some ann)
verify-issue_cookie_example =
    verify-issue_cookie toy_crypto secret 1 5 true ann
      (λ e. omega arith, (λ e. omega arith, (λ e. omega arith, tt)))
      (omega arith, (omega arith, (omega arith, tt))) (omega arith)

verify-issue_cookie_bar_example :
    verify toy_crypto secret 5
      (some (issue_cookie toy_crypto secret 1 true (text "a" ++ b'|' ∷ text "b")).value)
    ≡ none
verify-issue_cookie_bar_example =
    verify-issue_cookie_bar toy_crypto secret 1 5 true (text "a") (text "b") (λ e. omega arith, tt)
      (omega arith, (omega arith, (omega arith, tt)))

-- base64 of "a|9", a dot, and the hexadecimal signature
abbrev small_token : Text
small_token = text "YXw5.617c39"

verify_sound_example :
    (encoded : Text) × (signed : Text) × (exp : Text) × (cut b'.' small_token
      ≡ some (encoded, sign toy_crypto secret signed))
    × (base64_decode encoded ≡ some signed)
    × (cut b'|' signed ≡ some (text "a", exp))
    × ((parse_int exp).valid ≡ true)
    × (ltb_ℤ (parse_int exp).value (pos (5 / second)) ≡ false)
unfolding verify sign cut base64_decode text_eq hex_encode parse_int scan_digits
verify_sound_example = verify_sound toy_crypto secret 5 small_token (text "a") refl

abbrev account : Tables
account = record empty_tables { settings = (key_username, ann) ∷ (key_hash, text "password") ∷ [] }

abbrev changed_account : Tables
changed_account = record account {
  settings = (key_username, ann) ∷ (key_hash, text "passw0rd") ∷ [];
}

abbrev quiet : State Unit
quiet = record { db = empty_db; plane = tt }

abbrev no_session : Call
no_session = record { endpoint = Endpoint.delete_site (text "1"); session = none; tls = true }

handle-unauthorized_example :
    ((handle toy_crypto none a_moment no_session quiet).1.db.tables ≡ quiet.db.tables)
    × ((handle toy_crypto none a_moment no_session quiet).1.plane ≡ quiet.plane)
    × ((is_public no_session.endpoint ≡ true)
        ⊎ ((handle toy_crypto none a_moment no_session quiet).0 ≡ unauthorized))
unfolding verify
handle-unauthorized_example = handle-unauthorized toy_crypto none a_moment no_session quiet refl

abbrev bare : Site
bare = record shop { waf_mode = []; tls_mode = [] }

validate_site_lem_example :
    (validate_site bare ≡ ok shop) ↔ ((shop ≡ with_waf (with_tls bare)) × IsComplete shop)
validate_site_lem_example = validate_site_lem bare shop

change_password_lem_example :
    (change_password toy_crypto [] (text "password") (text "passw0rd") (calm account)
      ≡ (ok tt, calm changed_account))
    ↔ ((may_change toy_crypto (text "password") account ≡ true)
        × (8 ≤ length (text "passw0rd"))
        × ((hash : Text) × (toy_crypto.hash_password [] (text "passw0rd") ≡ ok hash)
            × (calm changed_account
                ≡ calm (record account { settings = put key_hash hash account.settings }))))
change_password_lem_example =
    change_password_lem toy_crypto [] (text "password") (text "passw0rd") account
      (calm changed_account)

abbrev ann_in : Call
ann_in = record {
  endpoint = Endpoint.login (ok (record { username = ann; password = text "password" }));
  session = none;
  tls = true;
}

abbrev ann_lists : Call
ann_lists = record {
  endpoint = Endpoint.list_sites;
  session = some (issue_cookie toy_crypto secret 1 true ann).value;
  tls = true;
}

abbrev portal : State (Unit {0})
portal = record { db = calm account; plane = tt }

login-handle_example :
    ((check toy_crypto ann (text "password") (calm account)).0 ≡ true)
    × (verify toy_crypto secret 5 ann_lists.session ≡ some ann)
    × (handle toy_crypto none (record a_moment { now = 5 }) ann_lists portal
        ≡ dispatch toy_crypto none
            (record a_moment { now = 5 })
            true
            ann_lists.session
            Endpoint.list_sites
            portal)
unfolding handle dispatch login check peek_setting get_setting get text_eq
login-handle_example =
    login-handle toy_crypto none a_moment (record a_moment { now = 5 }) portal portal
      (record { username = ann; password = text "password" }) ann_in ann_lists
      (issue_cookie toy_crypto secret 1 true ann) refl refl refl refl refl
      (λ e. omega arith, (λ e. omega arith, (λ e. omega arith, tt)))
      (omega arith, (omega arith, (omega arith, tt))) (omega arith)

-- The secret that a first start made, in hexadecimal.
abbrev restarted_db : Db
restarted_db = calm (record empty_tables { settings = (key_secret, hex_encode (text "s")) ∷ [] })
