-- ===== src/Auth/Session/Tokens.antt =====
-- Which cookies verify accepts.
use wafportal.Base.{
  Text, text_eq_iff, text_eq_refl, cut, ◌+◌, ◌/◌, ◌≤◌, ◌<◌, ltb, pos, ltb_ℤ, ◌≡◌, ◌≢◌, refl, ap,
  ◌∙◌, Bool, true, false, if◌then◌else◌, Option, none, some, [], ◌∷◌, ◌++◌, All, All-append,
  format_int, parse_int, max_int64, parse_int-format_int, format_int-All, parse_int-bad, IsBytes,
  base64_encode, base64_decode, base64_decode-encode, cut-base64_encode, arith,
}
use mathlib.Core.List.{append_assoc}
use wafportal.Store.Models.{Time}
use wafportal.Auth.Primitives.{Crypto}
use wafportal.Auth.Session.{
  second, session_duration, sign, payload_of, token_of, issue_cookie, read_payload, check_signature,
  read_token, verify,
}

abbrev pub NoBar : Text → Type 0
NoBar s = All (λ c. c ≢ b'|') s

cut-bar : (s t : Text) → NoBar s → cut b'|' (s ++ b'|' ∷ t) ≡ some (s, t)
unfolding cut
cut-bar [] t h = refl
cut-bar (c ∷ s) t (p, h) = rw (cut-bar s t h) (ground arith)

module _ (k : Crypto) (secret : Text) where
  -- A token whose signature is right is read as its payload.
  verify-signed :
      (now : Time) (payload : Text)
      → IsBytes payload
      → verify k secret now (some (base64_encode payload ++ b'.' ∷ sign k secret payload))
        ≡ read_payload k secret now (cut b'|' payload)
  unfolding verify
  verify-signed now payload h =
      rw (cut-base64_encode payload (sign k secret payload) h)
        (rw (base64_decode-encode payload h) (rw (text_eq_refl (sign k secret payload)) refl))

  -- The bytes that IssueCookie signs for `username`.
  abbrev pub payload : Text → Time → Text
  payload username now = payload_of k secret username (now + session_duration)

  payload-IsBytes :
      (username : Text) (now : Time) → IsBytes username → IsBytes (payload username now)
  payload-IsBytes username now h =
      All-append (λ b. b < 256) username (b'|' ∷ format_int ((now + session_duration) / second)) h
        (omega arith, format_int-All ((now + session_duration) / second))

  -- Where the user name is of bytes and has no bar and the second of the expiry is in the range of
  -- int64, the cookie that IssueCookie set at `now` is accepted, for the user that it was issued to,
  -- until the second in which it expires, and rejected after that.
  pub verify-issue_cookie :
      (now later : Time) (tls : Bool) (username : Text)
      → NoBar username
      → IsBytes username
      → (now + session_duration) / second ≤ max_int64
      → verify k secret later (some (issue_cookie k secret now tls username).value)
        ≡ (if ltb ((now + session_duration) / second) (later / second) then none else some username)
  unfolding issue_cookie token_of
  verify-issue_cookie now later tls username h b r =
      verify-signed later (payload username now) (payload-IsBytes username now b)
      ∙ ap (read_payload k secret later)
          (cut-bar username (format_int ((now + session_duration) / second)) h)
      ∙ rw (parse_int-format_int ((now + session_duration) / second) r) refl

  -- A user whose name holds a bar is never recognised: every cookie issued to it is rejected.
  pub verify-issue_cookie_bar :
      (now later : Time) (tls : Bool) (a b : Text)
      → NoBar a
      → IsBytes (a ++ b'|' ∷ b)
      → verify k secret later (some (issue_cookie k secret now tls (a ++ b'|' ∷ b)).value) ≡ none
  unfolding issue_cookie token_of
  verify-issue_cookie_bar now later tls a b h bytes =
      let digits = format_int ((now + session_duration) / second) in
      verify-signed later (payload (a ++ b'|' ∷ b) now) (payload-IsBytes (a ++ b'|' ∷ b) now bytes)
      ∙ ap (λ s. read_payload k secret later (cut b'|' s))
          (append_assoc a (b'|' ∷ b) (b'|' ∷ digits))
      ∙ ap (read_payload k secret later) (cut-bar a (b ++ b'|' ∷ digits) h)
      ∙ rw (parse_int-bad b'|' b digits refl (omega arith) (omega arith)) refl

  payload-some :
      (now : Time) (o : Option (Text × Text)) (user : Text)
      → read_payload k secret now o ≡ some user
      → (exp : Text) × (o ≡ some (user, exp))
        × ((parse_int exp).valid ≡ true)
        × (ltb_ℤ (parse_int exp).value (pos (now / second)) ≡ false)
  payload-some now none user h = cc
  payload-some now (some (u, e)) user h = (e, ground arith, ground arith, ground arith)

  signature-some :
      (now : Time) (sig : Text) (o : Option Text) (user : Text)
      → check_signature k secret now sig o ≡ some user
      → (signed : Text) × (o ≡ some signed)
        × (sig ≡ sign k secret signed)
        × (read_payload k secret now (cut b'|' signed) ≡ some user)
  signature-some now sig none user h = cc
  signature-some now sig (some s) user h =
      (s, refl, ground (arith, text_eq_iff sig (sign k secret s)), ground arith)

  token-some :
      (now : Time) (o : Option (Text × Text)) (user : Text)
      → read_token k secret now o ≡ some user
      → (encoded : Text) × (sig : Text) × (o ≡ some (encoded, sig))
        × (check_signature k secret now sig (base64_decode encoded) ≡ some user)
  token-some now none user h = cc
  token-some now (some (e, g)) user h = (e, g, refl, h)

  -- A user is recognised by a cookie value only if the value carries a payload's signature under the
  -- secret, the payload names that user, and its time has not passed.
  pub verify_sound :
      (now : Time) (value user : Text)
      → verify k secret now (some value) ≡ some user
      → (encoded : Text) × (signed : Text) × (exp : Text) × (cut b'.' value
          ≡ some (encoded, sign k secret signed))
        × (base64_decode encoded ≡ some signed)
        × (cut b'|' signed ≡ some (user, exp))
        × ((parse_int exp).valid ≡ true)
        × (ltb_ℤ (parse_int exp).value (pos (now / second)) ≡ false)
  unfolding verify
  verify_sound now value user h =
      let (encoded, sig, split, checked) = token-some now (cut b'.' value) user h in
      let (signed, raw, genuine, read) =
        signature-some now sig (base64_decode encoded) user checked in
      let (exp, named, valid, fresh) = payload-some now (cut b'|' signed) user read in
      (encoded, signed, exp, rw (← genuine) split, raw, named, valid, fresh)
