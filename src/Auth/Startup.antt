-- ===== src/Auth/Startup.antt =====
-- New of internal/auth/auth.go with a bootstrap password, while the driver does not fail.
use wafportal.Base.{
  Text, ℕ, text_eq, text_eq_refl, is_empty, trim_space, put, get-put, get-put_self, ◌≡◌, refl, ap,
  ◌∙◌, ◌⊎◌, inl, inr, true, Bool-cases, if◌then◌else◌, Option, none, some, [], ◌∷◌, Result, ok, err,
  continue, ◌>>=◌, ◌>>◌, pure,
}
use wafportal.Store.Db.{Tables, Db, Call}
use wafportal.Store.Settings.{get_setting, set_setting}
use wafportal.Auth.{
  Authenticator, key_username, key_hash, key_secret, or_admin, or_empty_text, peek_setting,
  set_password, bootstrap, choose_username, check, make_secret, secret_from, load_or_create_secret,
  new,
}
use wafportal.Auth.Primitives.{Crypto, Entropy}
use wafportal.Auth.Account.{calm, stored, Matches, check-calm}

-- The driver still does not fail.
abbrev StaysCalm : {A : Type 0} → Result A × Db → Type 0
StaysCalm r = (t : Tables) × (r.1 ≡ calm t)

make_secret-StaysCalm :
    (random : Result Text) (t : Tables) → StaysCalm (make_secret random (calm t))
unfolding set_setting
make_secret-StaysCalm (err e) t = (t, refl)
make_secret-StaysCalm (ok buf) t = (_, refl)

secret_from-StaysCalm :
    (random : Result Text) (o : Option Text) (t : Tables)
    → StaysCalm (secret_from random o (calm t))
secret_from-StaysCalm random none t = make_secret-StaysCalm random t
secret_from-StaysCalm random (some v) t = elim (Bool-cases (is_empty v)) [
  | inl blank ↦ rw blank (make_secret-StaysCalm random t)
  | inr kept ↦ rw kept (t, refl)
]

-- The name that New stores.
abbrev pub chosen : Text → Tables → Text
chosen given t = if is_empty given then or_admin (stored key_username t) else given

choose_calm :
    (given : Text) (t : Tables) → choose_username given (calm t) ≡ (ok (chosen given t), calm t)
unfolding choose_username peek_setting get_setting
choose_calm given t = elim (Bool-cases (is_empty given)) [
  | inl blank ↦ rw blank refl
  | inr named ↦ rw named refl
]

bind-ok :
    {A B : Type 0} (r : Result A × Db) (t : Tables) (f : A → Call B) (b : B) (db : Db)
    → r.1 ≡ calm t
    → continue r f ≡ (ok b, db)
    → (a : A) × (f a (calm t) ≡ (ok b, db))
bind-ok (ok a, s) t f b db e h = (a, rw (← e) h)
bind-ok (err d, s) t f b db e h = cc

module _ (k : Crypto) (matches : Matches k) (entropy : Entropy) (user : Text) (c : ℕ)
    (rest : Text) where
  abbrev password : Text
  password = c ∷ rest

  -- New after the session secret is there.
  abbrev after_secret : Text → Call Authenticator
  after_secret secret = do
    username ← choose_username (trim_space user)
    set_setting key_username username
    stored_hash ← get_setting key_hash
    generated ← bootstrap k entropy password stored_hash
    pure (record { secret = secret; generated_password = generated })

  -- The stored name is let in with the bootstrap password.
  abbrev pub LetsIn : Authenticator → Db → Type 0
  LetsIn a db =
      (a.generated_password ≡ [])
      × ((check k (or_empty_text (stored key_username db.tables)) password db).0 ≡ true)
      × ((is_empty (trim_space user) ≡ true)
          ⊎ (stored key_username db.tables ≡ some (trim_space user)))

  abbrev final : Text → Text → Tables → Tables
  final name hash t = record t { settings = put key_hash hash (put key_username name t.settings) }

  final-user : (name hash : Text) (t : Tables) → stored key_username (final name hash t) ≡ some name
  unfolding text_eq
  final-user name hash t = rw get-put (rw get-put_self refl)

  final-hash : (name hash : Text) (t : Tables) → stored key_hash (final name hash t) ≡ some hash
  final-hash name hash t = rw get-put_self refl

  named :
      (hash : Text) (t : Tables)
      → (is_empty (trim_space user) ≡ true)
        ⊎ (stored key_username (final (chosen (trim_space user) t) hash t) ≡ some (trim_space user))
  named hash t = elim (Bool-cases (is_empty (trim_space user))) [
    | inl blank ↦ inl blank
    | inr given ↦ inr (final-user (chosen (trim_space user) t) hash t ∙ rw given refl)
  ]

  lets_in :
      (a : Authenticator) (hash : Text) (t : Tables)
      → a.generated_password ≡ []
      → k.hash_password entropy.salt password ≡ ok hash
      → LetsIn a (calm (final (chosen (trim_space user) t) hash t))
  lets_in a hash t quiet made =
      let name = chosen (trim_space user) t in
      (
        quiet,
        rw (final-user name hash t) (
            rw (check-calm k name password (final name hash t)) (
              rw (final-user name hash t, final-hash name hash t, text_eq_refl name)
                (matches entropy.salt password hash made))),
        named hash t,
      )

  rest_of_new :
      (secret : Text) (t : Tables) (a : Authenticator) (db : Db) (r : Result Text)
      → k.hash_password entropy.salt password ≡ r
      → after_secret secret (calm t) ≡ (ok a, db)
      → LetsIn a db
  unfolding set_setting get_setting set_password
  rest_of_new secret t a db (err d) e h = cc (rw (choose_calm (trim_space user) t, e) at h)
  rest_of_new secret t a db (ok hash) e h =
      let end = rw (choose_calm (trim_space user) t, e) at h in
      let after : calm (final (chosen (trim_space user) t) hash t) ≡ db =
        ap (λ (p : Result Authenticator × Db). p.1) end in
      rw (← after) (lets_in a hash t (quiet (ap (λ (p : Result Authenticator × Db). p.0) end)) e)
    where
      quiet :
          ◌≡◌ {A = Result Authenticator}
            (ok (record { secret = secret; generated_password = [] }))
            (ok a)
          → a.generated_password ≡ []
      quiet same = cc

  -- With a bootstrap password New, where it succeeds, generates none, and from then on the stored
  -- user is let in with the bootstrap password; the stored name is the bootstrap name, trimmed, unless
  -- that is empty.
  pub new-check :
      (t : Tables) (a : Authenticator) (db : Db)
      → new k entropy user password (calm t) ≡ (ok a, db)
      → LetsIn a db
  unfolding new load_or_create_secret get_setting
  new-check t a db h =
      let (t', state) = secret_from-StaysCalm entropy.secret_bytes (stored key_secret t) t in
      let (secret, later) =
        bind-ok (secret_from entropy.secret_bytes (stored key_secret t) (calm t)) t' after_secret a
          db state h in
      rest_of_new secret t' a db (k.hash_password entropy.salt password) refl later
