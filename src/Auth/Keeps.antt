-- ===== src/Auth/Keeps.antt =====
-- internal/auth/auth.go touches the database only by GetSetting and SetSetting: what these two keep, New, Check
-- and ChangePassword keep.
use wafportal.Base.{
  Text, length, ltb, Bool, true, false, Bool-cases, inl, inr, Result, ok, err, continue, ◌>>=◌,
  ◌>>◌, pure, Option, none, some, [], ◌∷◌, is_empty, hex_encode, trim_space,
}
use wafportal.Store.Db.{Db, Call}
use wafportal.Store.Settings.{set_setting, get_setting}
use wafportal.Auth
use wafportal.Auth.{
  key_hash, lift, set_password, username, check, replace_password, change_password, peek_setting,
  key_username, key_secret, make_secret, secret_from, choose_username, bootstrap, random_password,
  load_or_create_secret,
}
use wafportal.Auth.Primitives.{Crypto, Entropy}

module _ (V : Db → Type 0) where
  abbrev pub Keeps : {A : Type 0} → (Db → A × Db) → Type 0
  Keeps m = (db : Db) → V db → V (m db).1

  module _ {A B : Type 0} where
    continue-V :
        (r : Result A × Db) (f : A → Call B) → ((a : A) → Keeps (f a)) → V r.1 → V (continue r f).1
    continue-V (ok a, db) f k v = k a db v
    continue-V (err e, db) f k v = v

    bind-Keeps : (m : Call A) (f : A → Call B) → Keeps m → ((a : A) → Keeps (f a)) → Keeps (m >>= f)
    bind-Keeps m f km kf db v = continue-V (m db) f kf (km db v)

  module _ (reads : (key : Text) → Keeps (get_setting key))
      (writes : (key x : Text) → Keeps (set_setting key x)) where
    peek-Keeps : (key : Text) → Keeps (peek_setting key)
    unfolding peek_setting
    peek-Keeps key = reads key

    make_secret-Keeps : (random : Result Text) → Keeps (make_secret random)
    make_secret-Keeps (err e) db v = v
    make_secret-Keeps (ok buf) db v =
        bind-Keeps (set_setting key_secret (hex_encode buf)) _ (writes key_secret (hex_encode buf))
          (λ _ db v. v) db v

    secret_from-Keeps : (random : Result Text) (o : Option Text) → Keeps (secret_from random o)
    secret_from-Keeps random none db v = make_secret-Keeps random db v
    secret_from-Keeps random (some x) db v = elim (Bool-cases (is_empty x)) [
      | inl blank ↦ rw blank (make_secret-Keeps random db v)
      | inr kept ↦ rw kept v
    ]

    choose_username-Keeps : (given : Text) → Keeps (choose_username given)
    unfolding choose_username
    choose_username-Keeps given db v = elim (Bool-cases (is_empty given)) [
      | inl blank ↦ rw blank (peek-Keeps key_username db v)
      | inr named ↦ rw named v
    ]

    pub username-Keeps : Keeps username
    unfolding username
    username-Keeps = peek-Keeps key_username

    module _ (k : Crypto) where
      hashed-Keeps : (r : Result Text) → Keeps (lift r >>= set_setting key_hash)
      hashed-Keeps (ok hash) db v = writes key_hash hash db v
      hashed-Keeps (err e) db v = v

      set_password-Keeps : (salt password : Text) → Keeps (set_password k salt password)
      unfolding set_password
      set_password-Keeps salt password = hashed-Keeps (k.hash_password salt password)

      generated-Keeps :
          (salt : Text) (r : Result Text)
          → Keeps (lift r >>= λ pw. set_password k salt pw >> pure pw)
      generated-Keeps salt (err e) db v = v
      generated-Keeps salt (ok pw) db v =
          bind-Keeps (set_password k salt pw) _ (set_password-Keeps salt pw) (λ _ db v. v) db v

      bootstrap-Keeps :
          (entropy : Entropy) (password : Text) (stored : Option Text)
          → Keeps (bootstrap k entropy password stored)
      bootstrap-Keeps entropy [] (some hash) db v = v
      bootstrap-Keeps entropy [] none db v =
          generated-Keeps entropy.salt (random_password entropy.password_bytes) db v
      bootstrap-Keeps entropy (ch ∷ rest) stored db v =
          bind-Keeps (set_password k entropy.salt (ch ∷ rest)) _
            (set_password-Keeps entropy.salt (ch ∷ rest)) (λ _ db v. v) db v

      pub new-Keeps :
          (entropy : Entropy) (user password : Text) → Keeps (Auth.new k entropy user password)
      unfolding Auth.new load_or_create_secret
      new-Keeps entropy user password =
          bind-Keeps (load_or_create_secret entropy.secret_bytes) _
            (bind-Keeps (get_setting key_secret) _ (reads key_secret)
              (secret_from-Keeps entropy.secret_bytes))
            λ secret.
              bind-Keeps (choose_username (trim_space user)) _
                (choose_username-Keeps (trim_space user))
                λ name. bind-Keeps (set_setting key_username name) _ (writes key_username name) λ _.
                  bind-Keeps (get_setting key_hash) _ (reads key_hash) λ stored.
                    bind-Keeps (bootstrap k entropy password stored) _
                      (bootstrap-Keeps entropy password stored) λ generated db v. v

      pub check-Keeps : (user password : Text) → Keeps (check k user password)
      unfolding check
      check-Keeps user password db v =
          peek-Keeps key_hash (peek_setting key_username db).1 (peek-Keeps key_username db v)

      replace-Keeps : (salt next : Text) (b : Bool) → Keeps (replace_password k salt next b)
      replace-Keeps salt next false db v = v
      replace-Keeps salt next true db v = elim (Bool-cases (ltb (length next) 8)) [
        | inl short ↦ rw short v
        | inr long ↦ rw long (set_password-Keeps salt next db v)
      ]

      pub change_password-Keeps :
          (salt current next : Text) → Keeps (change_password k salt current next)
      unfolding change_password
      change_password-Keeps salt current next db v =
          let user = username db in
          let checked = check k user.0 current user.1 in
          replace-Keeps salt next checked.0 checked.1
            (check-Keeps user.0 current user.1 (username-Keeps db v))
