-- ===== src/Auth/Account.antt =====
-- The administrator's password and the session secret, while the driver does not fail.
use wafportal.Base.{
  ◌↔◌, Text, text_eq, text_eq_refl, length, ltb, ◌≤◌, get, put, get-put, get-put_self, ◌≡◌, refl,
  sym, ◌∙◌, inl, inr, Bool, true, false, Bool-cases, Option, [], Result, ok, err, Error, hex_encode,
  arith, ◌>>=◌,
}
use wafportal.Store.Db.{Tables, Db}
use wafportal.Store.Settings.{get_setting, set_setting, write_setting}
use wafportal.Store.Db.Effects.{exec-err, query-tables}
use wafportal.Auth.{
  key_username, key_hash, key_secret, peek_setting, or_empty_text, set_password, username, compare,
  check, replace_password, change_password, lift,
}
use wafportal.Auth.Primitives.{Crypto}

-- A database whose driver does not fail.
abbrev pub calm : Tables → Db
calm t = record { tables = t; faults = [] }

-- What bcrypt promises: the hash of a password is matched by that password.
abbrev pub Matches : Crypto → Type 0
Matches k =
    (salt pw hash : Text) → k.hash_password salt pw ≡ ok hash → k.compare_hash hash pw ≡ true

abbrev pub stored : Text → Tables → Option Text
stored key t = get key t.settings

module _ (k : Crypto) where
  -- A login is accepted exactly when a hash is stored, the name is the stored one and the password
  -- matches the hash; the check changes nothing.
  pub check-calm :
      (user pw : Text) (t : Tables)
      → check k user pw (calm t)
        ≡ (compare k user pw (or_empty_text (stored key_username t)) (stored key_hash t), calm t)
  unfolding check peek_setting get_setting
  check-calm user pw t = refl

  abbrev pub may_change : Text → Tables → Bool
  may_change current t =
      compare k (or_empty_text (stored key_username t)) current
        (or_empty_text (stored key_username t)) (stored key_hash t)

  pub change_calm :
      (salt current next : Text) (t : Tables)
      → change_password k salt current next (calm t)
        ≡ replace_password k salt next (may_change current t) (calm t)
  unfolding change_password check username peek_setting get_setting
  change_calm salt current next t = refl

  hashed-ok :
      (r : Result Text) (t : Tables) (db : Db)
      → (lift r >>= set_setting key_hash) (calm t) ≡ (ok tt, db)
      → (hash : Text) × (r ≡ ok hash)
        × (db ≡ calm (record t { settings = put key_hash hash t.settings }))
  unfolding set_setting
  hashed-ok (err e) t db h = cc
  hashed-ok (ok hash) t db h = (hash, refl, cc)

  replace-ok :
      (salt next : Text) (b : Bool) (t : Tables) (db : Db)
      → replace_password k salt next b (calm t) ≡ (ok tt, db)
      → (b ≡ true)
        × (8 ≤ length next)
        × ((hash : Text) × (k.hash_password salt next ≡ ok hash)
            × (db ≡ calm (record t { settings = put key_hash hash t.settings })))
  unfolding set_password
  replace-ok salt next false t db h = cc
  replace-ok salt next true t db h = elim (Bool-cases (ltb (length next) 8)) [
    | inl short ↦ cc (rw short at h)
    | inr long ↦ (refl, ground arith, hashed-ok (k.hash_password salt next) t db (rw long at h))
  ]

  -- A change of password that succeeds was asked for with a password that matched, and with at least
  -- 8 bytes; from then on the stored user is let in with the new password.
  pub change_password-check :
      Matches k
      → (salt current next : Text) (t : Tables) (db : Db)
      → change_password k salt current next (calm t) ≡ (ok tt, db)
      → (may_change current t ≡ true)
        × (8 ≤ length next)
        × ((check k (or_empty_text (stored key_username t)) next db).0 ≡ true)
  unfolding text_eq
  change_password-check matches salt current next t db h =
      let (let_in, long, (hash, made, after)) =
        replace-ok salt next (may_change current t) t db
          (sym (change_calm salt current next t) ∙ h) in
      let user = or_empty_text (stored key_username t) in
      (
        let_in,
        long,
        rw after (
            rw (check-calm user next (record t { settings = put key_hash hash t.settings })) (
              rw get-put (rw get-put_self (rw (text_eq_refl user) (matches salt next hash made))))),
      )

  replace-accepts :
      (salt next hash : Text) (t : Tables)
      → 8 ≤ length next
      → k.hash_password salt next ≡ ok hash
      → replace_password k salt next true (calm t)
        ≡ (ok tt, calm (record t { settings = put key_hash hash t.settings }))
  unfolding set_password set_setting
  replace-accepts salt next hash t long made =
      let enough : ltb (length next) 8 ≡ false = ground arith in rw (enough, made) refl

  -- While the database works, a change of password succeeds exactly where the current password is
  -- the right one, the next has at least 8 bytes and can be hashed; and then the hash is stored and nothing else is changed.
  pub change_password_lem :
      (salt current next : Text) (t : Tables) (db : Db)
      → (change_password k salt current next (calm t) ≡ (ok tt, db)) ↔ (
          (may_change current t ≡ true)
          × (8 ≤ length next)
          × ((hash : Text) × (k.hash_password salt next ≡ ok hash)
              × (db ≡ calm (record t { settings = put key_hash hash t.settings }))))
  change_password_lem salt current next t db = (
    λ h.
        replace-ok salt next (may_change current t) t db
          (sym (change_calm salt current next t) ∙ h),
    λ (allowed, long, (hash, made, after)).
        change_calm salt current next t
        ∙ rw (allowed, after) (replace-accepts salt next hash t long made),
  )

  pub peek-tables : (key : Text) (db : Db) → (peek_setting key db).1.tables ≡ db.tables
  unfolding peek_setting get_setting
  peek-tables key db = query-tables (λ t. get key t.settings) db

  hashed-err :
      (r : Result Text) (db : Db) (e : Error)
      → ((lift r >>= set_setting key_hash) db).0 ≡ err e
      → ((lift r >>= set_setting key_hash) db).1.tables ≡ db.tables
  unfolding set_setting
  hashed-err (err d) db e h = refl
  hashed-err (ok hash) db e h = exec-err (write_setting key_hash hash) db e h

  replace-err :
      (salt next : Text) (b : Bool) (db : Db) (e : Error)
      → (replace_password k salt next b db).0 ≡ err e
      → (replace_password k salt next b db).1.tables ≡ db.tables
  unfolding set_password
  replace-err salt next false db e h = refl
  replace-err salt next true db e h = elim (Bool-cases (ltb (length next) 8)) [
    | inl short ↦ rw short refl
    | inr long ↦ rw long (hashed-err (k.hash_password salt next) db e (rw long at h))
  ]

  -- A change of password that fails, also by the driver, has changed nothing that is stored.
  pub change_password-err :
      (salt current next : Text) (db : Db) (e : Error)
      → (change_password k salt current next db).0 ≡ err e
      → (change_password k salt current next db).1.tables ≡ db.tables
  unfolding change_password check username
  change_password-err salt current next db e h =
      replace-err salt next _ _ e h
      ∙ peek-tables key_hash _
      ∙ peek-tables key_username _
      ∙ peek-tables key_username db

abbrev with_secret : Text → Tables → Tables
with_secret s t = record t { settings = put key_secret (hex_encode s) t.settings }

-- A check writes no table, not even where the driver fails.
pub check-tables :
    (k : Crypto) (user pw : Text) (db : Db) → (check k user pw db).1.tables ≡ db.tables
unfolding check
check-tables k user pw db = peek-tables k key_hash _ ∙ peek-tables k key_username db
