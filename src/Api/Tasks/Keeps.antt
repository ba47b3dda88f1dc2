-- ===== src/Api/Tasks/Keeps.antt =====
-- What every step of a call of internal/api/api.go keeps, whatever the other calls did in between: the store's
-- invariant, and any property of the plane that each step of a reload keeps.
pub mod Routes
use wafportal.Base.{
  Text, is_empty, Bool, true, false, Bool-cases, inl, inr, ◌||◌, Option, none, some, Result, ok,
  err, Error, ℤ, pos, Group, length, ltb,
}
use wafportal.Base.Tasks.{Keeps, bind-Keeps, atomically-Keeps, done-Keeps, done, ◌>>=◌}
use wafportal.Store.Models.{Site, CustomRule, Event}
use wafportal.Store.Db.{Db}
use wafportal.Store.Settings.{set_setting}
use wafportal.Store.Sites as Sites
use wafportal.Store.Rules as Rules
use wafportal.Store.Events as Events
use wafportal.Store.Stats.{from_time}
use wafportal.Store.Operations.Calls.{
  KeepsValid, set_setting-KeepsValid, create_site-KeepsValid, update_site-KeepsValid,
  delete_site-KeepsValid, create_rule-KeepsValid, update_rule-KeepsValid, delete_rule-KeepsValid,
}
use wafportal.Store.Operations.Reads.{
  get_setting-KeepsValid, list_sites-KeepsValid, get_site-KeepsValid, list_rules-KeepsValid,
  get_rule-KeepsValid, list_events-KeepsValid, count_events-KeepsValid, top_rules-KeepsValid,
  top_clients-KeepsValid, timeline-KeepsValid,
}
use wafportal.Auth.{key_username, key_hash, peek_setting, compare, or_empty_text}
use wafportal.Auth.Primitives.{Crypto}
use wafportal.Auth.Session.{verify}
use wafportal.Api.{is_public}
use wafportal.Api.Keeps.{Inv, on_db-Inv}
use wafportal.Api.Wire.{Endpoint, Call, Body, Credentials, PasswordChange, Response}
use wafportal.Api.State.{State, Moment, rejected}
use wafportal.Api.Events.{window_of, filter_of}
use wafportal.Api.Validate.{validate_site, id_param}
use wafportal.Api.Tasks.{
  Work, answer, login_response, change_response, keep_or_reject, statement, reply_with, on_ok,
  and_then, gather, login, change_password, check, store_hash, replace_password, stats,
  apply_reload_err, after_reload, saved_site, create_valid, create_site, update_valid, update_site,
  deleted, delete_site, keep_or_roll_back, created_rule, create_rule, updated_rule, update_rule,
  delete_rule, dispatch, guarded, handle,
}

peek-KeepsValid : (key : Text) → KeepsValid (peek_setting key)
unfolding peek_setting
peek-KeepsValid key = get_setting-KeepsValid key

module _ {Plane : Type 0} (P : Plane → Type 0) where
  abbrev pub KeepsInv : {A : Type 0} → Work Plane A → Type 0
  KeepsInv t = Keeps (Inv P) t

  -- A statement, and what follows it.
  pub after-KeepsInv :
      {A B : Type 0} (m : Db → A × Db) (f : A → Work Plane B)
      → KeepsValid m
      → ((a : A) → KeepsInv (f a))
      → KeepsInv (statement m >>= f)
  unfolding Keeps
  after-KeepsInv m f km kf s v = (on_db-Inv P m s km v, kf (m s.db).0)

  -- A statement whose outcome is the answer.
  pub statement-KeepsInv :
      {A B : Type 0} (m : Db → A × Db) (f : A → B)
      → KeepsValid m
      → KeepsInv (statement m >>= λ r. done (f r))
  statement-KeepsInv m f km = after-KeepsInv m _ km (λ r. done-Keeps (Inv P) (f r))

  -- Work whose outcome is made into the answer.
  pub answered-KeepsInv :
      {A B : Type 0} (t : Work Plane A) (f : A → B) → KeepsInv t → KeepsInv (t >>= λ r. done (f r))
  answered-KeepsInv t f kt = bind-Keeps (Inv P) t _ kt (λ r. done-Keeps (Inv P) (f r))

  pub reply_with-KeepsInv :
      {A : Type 0} (status : ℤ) (show : A → Body) (m : Db → Result A × Db)
      → KeepsValid m
      → KeepsInv (reply_with status show m)
  reply_with-KeepsInv status show m km = statement-KeepsInv m (answer status show) km

  and_then-KeepsInv :
      {A B : Type 0} (m : Db → Result A × Db) (f : A → Work Plane (Result B))
      → KeepsValid m
      → ((a : A) → KeepsInv (f a))
      → KeepsInv (and_then (statement m) f)
  and_then-KeepsInv m f km kf = after-KeepsInv m (on_ok f) km next
    where
      next : (r : Result _) → KeepsInv (on_ok f r)
      next (ok a) = kf a
      next (err e) = unfold Keeps in tt

  gather-KeepsInv : (bare : Group Event → Event) (from : ℤ) → KeepsInv (gather bare from)
  gather-KeepsInv bare from = and_then-KeepsInv _ _ (count_events-KeepsValid from) λ counts.
      and_then-KeepsInv _ _ (top_rules-KeepsValid from bare) λ rules.
        and_then-KeepsInv _ _ (top_clients-KeepsValid from)
          λ clients. and_then-KeepsInv _ _ (timeline-KeepsValid from) λ points. done-Keeps (Inv P) _

  pub stats-KeepsInv : (m : Moment) (window : Option (Result ℤ)) → KeepsInv (stats m window)
  unfolding stats
  stats-KeepsInv m window =
      answered-KeepsInv _ (answer (pos 500) Body.stats)
        (gather-KeepsInv m.bare (from_time m.now (window_of window)))

  module _ (k : Crypto) where
    check-KeepsInv : (user password : Text) → KeepsInv (check k user password)
    check-KeepsInv user password =
        after-KeepsInv (peek_setting key_username) _ (peek-KeepsValid key_username) λ stored.
          statement-KeepsInv (peek_setting key_hash)
            (compare k user password (or_empty_text stored)) (peek-KeepsValid key_hash)

    pub login-KeepsInv :
        (m : Moment) (tls : Bool) (r : Result Credentials) → KeepsInv (login k m tls r)
    unfolding login
    login-KeepsInv m tls (err e) = unfold Keeps in tt
    login-KeepsInv m tls (ok body) =
        answered-KeepsInv _ (login_response k m tls body)
          (check-KeepsInv body.username body.password)

    store_hash-KeepsInv : (h : Result Text) → KeepsInv (store_hash h)
    store_hash-KeepsInv (err e) = unfold Keeps in tt
    store_hash-KeepsInv (ok hash) =
        atomically-Keeps (Inv P) _ (λ s v.
          on_db-Inv P (set_setting key_hash hash) s (set_setting-KeepsValid key_hash hash) v)

    replace_password-KeepsInv :
        (salt next : Text) (valid : Bool) → KeepsInv (replace_password k salt next valid)
    replace_password-KeepsInv salt next false = unfold Keeps in tt
    replace_password-KeepsInv salt next true = elim (Bool-cases (ltb (length next) 8)) [
      | inl short ↦ rw short (unfold Keeps in tt)
      | inr long ↦ rw long (store_hash-KeepsInv (k.hash_password salt next))
    ]

    pub change_password-KeepsInv :
        (m : Moment) (r : Result PasswordChange) → KeepsInv (change_password k m r)
    unfolding change_password
    change_password-KeepsInv m (err e) = unfold Keeps in tt
    change_password-KeepsInv m (ok body) =
        after-KeepsInv (peek_setting key_username) _ (peek-KeepsValid key_username) λ user.
          bind-Keeps (Inv P) _ _ (check-KeepsInv (or_empty_text user) body.current) λ valid.
            answered-KeepsInv _ change_response (replace_password-KeepsInv m.salt body.next valid)
