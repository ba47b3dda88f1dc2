-- ===== src/Api/Tasks/Ends.antt =====
-- How many statements and steps of the reload a call of internal/api/api.go takes at most.
use wafportal.Base.{
  Text, is_empty, ℕ, suc, ◌≤◌, Bool, true, false, Bool-cases, inl, inr, ◌||◌, Option, none, some,
  Result, ok, err, Error, ℤ, Group, length, ltb, arith,
}
use wafportal.Base.Tasks.{EndsWithin, bind-EndsWithin, weaken-EndsWithin, done, ◌>>=◌}
use wafportal.Store.Models.{Site, CustomRule, Event}
use wafportal.Store.Db.{Db}
use wafportal.Store.Stats as Summary
use wafportal.Store.Stats.{from_time}
use wafportal.Auth.{key_username, peek_setting, or_empty_text}
use wafportal.Auth.Primitives.{Crypto}
use wafportal.Auth.Session.{verify}
use wafportal.Api.{is_public}
use wafportal.Api.Wire.{Endpoint, Call, Body, Credentials, PasswordChange, Response}
use wafportal.Api.State.{State, Moment}
use wafportal.Api.Events.{window_of}
use wafportal.Api.Validate.{validate_site, id_param}
use wafportal.Api.Tasks.{
  Work, change_response, statement, reply_with, on_ok, and_then, gather, login, change_password,
  check, store_hash, replace_password, stats, apply_reload_err, after_reload, saved_site,
  create_valid, create_site, update_valid, update_site, deleted, delete_site, keep_or_roll_back,
  created_rule, create_rule, updated_rule, update_rule, delete_rule, dispatch, guarded, handle,
}

module _ {Plane : Type 0} (P : State Plane → Type 0) where
  abbrev Ends : {A : Type 0} → ℕ → Work Plane A → Type 0
  Ends m t = EndsWithin P m t

  done-Ends : {A : Type 0} (m : ℕ) (a : A) → Ends m (done a)
  unfolding EndsWithin
  done-Ends m a = tt

  after-Ends :
      {A B : Type 0} (m : ℕ) (q : Db → A × Db) (f : A → Work Plane B)
      → ((a : A) → Ends m (f a))
      → Ends (suc m) (statement q >>= f)
  unfolding EndsWithin
  after-Ends m q f h = λ s p. h (q s.db).0

  on_ok-Ends :
      {A B : Type 0} (m : ℕ) (f : A → Work Plane (Result B)) (r : Result A)
      → ((a : A) → Ends m (f a))
      → Ends m (on_ok f r)
  unfolding EndsWithin
  on_ok-Ends m f (ok a) h = h a
  on_ok-Ends m f (err e) h = tt

  and_then-Ends :
      {A B : Type 0} (m : ℕ) (q : Db → Result A × Db) (f : A → Work Plane (Result B))
      → ((a : A) → Ends m (f a))
      → Ends (suc m) (and_then (statement q) f)
  unfolding EndsWithin
  and_then-Ends m q f h = λ s p. on_ok-Ends m f (q s.db).0 h

  gather-Ends : (bare : Group Event → Event) (from : ℤ) → Ends 4 (gather bare from)
  gather-Ends bare from = and_then-Ends 3 (Summary.count_events from) _ λ counts.
      and_then-Ends 2 (Summary.top_rules bare from) _ λ rules.
        and_then-Ends 1 (Summary.top_clients from) _
          λ clients. and_then-Ends 0 (Summary.timeline from) _ λ points. done-Ends 0 _

  stats-Ends : (m : Moment) (window : Option (Result ℤ)) → Ends 4 (stats m window)
  unfolding stats
  stats-Ends m window =
      bind-EndsWithin P 4 0 4 (gather m.bare (from_time m.now (window_of window))) _ (omega arith)
        (gather-Ends m.bare (from_time m.now (window_of window))) (λ r. unfold EndsWithin in tt)

  module _ (k : Crypto) where
    check-Ends : (user password : Text) → Ends 2 (check k user password)
    unfolding EndsWithin
    check-Ends user password = λ s p s' p'. tt

    login-Ends : (m : Moment) (tls : Bool) (r : Result Credentials) → Ends 2 (login k m tls r)
    unfolding login EndsWithin
    login-Ends m tls (err e) = tt
    login-Ends m tls (ok body) = λ s p s' p'. tt

    replace_password-Ends :
        (salt next : Text) (valid : Bool) → Ends 1 (replace_password k salt next valid)
    unfolding EndsWithin
    replace_password-Ends salt next false = tt
    replace_password-Ends salt next true = elim (Bool-cases (ltb (length next) 8)) [
      | inl short ↦ rw short tt
      | inr long ↦ rw long (stored (k.hash_password salt next))
    ]
      where
        stored : (h : Result Text) → Ends 1 (store_hash h)
        stored (err e) = tt
        stored (ok hash) = λ s p. tt

    changed-Ends :
        (salt next : Text) (valid : Bool)
        → Ends 1 (replace_password k salt next valid >>= λ r. done (change_response r))
    changed-Ends salt next valid =
        bind-EndsWithin P 1 0 1 (replace_password k salt next valid) _ (omega arith)
          (replace_password-Ends salt next valid) (λ r. done-Ends 0 (change_response r))

    change_password-Ends : (m : Moment) (r : Result PasswordChange) → Ends 4 (change_password k m r)
    unfolding change_password
    change_password-Ends m (err e) = done-Ends 4 _
    change_password-Ends m (ok body) = after-Ends 3 (peek_setting key_username) _ λ user.
        bind-EndsWithin P 2 1 3 (check k (or_empty_text user) body.current) _ (omega arith)
          (check-Ends (or_empty_text user) body.current) (changed-Ends m.salt body.next)

  -- A callback that takes so many steps at most.
  module _ (rt : Option (Work Plane (Option Error))) (n : ℕ)
      (ends : Ends n (apply_reload_err rt)) where
    after_reload-Ends : (response : Response) → Ends n (after_reload rt response)
    after_reload-Ends response =
        bind-EndsWithin P n 0 n (apply_reload_err rt) _ (omega arith) ends
          (λ e. unfold EndsWithin in tt)

    saved_site-Ends : (status : ℤ) (r : Result Site) → Ends n (saved_site rt status r)
    unfolding EndsWithin
    saved_site-Ends status (err e) = tt
    saved_site-Ends status (ok site) = after_reload-Ends _

    create_valid-Ends : (m : Moment) (r : Result Site) → Ends (suc n) (create_valid rt m r)
    unfolding EndsWithin
    create_valid-Ends m (err e) = tt
    create_valid-Ends m (ok site) = λ s p. saved_site-Ends _ _

    update_valid-Ends : (m : Moment) (r : Result Site) → Ends (suc n) (update_valid rt m r)
    unfolding EndsWithin
    update_valid-Ends m (err e) = tt
    update_valid-Ends m (ok site) = λ s p. saved_site-Ends _ _

    deleted-Ends : (r : Result (Unit {0})) → Ends n (deleted rt r)
    unfolding EndsWithin
    deleted-Ends (err e) = tt
    deleted-Ends (ok _) = after_reload-Ends _

    created_rule-Ends : (r : Result CustomRule) → Ends (suc n) (created_rule rt r)
    unfolding EndsWithin
    created_rule-Ends (err e) = tt
    created_rule-Ends (ok rule) =
        bind-EndsWithin P n 1 (suc n) (apply_reload_err rt) (keep_or_roll_back rule) (omega arith)
          ends rolled
      where
        rolled : (o : Option Error) → Ends 1 (keep_or_roll_back rule o)
        rolled none = tt
        rolled (some e) = λ s p. tt

    updated_rule-Ends : (r : Result CustomRule) → Ends n (updated_rule rt r)
    unfolding EndsWithin
    updated_rule-Ends (err e) = tt
    updated_rule-Ends (ok rule) =
        bind-EndsWithin P n 0 n (apply_reload_err rt) _ (omega arith) ends (λ e. tt)

    create_rule-Ends :
        (m : Moment) (r : Result CustomRule) → Ends (suc (suc n)) (create_rule rt m r)
    unfolding create_rule EndsWithin
    create_rule-Ends m (err e) = tt
    create_rule-Ends m (ok rule) =
        elim (Bool-cases (is_empty rule.name || is_empty rule.directive)) [
          | inl lacking ↦ rw lacking tt
          | inr whole ↦ rw whole (λ s p. created_rule-Ends _)
        ]

    update_rule-Ends :
        (m : Moment) (id : Text) (r : Result CustomRule) → Ends (suc n) (update_rule rt m id r)
    unfolding update_rule EndsWithin
    update_rule-Ends m id (err e) = tt
    update_rule-Ends m id (ok rule) =
        elim (Bool-cases (is_empty rule.name || is_empty rule.directive)) [
          | inl lacking ↦ rw lacking tt
          | inr whole ↦ rw whole (λ s p. updated_rule-Ends _)
        ]

    reply_with-Ends :
        {A : Type 0} (status : ℤ) (show : A → Body) (m : Db → Result A × Db)
        → Ends (suc n) (reply_with status show m)
    unfolding EndsWithin
    reply_with-Ends status show m = λ s p. tt

    module _ (k : Crypto) (enough : 4 ≤ n) where
      -- One statement more than the longest callback, and for createRule one to take the rule back.
      longer : (m : ℕ) (t : Work Plane Response) → m ≤ suc n → Ends m t → Ends (suc (suc n)) t
      longer m t le h = weaken-EndsWithin P m (suc (suc n)) t (omega arith) h

      dispatch-Ends :
          (m : Moment) (tls : Bool) (session : Option Text) (endpoint : Endpoint)
          → Ends (suc (suc n)) (dispatch rt k m tls session endpoint)
      unfolding dispatch EndsWithin
      dispatch-Ends m tls session Endpoint.health = tt
      dispatch-Ends m tls session (Endpoint.login body) =
          longer 2 _ (omega arith) (login-Ends k m tls body)
      dispatch-Ends m tls session Endpoint.logout = tt
      dispatch-Ends m tls session Endpoint.me = tt
      dispatch-Ends m tls session (Endpoint.change_password body) =
          longer 4 _ (omega arith) (change_password-Ends k m body)
      dispatch-Ends m tls session Endpoint.list_sites = λ s p. tt
      dispatch-Ends m tls session (Endpoint.create_site (err e)) = unfold create_site in tt
      dispatch-Ends m tls session (Endpoint.create_site (ok site)) =
          unfold create_site in
          longer (suc n) _ (omega arith) (create_valid-Ends m (validate_site site))
      dispatch-Ends m tls session (Endpoint.get_site id) = λ s p. tt
      dispatch-Ends m tls session (Endpoint.update_site id (err e)) = unfold update_site in tt
      dispatch-Ends m tls session (Endpoint.update_site id (ok site)) =
          unfold update_site in
          longer (suc n) _ (omega arith)
            (update_valid-Ends m (validate_site (record site { id = id_param id })))
      dispatch-Ends m tls session (Endpoint.delete_site id) =
          longer (suc n) (delete_site rt id) (omega arith)
            (unfold delete_site in λ s p. deleted-Ends _)
      dispatch-Ends m tls session Endpoint.list_rules = λ s p. tt
      dispatch-Ends m tls session (Endpoint.create_rule body) = create_rule-Ends m body
      dispatch-Ends m tls session (Endpoint.get_rule id) = λ s p. tt
      dispatch-Ends m tls session (Endpoint.update_rule id body) =
          longer (suc n) _ (omega arith) (update_rule-Ends m id body)
      dispatch-Ends m tls session (Endpoint.delete_rule id) =
          longer (suc n) (delete_rule rt id) (omega arith)
            (unfold delete_rule in λ s p. deleted-Ends _)
      dispatch-Ends m tls session (Endpoint.list_events q) = λ s p. tt
      dispatch-Ends m tls session (Endpoint.stats window) =
          longer 4 _ (omega arith) (stats-Ends m window)

      guarded-Ends :
          (user : Option Text) (m : Moment) (call : Call)
          → Ends (suc (suc n)) (guarded rt k user m call)
      unfolding EndsWithin
      guarded-Ends none m call = tt
      guarded-Ends (some u) m call = dispatch-Ends m call.tls call.session call.endpoint

      -- A call ends two steps after those of the callback at the latest.
      pub handle-Ends : (m : Moment) (call : Call) → EndsWithin P (suc (suc n)) (handle rt k m call)
      unfolding handle
      handle-Ends m call = elim (Bool-cases (is_public call.endpoint)) [
        | inl open_to_all ↦ rw open_to_all (dispatch-Ends m call.tls call.session call.endpoint)
        | inr closed ↦ rw closed (guarded-Ends (verify k m.secret m.now call.session) m call)
      ]
