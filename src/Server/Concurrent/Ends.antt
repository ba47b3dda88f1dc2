-- ===== src/Server/Concurrent/Ends.antt =====
-- How long a task of the process takes, however often it is overtaken.
use wafportal.Base.{
  Text, ℕ, zero, suc, ◌+◌, ◌≤◌, ◌≡◌, refl, ap, ◌∙◌, Bool, true, false, Bool-cases, inl, inr, Option,
  none, some, List, [], ◌∷◌, Result, ok, err, length, insert_by, sort_by, arith,
}
use wafportal.Base.Tasks.{
  Task, done, step, atomically, ◌>>=◌, EndsWithin, weaken-EndsWithin, bind-EndsWithin, is_done,
  after_steps, EndsWithin-is_done,
}
use wafportal.Store.Models.{Time, Event, Site}
use wafportal.Store.Db.{Db}
use wafportal.Store.Db.Effects.{query-ok}
use wafportal.Store.Sites.{list_sites, by_domain}
use wafportal.Waf.Coraza.{Coraza}
use wafportal.Waf.Http.{Request, Reply}
use wafportal.Proxy.{Routing, no_routes, add_site, uses_tls}
use wafportal.Proxy.Network.{Net}
use wafportal.RateLimit.{Buckets}
use wafportal.Auth.Primitives.{Crypto}
use wafportal.Api.Tasks.{handle}
use wafportal.Api.Tasks.Ends.{handle-Ends}
use wafportal.Server.{Running}
use wafportal.Server.Tasks.{
  build_routes, install_routes, after_sites, after_compile, after_rules, reload_task,
}
use wafportal.Server.System.{System, Action}
use wafportal.Server.Concurrent.{
  within, report, if_admitted, unless_tls, after_challenge, serve_http, http_handler,
  store_received, round, job,
}

module _ {A : Type 0} (le : A → A → Bool) where
  length-insert_by : (x : A) (xs : List A) → length (insert_by le x xs) ≡ suc (length xs)
  length-insert_by x [] = refl
  length-insert_by x (y ∷ ys) = elim (Bool-cases (le x y)) [
    | inl before ↦ rw before refl
    | inr after ↦ rw after (ap suc (length-insert_by x ys))
  ]

  length-sort_by : (xs : List A) → length (sort_by le xs) ≡ length xs
  length-sort_by [] = refl
  length-sort_by (x ∷ xs) = length-insert_by x (sort_by le xs) ∙ ap suc (length-sort_by xs)

module _ (c : Coraza) (n : Net) (sites : ℕ) where
  -- The store has so many sites at most.
  abbrev pub HasFewSites : Running c n → Type 0
  HasFewSites s = length s.db.tables.sites.rows ≤ sites

  list_sites-length :
      (db : Db) (found : List Site)
      → (list_sites db).0 ≡ ok found
      → length found ≡ length db.tables.sites.rows
  unfolding list_sites
  list_sites-length db found h =
      ap length (query-ok _ db found h) ∙ length-sort_by by_domain db.tables.sites.rows

  -- A round for each site, and the swap.
  build_routes-Ends :
      (m : ℕ) (found : List Site) (t : Routing c n)
      → length found ≤ m
      → EndsWithin HasFewSites
          (suc m)
          (build_routes c n found t >>= λ t'. atomically (install_routes c n t'))
  unfolding EndsWithin
  build_routes-Ends m [] t le = λ s p. tt
  build_routes-Ends zero (site ∷ found) t le = absurd (omega arith)
  build_routes-Ends (suc m) (site ∷ found) t le =
      λ s p. build_routes-Ends m found (add_site c n s.plane.engines site t) (omega arith)

  after_sites-Ends :
      (r : Result (List Site))
      → ((found : List Site) → r ≡ ok found → length found ≤ sites)
      → EndsWithin HasFewSites (suc sites) (after_sites c n r)
  unfolding EndsWithin
  after_sites-Ends (err e) few = tt
  after_sites-Ends (ok found) few = build_routes-Ends sites found (no_routes c n) (few found refl)

  after_compile-Ends :
      (r : Result (Unit {0})) → EndsWithin HasFewSites (suc (suc sites)) (after_compile c n r)
  unfolding EndsWithin
  after_compile-Ends (err e) = tt
  after_compile-Ends (ok _) = λ s few.
      after_sites-Ends (list_sites s.db).0
        (λ found h. omega (arith, list_sites-length s.db found h, few))

  after_rules-Ends :
      (r : Result (List Text)) → EndsWithin HasFewSites (suc (suc (suc sites))) (after_rules c n r)
  unfolding EndsWithin
  after_rules-Ends (err e) = tt
  after_rules-Ends (ok directives) = λ s few. after_compile-Ends _

  reload_task-Ends : EndsWithin HasFewSites (suc (suc (suc (suc sites)))) (reload_task c n)
  unfolding reload_task EndsWithin
  reload_task-Ends = λ s few. after_rules-Ends _

  module _ {Rate : Type 0} (rate : ℕ → Rate) (k : Crypto) (b : Buckets) where
    abbrev pub HasFew : System rate c n k b → Type 0
    HasFew s = HasFewSites s.running

    within-Ends :
        {A : Type 0} (m : ℕ) (t : Task (Running c n) A)
        → EndsWithin HasFewSites m t
        → EndsWithin HasFew m (within rate c n k b t)
    unfolding EndsWithin
    within-Ends m (done a) h = tt
    within-Ends zero (step change next) h = absurd h
    within-Ends (suc m) (step change next) h = λ s p. within-Ends m (next s.running) (h s.running p)

    serve_http-Ends :
        (client nonce : Text) (now : Time) (r : Request)
        → EndsWithin HasFew 3 (serve_http rate c n k b client nonce now r)
    unfolding serve_http EndsWithin
    serve_http-Ends client nonce now r = λ s p. looked_up _
      where
        reported :
            (o : Option Event) (reply : Reply) → EndsWithin HasFew 1 (report rate c n k b o reply)
        reported none reply = tt
        reported (some e) reply = λ s p. tt

        looked_up :
            (in_time : Bool) → EndsWithin HasFew 2 (if_admitted rate c n k b nonce now r in_time)
        looked_up false = tt
        looked_up true = λ s p. reported _ _

    after_challenge-Ends :
        (o : Option Reply) (client nonce : Text) (now : Time) (r : Request)
        → EndsWithin HasFew 4 (after_challenge rate c n k b o client nonce now r)
    unfolding EndsWithin
    after_challenge-Ends (some reply) client nonce now r = tt
    after_challenge-Ends none client nonce now r =
        λ s p. by_tls (uses_tls c n s.running.plane.routing r.host)
      where
        by_tls : (tls : Bool) → EndsWithin HasFew 3 (unless_tls rate c n k b client nonce now r tls)
        by_tls true = tt
        by_tls false = serve_http-Ends client nonce now r

    round-Ends : EndsWithin HasFew 2 (round rate c n k b)
    unfolding round EndsWithin
    round-Ends = λ s p. stored _
      where
        stored : (o : Option Event) → EndsWithin HasFew 1 (store_received rate c n k b o)
        stored none = tt
        stored (some e) = λ s p. tt

    job-Ends :
        (s : System rate c n k b) (a : Action)
        → EndsWithin HasFew (sites + 6) (job rate c n k b s a)
    unfolding job http_handler
    job-Ends s (Action.visited nonce now r) =
        weaken-EndsWithin HasFew 5 (sites + 6) _ (omega arith)
          (unfold EndsWithin in λ s p. after_challenge-Ends _ _ nonce now r)
    job-Ends s (Action.visited_tls nonce now r) =
        weaken-EndsWithin HasFew 3 (sites + 6) _ (omega arith) (serve_http-Ends _ nonce now r)
    job-Ends s (Action.called m call) =
        let longest = suc (suc (suc (suc sites))) in
        let t = handle (some (reload_task c n)) k (record m { secret = s.secret }) call in
        bind-EndsWithin HasFew (suc (suc longest)) 0 (sites + 6) (within rate c n k b t) _
          (omega arith)
          (within-Ends (suc (suc longest)) t (
            handle-Ends HasFewSites (some (reload_task c n)) longest reload_task-Ends k
              (omega arith) (record m { secret = s.secret }) call))
          (λ response. unfold EndsWithin in tt)
    job-Ends s Action.worked = weaken-EndsWithin HasFew 2 (sites + 6) _ (omega arith) round-Ends
    job-Ends s (Action.swept now) =
        weaken-EndsWithin HasFew 1 (sites + 6) _ (omega arith) (unfold EndsWithin in λ s p. tt)

    -- While the store never has more sites than `sites`, a request, a call or a round of a loop is over
    -- after sites + 6 steps of its own, whatever the others do to the process between any two of them.
    pub job-is_done :
        (s : System rate c n k b) (a : Action) (found : ℕ → System rate c n k b)
        → ((i : ℕ) → HasFew (found i))
        → is_done (after_steps (sites + 6) found (job rate c n k b s a)) ≡ true
    job-is_done s a found few =
        EndsWithin-is_done HasFew (sites + 6) found (job rate c n k b s a) few (job-Ends s a)
