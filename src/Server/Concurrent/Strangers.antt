-- ===== src/Server/Concurrent/Strangers.antt =====
-- What the process can come to while nobody who calls the API is logged in.
use wafportal.Base.{Text, ℕ, ◌≡◌, refl, sym, none, some, List, [], ◌∷◌, All}
use wafportal.Base.Tasks.{Task, done, step, Keeps}
use wafportal.Store.Models.{Event}
use wafportal.Store.Db.{Tables}
use wafportal.Store.Db.Effects.{query-tables, exec_keeps, ok-parts}
use wafportal.Store.Settings.{get_setting}
use wafportal.Store.Events.{insert_event, append_event}
use wafportal.Waf.Coraza.{Coraza}
use wafportal.Proxy.Network.{Net}
use wafportal.RateLimit.{Buckets}
use wafportal.Auth.{peek_setting}
use wafportal.Auth.Primitives.{Crypto}
use wafportal.Auth.Session.{verify}
use wafportal.Api.State.{on_db}
use wafportal.Api.Tasks.Strangers.{stranger-Keeps}
use wafportal.Server.{Plane, Running}
use wafportal.Server.System.{System, Action, sink_of}
use wafportal.Server.System.Safety.{submit-st}
use wafportal.Server.Tasks.{reload_task}
use wafportal.Server.Concurrent.{Turn, within, receive_from, insert_into, turns, idle}
use wafportal.Server.Concurrent.Keeps.{IsKept, IsAllowed, turns-Keeps}

-- What the administrator has set up is what it was; the events may differ.
pub record IsSetUpLike (t t' : Tables) : Type 0 where
  pub sites : t'.sites ≡ t.sites
  pub rules : t'.rules ≡ t.rules
  pub settings : t'.settings ≡ t.settings

module _ {Rate : Type 0} (rate : ℕ → Rate) (c : Coraza) (n : Net) (k : Crypto) (b : Buckets) where
  abbrev pub IsAsBefore : Tables → Plane c n → Running c n → Type 0
  IsAsBefore t p s = IsSetUpLike t s.db.tables × (s.plane ≡ p)

  -- A call is a stranger's if its cookie is not accepted.
  abbrev pub IsStranger : Text → Action → Type 0
  IsStranger secret (Action.called m call) = verify k secret m.now call.session ≡ none
  IsStranger secret _ = Unit {0}

  module _ (t : Tables) (plane : Plane c n) (secret : Text) where
    abbrev Same : System rate c n k b → Type 0
    Same s = IsAsBefore t plane s.running × (s.secret ≡ secret)

    reads-IsAsBefore :
        (key : Text) (s : Running c n)
        → IsAsBefore t plane s
        → IsAsBefore t plane (on_db (peek_setting key) s).1
    unfolding peek_setting get_setting
    reads-IsAsBefore key s (h, p) = (rw (query-tables _ s.db) h, p)

    within-Keeps :
        {A : Type 0} (w : Task (Running c n) A)
        → Keeps (IsAsBefore t plane) w
        → Keeps Same (within rate c n k b w)
    unfolding Keeps
    within-Keeps (done a) h = tt
    within-Keeps (step change next) h =
        λ s (i, f). (((h s.running i).0, f), within-Keeps (next s.running) (h s.running i).1)

    receives-Same :
        (es : List Event) (s : System rate c n k b)
        → Same s
        → Same (receive_from rate c n k b es s).1
    receives-Same [] s h = h
    receives-Same (e ∷ es) s h = h

    inserts-Same :
        (e : Event) (s : System rate c n k b) → Same s → Same (insert_into rate c n k b e s).1
    unfolding insert_event
    inserts-Same e s ((h, p), f) = (
      (
        exec_keeps (append_event e) (IsSetUpLike t) s.running.db h (λ a t' written.
            rw (sym (ok-parts written).1)
              (record { sites = h.sites; rules = h.rules; settings = h.settings })),
        p,
      ),
      f,
    )

    Same-IsKept : IsKept rate c n k b Same (IsStranger secret)
    Same-IsKept = record {
      limited = λ l s h. h;
      submits = λ e s h. rw (submit-st e (sink_of rate c n k b s)) h;
      receives = λ s h. receives-Same s.ch s h;
      inserts = inserts-Same;
      calls = λ m call s stranger (h, same). within-Keeps _ (
          stranger-Keeps (IsAsBefore t plane) reads-IsAsBefore (some (reload_task c n)) k
            (record m { secret = s.secret }) call (rw same stranger));
    }

  -- While every call that arrives has no cookie or one that is not accepted, the sites, the rules, the
  -- settings, the engines and the routes stay what they were, whatever requests come to the proxy and in
  -- whatever order the steps follow one another.
  pub turns-IsAsBefore :
      (ts : List (Turn rate c n k b)) (s : System rate c n k b)
      → All (IsAllowed rate c n k b (IsStranger s.secret)) ts
      → IsAsBefore s.running.db.tables s.running.plane
          (turns rate c n k b (idle rate c n k b s) ts).system.running
  turns-IsAsBefore ts s strangers =
      (turns-Keeps rate c n k b (Same s.running.db.tables s.running.plane s.secret)
        (IsStranger s.secret) (Same-IsKept s.running.db.tables s.running.plane s.secret) ts s
        strangers ((record { sites = refl; rules = refl; settings = refl }, refl), refl)).0
