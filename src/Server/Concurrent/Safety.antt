-- ===== src/Server/Concurrent/Safety.antt =====
-- What holds of the process at any time, however requests, calls and loops overtake one another.
use wafportal.Base.{ℕ, ◌≡◌, ◌≤◌, some, List, [], ◌∷◌, All, ok, length, arith}
use wafportal.Base.Tasks.{Task, done, step, Keeps}
use wafportal.Store.Models.{Event}
use wafportal.Store.Db.{Db}
use wafportal.Store.Operations.Invariant.{IsValid}
use wafportal.Store.Operations.Calls.{insert_event-KeepsValid}
use wafportal.Waf.Coraza.{Coraza}
use wafportal.Proxy.Network.{Net}
use wafportal.RateLimit.{Buckets}
use wafportal.Auth.Primitives.{Crypto}
use wafportal.Api.Tasks.Keeps.{KeepsInv}
use wafportal.Api.Tasks.Keeps.Routes.{handle-KeepsInv}
use wafportal.Server.{Running}
use wafportal.Server.Guarded.{IsGuarded}
use wafportal.Server.Tasks.{reload_task}
use wafportal.Server.Tasks.Keeps.{reload_task-KeepsInv}
use wafportal.Server.Startup.{Host, Started, boot}
use wafportal.Server.System.{System, Action, launch, sink_buffer}
use wafportal.Server.System.Safety.{IsSafe, Kept, Kept-IsSafe, reported-Kept, launch-Kept}
use wafportal.Server.Concurrent.Keeps.{IsKept, IsAllowed, turns-Keeps}
use wafportal.Server.Concurrent.{Turn, within, receive_from, turns, idle}

-- Any action.
abbrev AnyAction : Action → Type 0
AnyAction a = Unit {0}

module _ {Rate : Type 0} (rate : ℕ → Rate) (c : Coraza) (n : Net) (k : Crypto) (b : Buckets) where
  within-Keeps :
      {A : Type 0} (t : Task (Running c n) A)
      → KeepsInv (IsGuarded c n) t
      → Keeps (Kept rate c n k b) (within rate c n k b t)
  unfolding Keeps
  within-Keeps (done a) h = tt
  within-Keeps (step change next) h =
      λ s (i, f). (((h s.running i).0, f), within-Keeps (next s.running) (h s.running i).1)

  receive_from-Kept :
      (es : List Event) (s : System rate c n k b)
      → length es ≤ sink_buffer
      → Kept rate c n k b s
      → Kept rate c n k b (receive_from rate c n k b es s).1
  receive_from-Kept [] s fits h = h
  receive_from-Kept (e ∷ es) s fits (h, f) = (h, omega arith)

  Kept-IsKept : IsKept rate c n k b (Kept rate c n k b) AnyAction
  Kept-IsKept = record {
    limited = λ l s h. h;
    submits = λ e s h. reported-Kept rate c n k b (some e) s h;
    receives = λ s h. receive_from-Kept s.ch s h.1 h;
    inserts = λ e s ((v, g), f). ((insert_event-KeepsValid e s.running.db v, g), f);
    calls = λ m call s allowed h. within-Keeps _ (
        handle-KeepsInv (IsGuarded c n) (some (reload_task c n)) (reload_task-KeepsInv c n) k
          (record m { secret = s.secret }) call);
  }

  any-IsAllowed : (ts : List (Turn rate c n k b)) → All (IsAllowed rate c n k b AnyAction) ts
  any-IsAllowed [] = tt
  any-IsAllowed (Turn.started a ∷ ts) = (tt, any-IsAllowed ts)
  any-IsAllowed (Turn.moved i ∷ ts) = (tt, any-IsAllowed ts)
  any-IsAllowed (Turn.worker_moved ∷ ts) = (tt, any-IsAllowed ts)

  -- From valid tables, in whatever order the steps of requests, calls, the worker and the cleanup follow
  -- one another once main has started the servers, the tables stay valid, the sink holds at most its 4096
  -- events, sites in mode "off" have no engine, and every host that is redirected to HTTPS has a handler.
  pub turns-IsSafe :
      (h : Host Rate) (db db' : Db) (st : Started rate c n k) (ts : List (Turn rate c n k b))
      → IsValid db.tables
      → boot rate c n k h db ≡ (ok st, db')
      → IsSafe rate c n k b
          (turns rate c n k b (idle rate c n k b (launch rate c n k b st db')) ts).system
  turns-IsSafe h db db' st ts v booted = Kept-IsSafe rate c n k b _ (
      turns-Keeps rate c n k b (Kept rate c n k b) AnyAction Kept-IsKept ts
        (launch rate c n k b st db') (any-IsAllowed ts)
        (launch-Kept rate c n k b h db db' st v booted))
