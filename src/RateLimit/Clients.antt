-- ===== src/RateLimit/Clients.antt =====
-- Which clients a sweep of internal/ratelimit/ratelimit.go leaves.
use wafportal.Base.{Text, get, ◌+◌, leb, ◌≡◌, refl, ◌∙◌, not, Option, none, some, arith}
use wafportal.Store.Models.{Time}
use wafportal.RateLimit.{Buckets, Client, Limiter, is_idle, cleanup}
use wafportal.RateLimit.Keys.{HasDistinctKeys, if_kept, get-keep}

module _ (b : Buckets) where
  -- After a sweep exactly the clients seen within the ttl are left, each with its own entry.
  pub get-cleanup :
      (now : Time) (l : Limiter b) (k : Text)
      → HasDistinctKeys l.clients
      → get k (cleanup b now l).clients
        ≡ if_kept (λ c. leb now (c.last_seen + l.ttl)) (get k l.clients)
  unfolding cleanup
  get-cleanup now l k h =
      get-keep (λ c. not (is_idle b l.ttl now c)) k l.clients h ∙ recent (get k l.clients)
    where
      recent :
          (o : Option (Client b))
          → if_kept (λ c. not (is_idle b l.ttl now c)) o
            ≡ if_kept (λ c. leb now (c.last_seen + l.ttl)) o
      recent none = refl
      recent (some c) = ground arith
