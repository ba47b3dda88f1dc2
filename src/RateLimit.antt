-- ===== src/RateLimit.antt =====
-- internal/ratelimit/ratelimit.go. The token buckets are golang.org/x/time/rate, a parameter.
pub mod Keys
pub mod Eviction
pub mod Clients
use wafportal.Base.{Text, ℕ, ◌+◌, ltb, Bool, not, Option, none, some, [], get, put, Assoc}
use wafportal.Store.Models.{Time}
use wafportal.RateLimit.Keys.{keep}

-- `fresh` is rate.NewLimiter(l.rps, l.burst); `take_token` is its Allow at a time.
pub record Buckets : Type 1 where
  pub Bucket : Type 0
  pub fresh : Bucket
  pub take_token : Time → Bucket → Bool × Bucket

-- 10 * time.Minute, in nanoseconds
abbrev pub ten_minutes : Time
ten_minutes = 600_000_000_000

module _ (b : Buckets) where
  open b use {Bucket, fresh, take_token}

  pub record Client : Type 0 where
    pub limiter : Bucket
    pub last_seen : Time

  pub record Limiter : Type 0 where
    pub ttl : Time
    pub clients : Assoc Client

  unfoldable pub new : Limiter
  new = record { ttl = ten_minutes; clients = [] }

  abbrev pub bucket_of : Option Client → Bucket
  bucket_of none = fresh
  bucket_of (some c) = c.limiter

  -- The client's own bucket, or a new one, is asked; the time of the call is kept.
  unfoldable pub allow : Time → Text → Limiter → Bool × Limiter
  allow now key l =
      let (granted, left) = take_token now (bucket_of (get key l.clients)) in
      (
        granted,
        record l { clients = put key (record { limiter = left; last_seen = now }) l.clients },
      )

  -- c.lastSeen.Before(now.Add(-ttl))
  abbrev pub is_idle : Time → Time → Client → Bool
  is_idle ttl now c = ltb (c.last_seen + ttl) now

  -- One tick of cleanupLoop.
  unfoldable pub cleanup : Time → Limiter → Limiter
  cleanup now l = record l { clients = keep (λ c. not (is_idle l.ttl now c)) l.clients }
