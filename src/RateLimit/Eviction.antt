-- ===== src/RateLimit/Eviction.antt =====
-- Evicting idle buckets is not seen by the clients: the limiter with its cleanup loop decides as one
-- that never forgets a client.
use wafportal.Base.{
  Text, text_eq, get, put, get-put, Assoc, ◌+◌, ◌<◌, ◌≤◌, ◌≡◌, refl, sym, ap, ◌∙◌, ◌⊎◌, inl, inr,
  Bool, not, Bool-cases, Option, none, some, List, [], ◌∷◌, arith,
}
use mathlib.Core.Path.{ap₂}
use wafportal.Store.Models.{Time}
use wafportal.RateLimit.{
  Buckets, Client, Limiter, ten_minutes, new, bucket_of, allow, is_idle, cleanup,
}
use wafportal.RateLimit.Keys.{
  HasDistinctKeys, put-HasDistinctKeys, keep-HasDistinctKeys, if_kept, get-keep,
}

-- One thing that happens to a limiter.
pub data Tick : Type 0 where
  request : Time → Text → Tick
  sweep : Time → Tick

abbrev pub time_of : Tick → Time
time_of (request now key) = now
time_of (sweep now) = now

-- The times do not fall.
abbrev pub InOrder : Time → List Tick → Type 0
InOrder t [] = Unit
InOrder t (x ∷ xs) = (t ≤ time_of x) × InOrder (time_of x) xs

abbrev pub without_sweeps : List Tick → List Tick
without_sweeps [] = []
without_sweeps (request now key ∷ ts) = request now key ∷ without_sweeps ts
without_sweeps (sweep now ∷ ts) = without_sweeps ts

-- Left alone for longer than `ttl` after a call, a bucket answers as a new one does. A token bucket of
-- golang.org/x/time/rate does so where it fills up within the ttl, that is, where burst / rps is at most
-- the ttl.
abbrev pub Refills : Buckets → Time → Type 0
Refills b ttl =
    (x : b.Bucket) (t now : Time)
    → t + ttl < now
    → b.take_token now (b.take_token t x).1 ≡ b.take_token now b.fresh

module _ (b : Buckets) where
  open b use {Bucket, fresh, take_token}

  -- The answers to the requests, in order.
  pub decisions : Limiter b → List Tick → List Bool
  decisions l [] = []
  decisions l (request now key ∷ ts) =
      let (granted, l') = allow b now key l in granted ∷ decisions l' ts
  decisions l (sweep now ∷ ts) = decisions (cleanup b now l) ts

  -- The bucket is what the last call left of some bucket.
  abbrev Used : Client b → Type 0
  Used c = (x : Bucket) × (c.limiter ≡ (take_token c.last_seen x).1)

  abbrev UsedIf : Option (Client b) → Type 0
  UsedIf none = Unit
  UsedIf (some c) = Used c

  abbrev Stale : Time → Time → Option (Client b) → Type 0
  Stale ttl now none = ⊥
  Stale ttl now (some c) = Used c × (c.last_seen + ttl < now)

  -- The entry here and the entry of the limiter that forgets nothing.
  abbrev Agrees : Time → Time → Option (Client b) → Option (Client b) → Type 0
  Agrees ttl now o o' = (o ≡ o') × UsedIf o' ⊎ (o ≡ none) × Stale ttl now o'

  record Simulates (now : Time) (l l' : Limiter b) : Type 0 where
    same_ttl : l'.ttl ≡ l.ttl
    keys : HasDistinctKeys l.clients
    entries : (k : Text) → Agrees l.ttl now (get k l.clients) (get k l'.clients)

  module _ (ttl : Time) (refills : Refills b ttl) where
    agree_bucket :
        (now : Time) (o o' : Option (Client b))
        → Agrees ttl now o o'
        → take_token now (bucket_of b o) ≡ take_token now (bucket_of b o')
    agree_bucket now o o' (inl (e, u)) =
        ap (λ (x : Option (Client b)). take_token now (bucket_of b x)) e
    agree_bucket now o none (inr (e, s)) = absurd s
    agree_bucket now o (some c) (inr (e, ((x, u), s))) =
        rw e (rw u (sym (refills x c.last_seen now s)))

  Stale-later :
      (ttl t now : Time) (o : Option (Client b)) → t ≤ now → Stale ttl t o → Stale ttl now o
  Stale-later ttl t now none h s = s
  Stale-later ttl t now (some c) h (u, s) = (u, omega arith)

  Agrees-later :
      (ttl t now : Time) (o o' : Option (Client b))
      → t ≤ now
      → Agrees ttl t o o'
      → Agrees ttl now o o'
  Agrees-later ttl t now o o' h (inl same) = inl same
  Agrees-later ttl t now o o' h (inr (e, s)) = inr (e, Stale-later ttl t now o' h s)

  Agrees-if_kept :
      (ttl now : Time) (o o' : Option (Client b))
      → Agrees ttl now o o'
      → Agrees ttl now (if_kept (λ c. not (is_idle b ttl now c)) o) o'
  Agrees-if_kept ttl now none o' (inl same) = inl same
  Agrees-if_kept ttl now (some c) o' (inl (e, u)) = elim (Bool-cases (is_idle b ttl now c)) [
    | inl idle ↦ rw idle (inr (refl, rw (← e) (rw (← e) at u, ground arith)))
    | inr fresh ↦ rw fresh (inl (e, u))
  ]
  Agrees-if_kept ttl now o o' (inr (e, s)) = rw e (inr (refl, s))

  -- After a call both limiters hold the same entry for its key.
  Agrees-put :
      (ttl now : Time) (k j : Text) (c : Client b) (m m' : Assoc (Client b))
      → Used c
      → Agrees ttl now (get j m) (get j m')
      → Agrees ttl now (get j (put k c m)) (get j (put k c m'))
  Agrees-put ttl now k j c m m' u a = rw (get-put k j c m) (
      rw (get-put k j c m')
        (elim (Bool-cases (text_eq k j)) [ inl y ↦ rw y (inl (refl, u)) | inr n ↦ rw n a ]))

  ttl-allow : (now : Time) (key : Text) (l : Limiter b) → (allow b now key l).1.ttl ≡ l.ttl
  unfolding allow
  ttl-allow now key l = refl

  ttl-cleanup : (now : Time) (l : Limiter b) → (cleanup b now l).ttl ≡ l.ttl
  unfolding cleanup
  ttl-cleanup now l = refl

  module _ (ttl : Time) (refills : Refills b ttl) where
    cleanup-Simulates :
        (t now : Time) (l l' : Limiter b)
        → t ≤ now
        → Simulates t l l'
        → Simulates now (cleanup b now l) l'
    unfolding cleanup
    cleanup-Simulates t now l l' h s = record {
      same_ttl = s.same_ttl;
      keys = keep-HasDistinctKeys _ l.clients s.keys;
      entries = λ k. rw (get-keep (λ c. not (is_idle b l.ttl now c)) k l.clients s.keys) (
          Agrees-if_kept l.ttl now (get k l.clients) (get k l'.clients)
            (Agrees-later l.ttl t now (get k l.clients) (get k l'.clients) h (s.entries k)));
    }

    same_answer :
        (t now : Time) (key : Text) (l l' : Limiter b)
        → l.ttl ≡ ttl
        → t ≤ now
        → Simulates t l l'
        → take_token now (bucket_of b (get key l.clients))
          ≡ take_token now (bucket_of b (get key l'.clients))
    same_answer t now key l l' e h s =
        agree_bucket ttl refills now (get key l.clients) (get key l'.clients) (
          rw (← e)
            (Agrees-later l.ttl t now (get key l.clients) (get key l'.clients) h (s.entries key)))

    allow-Simulates :
        (t now : Time) (key : Text) (l l' : Limiter b)
        → l.ttl ≡ ttl
        → t ≤ now
        → Simulates t l l'
        → Simulates now (allow b now key l).1 (allow b now key l').1
    unfolding allow
    allow-Simulates t now key l l' e h s = record {
      same_ttl = s.same_ttl;
      keys = put-HasDistinctKeys key _ l.clients s.keys;
      entries = λ k. rw (← same_answer t now key l l' e h s) (
          Agrees-put l.ttl now key k _ l.clients l'.clients (bucket_of b (get key l.clients), refl)
            (Agrees-later l.ttl t now (get k l.clients) (get k l'.clients) h (s.entries k)));
    }

    granted-allow :
        (t now : Time) (key : Text) (l l' : Limiter b)
        → l.ttl ≡ ttl
        → t ≤ now
        → Simulates t l l'
        → (allow b now key l).0 ≡ (allow b now key l').0
    unfolding allow
    granted-allow t now key l l' e h s =
        ap (λ (p : Bool × Bucket). p.0) (same_answer t now key l l' e h s)

    decisions-Simulates :
        (t : Time) (ts : List Tick) (l l' : Limiter b)
        → l.ttl ≡ ttl
        → InOrder t ts
        → Simulates t l l'
        → decisions l ts ≡ decisions l' (without_sweeps ts)
    unfolding decisions
    decisions-Simulates t [] l l' e o s = refl
    decisions-Simulates t (request now key ∷ ts) l l' e (h, o) s =
        ap₂ ◌∷◌ (granted-allow t now key l l' e h s) (
          decisions-Simulates now ts (allow b now key l).1 (allow b now key l').1
            (ttl-allow now key l ∙ e) o (allow-Simulates t now key l l' e h s))
    decisions-Simulates t (sweep now ∷ ts) l l' e (h, o) s =
        decisions-Simulates now ts (cleanup b now l) l' (ttl-cleanup now l ∙ e) o
          (cleanup-Simulates t now l l' h s)

  -- Where a bucket fills up within the ttl of ten minutes, as with burst / rps of at most 600 seconds,
  -- the cleanup loop is unseen: over any requests and sweeps in the order of time, a new limiter
  -- answers as it would if no bucket were ever evicted.
  pub decisions-without_sweeps :
      Refills b ten_minutes
      → (t : Time) (ts : List Tick) → InOrder t ts
      → decisions (new b) ts ≡ decisions (new b) (without_sweeps ts)
  unfolding new get
  decisions-without_sweeps refills t ts o =
      decisions-Simulates ten_minutes refills t ts _ _ refl o
        (record { same_ttl = refl; keys = tt; entries = λ k. inl (refl, tt) })
