-- ===== src/Server/ClientIp/Forwarded.antt =====
-- clientIPFunc of cmd/wafportal/main.go behind a proxy whose forwarded header is trusted, and the limiter that
-- asks it.
use wafportal.Base.{
  Text, ℕ, is_empty, trim_space, before, get, ◌≡◌, ◌≢◌, refl, true, false, none, All, [], ◌∷◌, ◌++◌,
  arith,
}
use wafportal.Store.Models.{Time}
use wafportal.Waf.Http.{Request}
use wafportal.RateLimit.{Buckets, Limiter, allow}
use wafportal.Server.ClientIp.{ForwardedConfig, header_get, client_ip}

before-first : (sep : ℕ) (s rest : Text) → All (λ x. x ≢ sep) s → before sep (s ++ sep ∷ rest) ≡ s
unfolding before
before-first sep [] rest h = ground arith
before-first sep (x ∷ s) rest (p, h) = ground (arith, before-first sep s rest h)

-- What a proxy adds to the header behind a comma does not count.
client_ip-first :
    (cfg : ForwardedConfig) (r : Request) (ch : ℕ) (sent added : Text)
    → cfg.trust_forwarded_header ≡ true
    → is_empty cfg.forwarded_header ≡ false
    → header_get cfg.forwarded_header r.headers ≡ (ch ∷ sent) ++ b',' ∷ added
    → All (λ x. x ≢ b',') (ch ∷ sent)
    → client_ip cfg r ≡ trim_space (ch ∷ sent)
unfolding client_ip
client_ip-first cfg r ch sent added trusted named header plain =
    rw (trusted, named, header, before-first b',' (ch ∷ sent) added plain) refl

-- Behind a proxy that appends the visitor's address to a trusted header, a visitor who sends that header
-- with a name that the limiter does not know yet gets a fresh bucket, whatever address the proxy appends
-- and however much of its own bucket that address has used.
pub allow-forwarded :
    (b : Buckets) (cfg : ForwardedConfig) (r : Request) (ch : ℕ) (sent added : Text) (now : Time)
    (l : Limiter b)
    → cfg.trust_forwarded_header ≡ true
    → is_empty cfg.forwarded_header ≡ false
    → header_get cfg.forwarded_header r.headers ≡ (ch ∷ sent) ++ b',' ∷ added
    → All (λ x. x ≢ b',') (ch ∷ sent)
    → get (trim_space (ch ∷ sent)) l.clients ≡ none
    → (client_ip cfg r ≡ trim_space (ch ∷ sent))
      × ((allow b now (client_ip cfg r) l).0 ≡ (b.take_token now b.fresh).0)
unfolding allow
allow-forwarded b cfg r ch sent added now l trusted named header plain unknown =
    let whom = client_ip-first cfg r ch sent added trusted named header plain in
    (whom, rw (whom, unknown) refl)
