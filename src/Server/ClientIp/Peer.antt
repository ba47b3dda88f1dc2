-- ===== src/Server/ClientIp/Peer.antt =====
-- clientIPFunc of cmd/wafportal/main.go where the forwarded header is not trusted.
use wafportal.Base.{
  Text, ℕ, cut, cut_last, ◌≡◌, ◌≢◌, refl, All, false, none, some, [], ◌∷◌, ◌++◌, arith,
}
use wafportal.Waf.Http.{Request}
use wafportal.Server.ClientIp.{ForwardedConfig, has_byte, plain_host, split_host, client_ip}

-- Neither a colon nor a bracket.
abbrev pub IsPlainByte : ℕ → Type 0
IsPlainByte c = (c ≢ b':') × (c ≢ b'[') × (c ≢ b']')

has_byte-none : (b : ℕ) (s : Text) → All (λ c. c ≢ b) s → has_byte b s ≡ false
has_byte-none b [] h = refl
has_byte-none b (c ∷ s) (p, h) = ground (arith, has_byte-none b s h)

cut_last-none : (s : Text) → All IsPlainByte s → cut_last b':' s ≡ none
unfolding cut_last
cut_last-none [] h = refl
cut_last-none (c ∷ s) (p, h) = rw (cut_last-none s h) (ground arith)

cut_last-host :
    (host port : Text)
    → All IsPlainByte port
    → cut_last b':' (host ++ b':' ∷ port) ≡ some (host, port)
unfolding cut_last
cut_last-host [] port h = rw (cut_last-none port h) refl
cut_last-host (c ∷ host) port h = rw (cut_last-host host port h) refl

has_byte-address :
    (b : ℕ) (host port : Text)
    → b ≢ b':'
    → All (λ c. c ≢ b) host
    → All (λ c. c ≢ b) port
    → has_byte b (host ++ b':' ∷ port) ≡ false
has_byte-address b [] port n h k = ground (arith, has_byte-none b port k)
has_byte-address b (c ∷ host) port n (p, h) k = ground (arith, has_byte-address b host port n h k)

All-weaken : {P Q : ℕ → Type 0} → ((c : ℕ) → P c → Q c) → (s : Text) → All P s → All Q s
All-weaken f [] h = tt
All-weaken f (c ∷ s) (p, h) = (f c p, All-weaken f s h)

split_host-address :
    (host port : Text)
    → All IsPlainByte host
    → All IsPlainByte port
    → plain_host (host ++ b':' ∷ port) (cut_last b':' (host ++ b':' ∷ port)) ≡ some host
split_host-address host port h k =
    rw
      (
        cut_last-host host port k,
        has_byte-none b':' host (All-weaken (λ c p. p.0) host h),
        has_byte-address b'[' host port (λ e. omega arith) (All-weaken (λ c p. p.1) host h)
            (All-weaken (λ c p. p.1) port k),
        has_byte-address b']' host port (λ e. omega arith) (All-weaken (λ c p. p.2) host h)
            (All-weaken (λ c p. p.2) port k),
      )
      refl

split_host-plain :
    (host port : Text)
    → All IsPlainByte host
    → All IsPlainByte port
    → split_host (host ++ b':' ∷ port) ≡ some host
unfolding split_host
split_host-plain [] port h k = split_host-address [] port h k
split_host-plain (c ∷ host) port (p, h) k =
    ground (arith, split_host-address (c ∷ host) port (p, h) k)

abbrev IsNotBracket : ℕ → Type 0
IsNotBracket c = (c ≢ b'[') × (c ≢ b']')

cut-bracket :
    (host rest : Text) → All IsNotBracket host → cut b']' (host ++ b']' ∷ rest) ≡ some (host, rest)
unfolding cut
cut-bracket [] rest h = refl
cut-bracket (c ∷ host) rest ((p, q), h) = rw (cut-bracket host rest h) (ground arith)

has_byte-bracketed :
    (host port : Text)
    → All IsNotBracket host
    → All IsPlainByte port
    → has_byte b'[' (host ++ b']' ∷ b':' ∷ port) ≡ false
has_byte-bracketed [] port h k =
    ground (arith, has_byte-none b'[' port (All-weaken (λ c p. p.1) port k))
has_byte-bracketed (c ∷ host) port ((p, q), h) k = ground (arith, has_byte-bracketed host port h k)

split_host-bracketed :
    (host port : Text)
    → All IsNotBracket host
    → All IsPlainByte port
    → split_host (b'[' ∷ host ++ b']' ∷ b':' ∷ port) ≡ some host
unfolding split_host
split_host-bracketed host port h k =
    rw
      (
        cut-bracket host (b':' ∷ port) h,
        has_byte-none b':' port (All-weaken (λ c p. p.0) port k),
        has_byte-bracketed host port h k,
        has_byte-none b']' port (All-weaken (λ c p. p.2) port k),
      )
      refl

-- The address of a connection: the host in brackets where it has a colon, as an IPv6 address has.
pub data IsAddress (host port : Text) : Text → Type 0 where
  plain : All IsPlainByte host → IsAddress host port (host ++ b':' ∷ port)
  in_brackets : All IsNotBracket host → IsAddress host port (b'[' ∷ host ++ b']' ∷ b':' ∷ port)

split_host-IsAddress :
    (host port addr : Text)
    → IsAddress host port addr
    → All IsPlainByte port
    → split_host addr ≡ some host
split_host-IsAddress host port _ (plain h) k = split_host-plain host port h k
split_host-IsAddress host port _ (in_brackets h) k = split_host-bracketed host port h k

-- Where the forwarded header is not trusted, the client of a connection from "host:port", or from
-- "[host]:port" for a host with colons such as an IPv6 address, is the host, whatever headers the
-- request carries.
pub client_ip-untrusted :
    (cfg : ForwardedConfig) (r : Request) (host port : Text)
    → cfg.trust_forwarded_header ≡ false
    → IsAddress host port r.remote_addr
    → All IsPlainByte port
    → client_ip cfg r ≡ host
unfolding client_ip
client_ip-untrusted cfg r host port distrust from k =
    rw (distrust, split_host-IsAddress host port r.remote_addr from k) refl
