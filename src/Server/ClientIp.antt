-- ===== src/Server/ClientIp.antt =====
-- clientIPFunc of cmd/wafportal/main.go, and net.SplitHostPort, which it calls.
pub mod Peer
pub mod Forwarded
use wafportal.Base.{
  ℕ, not, Text, text_eq, is_empty, to_lower, trim_space, before, cut, cut_last, any, ◌==◌, Bool,
  ◌&&◌, ◌||◌, if◌then◌else◌, Option, none, some, List, [], ◌∷◌,
}
use wafportal.Waf.Http.{Request}

-- The fields of config.RateLimitConfig that clientIPFunc reads.
pub record ForwardedConfig : Type 0 where
  pub trust_forwarded_header : Bool
  pub forwarded_header : Text

abbrev pub first_value : List Text → Text
first_value [] = []
first_value (v ∷ vs) = v

-- Header.Get: the first value under a name, whose case does not count; "" if there is none
unfoldable pub header_get : Text → List (Text × List Text) → Text
header_get name [] = []
header_get name ((k, vs) ∷ hs) =
    if text_eq (to_lower k) (to_lower name) then first_value vs else header_get name hs

abbrev pub has_byte : ℕ → Text → Bool
has_byte b s = any (λ c. c == b) s

-- "[host]:port", from behind the bracket
abbrev pub bracketed_host : Text → Option (Text × Text) → Option Text
bracketed_host inner none = none
bracketed_host inner (some (host, [])) = none
bracketed_host inner (some (host, c ∷ port)) =
    if c == b':'
    then (if has_byte b':' port || has_byte b'[' inner || has_byte b']' port
        then none
        else some host)
    else none

abbrev pub plain_host : Text → Option (Text × Text) → Option Text
plain_host whole none = none
plain_host whole (some (host, port)) =
    if has_byte b':' host || has_byte b'[' whole || has_byte b']' whole then none else some host

-- net.SplitHostPort, its host alone, and `none` for its errors
unfoldable pub split_host : Text → Option Text
split_host [] = none
split_host (c ∷ s) =
    if c == b'[' then bracketed_host s (cut b']' s) else plain_host (c ∷ s) (cut_last b':' (c ∷ s))

abbrev pub or_whole : Text → Option Text → Text
or_whole addr none = addr
or_whole addr (some host) = host

abbrev pub peer : Request → Text
peer r = or_whole r.remote_addr (split_host r.remote_addr)

unfoldable pub client_ip : ForwardedConfig → Request → Text
client_ip cfg r =
    let h = header_get cfg.forwarded_header r.headers in
    if cfg.trust_forwarded_header && not (is_empty cfg.forwarded_header)
    then (if is_empty h then peer r else trim_space (before b',' h))
    else peer r
