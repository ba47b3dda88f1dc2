-- ===== src/Waf/Address/Split.antt =====
-- splitHostPort cuts at the last colon.
use wafportal.Base.{
  Text, ℤ, pos, ◌≡◌, ◌≢◌, refl, ap, cut_last, parse_int, none, some, [], ◌∷◌, ◌++◌, All, arith,
}
use wafportal.Waf.Address.{split_host_port, split_host}

abbrev pub NoColon : Text → Type 0
NoColon s = All (λ c. c ≢ b':') s

cut_last-none : (s : Text) → NoColon s → cut_last b':' s ≡ none
unfolding cut_last
cut_last-none [] h = refl
cut_last-none (c ∷ s) (p, h) = rw (cut_last-none s h) (ground arith)

cut_last-append :
    (host port : Text) → NoColon port → cut_last b':' (host ++ b':' ∷ port) ≡ some (host, port)
unfolding cut_last
cut_last-append [] port h = rw (cut_last-none port h)
cut_last-append (c ∷ host) port h = rw (cut_last-append host port h)

-- "host:port" is taken apart at its last colon, whatever the host holds, and the port is read as a
-- number; without a colon the whole address is the host and the port is 0.
pub split_host_port_lem :
    (host port : Text)
    → NoColon port
    → (split_host_port (host ++ b':' ∷ port) ≡ (host, (parse_int port).value))
      × (split_host_port port ≡ (port, pos 0))
unfolding split_host_port
split_host_port_lem host port h =
    (rw (cut_last-append host port h, split_host_port), rw (cut_last-none port h, split_host_port))

pub split_host-append : (host port : Text) → NoColon port → split_host (host ++ b':' ∷ port) ≡ host
unfolding split_host
split_host-append host port h = ap (λ (p : Text × ℤ). p.0) (split_host_port_lem host port h).0
