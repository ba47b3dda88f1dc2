-- ===== src/Waf/Address.antt =====
-- splitHostPort and splitHost of internal/waf/middleware.go.
pub mod Split
use wafportal.Base.{Text, ℤ, pos, Option, none, some, cut_last, parse_int}

unfoldable pub split_host_port : Text → Text × ℤ
split_host_port addr = elim (cut_last b':' addr) [
  | none ↦ (addr, pos 0)
  | some (host, port) ↦ (host, (parse_int port).value)
]

unfoldable pub split_host : Text → Text
split_host addr = (split_host_port addr).0
