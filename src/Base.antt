-- ===== src/Base.antt =====
-- The names that the other modules share: the libraries', passed on, and those of the children.
pub mod Tasks
mod Tests
mod Lists
mod Ordering
mod Groups
mod Tallies
mod Int
mod Strings
mod Calls
mod Decimal
mod Encoding
mod Maps
pub use Tests.*
pub use Lists.*
pub use Ordering.*
pub use Groups.*
pub use Tallies.*
pub use Int.*
unfoldable pub use Strings.{Text, text, text_eq, text_le, is_empty, lower, to_lower, cut, cut_last}
unfoldable pub use Strings.{quoted, before, is_space, trim_left, trim_space, join}
pub use Strings.{text_eq_iff, text_eq_refl}
pub use Calls.*
unfoldable pub use Decimal.{format_int, format_digits, scan_uint, scan_digits, parse_int}
pub use Decimal.{
  Parsed, max_int64, max_uint64, is_digit, parse_int-format_int, format_int-All, parse_int-bad,
}
unfoldable pub use Encoding.{hex_encode, hex_decode, base64_encode, base64_decode}
pub use Encoding.{IsBytes, hex_decode-encode, base64_decode-encode, cut-base64_encode}
unfoldable pub use Maps.{Assoc, get, put}
pub use Maps.{get-put, get-put_self}
pub use Prim.Native.Nat.{ℕ, zero, suc, ◌+◌, ◌-◌, ◌*◌, ◌/◌, ◌%◌, ◌^◌, ◌≤◌, ◌<◌}
pub use mathlib.Core.Path.{◌≡◌, refl, sym, ap, ◌∙◌}
pub use mathlib.Core.Logic.{◌≢◌, ◌↔◌, ◌⊎◌, inl, inr}
pub use mathlib.Core.Bool.{Bool, true, false, not, ◌&&◌, ◌||◌}
pub use mathlib.Core.Option.{Option, none, some}
pub use mathlib.Core.List.{List, [], ◌∷◌, ◌++◌, map}
pub use native.Mathlib.Omega.{arith}
