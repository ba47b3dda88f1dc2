-- ===== src/Base/Encoding.antt =====
-- encoding/hex and base64.RawURLEncoding over lists of bytes.
use Prim.Native.Nat.{ℕ, ◌+◌, ◌-◌, ◌*◌, ◌/◌, ◌%◌, ◌<◌}
use mathlib.Core.Path.{◌≡◌, refl}
use mathlib.Core.Logic.{◌≢◌}
use mathlib.Core.Bool.{Bool, not, ◌&&◌, ◌||◌}
use mathlib.Core.Option.{Option, none, some}
use mathlib.Core.List.{[], ◌∷◌, ◌++◌}
use native.Mathlib.Omega.{arith}
use wafportal.Base.Tests.{ltb, leb, ◌==◌, if◌then◌else◌}
use wafportal.Base.Lists.{filter, All}
use wafportal.Base.Strings.{Text, cut}

abbrev hex_digit : ℕ → ℕ
hex_digit n = if ltb n 10 then 48 + n else 87 + n

-- hex.EncodeToString
unfoldable pub hex_encode : Text → Text
hex_encode [] = []
hex_encode (b ∷ s) = hex_digit (b / 16) ∷ hex_digit (b % 16) ∷ hex_encode s

abbrev hex_value : ℕ → Option ℕ
hex_value c =
    if leb 48 c && leb c 57
    then some (c - 48)
    else if leb 97 c && leb c 102
    then some (c - 87)
    else if leb 65 c && leb c 70
    then some (c - 55)
    else none

abbrev hex_join : Option ℕ → Option ℕ → Option Text → Option Text
hex_join (some a) (some b) (some s) = some ((a * 16 + b) ∷ s)
hex_join _ _ _ = none

-- hex.DecodeString, with `none` for its errors
unfoldable pub hex_decode : Text → Option Text
hex_decode [] = some []
hex_decode (c ∷ []) = none
hex_decode (c ∷ d ∷ s) = hex_join (hex_value c) (hex_value d) (hex_decode s)

abbrev url_digit : ℕ → ℕ
url_digit n =
    if ltb n 26
    then 65 + n
    else if ltb n 52
    then 71 + n
    else if ltb n 62
    then n - 4
    else if n == 62
    then b'-'
    else b'_'

abbrev url_value : ℕ → Option ℕ
url_value c =
    if leb 65 c && leb c 90
    then some (c - 65)
    else if leb 97 c && leb c 122
    then some (c - 71)
    else if leb 48 c && leb c 57
    then some (c + 4)
    else if c == b'-'
    then some 62
    else if c == b'_'
    then some 63
    else none

-- base64.RawURLEncoding.EncodeToString: three bytes to four digits, no padding
unfoldable pub base64_encode : Text → Text
base64_encode [] = []
base64_encode (a ∷ []) = url_digit (a / 4) ∷ url_digit (a % 4 * 16) ∷ []
base64_encode (a ∷ b ∷ []) =
    url_digit (a / 4) ∷ url_digit (a % 4 * 16 + b / 16) ∷ url_digit (b % 16 * 4) ∷ []
base64_encode (a ∷ b ∷ c ∷ s) =
    url_digit (a / 4)
    ∷ url_digit (a % 4 * 16 + b / 16)
    ∷ url_digit (b % 16 * 4 + c / 64)
    ∷ url_digit (c % 64)
    ∷ base64_encode s

abbrev one_byte : Option ℕ → Option ℕ → Option Text
one_byte (some p) (some q) = some ((p * 4 + q / 16) ∷ [])
one_byte _ _ = none

abbrev two_bytes : Option ℕ → Option ℕ → Option ℕ → Option Text
two_bytes (some p) (some q) (some r) = some ((p * 4 + q / 16) ∷ (q % 16 * 16 + r / 4) ∷ [])
two_bytes _ _ _ = none

abbrev three_bytes : Option ℕ → Option ℕ → Option ℕ → Option ℕ → Option Text → Option Text
three_bytes (some p) (some q) (some r) (some t) (some s) =
    some ((p * 4 + q / 16) ∷ (q % 16 * 16 + r / 4) ∷ (r % 4 * 64 + t) ∷ s)
three_bytes _ _ _ _ _ = none

abbrev is_code : ℕ → Bool
is_code c = not (c == 10 || c == 13)

base64_groups : Text → Option Text
base64_groups [] = some []
base64_groups (p ∷ []) = none
base64_groups (p ∷ q ∷ []) = one_byte (url_value p) (url_value q)
base64_groups (p ∷ q ∷ r ∷ []) = two_bytes (url_value p) (url_value q) (url_value r)
base64_groups (p ∷ q ∷ r ∷ t ∷ s) =
    three_bytes (url_value p) (url_value q) (url_value r) (url_value t) (base64_groups s)

-- base64.RawURLEncoding.DecodeString, which passes over line breaks and reads no bits past the last
-- whole byte; `none` for its errors
unfoldable pub base64_decode : Text → Option Text
unfolding base64_groups
base64_decode s = base64_groups (filter is_code s)

abbrev pub IsBytes : Text → Type 0
IsBytes s = All (λ b. b < 256) s

url_value-digit : (n : ℕ) → n < 64 → url_value (url_digit n) ≡ some n
url_value-digit n h = ground arith

-- No digit is a line break or a dot.
abbrev IsPlain : ℕ → Type 0
IsPlain c = (c ≢ 10) × (c ≢ 13) × (c ≢ b'.')

url_digit-IsPlain : (n : ℕ) → n < 64 → IsPlain (url_digit n)
url_digit-IsPlain n h = (ground arith, ground arith, ground arith)

base64_encode-IsPlain : (s : Text) → IsBytes s → All IsPlain (base64_encode s)
unfolding base64_encode
base64_encode-IsPlain [] h = tt
base64_encode-IsPlain (a ∷ []) (p, h) =
    (url_digit-IsPlain (a / 4) (omega arith), (url_digit-IsPlain (a % 4 * 16) (omega arith), tt))
base64_encode-IsPlain (a ∷ b ∷ []) (p, (q, h)) = (
  url_digit-IsPlain (a / 4) (omega arith),
  (
    url_digit-IsPlain (a % 4 * 16 + b / 16) (omega arith),
    (url_digit-IsPlain (b % 16 * 4) (omega arith), tt),
  ),
)
base64_encode-IsPlain (a ∷ b ∷ c ∷ s) (p, (q, (r, h))) = (
  url_digit-IsPlain (a / 4) (omega arith),
  (
    url_digit-IsPlain (a % 4 * 16 + b / 16) (omega arith),
    (
      url_digit-IsPlain (b % 16 * 4 + c / 64) (omega arith),
      (url_digit-IsPlain (c % 64) (omega arith), base64_encode-IsPlain s h),
    ),
  ),
)

filter-IsPlain : (s : Text) → All IsPlain s → filter is_code s ≡ s
filter-IsPlain [] h = refl
filter-IsPlain (c ∷ s) ((p, q, r), h) = ground (arith, filter-IsPlain s h)

base64_groups-encode : (s : Text) → IsBytes s → base64_groups (base64_encode s) ≡ some s
unfolding base64_groups base64_encode
base64_groups-encode [] h = refl
base64_groups-encode (a ∷ []) (p, h) =
    rw (url_value-digit (a / 4) (omega arith), url_value-digit (a % 4 * 16) (omega arith))
      (ground arith)
base64_groups-encode (a ∷ b ∷ []) (p, (q, h)) =
    rw
      (
        url_value-digit (a / 4) (omega arith),
        url_value-digit (a % 4 * 16 + b / 16) (omega arith),
        url_value-digit (b % 16 * 4) (omega arith),
      )
      (ground arith)
base64_groups-encode (a ∷ b ∷ c ∷ s) (p, (q, (r, h))) =
    rw
      (
        url_value-digit (a / 4) (omega arith),
        url_value-digit (a % 4 * 16 + b / 16) (omega arith),
        url_value-digit (b % 16 * 4 + c / 64) (omega arith),
        url_value-digit (c % 64) (omega arith),
        base64_groups-encode s h,
      )
      (ground arith)

-- Every sequence of bytes is decoded to itself.
pub base64_decode-encode : (s : Text) → IsBytes s → base64_decode (base64_encode s) ≡ some s
unfolding base64_decode
base64_decode-encode s h =
    rw (filter-IsPlain (base64_encode s) (base64_encode-IsPlain s h)) (base64_groups-encode s h)

-- A token's first dot stands behind its encoded payload.
cut-plain : (s t : Text) → All IsPlain s → cut b'.' (s ++ b'.' ∷ t) ≡ some (s, t)
unfolding cut
cut-plain [] t h = refl
cut-plain (c ∷ s) t ((p, q, r), h) = rw (cut-plain s t h) (ground arith)

pub cut-base64_encode :
    (s t : Text) → IsBytes s → cut b'.' (base64_encode s ++ b'.' ∷ t) ≡ some (base64_encode s, t)
cut-base64_encode s t h = cut-plain (base64_encode s) t (base64_encode-IsPlain s h)

hex_value-digit : (n : ℕ) → n < 16 → hex_value (hex_digit n) ≡ some n
hex_value-digit n h = ground arith

pub hex_decode-encode : (s : Text) → IsBytes s → hex_decode (hex_encode s) ≡ some s
unfolding hex_decode hex_encode
hex_decode-encode [] h = refl
hex_decode-encode (b ∷ s) (l, h) =
    rw
      (
        hex_value-digit (b / 16) (omega arith),
        hex_value-digit (b % 16) (omega arith),
        hex_decode-encode s h,
      )
      (ground arith)
