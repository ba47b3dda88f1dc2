-- ===== src/Base/Decimal.antt =====
-- Decimal integers: strconv.FormatInt(n, 10) for n ≥ 0, and strconv.Atoi and ParseInt(s, 10, 64).
use Prim.Native.Nat.{ℕ, zero, suc, ◌+◌, ◌-◌, ◌*◌, ◌/◌, ◌%◌, ◌^◌, ◌≤◌, ◌<◌}
use mathlib.Core.Path.{◌≡◌, refl, ◌∙◌, ap}
use mathlib.Core.Logic.{inl, inr, ◌≢◌}
use native.Mathlib.Nat.{pow-suc}
use mathlib.Core.Bool.{Bool, true, false, ◌&&◌}
use mathlib.Core.List.{[], ◌∷◌, ◌++◌}
use native.Mathlib.Omega.{arith}
use wafportal.Base.Tests.{ltb, leb, ◌==◌, if◌then◌else◌, Bool-cases}
use wafportal.Base.Lists.{All}
use wafportal.Base.Int.{ℤ, pos, negsuc}
use wafportal.Base.Strings.{Text}

abbrev pub max_int64 : ℕ
max_int64 = 2 ^ 63 - 1

abbrev pub max_uint64 : ℕ
max_uint64 = 2 ^ 64 - 1

-- The last digit of `n`, behind the digits before it. `fuel` bounds their number: 20 for 64 bits.
unfoldable pub format_digits : ℕ → ℕ → Text → Text
format_digits zero n acc = acc
format_digits (suc f) n acc =
    let more = format_digits f (n / 10) ((48 + n % 10) ∷ acc) in
    if ltb n 10 then (48 + n) ∷ acc else more

unfoldable pub format_int : ℕ → Text
format_int n = format_digits 20 n []

-- What ParseUint makes of the digits.
pub data Scan : Type 0 where
  scanned : ℕ → Scan
  bad_syntax bad_range : Scan

abbrev pub is_digit : ℕ → Bool
is_digit c = leb 48 c && leb c 57

unfoldable pub scan_digits : ℕ → Text → Scan
scan_digits n [] = scanned n
scan_digits n (c ∷ s) =
    let rest = scan_digits (n * 10 + (c - 48)) s in
    if is_digit c
    then (if leb (max_uint64 / 10 + 1) n
        then bad_range
        else if ltb max_uint64 (n * 10 + (c - 48))
        then bad_range
        else rest)
    else bad_syntax

unfoldable pub scan_uint : Text → Scan
scan_uint [] = bad_syntax
scan_uint (c ∷ s) = scan_digits 0 (c ∷ s)

-- The value, also beside an error, and whether there is none.
pub record Parsed : Type 0 where
  pub value : ℤ
  pub valid : Bool

abbrev pub signed : Bool → Scan → Parsed
signed neg bad_syntax = record { value = pos 0; valid = false }
signed false bad_range = record { value = pos max_int64; valid = false }
signed true bad_range = record { value = negsuc max_int64; valid = false }
signed false (scanned n) =
    if leb n max_int64
    then record { value = pos n; valid = true }
    else record { value = pos max_int64; valid = false }
signed true (scanned zero) = record { value = pos 0; valid = true }
signed true (scanned (suc n)) =
    if leb n max_int64
    then record { value = negsuc n; valid = true }
    else record { value = negsuc max_int64; valid = false }

unfoldable pub parse_int : Text → Parsed
unfolding scan_uint
parse_int [] = record { value = pos 0; valid = false }
parse_int (c ∷ s) =
    if c == b'-'
    then signed true (scan_uint s)
    else if c == b'+'
    then signed false (scan_uint s)
    else signed false (scan_uint (c ∷ s))

scan-digit :
    (m d : ℕ) (acc : Text)
    → d < 10
    → m * 10 + d ≤ max_int64
    → scan_digits m ((48 + d) ∷ acc) ≡ scan_digits (m * 10 + d) acc
unfolding scan_digits
scan-digit m d acc h k =
    let same : m * 10 + (48 + d - 48) ≡ m * 10 + d = omega arith in rw same (ground arith)

scan_digits_nil : (n : ℕ) → scan_digits n [] ≡ scanned n
unfolding scan_digits
scan_digits_nil n = refl

-- Reading what was written: the digits of `n` are read to `n`, and then the rest.
scan-format :
    (f n : ℕ) (acc : Text)
    → n < 10 ^ f
    → n ≤ max_int64
    → scan_digits 0 (format_digits f n acc) ≡ scan_digits n acc
unfolding format_digits
scan-format zero n acc h k = let e : n ≡ 0 = omega arith in rw e
scan-format (suc f) n acc h k = elim (Bool-cases (ltb n 10)) [
  | inl few ↦
      rw few (
        scan-digit 0 n acc (ground arith) (ground arith)
        ∙ ap (λ t. scan_digits t acc) (omega arith))
  | inr many ↦ rw many (
      scan-format f (n / 10) ((48 + n % 10) ∷ acc) (omega (arith, pow-suc 10 f)) (omega arith)
      ∙ scan-digit (n / 10) (n % 10) acc (omega arith) (omega arith)
      ∙ ap (λ t. scan_digits t acc) (omega arith))
]

abbrev StartsWithDigit : Text → Type 0
StartsWithDigit [] = ⊥
StartsWithDigit (c ∷ s) = is_digit c ≡ true

format_digits-StartsWithDigit :
    (f n : ℕ) (acc : Text) → StartsWithDigit (format_digits (suc f) n acc)
unfolding format_digits
format_digits-StartsWithDigit zero n acc = elim (Bool-cases (ltb n 10)) [
  | inl few ↦ rw few (ground arith)
  | inr many ↦ rw many (ground arith)
]
format_digits-StartsWithDigit (suc f) n acc = elim (Bool-cases (ltb n 10)) [
  | inl few ↦ rw few (ground arith)
  | inr many ↦ rw many (format_digits-StartsWithDigit f (n / 10) ((48 + n % 10) ∷ acc))
]

parse_int_of_digits : (s : Text) → StartsWithDigit s → parse_int s ≡ signed false (scan_digits 0 s)
unfolding parse_int scan_uint
parse_int_of_digits [] h = absurd h
parse_int_of_digits (c ∷ s) h = ground arith

-- An `int64` that is not negative is read back as it was written.
pub parse_int-format_int :
    (n : ℕ) → n ≤ max_int64 → parse_int (format_int n) ≡ record { value = pos n; valid = true }
unfolding format_int
parse_int-format_int n h =
    parse_int_of_digits (format_digits 20 n []) (format_digits-StartsWithDigit 19 n [])
    ∙ ap (signed false) (scan-format 20 n [] (omega arith) h ∙ scan_digits_nil n)
    ∙ ground arith

format_digits-All :
    (f n : ℕ) (acc : Text) → All (λ c. c < 256) acc → All (λ c. c < 256) (format_digits f n acc)
unfolding format_digits
format_digits-All zero n acc h = h
format_digits-All (suc f) n acc h = elim (Bool-cases (ltb n 10)) [
  | inl few ↦ rw few (ground arith, h)
  | inr many ↦ rw many (format_digits-All f (n / 10) _ (omega arith, h))
]

-- The digits are bytes.
pub format_int-All : (n : ℕ) → All (λ c. c < 256) (format_int n)
unfolding format_int
format_int-All n = format_digits-All 20 n [] tt

-- A scan that fails.
abbrev IsBad : Scan → Type 0
IsBad (scanned n) = ⊥
IsBad bad_syntax = Unit
IsBad bad_range = Unit

scan_digits-IsBad :
    (bad : ℕ) (n : ℕ) (s t : Text) → is_digit bad ≡ false → IsBad (scan_digits n (s ++ bad ∷ t))
unfolding scan_digits
scan_digits-IsBad bad n [] t h = rw h tt
scan_digits-IsBad bad n (c ∷ s) t h = elim (Bool-cases (is_digit c)) [
  | inr no_digit ↦ rw no_digit tt
  | inl digit ↦ rw digit (elim (Bool-cases (leb (max_uint64 / 10 + 1) n)) [
    | inl big ↦ rw big tt
    | inr small ↦ rw small (elim (Bool-cases (ltb max_uint64 (n * 10 + (c - 48)))) [
      | inl over ↦ rw over tt
      | inr fits ↦ rw fits (scan_digits-IsBad bad (n * 10 + (c - 48)) s t h)
    ])
  ])
]

valid-signed : (neg : Bool) (r : Scan) → IsBad r → (signed neg r).valid ≡ false
valid-signed neg (scanned n) h = absurd h
valid-signed false bad_syntax h = refl
valid-signed true bad_syntax h = refl
valid-signed false bad_range h = refl
valid-signed true bad_range h = refl

scan_uint-IsBad : (bad : ℕ) (s t : Text) → is_digit bad ≡ false → IsBad (scan_uint (s ++ bad ∷ t))
unfolding scan_uint
scan_uint-IsBad bad [] t h = scan_digits-IsBad bad 0 [] t h
scan_uint-IsBad bad (c ∷ s) t h = scan_digits-IsBad bad 0 (c ∷ s) t h

-- A text that holds a byte which is no digit and no sign is no integer.
pub parse_int-bad :
    (bad : ℕ) (s t : Text)
    → is_digit bad ≡ false
    → bad ≢ b'-'
    → bad ≢ b'+'
    → (parse_int (s ++ bad ∷ t)).valid ≡ false
unfolding parse_int
parse_int-bad bad [] t h m p =
    ground (arith, m, p, valid-signed false (scan_uint (bad ∷ t)) (scan_uint-IsBad bad [] t h))
parse_int-bad bad (c ∷ s) t h m p = ground (
  arith,
  valid-signed false (scan_uint (c ∷ s ++ bad ∷ t)) (scan_uint-IsBad bad (c ∷ s) t h),
  valid-signed false (scan_uint (s ++ bad ∷ t)) (scan_uint-IsBad bad s t h),
  valid-signed true (scan_uint (s ++ bad ∷ t)) (scan_uint-IsBad bad s t h),
)
