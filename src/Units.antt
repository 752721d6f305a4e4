-- ===== src/Units.antt =====
-- Numbers in option texts: the C library's `atoi`, `atof`, `strtol` and `sscanf`, as far as the program
-- uses them, and `unit_atof`, `unit_atof_rate` and `unit_atoi` of iperf-3.1.3/src/units.c.
-- A `double` is a number of millionths, of any size: what `sscanf` and `atof` read of plain decimal
-- text, without exponents, hexadecimal digits, `inf` and `nan`, as far as a `double` is exact.
pub mod Suffixes
mod Tests
use Prim.Native.Nat.{min}
use i_perf_demo_runtime.Common.{
  Bool, List, Option, [], drop, false, if◌then◌else◌, leb, ltb, none, refl, some, suc, true, ℕ, ◌%◌,
  ◌&&◌, ◌*◌, ◌+◌, ◌-◌, ◌/◌, ◌==◌, ◌^◌, ◌||◌, ◌∷◌, ◌≡◌,
}
use i_perf_demo_runtime.Common.Int.{negsuc, pos, sub_ℕ, ℤ}

abbrev pub is_digit : ℕ → Bool
is_digit c = leb b'0' c && leb c b'9'

abbrev pub is_space : ℕ → Bool
is_space c = c == 32 || leb 9 c && leb c 13

-- The value of the digits in front, and what follows them.
pub digits : ℕ → List ℕ → ℕ × List ℕ
digits acc [] = (acc, [])
digits acc (c ∷ s) =
    let more = digits (acc * 10 + (c - b'0')) s in if is_digit c then more else (acc, c ∷ s)

-- The fraction in units of `unit`, which is a tenth with each digit.
pub fraction : ℕ → ℕ → List ℕ → ℕ × List ℕ
fraction unit acc [] = (acc, [])
fraction unit acc (c ∷ s) =
    let more = fraction (unit / 10) (acc + (c - b'0') * (unit / 10)) s in
    if is_digit c then more else (acc, c ∷ s)

pub skip_spaces : List ℕ → List ℕ
skip_spaces [] = []
skip_spaces (c ∷ s) = let more = skip_spaces s in if is_space c then more else c ∷ s

-- A sign, and what follows.
pub sign : List ℕ → Bool × List ℕ
sign [] = (false, [])
sign (c ∷ s) = if c == b'-' then (true, s) else (if c == b'+' then (false, s) else (false, c ∷ s))

pub signed : Bool → ℕ → ℤ
signed negative n = if negative then sub_ℕ 0 n else pos n

-- The conversion of an unsigned number to `int`.
unfoldable pub int_of_unsigned : ℕ → ℤ
int_of_unsigned n = let w = n % 2 ^ 32 in if ltb w (2 ^ 31) then pos w else negsuc (2 ^ 32 - w - 1)

-- What `strtol` returns for a number out of the range of a `long`, which has 64 bits.
unfoldable pub clamp_long : ℤ → ℤ
clamp_long (pos n) = pos (min n (2 ^ 63 - 1))
clamp_long (negsuc n) = negsuc (min n (2 ^ 63 - 1))

-- The conversion of a `long` to `int`.
unfoldable pub int_of_long : ℤ → ℤ
unfolding int_of_unsigned
int_of_long (pos n) = int_of_unsigned n
int_of_long (negsuc n) = int_of_unsigned (2 ^ 64 - 1 - n)

-- `atoi`: no digit at all gives 0; a `long` is made an `int`.
unfoldable pub atoi : List ℕ → ℤ
unfolding digits skip_spaces sign signed clamp_long int_of_long
atoi s =
    let (negative, rest) = sign (skip_spaces s) in
    int_of_long (clamp_long (signed negative (digits 0 rest).0))

abbrev pub first_is : (ℕ → Bool) → List ℕ → Bool
first_is p [] = false
first_is p (c ∷ s) = p c

-- The digits behind a decimal point, if there is one.
pub after_point : ℕ → List ℕ → ℕ × List ℕ
unfolding fraction
after_point whole [] = (whole * 1000000, [])
after_point whole (c ∷ s) =
    if c == b'.'
    then (let (part, rest) = fraction 1000000 0 s in (whole * 1000000 + part, rest))
    else (whole * 1000000, c ∷ s)

-- `sscanf(s, "%lf")`: the number in millionths and what follows it, or none if there is no number.
unfoldable pub scan_double : List ℕ → Option (ℤ × List ℕ)
unfolding digits skip_spaces sign signed after_point
scan_double s =
    let (negative, rest) = sign (skip_spaces s) in
    let (whole, after) = digits 0 rest in
    let (n, tail) = after_point whole after in
    if first_is is_digit rest || first_is (λ c. c == b'.') rest && first_is is_digit (drop 1 rest)
    then some (signed negative n, tail)
    else none

unfoldable pub atof : List ℕ → ℤ
unfolding scan_double
atof s = elim (scan_double s) [ none ↦ pos 0 | some (n, _) ↦ n ]

-- The value of a digit in any base up to 36.
digit_value : ℕ → ℕ
digit_value c =
    if is_digit c
    then c - b'0'
    else (if leb b'a' c && leb c b'z'
        then c - b'a' + 10
        else (if leb b'A' c && leb c b'Z' then c - b'A' + 10 else 36))

digits_base : ℕ → ℕ → List ℕ → ℕ
digits_base base acc [] = acc
digits_base base acc (c ∷ s) =
    let more = digits_base base (acc * base + digit_value c) s in
    if ltb (digit_value c) base then more else acc

-- Base 0: `0x` in front of a hexadecimal digit means 16, `0` means 8.
strtol_unsigned : List ℕ → Option ℕ
unfolding digit_value digits_base
strtol_unsigned s =
    if first_is (λ c. c == b'0') s
    then (if first_is (λ c. c == b'x' || c == b'X') (drop 1 s)
          && first_is (λ c. ltb (digit_value c) 16) (drop 2 s)
        then some (digits_base 16 0 (drop 2 s))
        else some (digits_base 8 0 s))
    else (if first_is is_digit s then some (digits_base 10 0 s) else none)

-- `strtol(s, &endptr, 0)`: none if `endptr` is `s`.
unfoldable pub strtol : List ℕ → Option ℤ
unfolding skip_spaces sign signed strtol_unsigned clamp_long
strtol s =
    let (negative, rest) = sign (skip_spaces s) in
    elim (strtol_unsigned rest) [ none ↦ none | some n ↦ some (clamp_long (signed negative n)) ]

-- The same, stored in an `int`.
unfoldable pub strtol_int : List ℕ → Option ℤ
unfolding strtol int_of_long
strtol_int s = elim (strtol s) [ none ↦ none | some n ↦ some (int_of_long n) ]

abbrev pub kilo_unit : ℕ
kilo_unit = 1024

abbrev pub mega_unit : ℕ
mega_unit = 1024 * 1024

abbrev pub giga_unit : ℕ
giga_unit = 1024 * 1024 * 1024

abbrev pub kilo_rate_unit : ℕ
kilo_rate_unit = 1000

abbrev pub mega_rate_unit : ℕ
mega_rate_unit = 1000 * 1000

abbrev pub giga_rate_unit : ℕ
giga_rate_unit = 1000 * 1000 * 1000

abbrev suffix_is : ℕ → ℕ → ℕ → Bool
suffix_is c lower upper = c == lower || c == upper

-- The `switch` on the suffix.
unfoldable pub factor : ℕ → ℕ → ℕ → ℕ → ℕ
factor kilo mega giga suffix =
    if suffix_is suffix b'g' b'G'
    then giga
    else (if suffix_is suffix b'm' b'M'
        then mega
        else (if suffix_is suffix b'k' b'K' then kilo else 1))

abbrev pub scale : ℕ → ℤ → ℤ
scale k (pos n) = pos (n * k)
scale k (negsuc n) = sub_ℕ 0 (suc n * k)

abbrev pub suffix_of : List ℕ → ℕ
suffix_of [] = 0
suffix_of (c ∷ _) = c

-- `sscanf(s, "%lf%c", &n, &suffix)` and the scaling. With no number in the text `n` keeps what the
-- uninitialised variable holds, `junk`.
pub scaled : (ℕ → ℕ) → ℤ → List ℕ → ℤ
unfolding scan_double
scaled factor junk s = elim (scan_double s) [
  | none ↦ junk
  | some (n, rest) ↦ scale (factor (suffix_of rest)) n
]

unfoldable pub unit_atof : ℤ → List ℕ → ℤ
unfolding scaled factor
unit_atof junk s = scaled (factor kilo_unit mega_unit giga_unit) junk s

unfoldable pub unit_atof_rate : ℤ → List ℕ → ℤ
unfolding scaled factor
unit_atof_rate junk s = scaled (factor kilo_rate_unit mega_rate_unit giga_rate_unit) junk s

-- The conversion of a `double` to `uint64_t`; that of a number out of range, which C leaves open, wraps.
unfoldable pub to_uint64 : ℤ → ℕ
to_uint64 (pos n) = n / 1000000 % 2 ^ 64
to_uint64 (negsuc n) = (2 ^ 64 - suc n / 1000000 % 2 ^ 64) % 2 ^ 64

-- The conversion of a `double` to `int`, of a value that fits.
unfoldable pub to_int : ℤ → ℤ
to_int (pos n) = pos (n / 1000000)
to_int (negsuc n) = sub_ℕ 0 (suc n / 1000000)

-- The conversion of an `int` or `int64_t` to `uint64_t`.
unfoldable pub to_unsigned : ℤ → ℕ
to_unsigned (pos n) = n
to_unsigned (negsuc n) = 2 ^ 64 - 1 - n

unfoldable pub unit_atoi : ℤ → List ℕ → ℕ
unfolding unit_atof to_uint64
unit_atoi junk s = to_uint64 (unit_atof junk s)

atoi_runs : atoi (b' ' ∷ b'-' ∷ b'4' ∷ b'2' ∷ b'x' ∷ []) ≡ negsuc 41
unfolding atoi
atoi_runs = refl

unit_atoi_runs : unit_atoi (pos 0) (b'1' ∷ b'.' ∷ b'5' ∷ b'K' ∷ []) ≡ 1536
unfolding unit_atoi
unit_atoi_runs = refl

atoi_wraps : atoi (b'4' ∷ b'2' ∷ b'9' ∷ b'4' ∷ b'9' ∷ b'6' ∷ b'7' ∷ b'2' ∷ b'9' ∷ b'7' ∷ []) ≡ pos 1
unfolding atoi
atoi_wraps = refl

strtol_runs : strtol (b'0' ∷ b'x' ∷ b'1' ∷ b'f' ∷ []) ≡ some (pos 31)
unfolding strtol
strtol_runs = refl
