-- ===== src/Units/Suffixes.antt =====
-- What `unit_atof`, `unit_atof_rate` and `unit_atoi` of units.c make of a decimal number with a suffix.
use i_perf_demo_runtime.Common.{
  All, List, [], arith, false, inl, inr, refl, some, true, ℕ, ◌%◌, ◌*◌, ◌++◌, ◌+◌, ◌-◌, ◌/◌, ◌==◌,
  ◌^◌, ◌∷◌, ◌≡◌, ◌≤◌, ◌⊎◌,
}
use i_perf_demo_runtime.Common.Int.{pos, ℤ}
use i_perf_demo_runtime.Units.{
  digits, factor, giga_rate_unit, giga_unit, is_digit, is_space, kilo_rate_unit, kilo_unit,
  mega_rate_unit, mega_unit, scaled, scan_double, unit_atof, unit_atof_rate, unit_atoi,
}

-- The value of decimal digits, the last one first.
abbrev pub AreDigits : List ℕ → Type 0
AreDigits ds = All (λ (c : ℕ). is_digit c ≡ true) ds

-- The number that digits stand for, behind others that stand for `acc`.
abbrev pub value : ℕ → List ℕ → ℕ
value acc [] = acc
value acc (c ∷ ds) = value (acc * 10 + (c - b'0')) ds

digits-value :
    (acc : ℕ) (ds : List ℕ) (c : ℕ)
    → AreDigits ds
    → is_digit c ≡ false
    → digits acc (ds ++ c ∷ []) ≡ (value acc ds, c ∷ [])
unfolding digits
digits-value acc [] c h n = rw n
digits-value acc (d ∷ ds) c (hd, h) n = rw hd (digits-value (acc * 10 + (d - b'0')) ds c h n)

-- A character that may follow a whole number as a suffix.
abbrev pub IsSuffix : ℕ → Type 0
IsSuffix c = (is_digit c ≡ false) × ((c == b'.') ≡ false)

scan_double-decimal :
    (d : ℕ) (ds : List ℕ) (c : ℕ)
    → AreDigits (d ∷ ds)
    → IsSuffix c
    → scan_double (d ∷ ds ++ c ∷ []) ≡ some (pos (value 0 (d ∷ ds) * 1000000), c ∷ [])
unfolding scan_double
scan_double-decimal d ds c (hd, h) (n, p) =
    let space : is_space d ≡ false = ground arith in
    let minus : (d == b'-') ≡ false = ground arith in
    let plus : (d == b'+') ≡ false = ground arith in
    rw (space, minus, plus, hd, digits-value (0 * 10 + (d - b'0')) ds c h n, p)

-- The unit letters, and to which power they raise 1024 or 1000.
abbrev pub IsUnit : ℕ → ℕ → Type 0
IsUnit c e =
    (((c ≡ b'k') ⊎ (c ≡ b'K')) × (e ≡ 1))
    ⊎ ((((c ≡ b'm') ⊎ (c ≡ b'M')) × (e ≡ 2)) ⊎ (((c ≡ b'g') ⊎ (c ≡ b'G')) × (e ≡ 3)))

-- A scaled number, with what the suffix counts for.
abbrev Scales : (ℕ → ℕ) → ℕ → Type 0
Scales f base = (c e : ℕ) → IsUnit c e → f c ≡ base ^ e

factor-binary : Scales (factor kilo_unit mega_unit giga_unit) 1024
unfolding factor
factor-binary c e (inl (inl p, q)) = rw (p, q) (omega arith)
factor-binary c e (inl (inr p, q)) = rw (p, q) (omega arith)
factor-binary c e (inr (inl (inl p, q))) = rw (p, q) (omega arith)
factor-binary c e (inr (inl (inr p, q))) = rw (p, q) (omega arith)
factor-binary c e (inr (inr (inl p, q))) = rw (p, q) (omega arith)
factor-binary c e (inr (inr (inr p, q))) = rw (p, q) (omega arith)

factor-decimal : Scales (factor kilo_rate_unit mega_rate_unit giga_rate_unit) 1000
unfolding factor
factor-decimal c e (inl (inl p, q)) = rw (p, q) (omega arith)
factor-decimal c e (inl (inr p, q)) = rw (p, q) (omega arith)
factor-decimal c e (inr (inl (inl p, q))) = rw (p, q) (omega arith)
factor-decimal c e (inr (inl (inr p, q))) = rw (p, q) (omega arith)
factor-decimal c e (inr (inr (inl p, q))) = rw (p, q) (omega arith)
factor-decimal c e (inr (inr (inr p, q))) = rw (p, q) (omega arith)

unit-IsSuffix : (c e : ℕ) → IsUnit c e → IsSuffix c
unit-IsSuffix c e (inl (inl p, q)) = rw p (refl, refl)
unit-IsSuffix c e (inl (inr p, q)) = rw p (refl, refl)
unit-IsSuffix c e (inr (inl (inl p, q))) = rw p (refl, refl)
unit-IsSuffix c e (inr (inl (inr p, q))) = rw p (refl, refl)
unit-IsSuffix c e (inr (inr (inl p, q))) = rw p (refl, refl)
unit-IsSuffix c e (inr (inr (inr p, q))) = rw p (refl, refl)

whole_millions : (n k : ℕ) → n * k ≤ 2 ^ 53 → n * 1000000 * k / 1000000 % 2 ^ 64 ≡ n * k
whole_millions n k h = let e : n * 1000000 * k ≡ n * k * 1000000 = grind arith in rw e (omega arith)

-- A whole number in decimal digits with a unit behind it is the number times the power that the
-- letter k, m or g stands for, in either case: the first, second or third power of 1024 in `unit_atof`
-- and `unit_atoi`, and of 1000 in `unit_atof_rate`. The product is at most 2 ^ 53, up to which a
-- `double` is exact.
pub unit_atoi-decimal :
    (junk : ℤ) (d : ℕ) (ds : List ℕ) (c e : ℕ)
    → AreDigits (d ∷ ds)
    → IsUnit c e
    → value 0 (d ∷ ds) * 1024 ^ e ≤ 2 ^ 53
    → let n = value 0 (d ∷ ds) in
      let s = d ∷ ds ++ c ∷ [] in
      (unit_atof junk s ≡ pos (n * 1000000 * 1024 ^ e))
      × (unit_atof_rate junk s ≡ pos (n * 1000000 * 1000 ^ e))
      × (unit_atoi junk s ≡ n * 1024 ^ e)
unfolding scaled
unit_atoi-decimal junk d ds c e h u small =
    let q = scan_double-decimal d ds c h (unit-IsSuffix c e u) in
    let binary = factor-binary c e u in
    let decimal = factor-decimal c e u in
    (
      unfold unit_atof in rw (q, scaled, binary) refl,
      unfold unit_atof_rate in rw (q, scaled, decimal) refl,
      unfold unit_atoi in
          rw (q, scaled, binary) (whole_millions (value 0 (d ∷ ds)) (1024 ^ e) small),
    )
