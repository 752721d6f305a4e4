-- ===== src/Options/Valid.antt =====
-- What `iperf_parse_arguments` of iperf_api.c ensures of the test that it accepts.
use mathlib.Core.Path.{subst}
use i_perf_demo_runtime.Common.{
  All, Bool, List, arith, false, if◌then◌else◌, inl, inr, length, not, refl, suc, true, zero, ℕ,
  ◌&&◌, ◌*◌, ◌-◌, ◌==◌, ◌^◌, ◌||◌, ◌≡◌, ◌≤◌, ◌⊎◌,
}
use i_perf_demo_runtime.Common.Int.{is_zero, ltb_ℤ, negsuc, pos, ℤ, ◌≤ℤ◌}
use i_perf_demo_runtime.Config.{
  IErrno, IperfTest, Protocol, iebind, ieblocksize, ieclientonly, ieendconditions, ielogfile,
  ienorole, ieserveronly, ieudpblocksize, protocol_eq, udp,
}
use i_perf_demo_runtime.Units.{is_digit, unit_atof}
use i_perf_demo_runtime.Options.{
  Env, Flag, Parsing, Result, check, err, exits, max_blocksize, max_udp_blocksize, ok,
  opt_bandwidth, opt_blockcount, opt_bytes, opt_interval, opt_length, opt_numstreams, opt_window,
  parse_options, with_settings, with_test, ◌>>=◌,
}
use i_perf_demo_runtime.Options.Checks.{
  blksize_of, check_arguments, check_blksize, check_end, check_flags, guard, iperf_parse_arguments,
  is_set, set_rate_default, start, udp_rate,
}
use i_perf_demo_runtime.Options.Limits.{Between, IsLimited, parse_options-IsLimited}

-- A result, where there is one, satisfies `P`.
abbrev pub Ensures {ℓ} : {A : Type ℓ} → (A → Type 0) → Result A → Type 0
Ensures P (ok a) = P a
Ensures P (err e) = Unit
Ensures P (exits n) = Unit

>>=-Ensures {ℓ κ} :
    {A : Type ℓ} {B : Type κ} (P : A → Type 0) (Q : B → Type 0) (r : Result A) (f : A → Result B)
    → Ensures P r
    → ((a : A) → P a → Ensures Q (f a))
    → Ensures Q (r >>= f)
>>=-Ensures P Q (ok a) f h k = k a h
>>=-Ensures P Q (err e) f h k = tt
>>=-Ensures P Q (exits n) f h k = tt

check-Ensures {ℓ} :
    {A : Type ℓ} (P : A → Type 0) (bad : Bool) (e : IErrno) (a : A)
    → (bad ≡ false → P a)
    → Ensures P (check bad e a)
check-Ensures P true e a h = tt
check-Ensures P false e a h = h refl

false-true {ℓ} : {A : Type ℓ} → false ≡ true → A
false-true e = ground arith

guard-Ensures :
    (P : Parsing → Type 0) (bad : Bool) (e : IErrno) (r : Result Parsing)
    → (bad ≡ false → Ensures P r)
    → Ensures P (guard bad e r)
unfolding guard
guard-Ensures P true e r h = tt
guard-Ensures P false e r h = h refl

-- A local port is set only with a local address.
abbrev pub IsBound : IperfTest → Type 0
IsBound t = (t.bind_port ≡ pos 0) ⊎ (is_set t.bind_address ≡ true)

-- The block size fits the protocol.
abbrev pub FitsBlock : IperfTest → Type 0
FitsBlock t =
    Between (pos 1) max_blocksize t.settings.blksize
    × (t.protocol ≡ udp → t.settings.blksize ≤ℤ max_udp_blocksize)

-- The test ends by its duration, or by one of the two counts and not by its duration.
abbrev pub HasOneEnd : IperfTest → Type 0
HasOneEnd t =
    ((t.settings.bytes ≡ 0) × (t.settings.blocks ≡ 0))
    ⊎ ((t.duration ≡ pos 0) × ((t.settings.bytes ≡ 0) ⊎ (t.settings.blocks ≡ 0)))

pub record IsValid (t : IperfTest) : Type 0 where
  pub limited : IsLimited t
  pub bound : IsBound t
  pub block : FitsBlock t
  pub end : HasOneEnd t
  pub has_role : (t.role ≡ b'c') ⊎ (t.role ≡ b's')

abbrev AfterFlags : Parsing → Type 0
AfterFlags p = IsLimited p.test × IsBound p.test

abbrev AfterBlock : Parsing → Type 0
AfterBlock p = IsLimited p.test × IsBound p.test × FitsBlock p.test

abbrev AfterEnd : Parsing → Type 0
AfterEnd p = IsLimited p.test × IsBound p.test × FitsBlock p.test × HasOneEnd p.test

bound_of :
    (address : Bool) (port : ℤ)
    → (not address && not (is_zero port)) ≡ false
    → (port ≡ pos 0) ⊎ (address ≡ true)
bound_of true port h = inr refl
bound_of false (pos n) h = ground arith
bound_of false (negsuc n) h = ground arith

check_flags-AfterFlags :
    (env : Env) (p : Parsing) → IsLimited p.test → Ensures AfterFlags (check_flags env p)
unfolding check_flags
check_flags-AfterFlags env p h = guard-Ensures AfterFlags _ ielogfile _ (λ _.
    guard-Ensures AfterFlags _ ieserveronly _ (λ _. guard-Ensures AfterFlags _ ieclientonly _ (λ _.
      guard-Ensures AfterFlags _ iebind (ok p)
        (λ b. (h, bound_of (is_set p.test.bind_address) p.test.bind_port b)))))

in_block :
    (size : ℤ)
    → (not (ltb_ℤ (pos 0) size) || ltb_ℤ max_blocksize size) ≡ false
    → Between (pos 1) max_blocksize size
in_block (pos n) h = ground arith
in_block (negsuc n) h = ground arith

in_udp :
    (p : Protocol) (size : ℤ)
    → (protocol_eq p udp && ltb_ℤ max_udp_blocksize size) ≡ false
    → p ≡ udp
    → size ≤ℤ max_udp_blocksize
unfolding protocol_eq
in_udp p size h e = ground arith

check_blksize-AfterBlock : (p : Parsing) → AfterFlags p → Ensures AfterBlock (check_blksize p)
unfolding check_blksize
check_blksize-AfterBlock p (h, b) = guard-Ensures AfterBlock _ ieblocksize _ (λ size.
    guard-Ensures AfterBlock _ ieudpblocksize _
      (λ u. (h, b, (in_block (blksize_of p) size, in_udp p.test.protocol (blksize_of p) u))))

set_rate_default-AfterBlock : (p : Parsing) → AfterBlock p → AfterBlock (set_rate_default p)
unfolding set_rate_default
set_rate_default-AfterBlock p h =
    elim p.rate_flag
      as (λ b. AfterBlock (
        if b
        then p
        else with_settings p (record p.test.settings {
          rate = if protocol_eq p.test.protocol udp then udp_rate else 0;
        }))) [ true ↦ h | false ↦ h ]

-- The duration of a test that ends by a count is put to 0.
one_end :
    (dflag : Bool) (bytes blocks : ℕ)
    → ((dflag && not (bytes == 0))
        || ((dflag && not (blocks == 0)) || (not (bytes == 0) && not (blocks == 0))))
      ≡ false
    → ((bytes ≡ 0) × (blocks ≡ 0))
      ⊎ ((((not (bytes == 0) || not (blocks == 0)) && not dflag) ≡ true)
          × ((bytes ≡ 0) ⊎ (blocks ≡ 0)))
one_end true zero zero h = inl (refl, refl)
one_end true zero (suc c) h = ground arith
one_end true (suc b) c h = ground arith
one_end false zero zero h = inl (refl, refl)
one_end false zero (suc c) h = ground arith
one_end false (suc b) zero h = ground arith
one_end false (suc b) (suc c) h = ground arith

zero_duration : (t : IperfTest) → IsLimited t → IsLimited (record t { duration = pos 0 })
zero_duration t (_, s, m, w, o, c, r, i, e) = (ground arith, s, m, w, o, c, r, i, e)

end_test :
    (zeroed : Bool) (p : Parsing)
    → AfterBlock p
    → ((p.test.settings.bytes ≡ 0) × (p.test.settings.blocks ≡ 0))
      ⊎ ((zeroed ≡ true) × ((p.test.settings.bytes ≡ 0) ⊎ (p.test.settings.blocks ≡ 0)))
    → AfterEnd (if zeroed then with_test p (record p.test { duration = pos 0 }) else p)
end_test true p (h, b, f) (inl e) = (zero_duration p.test h, b, f, inl e)
end_test true p (h, b, f) (inr (e, o)) = (zero_duration p.test h, b, f, inr (refl, o))
end_test false p (h, b, f) (inl e) = (h, b, f, inl e)
end_test false p (h, b, f) (inr (e, o)) = false-true e

check_end-AfterEnd : (p : Parsing) → AfterBlock p → Ensures AfterEnd (check_end p)
unfolding check_end
check_end-AfterEnd p h = check-Ensures AfterEnd _ ieendconditions _ (λ bad.
    end_test _ p h (one_end p.duration_flag p.test.settings.bytes p.test.settings.blocks bad))

a_role : (r : ℕ) → (not (r == b'c') && not (r == b's')) ≡ false → (r ≡ b'c') ⊎ (r ≡ b's')
a_role r h = ground arith

check_arguments-IsValid :
    (env : Env) (p : Parsing) → IsLimited p.test → Ensures IsValid (check_arguments env p)
unfolding check_arguments
check_arguments-IsValid env p h =
    >>=-Ensures AfterFlags IsValid (check_flags env p) _ (check_flags-AfterFlags env p h) (λ q k.
      >>=-Ensures AfterBlock IsValid (check_blksize q) _ (check_blksize-AfterBlock q k) (λ r l.
        >>=-Ensures AfterEnd IsValid (check_end (set_rate_default r)) _
          (check_end-AfterEnd (set_rate_default r) (set_rate_default-AfterBlock r l))
          (λ s (h, b, f, e). check-Ensures IsValid _ ienorole s.test (λ bad. record {
            limited = h;
            bound = b;
            block = f;
            end = e;
            has_role = a_role s.test.role bad;
          }))))

-- Digits, a point, the unit letters, and the slash of `-b`.
abbrev is_plain : ℕ → Bool
is_plain c =
    is_digit c
    || (c == b'.'
        || (c == b'/'
            || (c == b'k'
                || (c == b'K' || (c == b'm' || (c == b'M' || (c == b'g' || c == b'G')))))))

-- No more than nine such characters: no sign, no exponent, no hexadecimal digits, no `nan` or `inf`.
abbrev pub IsPlain : List ℕ → Type 0
IsPlain text = All (λ (c : ℕ). is_plain c ≡ true) text × (length text ≤ 9)

-- The text of an option that is read as a `double` is plain, and for `-w` the number fits an `int`.
abbrev pub IsReadable : Env → Flag → List ℕ → Type 0
IsReadable env opt_interval text = IsPlain text
IsReadable env opt_numstreams text = IsPlain text
IsReadable env opt_bandwidth text = IsPlain text
IsReadable env opt_bytes text = IsPlain text
IsReadable env opt_blockcount text = IsPlain text
IsReadable env opt_length text = IsPlain text
IsReadable env opt_window text =
    IsPlain text × (unit_atof env.junk text ≤ℤ pos ((2 ^ 31 - 1) * 1000000))
IsReadable env _ text = Unit

abbrev pub AreReadable : Env → List (Flag × List ℕ) → Type 0
AreReadable env options = All (λ (o : Flag × List ℕ). IsReadable env o.0 o.1) options

-- Where the parse succeeds on a test whose values are within the limits, it gives a valid test:
-- the values are within the limits, a local port comes with a local address, the block size fits
-- the protocol, the test has one end, and the role is that of a client or a server. The texts of the
-- options that are read as a `double` are plain decimal numbers of nine characters at most, with a
-- unit, and the one of `-w` fits an `int`.
pub iperf_parse_arguments-IsValid :
    (env : Env) (options : List (Flag × List ℕ)) (t u : IperfTest)
    → AreReadable env options
    → IsLimited t
    → iperf_parse_arguments env options t ≡ ok u
    → IsValid u
unfolding iperf_parse_arguments
iperf_parse_arguments-IsValid env options t u readable h e =
    subst (λ r. Ensures IsValid r) e
      (>>=-Ensures (λ p. IsLimited p.test) IsValid (parse_options env options (start t)) _
        (parse_options-IsLimited env options (start t) h) (λ p k. check_arguments-IsValid env p k))
