-- ===== src/Config/Roles.antt =====
-- Who sends: `iperf_set_test_role` and `iperf_set_test_reverse` of iperf_api.c.
use i_perf_demo_runtime.Common.{
  Bool, arith, false, if◌then◌else◌, not, refl, true, ℕ, ◌&&◌, ◌==◌, ◌≡◌, ◌⊎◌,
}
use i_perf_demo_runtime.Common.Int.{pos}
use i_perf_demo_runtime.Config.{
  IperfTest, iperf_set_test_reverse, iperf_set_test_role, protocol_eq, tcp,
}

abbrev xor_bool : Bool → Bool → Bool
xor_bool true b = not b
xor_bool false b = b

-- "client & !reverse or server & reverse", and the count of retransmissions is known to a TCP sender.
pub record IsConsistent (t : IperfTest) : Type 0 where
  pub direction : t.sender ≡ xor_bool t.reverse (t.role == b'c')
  pub counted :
      t.sender_has_retransmits ≡ (if t.sender && protocol_eq t.protocol tcp then pos 1 else pos 0)

abbrev pub IsRole : ℕ → Type 0
IsRole r = (r ≡ b'c') ⊎ (r ≡ b's')

-- Setting the role makes the test consistent, whatever it was before.
pub iperf_set_test_role-IsConsistent :
    (r : ℕ) (t : IperfTest) → IsRole r → IsConsistent (iperf_set_test_role r t)
unfolding iperf_set_test_role
iperf_set_test_role-IsConsistent r t h = ground arith

-- Setting the role and turning the direction around can be done in either order.
iperf_set_test_reverse-role :
    (r : ℕ) (t : IperfTest)
    → IsRole r
    → t.reverse ≡ false
    → (iperf_set_test_reverse true (iperf_set_test_role r t)
        ≡ iperf_set_test_role r (iperf_set_test_reverse true t))
      × IsConsistent (iperf_set_test_reverse true (iperf_set_test_role r t))
unfolding iperf_set_test_role iperf_set_test_reverse
iperf_set_test_reverse-role r t h e = ground arith

-- Turning the direction around a second time leaves `reverse` set, but makes the sender again the one
-- that it is without: the client sends and the server does not. Such a test is inconsistent.
pub iperf_set_test_reverse_twice :
    (t : IperfTest)
    → IsConsistent t
    → t.reverse ≡ true
    → let u = iperf_set_test_reverse true t in
      (u.reverse ≡ true) × (u.sender ≡ (u.role == b'c')) × ¬ IsConsistent u
unfolding iperf_set_test_reverse
iperf_set_test_reverse_twice t c e =
    (refl, ground (arith, c.direction), λ d. ground (arith, d.direction, c.direction))
