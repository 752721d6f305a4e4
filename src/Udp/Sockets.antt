-- ===== src/Udp/Sockets.antt =====
-- `iperf_udp_accept`, `iperf_udp_listen` and `iperf_udp_connect` of iperf-3.1.3/src/iperf_udp.c, over
-- the functions of net.c.
use i_perf_demo_runtime.Common.{Bool, Option, [], false, none, not, some, true, ℕ}
use i_perf_demo_runtime.Common.Int.{is_zero}
use i_perf_demo_runtime.Config.{
  IErrno, IperfTest, Text, iesetbuf, iestreamaccept, iestreamconnect, iestreamlisten, iestreamread,
  iestreamwrite,
}
use i_perf_demo_runtime.Net.Sockets.{Made, System, ask, ask_if, error_, made, netannounce, netdial}

-- What is done with the socket that a function gives, and `i_errno` where it gives none.
unfoldable pub then_made : IErrno → (ℕ → System → Made) → Made → Made
then_made e next (made n o) = next n o
then_made e next (error_ o) = error_ (record o { errno = some e })

-- The two sizes of the buffers, where one is asked for.
unfoldable pub set_bufsize : IperfTest → (System → Made) → System → Made
set_bufsize t next =
    let sized = not (is_zero t.settings.socket_bufsize) in
    ask_if sized [] (some iesetbuf) (ask_if sized [] (some iesetbuf) next)

abbrev pub is_some : Option Text → Bool
is_some none = false
is_some (some _) = true

-- `s` is the listening socket, which becomes the stream's, and `n` the one that takes its place; `v6` is
-- as for `netannounce`.
unfoldable pub iperf_udp_accept : IperfTest → Bool → ℕ → ℕ → System → Made
iperf_udp_accept t v6 s n = ask [] (some iestreamaccept) (
    ask [] (some iestreamaccept) (
      set_bufsize t (λ o.
        then_made iestreamlisten (λ _. ask [] (some iestreamwrite) (made s))
          (netannounce false v6 t.settings.domain n o))))

unfoldable pub iperf_udp_listen : IperfTest → Bool → ℕ → System → Made
iperf_udp_listen t v6 s o =
    then_made iestreamlisten made (netannounce false v6 t.settings.domain s o)

-- The last two calls are the packet that lets the server know, and its answer.
unfoldable pub iperf_udp_connect : IperfTest → ℕ → System → Made
iperf_udp_connect t s o =
    then_made iestreamconnect
      (λ n. set_bufsize t (ask [] (some iestreamwrite) (ask [] (some iestreamread) (made n))))
      (netdial (is_some t.bind_address) s o)
