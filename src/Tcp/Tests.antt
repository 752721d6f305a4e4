-- ===== src/Tcp/Tests.antt =====
-- The functions of iperf_tcp.c and iperf_udp.c that make sockets, on given answers.
use i_perf_demo_runtime.Net.{Outgoing, count, eagain, nsendfile, refuses, takes}
use i_perf_demo_runtime.Net.Reads.{deliver}
use i_perf_demo_runtime.Tcp.Listening.{
  LeavesOpen, all_succeed, calls_before_listen, iperf_tcp_accept-Holds, iperf_tcp_listen-Holds,
}
use i_perf_demo_runtime.Tcp.Data.{
  TcpStream, iperf_tcp_recv, iperf_tcp_recv-iperf_tcp_send, iperf_tcp_send,
}
use i_perf_demo_runtime.Common.{
  List, [], arith, false, none, refl, take, true, ℕ, ◌-◌, ◌^◌, ◌∷◌, ◌≡◌,
}
use i_perf_demo_runtime.Config.{IperfTest}
use i_perf_demo_runtime.Config.Samples.{tcp_server}
use i_perf_demo_runtime.Net.Sockets.{System, socket}
use i_perf_demo_runtime.Net.Dialling.{Holds}
use i_perf_demo_runtime.Tcp.{iperf_tcp_accept, iperf_tcp_connect, iperf_tcp_listen}
use i_perf_demo_runtime.Tcp.Connections.{Reports, iperf_tcp_connect-Holds}
use i_perf_demo_runtime.Udp.Sockets.{iperf_udp_connect}
use i_perf_demo_runtime.Udp.Leaks.{MayKeepStream, iperf_udp_connect-Holds}

-- Socket 3 is open, and the first call fails.
abbrev first_fails : System
first_fails = record { held = socket 3 ∷ []; errno = none; system = false ∷ [] }

abbrev without_delay : IperfTest
without_delay = record tcp_server { no_delay = true }

iperf_tcp_connect-Holds_example :
    Holds 4
      (socket 4 ∷ socket 3 ∷ [])
      (Reports (socket 3 ∷ []))
      (iperf_tcp_connect without_delay 4 first_fails)
iperf_tcp_connect-Holds_example = iperf_tcp_connect-Holds without_delay 4 first_fails

iperf_tcp_listen-Holds_example :
    Holds 4
      (socket 4 ∷ [])
      (LeavesOpen 4 [] (all_succeed (calls_before_listen without_delay true) (false ∷ [])))
      (iperf_tcp_listen without_delay true 3 4 first_fails)
iperf_tcp_listen-Holds_example =
    iperf_tcp_listen-Holds without_delay true 3 4 first_fails [] refl refl

iperf_tcp_accept-Holds_example :
    Holds 4
      (socket 3 ∷ [])
      (LeavesOpen 4 (socket 3 ∷ []) true)
      (iperf_tcp_accept false 4 (record first_fails { system = [] }))
iperf_tcp_accept-Holds_example = iperf_tcp_accept-Holds false 4 (record first_fails { system = [] })

iperf_udp_connect-Holds_example :
    Holds 4
      (socket 4 ∷ socket 3 ∷ [])
      (MayKeepStream false 4 (socket 3 ∷ []))
      (iperf_udp_connect tcp_server 4 first_fails)
iperf_udp_connect-Holds_example = iperf_udp_connect-Holds tcp_server 4 first_fails

-- A stream with blocks of four bytes that are sent with `sendfile`.
abbrev zerocopied : TcpStream
zerocopied = record {
  blksize = 4;
  zerocopy = true;
  buffer = 9 ∷ 9 ∷ 9 ∷ 9 ∷ [];
  file_content = 1 ∷ 2 ∷ 3 ∷ 4 ∷ [];
  bytes_received = 0;
  bytes_received_this_interval = 0;
  bytes_sent = 10;
  bytes_sent_this_interval = 2 ^ 64 - 1;
}

-- Three bytes are taken, and the call then fails for a while.
abbrev three_taken : List Outgoing
three_taken = takes 1 ∷ takes 2 ∷ refuses eagain ∷ []

abbrev in_two : List (List ℕ)
in_two = (1 ∷ []) ∷ (2 ∷ 3 ∷ []) ∷ []

iperf_tcp_recv-iperf_tcp_send_example :
    let sent = (iperf_tcp_send three_taken zerocopied).0.1 in
    let (result, received) = iperf_tcp_recv (deliver in_two) (record zerocopied { blksize = 3 }) in
    (sent.bytes_sent ≡ 13)
    × (sent.bytes_sent_this_interval ≡ 2)
    × (result ≡ count 3)
    × (received.bytes_received ≡ 3)
    × (received.bytes_received_this_interval ≡ 3)
    × (take 3 received.buffer ≡ 1 ∷ 2 ∷ 3 ∷ [])
unfolding iperf_tcp_send nsendfile
iperf_tcp_recv-iperf_tcp_send_example =
    iperf_tcp_recv-iperf_tcp_send three_taken in_two zerocopied (record zerocopied { blksize = 3 })
      3 (omega arith) (omega arith) refl refl refl
