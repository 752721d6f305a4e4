-- ===== src/Config/Samples.antt =====
-- Tests for examples: what `iperf_new_test` of iperf_api.c leaves, a client's and a server's.
use i_perf_demo_runtime.Common.{[], false, none, some, true, ◌*◌, ◌∷◌}
use i_perf_demo_runtime.Common.Int.{pos}
use i_perf_demo_runtime.Config.{IperfTest, default_tcp_blksize, minus_one, other_state, tcp, udp}

abbrev pub blank : IperfTest
blank = record {
  settings = record {
    domain = 0;
    socket_bufsize = pos 0;
    blksize = pos 0;
    rate = 0;
    burst = pos 0;
    mss = pos 0;
    tos = pos 0;
    flowlabel = pos 0;
    bytes = 0;
    blocks = 0;
    unit_format = 0;
    num_ostreams = pos 0;
  };
  role = 0;
  sender = false;
  sender_has_retransmits = pos 0;
  protocol = tcp;
  protocols = tcp ∷ udp ∷ [];
  state = other_state 0;
  server_hostname = none;
  tmp_template = none;
  bind_address = none;
  bind_port = pos 0;
  server_port = pos 5201;
  omit = pos 0;
  duration = pos 10;
  diskfile_name = none;
  affinity = minus_one;
  server_affinity = minus_one;
  title = none;
  congestion = none;
  pidfile = none;
  logfile = none;
  ctrl_sck = minus_one;
  prot_listener = minus_one;
  daemon = false;
  one_off = false;
  no_delay = false;
  reverse = false;
  verbose = false;
  json_output = false;
  zerocopy = false;
  debug = false;
  get_server_output = false;
  udp_counters_64bit = false;
  no_fq_socket_pacing = false;
  multisend = 10;
  stats_interval = pos 1000000;
  reporter_interval = pos 1000000;
  done = false;
  num_streams = pos 1;
  bytes_sent = 0;
  blocks_sent = 0;
}

-- A UDP client that has the server send.
abbrev pub udp_client : IperfTest
udp_client = record blank {
  role = b'c';
  protocol = udp;
  reverse = true;
  omit = pos 3;
  duration = pos 20;
  num_streams = pos 4;
  title = some (b'x' ∷ []);
  settings = record blank.settings { rate = 1024 * 1024; blksize = pos 8192 };
}

abbrev pub tcp_server : IperfTest
tcp_server = record blank {
  role = b's';
  settings = record blank.settings { blksize = default_tcp_blksize };
}
