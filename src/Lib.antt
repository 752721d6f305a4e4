-- ===== src/Lib.antt =====
-- The network test engine of the Android app: a model of the iperf3 code under
-- app/src/main/jni/iperf-3.1.3/src, as it is compiled for Android (iperf_config.h: HAVE_SENDFILE;
-- neither HAVE_CPU_AFFINITY, HAVE_FLOWLABEL, HAVE_TCP_CONGESTION, HAVE_SCTP nor
-- HAVE_SO_MAX_PACING_RATE).
--
-- A client and a server talk over a control connection. The client connects, the server reads a
-- cookie, answers with a state of one byte, and gets the parameters of the test as JSON; then the
-- streams are made, the test runs under timers, and the two exchange results. Another client that
-- connects in the meantime is denied.
--
-- The modules:
--   Common   names of the libraries, Boolean tests on numbers, lists over the native numbers, and the
--            integers that stand for `int` and `int64_t`.
--   Timer    timer.c, all of it. A timer struct is known by its address; the active list and the free
--            list are sequences. What a timer proc does is a parameter. `tmr_run` has a number of
--            rounds as fuel, and Timer.Runs gives a number that is enough. Children: Order, Rounds,
--            Runs, Invariant, Calls. The child Links is the same code on a store of structs with
--            their `next` and `prev`: a walk along the list has the number of structs made so far
--            as fuel, which is enough because the structs of a list differ. Its children Chain,
--            Walk, Insert, Setters, Remove, Refines, Create, Sizes and Traces relate it to Timer.
--   Net      net.c: Nread, Nwrite and Nsendfile. What the kernel answers is a list, so that every
--            interleaving of partial reads, errors and ends is one value of it. Children: Reads,
--            Writes. Net.Sockets has netdial and netannounce: each system call asks whether it
--            succeeds from a list of answers, and the sockets and results of getaddrinfo that are
--            held are part of the state. Net.Dialling says what they hold in the end.
--   Tcp      iperf_tcp.c: iperf_tcp_recv, iperf_tcp_send, iperf_tcp_accept, iperf_tcp_listen and
--            iperf_tcp_connect, over Net. Children: Connections, Listening, Data.
--   Frame    iperf_api.c: JSON_write and JSON_read, over Net. The JSON library is a parameter. Child:
--            RoundTrip.
--   Udp      iperf_udp.c: iperf_udp_send and iperf_udp_recv, over Net. Children: Counting, Packets;
--            Sockets (iperf_udp_accept, iperf_udp_listen and iperf_udp_connect) and Leaks.
--   Config   iperf.h and iperf_api.c: the record of a test, set_protocol, iperf_set_test_role,
--            iperf_set_test_reverse, iperf_defaults and iperf_reset_test. Children: Roles, Samples.
--   Units    units.c: unit_atof, unit_atof_rate and unit_atoi, with atoi, atof and strtol as far as
--            decimal text goes. A `double` is a whole number of millionths,
--            as read from plain decimal text, where it is exact. Child: Suffixes.
--   Options  iperf_api.c: iperf_parse_arguments on the list of options that getopt_long finds.
--            Children: Checks (what follows the loop), Limits, Valid.
--   Params   iperf_api.c: send_parameters and get_parameters, over Config. An object is what
--            cJSON_GetObjectItem finds under each name. Children: Exchange, Reset.
--   Session  the control connection: iperf_set_send_state, iperf_exchange_parameters and
--            iperf_exchange_results of iperf_api.c; Session.Server has iperf_accept,
--            iperf_handle_message_server and the start of the test in iperf_run_server of
--            iperf_server_api.c; Session.Client has iperf_handle_message_client and
--            iperf_client_end of iperf_client_api.c. The parameters are read by Params; the other
--            functions called are events, and whether they succeed is a list of answers. Children
--            with theorems: Codes, Errors, Accept, Endings. Session.Serving is the loop of
--            iperf_run_server and iperf_cleanup_server, Session.Running the loop of
--            iperf_run_client and iperf_connect; a round of such a loop is one value of what
--            `select` reports. Session.Together puts a client and a server at the two ends of a
--            connection: a move is one handler or one round that changes something, in any order
--            and with any answer that does not fail. The state of the side is computed at once;
--            its sends and blocking reads are then played in their order, so that a side that has
--            come to a read waits for what the other side sends. Phases, Closing, Liveness,
--            Beginning, Streams, Meeting, Rounds, Cleanup and Denials have the theorems.
--   Transfer iperf_api.c: iperf_check_throttle, iperf_send and iperf_recv. What the send and the receive
--            function of a stream do is a parameter. Children: Accounts, Pacing.
--   Results  iperf_api.c: iperf_add_stream, and the streams in send_results and get_results. Children:
--            Ids, Exchange.
--   Streams  iperf_api.c: iperf_new_stream, iperf_init_stream and iperf_free_stream, with the memory,
--            the files and the mapping that they hold. Child: Releases.
--   Stats    iperf_api.c: iperf_init_test, iperf_stats_callback, iperf_reset_stats and the interval
--            results of a stream. Children: Life, Balance, Totals.
--   Alarms   the timers of a test, over Timer: create_client_timers, create_client_omit_timer and the
--            timer procs of iperf_client_api.c, their counterparts in iperf_server_api.c with
--            cleanup_server, iperf_create_send_timers of iperf_api.c, and the release of the timers in
--            iperf_reset_test. `malloc` is any function of the timers in use. Children: Kinds, Held,
--            Releasing, Procs, Firing, Creating, Acts.
-- The modules called Tests hold runs and instances at concrete inputs.
--
-- C integers are numbers with the wrap-around written out where a value can reach it; where C leaves
-- an overflow undefined, the model wraps around. Memory that C leaves uninitialised is a parameter.
--
-- Not modelled: setnonblocking and getsockdomain of net.c, which are one system call; how
-- iperf_server_listen tries again with another address family; the jitter of UDP, which is a `double`; the processor times and the server output
-- among the results; the reports and unit_snprintf, which are output; the JNI code beside
-- iperf-3.1.3; main.c, iperf_error.c, iperf_util.c and iperf_locale.c, which are glue, tables and
-- system calls; iperf_sctp.c, which is empty without HAVE_SCTP; and cjson.c and queue.h, which are
-- other projects' code.
pub mod Common
pub mod Timer
pub mod Net
pub mod Tcp
pub mod Frame
pub mod Udp
pub mod Config
pub mod Units
pub mod Options
pub mod Params
pub mod Session
pub mod Transfer
pub mod Results
pub mod Streams
pub mod Stats
pub mod Alarms
