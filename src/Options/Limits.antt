-- ===== src/Options/Limits.antt =====
-- The limits that `iperf_parse_arguments` of iperf_api.c puts on the values of the options.
use i_perf_demo_runtime.Units.{atof, atoi, int_of_unsigned, strtol_int, unit_atoi}
use i_perf_demo_runtime.Common.{
  Bool, List, Option, [], arith, false, if◌then◌else◌, inl, none, not, refl, some, suc, true, zero,
  ℕ, ◌&&◌, ◌||◌, ◌∷◌, ◌≡◌, ◌⊎◌,
}
use i_perf_demo_runtime.Common.Int.{is_zero, ltb_ℤ, negsuc, pos, ℤ, ◌≤ℤ◌}
use i_perf_demo_runtime.Config.{
  IErrno, IperfTest, Protocol, check_sender_has_retransmits, has_protocol, iebadtos, iebufsize,
  ieburst, ieduration, ieinterval, iemss, ienumstreams, ieomit, ieservclient, iesetsctpbindx,
  set_protocol, udp,
}
use i_perf_demo_runtime.Options.{
  Env, Flag, Parsing, Result, check, client, err, exits, invalid, max_burst, max_interval, max_mss,
  max_streams, max_tcp_buffer, max_time, min_interval, ok, opt_affinity, opt_bandwidth, opt_bind,
  opt_blockcount, opt_bytes, opt_client, opt_client_port, opt_congestion, opt_daemon, opt_debug,
  opt_file, opt_flowlabel, opt_format, opt_get_server_output, opt_help, opt_interval, opt_json,
  opt_length, opt_logfile, opt_no_delay, opt_no_fq_socket_pacing, opt_numstreams, opt_omit,
  opt_one_off, opt_parallel, opt_pidfile, opt_port, opt_reverse, opt_sctp, opt_server, opt_set_mss,
  opt_time, opt_title, opt_tmp_path, opt_tos, opt_udp, opt_udp_counters_64bit, opt_verbose,
  opt_version, opt_version4, opt_version6, opt_window, opt_xbind, opt_zerocopy, parse_bandwidth,
  parse_client, parse_option, parse_options, parse_server, set_bandwidth, set_tos, split_slash,
  with_settings, ◌>>=◌,
}

abbrev pub Between : ℤ → ℤ → ℤ → Type 0
Between lo hi x = (lo ≤ℤ x) × (x ≤ℤ hi)

abbrev pub IsLimited : IperfTest → Type 0
IsLimited t =
    (t.duration ≤ℤ max_time)
    × (t.num_streams ≤ℤ max_streams)
    × (t.settings.mss ≤ℤ max_mss)
    × (t.settings.socket_bufsize ≤ℤ max_tcp_buffer)
    × Between (pos 0) (pos 60) t.omit
    × Between (pos 0) (pos 255) t.settings.tos
    × Between (pos 0) max_burst t.settings.burst
    × ((t.stats_interval ≡ pos 0) ⊎ Between min_interval max_interval t.stats_interval)
    × (t.reporter_interval ≡ t.stats_interval)

-- The test that a result holds satisfies `P`; an error and an exit hold none.
abbrev pub Holds : (IperfTest → Type 0) → Result Parsing → Type 0
Holds P (ok p) = P p.test
Holds P (err e) = Unit
Holds P (exits n) = Unit

pub check-Holds :
    (P : IperfTest → Type 0) (bad : Bool) (e : IErrno) (p : Parsing)
    → (bad ≡ false → P p.test)
    → Holds P (check bad e p)
check-Holds P true e p h = tt
check-Holds P false e p h = h refl

pub >>=-Holds :
    (r : Result Parsing) (f : Parsing → Result Parsing)
    → Holds IsLimited r
    → ((q : Parsing) → IsLimited q.test → Holds IsLimited (f q))
    → Holds IsLimited (r >>= f)
>>=-Holds (ok q) f h k = k q h
>>=-Holds (err e) f h k = tt
>>=-Holds (exits n) f h k = tt

at_most : (hi x : ℤ) → ltb_ℤ hi x ≡ false → x ≤ℤ hi
at_most hi x h = ground arith

in_range : (lo hi x : ℤ) → (ltb_ℤ x lo || ltb_ℤ hi x) ≡ false → Between lo hi x
in_range lo hi x h = ground arith

in_interval :
    (x : ℤ)
    → ((ltb_ℤ x min_interval || ltb_ℤ max_interval x) && not (is_zero x)) ≡ false
    → (x ≡ pos 0) ⊎ Between min_interval max_interval x
in_interval (pos zero) h = inl refl
in_interval (pos (suc n)) h = ground arith
in_interval (negsuc n) h = ground arith

in_burst :
    (x : ℤ) → (not (ltb_ℤ (pos 0) x) || ltb_ℤ max_burst x) ≡ false → Between (pos 0) max_burst x
in_burst x h = ground arith

parse_server-IsLimited : (p : Parsing) → IsLimited p.test → Holds IsLimited (parse_server p)
unfolding parse_server
parse_server-IsLimited p h = check-Holds IsLimited _ ieservclient _ (λ _. h)

parse_client-IsLimited :
    (arg : List ℕ) (p : Parsing) → IsLimited p.test → Holds IsLimited (parse_client arg p)
unfolding parse_client
parse_client-IsLimited arg p h = check-Holds IsLimited _ ieservclient _ (λ _. h)

set_bandwidth-IsLimited :
    (env : Env) (front : List ℕ) (slash : Option (List ℕ)) (p : Parsing)
    → IsLimited p.test
    → Holds IsLimited (set_bandwidth env front slash p)
unfolding set_bandwidth
set_bandwidth-IsLimited env front none p h = h
set_bandwidth-IsLimited env front (some text) p h =
    check-Holds IsLimited _ ieburst _
      (λ b. let (d, s, m, w, o, t, _, i, e) = h in (d, s, m, w, o, t, in_burst (atoi text) b, i, e))

set_tos-IsLimited :
    (tos : Option ℤ) (p : Parsing) → IsLimited p.test → Holds IsLimited (set_tos tos p)
unfolding set_tos
set_tos-IsLimited none p h = tt
set_tos-IsLimited (some tos) p h = check-Holds IsLimited _ iebadtos _ (λ b.
    let (d, s, m, w, o, _, r, i, e) = h in
    (d, s, m, w, o, in_range (pos 0) (pos 255) tos b, r, i, e))

abbrev first_of : IperfTest × Bool → IperfTest
first_of r = r.0

set_protocol-IsLimited :
    (p : Protocol) (t : IperfTest) → IsLimited t → IsLimited (set_protocol p t).0
unfolding set_protocol
set_protocol-IsLimited p t h =
    elim (has_protocol p t.protocols)
      as (λ b. IsLimited (
        first_of (
          if b
          then (check_sender_has_retransmits (record t { protocol = p }), true)
          else (t, false)))) [ true ↦ h | false ↦ h ]

exit-Holds :
    (exec : Bool) (n : ℕ) (r : Result Parsing)
    → Holds IsLimited r
    → Holds IsLimited (if exec then exits n else r)
exit-Holds true n r h = tt
exit-Holds false n r h = h

-- An option keeps the limits, or is refused.
pub parse_option-IsLimited :
    (env : Env) (f : Flag) (arg : List ℕ) (p : Parsing)
    → IsLimited p.test
    → Holds IsLimited (parse_option env f arg p)
unfolding parse_option parse_bandwidth
parse_option-IsLimited env opt_port arg p h = h
parse_option-IsLimited env opt_format arg p h = h
parse_option-IsLimited env opt_interval arg p h = check-Holds IsLimited _ ieinterval _ (λ b.
    let (d, s, m, w, o, t, r, _, _) = h in (d, s, m, w, o, t, r, in_interval (atof arg) b, refl))
parse_option-IsLimited env opt_daemon arg p h = h
parse_option-IsLimited env opt_one_off arg p h = h
parse_option-IsLimited env opt_verbose arg p h = h
parse_option-IsLimited env opt_json arg p h = h
parse_option-IsLimited env opt_version arg p h =
    exit-Holds env.exec 0 _ (parse_server-IsLimited p h)
parse_option-IsLimited env opt_server arg p h = parse_server-IsLimited p h
parse_option-IsLimited env opt_client arg p h = parse_client-IsLimited arg p h
parse_option-IsLimited env opt_udp arg p h = set_protocol-IsLimited udp p.test h
parse_option-IsLimited env opt_sctp arg p h = tt
parse_option-IsLimited env opt_numstreams arg p h =
    let q = client (
      with_settings p
        (record p.test.settings { num_ostreams = int_of_unsigned (unit_atoi env.junk arg) })) in
    set_bandwidth-IsLimited env (split_slash arg).0 (split_slash arg).1 q h
parse_option-IsLimited env opt_bandwidth arg p h =
    set_bandwidth-IsLimited env (split_slash arg).0 (split_slash arg).1 p h
parse_option-IsLimited env opt_time arg p h = check-Holds IsLimited _ ieduration _ (λ b.
    let (_, s, m, w, o, t, r, i, e) = h in (at_most max_time (atoi arg) b, s, m, w, o, t, r, i, e))
parse_option-IsLimited env opt_bytes arg p h = h
parse_option-IsLimited env opt_blockcount arg p h = h
parse_option-IsLimited env opt_length arg p h = h
parse_option-IsLimited env opt_parallel arg p h = check-Holds IsLimited _ ienumstreams _ (λ b.
    let (d, _, m, w, o, t, r, i, e) = h in
    (d, at_most max_streams (atoi arg) b, m, w, o, t, r, i, e))
parse_option-IsLimited env opt_reverse arg p h = h
parse_option-IsLimited env opt_window arg p h = check-Holds IsLimited _ iebufsize _ (λ b.
    let (d, s, m, _, o, t, r, i, e) = h in (d, s, m, at_most max_tcp_buffer _ b, o, t, r, i, e))
parse_option-IsLimited env opt_bind arg p h = h
parse_option-IsLimited env opt_client_port arg p h = h
parse_option-IsLimited env opt_set_mss arg p h = check-Holds IsLimited _ iemss _ (λ b.
    let (d, s, _, w, o, t, r, i, e) = h in (d, s, at_most max_mss (atoi arg) b, w, o, t, r, i, e))
parse_option-IsLimited env opt_no_delay arg p h = h
parse_option-IsLimited env opt_version4 arg p h = h
parse_option-IsLimited env opt_version6 arg p h = h
parse_option-IsLimited env opt_tos arg p h = set_tos-IsLimited (strtol_int arg) p h
parse_option-IsLimited env opt_flowlabel arg p h = tt
parse_option-IsLimited env opt_xbind arg p h = check-Holds IsLimited _ iesetsctpbindx _ (λ b. h)
parse_option-IsLimited env opt_zerocopy arg p h = h
parse_option-IsLimited env opt_omit arg p h = check-Holds IsLimited _ ieomit _ (λ b.
    let (d, s, m, w, _, t, r, i, e) = h in
    (d, s, m, w, in_range (pos 0) (pos 60) (atoi arg) b, t, r, i, e))
parse_option-IsLimited env opt_file arg p h = h
parse_option-IsLimited env opt_affinity arg p h = tt
parse_option-IsLimited env opt_title arg p h = h
parse_option-IsLimited env opt_congestion arg p h = tt
parse_option-IsLimited env opt_debug arg p h = h
parse_option-IsLimited env opt_pidfile arg p h = h
parse_option-IsLimited env opt_logfile arg p h = h
parse_option-IsLimited env opt_get_server_output arg p h = h
parse_option-IsLimited env opt_udp_counters_64bit arg p h = h
parse_option-IsLimited env opt_no_fq_socket_pacing arg p h = tt
parse_option-IsLimited env opt_tmp_path arg p h = h
parse_option-IsLimited env opt_help arg p h = exit-Holds env.exec 1 (ok p) h
parse_option-IsLimited env invalid arg p h = exit-Holds env.exec 1 (ok p) h

pub parse_options-IsLimited :
    (env : Env) (options : List (Flag × List ℕ)) (p : Parsing)
    → IsLimited p.test
    → Holds IsLimited (parse_options env options p)
unfolding parse_options
parse_options-IsLimited env [] p h = h
parse_options-IsLimited env ((f, arg) ∷ rest) p h =
    >>=-Holds (parse_option env f arg p) (parse_options env rest)
      (parse_option-IsLimited env f arg p h) (λ q. parse_options-IsLimited env rest q)
