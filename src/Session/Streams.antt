-- ===== src/Session/Streams.antt =====
-- The streams of a test of iperf3, which the server accepts one by one.
use i_perf_demo_runtime.Common.{
  Bool, Option, [], arith, false, refl, suc, true, zero, ℕ, ◌+◌, ◌<◌, ◌==◌, ◌∷◌, ◌≡◌,
}
use i_perf_demo_runtime.Common.Int.{pos, ℤ}
use i_perf_demo_runtime.Config.{IErrno, IperfTest, create_streams}
use i_perf_demo_runtime.Params.{Object}
use i_perf_demo_runtime.Session.{World, accepts_stream, call, creates_stream, done_, ◌then◌}
use i_perf_demo_runtime.Session.Together.{Chance, flush, move, quiet, round_of, server_takes_stream}
use i_perf_demo_runtime.Session.Phases.{Always, any, goes_on, halfway, joint, side}
use i_perf_demo_runtime.Session.Serving.{
  accept_stream, serve_control, serve_data, serve_listener, serve_ready, serve_streams, timers_run,
  with_cleanup,
}
use i_perf_demo_runtime.Session.Server.{start_test}
use i_perf_demo_runtime.Session.Liveness.{CanEnd}
use i_perf_demo_runtime.Session.Beginning.{starts}

-- A stream is accepted while the server has one less, or fewer, than the client makes.
abbrev pub stream_world : IperfTest → ℕ → Option IErrno → ℕ → World
stream_world ts n es a = side b's' create_streams (record ts { num_streams = pos n }) es a

abbrev accepted_world : IperfTest → ℕ → Option IErrno → ℕ → World
accepted_world ts n es a = record (stream_world ts n es (a + 1)) {
  events = accepts_stream ∷ creates_stream ∷ [];
}

module _ (socket : ℤ) (object : Object) (listening : ℤ) where
  serve_last :
      (c : Chance) (ts : IperfTest) (es : Option IErrno) (a n : ℕ)
      → a + 1 ≡ n
      → serve_ready
          (record (round_of socket object listening c) { prot_ready = true })
          (stream_world ts n es a)
        ≡ (start_test (accepted_world ts n es a) then serve_data)
  unfolding serve_ready serve_listener serve_control serve_streams accept_stream call
  serve_last c ts es a n e = let q : (a + 1 == n) ≡ true = ground arith in rw q refl

  serve_another :
      (c : Chance) (ts : IperfTest) (es : Option IErrno) (a n : ℕ)
      → a + 1 < n
      → serve_ready
          (record (round_of socket object listening c) { prot_ready = true })
          (stream_world ts n es a)
        ≡ done_ (accepted_world ts n es a)
  unfolding serve_ready serve_listener serve_control serve_streams serve_data accept_stream call
  serve_another c ts es a n e = let q : (a + 1 == n) ≡ false = ground arith in rw q refl

  last_stream :
      (tc ts : IperfTest) (ec es : Option IErrno) (ac a n : ℕ)
      → CanEnd tc
      → a + 1 ≡ n
      → Always socket object listening
          (joint (side b'c' create_streams tc ec ac) (stream_world ts n es a) [] [] 1)
  unfolding move
  last_stream tc ts ec es ac a n h e =
      let all = λ (c : Chance).
        starts socket object listening c.no_wait ts.reverse tc (record ts { num_streams = pos n })
          ec es ac a h in
      goes_on socket object listening
        (joint (side b'c' create_streams tc ec ac) (stream_world ts n es a) [] [] 1)
        (server_takes_stream, any, rw (serve_last any ts es a n e) (all any).0) (λ c. tt) (λ c. tt)
        (λ c. rw (serve_last c ts es a n e) (all c).1) (λ c. tt) (λ c. tt)

  quiet_timers :
      (b : Bool) (k : ℕ) (tc ts : IperfTest) (ec es : Option IErrno) (ac a n : ℕ)
      → Always socket object listening
          (joint (side b'c' create_streams tc ec ac) (stream_world ts n es (a + 1)) [] [] k)
      → let w = timers_run b (accepted_world ts n es a) in
        Always socket object listening (
          halfway
            (side b'c' create_streams tc ec ac)
            (quiet w)
            []
            (flush w.events).0
            []
            (flush w.events).1
            k)
  unfolding timers_run
  quiet_timers true k tc ts ec es ac a n h = h
  quiet_timers false k tc ts ec es ac a n h = h

  -- The streams that are left to take.
  pub streams :
      (k : ℕ) (tc ts : IperfTest) (ec es : Option IErrno) (ac a n : ℕ)
      → CanEnd tc
      → a + suc k ≡ n
      → Always socket object listening
          (joint (side b'c' create_streams tc ec ac) (stream_world ts n es a) [] [] (suc k))
  unfolding move with_cleanup
  streams zero tc ts ec es ac a n h e = last_stream tc ts ec es ac a n h e
  streams (suc k) tc ts ec es ac a n h e =
      let next = streams k tc ts ec es ac (a + 1) n h (omega arith) in
      let y =
        joint (side b'c' create_streams tc ec ac) (stream_world ts n es a) [] [] (suc (suc k)) in
      goes_on socket object listening y
        (server_takes_stream, any, rw (serve_another any ts es a n (omega arith)) tt) (λ c. tt)
        (λ c. tt)
        (λ c.
          rw (serve_another c ts es a n (omega arith))
            (quiet_timers c.no_wait (suc k) tc ts ec es ac a n next))
        (λ c. tt) (λ c. tt)
