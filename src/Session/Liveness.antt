-- ===== src/Session/Liveness.antt =====
-- The end of a test of iperf3: the phases from TEST_RUNNING to TEST_END.
use i_perf_demo_runtime.Common.{
  Bool, Option, [], arith, false, if◌then◌else◌, leb, not, true, ℕ, ◌&&◌, ◌==◌, ◌||◌, ◌∷◌, ◌≡◌,
}
use i_perf_demo_runtime.Common.Int.{is_zero, ℤ}
use i_perf_demo_runtime.Config.{IErrno, IperfTest, test_running}
use i_perf_demo_runtime.Params.{Object}
use i_perf_demo_runtime.Session.{
  Event, World, call, done_, iperf_set_send_state, receives_data, runs_timers, sends_data, ◌then◌,
}
use i_perf_demo_runtime.Session.Running.{
  check_end, end_test, hear, is_over, run_timers, transfer_data, work,
}
use i_perf_demo_runtime.Session.Together.{Chance, client_ends, ends_test, move}
use i_perf_demo_runtime.Session.Phases.{Always, any, goes_on, if-Leads, joint, side}
use i_perf_demo_runtime.Session.Closing.{ending}

-- The test has a duration, or a number of bytes or blocks, at which it ends.
abbrev pub CanEnd : IperfTest → Type 0
CanEnd t =
    (not (is_zero t.duration) || (not (t.settings.bytes == 0) || not (t.settings.blocks == 0)))
    ≡ true

-- The timer of the test fires when all is sent.
abbrev pub all_sent : IperfTest → Chance
all_sent t = record any { amount = (t.settings.bytes, t.settings.blocks); fires = true }

over_lem :
    (d x y : Bool) (b k : ℕ)
    → (d || (x || y)) ≡ true
    → (d && true || (x && leb b b || y && leb k k)) ≡ true
over_lem d x y b k h = ground arith

-- What the client has moved, and then the timers, in a round of the running test.
abbrev pub worked : Chance → IperfTest → IperfTest
worked c t = record t {
  bytes_sent = c.amount.0;
  blocks_sent = c.amount.1;
  done = if c.fires then true else t.done;
}

-- The client's world behind that part of a round; `e` is the transfer.
abbrev pub worked_world : Event → Chance → IperfTest → Option IErrno → ℕ → World
worked_world e c t errno a = record {
  test = record (worked c t) { state = test_running; role = b'c' };
  errno = errno;
  answers = [];
  events = e ∷ runs_timers ∷ [];
  streams_accepted = a;
}

pub is_over_lem :
    (e : Event) (t : IperfTest) (errno : Option IErrno) (a : ℕ)
    → CanEnd t
    → is_over false (worked_world e (all_sent t) t errno a) ≡ true
unfolding is_over
is_over_lem e t errno a h =
    over_lem (not (is_zero t.duration)) (not (t.settings.bytes == 0)) (not (t.settings.blocks == 0))
      t.settings.bytes t.settings.blocks h

module _ (socket : ℤ) (object : Object) (listening : ℤ) where
  -- The test runs on the client, with nothing to read; the direction is given.
  sending_towards :
      (r : Bool) (tc ts : IperfTest) (ec es : Option IErrno) (ac as_ conns : ℕ)
      → CanEnd tc
      → Always socket object listening (
          joint
            (side b'c' test_running (record tc { reverse = r }) ec ac)
            (side b's' test_running ts es as_)
            []
            []
            conns)
  unfolding move hear work transfer_data check_end end_test run_timers iperf_set_send_state call
  sending_towards true t ts ec es ac as_ conns h =
      let tc : IperfTest = record t { reverse = true } in
      let y =
        joint (side b'c' test_running tc ec ac) (side b's' test_running ts es as_) [] [] conns in
      goes_on socket object listening y
        (client_ends, all_sent tc, rw (is_over_lem receives_data tc ec ac h) tt) (λ c. tt) (λ c. tt)
        (λ c. tt) (λ c. tt)
        (λ c.
          let w = worked_world receives_data c tc ec ac in
          if-Leads (Always socket object listening) (ends_test socket object listening y)
            (is_over c.omitting w) (end_test w) (done_ w)
            (ending socket object listening (record (worked c tc) { done = true }) ts ec es ac as_
              _)
            tt)
  sending_towards false t ts ec es ac as_ conns h =
      let tc : IperfTest = record t { reverse = false } in
      let y =
        joint (side b'c' test_running tc ec ac) (side b's' test_running ts es as_) [] [] conns in
      goes_on socket object listening y
        (client_ends, all_sent tc, rw (is_over_lem sends_data tc ec ac h) tt) (λ c. tt) (λ c. tt)
        (λ c. tt) (λ c. tt)
        (λ c.
          let w = worked_world sends_data c tc ec ac in
          if-Leads (Always socket object listening) (ends_test socket object listening y)
            (is_over c.omitting w) (end_test w) (done_ w)
            (ending socket object listening (record (worked c tc) { done = true }) ts ec es ac as_
              _)
            tt)

  pub sending :
      (tc ts : IperfTest) (ec es : Option IErrno) (ac as_ conns : ℕ)
      → CanEnd tc
      → Always socket object listening
          (joint (side b'c' test_running tc ec ac) (side b's' test_running ts es as_) [] [] conns)
  sending tc ts ec es ac as_ conns h = sending_towards tc.reverse tc ts ec es ac as_ conns h
