-- ===== src/Session/Running.antt =====
-- `iperf_connect` and the loop of `iperf_run_client` of iperf_client_api.c. What `select` and the calls
-- of a round give is the input of the round. That streams are set to block or not is left out.
use i_perf_demo_runtime.Common.{
  Bool, List, Option, [], false, if◌then◌else◌, leb, none, not, some, true, ℕ, ◌&&◌, ◌==◌, ◌||◌,
  ◌∷◌,
}
use i_perf_demo_runtime.Common.Int.{is_minus_one, is_zero, ltb_ℤ, pos, ℤ}
use i_perf_demo_runtime.Config.{
  IErrno, State, ieaffinity, ieconnect, ieselect, iesendcookie, iestreamread, iestreamwrite,
  test_end,
}
use i_perf_demo_runtime.Session.{
  Event, Step, World, call, done_, failed, iperf_set_send_state, note, receives_data, reports_stats,
  runs_timers, sends_cookie, sends_data, set_errno, ◌then◌,
}
use i_perf_demo_runtime.Session.Client.{Reply, iperf_handle_message_client}
use i_perf_demo_runtime.Session.Serving.{
  Selected, Served, broken_off, finished, interrupted, is_iperf_done, is_test_running, ready,
  select_failed, served, timed_out, waiting,
}

-- `transfer` is what `iperf_send` or `iperf_recv` makes of `bytes_sent` and `blocks_sent`, or a
-- failure; `timer_fires` says that `test_timer_proc` is among the timers that are due.
pub record Turn : Type 0 where
  pub selected : Selected
  pub ctrl_ready : Bool
  pub reply : Reply
  pub create_errno : IErrno
  pub server_errno : Option IErrno
  pub server_system : Option ℕ
  pub transfer : Option (ℕ × ℕ)
  pub timer_fires : Bool
  pub omitting : Bool

abbrev pub is_test_end : State → Bool
is_test_end test_end = true
is_test_end _ = false

unfoldable pub hear : Turn → World → Step
hear r w =
    if r.ctrl_ready
    then iperf_handle_message_client r.create_errno r.server_errno r.server_system r.reply w
    else done_ w

abbrev pub moved : Option (ℕ × ℕ) → IErrno → Event → World → Step
moved none e event w = failed (set_errno e w)
moved (some (bytes, blocks)) e event w =
    done_
      (note event (record w { test = record w.test { bytes_sent = bytes; blocks_sent = blocks } }))

unfoldable pub transfer_data : Turn → World → Step
transfer_data r w =
    if w.test.reverse
    then moved r.transfer iestreamread receives_data w
    else moved r.transfer iestreamwrite sends_data w

unfoldable pub run_timers : Bool → World → World
run_timers fires w =
    note runs_timers
      (record w { test = record w.test { done = if fires then true else w.test.done } })

-- The condition for TEST_END.
unfoldable pub is_over : Bool → World → Bool
is_over omitting w =
    not omitting
    && (not (is_zero w.test.duration) && w.test.done
        || (not (w.test.settings.bytes == 0) && leb w.test.settings.bytes w.test.bytes_sent
            || not (w.test.settings.blocks == 0) && leb w.test.settings.blocks w.test.blocks_sent))

unfoldable pub end_test : World → Step
end_test w =
    iperf_set_send_state test_end
      (note reports_stats (record w { test = record w.test { done = true } }))

unfoldable pub check_end : Bool → World → Step
check_end omitting w = if is_over omitting w then end_test w else done_ w

-- The part of a round behind the message; a reversed test is drained after TEST_END.
unfoldable pub work : Turn → World → Step
work r w =
    if is_test_running w.test.state
    then (transfer_data r w then λ v. check_end r.omitting (run_timers r.timer_fires v))
    else if is_test_end w.test.state && w.test.reverse
    then moved r.transfer iestreamread receives_data w
    else done_ w

-- The body of the loop.
unfoldable pub client_round : Turn → World → Step
client_round r w = elim r.selected [
  | select_failed ↦ failed (set_errno ieselect w)
  | ready ↦ (hear r w then work r)
  | interrupted ↦ work r w
  | timed_out ↦ work r w
]

-- The loop stands before its test.
unfoldable pub client_loop : List Turn → World → Served
unfolding client_round
client_loop [] w = if is_iperf_done w.test.state then finished w else waiting w
client_loop (r ∷ rs) w =
    if is_iperf_done w.test.state then finished w else served (client_round r w) (client_loop rs)

-- `dialled` is the socket that `netdial` gives; the answer is for the write of the cookie.
unfoldable pub iperf_connect : Option ℤ → World → Step
iperf_connect dialled w =
    let sck = if ltb_ℤ w.test.ctrl_sck (pos 0) then dialled else some w.test.ctrl_sck in
    elim sck [
      | none ↦ failed (set_errno ieconnect w)
      | some s ↦ call iesendcookie sends_cookie (record w { test = record w.test { ctrl_sck = s } })
    ]

unfoldable pub iperf_run_client : Option ℤ → List Turn → World → Served
unfolding client_loop iperf_connect
iperf_run_client dialled rs w =
    if is_minus_one w.test.affinity
    then served (iperf_connect dialled w) (client_loop rs)
    else broken_off (set_errno ieaffinity w)
