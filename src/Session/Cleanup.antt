-- ===== src/Session/Cleanup.antt =====
-- How `iperf_run_server` of iperf_server_api.c and `iperf_run_client` of iperf_client_api.c end.
use i_perf_demo_runtime.Common.{
  Bool, Bool-cases, List, [], false, if◌then◌else◌, inl, inr, refl, true, ◌∷◌, ◌≡◌, ◌⊎◌,
}
use i_perf_demo_runtime.Common.Int.{is_minus_one}
use i_perf_demo_runtime.Config.{ieaffinity, ielisten, iperf_start}
use i_perf_demo_runtime.Session.{
  Event, Step, World, answer, call, cleans_up, crashed, done_, failed, later, listens, note,
  set_errno, set_state, ◌then◌,
}
use i_perf_demo_runtime.Session.Errors.{HasErrno, called}
use i_perf_demo_runtime.Session.Serving.{
  Round, Served, after_loop, broken_off, clear_affinity, crashed_, finished, iperf_run_server,
  is_iperf_done, json_failed, listen_and_serve, served, server_loop, server_round, waiting,
  with_json,
}
use i_perf_demo_runtime.Session.Rounds.{Cleans, IsClean, server_round-Cleans}

-- How the loop ends.
abbrev LoopEnds : Served → Type 0
LoopEnds (finished w) = is_iperf_done w.test.state ≡ true
LoopEnds (waiting w) = Unit
LoopEnds (broken_off w) = HasErrno w × IsClean w
LoopEnds (json_failed w) = ⊥
LoopEnds crashed_ = Unit

served-LoopEnds :
    (s : Step) (f : World → Served)
    → Cleans s
    → ((w : World) → LoopEnds (f w))
    → LoopEnds (served s f)
served-LoopEnds (done_ w) f h k = k w
served-LoopEnds (failed w) f h k = h
served-LoopEnds crashed f h k = tt

server_loop-LoopEnds : (rs : List Round) (w : World) → LoopEnds (server_loop rs w)
unfolding server_loop
server_loop-LoopEnds [] w = elim (Bool-cases (is_iperf_done w.test.state)) [
  | inl e ↦ rw e e
  | inr e ↦ rw e tt
]
server_loop-LoopEnds (r ∷ rs) w = elim (Bool-cases (is_iperf_done w.test.state)) [
  | inl e ↦ rw e e
  | inr e ↦ rw e (
      served-LoopEnds (server_round r w) (server_loop rs) (server_round-Cleans r w)
        (server_loop-LoopEnds rs))
]

-- How `iperf_run_server` ends on a server whose events were `before`.
abbrev pub ServerEnds : List Event → Served → Type 0
ServerEnds before (finished w) = (is_iperf_done w.test.state ≡ true) × IsClean w
ServerEnds before (waiting w) = Unit
ServerEnds before (broken_off w) = HasErrno w × (IsClean w ⊎ (w.events ≡ before))
ServerEnds before (json_failed w) = (w.test.json_output ≡ true) × (IsClean w ⊎ (w.events ≡ before))
ServerEnds before crashed_ = Unit

if-ServerEnds :
    (before : List Event) (b : Bool) (s u : Served)
    → (b ≡ true → ServerEnds before s)
    → ServerEnds before u
    → ServerEnds before (if b then s else u)
if-ServerEnds before true s u h k = h refl
if-ServerEnds before false s u h k = k

with_json-ServerEnds :
    (before : List Event) (f : World → Served) (w : World)
    → IsClean w ⊎ (w.events ≡ before)
    → ((answers : List Bool) → ServerEnds before (f (record w { answers = answers })))
    → ServerEnds before (with_json f w)
unfolding with_json
with_json-ServerEnds before f w c h =
    let v = record w { answers = later w.answers } in
    if-ServerEnds before w.test.json_output (if answer w.answers then f v else json_failed v) (f w)
      (λ j.
        if-ServerEnds before (answer w.answers) (f v) (json_failed v) (λ _. h (later w.answers))
          (j, c))
      (h w.answers)

clear-ServerEnds :
    (before : List Event) (w : World)
    → is_iperf_done w.test.state ≡ true
    → IsClean w
    → ServerEnds before (clear_affinity w)
clear-ServerEnds before w d c = elim (Bool-cases (is_minus_one w.test.server_affinity)) [
  | inl e ↦ rw e (d, c)
  | inr e ↦ rw e ((ieaffinity, refl), inl c)
]

after_loop-ServerEnds :
    (before : List Event) (s : Served) → LoopEnds s → ServerEnds before (after_loop s)
after_loop-ServerEnds before (finished w) h =
    with_json-ServerEnds before clear_affinity (note cleans_up w) (inl (w.events, refl))
      (λ a. clear-ServerEnds before (record (note cleans_up w) { answers = a }) h (w.events, refl))
after_loop-ServerEnds before (waiting w) h = tt
after_loop-ServerEnds before (broken_off w) (h, c) = (h, inl c)
after_loop-ServerEnds before (json_failed w) h = absurd h
after_loop-ServerEnds before crashed_ h = tt

listened :
    (b : Bool) (w : World) (f : World → Served)
    → ((v : World) → LoopEnds (f v))
    → ServerEnds w.events (
        after_loop (
          served
            (if b
              then done_ (called listens w)
              else failed (set_errno ielisten (record w { answers = later w.answers })))
            f))
listened true w f h = after_loop-ServerEnds w.events (f (called listens w)) (h (called listens w))
listened false w f h = ((ielisten, refl), inr refl)

-- Whatever happens in its rounds, `iperf_run_server` leaves its loop only in IPERF_DONE. Where it
-- returns 0, `cleanup_server` was its last act. Where it returns an error, `i_errno` is set, unless the
-- error is one of the JSON output, which is then wanted; and `cleanup_server` was its last act too,
-- unless it failed before it listened, with nothing done.
pub iperf_run_server-Ends :
    (rs : List Round) (w : World) → ServerEnds w.events (iperf_run_server rs w)
unfolding iperf_run_server call
iperf_run_server-Ends rs w = elim (Bool-cases (is_minus_one w.test.affinity)) [
  | inl e ↦ rw e (
      with_json-ServerEnds w.events (listen_and_serve rs) w (inr refl) (λ a.
        listened (answer a) (record w { answers = a }) _
          (λ v.
            server_loop-LoopEnds rs (record (set_state iperf_start v) { streams_accepted = 0 }))))
  | inr e ↦ rw e ((ieaffinity, refl), inr refl)
]
