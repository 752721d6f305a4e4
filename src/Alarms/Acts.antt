-- ===== src/Alarms/Acts.antt =====
-- What happens to the timers of a test, in any order.
use i_perf_demo_runtime.Common.{List, Option, [], ℕ, ◌∷◌}
use i_perf_demo_runtime.Timer.{Timers, Timeval}
use i_perf_demo_runtime.Timer.Order.{IsNormal}
use i_perf_demo_runtime.Timer.Invariant.{IsFresh}
use i_perf_demo_runtime.Alarms.{
  Alarms, cleanup_timers, create_client_timers, create_omit_timer, create_server_timers, fire_alarm,
  free_send_timers, iperf_create_send_timers, omit_timer, release_timers, reporter_timer,
  send_timer, stats_timer, test_timer,
}
use i_perf_demo_runtime.Alarms.Held.{Held}
use i_perf_demo_runtime.Alarms.Releasing.{Held-cancel_at}
use i_perf_demo_runtime.Alarms.Firing.{fire_alarm-Held}
use i_perf_demo_runtime.Alarms.Creating.{
  IsClock, create_client_timers-Keeps, create_omit_timer-Keeps, create_server_timers-Keeps,
  iperf_create_send_timers-Keeps,
}

-- The functions that create timers, with what the clock says; a timer at an address that fires; the
-- end of a server's test; and the release of all timers of a test.
pub data Act : Type 0 where
  client_starts server_starts omission_starts : Option Timeval → Act
  sending_starts : Option Timeval → List ℕ → Act
  fires : Timeval → ℕ → Act
  ends : Act
  releases : List ℕ → Act

abbrev pub IsTimely : Act → Type 0
IsTimely (client_starts now) = IsClock now
IsTimely (server_starts now) = IsClock now
IsTimely (omission_starts now) = IsClock now
IsTimely (sending_starts now ns) = IsClock now
IsTimely (fires now x) = IsNormal now
IsTimely ends = Unit
IsTimely (releases ns) = Unit

abbrev pub AllTimely : List Act → Type 0
AllTimely [] = Unit
AllTimely (c ∷ cs) = IsTimely c × AllTimely cs

free_send_timers-Held : (ns : List ℕ) (a : Alarms) → Held a → Held (free_send_timers ns a)
unfolding free_send_timers
free_send_timers-Held [] a h = h
free_send_timers-Held (n ∷ ns) a h = free_send_timers-Held ns _ (Held-cancel_at (send_timer n) a h)

module _ (malloc : Timers → Option ℕ) where
  unfoldable pub act : Act → Alarms → Alarms
  act (client_starts now) a = (create_client_timers malloc now a).1
  act (server_starts now) a = (create_server_timers malloc now a).1
  act (omission_starts now) a = (create_omit_timer malloc now a).1
  act (sending_starts now ns) a = (iperf_create_send_timers malloc now ns a).1
  act (fires now x) a = fire_alarm now x a
  act ends a = cleanup_timers a
  act (releases ns) a = release_timers ns a

  unfoldable pub acts : List Act → Alarms → Alarms
  unfolding act
  acts [] a = a
  acts (c ∷ cs) a = acts cs (act c a)

  module _ (fresh : (s : Timers) → IsFresh (malloc s) s) where
    act-Held : (c : Act) (a : Alarms) → IsTimely c → Held a → Held (act c a)
    unfolding act
    act-Held (client_starts now) a t h = create_client_timers-Keeps malloc fresh now a t h
    act-Held (server_starts now) a t h = create_server_timers-Keeps malloc fresh now a t h
    act-Held (omission_starts now) a t h = create_omit_timer-Keeps malloc fresh now a t h
    act-Held (sending_starts now ns) a t h =
        iperf_create_send_timers-Keeps malloc fresh now ns a t h
    act-Held (fires now x) a t h = fire_alarm-Held now x a t h
    act-Held ends a t h =
        unfold cleanup_timers in
        Held-cancel_at omit_timer _
          (Held-cancel_at reporter_timer _ (Held-cancel_at stats_timer a h))
    act-Held (releases ns) a t h =
        unfold release_timers in
        Held-cancel_at reporter_timer _ (
          Held-cancel_at stats_timer _ (
            Held-cancel_at test_timer _
              (Held-cancel_at omit_timer _ (free_send_timers-Held ns a h))))

    -- Whatever functions create timers of a test, whether they succeed or not, whichever timers fire,
    -- and however often the test ends or its timers are released: if the clock gives normal times and
    -- `malloc` no struct in use, then no timer that is not on the active list is ever cancelled or
    -- reset, the queue stays well formed, and every pointer of the test is NULL or leads to a running
    -- timer with its own proc.
    pub acts-Held : (cs : List Act) (a : Alarms) → AllTimely cs → Held a → Held (acts cs a)
    unfolding acts
    acts-Held [] a t h = h
    acts-Held (c ∷ cs) a (t, ts) h = acts-Held cs (act c a) ts (act-Held c a t h)
