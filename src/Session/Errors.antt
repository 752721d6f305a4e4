-- ===== src/Session/Errors.antt =====
-- `i_errno` in the steps of the control connection (iperf_api.c) that both sides share.
use i_perf_demo_runtime.Common.{
  Bool, List, Option, [], ap, false, if◌then◌else◌, none, refl, some, true, ◌++◌, ◌==◌, ◌∷◌, ◌≡◌,
}
use i_perf_demo_runtime.Common.Int.{ℤ}
use i_perf_demo_runtime.Config.{
  IErrno, IperfTest, State, create_streams, iectrlwrite, ierecvparams, ierecvresults, iesendmessage,
  iesendparams, iesendresults, server_error,
}
use i_perf_demo_runtime.Params.{Object, get_parameters}
use i_perf_demo_runtime.Session.{
  Event, Step, World, answer, call, crashed, done_, failed, iperf_exchange_parameters,
  iperf_exchange_results, iperf_set_send_state, later, listen, note, parameters_read,
  read_parameters, reads_results, refuse_parameters, sends_error, sends_parameters, sends_results,
  sends_state, set_errno, set_state, ◌then◌,
}

abbrev pub HasErrno : World → Type 0
HasErrno w = (e : IErrno) × (w.errno ≡ some e)

-- Where a step returns -1, `i_errno` is set; where it returns 0, `P` holds.
abbrev pub Explains : (World → Type 0) → Step → Type 0
Explains P (done_ w) = P w
Explains P (failed w) = HasErrno w
Explains P crashed = Unit

abbrev pub Any : World → Type 0
Any w = Unit

pub if-Explains :
    (P : World → Type 0) (b : Bool) (s t : Step)
    → Explains P s
    → Explains P t
    → Explains P (if b then s else t)
if-Explains P true s t h k = h
if-Explains P false s t h k = k

pub then-Explains :
    (P Q : World → Type 0) (s : Step) (f : World → Step)
    → Explains P s
    → ((w : World) → P w → Explains Q (f w))
    → Explains Q (s then f)
then-Explains P Q (done_ w) f h k = k w h
then-Explains P Q (failed w) f h k = h
then-Explains P Q crashed f h k = tt

abbrev pub called : Event → World → World
called event w = note event (record w { answers = later w.answers })

pub call-Explains :
    (P : World → Type 0) (e : IErrno) (event : Event) (w : World)
    → P (called event w)
    → Explains P (call e event w)
unfolding call
call-Explains P e event w h =
    if-Explains P (answer w.answers) (done_ (called event w))
      (failed (set_errno e (record w { answers = later w.answers }))) h (e, refl)

-- The same of a chain whose last part is a call, and of a call after which nothing is known.
pub then-call :
    (s : Step) (e : IErrno) (event : Event) → Explains Any s → Explains Any (s then call e event)
then-call s e event h =
    then-Explains Any Any s (call e event) h (λ w _. call-Explains Any e event w tt)

pub then-Explains-Any :
    (s : Step) (f : World → Step)
    → Explains Any s
    → ((w : World) → Explains Any (f w))
    → Explains Any (s then f)
then-Explains-Any s f h k = then-Explains Any Any s f h (λ w _. k w)

pub send_state-Explains : (s : State) (w : World) → Explains Any (iperf_set_send_state s w)
unfolding iperf_set_send_state
send_state-Explains s w = call-Explains Any iesendmessage (sends_state s) (set_state s w) tt

refuse_parameters-Explains : (w : World) → HasErrno w → Explains Any (refuse_parameters w)
unfolding refuse_parameters iperf_set_send_state
refuse_parameters-Explains w h =
    then-Explains HasErrno Any _ _
      (then-Explains HasErrno HasErrno _ (call iectrlwrite sends_error)
        (then-Explains HasErrno HasErrno _ (call iectrlwrite sends_error)
          (call-Explains HasErrno iesendmessage (sends_state server_error)
            (set_state server_error w) h)
          (λ v k. call-Explains HasErrno iectrlwrite sends_error v k))
        (λ v k. call-Explains HasErrno iectrlwrite sends_error v k))
      (λ v k. k)

listen-Explains : (e : IErrno) (s : ℤ) (w : World) → Explains Any (listen e s w)
unfolding listen
listen-Explains e s w =
    let v = record w { answers = later w.answers } in
    if-Explains Any (answer w.answers)
      (iperf_set_send_state create_streams
        (record v { test = record v.test { prot_listener = s } }))
      (refuse_parameters (set_errno e v))
      (send_state-Explains create_streams (record v { test = record v.test { prot_listener = s } }))
      (refuse_parameters-Explains (set_errno e v) (e, refl))

parsed-Explains : (t : Option IperfTest) (w : World) → Explains Any (parameters_read t w)
unfolding parameters_read
parsed-Explains none w = tt
parsed-Explains (some t) w = tt

read_parameters-Explains : (j : Option Object) (w : World) → Explains Any (read_parameters j w)
unfolding read_parameters
read_parameters-Explains none w = (ierecvparams, refl)
read_parameters-Explains (some j) w = parsed-Explains (get_parameters j w.test) w

pub exchange_parameters-Explains :
    (j : Option Object) (e : IErrno) (s : ℤ) (w : World)
    → Explains Any (iperf_exchange_parameters j e s w)
unfolding iperf_exchange_parameters
exchange_parameters-Explains j e s w =
    if-Explains Any (w.test.role == b'c') (call iesendparams sends_parameters w)
      (read_parameters j w then listen e s) (call-Explains Any iesendparams sends_parameters w tt)
      (then-Explains-Any (read_parameters j w) (listen e s) (read_parameters-Explains j w)
        (listen-Explains e s))

pub exchange_results-Explains : (w : World) → Explains Any (iperf_exchange_results w)
unfolding iperf_exchange_results
exchange_results-Explains w =
    if-Explains Any (w.test.role == b'c')
      (call iesendresults sends_results w then call ierecvresults reads_results)
      (call ierecvresults reads_results w then call iesendresults sends_results)
      (then-call (call iesendresults sends_results w) ierecvresults reads_results
        (call-Explains Any iesendresults sends_results w tt))
      (then-call (call ierecvresults reads_results w) iesendresults sends_results
        (call-Explains Any ierecvresults reads_results w tt))

pub four_events :
    (es : List Event) (a b c d : Event)
    → (((es ++ a ∷ []) ++ b ∷ []) ++ c ∷ []) ++ d ∷ [] ≡ es ++ a ∷ b ∷ c ∷ d ∷ []
four_events [] a b c d = refl
four_events (e ∷ es) a b c d = ap (◌∷◌ e) (four_events es a b c d)

pub three_events :
    (es : List Event) (a b c : Event) → ((es ++ a ∷ []) ++ b ∷ []) ++ c ∷ [] ≡ es ++ a ∷ b ∷ c ∷ []
three_events [] a b c = refl
three_events (e ∷ es) a b c = ap (◌∷◌ e) (three_events es a b c)
