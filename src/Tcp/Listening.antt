-- ===== src/Tcp/Listening.antt =====
-- What a failing `iperf_tcp_listen` or `iperf_tcp_accept` leaves open.
use i_perf_demo_runtime.Common.{
  Bool, List, Option, [], ap, false, if◌then◌else◌, not, refl, some, suc, true, zero, ℕ, ◌∷◌, ◌≡◌,
}
use i_perf_demo_runtime.Common.Int.{is_zero}
use i_perf_demo_runtime.Config.{IErrno, IperfTest}
use i_perf_demo_runtime.Net.Sockets.{
  Made, Resource, System, ask, ask_if, first_answer, give_back, give_back_all, give_up, hold,
  other_answers, server_addresses, socket,
}
use i_perf_demo_runtime.Net.Dialling.{Holds, ask-Holds, socket_same}
use i_perf_demo_runtime.Tcp.{
  has_options, iperf_tcp_accept, iperf_tcp_listen, listens_v6only, set_options, tcp_check_cookie,
  tcp_listen_bind,
}

-- The first `k` calls all succeed.
abbrev pub all_succeed : ℕ → List Bool → Bool
all_succeed zero answers = true
all_succeed (suc k) answers =
    let more = all_succeed k (other_answers answers) in if first_answer answers then more else false

-- After a failure `i_errno` is set, and the socket is still held if the calls that close it did not
-- fail: `kept`.
abbrev pub LeavesOpen : ℕ → List Resource → Bool → List Resource → Option IErrno → Type 0
LeavesOpen s before kept held errno =
    (held ≡ (if kept then socket s ∷ before else before)) × ((e : IErrno) × (errno ≡ some e))

-- Of a function that closes the socket where one of the next `k` calls fails.
abbrev Tracks : ℕ → List Resource → List Resource → ℕ → System → Made → Type 0
Tracks s result before k o m = Holds s result (LeavesOpen s before (all_succeed k o.system)) m

ask-Tracks :
    (s : ℕ) (result before : List Resource) (k : ℕ) (held rs : List Resource) (e : IErrno)
    (good : System → Made) (o : System)
    → o.held ≡ held
    → give_back_all rs held ≡ before
    → ((p : System) → p.held ≡ held → Tracks s result before k p (good p))
    → Tracks s result before (suc k) o (ask rs (some e) good o)
unfolding ask give_up
ask-Tracks s result before k held rs e good o q b next =
    let p = record o { system = other_answers o.system } in
    elim (first_answer o.system)
      as (λ a.
        Holds s result
          (LeavesOpen s before (if a then all_succeed k (other_answers o.system) else false))
          (if a then good p else give_up rs (some e) p)) [
            | true ↦ next p q
            | false ↦ record { ending = (rw q b, (e, refl)) }
          ]

-- With a call that is made only where `wanted`, so many are left.
abbrev counting : Bool → ℕ → ℕ
counting wanted k = if wanted then suc k else k

ask_if-Tracks :
    (s : ℕ) (result before : List Resource) (k : ℕ) (held rs : List Resource) (e : IErrno)
    (good : System → Made) (wanted : Bool) (o : System)
    → o.held ≡ held
    → give_back_all rs held ≡ before
    → ((p : System) → p.held ≡ held → Tracks s result before k p (good p))
    → Tracks s result before (counting wanted k) o (ask_if wanted rs (some e) good o)
unfolding ask_if
ask_if-Tracks s result before k held rs e good true o q b next =
    ask-Tracks s result before k held rs e good o q b next
ask_if-Tracks s result before k held rs e good false o q b next = next o q

-- The calls that set the options, and `k` more.
abbrev pub option_calls : IperfTest → ℕ → ℕ
option_calls t k =
    let sized = not (is_zero t.settings.socket_bufsize) in
    counting t.no_delay (
      counting (not (is_zero t.settings.mss))
        (counting sized (counting sized (counting t.debug k))))

set_options-Tracks :
    (t : IperfTest) (s : ℕ) (result before : List Resource) (k : ℕ) (held rs : List Resource)
    (next : System → Made) (o : System)
    → o.held ≡ held
    → give_back_all rs held ≡ before
    → ((p : System) → p.held ≡ held → Tracks s result before k p (next p))
    → Tracks s result before (option_calls t k) o (set_options t rs next o)
unfolding set_options
set_options-Tracks t s result before k held rs next o h b go =
    let sized = not (is_zero t.settings.socket_bufsize) in
    ask_if-Tracks s result before _ held rs _ _ t.no_delay o h b (λ p q.
      ask_if-Tracks s result before _ held rs _ _ (not (is_zero t.settings.mss)) p q b (λ p q.
        ask_if-Tracks s result before _ held rs _ _ sized p q b (λ p q.
          ask_if-Tracks s result before _ held rs _ _ sized p q b
            (λ p q. ask_if-Tracks s result before k held rs _ _ t.debug p q b go))))

-- `setsockopt` for SO_REUSEADDR and, if wanted, for IPV6_V6ONLY, and `bind`.
abbrev pub bind_calls : Bool → ℕ → ℕ
bind_calls v6 domain = suc (counting (listens_v6only v6 domain) 1)

tcp_listen_bind-Tracks :
    (v6 : Bool) (domain s : ℕ) (o : System) (before : List Resource)
    → o.held ≡ socket s ∷ server_addresses ∷ before
    → Tracks s (socket s ∷ before) before (bind_calls v6 domain) o (tcp_listen_bind v6 domain s o)
unfolding tcp_listen_bind
tcp_listen_bind-Tracks v6 domain s o before h =
    let held = socket s ∷ server_addresses ∷ before in
    let b : give_back_all (socket s ∷ server_addresses ∷ []) held ≡ before =
      rw (socket_same s) refl in
    ask-Tracks s _ before _ held _ _ _ o h b (λ p q.
      ask_if-Tracks s _ before 1 held _ _ _ (listens_v6only v6 domain) p q b (λ p q.
        ask-Tracks s _ before 0 held _ _ _ p q b (λ p q.
          ask-Holds s _ (LeavesOpen s before true) (socket s ∷ before) _ _ _
            (give_back server_addresses p) (rw q refl) (refl, (_, refl))
            (λ p q. record { ending = (refl, q) }))))

-- The calls of `iperf_tcp_listen` before `listen`: `getaddrinfo` and `socket` are the first.
abbrev pub calls_before_listen : IperfTest → Bool → ℕ
calls_before_listen t v6 = suc (suc (option_calls t (bind_calls v6 t.settings.domain)))

-- Where `iperf_tcp_listen` has to make the listening socket again, it gives up the old one, and gives
-- the new one or fails with `i_errno` set. After a failure of a call before `listen` it holds nothing;
-- after one of `listen` itself it still holds the new socket.
pub iperf_tcp_listen-Holds :
    (t : IperfTest) (v6 : Bool) (listener s : ℕ) (o : System) (before : List Resource)
    → has_options t ≡ true
    → o.held ≡ socket listener ∷ before
    → Holds s
        (socket s ∷ before)
        (LeavesOpen s before (all_succeed (calls_before_listen t v6) o.system))
        (iperf_tcp_listen t v6 listener s o)
unfolding iperf_tcp_listen
iperf_tcp_listen-Holds t v6 listener s o before a h =
    let held = socket s ∷ server_addresses ∷ before in
    let result = socket s ∷ before in
    let binds = bind_calls v6 t.settings.domain in
    let b : give_back_all (socket s ∷ server_addresses ∷ []) held ≡ before =
      rw (socket_same s) refl in
    rw a (
      ask-Tracks s result before (suc (option_calls t binds)) before _ _ _
        (give_back (socket listener) o) (rw (h, socket_same listener) refl) refl
        (λ p q.
          ask-Tracks s result before (option_calls t binds) (server_addresses ∷ before) _ _ _
            (hold server_addresses p) (ap (◌∷◌ server_addresses) q) refl
            (λ p q.
              set_options-Tracks t s result before binds held _ _ (hold (socket s) p)
                (ap (◌∷◌ (socket s)) q) b
                (λ p q. tcp_listen_bind-Tracks v6 t.settings.domain s p before q))))

-- What `iperf_tcp_accept` holds on success: the socket, unless its cookie was another one.
abbrev pub held_stream : Bool → ℕ → List Resource → List Resource
held_stream true s before = socket s ∷ before
held_stream false s before = before

tcp_check_cookie-Holds :
    (right_cookie : Bool) (s : ℕ) (o : System) (before : List Resource)
    → o.held ≡ socket s ∷ before
    → Holds s
        (held_stream right_cookie s before)
        (LeavesOpen s before true)
        (tcp_check_cookie right_cookie s o)
unfolding tcp_check_cookie
tcp_check_cookie-Holds true s o before h = record { ending = (refl, h) }
tcp_check_cookie-Holds false s o before h =
    ask-Holds s before (LeavesOpen s before true) (socket s ∷ before) _ _ _ o h (refl, (_, refl))
      (λ p q. record { ending = (refl, rw (q, socket_same s) refl) })

-- `iperf_tcp_accept` gives the socket of a client with the right cookie, open, and of another one,
-- closed. Where it fails, `i_errno` is set, and it holds nothing if `accept` has failed, its first
-- call; if a later one has, the socket that it has accepted stays open.
pub iperf_tcp_accept-Holds :
    (right_cookie : Bool) (s : ℕ) (o : System)
    → Holds s
        (held_stream right_cookie s o.held)
        (LeavesOpen s o.held (all_succeed 1 o.system))
        (iperf_tcp_accept right_cookie s o)
unfolding iperf_tcp_accept
iperf_tcp_accept-Holds right_cookie s o = ask-Tracks s _ o.held 0 o.held _ _ _ o refl refl (λ p q.
    ask-Holds s _ (LeavesOpen s o.held true) (socket s ∷ o.held) _ _ _ (hold (socket s) p)
      (ap (◌∷◌ (socket s)) q) (refl, (_, refl))
      (λ p q. tcp_check_cookie-Holds right_cookie s p o.held q))
