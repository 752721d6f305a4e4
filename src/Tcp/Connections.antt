-- ===== src/Tcp/Connections.antt =====
-- What the functions of iperf_tcp.c hold when they return.
use i_perf_demo_runtime.Common.{
  Bool, List, Option, [], ap, false, none, not, refl, some, true, ℕ, ◌++◌, ◌∷◌, ◌≡◌,
}
use i_perf_demo_runtime.Common.Int.{is_zero}
use i_perf_demo_runtime.Config.{IErrno, IperfTest, Text}
use i_perf_demo_runtime.Net.Sockets.{
  Made, Resource, System, give_back, give_back_all, hold, local_addresses, local_too,
  server_addresses, socket,
}
use i_perf_demo_runtime.Net.Dialling.{Holds, ask-Holds, ask_if-Holds, held_for, socket_same}
use i_perf_demo_runtime.Tcp.{
  iperf_tcp_connect, set_options, tcp_connect_bind, tcp_connect_options, tcp_connect_socket,
  tcp_send_cookie,
}

-- After a failure: what is held, and `i_errno`.
abbrev pub Reports : List Resource → List Resource → Option IErrno → Type 0
Reports before held errno = (held ≡ before) × ((e : IErrno) × (errno ≡ some e))

pub set_options-Holds :
    (t : IperfTest) (s : ℕ) (result : List Resource)
    (after : List Resource → Option IErrno → Type 0) (held : List Resource) (rs : List Resource)
    (next : System → Made) (o : System)
    → o.held ≡ held
    → ((e : IErrno) → after (give_back_all rs held) (some e))
    → ((p : System) → p.held ≡ held → Holds s result after (next p))
    → Holds s result after (set_options t rs next o)
unfolding set_options
set_options-Holds t s result R held rs next o h b k =
    let sized = not (is_zero t.settings.socket_bufsize) in
    ask_if-Holds s result R held rs _ _ t.no_delay o h (b _) (λ p q.
      ask_if-Holds s result R held rs _ _ (not (is_zero t.settings.mss)) p q (b _) (λ p q.
        ask_if-Holds s result R held rs _ _ sized p q (b _) (λ p q.
          ask_if-Holds s result R held rs _ _ sized p q (b _)
            (λ p q. ask_if-Holds s result R held rs _ _ t.debug p q (b _) k))))

tcp_connect_options-Holds :
    (t : IperfTest) (s : ℕ) (o : System) (before : List Resource)
    → o.held ≡ socket s ∷ server_addresses ∷ before
    → Holds s (socket s ∷ before) (Reports before) (tcp_connect_options t s o)
unfolding tcp_connect_options tcp_send_cookie
tcp_connect_options-Holds t s o before h =
    let R = Reports before in
    let held = socket s ∷ server_addresses ∷ before in
    let b : give_back_all (socket s ∷ server_addresses ∷ []) held ≡ before =
      rw (socket_same s) refl in
    set_options-Holds t s (socket s ∷ before) R held _ _ o h (λ e. (b, (e, refl)))
      (λ p q.
        ask-Holds s (socket s ∷ before) R held _ _ _ p q (b, (_, refl))
          (λ p q.
            ask-Holds s (socket s ∷ before) R (socket s ∷ before) _ _ _
              (give_back server_addresses p) (rw q refl) (rw (socket_same s) refl, (_, refl))
              (λ p q. record { ending = (refl, q) })))

tcp_connect_bind-Holds :
    (local : Bool) (t : IperfTest) (s : ℕ) (o : System) (before : List Resource)
    → o.held ≡ socket s ∷ server_addresses ∷ held_for local before
    → Holds s (socket s ∷ before) (Reports before) (tcp_connect_bind local t s o)
unfolding tcp_connect_bind
tcp_connect_bind-Holds true t s o before h =
    ask-Holds s (socket s ∷ before) (Reports before) _ _ _ _ o h
      (rw (socket_same s) refl, (_, refl))
      (λ p q. tcp_connect_options-Holds t s (give_back local_addresses p) before (rw q refl))
tcp_connect_bind-Holds false t s o before h = tcp_connect_options-Holds t s o before h

give_back_local :
    (local : Bool) (before : List Resource)
    → give_back_all (local_too local) (held_for local before) ≡ before
give_back_local true before = refl
give_back_local false before = refl

give_back_both :
    (local : Bool) (before : List Resource)
    → give_back_all
        (local_too local ++ server_addresses ∷ [])
        (server_addresses ∷ held_for local before)
      ≡ before
give_back_both true before = refl
give_back_both false before = refl

tcp_connect_socket-Holds :
    (local : Bool) (t : IperfTest) (s : ℕ) (o : System) (before : List Resource)
    → o.held ≡ held_for local before
    → Holds s (socket s ∷ before) (Reports before) (tcp_connect_socket local t s o)
unfolding tcp_connect_socket
tcp_connect_socket-Holds local t s o before h =
    ask-Holds s (socket s ∷ before) (Reports before) _ _ _ _ o h
      (give_back_local local before, (_, refl))
      (λ p q.
        ask-Holds s (socket s ∷ before) (Reports before) _ _ _ _ (hold server_addresses p)
          (ap (◌∷◌ server_addresses) q) (give_back_both local before, (_, refl))
          (λ p q.
            tcp_connect_bind-Holds local t s (hold (socket s) p) before (ap (◌∷◌ (socket s)) q)))

-- `iperf_tcp_connect` gives the socket and holds nothing else, or fails, holds nothing, and has set
-- `i_errno`: whichever of its calls fails.
pub iperf_tcp_connect-Holds :
    (t : IperfTest) (s : ℕ) (o : System)
    → Holds s (socket s ∷ o.held) (Reports o.held) (iperf_tcp_connect t s o)
unfolding iperf_tcp_connect
iperf_tcp_connect-Holds t s o = go t.bind_address
  where
    go :
        (b : Option Text)
        → Holds s
            (socket s ∷ o.held)
            (Reports o.held)
            (iperf_tcp_connect (record t { bind_address = b }) s o)
    go none = tcp_connect_socket-Holds false _ s o o.held refl
    go (some a) =
        ask-Holds s (socket s ∷ o.held) (Reports o.held) _ _ _ _ o refl (refl, (_, refl))
          (λ p q.
            tcp_connect_socket-Holds true _ s (hold local_addresses p) o.held
              (ap (◌∷◌ local_addresses) q))
