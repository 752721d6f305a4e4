-- ===== src/Tcp.antt =====
-- `iperf_tcp_accept`, `iperf_tcp_listen` and `iperf_tcp_connect` of iperf-3.1.3/src/iperf_tcp.c, over
-- the functions of net.c.
pub mod Connections
pub mod Data
pub mod Listening
mod Tests
use i_perf_demo_runtime.Common.{
  Bool, List, [], false, if◌then◌else◌, none, not, some, true, ℕ, ◌&&◌, ◌++◌, ◌==◌, ◌||◌, ◌∷◌,
}
use i_perf_demo_runtime.Common.Int.{is_zero}
use i_perf_demo_runtime.Config.{
  IperfTest, ierecvcookie, iereuseaddr, iesendcookie, iesendmessage, iesetbuf, iesetmss,
  iesetnodelay, iestreamconnect, iestreamlisten, iev6only,
}
use i_perf_demo_runtime.Net.Sockets.{
  Made, Resource, System, af_inet, af_unspec, ask, ask_if, give_back, hold, local_addresses,
  local_too, made, server_addresses, socket,
}

-- Where IPV6_V6ONLY is set on a listening socket that is made again.
unfoldable pub listens_v6only : Bool → ℕ → Bool
listens_v6only v6 domain = v6 && (domain == af_unspec || domain == af_inet)

-- `test->no_delay || test->settings->mss || test->settings->socket_bufsize`
abbrev pub has_options : IperfTest → Bool
has_options t =
    t.no_delay || (not (is_zero t.settings.mss) || not (is_zero t.settings.socket_bufsize))

-- The options of a socket, up to the one that TEST_DEBUG prints; `rs` is given back where one fails.
unfoldable pub set_options : IperfTest → List Resource → (System → Made) → System → Made
set_options t rs next = ask_if t.no_delay rs (some iesetnodelay) (
    ask_if (not (is_zero t.settings.mss)) rs (some iesetmss) (
      ask_if (not (is_zero t.settings.socket_bufsize)) rs (some iesetbuf) (
        ask_if (not (is_zero t.settings.socket_bufsize)) rs (some iesetbuf)
          (ask_if t.debug rs (some iesetbuf) next))))

-- `s` is what `accept` returns, and `right_cookie` what `strcmp` says. Another cookie is answered with
-- ACCESS_DENIED, and the socket returned is closed.
unfoldable pub tcp_check_cookie : Bool → ℕ → System → Made
tcp_check_cookie true s o = made s o
tcp_check_cookie false s o = ask [] (some iesendmessage) (λ p. made s (give_back (socket s) p)) o

unfoldable pub iperf_tcp_accept : Bool → ℕ → System → Made
iperf_tcp_accept right_cookie s =
    ask [] (some iestreamconnect)
      (λ o. ask [] (some ierecvcookie) (tcp_check_cookie right_cookie s) (hold (socket s) o))

unfoldable pub tcp_listen_bind : Bool → ℕ → ℕ → System → Made
tcp_listen_bind v6 domain s =
    let both = socket s ∷ server_addresses ∷ [] in
    ask both (some iereuseaddr) (
      ask_if (listens_v6only v6 domain) both (some iev6only) (
        ask both (some iestreamlisten)
          (λ o. ask [] (some iestreamlisten) (made s) (give_back server_addresses o))))

-- `listener` is the socket that the server listens on, and `s` what `socket` returns.
unfoldable pub iperf_tcp_listen : IperfTest → Bool → ℕ → ℕ → System → Made
iperf_tcp_listen t v6 listener s o =
    if has_options t
    then ask [] (some iestreamlisten)
        (λ p.
          ask (server_addresses ∷ []) (some iestreamlisten)
            (λ q.
              set_options t (socket s ∷ server_addresses ∷ [])
                (tcp_listen_bind v6 t.settings.domain s) (hold (socket s) q))
            (hold server_addresses p))
        (give_back (socket listener) o)
    else made listener o

unfoldable pub tcp_send_cookie : ℕ → System → Made
tcp_send_cookie s = ask (socket s ∷ []) (some iesendcookie) (made s)

unfoldable pub tcp_connect_options : IperfTest → ℕ → System → Made
tcp_connect_options t s =
    let both = socket s ∷ server_addresses ∷ [] in
    set_options t both
      (ask both (some iestreamconnect) (λ o. tcp_send_cookie s (give_back server_addresses o)))

unfoldable pub tcp_connect_bind : Bool → IperfTest → ℕ → System → Made
tcp_connect_bind true t s =
    ask (socket s ∷ local_addresses ∷ server_addresses ∷ []) (some iestreamconnect)
      (λ o. tcp_connect_options t s (give_back local_addresses o))
tcp_connect_bind false t s = tcp_connect_options t s

unfoldable pub tcp_connect_socket : Bool → IperfTest → ℕ → System → Made
tcp_connect_socket local t s = ask (local_too local) (some iestreamconnect) (λ o.
    ask (local_too local ++ server_addresses ∷ []) (some iestreamconnect)
      (λ p. tcp_connect_bind local t s (hold (socket s) p)) (hold server_addresses o))

unfoldable pub iperf_tcp_connect : IperfTest → ℕ → System → Made
iperf_tcp_connect t s = elim t.bind_address [
  | none ↦ tcp_connect_socket false t s
  | some _ ↦
      ask [] (some iestreamconnect) (λ o. tcp_connect_socket true t s (hold local_addresses o))
]
