-- ===== src/Net/Sockets.antt =====
-- `netdial` and `netannounce` of iperf-3.1.3/src/net.c: what they hold on every way out. Whether a call
-- of the system succeeds is an answer, read from a list in the order of the calls.
use i_perf_demo_runtime.Config.{IErrno}
use i_perf_demo_runtime.Common.{
  Bool, List, Option, [], false, if◌then◌else◌, none, some, true, ℕ, ◌&&◌, ◌++◌, ◌==◌, ◌||◌, ◌∷◌,
}

-- What is to be given back: sockets, results of `getaddrinfo`, and what a stream is made of.
pub data Resource : Type 0 where
  socket : ℕ → Resource
  local_addresses server_addresses : Resource
  stream_memory result_memory buffer_file buffer_map disk_file : Resource

abbrev pub same : Resource → Resource → Bool
same (socket a) (socket b) = a == b
same local_addresses local_addresses = true
same server_addresses server_addresses = true
same stream_memory stream_memory = true
same result_memory result_memory = true
same buffer_file buffer_file = true
same buffer_map buffer_map = true
same disk_file disk_file = true
same _ _ = false

abbrev pub without : Resource → List Resource → List Resource
without r [] = []
without r (x ∷ rest) = let more = without r rest in if same x r then rest else x ∷ more

pub record System : Type 0 where
  pub held : List Resource
  pub errno : Option IErrno
  pub system : List Bool

-- A function that returns a socket, or -1.
pub data Made : Type 0 where
  made : ℕ → System → Made
  error_ : System → Made

abbrev pub hold : Resource → System → System
hold r o = record o { held = r ∷ o.held }

abbrev pub give_back : Resource → System → System
give_back r o = record o { held = without r o.held }

abbrev pub give_back_all : List Resource → List Resource → List Resource
give_back_all [] held = held
give_back_all (r ∷ rs) held = give_back_all rs (without r held)

abbrev pub new_errno : Option IErrno → Option IErrno → Option IErrno
new_errno none old = old
new_errno (some e) old = some e

abbrev pub first_answer : List Bool → Bool
first_answer [] = true
first_answer (b ∷ _) = b

abbrev pub other_answers : List Bool → List Bool
other_answers [] = []
other_answers (_ ∷ bs) = bs

-- A way out with -1: what is given back, in order, and what `i_errno` is set to, if it is.
unfoldable pub give_up : List Resource → Option IErrno → System → Made
give_up rs e o = error_ (record o { held = give_back_all rs o.held; errno = new_errno e o.errno })

-- A call of the system, with the way out where it fails, and what follows where it does not.
unfoldable pub ask : List Resource → Option IErrno → (System → Made) → System → Made
ask rs e good o =
    let p = record o { system = other_answers o.system } in
    if first_answer o.system then good p else give_up rs e p

-- The same of a call that is made only where it is asked for.
unfoldable pub ask_if : Bool → List Resource → Option IErrno → (System → Made) → System → Made
ask_if true rs e good o = ask rs e good o
ask_if false rs e good o = good o

abbrev pub af_unspec : ℕ
af_unspec = 0

abbrev pub af_inet : ℕ
af_inet = 2

abbrev pub af_inet6 : ℕ
af_inet6 = 10

unfoldable pub dial_connect : ℕ → System → Made
dial_connect s =
    ask (socket s ∷ server_addresses ∷ []) none (λ o. made s (give_back server_addresses o))

unfoldable pub dial_bind : Bool → ℕ → System → Made
dial_bind true s =
    ask (socket s ∷ local_addresses ∷ server_addresses ∷ []) none
      (λ o. dial_connect s (give_back local_addresses o))
dial_bind false s = dial_connect s

abbrev pub local_too : Bool → List Resource
local_too true = local_addresses ∷ []
local_too false = []

unfoldable pub dial_socket : Bool → ℕ → System → Made
dial_socket local s =
    ask (local_too local ++ server_addresses ∷ []) none (λ o. dial_bind local s (hold (socket s) o))

unfoldable pub dial_server : Bool → ℕ → System → Made
dial_server local s = ask [] none (λ o. dial_socket local s (hold server_addresses o))

-- `local` says whether a local address is given, and `s` is what `socket` returns. A `connect` that is
-- under way (EINPROGRESS) has not failed.
unfoldable pub netdial : Bool → ℕ → System → Made
netdial true s = ask [] none (λ o. dial_server true s (hold local_addresses o))
netdial false s = dial_server false s

-- Where IPV6_V6ONLY is set; `v6` says that `getaddrinfo` gives a v6 address.
unfoldable pub announces_v6only : Bool → ℕ → Bool
announces_v6only v6 domain = v6 && (domain == af_unspec || domain == af_inet6)

unfoldable pub announce_listen : Bool → ℕ → System → Made
announce_listen stream s = ask_if stream (socket s ∷ []) none (made s)

-- The calls for the socket, and `bind`.
unfoldable pub announce_socket : Bool → Bool → ℕ → ℕ → System → Made
announce_socket stream v6 domain s =
    let both = socket s ∷ server_addresses ∷ [] in
    ask both none (
      ask_if (announces_v6only v6 domain) both none
        (ask both none (λ o. announce_listen stream s (give_back server_addresses o))))

-- `stream` says that `proto` is SOCK_STREAM.
unfoldable pub netannounce : Bool → Bool → ℕ → ℕ → System → Made
netannounce stream v6 domain s = ask [] none (λ o.
    ask (server_addresses ∷ []) none (λ p. announce_socket stream v6 domain s (hold (socket s) p))
      (hold server_addresses o))
