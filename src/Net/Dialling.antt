-- ===== src/Net/Dialling.antt =====
-- What `netdial` and `netannounce` of net.c hold when they return.
use i_perf_demo_runtime.Common.{
  Bool, List, Option, [], ap, arith, false, if◌then◌else◌, inl, inr, refl, true, ℕ, ◌∷◌, ◌≡◌, ◌⊎◌,
}
use i_perf_demo_runtime.Config.{IErrno}
use i_perf_demo_runtime.Net.Sockets.{
  Made, Resource, System, announce_listen, announce_socket, announces_v6only, ask, ask_if,
  dial_bind, dial_connect, dial_server, dial_socket, error_, first_answer, give_back, give_back_all,
  give_up, hold, local_addresses, made, netannounce, netdial, new_errno, other_answers, same,
  server_addresses, socket,
}

pub socket_same : (s : ℕ) → same (socket s) (socket s) ≡ true
socket_same s = ground arith

-- A function that gives the socket `s`, and then holds `result`, or fails as `after` says.
abbrev pub Ending : ℕ → List Resource → (List Resource → Option IErrno → Type 0) → Made → Type 0
Ending s result after (made n o) = (n ≡ s) × (o.held ≡ result)
Ending s result after (error_ o) = after o.held o.errno

pub record Holds (s : ℕ) (result : List Resource) (after : List Resource → Option IErrno → Type 0)
    (m : Made) : Type 0 where
  pub ending : Ending s result after m

-- A call, in any system that holds `held`.
pub ask-Holds :
    (s : ℕ) (result : List Resource) (after : List Resource → Option IErrno → Type 0)
    (held : List Resource) (rs : List Resource) (e : Option IErrno) (good : System → Made)
    (o : System)
    → o.held ≡ held
    → after (give_back_all rs held) (new_errno e o.errno)
    → ((p : System) → p.held ≡ held → Holds s result after (good p))
    → Holds s result after (ask rs e good o)
unfolding ask give_up
ask-Holds s result after held rs e good o q h k =
    let p = record o { system = other_answers o.system } in
    elim (first_answer o.system)
      as (λ b. Holds s result after (if b then good p else give_up rs e p)) [
        | true ↦ k p q
        | false ↦ record { ending = rw q h }
      ]

pub ask_if-Holds :
    (s : ℕ) (result : List Resource) (after : List Resource → Option IErrno → Type 0)
    (held : List Resource) (rs : List Resource) (e : Option IErrno) (good : System → Made)
    (b : Bool) (o : System)
    → o.held ≡ held
    → after (give_back_all rs held) (new_errno e o.errno)
    → ((p : System) → p.held ≡ held → Holds s result after (good p))
    → Holds s result after (ask_if b rs e good o)
unfolding ask_if
ask_if-Holds s result after held rs e good true o q h k =
    ask-Holds s result after held rs e good o q h k
ask_if-Holds s result after held rs e good false o q h k = k o q

abbrev pub Equals : List Resource → List Resource → Option IErrno → Type 0
Equals before held errno = held ≡ before

abbrev pub held_for : Bool → List Resource → List Resource
held_for true before = local_addresses ∷ before
held_for false before = before

-- `netdial` may fail with the local addresses, where there are such.
abbrev pub MayKeepLocal : Bool → List Resource → List Resource → Option IErrno → Type 0
MayKeepLocal local before held errno = (held ≡ before) ⊎ (held ≡ held_for local before)

dial_connect-Holds :
    (local : Bool) (s : ℕ) (o : System) (before : List Resource)
    → o.held ≡ socket s ∷ server_addresses ∷ before
    → Holds s (socket s ∷ before) (MayKeepLocal local before) (dial_connect s o)
unfolding dial_connect
dial_connect-Holds local s o before h =
    ask-Holds s (socket s ∷ before) (MayKeepLocal local before) _ _ _ _ o h
      (inl (rw (socket_same s) refl)) (λ p q. record { ending = (refl, rw q refl) })

dial_bind-Holds :
    (local : Bool) (s : ℕ) (o : System) (before : List Resource)
    → o.held ≡ socket s ∷ server_addresses ∷ held_for local before
    → Holds s (socket s ∷ before) (MayKeepLocal local before) (dial_bind local s o)
unfolding dial_bind
dial_bind-Holds true s o before h =
    ask-Holds s (socket s ∷ before) (MayKeepLocal true before) _ _ _ _ o h
      (inl (rw (socket_same s) refl))
      (λ p q. dial_connect-Holds true s (give_back local_addresses p) before (rw q refl))
dial_bind-Holds false s o before h = dial_connect-Holds false s o before h

dial_socket-Holds :
    (local : Bool) (s : ℕ) (o : System) (before : List Resource)
    → o.held ≡ server_addresses ∷ held_for local before
    → Holds s (socket s ∷ before) (MayKeepLocal local before) (dial_socket local s o)
unfolding dial_socket
dial_socket-Holds true s o before h =
    ask-Holds s (socket s ∷ before) (MayKeepLocal true before) _ _ _ _ o h (inl refl)
      (λ p q. dial_bind-Holds true s (hold (socket s) p) before (ap (◌∷◌ (socket s)) q))
dial_socket-Holds false s o before h =
    ask-Holds s (socket s ∷ before) (MayKeepLocal false before) _ _ _ _ o h (inl refl)
      (λ p q. dial_bind-Holds false s (hold (socket s) p) before (ap (◌∷◌ (socket s)) q))

dial_server-Holds :
    (local : Bool) (s : ℕ) (o : System) (before : List Resource)
    → o.held ≡ held_for local before
    → Holds s (socket s ∷ before) (MayKeepLocal local before) (dial_server local s o)
unfolding dial_server
dial_server-Holds local s o before h =
    ask-Holds s (socket s ∷ before) (MayKeepLocal local before) _ _ _ _ o h (inr refl) (λ p q.
      dial_socket-Holds local s (hold server_addresses p) before (ap (◌∷◌ server_addresses) q))

-- `netdial` gives the socket and holds nothing else, or fails and holds nothing, but that it may keep
-- the addresses of the local side, where one is given.
pub netdial-Holds :
    (local : Bool) (s : ℕ) (o : System)
    → Holds s (socket s ∷ o.held) (MayKeepLocal local o.held) (netdial local s o)
unfolding netdial
netdial-Holds true s o =
    ask-Holds s (socket s ∷ o.held) (MayKeepLocal true o.held) _ _ _ _ o refl (inl refl)
      (λ p q. dial_server-Holds true s (hold local_addresses p) o.held (ap (◌∷◌ local_addresses) q))
netdial-Holds false s o = dial_server-Holds false s o o.held refl

announce_listen-Holds :
    (stream : Bool) (s : ℕ) (o : System) (before : List Resource)
    → o.held ≡ socket s ∷ before
    → Holds s (socket s ∷ before) (Equals before) (announce_listen stream s o)
unfolding announce_listen
announce_listen-Holds stream s o before h =
    ask_if-Holds s (socket s ∷ before) (Equals before) _ _ _ _ stream o h (rw (socket_same s) refl)
      (λ p q. record { ending = (refl, q) })

announce_socket-Holds :
    (stream v6 : Bool) (domain s : ℕ) (o : System) (before : List Resource)
    → o.held ≡ socket s ∷ server_addresses ∷ before
    → Holds s (socket s ∷ before) (Equals before) (announce_socket stream v6 domain s o)
unfolding announce_socket
announce_socket-Holds stream v6 domain s o before h =
    let none_left : give_back_all (socket s ∷ server_addresses ∷ [])
          (socket s ∷ server_addresses ∷ before)
        ≡ before =
      rw (socket_same s) refl in
    ask-Holds s (socket s ∷ before) (Equals before) _ _ _ _ o h none_left (λ p q.
      ask_if-Holds s (socket s ∷ before) (Equals before) _ _ _ _ (announces_v6only v6 domain) p q
        none_left
        (λ p q. ask-Holds s (socket s ∷ before) (Equals before) _ _ _ _ p q none_left (λ p q.
          announce_listen-Holds stream s (give_back server_addresses p) before (rw q refl))))

-- `netannounce` gives the socket and holds nothing else, or fails and holds nothing.
pub netannounce-Holds :
    (stream v6 : Bool) (domain s : ℕ) (o : System)
    → Holds s (socket s ∷ o.held) (Equals o.held) (netannounce stream v6 domain s o)
unfolding netannounce
netannounce-Holds stream v6 domain s o =
    ask-Holds s (socket s ∷ o.held) (Equals o.held) _ _ _ _ o refl refl (λ p q.
      ask-Holds s (socket s ∷ o.held) (Equals o.held) _ _ _ _ (hold server_addresses p)
        (ap (◌∷◌ server_addresses) q) refl
        (λ p q.
          announce_socket-Holds stream v6 domain s (hold (socket s) p) o.held
            (ap (◌∷◌ (socket s)) q)))
