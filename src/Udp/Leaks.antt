-- ===== src/Udp/Leaks.antt =====
-- What the functions of iperf_udp.c that make sockets hold when they return.
use mathlib.Core.Path.{subst}
use i_perf_demo_runtime.Common.{
  Bool, List, Option, ap, false, inl, inr, none, not, refl, some, sym, ℕ, ◌∙◌, ◌∷◌, ◌≡◌, ◌⊎◌,
}
use i_perf_demo_runtime.Common.Int.{is_zero}
use i_perf_demo_runtime.Config.{IErrno, IperfTest, iesetbuf}
use i_perf_demo_runtime.Net.Sockets.{Made, Resource, System, error_, made, socket}
use i_perf_demo_runtime.Net.Dialling.{
  Equals, Holds, MayKeepLocal, ask-Holds, ask_if-Holds, held_for, netannounce-Holds, netdial-Holds,
}
use i_perf_demo_runtime.Udp.Sockets.{
  iperf_udp_accept, iperf_udp_connect, is_some, set_bufsize, then_made,
}

then_made-Holds :
    (n s : ℕ) (between result : List Resource)
    (failed after : List Resource → Option IErrno → Type 0) (e : IErrno) (next : ℕ → System → Made)
    (m : Made)
    → Holds n between failed m
    → ((o : System) → o.held ≡ between → Holds s result after (next n o))
    → ((held : List Resource) (errno : Option IErrno) → failed held errno → after held (some e))
    → Holds s result after (then_made e next m)
unfolding then_made
then_made-Holds n s between result failed after e next (made k o) h good bad =
    let (q, r) = h.ending in subst (λ i. Holds s result after (next i o)) (sym q) (good o r)
then_made-Holds n s between result failed after e next (error_ o) h good bad = record {
  ending = bad o.held o.errno h.ending;
}

set_bufsize-Holds :
    (s : ℕ) (result held : List Resource) (after : List Resource → Option IErrno → Type 0)
    (t : IperfTest) (next : System → Made) (o : System)
    → o.held ≡ held
    → after held (some iesetbuf)
    → ((p : System) → p.held ≡ held → Holds s result after (next p))
    → Holds s result after (set_bufsize t next o)
unfolding set_bufsize
set_bufsize-Holds s result held after t next o h b k =
    let sized = not (is_zero t.settings.socket_bufsize) in
    ask_if-Holds s result after held _ _ _ sized o h b
      (λ p q. ask_if-Holds s result after held _ _ _ sized p q b k)

-- The failure is reported, with the socket still held, or one more.
abbrev pub StillHolds : ℕ → ℕ → List Resource → List Resource → Option IErrno → Type 0
StillHolds s n before held errno =
    ((held ≡ socket s ∷ before) ⊎ (held ≡ socket n ∷ socket s ∷ before))
    × ((e : IErrno) × (errno ≡ some e))

-- `iperf_udp_accept` turns the listening socket into the stream's, and listens on a new one. Where it
-- fails, `i_errno` is set, and the first socket stays open, and so does the second, if it was made.
pub iperf_udp_accept-Holds :
    (t : IperfTest) (v6 : Bool) (s n : ℕ) (o : System) (before : List Resource)
    → o.held ≡ socket s ∷ before
    → Holds s (socket n ∷ socket s ∷ before) (StillHolds s n before) (iperf_udp_accept t v6 s n o)
unfolding iperf_udp_accept
iperf_udp_accept-Holds t v6 s n o before h =
    let S = StillHolds s n before in
    let held = socket s ∷ before in
    ask-Holds s _ S held _ _ _ o h (inl refl, (_, refl))
      (λ p q.
        ask-Holds s _ S held _ _ _ p q (inl refl, (_, refl))
          (λ p q.
            set_bufsize-Holds s _ held S t _ p q (inl refl, (_, refl))
              (λ p q.
                then_made-Holds n s (socket n ∷ p.held) _ (Equals p.held) S _ _ _
                  (netannounce-Holds false v6 t.settings.domain n p)
                  (λ r k.
                    ask-Holds s _ S (socket n ∷ held) _ _ _ r (k ∙ ap (◌∷◌ (socket n)) q)
                      (inr refl, (_, refl)) (λ r k. record { ending = (refl, k) }))
                  (λ l e k. (inl (k ∙ q), (_, refl))))))

-- After a failure of `iperf_udp_connect`: nothing, or the local addresses, or the socket.
abbrev pub MayKeepStream : Bool → ℕ → List Resource → List Resource → Option IErrno → Type 0
MayKeepStream local s before held errno =
    ((held ≡ before) ⊎ (held ≡ held_for local before) ⊎ (held ≡ socket s ∷ before))
    × ((e : IErrno) × (errno ≡ some e))

-- `iperf_udp_connect` gives the socket and holds nothing else. Where it fails, `i_errno` is set; the
-- local addresses, or the socket that `netdial` has given, may still be held.
pub iperf_udp_connect-Holds :
    (t : IperfTest) (s : ℕ) (o : System)
    → Holds s
        (socket s ∷ o.held)
        (MayKeepStream (is_some t.bind_address) s o.held)
        (iperf_udp_connect t s o)
unfolding iperf_udp_connect
iperf_udp_connect-Holds t s o =
    let local = is_some t.bind_address in
    let M = MayKeepStream local s o.held in
    let held = socket s ∷ o.held in
    then_made-Holds s s held held (MayKeepLocal local o.held) M _ _ _ (netdial-Holds local s o)
      (λ p q.
        set_bufsize-Holds s _ held M t _ p q (inr (inr refl), (_, refl))
          (λ p q.
            ask-Holds s _ M held _ _ _ p q (inr (inr refl), (_, refl))
              (λ p q.
                ask-Holds s _ M held _ _ _ p q (inr (inr refl), (_, refl))
                  (λ p q. record { ending = (refl, q) }))))
      (λ l e k. (dialled l k, (_, refl)))
  where
    dialled :
        (l : List Resource)
        → MayKeepLocal (is_some t.bind_address) o.held l none
        → (l ≡ o.held) ⊎ (l ≡ held_for (is_some t.bind_address) o.held) ⊎ (l ≡ socket s ∷ o.held)
    dialled l (inl k) = inl k
    dialled l (inr k) = inr (inl k)
