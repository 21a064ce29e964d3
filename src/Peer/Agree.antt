-- ===== src/Peer/Agree.antt =====
-- pro/local.go, pro/remote.go: the two ends build tunnels that fit each other.
use good_link.Base.{
  Bytes, Bool, refl, zero, inr, some, Option, ◌≡◌, ◌⊎◌, none, inl, suc, ℕ, negsuc, pos, true, false,
  ◌∙◌, ℤ, if◌then◌else◌, ap, ◌==◌, ◌&&◌, Option-cases, Bool-cases, not, arith,
}
use good_link.Config.Version.{versions_compatible}
use good_link.Peer.{
  RedisJson, Tunnel, AddrType, Direction, active, passive, opposite, merge, session_transport,
  proxy_allowed,
}
use good_link.Peer.Local.{
  LocalError, Local, LocalResult, connected, failed, no_connection, conn_type_of, local_round,
  process_remote_addr, open_tunnel, connection_success,
}
use good_link.Peer.Remote.{
  Remote, offer_tunnel, send_remote_addr, end_wait, remote_round, refresh, Arrival, on_active,
  on_passive, timed_out,
}
use good_link.Peer.Steps.{
  LocalPhase, RemotePhase, Session, at, deliver, after_round, awaiting, polling, deciding, returned,
  stopped, scanning, claimed, following, judging, connecting, serving, gone, after_judging,
  after_offer,
}
use good_link.Peer.Turns.{release_tunnel-deliver}

-- The side that an end takes, by the type of the local connection.
abbrev pub by_kind : ℕ → Direction
by_kind zero = passive
by_kind (suc _) = active

-- The side that the other end takes, by the port that it was sent.
abbrev pub by_port : ℕ → Direction
by_port zero = active
by_port (suc _) = passive

abbrev pub IsNothingBut : Tunnel → Option Tunnel → Type 0
IsNothingBut t none = Unit
IsNothingBut t (some u) = u ≡ t

abbrev tunnel_of : Direction → Bytes → Bytes → Tunnel
tunnel_of d s u = record { direction = d; session = s; transport = u }

same_tunnel :
    {d d' : Direction} {s s' u u' : Bytes}
    → d ≡ d'
    → s ≡ s'
    → u ≡ u'
    → tunnel_of d s u ≡ tunnel_of d' s' u'
same_tunnel d s u = cc (d, s, u)

-- One session of an end with this address, and of a service with this transport.
module _ (session : Bytes) (addr : AddrType) (transport : Bytes) (allow : Bool) where
  abbrev pub local_tunnel : Tunnel
  local_tunnel = record {
    direction = by_kind (conn_type_of addr);
    session = session;
    transport = transport;
  }

  abbrev pub remote_tunnel : Tunnel
  remote_tunnel = record {
    direction = opposite (by_kind (conn_type_of addr));
    session = session;
    transport = transport;
  }

  -- A message with the terms of the service.
  abbrev pub Carries : RedisJson → Type 0
  Carries j = (j.transport ≡ transport) × (j.allow_local_proxy ≡ some allow)

  -- A message that the other end may read: a refusal, or one with the terms.
  abbrev pub IsTerms : RedisJson → Type 0
  IsTerms j = (j.session_id ≡ session) × ((j.state ≡ negsuc 0) ⊎ Carries j)

  abbrev pub IsRequest : RedisJson → Type 0
  IsRequest j =
      (j.session_id ≡ session)
      × (by_port j.local_addr.wan_port1 ≡ opposite (by_kind (conn_type_of addr)))

  abbrev pub IsLocal : Local → Type 0
  IsLocal l =
      (l.json.session_id ≡ session)
      × (l.conn_type ≡ conn_type_of addr)
      × IsNothingBut local_tunnel l.tun_active
      × IsNothingBut local_tunnel l.tun_passive

  abbrev pub IsRemote : Remote → Type 0
  IsRemote r =
      (r.json.session_id ≡ session)
      × IsNothingBut remote_tunnel r.tun_active
      × IsNothingBut remote_tunnel r.tun_passive

  abbrev pub IsResult : LocalResult → Type 0
  IsResult (connected t a) = (t ≡ local_tunnel) × (a ≡ allow)
  IsResult (failed e) = Unit
  IsResult no_connection = Unit

  abbrev pub IsLocalPhase : LocalPhase → Type 0
  IsLocalPhase (awaiting l) = IsLocal l
  IsLocalPhase (polling l) = IsLocal l
  IsLocalPhase (deciding l) = IsLocal l × IsTerms l.json
  IsLocalPhase (returned l r) = IsLocal l × IsResult r
  IsLocalPhase stopped = Unit

  abbrev pub IsRemotePhase : RemotePhase → Type 0
  IsRemotePhase scanning = Unit
  IsRemotePhase (claimed j) = IsRequest j
  IsRemotePhase (following r) = IsRemote r
  IsRemotePhase (judging r) = IsRemote r × IsTerms r.json
  IsRemotePhase (connecting r) = IsRemote r × Carries r.json
  IsRemotePhase (serving r) = IsRemote r
  IsRemotePhase gone = Unit

  abbrev pub OrNone : (RedisJson → Type 0) → Option RedisJson → Type 0
  OrNone P none = Unit
  OrNone P (some j) = P j

  abbrev pub Agrees : Session → Type 0
  Agrees (at reg slot l r) =
      OrNone IsRequest reg × OrNone IsTerms slot × IsLocalPhase l × IsRemotePhase r

  -- What has the terms is known by its session and its state.
  terms-Carries : (j : RedisJson) (n : ℕ) → j.state ≡ pos n → IsTerms j → Carries j
  terms-Carries j n e (s, inl refusal) = absurd (cc (e, refusal))
  terms-Carries j n e (s, inr carries) = carries

  pub merge-IsTerms : (old new : RedisJson) → IsTerms new → IsTerms (merge old new)
  unfolding merge
  merge-IsTerms old new (s, inl refusal) = (s, inl refusal)
  merge-IsTerms old new (s, inr (t, a)) = (s, inr (t, rw a refl))

  write-OrNone :
      (works : Bool) (j : RedisJson) (slot : Option RedisJson)
      → IsTerms j
      → OrNone IsTerms slot
      → OrNone IsTerms (if works then some j else slot)
  write-OrNone true j slot h o = h
  write-OrNone false j slot h o = o

  -- The tunnel of the local end has the terms.
  open_tunnel-Agrees :
      (l : Local) (works : Bool) (slot : Option RedisJson) (kind : ℕ)
      → session_transport transport ≡ transport
      → kind ≡ conn_type_of addr
      → IsLocal l
      → Carries l.json
      → OrNone IsTerms slot
      → IsLocal (open_tunnel l kind).0 × OrNone IsTerms (deliver works (open_tunnel l kind).1 slot)
  unfolding open_tunnel
  open_tunnel-Agrees l works slot zero known k h (t, a) o = (
    (h.0, h.1, tt, same_tunnel (ap by_kind k) h.0 (ap session_transport t ∙ known)),
    rw (release_tunnel-deliver works l.tun_passive _ slot)
        (write-OrNone works _ slot (h.0, inr (t, a)) o),
  )
  open_tunnel-Agrees l works slot (suc n) known k h (t, a) o = (
    (h.0, h.1, same_tunnel (ap by_kind k) h.0 (ap session_transport t ∙ known), tt),
    rw (release_tunnel-deliver works l.tun_active _ slot)
        (write-OrNone works _ slot (h.0, inr (t, a)) o),
  )

  offer_tunnel-Agrees :
      (j : RedisJson) (works : Bool) (slot : Option RedisJson) (port : ℕ)
      → by_port port ≡ opposite (by_kind (conn_type_of addr))
      → j.session_id ≡ session
      → Carries j
      → OrNone IsTerms slot
      → IsRemote (offer_tunnel transport j port).0
        × OrNone IsTerms (deliver works (offer_tunnel transport j port).1 slot)
  unfolding offer_tunnel
  offer_tunnel-Agrees j works slot zero p s c o =
      ((s, same_tunnel p s refl, tt), write-OrNone works _ slot (s, inr c) o)
  offer_tunnel-Agrees j works slot (suc port) p s c o =
      ((s, tt, same_tunnel p s refl), write-OrNone works _ slot (s, inr c) o)

  connection_success-eq-some :
      (up : Tunnel → Bool) (l : Local) {t : Tunnel}
      → connection_success up l ≡ some t
      → IsNothingBut local_tunnel l.tun_active
      → IsNothingBut local_tunnel l.tun_passive
      → t ≡ local_tunnel
  unfolding connection_success
  connection_success-eq-some up l h a p = ground (arith, h, a, p)

  proxy_allowed-Carries : (j : RedisJson) → Carries j → proxy_allowed j ≡ allow
  unfolding proxy_allowed
  proxy_allowed-Carries j (t, a) = rw (proxy_allowed, a) refl

  process_remote_addr-Agrees :
      (version : Bytes) (l : Local) (works : Bool) (slot : Option RedisJson)
      → session_transport transport ≡ transport
      → IsLocal l
      → Carries l.json
      → OrNone IsTerms slot
      → IsLocal (process_remote_addr version l).1
        × OrNone IsTerms (deliver works (process_remote_addr version l).2 slot)
  unfolding process_remote_addr
  process_remote_addr-Agrees version l works slot known h c o =
      elim (Bool-cases (versions_compatible version l.json.remote_version)) [
        | inr differ ↦ rw (process_remote_addr, differ) (h, tt)
        | inl same ↦
            elim (Bool-cases (
              not (l.addr.wan_port1 == l.addr.wan_port2)
              && not (l.json.remote_addr.wan_port1 == l.json.remote_addr.wan_port2))) [
                | inl both ↦ rw (process_remote_addr, same, both) (h, tt)
                | inr direct ↦
                    rw (process_remote_addr, same, direct)
                      (open_tunnel-Agrees l works slot l.conn_type known h.1 h c o)
              ]
      ]

  failing-IsLocalPhase :
      (l : Local) (error : Option LocalError)
      → IsLocal l
      → IsLocalPhase (after_round l (elim error [ none ↦ none | some e ↦ some (failed e) ]))
  failing-IsLocalPhase l none h = h
  failing-IsLocalPhase l (some e) h = (h, tt)

  -- A round of the local end.
  pub round-Agrees :
      (version : Bytes) (up : Tunnel → Bool) (l : Local) (n : ℤ) (works : Bool)
      (slot : Option RedisJson)
      → session_transport transport ≡ transport
      → l.json.state ≡ n
      → IsLocal l
      → IsTerms l.json
      → OrNone IsTerms slot
      → (let (l', result, events) = local_round version up l n in
          OrNone IsTerms (deliver works events slot) × IsLocalPhase (after_round l' result))
  unfolding local_round
  round-Agrees version up l (pos zero) works slot known e h c o = (o, h)
  round-Agrees version up l (pos (suc zero)) works slot known e h c o =
      let (local, written) =
        process_remote_addr-Agrees version l works slot known h (terms-Carries l.json 1 e c) o in
      (
        written,
        failing-IsLocalPhase (process_remote_addr version l).1 (process_remote_addr version l).0
            local,
      )
  round-Agrees version up l (pos (suc (suc zero))) works slot known e h c o = (o, h)
  round-Agrees version up l (pos (suc (suc (suc zero)))) works slot known e h c o =
      elim (Option-cases (connection_success up l)) [
        | inl lost ↦ (rw (local_round, lost) o, rw (local_round, lost) (h, tt))
        | inr (t, found) ↦ (
          rw (local_round, found) o,
          rw (local_round, found)
              (
                h,
                (
                  connection_success-eq-some up l found h.2 h.3,
                  proxy_allowed-Carries l.json (terms-Carries l.json 3 e c),
                ),
              ),
        )
      ]
  round-Agrees version up l (pos (suc (suc (suc (suc zero))))) works slot known e h c o =
      (o, (h, tt))
  round-Agrees version up l (pos (suc (suc (suc (suc (suc n)))))) works slot known e h c o = (o, h)
  round-Agrees version up l (negsuc zero) works slot known e h c o = (tt, (h, tt))
  round-Agrees version up l (negsuc (suc zero)) works slot known e h c o = (tt, (h, tt))
  round-Agrees version up l (negsuc (suc (suc n))) works slot known e h c o = (o, h)

  pub send_remote_addr-Agrees :
      (version : Bytes) (timeout : ℕ) (probe : Option AddrType) (works : Bool) (j : RedisJson)
      (slot : Option RedisJson)
      → IsRequest j
      → OrNone IsTerms slot
      → (let (accepted, r, events) = send_remote_addr version timeout transport allow probe j in
          OrNone IsTerms (deliver works events slot) × IsRemotePhase (after_offer accepted r))
  unfolding send_remote_addr refresh
  send_remote_addr-Agrees version timeout probe works j slot h o =
      elim (Bool-cases (versions_compatible version j.local_version)) [
        | inr differ ↦ (
          rw (send_remote_addr, differ) (write-OrNone works _ slot (h.0, inl refl) o),
          rw (send_remote_addr, differ) tt,
        )
        | inl same ↦ elim (Option-cases probe) [
          | inl missing ↦
              (rw (send_remote_addr, same, missing) o, rw (send_remote_addr, same, missing) tt)
          | inr (addr, found) ↦
              let (remote, written) =
                offer_tunnel-Agrees
                  (record (refresh version timeout j) {
                    state = pos 1;
                    transport = transport;
                    allow_local_proxy = some allow;
                    remote_addr = addr;
                  })
                  works slot j.local_addr.wan_port1 h.1 h.0 (refl, refl) o in
              (
                rw (send_remote_addr, same, found) written,
                rw (send_remote_addr, same, found) remote,
              )
        ]
      ]

  pub end_wait-Agrees :
      (arrival : Arrival) (works : Bool) (r : Remote) (slot : Option RedisJson)
      → IsRemote r
      → Carries r.json
      → OrNone IsTerms slot
      → OrNone IsTerms (deliver works (end_wait arrival r).2 slot)
        × IsRemotePhase (after_judging (end_wait arrival r).0 (end_wait arrival r).1)
  unfolding end_wait
  end_wait-Agrees (on_active true) works r slot h c o =
      (write-OrNone works _ slot (h.0, inr c) o, h)
  end_wait-Agrees (on_active false) works r slot h c o =
      (write-OrNone works _ slot (h.0, inr c) o, h)
  end_wait-Agrees (on_passive true) works r slot h c o =
      (write-OrNone works _ slot (h.0, inr c) o, h)
  end_wait-Agrees (on_passive false) works r slot h c o =
      (write-OrNone works _ slot (h.0, inr c) o, h)
  end_wait-Agrees timed_out works r slot h c o = (write-OrNone works _ slot (h.0, inr c) o, tt)

  pub judging-Agrees :
      (r : Remote) (n : ℤ)
      → r.json.state ≡ n
      → IsRemote r
      → IsTerms r.json
      → IsRemotePhase (after_judging r (remote_round n))
  unfolding remote_round
  judging-Agrees r (pos zero) e h c = h
  judging-Agrees r (pos (suc zero)) e h c = h
  judging-Agrees r (pos (suc (suc zero))) e h c = (h, terms-Carries r.json 2 e c)
  judging-Agrees r (pos (suc (suc (suc zero)))) e h c = h
  judging-Agrees r (pos (suc (suc (suc (suc zero))))) e h c = tt
  judging-Agrees r (pos (suc (suc (suc (suc (suc n)))))) e h c = h
  judging-Agrees r (negsuc n) e h c = h
