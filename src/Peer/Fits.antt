-- ===== src/Peer/Fits.antt =====
-- pro/local.go, pro/remote.go: the tunnels of the two ends fit each other.
use good_link.Base.{◌≡◌, ℕ, Bytes, Bool, Option, refl, ◌≢◌, ap, suc, zero, none, [], pos}
use good_link.Peer.{
  RedisJson, Tunnel, AddrType, passive, opposite, merge, session_transport, no_addr,
}
use good_link.Peer.Local.{Local, connected, conn_type_of, new_local, register_json, local_reads}
use good_link.Peer.Remote.{Remote, remote_reads, refresh}
use good_link.Peer.Steps.{
  Session, at, Step, Reach, registered, returned, serving, claims, offers, sees, local_gets,
  local_acts, local_leaves, remote_gets, remote_acts, arrives, remote_leaves, expires, here, next,
}
use good_link.Peer.Agree.{
  by_kind, by_port, IsNothingBut, local_tunnel, Agrees, send_remote_addr-Agrees, end_wait-Agrees,
  judging-Agrees, round-Agrees, merge-IsTerms,
}

-- The tunnel that fits at the other end.
abbrev pub mirror : Tunnel → Tunnel
mirror t = record t { direction = opposite t.direction }

filled_port : (n : ℕ) → n ≢ 0 → by_port n ≡ passive
filled_port zero h = absurd (h refl)
filled_port (suc n) h = refl

-- The request tells the other end which side to take.
register_json-side :
    (addr : AddrType) (kind : ℕ) (j : RedisJson)
    → addr.wan_port1 ≢ 0
    → j.local_addr.wan_port1 ≡ 0
    → ((register_json addr kind j).session_id ≡ j.session_id)
      × (by_port (register_json addr kind j).local_addr.wan_port1 ≡ opposite (by_kind kind))
unfolding register_json
register_json-side addr zero j h e = (refl, ap by_port e)
register_json-side addr (suc k) j h e = (refl, filled_port addr.wan_port1 h)

module _ (session : Bytes) (addr : AddrType) (transport : Bytes) (allow : Bool)
    (local_version remote_version : Bytes) (timeout : ℕ) (up : Tunnel → Bool)
    (known : session_transport transport ≡ transport) where
  Step-Agrees :
      {s t : Session}
      → Step local_version remote_version timeout transport allow up s t
      → Agrees session addr transport allow s
      → Agrees session addr transport allow t
  unfolding local_reads remote_reads refresh merge
  Step-Agrees (claims j slot l0) (g, o, l, r) = (tt, o, l, g)
  Step-Agrees (offers probe works j reg slot l0) (g, o, l, r) =
      let (o', r') =
        send_remote_addr-Agrees session addr transport allow remote_version timeout probe works j
          slot r o in
      (g, o', l, r')
  Step-Agrees (sees reg j l0 r0) (g, o, l, r) = (g, o, (o.0, l.1, l.2, l.3), r)
  Step-Agrees (local_gets reg j l0 r0) (g, o, l, r) =
      (g, o, ((o.0, l.1, l.2, l.3), merge-IsTerms session addr transport allow l0.json j o), r)
  Step-Agrees (local_acts works reg slot l0 r0) (g, o, l, r) =
      let (o', l') =
        round-Agrees session addr transport allow local_version up l0 l0.json.state works slot known
          refl l.0 l.1 o in
      (g, o', l', r)
  Step-Agrees (local_leaves reg slot l0 r0) (g, o, l, r) = (tt, o, tt, r)
  Step-Agrees (remote_gets reg j l0 r0) (g, o, l, r) =
      (g, o, l, ((o.0, r.1, r.2), merge-IsTerms session addr transport allow r0.json j o))
  Step-Agrees (remote_acts reg slot l0 r0) (g, o, l, r) =
      (g, o, l, judging-Agrees session addr transport allow r0 r0.json.state refl r.0 r.1)
  Step-Agrees (arrives arrival works reg slot l0 r0) (g, o, l, r) =
      let (o', r') = end_wait-Agrees session addr transport allow arrival works r0 slot r.0 r.1 o in
      (g, o', l, r')
  Step-Agrees (remote_leaves reg slot l0 r0) (g, o, l, r) = (g, o, l, tt)
  Step-Agrees (expires reg slot l0 r0) (g, o, l, r) = (g, tt, l, r)

  Reach-Agrees :
      (count : ℕ) {s : Session}
      → addr.wan_port1 ≢ 0
      → Reach local_version remote_version timeout transport allow up
          (registered local_version remote_version timeout transport allow up session addr count)
          s
      → Agrees session addr transport allow s
  unfolding new_local
  Reach-Agrees count h here =
      let request : RedisJson = record {
        local_version = local_version;
        remote_version = [];
        session_id = session;
        state = pos 0;
        transport = [];
        socket_timeout = 0;
        redis_timeout = 0;
        send_port_count = 0;
        connect_count = count;
        remote_addr = no_addr;
        local_addr = no_addr;
        allow_local_proxy = none;
      } in
      let (named, side) = register_json-side addr (conn_type_of addr) request h refl in
      ((named, side), tt, (named, refl, tt, tt), tt)
  Reach-Agrees count h (next reach step) = Step-Agrees step (Reach-Agrees count h reach)

  -- A session of a local end with a port that is not 0, and a service with a transport that
  -- `sessionTransport` keeps: wherever, after any steps of the two ends and the store, the
  -- local end has returned a connection while the remote end serves its own, the local tunnel
  -- has the session and the transport of the service, each tunnel of the remote end is the same
  -- in the opposite direction, and the local end has been told whether the proxy is allowed.
  pub Reach-fits :
      (count : ℕ) (reg slot : Option RedisJson) (l : Local) (t : Tunnel) (a : Bool) (r : Remote)
      → addr.wan_port1 ≢ 0
      → Reach local_version remote_version timeout transport allow up
          (registered local_version remote_version timeout transport allow up session addr count)
          (at reg slot (returned l (connected t a)) (serving r))
      → (a ≡ allow)
        × (t ≡ local_tunnel session addr transport allow)
        × IsNothingBut (mirror t) r.tun_active
        × IsNothingBut (mirror t) r.tun_passive
  Reach-fits count reg slot l t a r h reach =
      let (g, o, (ours, (tunnel, allowed)), (_, on_active, on_passive)) =
        Reach-Agrees count h reach in
      (allowed, tunnel, rw tunnel on_active, rw tunnel on_passive)
