-- ===== src/Peer/Local.antt =====
-- pro/local.go: the handlers of the end that asks for a session, and the switch of
-- `GetLocalQuicConn`. `version` is this program's own.
use good_link.Base.{
  ◌∷◌, Option, Bytes, zero, none, ℤ, ℕ, suc, [], ◌++◌, Bool, some, if◌then◌else◌, ◌&&◌, List, ◌==◌,
  not, pos, negsuc,
}
use good_link.Config.Version.{versions_compatible}
use good_link.Peer.{
  AddrType, RedisJson, Tunnel, PeerEvent, no_addr, merge, session_transport, active, passive,
  reported, deleted, released, created, started, sent, proxy_allowed, status_connecting_nat4,
  status_connected, status_version_mismatch, status_transport_mismatch,
}

pub data LocalError : Type 0 where
  session_timeout : LocalError
  versions_differ : LocalError
  remote_version_differs : Bytes → LocalError
  transport_differs : Bytes → LocalError
  both_nat4 : LocalError

-- What `GetLocalQuicConn` returns.
pub data LocalResult : Type 0 where
  failed : LocalError → LocalResult
  no_connection : LocalResult
  connected : Tunnel → (allow_proxy : Bool) → LocalResult

pub record Local : Type 0 where
  pub session_id : Bytes
  pub conn_type : ℕ
  pub addr : AddrType
  pub json : RedisJson
  pub tun_active : Option Tunnel
  pub tun_passive : Option Tunnel

unfoldable pub conn_type_of : AddrType → ℕ
conn_type_of addr = if addr.wan_port1 == addr.wan_port2 then 1 else 0

-- The request, with the address where this end connects actively.
unfoldable pub register_json : AddrType → ℕ → RedisJson → RedisJson
register_json addr zero j = j
register_json addr (suc _) j = record j { local_addr = addr }

unfoldable pub release_tunnel : Option Tunnel → List PeerEvent
release_tunnel none = []
release_tunnel (some t) = released t ∷ []

abbrev nat4 : AddrType → Bool
nat4 a = not (a.wan_port1 == a.wan_port2)

-- The last part of `handleState1_ProcessRemoteAddr`: the tunnel, by the connection type.
unfoldable pub open_tunnel : Local → ℕ → Local × List PeerEvent
unfolding release_tunnel session_transport
open_tunnel l zero =
    let j = record (l.json) { local_addr = l.addr; state = pos 2 } in
    let t : Tunnel = record {
      direction = passive;
      session = j.session_id;
      transport = session_transport j.transport;
    } in
    (
      record l { json = j; tun_active = none; tun_passive = some t },
      release_tunnel l.tun_passive
          ++ created t j.local_addr j.remote_addr j.send_port_count
            ∷ started t
            ∷ sent l.session_id j.redis_timeout j
            ∷ [],
    )
open_tunnel l (suc _) =
    let j = record (l.json) { state = pos 2 } in
    let t : Tunnel = record {
      direction = active;
      session = j.session_id;
      transport = session_transport j.transport;
    } in
    (
      record l { json = j; tun_active = some t; tun_passive = none },
      release_tunnel l.tun_active
          ++ created t j.local_addr j.remote_addr 0
            ∷ started t
            ∷ sent l.session_id j.redis_timeout j
            ∷ [],
    )

-- `handleLocalState3_ConnectionSuccess`; `up t` says whether the tunnel has a connection.
unfoldable pub connection_success : (up : Tunnel → Bool) → Local → Option Tunnel
connection_success up l =
    let by_active : Option Tunnel = elim l.tun_active [
      | none ↦ none
      | some t ↦ if up t then some t else none
    ] in
    elim l.tun_passive [ none ↦ by_active | some t ↦ if up t then some t else by_active ]

module _ (version : Bytes) where
  -- The state before the session is registered.
  unfoldable pub new_local : Bytes → AddrType → ℕ → Local
  unfolding conn_type_of register_json
  new_local session addr count =
      let kind = conn_type_of addr in
      record {
        session_id = session;
        conn_type = kind;
        addr = addr;
        json = register_json addr kind (record {
          local_version = version;
          remote_version = [];
          session_id = session;
          state = pos 0;
          transport = [];
          socket_timeout = 0;
          redis_timeout = 0;
          send_port_count = 0;
          connect_count = count;
          remote_addr = no_addr;
          local_addr = no_addr;
          allow_local_proxy = none;
        });
        tun_active = none;
        tun_passive = none;
      }

  -- `handleState1_ProcessRemoteAddr`
  unfoldable pub process_remote_addr : Local → Option LocalError × Local × List PeerEvent
  unfolding open_tunnel
  process_remote_addr l =
      if not (versions_compatible version l.json.remote_version)
      then (some versions_differ, l, reported status_version_mismatch ∷ deleted l.session_id ∷ [])
      else if nat4 l.addr && nat4 l.json.remote_addr
      then (some both_nat4, l, reported status_connecting_nat4 ∷ deleted l.session_id ∷ [])
      else (let (l', events) = open_tunnel l l.conn_type in (none, l', events))

  -- One round of the loop, on the message that has just been read.
  unfoldable pub local_round :
      (up : Tunnel → Bool) → Local → ℤ → Local × Option LocalResult × List PeerEvent
  unfolding process_remote_addr connection_success proxy_allowed
  local_round up l (pos (suc zero)) =
      let (error, l', events) = process_remote_addr l in
      (l', elim error [ none ↦ none | some e ↦ some (failed e) ], events)
  local_round up l (pos (suc (suc (suc zero)))) = elim (connection_success up l) [
    | none ↦ (l, some no_connection, [])
    | some t ↦ (l, some (connected t (proxy_allowed l.json)), reported status_connected ∷ [])
  ]
  local_round up l (pos (suc (suc (suc (suc zero))))) = (l, some no_connection, [])
  local_round up l (negsuc zero) = (
    l,
    some (failed (remote_version_differs l.json.remote_version)),
    reported status_version_mismatch ∷ deleted l.session_id ∷ [],
  )
  local_round up l (negsuc (suc zero)) = (
    l,
    some (failed (transport_differs l.json.transport)),
    reported status_transport_mismatch ∷ deleted l.session_id ∷ [],
  )
  local_round up l _ = (l, none, [])

-- The message is read into the one that is there.
unfoldable pub local_reads : Local → RedisJson → Local
unfolding merge
local_reads l j = record l { json = merge l.json j }
