-- ===== src/Peer/Remote.antt =====
-- pro/remote.go: the handlers of the end that serves sessions, and the switch of `processSession`.
-- The time limit of a connection, in seconds, is the argument of the program that `tun` keeps.
use good_link.Base.{
  false, [], ◌*◌, some, zero, ◌∷◌, Bool, List, true, Option, ◌++◌, ◌==◌, Bytes, ℕ, not,
  if◌then◌else◌, suc, none, pos, negsuc, ℤ,
}
use good_link.Config.Version.{versions_compatible}
use good_link.Peer.{
  AddrType, RedisJson, Tunnel, PeerEvent, merge, active, passive, created, started, sent,
}
use good_link.Peer.Local.{release_tunnel}

pub record Remote : Type 0 where
  pub json : RedisJson
  pub conn_type : ℕ
  pub tun_active : Option Tunnel
  pub tun_passive : Option Tunnel

-- A session that has been claimed.
abbrev pub new_remote : RedisJson → Remote
new_remote j = record { json = j; conn_type = 0; tun_active = none; tun_passive = none }

-- What ends the wait for a connection; whether the tunnel then has one.
pub data Arrival : Type 0 where
  on_active : Bool → Arrival
  on_passive : Bool → Arrival
  timed_out : Arrival

-- What a round of `processSession` leads to.
pub data RemoteNext : Type 0 where
  again : RemoteNext
  wait_connection : RemoteNext
  serve_connection : RemoteNext
  give_up : RemoteNext

-- `Release` of both tunnels.
unfoldable pub release_both : Remote → List PeerEvent
unfolding release_tunnel
release_both r = release_tunnel r.tun_active ++ release_tunnel r.tun_passive

-- One round of the loop, on the state of the message that has just been read.
unfoldable pub remote_round : ℤ → RemoteNext
remote_round (pos (suc (suc zero))) = wait_connection
remote_round (pos (suc (suc (suc zero)))) = serve_connection
remote_round (pos (suc (suc (suc (suc zero))))) = give_up
remote_round _ = again

-- The last part of `handleState1_SendRemoteAddr`: the tunnel, by what the other end sent.
unfoldable pub offer_tunnel : Bytes → RedisJson → ℕ → Remote × List PeerEvent
offer_tunnel transport j zero =
    let t : Tunnel = record { direction = active; session = j.session_id; transport = transport } in
    let offer = record j { send_port_count = 0x100 } in
    (
      record { json = offer; conn_type = 0; tun_active = some t; tun_passive = none },
      created t j.remote_addr j.local_addr 0 ∷ sent j.session_id j.redis_timeout offer ∷ [],
    )
offer_tunnel transport j (suc _) =
    let t : Tunnel = record {
      direction = passive;
      session = j.session_id;
      transport = transport;
    } in
    (
      record { json = j; conn_type = 1; tun_active = none; tun_passive = some t },
      created t j.remote_addr j.local_addr 0x100
          ∷ started t
          ∷ sent j.session_id j.redis_timeout j
          ∷ [],
    )

-- `handleState2_WaitConnection` up to the wait.
unfoldable pub begin_wait : Remote → List PeerEvent
begin_wait r = elim r.tun_active [
  | none ↦ []
  | some t ↦ if r.conn_type == 0 then started t ∷ [] else []
]

-- The end of the wait: what is sent, and what the round leads to.
unfoldable pub end_wait : Arrival → Remote → Remote × RemoteNext × List PeerEvent
end_wait arrival r =
    let to : ℕ → Remote = λ n. record r { json = record (r.json) { state = pos n } } in
    let send : ℕ → List PeerEvent =
      λ n. sent r.json.session_id r.json.redis_timeout (to n).json ∷ [] in
    elim arrival [
      | on_active up ↦ (to 3, if up then serve_connection else again, send 3)
      | on_passive up ↦ (to 3, if up then serve_connection else again, send 3)
      | timed_out ↦ (to 4, give_up, send 4)
    ]

module _ (version : Bytes) (timeout : ℕ) where
  unfoldable pub refresh : RedisJson → RedisJson
  refresh j = record j {
    remote_version = version;
    socket_timeout = timeout * 1000000000;
    redis_timeout = timeout * 1000000000 * 3;
  }

  -- `handleState1_SendRemoteAddr`, on what `GetUDPAddr` returns; whether it returns nil.
  unfoldable pub send_remote_addr :
      (transport : Bytes) (allow : Bool)
      → Option AddrType
      → RedisJson
      → Bool × Remote × List PeerEvent
  unfolding refresh offer_tunnel
  send_remote_addr transport allow probe claimed =
      let j = record (refresh claimed) { state = pos 1 } in
      if not (versions_compatible version j.local_version)
      then (let refusal = record j { state = negsuc 0 } in
          (false, new_remote refusal, sent j.session_id (j.socket_timeout * 3) refusal ∷ []))
      else (let own = record j { transport = transport; allow_local_proxy = some allow } in
          elim probe [
            | none ↦ (false, new_remote own, [])
            | some addr ↦
                (let (r, events) =
                    offer_tunnel transport (record own { remote_addr = addr })
                      j.local_addr.wan_port1 in
                  (true, r, events))
          ])

  -- The message is read into the one that is there.
  unfoldable pub remote_reads : Remote → RedisJson → Remote
  unfolding merge refresh
  remote_reads r j = record r { json = refresh (merge r.json j) }
