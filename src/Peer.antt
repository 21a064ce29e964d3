-- ===== src/Peer.antt =====
-- pro/comm.go, pro/local.go, pro/remote.go: how the two ends of a tunnel agree on a session through
-- a store that both can reach. The tunnels themselves are of another package: one is known by its
-- direction, its transport and its session.
pub mod Local
pub mod Remote
pub mod Steps
pub mod Stage
pub mod Turns
pub mod Refines
pub mod Fits
pub mod Agree
pub mod Attempts
pub mod Probe
pub mod Store
mod Tests
use good_link.Base.{Option, Bytes, none, ℤ, ℕ, [], Bool, some, if◌then◌else◌, ◌&&◌, true, not}
use good_link.Net.{equal}
use good_link.Config.Text.{normalize_transport, quic_name, kcp_name}

-- What the code reads of `tun.AddrType`.
pub record AddrType : Type 0 where
  pub local_ipv4 : Bytes
  pub ipv6 : Bytes
  pub local_port : ℕ
  pub wan_ipv4 : Bytes
  pub wan_port1 : ℕ
  pub wan_port2 : ℕ
  pub wan_port3 : ℕ

abbrev pub no_addr : AddrType
no_addr = record {
  local_ipv4 = [];
  ipv6 = [];
  local_port = 0;
  wan_ipv4 = [];
  wan_port1 = 0;
  wan_port2 = 0;
  wan_port3 = 0;
}

-- Both ends send and receive it. Times are in nanoseconds.
pub record RedisJson : Type 0 where
  pub local_version : Bytes
  pub remote_version : Bytes
  pub session_id : Bytes
  pub state : ℤ
  pub transport : Bytes
  pub socket_timeout : ℕ
  pub redis_timeout : ℕ
  pub send_port_count : ℕ
  pub connect_count : ℕ
  pub remote_addr : AddrType
  pub local_addr : AddrType
  pub allow_local_proxy : Option Bool

unfoldable pub proxy_allowed : RedisJson → Bool
proxy_allowed j = elim j.allow_local_proxy [ none ↦ true | some b ↦ b ]

-- `json.Unmarshal` into a message that is there: a field that may be left out keeps its value.
unfoldable pub merge : RedisJson → RedisJson → RedisJson
merge old new = record new {
  allow_local_proxy = elim new.allow_local_proxy [ none ↦ old.allow_local_proxy | some b ↦ some b ];
}

unfoldable pub session_transport : Bytes → Bytes
unfolding equal
session_transport s =
    let t = normalize_transport s in
    if not (equal t quic_name) && not (equal t kcp_name) then kcp_name else t

pub data Direction : Type 0 where
  active : Direction
  passive : Direction

pub record Tunnel : Type 0 where
  pub direction : Direction
  pub session : Bytes
  pub transport : Bytes

abbrev pub opposite : Direction → Direction
opposite active = passive
opposite passive = active

-- What the handlers do besides changing their own state. `sent` has the time to live.
pub data PeerEvent : Type 0 where
  reported : ℕ → PeerEvent
  deleted : Bytes → PeerEvent
  released : Tunnel → PeerEvent
  created : Tunnel → AddrType → AddrType → ℕ → PeerEvent
  started : Tunnel → PeerEvent
  sent : Bytes → ℕ → RedisJson → PeerEvent

abbrev pub status_connecting : ℕ
status_connecting = 1

abbrev pub status_connecting_nat4 : ℕ
status_connecting_nat4 = 2

abbrev pub status_connected : ℕ
status_connected = 3

abbrev pub status_version_mismatch : ℕ
status_version_mismatch = 5

abbrev pub status_transport_mismatch : ℕ
status_transport_mismatch = 6

abbrev pub status_need_admin : ℕ
status_need_admin = 7

abbrev pub status_connect_failed : ℕ
status_connect_failed = 8
