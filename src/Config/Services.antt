-- ===== src/Config/Services.antt =====
-- config/uiconfig.go: the services of the interface's configuration, and what reads their fields.
-- `net.ParseIP`, `net.SplitHostPort` and `strconv.Atoi` are parameters.
pub mod Check
pub mod Apart
pub mod Names
pub mod Segments
pub mod Valid
pub mod Rules
pub mod Whole
pub mod Total
mod Tests
use good_link.Base.{
  ℕ, ◌++◌, zero, leb, none, ℤ, Bytes, if◌then◌else◌, true, ok, ◌&&◌, err, suc, Outcome, ◌||◌,
  Option, some, List, Bool, [], ◌==◌, ltb, false, ◌∷◌, pos, negsuc,
}
use good_link.Net.{Ip, to4, equal}
use good_link.Config.Text.{
  contains, trim_space, to_lower, itoa, join_host_port, normalize_transport, quic_name, kcp_name,
}

pub record UiForwardRule : Type 0 where
  pub proto : Bytes
  pub listen : Bytes
  pub remote : Bytes

pub record UiService : Type 0 where
  pub id : Bytes
  pub name : Bytes
  pub work_type : Bytes
  pub tun_key : Bytes
  pub local_mode : Bytes
  pub transport : Bytes
  pub tun_ip : Bytes
  pub auto_start : Bool
  pub forward_rules : List UiForwardRule
  pub allow_local_proxy : Option Bool

unfoldable pub local_proxy_allowed : UiService → Bool
local_proxy_allowed s = elim s.allow_local_proxy [ none ↦ true | some b ↦ b ]

-- What makes an address with a port unusable.
pub data AddrError : Type 0 where
  no_host_port : AddrError
  not_ipv4 : Bytes → AddrError
  bad_port : Bytes → AddrError

-- The errors, with what their texts tell.
pub data ConfigError : Type 0 where
  duplicate_id : Bytes → ConfigError
  long_name : Bytes → ConfigError
  control_in_name : ConfigError
  duplicate_name : Bytes → ConfigError
  duplicate_tun_key : Bytes → ConfigError
  bad_local_mode : Bytes → ConfigError
  bad_transport : Bytes → ConfigError
  bad_proto : Bytes → ℕ → ConfigError
  bad_listen : Bytes → ℕ → AddrError → ConfigError
  bad_remote : Bytes → ℕ → AddrError → ConfigError
  duplicate_listen : Bytes → ℕ → ConfigError
  bad_tun_ip : Bytes → Bytes → ConfigError
  duplicate_tun_ip : Bytes → Bytes → ConfigError
  listen_conflict : Bytes → Bytes → Bytes → ConfigError

abbrev pub tcp_name : Bytes
tcp_name = b't' ∷ b'c' ∷ b'p' ∷ []

abbrev pub udp_name : Bytes
udp_name = b'u' ∷ b'd' ∷ b'p' ∷ []

abbrev pub tun_mode : Bytes
tun_mode = b't' ∷ b'u' ∷ b'n' ∷ []

abbrev pub forward_mode : Bytes
forward_mode = b'f' ∷ b'o' ∷ b'r' ∷ b'w' ∷ b'a' ∷ b'r' ∷ b'd' ∷ []

abbrev pub tun_ip_prefix : Bytes
tun_ip_prefix = b'1' ∷ b'9' ∷ b'2' ∷ b'.' ∷ b'1' ∷ b'7' ∷ b'.' ∷ []

abbrev pub adapter_prefix : Bytes
adapter_prefix = b'G' ∷ b'o' ∷ b'o' ∷ b'd' ∷ b'l' ∷ b'i' ∷ b'n' ∷ b'k' ∷ []

-- `服务%d`
abbrev pub service_label : ℕ → Bytes
service_label n = 0x670d ∷ 0x52a1 ∷ itoa n

unfoldable pub listen_rule_key : UiForwardRule → Bytes
unfolding to_lower trim_space
listen_rule_key r = to_lower (trim_space r.proto) ++ b'|' ∷ r.listen

unfoldable pub find_service : List UiService → Bytes → Option UiService
unfolding equal
find_service [] id = none
find_service (s ∷ ss) id = if equal s.id id then some s else find_service ss id

unfoldable pub service_name_by_id : List UiService → Bytes → Bytes
unfolding find_service
service_name_by_id ss id = elim (find_service ss id) [ some s ↦ s.name | none ↦ id ]

-- `IP.String` of four bytes.
abbrev pub dotted : Ip → Bytes
dotted (a ∷ b ∷ c ∷ d ∷ []) = itoa a ++ b'.' ∷ itoa b ++ b'.' ∷ itoa c ++ b'.' ∷ itoa d
dotted _ = []

abbrev port_of : ℤ → Option ℕ
port_of (pos n) = if n == 0 || ltb 65535 n then none else some n
port_of (negsuc _) = none

abbrev pub tun_ip_of : ℕ → Bytes
tun_ip_of n = tun_ip_prefix ++ itoa n ++ b'.' ∷ b'1' ∷ []

-- The loop over the segments, for as many as are left.
unfoldable pub free_segment : List ℕ → ℕ → ℕ → Bytes
free_segment used zero n = []
free_segment used (suc left) n =
    let rest = free_segment used left (suc n) in if contains n used then rest else tun_ip_of n

unfoldable pub is_tun_ip : Ip → Bool
is_tun_ip (a ∷ b ∷ c ∷ d ∷ []) = a == 192 && b == 17 && d == 1 && leb 1 c
is_tun_ip _ = false

unfoldable pub segment_of : Ip → Option ℕ
segment_of (a ∷ b ∷ c ∷ d ∷ []) = if a == 192 && b == 17 && d == 1 then some c else none
segment_of _ = none

module _ (parse_ip : Bytes → Option Ip) where
  -- `net.ParseIP`, and `To4` where there is an address.
  unfoldable pub parse_ipv4 : Bytes → Option Ip
  unfolding to4
  parse_ipv4 s = elim (parse_ip s) [ none ↦ none | some ip ↦ to4 ip ]

  -- Whether `validateTunIP` returns nil.
  unfoldable pub validate_tun_ip : Bytes → Bool
  unfolding parse_ipv4 is_tun_ip
  validate_tun_ip s = elim (parse_ipv4 (trim_space s)) [ none ↦ false | some ip ↦ is_tun_ip ip ]

  unfoldable pub tun_segment_of : Bytes → Option ℕ
  unfolding parse_ipv4 segment_of
  tun_segment_of s = elim (parse_ipv4 (trim_space s)) [ none ↦ none | some ip ↦ segment_of ip ]

  unfoldable pub adapter_name : UiService → Bytes
  unfolding tun_segment_of
  adapter_name s = elim (tun_segment_of s.tun_ip) [
    | none ↦ adapter_prefix
    | some n ↦ adapter_prefix ++ b'-' ∷ itoa n
  ]

  -- `TunIfaceIP`
  unfoldable pub tun_iface_ip : UiService → Bytes
  unfolding tun_segment_of
  tun_iface_ip s = elim (tun_segment_of s.tun_ip) [
    | none ↦ []
    | some n ↦ tun_ip_prefix ++ itoa n ++ b'.' ∷ b'2' ∷ []
  ]

  -- The third bytes that services have.
  unfoldable pub used_segments : List UiService → List ℕ
  unfolding tun_segment_of
  used_segments [] = []
  used_segments (s ∷ ss) =
      let rest = used_segments ss in
      elim (tun_segment_of s.tun_ip) [ none ↦ rest | some n ↦ n ∷ rest ]

  unfoldable pub allocate_tun_ip : List UiService → Bytes
  unfolding free_segment used_segments
  allocate_tun_ip ss = free_segment (used_segments ss) 236 19

  module _ (split_host_port : Bytes → Option (Bytes × Bytes)) (atoi : Bytes → Option ℤ) where
    unfoldable pub parse_port : Bytes → Option ℕ
    parse_port s = elim (atoi s) [ none ↦ none | some n ↦ port_of n ]

    unfoldable pub parse_host_port_ipv4 : Bytes → Outcome AddrError (Bytes × ℕ)
    unfolding parse_ipv4 parse_port
    parse_host_port_ipv4 addr = elim (split_host_port (trim_space addr)) [
      | none ↦ err no_host_port
      | some (host, port) ↦ elim (parse_ipv4 host) [
        | none ↦ err (not_ipv4 host)
        | some ip ↦ elim (parse_port port) [
          | none ↦ err (bad_port port)
          | some n ↦ ok (dotted ip, n)
        ]
      ]
    ]
