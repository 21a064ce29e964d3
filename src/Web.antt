-- ===== src/Web.antt =====
-- ui2/server.go: who may use the interface; ui2/log.go: the logs that it shows.
use good_link.Base.{
  drop, Bool, true, ℕ, [], ltb, ◌++◌, List, length, Bytes, ◌==◌, some, Option, not, ◌-◌, false,
  if◌then◌else◌, ◌∷◌, none,
}
use good_link.Net.{Ip, equal, equal_iff, to4, ip_equal}
use good_link.Config.Text.{trim_space, to_lower}
use good_link.Panel.Services.{StartError, already_started, busy}
pub mod Access
pub mod Logs
mod Tests

abbrev pub ipv6_loopback : Ip
ipv6_loopback = 0 ∷ 0 ∷ 0 ∷ 0 ∷ 0 ∷ 0 ∷ 0 ∷ 0 ∷ 0 ∷ 0 ∷ 0 ∷ 0 ∷ 0 ∷ 0 ∷ 0 ∷ 1 ∷ []

abbrev pub starts_127 : Ip → Bool
starts_127 [] = false
starts_127 (b ∷ bs) = b == 127

-- `IP.IsLoopback`
unfoldable pub is_loopback : Ip → Bool
is_loopback ip = elim (to4 ip) [ some ip4 ↦ starts_127 ip4 | none ↦ ip_equal ip ipv6_loopback ]

abbrev pub localhost : Bytes
localhost = b'l' ∷ b'o' ∷ b'c' ∷ b'a' ∷ b'l' ∷ b'h' ∷ b'o' ∷ b's' ∷ b't' ∷ []

-- What `authorize` looks at: the address of the other side, and two headers.
pub record WebRequest : Type 0 where
  pub remote_addr : Bytes
  pub host : Bytes
  pub token : Bytes

module _ (parse_ip : Bytes → Option Ip) (split_host_port : Bytes → Option (Bytes × Bytes)) where
  unfoldable pub loopback_text : Bytes → Bool
  loopback_text s = elim (parse_ip s) [ some ip ↦ is_loopback ip | none ↦ false ]

  -- The host of an address, or the whole text.
  unfoldable pub host_of : Bytes → Bytes
  host_of addr = elim (split_host_port addr) [ some (host, port) ↦ host | none ↦ addr ]

  unfoldable pub is_local_host_header : Bytes → Bool
  is_local_host_header host =
      let h = to_lower (trim_space (host_of host)) in
      if equal h localhost then true else loopback_text h

  unfoldable pub authorize : (ui_token : Bytes) → WebRequest → Bool
  authorize ui_token r =
      if loopback_text (host_of r.remote_addr)
      then if not (is_local_host_header r.host) then false else true
      else if equal ui_token []
      then false
      else if not (equal r.token ui_token)
      then false
      else true

-- The code of `writeServiceErr`.
unfoldable pub service_err_code : StartError → ℕ
service_err_code already_started = 409
service_err_code busy = 409
service_err_code _ = 400

abbrev pub max_log_entries : ℕ
max_log_entries = 500

-- `appendRing` with a limit.
unfoldable pub append_limited : ℕ → List Bytes → Bytes → List Bytes
append_limited limit entries content =
    let longer = entries ++ content ∷ [] in
    if ltb limit (length longer) then drop (length longer - limit) longer else longer

unfoldable pub append_ring : List Bytes → Bytes → List Bytes
append_ring entries content = append_limited max_log_entries entries content
