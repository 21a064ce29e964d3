-- ===== src/Panel/Messages.antt =====
-- pro/log.go, ui2/start.go, ui2/state.go: what the child prints of its state, and what the
-- interface makes of a line; `HandleStop`.
use good_link.Base.{
  [], ◌∷◌, ◌++◌, Option, ◌||◌, List, if◌then◌else◌, ℕ, leb, Bool, none, not, ◌&&◌, ◌==◌, true,
  Bytes, ℤ, false, some, pos, negsuc,
}
use good_link.Net.{equal}
use good_link.Config.Text.{trim_space, itoa}
use good_link.Panel as Panel
use good_link.Panel.{SvcProc, disable_auto_restart, stop_service, status_idle, status_stopping}
use good_link.Panel.Services as Services
use good_link.Panel.Services.{ServiceState, lookup_service, get_service_status, local_work}
use good_link.Panel.Edits.{mutate_service}
use good_link.Peer as Peer

-- `TagStatusPrefix`
abbrev pub tag_status_prefix : Bytes
tag_status_prefix =
    b'[' ∷ b'G' ∷ b'O' ∷ b'O' ∷ b'D' ∷ b'L' ∷ b'I' ∷ b'N' ∷ b'K' ∷ b'_' ∷ b'S' ∷ b'T' ∷ b'A' ∷ b'T'
    ∷ b'U' ∷ b'S' ∷ b']' ∷ []

abbrev pub tag_proxy_prefix : Bytes
tag_proxy_prefix =
    b'[' ∷ b'G' ∷ b'O' ∷ b'O' ∷ b'D' ∷ b'L' ∷ b'I' ∷ b'N' ∷ b'K' ∷ b'_' ∷ b'P' ∷ b'R' ∷ b'O' ∷ b'X'
    ∷ b'Y' ∷ b']' ∷ []

abbrev pub proxy_deny_token : Bytes
proxy_deny_token = b'd' ∷ b'e' ∷ b'n' ∷ b'y' ∷ []

-- `pro.StatusRunning`
abbrev pub reported_running : ℕ
reported_running = 4

-- The lines that the child prints; `stamp` is what the `log` package puts in front.
unfoldable pub update_start_button_statue : (stamp : Bytes) → ℕ → Bytes
update_start_button_statue stamp status = stamp ++ (tag_status_prefix ++ itoa status)

unfoldable pub report_proxy_addr : (stamp : Bytes) → Bytes → Bytes
report_proxy_addr stamp addr = stamp ++ (tag_proxy_prefix ++ addr)

unfoldable pub report_proxy_denied : (stamp : Bytes) → Bytes
report_proxy_denied stamp = stamp ++ (tag_proxy_prefix ++ proxy_deny_token)

-- What is behind a prefix.
unfoldable pub behind_prefix : Bytes → Bytes → Option Bytes
behind_prefix [] s = some s
behind_prefix (b ∷ p) [] = none
behind_prefix (b ∷ p) (c ∷ s) = let rest = behind_prefix p s in if b == c then rest else none

-- `strings.Index`, and what is behind the first occurrence.
unfoldable pub after_tag : Bytes → Bytes → Option Bytes
after_tag tag [] = behind_prefix tag []
after_tag tag (c ∷ s) =
    let later = after_tag tag s in
    elim (behind_prefix tag (c ∷ s)) [ some rest ↦ some rest | none ↦ later ]

unfoldable pub known_status : ℕ → Bool
known_status n =
    n == Peer.status_connecting
    || n == Peer.status_connecting_nat4
    || n == Peer.status_connected
    || n == reported_running
    || n == Peer.status_version_mismatch
    || n == Peer.status_transport_mismatch
    || n == Peer.status_need_admin
    || n == Peer.status_connect_failed

abbrev pub known : ℤ → Option ℕ
known (pos n) = if known_status n then some n else none
known (negsuc n) = none

unfoldable pub parse_proxy_message : Bytes → Option Bytes
parse_proxy_message line = elim (after_tag tag_proxy_prefix line) [
  | none ↦ none
  | some rest ↦ if equal (trim_space rest) [] then none else some (trim_space rest)
]

-- A service in memory and its process.
abbrev pub Managed : Type 0
Managed = List ServiceState × SvcProc

unfoldable pub set_service_status : Bytes → ℕ → List ServiceState → List ServiceState
set_service_status id st ss = mutate_service id (λ s. record s { status = st }) ss

unfoldable pub reset_proxy_listen : Bytes → List ServiceState → List ServiceState
reset_proxy_listen id ss =
    mutate_service id (λ s. record s { proxy_host = []; proxy_port = pos 0; proxy_denied = false })
      ss

-- `updateConnectionStatus`, and whether `stopServiceProcess` follows after half a second.
unfoldable pub update_connection_status : Bytes → ℕ → Managed → Managed × Bool
update_connection_status id status (ss, p) =
    if status == Peer.status_connecting
    then ((set_service_status id Services.status_connecting ss, p), false)
    else if status == Peer.status_connected
    then ((set_service_status id Services.status_connected ss, p), false)
    else if status == Peer.status_connecting_nat4
    then ((set_service_status id Panel.status_connecting_nat4 ss, disable_auto_restart p), true)
    else if status == Peer.status_connect_failed
    then ((set_service_status id Panel.status_connect_failed ss, disable_auto_restart p), true)
    else if status == reported_running
    then ((set_service_status id Services.status_running ss, p), false)
    else if status == Peer.status_version_mismatch || status == Peer.status_transport_mismatch
    then ((ss, disable_auto_restart p), true)
    else if status == Peer.status_need_admin
    then ((ss, disable_auto_restart p), true)
    else ((ss, p), false)

-- `HandleStop`, and whether the process is then stop_rest.
unfoldable pub handle_stop : Bytes → Managed → Managed × Bool
handle_stop id (ss, p) =
    let st = get_service_status id ss in
    if p.started
    then ((set_service_status id status_stopping ss, disable_auto_restart p), true)
    else if st == Panel.status_connect_failed || st == Panel.status_connecting_nat4
    then ((set_service_status id status_idle (reset_proxy_listen id ss), p), false)
    else ((ss, p), false)

-- The goroutine of `HandleStop`, and the child to kill.
unfoldable pub stop_rest : Bytes → Managed → Managed × Option ℕ
stop_rest id (ss, p) =
    let (after, child) = stop_service p in
    ((set_service_status id status_idle (reset_proxy_listen id ss), after), child)

-- The test of the port.
abbrev pub port_in_range : ℤ → Bool
port_in_range (pos n) = not (n == 0) && leb n 65535
port_in_range (negsuc n) = false

module _ (split_host_port : Bytes → Option (Bytes × Bytes)) (atoi : Bytes → Option ℤ) where
  unfoldable pub parse_status_message : Bytes → Option ℕ
  parse_status_message line = elim (after_tag tag_status_prefix line) [
    | none ↦ none
    | some rest ↦ elim (atoi (trim_space rest)) [ none ↦ none | some z ↦ known z ]
  ]

  unfoldable pub set_proxy_listen : Bytes → Bytes → List ServiceState → List ServiceState
  set_proxy_listen id addr ss =
      let denied =
        mutate_service id
          (λ s. record s { proxy_host = []; proxy_port = pos 0; proxy_denied = true }) ss in
      let listens : List ServiceState = elim (split_host_port (trim_space addr)) [
        | none ↦ ss
        | some (host, port) ↦ elim (atoi port) [
          | none ↦ ss
          | some n ↦
              if port_in_range n
              then mutate_service id
                  (λ s. record s { proxy_host = host; proxy_port = n; proxy_denied = false }) ss
              else ss
        ]
      ] in
      if equal (trim_space addr) proxy_deny_token then denied else listens

  -- One round of the scanner's loop; the last part is whether the line goes to the log.
  unfoldable pub handle_line : Bytes → Bytes → Managed → Managed × Bool × Bool
  handle_line id line (ss, p) = elim (parse_proxy_message line) [
    | some addr ↦ ((set_proxy_listen id addr ss, p), false, false)
    | none ↦ elim (parse_status_message line) [
      | some status ↦ let r = update_connection_status id status (ss, p) in (r.0, r.1, false)
      | none ↦ ((ss, p), false, true)
    ]
  ]
