-- ===== src/Proxy/Manager/Builtin.antt =====
-- proxy/forward_mgr.go: `StartBuiltinProxy`. What a listener's `Addr` tells is `bound`, and the port
-- of it, where it is a TCP address, is `tcp_port`; both by the runner's number.
use good_link.Base.{
  Bool, ℕ, Option, none, some, Bytes, ◌∷◌, [], true, false, Outcome, ok, err, not, ◌&&◌,
  if◌then◌else◌,
}
use good_link.Net.{equal}
use good_link.Config.Text.{itoa, join_host_port}
use good_link.Proxy.Header.{proxy_port}
use good_link.Proxy.Manager.{ForwardRule, Runner, ForwardManager, Listeners, new_runner}

-- `BuiltinProxyHost`
abbrev pub builtin_proxy_host : Bytes
builtin_proxy_host = b'1' ∷ b'2' ∷ b'7' ∷ b'.' ∷ b'0' ∷ b'.' ∷ b'0' ∷ b'.' ∷ b'1' ∷ []

-- What the two listeners are asked for, and where the runner leads.
abbrev pub builtin_rule : (port : ℕ) → ForwardRule
builtin_rule port = record {
  listen_addr = join_host_port builtin_proxy_host (itoa port);
  remote_ip = 127 ∷ 0 ∷ 0 ∷ 1 ∷ [];
  remote_port = proxy_port;
  proto = 0;
}

pub data BuiltinError : Type 0 where
  manager_closed : BuiltinError
  not_listening : BuiltinError

-- The address that listens, and whether it is not the usual one.
abbrev pub BuiltinStart : Type 0
BuiltinStart = Outcome BuiltinError (Bytes × Bool)

module _ (listens : ℕ → ForwardRule → Bool) (bound : ℕ → Bytes) (tcp_port : ℕ → Option ℕ)
    (split_host_port : Bytes → Option (Bytes × Bytes)) where
  -- Whether the address of a runner that is there is on another port.
  unfoldable pub is_fallback : Bytes → Bool
  is_fallback addr = elim (split_host_port addr) [
    | none ↦ false
    | some (host, port) ↦ equal host builtin_proxy_host && not (equal port (itoa proxy_port))
  ]

  -- The address of a new listener.
  unfoldable pub builtin_addr : ℕ → Bytes
  builtin_addr id = elim (tcp_port id) [
    | none ↦ bound id
    | some port ↦ join_host_port builtin_proxy_host (itoa port)
  ]

  -- The second listener, on any port, where the first one has failed.
  abbrev pub start_anywhere :
      ForwardManager → Option Runner × Listeners → ForwardManager × BuiltinStart
  start_anywhere m (none, l) = (record m { listeners = l }, err not_listening)
  start_anywhere m (some r, l) =
      (record m { builtin = some r; listeners = l }, ok (builtin_addr r.id, true))

  abbrev pub start_preferred :
      ForwardManager → Option Runner × Listeners → ForwardManager × BuiltinStart
  start_preferred m (none, l) = start_anywhere m (new_runner listens (builtin_rule 0) m.quic l)
  start_preferred m (some r, l) =
      (record m { builtin = some r; listeners = l }, ok (builtin_addr r.id, false))

  abbrev pub start_new : ForwardManager → ForwardManager × BuiltinStart
  start_new m = start_preferred m (new_runner listens (builtin_rule proxy_port) m.quic m.listeners)

  -- A runner whose address is empty is passed over.
  abbrev pub start_over : Option Runner → ForwardManager → ForwardManager × BuiltinStart
  start_over none m = start_new m
  start_over (some r) m =
      if equal (bound r.id) [] then start_new m else (m, ok (bound r.id, is_fallback (bound r.id)))

  abbrev pub start_unless : (closed : Bool) → ForwardManager → ForwardManager × BuiltinStart
  start_unless true m = (m, err manager_closed)
  start_unless false m = start_over m.builtin m

  unfoldable pub start_builtin_proxy : ForwardManager → ForwardManager × BuiltinStart
  start_builtin_proxy m = start_unless m.closed m
