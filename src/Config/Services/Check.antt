-- ===== src/Config/Services/Check.antt =====
-- config/uiconfig.go: `NormalizeAndValidate`, on the list of services; the result is the list that
-- the code leaves in the configuration. `new_id i` is the random id for the i-th service.
use good_link.Base.{
  ok, ◌∷◌, ◌>>◌, not, length, List, none, if◌then◌else◌, ◌++◌, err, fail_if, Option, ◌&&◌, [], ◌||◌,
  suc, ltb, true, Outcome, zero, Bytes, panic, Bool, stuck, ℕ, false, some, ℤ, ◌>>=◌,
}
use good_link.Dict.{Dict, lookup, put}
use good_link.Net.{Ip, equal}
use good_link.Config.Text.{
  trim_space, to_lower, itoa, join_host_port, normalize_transport, quic_name, kcp_name, is_control,
}
use good_link.Config.Services.{
  UiForwardRule, UiService, ConfigError, AddrError, duplicate_id, long_name, control_in_name,
  duplicate_name, duplicate_tun_key, bad_local_mode, bad_transport, bad_proto, bad_listen,
  bad_remote, duplicate_listen, bad_tun_ip, duplicate_tun_ip, listen_conflict, tcp_name, udp_name,
  tun_mode, forward_mode, service_label, listen_rule_key, service_name_by_id, validate_tun_ip,
  allocate_tun_ip, parse_host_port_ipv4,
}

abbrev pub Names : Type 0
Names = Dict (Unit {0})

unfoldable pub is_in : {V : Type 0} → Bytes → Dict V → Bool
unfolding lookup
is_in k m = elim (lookup k m) [ none ↦ false | some _ ↦ true ]

-- The loop that looks for a free name.
unfoldable pub free_label : ℕ → ℕ → Names → Outcome ConfigError Bytes
free_label zero n used = stuck
free_label (suc fuel) n used =
    let rest = free_label fuel (suc n) used in
    if is_in (service_label n) used then rest else ok (service_label n)

unfoldable pub any_control : Bytes → Bool
unfolding is_control
any_control [] = false
any_control (c ∷ s) = is_control c || any_control s

-- The checks on a name that is not blank.
unfoldable pub check_name : Bytes → Names → Outcome ConfigError Bytes
unfolding any_control
check_name name used =
    fail_if (ltb 32 (length name)) (long_name name)
    >> (fail_if (any_control name) control_in_name
        >> (fail_if (is_in name used) (duplicate_name name) >> ok name))

-- The loop has as much fuel as there are names, and one more.
unfoldable pub normalize_service_name : Bytes → Names → ℕ → Outcome ConfigError Bytes
unfolding free_label check_name trim_space
normalize_service_name name used index =
    let trimmed = trim_space name in
    if equal trimmed []
    then free_label (suc (length used)) (suc index) used
    else check_name trimmed used

-- `if err != nil { return fmt.Errorf(…, err) }`
unfoldable pub or_fail {ℓ} :
    {A : Type ℓ} → (AddrError → ConfigError) → Outcome AddrError A → Outcome ConfigError A
or_fail f (ok a) = ok a
or_fail f (err e) = err (f e)
or_fail f panic = panic
or_fail f stuck = stuck

abbrev pub rule_of : Bytes → Bytes × ℕ → Bytes × ℕ → UiForwardRule
rule_of proto listen remote = record {
  proto = proto;
  listen = join_host_port listen.0 (itoa listen.1);
  remote = join_host_port remote.0 (itoa remote.1);
}

abbrev pub rule_key : UiForwardRule → Bytes
rule_key r = r.proto ++ b'|' ∷ r.listen

-- `ids`, `names`, `keys`, `ips` and `listens`.
pub record Seen : Type 0 where
  pub ids : Names
  pub names : Names
  pub keys : Dict Bytes
  pub ips : Names
  pub listens : Dict Bytes

abbrev pub nothing_seen : Seen
nothing_seen = record { ids = []; names = []; keys = []; ips = []; listens = [] }

unfoldable pub id_of : (new_id : ℕ → Bytes) → ℕ → Bytes → Bytes
id_of new_id i id = let t = trim_space id in if equal t [] then new_id i else t

unfoldable pub key_owner : Bytes → Seen → Bytes
key_owner key seen = elim (lookup key seen.keys) [ none ↦ [] | some name ↦ name ]

-- The loop over the rules of a service that forwards.
unfoldable pub check_listens :
    List UiService → UiService → Dict Bytes → List UiForwardRule → Outcome ConfigError (Dict Bytes)
unfolding listen_rule_key
check_listens services s listens [] = ok listens
check_listens services s listens (r ∷ rs) =
    let key = listen_rule_key r in
    let rest = check_listens services s (put key s.id listens) rs in
    elim (lookup key listens) [
      | none ↦ rest
      | some other ↦
          if equal other s.id
          then rest
          else err (listen_conflict s.name (service_name_by_id services other) r.listen)
    ]

unfoldable pub service_listens :
    List UiService → UiService → Dict Bytes → Outcome ConfigError (Dict Bytes)
unfolding check_listens
service_listens services s listens =
    if equal s.local_mode forward_mode
    then check_listens services s listens s.forward_rules
    else ok listens

-- The entries that the loop's body makes in the maps.
unfoldable pub note_service : UiService → Dict Bytes → Seen → Seen
note_service s listens seen = record {
  ids = put s.id tt seen.ids;
  names = put s.name tt seen.names;
  keys = if equal s.tun_key [] then seen.keys else put s.tun_key s.name seen.keys;
  ips = put s.tun_ip tt seen.ips;
  listens = listens;
}

-- The body of the last loop: whether an earlier service starts on its own.
unfoldable pub settle_auto_start : Bool → UiService → UiService
settle_auto_start kept s = if kept && s.auto_start then record s { auto_start = false } else s

unfoldable pub keep_auto_start : Bool → List UiService → List UiService
unfolding settle_auto_start
keep_auto_start kept [] = []
keep_auto_start kept (s ∷ ss) = settle_auto_start kept s ∷ keep_auto_start (kept || s.auto_start) ss

unfoldable pub mode_of : Bytes → Bytes
mode_of s = let t = to_lower (trim_space s) in if equal t [] then tun_mode else t

-- The first half of the loop's body: the id, the name and the key.
unfoldable pub check_identity :
    (new_id : ℕ → Bytes) → Seen → ℕ → UiService → Outcome ConfigError UiService
unfolding id_of key_owner
check_identity new_id seen i s =
    let id = id_of new_id i s.id in
    let key = trim_space s.tun_key in
    fail_if (is_in id seen.ids) (duplicate_id id)
    >> (normalize_service_name s.name seen.names i >>= λ name.
        fail_if (not (equal key []) && is_in key seen.keys) (duplicate_tun_key (key_owner key seen))
        >> ok
            (record s { id = id; name = name; work_type = trim_space s.work_type; tun_key = key }))

module _ (parse_ip : Bytes → Option Ip) (split_host_port : Bytes → Option (Bytes × Bytes))
    (atoi : Bytes → Option ℤ) where
  -- One rule, without the test for a duplicate.
  unfoldable pub normalize_rule : Bytes → ℕ → UiForwardRule → Outcome ConfigError UiForwardRule
  unfolding or_fail
  normalize_rule label i r =
      let proto = to_lower (trim_space r.proto) in
      fail_if (not (equal proto tcp_name) && not (equal proto udp_name)) (bad_proto label i)
      >> (or_fail (bad_listen label i) (parse_host_port_ipv4 parse_ip split_host_port atoi r.listen)
          >>= λ listen.
              or_fail (bad_remote label i)
                (parse_host_port_ipv4 parse_ip split_host_port atoi r.remote)
              >>= λ remote. ok (rule_of proto listen remote))

  unfoldable pub normalize_rules :
      Bytes → ℕ → Names → List UiForwardRule → Outcome ConfigError (List UiForwardRule)
  normalize_rules label i seen [] = ok []
  normalize_rules label i seen (r ∷ rs) = normalize_rule label (suc i) r >>= λ n.
      fail_if (is_in (rule_key n) seen) (duplicate_listen label (suc i))
      >> (normalize_rules label (suc i) (put (rule_key n) tt seen) rs >>= λ out. ok (n ∷ out))

  unfoldable pub normalize_service_mode : UiService → Bytes → Outcome ConfigError UiService
  unfolding mode_of
  normalize_service_mode s label =
      let mode = mode_of s.local_mode in
      let transport = normalize_transport s.transport in
      fail_if (not (equal mode tun_mode) && not (equal mode forward_mode)) (bad_local_mode label)
      >> (fail_if (not (equal transport quic_name) && not (equal transport kcp_name))
            (bad_transport label)
          >> (normalize_rules label 0 [] s.forward_rules >>= λ rules.
              ok (record s { local_mode = mode; transport = transport; forward_rules = rules })))

  -- The address; `services` is the configuration as it is then.
  unfoldable pub fill_tun_ip : List UiService → UiService → UiService
  fill_tun_ip services s =
      if equal (trim_space s.tun_ip) []
      then record s { tun_ip = allocate_tun_ip parse_ip services }
      else s

  unfoldable pub check_address :
      Seen → List UiService → List UiService → UiService → Outcome ConfigError UiService
  unfolding fill_tun_ip
  check_address seen done rest s =
      let a = fill_tun_ip (done ++ s ∷ rest) s in
      fail_if (not (validate_tun_ip parse_ip a.tun_ip)) (bad_tun_ip a.name a.tun_ip)
      >> (fail_if (is_in a.tun_ip seen.ips) (duplicate_tun_ip a.name a.tun_ip) >> ok a)

  -- The body of the loop over the services.
  unfoldable pub check_service :
      (new_id : ℕ → Bytes)
      → Seen
      → List UiService
      → List UiService
      → ℕ
      → UiService
      → Outcome ConfigError (UiService × Seen)
  unfolding note_service
  check_service new_id seen done rest i s = check_identity new_id seen i s >>= λ known.
      normalize_service_mode known known.name >>= λ moded.
      check_address seen done rest moded >>= λ placed.
      service_listens (done ++ placed ∷ rest) placed seen.listens >>= λ listens.
      ok (placed, note_service placed listens seen)

  -- The loop: `done` is the part of the list that it has been through.
  unfoldable pub check_services :
      (new_id : ℕ → Bytes)
      → Seen
      → List UiService
      → ℕ
      → List UiService
      → Outcome ConfigError (List UiService)
  check_services new_id seen done i [] = ok []
  check_services new_id seen done i (s ∷ rest) =
      check_service new_id seen done rest i s >>= λ (c, seen').
      check_services new_id seen' (done ++ c ∷ []) (suc i) rest >>= λ out. ok (c ∷ out)

  unfoldable pub normalize_and_validate :
      (new_id : ℕ → Bytes) → List UiService → Outcome ConfigError (List UiService)
  unfolding keep_auto_start
  normalize_and_validate new_id services =
      check_services new_id nothing_seen [] 0 services >>= λ out. ok (keep_auto_start false out)
