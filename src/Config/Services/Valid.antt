-- ===== src/Config/Services/Valid.antt =====
-- config/uiconfig.go: what `NormalizeAndValidate` lets through.
use good_link.Base.{
  ok, not, Bytes, true, arith, ℕ, false, ◌⊎◌, Option, ◌&&◌, >>=-eq-ok, ℤ, ◌≢◌, fail_if-eq-ok, ◌≡◌,
  List, All, ap, ◌>>=◌, none, ◌∷◌, suc, [], sym, fail_if, ◌>>◌, Outcome, inr, inl, refl, ◌∙◌,
  Bool-cases, ◌++◌,
}
use good_link.Dict.{lookup, put, Dict}
use good_link.Net.{Ip, equal, equal_iff}
use good_link.Config.Text.{trim_space, to_lower, normalize_transport, quic_name, kcp_name}
use good_link.Config.Services.{
  UiForwardRule, UiService, ConfigError, bad_local_mode, bad_transport, bad_proto, bad_listen,
  bad_remote, duplicate_listen, tcp_name, udp_name, tun_mode, forward_mode, validate_tun_ip,
  parse_host_port_ipv4, allocate_tun_ip, duplicate_tun_ip, duplicate_tun_key, bad_tun_ip,
  duplicate_id,
}
use good_link.Config.Services.Names.{IsName, is_in-false, normalize_service_name-eq-ok}
use good_link.Config.Services.Apart.{Pairwise, lookup-put-none, IsFresh, service_listens-eq-ok}
use good_link.Config.Services.Check.{
  Names, is_in, or_fail, rule_of, rule_key, normalize_rule, normalize_rules, mode_of,
  normalize_service_mode, check_identity, fill_tun_ip, check_address, Seen, id_of, key_owner,
  normalize_service_name, service_listens, note_service, check_service,
}

abbrev IsProto : Bytes → Type 0
IsProto s = (s ≡ tcp_name) ⊎ (s ≡ udp_name)

abbrev OtherKeys : UiForwardRule → UiForwardRule → Type 0
OtherKeys r q = rule_key r ≢ rule_key q

-- The rules of a service: TCP or UDP, no two with one key.
abbrev pub AreRules : List UiForwardRule → Type 0
AreRules rs = All (λ r. IsProto r.proto) rs × Pairwise OtherKeys rs

-- One of two texts.
either-of : (s a b : Bytes) → (not (equal s a) && not (equal s b)) ≡ false → (s ≡ a) ⊎ (s ≡ b)
either-of s a b h = ground (arith, equal_iff s a, equal_iff s b)

check_identity-eq-ok :
    (new_id : ℕ → Bytes) (seen : Seen) (i : ℕ) (s : UiService) {out : UiService}
    → check_identity new_id seen i s ≡ ok out
    → (lookup out.id seen.ids ≡ none)
      × (lookup out.name seen.names ≡ none)
      × IsName out.name
      × ((out.tun_key ≡ []) ⊎ (lookup out.tun_key seen.keys ≡ none))
unfolding check_identity
check_identity-eq-ok new_id seen i s {out} h =
    let id = id_of new_id i s.id in
    let key = trim_space s.tun_key in
    let known : Bytes → UiService = λ name. record s {
      id = id;
      name = name;
      work_type = trim_space s.work_type;
      tun_key = key;
    } in
    let clash = duplicate_tun_key (key_owner key seen) in
    let taken = not (equal key []) && is_in key seen.keys in
    let finish : Bytes → Outcome ConfigError UiService =
      λ name. fail_if taken clash >> ok (known name) in
    let names = normalize_service_name s.name seen.names i in
    let (new, h1) = fail_if-eq-ok (is_in id seen.ids) (duplicate_id id) (names >>= finish) h in
    let (name, e, h2) = >>=-eq-ok names finish h1 in
    let (free, h3) = fail_if-eq-ok taken clash (ok (known name)) h2 in
    let (unused, is_name) = normalize_service_name-eq-ok s.name seen.names i e in
    let same : known name ≡ out = cc h3 in
    rw (sym same) (
      is_in-false id seen.ids new,
      unused,
      is_name,
      elim (Bool-cases (equal key [])) [
        | inl blank ↦ inl ((equal_iff key []).0 blank)
        | inr filled ↦ inr (is_in-false key seen.keys (rw filled at free))
      ],
    )

-- A service that the check lets through, on its own.
abbrev pub IsUsable : (parse_ip : Bytes → Option Ip) → UiService → Type 0
IsUsable parse_ip s =
    IsName s.name
    × ((s.local_mode ≡ tun_mode) ⊎ (s.local_mode ≡ forward_mode))
    × ((s.transport ≡ quic_name) ⊎ (s.transport ≡ kcp_name))
    × (validate_tun_ip parse_ip s.tun_ip ≡ true)
    × AreRules s.forward_rules

module _ (parse_ip : Bytes → Option Ip) (split_host_port : Bytes → Option (Bytes × Bytes))
    (atoi : Bytes → Option ℤ) where
  normalize_rule-eq-ok :
      (label : Bytes) (i : ℕ) (r : UiForwardRule) {out : UiForwardRule}
      → normalize_rule parse_ip split_host_port atoi label i r ≡ ok out
      → IsProto out.proto
  unfolding normalize_rule
  normalize_rule-eq-ok label i r {out} h =
      let proto = to_lower (trim_space r.proto) in
      let listens =
        or_fail (bad_listen label i)
          (parse_host_port_ipv4 parse_ip split_host_port atoi r.listen) in
      let remotes =
        or_fail (bad_remote label i)
          (parse_host_port_ipv4 parse_ip split_host_port atoi r.remote) in
      let finish : Bytes × ℕ → Outcome ConfigError UiForwardRule =
        λ listen. remotes >>= λ remote. ok (rule_of proto listen remote) in
      let (known, h1) =
        fail_if-eq-ok (not (equal proto tcp_name) && not (equal proto udp_name)) (bad_proto label i)
          (listens >>= finish) h in
      let (listen, _, h2) = >>=-eq-ok listens finish h1 in
      let (remote, _, h3) = >>=-eq-ok remotes (λ remote. ok (rule_of proto listen remote)) h2 in
      let same : rule_of proto listen remote ≡ out = cc h3 in
      rw (ap (λ q. q.proto) same) at (either-of proto tcp_name udp_name known)

  other_keys :
      (seen : Names) (n : UiForwardRule) (rs : List UiForwardRule)
      → All (λ r. lookup (rule_key r) (put (rule_key n) tt seen) ≡ none) rs
      → All (OtherKeys n) rs × All (λ r. lookup (rule_key r) seen ≡ none) rs
  other_keys seen n [] h = (tt, tt)
  other_keys seen n (r ∷ rs) h =
      let (other, free) = lookup-put-none (rule_key n) (rule_key r) tt seen h.0 in
      let (others, frees) = other_keys seen n rs h.1 in ((other, others), (free, frees))

  normalize_rules-eq-ok :
      (label : Bytes) (i : ℕ) (seen : Names) (rs : List UiForwardRule) {out : List UiForwardRule}
      → normalize_rules parse_ip split_host_port atoi label i seen rs ≡ ok out
      → AreRules out × All (λ r. lookup (rule_key r) seen ≡ none) out
  unfolding normalize_rules
  normalize_rules-eq-ok label i seen [] {out} h =
      let same : [] ≡ out = cc h in rw (sym same) ((tt, tt), tt)
  normalize_rules-eq-ok label i seen (r ∷ rs) {out} h =
      let rest : UiForwardRule → Outcome ConfigError (List UiForwardRule) = λ n.
        normalize_rules parse_ip split_host_port atoi label (suc i) (put (rule_key n) tt seen) rs in
      let one : UiForwardRule → Outcome ConfigError (List UiForwardRule) =
        λ n. rest n >>= λ ns. ok (n ∷ ns) in
      let (n, e1, h1) =
        >>=-eq-ok (normalize_rule parse_ip split_host_port atoi label (suc i) r)
          (λ n. fail_if (is_in (rule_key n) seen) (duplicate_listen label (suc i)) >> one n) h in
      let (new, h2) =
        fail_if-eq-ok (is_in (rule_key n) seen) (duplicate_listen label (suc i)) (one n) h1 in
      let (ns, e3, h3) = >>=-eq-ok (rest n) (λ ns. ok (n ∷ ns)) h2 in
      let ((protos, pairs), fresh) =
        normalize_rules-eq-ok label (suc i) (put (rule_key n) tt seen) rs e3 in
      let (others, frees) = other_keys seen n ns fresh in
      let same : (n ∷ ns) ≡ out = cc h3 in
      rw (sym same) (
        ((normalize_rule-eq-ok label (suc i) r e1, protos), (others, pairs)),
        (is_in-false (rule_key n) seen new, frees),
      )

  normalize_service_mode-eq-ok :
      (s : UiService) (label : Bytes) {out : UiService}
      → normalize_service_mode parse_ip split_host_port atoi s label ≡ ok out
      → (mode transport : Bytes) × (rules : List UiForwardRule) × (out
          ≡ record s { local_mode = mode; transport = transport; forward_rules = rules })
        × ((mode ≡ tun_mode) ⊎ (mode ≡ forward_mode))
        × ((transport ≡ quic_name) ⊎ (transport ≡ kcp_name))
        × AreRules rules
  unfolding normalize_service_mode
  normalize_service_mode-eq-ok s label {out} h =
      let mode = mode_of s.local_mode in
      let transport = normalize_transport s.transport in
      let rules = normalize_rules parse_ip split_host_port atoi label 0 [] s.forward_rules in
      let finish : List UiForwardRule → Outcome ConfigError UiService =
        λ rs. ok (record s { local_mode = mode; transport = transport; forward_rules = rs }) in
      let carried =
        fail_if (not (equal transport quic_name) && not (equal transport kcp_name))
          (bad_transport label)
        >> (rules >>= finish) in
      let (known, h1) =
        fail_if-eq-ok (not (equal mode tun_mode) && not (equal mode forward_mode))
          (bad_local_mode label) carried h in
      let (carrier, h2) =
        fail_if-eq-ok (not (equal transport quic_name) && not (equal transport kcp_name))
          (bad_transport label) (rules >>= finish) h1 in
      let (rs, e, h3) = >>=-eq-ok rules finish h2 in
      (
        mode,
        transport,
        rs,
        sym (cc h3),
        either-of mode tun_mode forward_mode known,
        either-of transport quic_name kcp_name carrier,
        (normalize_rules-eq-ok label 0 [] s.forward_rules e).0,
      )

  fill_tun_ip_same :
      (services : List UiService) (s : UiService)
      → (ip : Bytes) × (fill_tun_ip parse_ip split_host_port atoi services s
          ≡ record s { tun_ip = ip })
  unfolding fill_tun_ip
  fill_tun_ip_same services s = elim (Bool-cases (equal (trim_space s.tun_ip) [])) [
    | inl blank ↦ (allocate_tun_ip parse_ip services, rw (fill_tun_ip, blank) refl)
    | inr filled ↦ (s.tun_ip, rw (fill_tun_ip, filled) refl)
  ]

  pub check_address-eq-ok :
      (seen : Seen) (done rest : List UiService) (s : UiService) {out : UiService}
      → check_address parse_ip split_host_port atoi seen done rest s ≡ ok out
      → (ip : Bytes) × (out ≡ record s { tun_ip = ip })
        × (validate_tun_ip parse_ip ip ≡ true)
        × (lookup ip seen.ips ≡ none)
  unfolding check_address
  check_address-eq-ok seen done rest s {out} h =
      let a = fill_tun_ip parse_ip split_host_port atoi (done ++ s ∷ rest) s in
      let (ip, e) = fill_tun_ip_same (done ++ s ∷ rest) s in
      let clash = fail_if (is_in a.tun_ip seen.ips) (duplicate_tun_ip a.name a.tun_ip) in
      let (valid, h1) =
        fail_if-eq-ok (not (validate_tun_ip parse_ip a.tun_ip)) (bad_tun_ip a.name a.tun_ip)
          (clash >> ok a) h in
      let (new, h2) =
        fail_if-eq-ok (is_in a.tun_ip seen.ips) (duplicate_tun_ip a.name a.tun_ip) (ok a) h1 in
      let at_ip : a.tun_ip ≡ ip = ap (λ t. t.tun_ip) e in
      let holds : validate_tun_ip parse_ip a.tun_ip ≡ true = ground (arith, valid) in
      (ip, sym (cc h2) ∙ e, rw at_ip at holds, rw at_ip at (is_in-false a.tun_ip seen.ips new))

  abbrev place : UiService → Bytes → Bytes → List UiForwardRule → Bytes → UiService
  place s mode transport rules ip = record s {
    local_mode = mode;
    transport = transport;
    forward_rules = rules;
    tun_ip = ip;
  }

  abbrev put_ip : Bytes → UiService → UiService
  put_ip ip s = record s { tun_ip = ip }

  placed-IsUsable :
      (seen : Seen) (services : List UiService) (s placed : UiService) (mode transport : Bytes)
      (rules : List UiForwardRule) (ip : Bytes) {listens : Dict Bytes}
      → placed ≡ place s mode transport rules ip
      → (lookup s.id seen.ids ≡ none)
        × (lookup s.name seen.names ≡ none)
        × IsName s.name
        × ((s.tun_key ≡ []) ⊎ (lookup s.tun_key seen.keys ≡ none))
      → ((mode ≡ tun_mode) ⊎ (mode ≡ forward_mode))
        × ((transport ≡ quic_name) ⊎ (transport ≡ kcp_name))
        × AreRules rules
      → (validate_tun_ip parse_ip ip ≡ true) × (lookup ip seen.ips ≡ none)
      → service_listens services placed seen.listens ≡ ok listens
      → IsFresh seen placed × IsUsable parse_ip placed
  placed-IsUsable seen services s placed mode transport rules ip e (id, name, is_name, key)
        (is_mode, is_transport, are_rules) (is_ip, ip_new) listened =
      let (_, owned) = service_listens-eq-ok services placed seen.listens listened in
      (
        (rw e id, rw e name, rw e key, rw e ip_new, owned),
        (rw e is_name, rw e is_mode, rw e is_transport, rw e is_ip, rw e are_rules),
      )

  pub check_service-eq-ok :
      (new_id : ℕ → Bytes) (seen : Seen) (done rest : List UiService) (i : ℕ) (s : UiService)
      {c : UiService} {seen' : Seen}
      → check_service parse_ip split_host_port atoi new_id seen done rest i s ≡ ok (c, seen')
      → IsFresh seen c
        × IsUsable parse_ip c
        × (services : List UiService) × (listens : Dict Bytes) × (service_listens services c
              seen.listens
            ≡ ok listens)
        × (seen' ≡ note_service c listens seen)
  unfolding check_service
  check_service-eq-ok new_id seen done rest i s {c} {seen'} h =
      let Next : Type 0 = Outcome ConfigError (UiService × Seen) in
      let listened : UiService → Next = λ placed.
        service_listens (done ++ placed ∷ rest) placed seen.listens >>= λ listens.
        ok (placed, note_service placed listens seen) in
      let addressed : UiService → Next =
        λ moded. check_address parse_ip split_host_port atoi seen done rest moded >>= listened in
      let moded : UiService → Next = λ known.
        normalize_service_mode parse_ip split_host_port atoi known known.name >>= addressed in
      let (known, e1, h1) = >>=-eq-ok (check_identity new_id seen i s) moded h in
      let (m, e2, h2) =
        >>=-eq-ok (normalize_service_mode parse_ip split_host_port atoi known known.name) addressed
          h1 in
      let (placed, e3, h3) =
        >>=-eq-ok (check_address parse_ip split_host_port atoi seen done rest m) listened h2 in
      let services = done ++ placed ∷ rest in
      let (listens, e4, h4) =
        >>=-eq-ok (service_listens services placed seen.listens)
          (λ listens. ok (placed, note_service placed listens seen)) h3 in
      let (mode, transport, rules, of_known, is_mode, is_transport, are_rules) =
        normalize_service_mode-eq-ok known known.name e2 in
      let (ip, of_m, is_ip, ip_new) = check_address-eq-ok seen done rest m e3 in
      let (fresh, usable) =
        placed-IsUsable seen services known placed mode transport rules ip
          (of_m ∙ ap (put_ip ip) of_known) (check_identity-eq-ok new_id seen i s e1)
          (is_mode, is_transport, are_rules) (is_ip, ip_new) e4 in
      let is_placed : placed ≡ c = cc h4 in
      let noted : note_service placed listens seen ≡ seen' = cc h4 in
      rw (sym is_placed) (fresh, usable, services, listens, e4, sym noted)
