-- ===== src/Config/Services/Total.antt =====
-- config/uiconfig.go: `NormalizeAndValidate` comes to an end, with a configuration or an error.
use good_link.Base.{
  inr, ◌++◌, arith, ltb, [], fail_if-Returns, inl, ℕ, Returns, ℤ, List, suc, Option-cases, ◌∷◌,
  Bytes, Bool-cases, length, Option, ◌&&◌, >>=-Returns, not,
}
use good_link.Dict.{Dict, lookup, put}
use good_link.Net.{Ip, equal}
use good_link.Config.Text.{trim_space, to_lower, normalize_transport, quic_name, kcp_name}
use good_link.Config.Services.{
  UiForwardRule, UiService, ConfigError, AddrError, duplicate_id, duplicate_name, long_name,
  control_in_name, duplicate_tun_key, bad_local_mode, bad_transport, bad_proto, bad_listen,
  bad_remote, duplicate_listen, bad_tun_ip, duplicate_tun_ip, tcp_name, udp_name, tun_mode,
  forward_mode, validate_tun_ip, parse_host_port_ipv4, parse_ipv4, parse_port, listen_rule_key,
}
use good_link.Config.Services.Names.{free_label-IsFreeFrom}
use good_link.Config.Services.Check.{
  Names, Seen, is_in, or_fail, rule_key, normalize_rule, normalize_rules, mode_of,
  normalize_service_mode, id_of, check_name, any_control, key_owner, check_listens, service_listens,
  check_identity, fill_tun_ip, check_address, check_service, check_services, normalize_and_validate,
  nothing_seen, normalize_service_name,
}

normalize_service_name-Returns :
    (name : Bytes) (used : Names) (i : ℕ) → Returns (normalize_service_name name used i)
unfolding normalize_service_name check_name
normalize_service_name-Returns name used i = elim (Bool-cases (equal (trim_space name) [])) [
  | inl blank ↦
      let (m, later, found, free) =
        free_label-IsFreeFrom (suc (length used)) (suc i) used (omega arith) in
      rw (normalize_service_name, blank, found) tt
  | inr filled ↦
      rw (normalize_service_name, filled)
        (fail_if-Returns (ltb 32 (length (trim_space name))) (long_name (trim_space name)) _ (
          fail_if-Returns (any_control (trim_space name)) control_in_name _ (
            fail_if-Returns (is_in (trim_space name) used) (duplicate_name (trim_space name)) _
              tt)))
]

check_identity-Returns :
    (new_id : ℕ → Bytes) (seen : Seen) (i : ℕ) (s : UiService)
    → Returns (check_identity new_id seen i s)
unfolding check_identity
check_identity-Returns new_id seen i s =
    fail_if-Returns (is_in (id_of new_id i s.id) seen.ids) (duplicate_id (id_of new_id i s.id)) _ (
      >>=-Returns (normalize_service_name s.name seen.names i) _
        (normalize_service_name-Returns s.name seen.names i)
        (λ name.
          fail_if-Returns
            (not (equal (trim_space s.tun_key) []) && is_in (trim_space s.tun_key) seen.keys)
            (duplicate_tun_key (key_owner (trim_space s.tun_key) seen)) _ tt))

check_listens-Returns :
    (services : List UiService) (s : UiService) (listens : Dict Bytes) (rs : List UiForwardRule)
    → Returns (check_listens services s listens rs)
unfolding check_listens
check_listens-Returns services s listens [] = tt
check_listens-Returns services s listens (r ∷ rs) =
    let rest = check_listens-Returns services s (put (listen_rule_key r) s.id listens) rs in
    elim (Option-cases (lookup (listen_rule_key r) listens)) [
      | inl free ↦ rw (check_listens, free) rest
      | inr (other, taken) ↦ elim (Bool-cases (equal other s.id)) [
        | inl own ↦ rw (check_listens, taken, own) rest
        | inr foreign ↦ rw (check_listens, taken, foreign) tt
      ]
    ]

service_listens-Returns :
    (services : List UiService) (s : UiService) (listens : Dict Bytes)
    → Returns (service_listens services s listens)
unfolding service_listens
service_listens-Returns services s listens = elim (Bool-cases (equal s.local_mode forward_mode)) [
  | inl forwards ↦
      rw (service_listens, forwards) (check_listens-Returns services s listens s.forward_rules)
  | inr tunnels ↦ rw (service_listens, tunnels) tt
]

module _ (parse_ip : Bytes → Option Ip) (split_host_port : Bytes → Option (Bytes × Bytes))
    (atoi : Bytes → Option ℤ) where
  parse-Returns :
      (f : AddrError → ConfigError) (addr : Bytes)
      → Returns (or_fail f (parse_host_port_ipv4 parse_ip split_host_port atoi addr))
  unfolding or_fail parse_host_port_ipv4
  parse-Returns f addr = elim (Option-cases (split_host_port (trim_space addr))) [
    | inl whole ↦ rw (parse_host_port_ipv4, whole) tt
    | inr (parts, split) ↦ elim (Option-cases (parse_ipv4 parse_ip parts.0)) [
      | inl bad ↦ rw (parse_host_port_ipv4, split, bad) tt
      | inr (ip, good) ↦ elim (Option-cases (parse_port parse_ip split_host_port atoi parts.1)) [
        | inl bad ↦ rw (parse_host_port_ipv4, split, good, bad) tt
        | inr (n, fine) ↦ rw (parse_host_port_ipv4, split, good, fine) tt
      ]
    ]
  ]

  normalize_rules-Returns :
      (label : Bytes) (i : ℕ) (seen : Names) (rs : List UiForwardRule)
      → Returns (normalize_rules parse_ip split_host_port atoi label i seen rs)
  unfolding normalize_rules normalize_rule
  normalize_rules-Returns label i seen [] = tt
  normalize_rules-Returns label i seen (r ∷ rs) =
      let proto = to_lower (trim_space r.proto) in
      >>=-Returns (normalize_rule parse_ip split_host_port atoi label (suc i) r) _
        (fail_if-Returns (not (equal proto tcp_name) && not (equal proto udp_name))
          (bad_proto label (suc i)) _
          (>>=-Returns _ _ (parse-Returns (bad_listen label (suc i)) r.listen) (λ listen.
            >>=-Returns _ _ (parse-Returns (bad_remote label (suc i)) r.remote) (λ remote. tt))))
        (λ n. fail_if-Returns (is_in (rule_key n) seen) (duplicate_listen label (suc i)) _ (
          >>=-Returns _ _ (normalize_rules-Returns label (suc i) (put (rule_key n) tt seen) rs)
            (λ out. tt)))

  normalize_service_mode-Returns :
      (s : UiService) (label : Bytes)
      → Returns (normalize_service_mode parse_ip split_host_port atoi s label)
  unfolding normalize_service_mode
  normalize_service_mode-Returns s label =
      let mode = mode_of s.local_mode in
      let transport = normalize_transport s.transport in
      fail_if-Returns (not (equal mode tun_mode) && not (equal mode forward_mode))
        (bad_local_mode label) _
        (fail_if-Returns (not (equal transport quic_name) && not (equal transport kcp_name))
          (bad_transport label) _
          (>>=-Returns _ _ (normalize_rules-Returns label 0 [] s.forward_rules) (λ rs. tt)))

  check_address-Returns :
      (seen : Seen) (done rest : List UiService) (s : UiService)
      → Returns (check_address parse_ip split_host_port atoi seen done rest s)
  unfolding check_address
  check_address-Returns seen done rest s =
      let a = fill_tun_ip parse_ip split_host_port atoi (done ++ s ∷ rest) s in
      fail_if-Returns (not (validate_tun_ip parse_ip a.tun_ip)) (bad_tun_ip a.name a.tun_ip) _
        (fail_if-Returns (is_in a.tun_ip seen.ips) (duplicate_tun_ip a.name a.tun_ip) _ tt)

  check_services-Returns :
      (new_id : ℕ → Bytes) (seen : Seen) (done : List UiService) (i : ℕ) (ss : List UiService)
      → Returns (check_services parse_ip split_host_port atoi new_id seen done i ss)
  unfolding check_services check_service
  check_services-Returns new_id seen done i [] = tt
  check_services-Returns new_id seen done i (s ∷ ss) =
      >>=-Returns (check_service parse_ip split_host_port atoi new_id seen done ss i s) _
        (>>=-Returns _ _ (check_identity-Returns new_id seen i s) (λ known.
          >>=-Returns _ _ (normalize_service_mode-Returns known known.name) (λ moded.
            >>=-Returns _ _ (check_address-Returns seen done ss moded) (λ placed.
              >>=-Returns _ _ (service_listens-Returns (done ++ placed ∷ ss) placed seen.listens)
                (λ listens. tt)))))
        (λ r.
          >>=-Returns _ _ (check_services-Returns new_id r.1 (done ++ r.0 ∷ []) (suc i) ss)
            (λ out. tt))

  -- `NormalizeAndValidate` comes to an end with a configuration or an error, on any services:
  -- the search for a free name always finds one, with one round more than there are names.
  pub normalize_and_validate-Returns :
      (new_id : ℕ → Bytes) (services : List UiService)
      → Returns (normalize_and_validate parse_ip split_host_port atoi new_id services)
  unfolding normalize_and_validate
  normalize_and_validate-Returns new_id services =
      >>=-Returns _ _ (check_services-Returns new_id nothing_seen [] 0 services) (λ out. tt)
