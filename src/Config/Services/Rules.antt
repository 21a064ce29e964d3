-- ===== src/Config/Services/Rules.antt =====
-- config/uiconfig.go: how the rules that `NormalizeAndValidate` leaves come from the given ones.
use good_link.Base.{
  ok, Bytes, ℕ, Option, ℤ, ◌≡◌, List, ◌>>=◌, ◌∷◌, suc, [], sym, fail_if, ◌>>◌, Outcome, refl, ◌∙◌,
  ◌++◌, ap, >>=-eq-ok, fail_if-eq-ok, some, err, Option-cases, inl, inr, not, arith, ◌||◌, Bool,
  ◌≤◌, ◌&&◌, stuck, panic, false, pos, negsuc,
}
use good_link.Dict.{put}
use good_link.Net.{Ip, equal, to4}
use good_link.Config.Text.{
  trim_space, to_lower, quic_name, kcp_name, normalize_transport, itoa, join_host_port,
}
use good_link.Config.Services.{
  UiForwardRule, UiService, ConfigError, AddrError, bad_listen, bad_remote, bad_proto,
  bad_local_mode, bad_transport, duplicate_id, duplicate_tun_key, tun_mode, forward_mode, tcp_name,
  udp_name, dotted, port_of, parse_ipv4, parse_port, parse_host_port_ipv4, duplicate_listen,
}
use good_link.Config.Services.Valid.{check_address-eq-ok}
use good_link.Config.Services.Check.{
  mode_of, id_of, key_owner, normalize_service_name, service_listens, note_service, Names, Seen,
  is_in, rule_key, nothing_seen, rule_of, or_fail, normalize_rule, normalize_rules,
  normalize_service_mode, check_identity, check_address, check_service, check_services,
  keep_auto_start, settle_auto_start, normalize_and_validate,
}

-- Two lists of one length, related item by item.
abbrev pub Pairs {ℓ} : {A : Type ℓ} → (A → A → Type 0) → List A → List A → Type 0
Pairs R [] [] = Unit
Pairs R (x ∷ xs) (y ∷ ys) = R x y × Pairs R xs ys
Pairs R _ _ = ⊥

module _ (parse_ip : Bytes → Option Ip) (split_host_port : Bytes → Option (Bytes × Bytes))
    (atoi : Bytes → Option ℤ) where
  -- `text` is an IPv4 address and a port of `given`, which is from 1 to 65535.
  abbrev pub IsAddrOf : (given text : Bytes) → Type 0
  IsAddrOf given text =
      (host : Bytes) × (port : Bytes) × (ip : Ip) × (ip4 : Ip) × (n : ℕ) × (split_host_port
          (trim_space given)
        ≡ some (host, port))
      × (parse_ip host ≡ some ip)
      × (to4 ip ≡ some ip4)
      × (atoi port ≡ some (pos n))
      × (1 ≤ n)
      × (n ≤ 65535)
      × (text ≡ join_host_port (dotted ip4) (itoa n))

  -- A rule that is left has the protocol and the two addresses of the given one.
  abbrev pub IsRuleOf : (given out : UiForwardRule) → Type 0
  IsRuleOf given out =
      (out.proto ≡ to_lower (trim_space given.proto))
      × IsAddrOf given.listen out.listen
      × IsAddrOf given.remote out.remote

  port_of-IsPort : (z : ℤ) {n : ℕ} → port_of z ≡ some n → (z ≡ pos n) × (1 ≤ n) × (n ≤ 65535)
  port_of-IsPort (pos n) h = ground arith
  port_of-IsPort (negsuc n) h = absurd (cc h)

  parse_host_port_ipv4-IsAddrOf :
      (given : Bytes) {addr : Bytes × ℕ}
      → parse_host_port_ipv4 parse_ip split_host_port atoi given ≡ ok addr
      → IsAddrOf given (join_host_port addr.0 (itoa addr.1))
  unfolding parse_host_port_ipv4 parse_ipv4 parse_port
  parse_host_port_ipv4-IsAddrOf given {addr} h =
      elim (Option-cases (split_host_port (trim_space given))) [
        | inl whole ↦ absurd (cc (simp (parse_host_port_ipv4, whole) at h))
        | inr ((host, port), e1) ↦ elim (Option-cases (parse_ip host)) [
          | inl bad ↦ absurd (cc (simp (parse_host_port_ipv4, parse_ipv4, e1, bad) at h))
          | inr (ip, e2) ↦ elim (Option-cases (to4 ip)) [
            | inl long ↦ absurd (cc (simp (parse_host_port_ipv4, parse_ipv4, e1, e2, long) at h))
            | inr (ip4, e3) ↦ elim (Option-cases (atoi port)) [
              | inl bad ↦
                  absurd
                    (cc (simp (parse_host_port_ipv4, parse_ipv4, parse_port, e1, e2, e3, bad) at h))
              | inr (z, e4) ↦ elim (Option-cases (port_of z)) [
                | inl bad ↦ absurd (
                    cc (
                      simp (parse_host_port_ipv4, parse_ipv4, parse_port, e1, e2, e3, e4, bad) at
                        h))
                | inr (n, e5) ↦
                    let (is, low, high) = port_of-IsPort z e5 in
                    let same : (dotted ip4, n) ≡ addr = cc (
                      simp (parse_host_port_ipv4, parse_ipv4, parse_port, e1, e2, e3, e4, e5) at
                        h) in
                    (
                      host,
                      port,
                      ip,
                      ip4,
                      n,
                      e1,
                      e2,
                      e3,
                      e4 ∙ ap some is,
                      low,
                      high,
                      ap (λ a. join_host_port a.0 (itoa a.1)) (sym same),
                    )
              ]
            ]
          ]
        ]
      ]

  or_fail-eq-ok :
      (f : AddrError → ConfigError) (r : Outcome AddrError (Bytes × ℕ)) {out : Bytes × ℕ}
      → or_fail f r ≡ ok out
      → r ≡ ok out
  unfolding or_fail
  or_fail-eq-ok f (ok a) {out} h = let k : a ≡ out = cc h in ap ok k
  or_fail-eq-ok f (err e) h = absurd (cc h)
  or_fail-eq-ok f panic h = absurd (cc h)
  or_fail-eq-ok f stuck h = absurd (cc h)

  normalize_rule-IsRuleOf :
      (label : Bytes) (i : ℕ) (r : UiForwardRule) {out : UiForwardRule}
      → normalize_rule parse_ip split_host_port atoi label i r ≡ ok out
      → IsRuleOf r out
  unfolding normalize_rule
  normalize_rule-IsRuleOf label i r {out} h =
      let proto = to_lower (trim_space r.proto) in
      let reads = parse_host_port_ipv4 parse_ip split_host_port atoi in
      let finish : Bytes × ℕ → Outcome ConfigError UiForwardRule = λ listen.
        or_fail (bad_remote label i) (reads r.remote) >>= λ remote.
        ok (rule_of proto listen remote) in
      let (known, h1) =
        fail_if-eq-ok (not (equal proto tcp_name) && not (equal proto udp_name)) (bad_proto label i)
          (or_fail (bad_listen label i) (reads r.listen) >>= finish) h in
      let (listen, e1, h2) = >>=-eq-ok (or_fail (bad_listen label i) (reads r.listen)) finish h1 in
      let (remote, e2, h3) =
        >>=-eq-ok (or_fail (bad_remote label i) (reads r.remote))
          (λ remote. ok (rule_of proto listen remote)) h2 in
      let same : rule_of proto listen remote ≡ out = cc h3 in
      rw (sym same) (
        refl,
        parse_host_port_ipv4-IsAddrOf r.listen (or_fail-eq-ok (bad_listen label i) _ e1),
        parse_host_port_ipv4-IsAddrOf r.remote (or_fail-eq-ok (bad_remote label i) _ e2),
      )

  normalize_rules-Pairs :
      (label : Bytes) (i : ℕ) (seen : Names) (rs : List UiForwardRule) {out : List UiForwardRule}
      → normalize_rules parse_ip split_host_port atoi label i seen rs ≡ ok out
      → Pairs IsRuleOf rs out
  unfolding normalize_rules
  normalize_rules-Pairs label i seen [] {out} h = let same : [] ≡ out = cc h in rw (sym same) tt
  normalize_rules-Pairs label i seen (r ∷ rs) {out} h =
      let rest : UiForwardRule → Outcome ConfigError (List UiForwardRule) = λ n.
        normalize_rules parse_ip split_host_port atoi label (suc i) (put (rule_key n) tt seen) rs in
      let one : UiForwardRule → Outcome ConfigError (List UiForwardRule) =
        λ n. rest n >>= λ ns. ok (n ∷ ns) in
      let (n, e1, h1) =
        >>=-eq-ok (normalize_rule parse_ip split_host_port atoi label (suc i) r)
          (λ n. fail_if (is_in (rule_key n) seen) (duplicate_listen label (suc i)) >> one n) h in
      let (new, h2) =
        fail_if-eq-ok (is_in (rule_key n) seen) (duplicate_listen label (suc i)) (one n) h1 in
      let (ns, e3, h3) = >>=-eq-ok (rest n) (λ ns. ok (n ∷ ns)) h2 in
      let same : (n ∷ ns) ≡ out = cc h3 in
      rw (sym same) (
        normalize_rule-IsRuleOf label (suc i) r e1,
        normalize_rules-Pairs label (suc i) (put (rule_key n) tt seen) rs e3,
      )

  -- The rules of a service that is left are those of the given one, in their order.
  abbrev pub IsServiceOf : (given out : UiService) → Type 0
  IsServiceOf given out = Pairs IsRuleOf given.forward_rules out.forward_rules

  normalize_service_mode-Pairs :
      (s : UiService) (label : Bytes) {out : UiService}
      → normalize_service_mode parse_ip split_host_port atoi s label ≡ ok out
      → IsServiceOf s out
  unfolding normalize_service_mode
  normalize_service_mode-Pairs s label {out} h =
      let mode = mode_of s.local_mode in
      let transport = normalize_transport s.transport in
      let rules = normalize_rules parse_ip split_host_port atoi label 0 [] s.forward_rules in
      let finish : List UiForwardRule → Outcome ConfigError UiService =
        λ rs. ok (record s { local_mode = mode; transport = transport; forward_rules = rs }) in
      let unknown = not (equal transport quic_name) && not (equal transport kcp_name) in
      let (_, h1) =
        fail_if-eq-ok (not (equal mode tun_mode) && not (equal mode forward_mode))
          (bad_local_mode label) (fail_if unknown (bad_transport label) >> (rules >>= finish)) h in
      let (_, h2) = fail_if-eq-ok unknown (bad_transport label) (rules >>= finish) h1 in
      let (rs, e, h3) = >>=-eq-ok rules finish h2 in
      let same : record s { local_mode = mode; transport = transport; forward_rules = rs } ≡ out =
        cc h3 in
      rw (sym same) (normalize_rules-Pairs label 0 [] s.forward_rules e)

  check_identity-rules :
      (new_id : ℕ → Bytes) (seen : Seen) (i : ℕ) (s : UiService) {out : UiService}
      → check_identity new_id seen i s ≡ ok out
      → out.forward_rules ≡ s.forward_rules
  unfolding check_identity
  check_identity-rules new_id seen i s {out} h =
      let id = id_of new_id i s.id in
      let key = trim_space s.tun_key in
      let clash = duplicate_tun_key (key_owner key seen) in
      let taken = not (equal key []) && is_in key seen.keys in
      let known : Bytes → UiService = λ name. record s {
        id = id;
        name = name;
        work_type = trim_space s.work_type;
        tun_key = key;
      } in
      let finish : Bytes → Outcome ConfigError UiService =
        λ name. fail_if taken clash >> ok (known name) in
      let names = normalize_service_name s.name seen.names i in
      let (_, h1) = fail_if-eq-ok (is_in id seen.ids) (duplicate_id id) (names >>= finish) h in
      let (name, _, h2) = >>=-eq-ok names finish h1 in
      let (_, h3) = fail_if-eq-ok taken clash (ok (known name)) h2 in
      let same : known name ≡ out = cc h3 in rw (sym same) refl

  check_service-IsServiceOf :
      (new_id : ℕ → Bytes) (seen : Seen) (done rest : List UiService) (i : ℕ) (s : UiService)
      {c : UiService} {seen' : Seen}
      → check_service parse_ip split_host_port atoi new_id seen done rest i s ≡ ok (c, seen')
      → IsServiceOf s c
  unfolding check_service
  check_service-IsServiceOf new_id seen done rest i s {c} {seen'} h =
      let Next : Type 0 = Outcome ConfigError (UiService × Seen) in
      let listened : UiService → Next = λ placed.
        service_listens (done ++ placed ∷ rest) placed seen.listens >>= λ listens.
        ok (placed, note_service placed listens seen) in
      let addressed : UiService → Next =
        λ moded. check_address parse_ip split_host_port atoi seen done rest moded >>= listened in
      let moded : UiService → Next = λ known.
        normalize_service_mode parse_ip split_host_port atoi known known.name >>= addressed in
      let (known, e1, h1) = >>=-eq-ok (check_identity new_id seen i s) moded h in
      let (m, e2, h2) =
        >>=-eq-ok (normalize_service_mode parse_ip split_host_port atoi known known.name) addressed
          h1 in
      let (placed, e3, h3) =
        >>=-eq-ok (check_address parse_ip split_host_port atoi seen done rest m) listened h2 in
      let (listens, _, h4) =
        >>=-eq-ok (service_listens (done ++ placed ∷ rest) placed seen.listens)
          (λ listens. ok (placed, note_service placed listens seen)) h3 in
      let is_placed : placed ≡ c = cc h4 in
      let (_, of_m, _, _) = check_address-eq-ok parse_ip split_host_port atoi seen done rest m e3 in
      let rules_m : c.forward_rules ≡ m.forward_rules =
        ap (λ t. t.forward_rules) (sym is_placed ∙ of_m) in
      rw (sym rules_m, check_identity-rules new_id seen i s e1) at
        (normalize_service_mode-Pairs known known.name e2)

  settle_auto_start-rules :
      (kept : Bool) (s : UiService) → (settle_auto_start kept s).forward_rules ≡ s.forward_rules
  unfolding settle_auto_start
  settle_auto_start-rules kept s = ground arith

  keep_auto_start-Pairs :
      (kept : Bool) (given ss : List UiService)
      → Pairs IsServiceOf given ss
      → Pairs IsServiceOf given (keep_auto_start kept ss)
  unfolding keep_auto_start
  keep_auto_start-Pairs kept [] [] h = tt
  keep_auto_start-Pairs kept (g ∷ gs) (s ∷ ss) h = (
    rw (sym (settle_auto_start-rules kept s)) at h.0,
    keep_auto_start-Pairs (kept || s.auto_start) gs ss h.1,
  )
  keep_auto_start-Pairs kept [] (s ∷ ss) h = absurd h
  keep_auto_start-Pairs kept (g ∷ gs) [] h = absurd h

  check_services-Pairs :
      (new_id : ℕ → Bytes) (seen : Seen) (done : List UiService) (i : ℕ) (ss : List UiService)
      {out : List UiService}
      → check_services parse_ip split_host_port atoi new_id seen done i ss ≡ ok out
      → Pairs IsServiceOf ss out
  unfolding check_services
  check_services-Pairs new_id seen done i [] {out} h =
      let same : [] ≡ out = cc h in rw (sym same) tt
  check_services-Pairs new_id seen done i (s ∷ ss) {out} h =
      let later : UiService × Seen → Outcome ConfigError (List UiService) = λ r.
        check_services parse_ip split_host_port atoi new_id r.1 (done ++ r.0 ∷ []) (suc i) ss in
      let ((c, seen'), e, h1) =
        >>=-eq-ok (check_service parse_ip split_host_port atoi new_id seen done ss i s)
          (λ r. later r >>= λ cs. ok (r.0 ∷ cs)) h in
      let (cs, e', h2) = >>=-eq-ok (later (c, seen')) (λ cs. ok (c ∷ cs)) h1 in
      let same : (c ∷ cs) ≡ out = cc h2 in
      rw (sym same) (
        check_service-IsServiceOf new_id seen done ss i s e,
        check_services-Pairs new_id seen' (done ++ c ∷ []) (suc i) ss e',
      )

  pub normalize_and_validate-Pairs :
      (new_id : ℕ → Bytes) (services : List UiService) {out : List UiService}
      → normalize_and_validate parse_ip split_host_port atoi new_id services ≡ ok out
      → Pairs IsServiceOf services out
  unfolding normalize_and_validate
  normalize_and_validate-Pairs new_id services {out} h =
      let (cs, e, h1) =
        >>=-eq-ok (check_services parse_ip split_host_port atoi new_id nothing_seen [] 0 services)
          (λ cs. ok (keep_auto_start false cs)) h in
      let same : keep_auto_start false cs ≡ out = cc h1 in
      rw (sym same) (
        keep_auto_start-Pairs false services cs
          (check_services-Pairs new_id nothing_seen [] 0 services e))
