-- ===== src/Config/Services/Whole.antt =====
-- config/uiconfig.go: `NormalizeAndValidate` on the whole configuration.
use good_link.Base.{
  sym, >>=-eq-ok, suc, ◌∷◌, Outcome, Bytes, false, All, ℕ, ◌≡◌, ◌||◌, ℤ, true, [], inr, Bool-cases,
  ◌++◌, Option, ok, List, ◌⊎◌, Bool, inl, ◌>>=◌, refl, ◌&&◌, ◌∙◌, ap,
}
use good_link.Dict.{Dict}
use good_link.Net.{Ip}
use good_link.Config.Services.{UiService, ConfigError}
use good_link.Config.Services.Apart.{IsApart, IsFresh, Pairwise, note_service-IsFresh}
use good_link.Config.Services.Valid.{IsUsable, check_service-eq-ok}
use good_link.Config.Services.Rules.{Pairs, IsServiceOf, normalize_and_validate-Pairs}
use good_link.Config.Services.Check.{
  Seen, service_listens, note_service, keep_auto_start, settle_auto_start, check_service,
  check_services, normalize_and_validate, nothing_seen,
}

-- At most one service starts on its own, and none where an earlier one does.
abbrev pub AtMostOne : Bool → List UiService → Type 0
AtMostOne kept [] = Unit
AtMostOne kept (s ∷ ss) =
    ((kept ≡ false) ⊎ (s.auto_start ≡ false)) × AtMostOne (kept || s.auto_start) ss

settle_auto_start-AtMostOne :
    (kept : Bool) (s : UiService) (ss : List UiService)
    → AtMostOne (kept || s.auto_start) ss
    → AtMostOne kept (settle_auto_start kept s ∷ ss)
unfolding settle_auto_start
settle_auto_start-AtMostOne false s ss h = (inl refl, h)
settle_auto_start-AtMostOne true s ss h = elim (Bool-cases s.auto_start) [
  | inl starts ↦ simp starts (inr refl, h)
  | inr waits ↦ simp waits (inr refl, h)
]

keep_auto_start-AtMostOne :
    (kept : Bool) (ss : List UiService) → AtMostOne kept (keep_auto_start kept ss)
unfolding keep_auto_start
keep_auto_start-AtMostOne kept [] = tt
keep_auto_start-AtMostOne kept (s ∷ ss) =
    settle_auto_start-AtMostOne kept s (keep_auto_start (kept || s.auto_start) ss)
      (keep_auto_start-AtMostOne (kept || s.auto_start) ss)

-- What does not look at the flag survives the last loop.
module _ (P : UiService → Type 0)
    (keeps : (s : UiService) → P s → P (record s { auto_start = false })) where
  settle_auto_start_keeps : (kept : Bool) (s : UiService) → P s → P (settle_auto_start kept s)
  unfolding settle_auto_start
  settle_auto_start_keeps kept s h = elim (Bool-cases (kept && s.auto_start)) [
    | inl second ↦ simp second (keeps s h)
    | inr first ↦ simp first h
  ]

  keep_auto_start-All :
      (kept : Bool) (ss : List UiService) → All P ss → All P (keep_auto_start kept ss)
  unfolding keep_auto_start
  keep_auto_start-All kept [] h = tt
  keep_auto_start-All kept (s ∷ ss) h =
      (settle_auto_start_keeps kept s h.0, keep_auto_start-All (kept || s.auto_start) ss h.1)

IsApart-unset :
    (t : UiService) (us : List UiService)
    → All (IsApart t) us
    → All (IsApart (record t { auto_start = false })) us
IsApart-unset t [] a = tt
IsApart-unset t (u ∷ us) a = (a.0, IsApart-unset t us a.1)

keep_auto_start-Pairwise :
    (kept : Bool) (ss : List UiService)
    → Pairwise IsApart ss
    → Pairwise IsApart (keep_auto_start kept ss)
unfolding keep_auto_start
keep_auto_start-Pairwise kept [] h = tt
keep_auto_start-Pairwise kept (s ∷ ss) h =
    let rest = keep_auto_start (kept || s.auto_start) ss in
    let kept_apart : All (IsApart s) rest =
      keep_auto_start-All (IsApart s) (λ t a. a) (kept || s.auto_start) ss h.0 in
    (
      settle_auto_start_keeps (λ t. All (IsApart t) rest) (λ t a. IsApart-unset t rest a) kept s
          kept_apart,
      keep_auto_start-Pairwise (kept || s.auto_start) ss h.1,
    )

module _ (parse_ip : Bytes → Option Ip) (split_host_port : Bytes → Option (Bytes × Bytes))
    (atoi : Bytes → Option ℤ) where
  IsFresh-tail :
      (services : List UiService) (s : UiService) (seen : Seen) (ts : List UiService)
      {listens : Dict Bytes}
      → service_listens services s seen.listens ≡ ok listens
      → All (IsFresh (note_service s listens seen)) ts
      → All (IsFresh seen) ts × All (IsApart s) ts
  IsFresh-tail services s seen [] e h = (tt, tt)
  IsFresh-tail services s seen (t ∷ ts) e h =
      let (fresh, apart) = note_service-IsFresh services s t seen e h.0 in
      let (freshes, aparts) = IsFresh-tail services s seen ts e h.1 in
      ((fresh, freshes), (apart, aparts))

  check_services-eq-ok :
      (new_id : ℕ → Bytes) (seen : Seen) (done : List UiService) (i : ℕ) (ss : List UiService)
      {out : List UiService}
      → check_services parse_ip split_host_port atoi new_id seen done i ss ≡ ok out
      → All (IsFresh seen) out × All (IsUsable parse_ip) out × Pairwise IsApart out
  unfolding check_services
  check_services-eq-ok new_id seen done i [] {out} h =
      let same : [] ≡ out = cc h in rw (sym same) (tt, tt, tt)
  check_services-eq-ok new_id seen done i (s ∷ ss) {out} h =
      let later : UiService × Seen → Outcome ConfigError (List UiService) = λ r.
        check_services parse_ip split_host_port atoi new_id r.1 (done ++ r.0 ∷ []) (suc i) ss in
      let ((c, seen'), e, h1) =
        >>=-eq-ok (check_service parse_ip split_host_port atoi new_id seen done ss i s)
          (λ r. later r >>= λ cs. ok (r.0 ∷ cs)) h in
      let (cs, e', h2) = >>=-eq-ok (later (c, seen')) (λ cs. ok (c ∷ cs)) h1 in
      let (fresh, usable, services, listens, listened, noted) =
        check_service-eq-ok parse_ip split_host_port atoi new_id seen done ss i s e in
      let (freshes, usables, pairs) =
        check_services-eq-ok new_id seen' (done ++ c ∷ []) (suc i) ss e' in
      let (before, aparts) = IsFresh-tail services c seen cs listened (rw noted at freshes) in
      let same : (c ∷ cs) ≡ out = cc h2 in
      rw (sym same) ((fresh, before), (usable, usables), (aparts, pairs))

  -- Where `NormalizeAndValidate` returns nil: the services are as many as were given, and each
  -- has as many rules as the given one, in the same order, each with the given protocol in
  -- lower case and with the two given addresses, read as an IPv4 address and a port from 1 to
  -- 65535 and written again; each service has a name, a mode, a transport and an address that
  -- are allowed, and rules that are TCP or UDP with different keys; no two have the same id,
  -- name, key or text as their address, or a rule with the same key that both forward; and at
  -- most one starts on its own.
  pub normalize_and_validate-eq-ok :
      (new_id : ℕ → Bytes) (services : List UiService) {out : List UiService}
      → normalize_and_validate parse_ip split_host_port atoi new_id services ≡ ok out
      → All (IsUsable parse_ip) out
        × Pairwise IsApart out
        × AtMostOne false out
        × Pairs (IsServiceOf parse_ip split_host_port atoi) services out
  unfolding normalize_and_validate
  normalize_and_validate-eq-ok new_id services {out} h =
      let (cs, e, h1) =
        >>=-eq-ok (check_services parse_ip split_host_port atoi new_id nothing_seen [] 0 services)
          (λ cs. ok (keep_auto_start false cs)) h in
      let (_, usable, apart) = check_services-eq-ok new_id nothing_seen [] 0 services e in
      let same : keep_auto_start false cs ≡ out = cc h1 in
      rw (sym same) (
        keep_auto_start-All (IsUsable parse_ip) (λ s u. u) false cs usable,
        keep_auto_start-Pairwise false cs apart,
        keep_auto_start-AtMostOne false cs,
        normalize_and_validate-Pairs parse_ip split_host_port atoi new_id services
            (h ∙ ap ok (sym same)),
      )
