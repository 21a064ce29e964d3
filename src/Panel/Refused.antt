-- ===== src/Panel/Refused.antt =====
-- ui2/start.go: what the handlers that change a configuration leave in memory.
use good_link.Base.{
  Bool-cases, ◌∷◌, sym, err, some, ◌⊎◌, List, Bytes, ap, refl, ◌≡◌, All, inr, inl, false, [],
  Option, if◌then◌else◌, ℕ, Bool, ◌∙◌, ℤ, true,
}
use good_link.Net.{Ip, equal, equal_iff}
use good_link.Config.Services.{UiForwardRule, ConfigError}
use good_link.Panel.Services.{
  ServiceState, StartRequest, bad_config, lookup_service, all_services_config,
}
use good_link.Panel.Start.{normalize}
use good_link.Panel.Edits.{
  idle_status, mutate_service, clear_other_auto_start, set_idle, set_auto, set_forwards, set_name,
  takes_forwards, auto_started, updated, check_and_save, handle_forwards, handle_set_auto_start,
  handle_update_config, handle_rename,
}

-- No service but that one starts on its own.
abbrev pub IsAlone : Bytes → ServiceState → Type 0
IsAlone id s = (s.cfg.id ≡ id) ⊎ (s.cfg.auto_start ≡ false)

clear_other_auto_start-IsAlone :
    (id : Bytes) (ss : List ServiceState) → All (IsAlone id) (clear_other_auto_start id ss)
unfolding clear_other_auto_start
clear_other_auto_start-IsAlone id [] = tt
clear_other_auto_start-IsAlone id (s ∷ ss) =
    let first : IsAlone id (
        if equal s.cfg.id id then s else record s { cfg = record (s.cfg) { auto_start = false } }) =
      elim (Bool-cases (equal s.cfg.id id)) [
        | inl same ↦ simp same (inl ((equal_iff s.cfg.id id).0 same))
        | inr other ↦ simp other (inr refl)
      ] in
    (first, clear_other_auto_start-IsAlone id ss)

mutate_service-IsAlone :
    (id : Bytes) (f : ServiceState → ServiceState) (ss : List ServiceState)
    → ((s : ServiceState) → (f s).cfg.id ≡ s.cfg.id)
    → All (IsAlone id) ss
    → All (IsAlone id) (mutate_service id f ss)
unfolding mutate_service
mutate_service-IsAlone id f [] keeps h = tt
mutate_service-IsAlone id f (s ∷ ss) keeps h = elim (Bool-cases (equal s.cfg.id id)) [
  | inl same ↦ simp (mutate_service, same) (inl (keeps s ∙ (equal_iff s.cfg.id id).0 same), h.1)
  | inr other ↦ simp (mutate_service, other) (h.0, mutate_service-IsAlone id f ss keeps h.1)
]

taken-id :
    (q : StartRequest) (s : ServiceState)
    → (if idle_status s.status then set_idle q s else s).cfg.id ≡ s.cfg.id
unfolding set_idle
taken-id q s = elim (Bool-cases (idle_status s.status)) [
  | inl idle ↦ rw idle refl
  | inr busy ↦ rw busy refl
]

auto_started-IsAlone :
    (id : Bytes) (q : StartRequest) (ss : List ServiceState)
    → All (IsAlone id) (auto_started id true q ss)
unfolding auto_started
auto_started-IsAlone id q ss =
    let set = mutate_service id (set_auto true) ss in
    mutate_service-IsAlone id (λ s. if idle_status s.status then set_idle q s else s)
      (clear_other_auto_start id set) (taken-id q) (clear_other_auto_start-IsAlone id set)

updated-IsAlone :
    (id : Bytes) (q : StartRequest) (ss : List ServiceState)
    → All (IsAlone id) (updated id true q ss)
unfolding updated
updated-IsAlone id q ss =
    clear_other_auto_start-IsAlone id (mutate_service id (λ s. set_auto true (set_idle q s)) ss)

-- A change that gives the service back gives the list back.
mutate_service-same :
    (id : Bytes) (f : ServiceState → ServiceState) (ss : List ServiceState) {s : ServiceState}
    → lookup_service id ss ≡ some s
    → f s ≡ s
    → mutate_service id f ss ≡ ss
unfolding lookup_service mutate_service
mutate_service-same id f [] h e = absurd (cc h)
mutate_service-same id f (t ∷ ss) {s} h e = elim (Bool-cases (equal t.cfg.id id)) [
  | inl here ↦
      let same : t ≡ s = (let k = simp (lookup_service, here) at h in cc k) in
      simp (mutate_service, here) (ap (λ (x : ServiceState). x ∷ ss) (ap f same ∙ e ∙ sym same))
  | inr later ↦
      simp (mutate_service, later)
        (ap (◌∷◌ t) (mutate_service-same id f ss (simp (lookup_service, later) at h) e))
]

pub lookup-mutate_service :
    (id : Bytes) (f : ServiceState → ServiceState) (ss : List ServiceState) {s : ServiceState}
    → lookup_service id ss ≡ some s
    → (f s).cfg.id ≡ s.cfg.id
    → lookup_service id (mutate_service id f ss) ≡ some (f s)
unfolding lookup_service mutate_service
lookup-mutate_service id f [] h e = absurd (cc h)
lookup-mutate_service id f (t ∷ ss) {s} h e = elim (Bool-cases (equal t.cfg.id id)) [
  | inl here ↦
      let same : t ≡ s = (let k = simp (lookup_service, here) at h in cc k) in
      let kept : equal (f t).cfg.id id ≡ true =
        ap (λ (x : ServiceState). equal (f x).cfg.id id) same
        ∙ ap (λ (x : Bytes). equal x id) (e ∙ ap (λ (x : ServiceState). x.cfg.id) (sym same))
        ∙ here in
      simp (mutate_service, here, lookup_service, kept) (ap (λ (x : ServiceState). some (f x)) same)
  | inr later ↦
      simp (mutate_service, later, lookup_service)
        (lookup-mutate_service id f ss (simp (lookup_service, later) at h) e)
]

set_name_same : (t : ServiceState) → set_name t.cfg.name t ≡ t
unfolding set_name
set_name_same t = refl

module _ (parse_ip : Bytes → Option Ip) (split_host_port : Bytes → Option (Bytes × Bytes))
    (atoi : Bytes → Option ℤ) (new_id : ℕ → Bytes) where
  -- Where the service is there: after `HandleSetAutoStart` that turns the automatic start on,
  -- and after `HandleUpdateConfig` that does so for an idle service, no service with another id
  -- starts on its own, whether the change can be saved or not.
  pub handlers-IsAlone :
      (writes : Bool) (id : Bytes) (q : StartRequest) (ss : List ServiceState) (s : ServiceState)
      → lookup_service id ss ≡ some s
      → All
          (IsAlone id)
          (handle_set_auto_start parse_ip split_host_port atoi new_id writes id true q ss).0
        × (idle_status s.status ≡ true
            → All
                (IsAlone id)
                (handle_update_config parse_ip split_host_port atoi new_id writes id true q ss).0)
  unfolding handle_set_auto_start handle_update_config
  handlers-IsAlone writes id q ss s there = (
    rw (handle_set_auto_start, there) (auto_started-IsAlone id q ss),
    λ idle. rw (handle_update_config, there, idle) (updated-IsAlone id q ss),
  )

  check_and_save-bad :
      (writes : Bool) (ss : List ServiceState) (why : ConfigError)
      → normalize parse_ip split_host_port atoi new_id (all_services_config ss) ≡ err why
      → check_and_save parse_ip split_host_port atoi new_id writes ss ≡ some (bad_config why)
  unfolding check_and_save
  check_and_save-bad writes ss why bad = rw (check_and_save, bad) refl

  rename-bad :
      (writes : Bool) (j : Bytes) (ss : List ServiceState) (t : ServiceState) (why : ConfigError)
      → normalize parse_ip split_host_port atoi new_id (all_services_config ss) ≡ err why
      → lookup_service j ss ≡ some t
      → handle_rename parse_ip split_host_port atoi new_id writes j t.cfg.name ss
        ≡ (ss, some (bad_config why))
  unfolding handle_rename
  rename-bad writes j ss t why bad there =
      let same = mutate_service-same j (set_name t.cfg.name) ss there (set_name_same t) in
      let still : normalize parse_ip split_host_port atoi new_id
            (all_services_config (mutate_service j (set_name t.cfg.name) ss))
          ≡ err why =
        ap
          (λ (x : List ServiceState).
            normalize parse_ip split_host_port atoi new_id (all_services_config x))
          same
        ∙ bad in
      let saved = check_and_save-bad writes (mutate_service j (set_name t.cfg.name) ss) why still in
      rw (handle_rename, there, saved)
        (ap (λ (x : List ServiceState). (x, some (bad_config why))) same)

  -- Where the check refuses what `HandleForwards` has set for a service, it returns the error,
  -- but memory has the change; from then on even a service that is given the name that it has
  -- is refused with that error.
  pub handle_forwards_stays :
      (writes : Bool) (id mode : Bytes) (rules : List UiForwardRule) (ss : List ServiceState)
      (s : ServiceState) (why : ConfigError)
      → lookup_service id ss ≡ some s
      → takes_forwards s.status ≡ true
      → normalize parse_ip split_host_port atoi new_id
          (all_services_config (mutate_service id (set_forwards mode rules) ss))
        ≡ err why
      → let r = handle_forwards parse_ip split_host_port atoi new_id writes id mode rules ss in
        (r.1 ≡ some (bad_config why))
        × (lookup_service id r.0 ≡ some (set_forwards mode rules s))
        × ((j : Bytes) (t : ServiceState)
            → lookup_service j r.0 ≡ some t
            → handle_rename parse_ip split_host_port atoi new_id writes j t.cfg.name r.0
              ≡ (r.0, some (bad_config why)))
  unfolding handle_forwards set_forwards
  handle_forwards_stays writes id mode rules ss s why there takes bad =
      let after = mutate_service id (set_forwards mode rules) ss in
      rw (handle_forwards, there, takes)
        (
          check_and_save-bad writes after why bad,
          lookup-mutate_service id (set_forwards mode rules) ss there refl,
          λ j t found. rename-bad writes j after t why bad found,
        )
