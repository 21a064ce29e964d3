-- ===== src/Panel/Deletes.antt =====
-- ui2/start.go: `HandleDeleteService` and `HandleCreateService` on the services in memory.
use good_link.Base.{
  true, Bool-cases, ◌∙◌, [], ◌≡◌, some, if◌then◌else◌, none, Bytes, ap, ◌∷◌, refl, arith, inr, List,
  ◌++◌, inl, sym, Option-cases, ℤ, false, not, Option, Bool, ℕ, ◌||◌,
}
use good_link.Net.{equal, equal_iff, Ip}
use good_link.Panel.Edits.{idle_status, handle_delete_service, remove_service}
use good_link.Panel.Services.{get_service_status, all_services_config, ServiceState, lookup_service}
use good_link.Panel.Start.{Started, save_ui_config}

lookup-remove_service :
    (id j : Bytes) (ss : List ServiceState)
    → lookup_service j (remove_service id ss) ≡ (if equal id j then none else lookup_service j ss)
unfolding lookup_service remove_service
lookup-remove_service id j [] = ground arith
lookup-remove_service id j (s ∷ ss) = ground (
  arith,
  lookup-remove_service id j ss,
  equal_iff s.cfg.id id,
  equal_iff s.cfg.id j,
  equal_iff id j,
)

lookup_service-id :
    (j : Bytes) (ss : List ServiceState) {s : ServiceState}
    → lookup_service j ss ≡ some s
    → equal s.cfg.id j ≡ true
unfolding lookup_service
lookup_service-id j [] h = absurd (cc h)
lookup_service-id j (t ∷ ss) {s} h = elim (Bool-cases (equal t.cfg.id j)) [
  | inl here ↦
      let same : t ≡ s = (let k = simp (lookup_service, here) at h in cc k) in
      ap (λ (x : ServiceState). equal x.cfg.id j) (sym same) ∙ here
  | inr later ↦ lookup_service-id j ss (simp (lookup_service, later) at h)
]

lookup-append :
    (j : Bytes) (ss : List ServiceState) (s : ServiceState)
    → lookup_service j (ss ++ s ∷ []) ≡ elim (lookup_service j ss) [
      | some t ↦ some t
      | none ↦ if equal s.cfg.id j then some s else none
    ]
unfolding lookup_service
lookup-append j [] s = refl
lookup-append j (t ∷ ss) s = elim (Bool-cases (equal t.cfg.id j)) [
  | inl here ↦ simp (lookup_service, here) refl
  | inr later ↦ simp (lookup_service, later) (lookup-append j ss s)
]

-- The services are found as before, wherever the removed one stands.
lookup-undone :
    (id j : Bytes) (ss : List ServiceState) (s : ServiceState)
    → lookup_service id ss ≡ some s
    → lookup_service j (remove_service id ss ++ s ∷ []) ≡ lookup_service j ss
lookup-undone id j ss s there = elim (Bool-cases (equal id j)) [
  | inl same ↦
      let it : id ≡ j = (equal_iff id j).0 same in
      let own : equal s.cfg.id j ≡ true =
        ap (equal s.cfg.id) (sym it) ∙ lookup_service-id id ss there in
      rw (lookup-append j (remove_service id ss) s, lookup-remove_service id j ss, same, own)
        (sym there ∙ ap (λ (k : Bytes). lookup_service k ss) it)
  | inr other ↦ elim (Option-cases (lookup_service j ss)) [
    | inl missing ↦
        let apart : equal s.cfg.id j ≡ false = ground (
          arith,
          equal_iff s.cfg.id j,
          equal_iff s.cfg.id id,
          equal_iff id j,
          lookup_service-id id ss there,
        ) in
        rw
          (
            lookup-append j (remove_service id ss) s,
            lookup-remove_service id j ss,
            other,
            missing,
            apart,
          )
          refl
    | inr (t, found) ↦
        rw (lookup-append j (remove_service id ss) s, lookup-remove_service id j ss, other, found)
          refl
  ]
]

-- Which services are found after the handler.
abbrev pub IsDeleted : Bytes → List ServiceState → Started → Type 0
IsDeleted id ss (after, none) =
    (j : Bytes) → lookup_service j after ≡ (if equal id j then none else lookup_service j ss)
IsDeleted id ss (after, some e) = (j : Bytes) → lookup_service j after ≡ lookup_service j ss

module _ (parse_ip : Bytes → Option Ip) (split_host_port : Bytes → Option (Bytes × Bytes))
    (atoi : Bytes → Option ℤ) (new_id : ℕ → Bytes) where
  -- After a `HandleDeleteService` that returns nil no service has the id, and each other one is
  -- found as before; after one that returns an error, a file that cannot be written included,
  -- each service is found as before.
  pub handle_delete_service-IsDeleted :
      (writes started : Bool) (id : Bytes) (ss : List ServiceState)
      → IsDeleted id ss
          (handle_delete_service parse_ip split_host_port atoi new_id writes started id ss)
  unfolding handle_delete_service
  handle_delete_service-IsDeleted writes started id ss =
      elim (Bool-cases (started || not (idle_status (get_service_status id ss)))) [
        | inl active ↦ rw (handle_delete_service, active) (λ j. refl)
        | inr free ↦ elim (Option-cases (lookup_service id ss)) [
          | inl missing ↦ rw (handle_delete_service, free, missing) (λ j. refl)
          | inr (s, there) ↦
              elim (Option-cases (
                save_ui_config parse_ip split_host_port atoi new_id writes
                  (all_services_config (remove_service id ss)))) [
                    | inl saved ↦
                        rw (handle_delete_service, free, there, saved)
                          (λ j. lookup-remove_service id j ss)
                    | inr (e, failed) ↦
                        rw (handle_delete_service, free, there, failed)
                          (λ j. lookup-undone id j ss s there)
                  ]
        ]
      ]
