-- ===== src/Panel/Import.antt =====
-- ui2/ui.go: `HandleImportConfig`. What an old file held is not read here.
use good_link.Base.{
  panic, Outcome, ◌&&◌, fail_if, Bytes, ◌>>=◌, ◌>>◌, ◌≡◌, suc, ◌||◌, err, stuck, Bool, Option, true,
  not, false, ok, ◌∷◌, [], if◌then◌else◌, ℤ, ℕ, none, some, List, All, ◌≢◌,
}
use good_link.Net.{Ip, equal}
use good_link.Config.Services.Apart.{IsApart, Pairwise}
use good_link.Config.Services.Valid.{IsUsable}
use good_link.Config.Services.Whole.{AtMostOne}
use good_link.Config.Text.{trim_space}
use good_link.Config.Services.{UiService, ConfigError}
use good_link.Panel.Services.{
  all_services_config, ServiceState, StartError, busy, bad_config, crashed, nothing_to_import,
  bad_work_type, local_work, remote_work,
}
use good_link.Panel.{status_idle}
use good_link.Panel.Start.{Started, normalize, save_ui_config}
use good_link.Panel.Edits.{idle_status, new_state}

-- `anyServiceActive`; `started` has the flag of each process.
unfoldable pub any_started : List Bool → Bool
any_started [] = false
any_started (b ∷ bs) = b || any_started bs

unfoldable pub any_busy : List ServiceState → Bool
any_busy [] = false
any_busy (s ∷ ss) = not (idle_status s.status) || any_busy ss

unfoldable pub any_service_active : List Bool → List ServiceState → Bool
any_service_active started ss = if any_started started then true else any_busy ss

-- The body of the loop over the services; `key` is a random one.
unfoldable pub complete_service : (key : Bytes) → UiService → Outcome StartError UiService
complete_service key s =
    let given = trim_space s.work_type in
    let work = if equal given [] then local_work else given in
    fail_if (not (equal work local_work) && not (equal work remote_work)) (bad_work_type work)
    >> ok (record s { work_type = work; tun_key = if equal s.tun_key [] then key else s.tun_key })

unfoldable pub complete_services :
    (random_key : ℕ → Bytes) → ℕ → List UiService → Outcome StartError (List UiService)
complete_services random_key i [] = ok []
complete_services random_key i (s ∷ ss) = complete_service (random_key i) s >>= λ c.
    complete_services random_key (suc i) ss >>= λ cs. ok (c ∷ cs)

-- `replaceServices`, with the status that the import sets.
unfoldable pub replace_services : List UiService → List ServiceState
replace_services [] = []
replace_services (s ∷ ss) = new_state s ∷ replace_services ss

abbrev pub as_start : Outcome ConfigError (List UiService) → Outcome StartError (List UiService)
as_start (ok a) = ok a
as_start (err e) = err (bad_config e)
as_start panic = panic
as_start stuck = stuck

abbrev pub saved_or : Option StartError → List UiService → Outcome StartError (List UiService)
saved_or none out = ok out
saved_or (some e) out = err e

abbrev pub none_empty : List UiService → Outcome StartError (List UiService)
none_empty [] = err nothing_to_import
none_empty (s ∷ ss) = ok (s ∷ ss)

abbrev pub imported_over : List ServiceState → Outcome StartError (List UiService) → Started
imported_over ss (ok out) = (replace_services out, none)
imported_over ss (err e) = (ss, some e)
imported_over ss panic = (ss, some crashed)
imported_over ss stuck = (ss, some crashed)

module _ (parse_ip : Bytes → Option Ip) (split_host_port : Bytes → Option (Bytes × Bytes))
    (atoi : Bytes → Option ℤ) (new_id : ℕ → Bytes) (random_key : ℕ → Bytes) where
  -- The services of the import, checked, completed, checked again and written.
  unfoldable pub import_services :
      (writes : Bool) → List UiService → Outcome StartError (List UiService)
  import_services writes cfgs =
      as_start (normalize parse_ip split_host_port atoi new_id cfgs) >>= λ checked.
      none_empty checked >>= λ some_there.
      complete_services random_key 0 some_there >>= λ completed.
      as_start (normalize parse_ip split_host_port atoi new_id completed) >>= λ out.
      saved_or (save_ui_config parse_ip split_host_port atoi new_id writes out) out

  unfoldable pub handle_import_config :
      (writes : Bool) (started : List Bool) → List UiService → List ServiceState → Started
  handle_import_config writes started cfgs ss =
      if any_service_active started ss
      then (ss, some busy)
      else imported_over ss (import_services writes cfgs)

  -- The services are those of the import: checked, at least one, each one completed, checked
  -- again, and written.
  abbrev pub IsTaken : (writes : Bool) → (cfgs out : List UiService) → Type 0
  IsTaken writes cfgs out =
      (first : List UiService) × (completed : List UiService) × (kept : List UiService) × (normalize
          parse_ip split_host_port atoi new_id cfgs
        ≡ ok first)
      × (first ≢ [])
      × (complete_services random_key 0 first ≡ ok completed)
      × (normalize parse_ip split_host_port atoi new_id completed ≡ ok out)
      × (writes ≡ true)
      × (normalize parse_ip split_host_port atoi new_id out ≡ ok kept)

  -- What an import leaves: nothing where it is refused; and else, where all rested, services that
  -- the check has let through.
  abbrev pub IsImported :
      (writes : Bool) → List Bool → List UiService → List ServiceState → Started → Type 0
  IsImported writes started cfgs ss (after, some e) = after ≡ ss
  IsImported writes started cfgs ss (after, none) =
      IsTaken writes cfgs (all_services_config after)
      × All (λ s. s.status ≡ status_idle) after
      × All (IsUsable parse_ip) (all_services_config after)
      × Pairwise IsApart (all_services_config after)
      × AtMostOne false (all_services_config after)
      × All (λ b. b ≡ false) started
      × All (λ s. idle_status s.status ≡ true) ss
