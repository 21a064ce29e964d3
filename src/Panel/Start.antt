-- ===== src/Panel/Start.antt =====
-- ui2/start.go: `HandleStart` up to the start of the child. The file is written by the system.
use good_link.Config.Services.Apart.{IsApart, Pairwise}
use good_link.Config.Services.Valid.{IsUsable}
use good_link.Config.Services.Whole.{AtMostOne}
use good_link.Base.{
  ◌∷◌, if◌then◌else◌, stuck, ◌==◌, Bool, ◌≡◌, Outcome, ◌||◌, List, panic, ℤ, Bytes, inl, some, ok,
  none, err, inr, Option, ℕ, true, refl, Outcome-cases, false, All,
}
use good_link.Net.{Ip}
use good_link.Config.Services.{UiService, UiForwardRule, ConfigError, find_service}
use good_link.Config.Services.Check.{normalize_and_validate}
use good_link.Panel.{status_stopping}
use good_link.Panel.Services.{
  ServiceState, StartRequest, StartError, already_started, busy, no_service, bad_config, not_saved,
  crashed, lookup_service, get_service_status, set_cfg, all_services_config, candidate,
  refuse_start, status_detecting,
}

-- `none` is a start that goes on.
abbrev pub Started : Type 0
Started = List ServiceState × Option StartError

module _ (parse_ip : Bytes → Option Ip) (split_host_port : Bytes → Option (Bytes × Bytes))
    (atoi : Bytes → Option ℤ) (new_id : ℕ → Bytes) where
  abbrev pub normalize : List UiService → Outcome ConfigError (List UiService)
  normalize = normalize_and_validate parse_ip split_host_port atoi new_id

  -- `config.SaveUIConfig`, which checks once more; what it returns.
  unfoldable pub save_ui_config : (writes : Bool) → List UiService → Option StartError
  save_ui_config writes cfgs = elim (normalize cfgs) [
    | ok out ↦ if writes then none else some not_saved
    | err e ↦ some (bad_config e)
    | panic ↦ some crashed
    | stuck ↦ some crashed
  ]

  -- The configuration that was found for the service.
  unfoldable pub adopt : Bytes → List UiService → List ServiceState → List ServiceState
  adopt id cfgs ss = elim (find_service cfgs id) [ some cfg ↦ set_cfg id cfg ss | none ↦ ss ]

  -- From the change in memory on.
  unfoldable pub commit_start :
      (writes : Bool) → Bytes → (prev next : UiService) → List ServiceState → Started
  commit_start writes id prev next ss =
      let changed = set_cfg id next ss in
      elim (normalize (all_services_config changed)) [
        | ok cfgs ↦ elim (save_ui_config writes cfgs) [
          | none ↦ (adopt id cfgs changed, none)
          | some e ↦ (set_cfg id prev changed, some e)
        ]
        | err e ↦ (set_cfg id prev changed, some (bad_config e))
        | panic ↦ (changed, some crashed)
        | stuck ↦ (changed, some crashed)
      ]

  unfoldable pub handle_start :
      (occupied : UiForwardRule → Bool) (is_admin writes started : Bool)
      → Bytes
      → StartRequest
      → List ServiceState
      → Started
  handle_start occupied is_admin writes started id q ss =
      let st = get_service_status id ss in
      let found : Started = elim (lookup_service id ss) [
        | none ↦ (ss, some no_service)
        | some cur ↦ elim (refuse_start occupied is_admin id (candidate cur.cfg q) ss) [
          | some e ↦ (ss, some e)
          | none ↦ commit_start writes id cur.cfg (candidate cur.cfg q) ss
        ]
      ] in
      if started
      then (ss, some already_started)
      else if st == status_detecting || st == status_stopping
      then (ss, some busy)
      else found

  abbrev put_cfg : ServiceState → List ServiceState → ServiceState → List ServiceState
  put_cfg s ss from = record s { cfg = from.cfg } ∷ ss

  -- The service has the configuration that was found for it, where one was.
  abbrev pub IsAdopted : Bytes → List UiService → (changed after : List ServiceState) → Type 0
  IsAdopted id cfgs changed after =
      ((cfg : UiService) → find_service cfgs id ≡ some cfg → after ≡ set_cfg id cfg changed)
      × (find_service cfgs id ≡ none → after ≡ changed)

  pub save_ui_config-eq-none :
      (writes : Bool) (cfgs : List UiService)
      → save_ui_config writes cfgs ≡ none
      → (kept : List UiService) × (writes ≡ true) × (normalize cfgs ≡ ok kept)
  unfolding save_ui_config
  save_ui_config-eq-none true cfgs h = elim (Outcome-cases (normalize cfgs)) [
    | inl (kept, fine) ↦ (kept, refl, fine)
    | inr (inl (why, bad)) ↦ absurd (cc (simp (save_ui_config, bad) at h))
    | inr (inr (inl crash)) ↦ absurd (cc (simp (save_ui_config, crash) at h))
    | inr (inr (inr crash)) ↦ absurd (cc (simp (save_ui_config, crash) at h))
  ]
  save_ui_config-eq-none false cfgs h = elim (Outcome-cases (normalize cfgs)) [
    | inl (kept, fine) ↦ absurd (cc (simp (save_ui_config, fine) at h))
    | inr (inl (why, bad)) ↦ absurd (cc (simp (save_ui_config, bad) at h))
    | inr (inr (inl crash)) ↦ absurd (cc (simp (save_ui_config, crash) at h))
    | inr (inr (inr crash)) ↦ absurd (cc (simp (save_ui_config, crash) at h))
  ]

  -- What a start leaves: nothing where it is refused, and else the service as it stands in a
  -- configuration that the check has let through.
  abbrev pub IsSettled :
      (writes : Bool) → Bytes → (UiService → UiService) → List ServiceState → Started → Type 0
  IsSettled writes id change ss (after, some e) = after ≡ ss
  IsSettled writes id change ss (after, none) =
      (cur : ServiceState) × (cfgs : List UiService) × (lookup_service id ss ≡ some cur)
      × (normalize (all_services_config (set_cfg id (change cur.cfg) ss)) ≡ ok cfgs)
      × (writes ≡ true)
      × ((kept : List UiService) × (normalize cfgs ≡ ok kept))
      × IsAdopted id cfgs (set_cfg id (change cur.cfg) ss) after
      × All (IsUsable parse_ip) cfgs
      × Pairwise IsApart cfgs
      × AtMostOne false cfgs
