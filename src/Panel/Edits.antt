-- ===== src/Panel/Edits.antt =====
-- ui2/start.go: the handlers that change the configuration of a service, create one or delete one.
use good_link.Base.{
  zero, Bool, stuck, Option, err, [], ◌||◌, ℕ, some, if◌then◌else◌, none, ok, not, Bytes, ◌∷◌, ◌==◌,
  List, ◌++◌, panic, false, ℤ, suc, pos,
}
use good_link.Net.{Ip, equal}
use good_link.Config.Text.{trim_space, kcp_name}
use good_link.Config.Services.{
  UiService, UiForwardRule, find_service, tun_mode, service_label, allocate_tun_ip,
}
use good_link.Panel.{status_idle, status_connecting_nat4, status_connect_failed}
use good_link.Panel.Services.{
  ServiceState, StartRequest, StartError, busy, no_service, bad_config, crashed, not_stopped,
  no_segment, lookup_service, get_service_status, all_services_config, status_detecting,
  status_starting, status_connecting, status_connected, status_running, local_work, remote_work,
}
use good_link.Panel.Start.{Started, normalize, save_ui_config}

-- `serviceIdle`, on the status.
unfoldable pub idle_status : ℕ → Bool
idle_status st =
    st == status_detecting
    || st == status_idle
    || st == status_connect_failed
    || st == status_connecting_nat4

-- `mutateService`: the first service with the id is changed.
unfoldable pub mutate_service :
    Bytes → (ServiceState → ServiceState) → List ServiceState → List ServiceState
mutate_service id f [] = []
mutate_service id f (s ∷ ss) =
    let rest = mutate_service id f ss in if equal s.cfg.id id then f s ∷ ss else s ∷ rest

unfoldable pub clear_other_auto_start : Bytes → List ServiceState → List ServiceState
clear_other_auto_start keep [] = []
clear_other_auto_start keep (s ∷ ss) =
    (if equal s.cfg.id keep then s else record s { cfg = record (s.cfg) { auto_start = false } })
    ∷ clear_other_auto_start keep ss

-- What an idle service takes of a request.
unfoldable pub set_idle : StartRequest → ServiceState → ServiceState
set_idle q s =
    let prev = s.cfg in
    let key = trim_space q.tun_key in
    record s {
      cfg = record prev {
        work_type =
            if equal q.work_type local_work || equal q.work_type remote_work
            then q.work_type
            else prev.work_type;
        tun_key = if equal key [] then prev.tun_key else key;
        local_mode = q.local_mode;
        transport = q.transport;
        forward_rules = q.rules;
        allow_local_proxy = elim q.allow_local_proxy [
          | none ↦ prev.allow_local_proxy
          | some b ↦ some b
        ];
      };
    }

unfoldable pub set_auto : Bool → ServiceState → ServiceState
set_auto auto s = record s { cfg = record (s.cfg) { auto_start = auto } }

unfoldable pub set_forwards : Bytes → List UiForwardRule → ServiceState → ServiceState
set_forwards mode rules s = record s {
  cfg = record (s.cfg) { local_mode = mode; forward_rules = rules };
}

unfoldable pub set_name : Bytes → ServiceState → ServiceState
set_name name s = record s { cfg = record (s.cfg) { name = name } }

-- `HandleForwards` changes services in those states.
unfoldable pub takes_forwards : ℕ → Bool
takes_forwards st =
    idle_status st
    || st == status_connected
    || st == status_connecting
    || st == status_running
    || st == status_starting

-- The change of `HandleSetAutoStart`.
unfoldable pub auto_started : Bytes → Bool → StartRequest → List ServiceState → List ServiceState
auto_started id auto q ss =
    let set = mutate_service id (set_auto auto) ss in
    let cleared = if auto then clear_other_auto_start id set else set in
    mutate_service id (λ s. if idle_status s.status then set_idle q s else s) cleared

-- The change of `HandleUpdateConfig`.
unfoldable pub updated : Bytes → Bool → StartRequest → List ServiceState → List ServiceState
updated id auto q ss =
    let set = mutate_service id (λ s. set_auto auto (set_idle q s)) ss in
    if auto then clear_other_auto_start id set else set

-- The loop of `AllocateServiceName`, for as many numbers as are left.
unfoldable pub has_name : Bytes → List UiService → Bool
has_name name [] = false
has_name name (s ∷ ss) = equal (trim_space s.name) name || has_name name ss

unfoldable pub free_service_name : ℕ → ℕ → List UiService → Bytes
free_service_name zero n ss = 26381 ∷ 21153 ∷ []
free_service_name (suc fuel) n ss =
    let rest = free_service_name fuel (suc n) ss in
    if has_name (service_label n) ss then rest else service_label n

unfoldable pub remove_service : Bytes → List ServiceState → List ServiceState
remove_service id [] = []
remove_service id (s ∷ ss) =
    let rest = remove_service id ss in if equal s.cfg.id id then rest else s ∷ rest

unfoldable pub last_service : List UiService → Option UiService
last_service [] = none
last_service (s ∷ []) = some s
last_service (s ∷ t ∷ ss) = last_service (t ∷ ss)

abbrev pub new_state : UiService → ServiceState
new_state cfg = record {
  cfg = cfg;
  status = status_idle;
  proxy_host = [];
  proxy_port = pos 0;
  proxy_denied = false;
}

-- What `HandleCreateService` adds.
module _ (parse_ip : Bytes → Option Ip) where
  abbrev pub blank_service : List UiService → UiService
  blank_service cfgs = record {
    id = [];
    name = free_service_name 9999 1 cfgs;
    work_type = local_work;
    tun_key = [];
    local_mode = tun_mode;
    transport = kcp_name;
    tun_ip = allocate_tun_ip parse_ip cfgs;
    auto_start = false;
    forward_rules = [];
    allow_local_proxy = none;
  }

module _ (parse_ip : Bytes → Option Ip) (split_host_port : Bytes → Option (Bytes × Bytes))
    (atoi : Bytes → Option ℤ) (new_id : ℕ → Bytes) where
  -- The end of the handlers: what memory says is checked and written.
  unfoldable pub check_and_save : (writes : Bool) → List ServiceState → Option StartError
  check_and_save writes ss =
      elim (normalize parse_ip split_host_port atoi new_id (all_services_config ss)) [
        | ok cfgs ↦ save_ui_config parse_ip split_host_port atoi new_id writes cfgs
        | err e ↦ some (bad_config e)
        | panic ↦ some crashed
        | stuck ↦ some crashed
      ]

  unfoldable pub handle_forwards :
      (writes : Bool) → Bytes → Bytes → List UiForwardRule → List ServiceState → Started
  handle_forwards writes id mode rules ss =
      let after = mutate_service id (set_forwards mode rules) ss in
      elim (lookup_service id ss) [
        | none ↦ (ss, some no_service)
        | some s ↦
            if takes_forwards s.status
            then (after, check_and_save writes after)
            else (ss, some busy)
      ]

  unfoldable pub handle_set_auto_start :
      (writes : Bool) → Bytes → Bool → StartRequest → List ServiceState → Started
  handle_set_auto_start writes id auto q ss =
      let after = auto_started id auto q ss in
      elim (lookup_service id ss) [
        | none ↦ (ss, some no_service)
        | some s ↦ (after, check_and_save writes after)
      ]

  unfoldable pub handle_update_config :
      (writes : Bool) → Bytes → Bool → StartRequest → List ServiceState → Started
  handle_update_config writes id auto q ss =
      let after = updated id auto q ss in
      elim (lookup_service id ss) [
        | none ↦ (ss, some no_service)
        | some s ↦
            if idle_status s.status then (after, check_and_save writes after) else (ss, some busy)
      ]

  -- The name that the check has found for the service.
  unfoldable pub adopt_name : Bytes → List UiService → List ServiceState → List ServiceState
  adopt_name id cfgs ss = elim (find_service cfgs id) [
    | some cfg ↦ mutate_service id (set_name cfg.name) ss
    | none ↦ ss
  ]

  unfoldable pub handle_rename : (writes : Bool) → Bytes → Bytes → List ServiceState → Started
  handle_rename writes id name ss =
      let after = mutate_service id (set_name name) ss in
      let adopted : List ServiceState =
        elim (normalize parse_ip split_host_port atoi new_id (all_services_config after)) [
          | ok cfgs ↦ adopt_name id cfgs after
          | err e ↦ after
          | panic ↦ after
          | stuck ↦ after
        ] in
      let renamed : Started = elim (check_and_save writes after) [
        | some e ↦ (after, some e)
        | none ↦ (adopted, none)
      ] in
      elim (lookup_service id ss) [ none ↦ (ss, some no_service) | some s ↦ renamed ]

  unfoldable pub handle_create_service : (writes : Bool) → List ServiceState → Started
  handle_create_service writes ss =
      let cfgs = all_services_config ss in
      let added : Started =
        elim (normalize parse_ip split_host_port atoi new_id
          (cfgs ++ blank_service parse_ip cfgs ∷ [])) [
            | ok out ↦ elim (save_ui_config parse_ip split_host_port atoi new_id writes out) [
              | some e ↦ (ss, some e)
              | none ↦ elim (last_service out) [
                | some created ↦ (ss ++ new_state created ∷ [], none)
                -- An index out of range.
                | none ↦ (ss, some crashed)
              ]
            ]
            | err e ↦ (ss, some (bad_config e))
            | panic ↦ (ss, some crashed)
            | stuck ↦ (ss, some crashed)
          ] in
      if equal (allocate_tun_ip parse_ip cfgs) [] then (ss, some no_segment) else added

  -- `saveAllConfig` gives what memory says to `SaveUIConfig`.
  unfoldable pub handle_delete_service :
      (writes started : Bool) → Bytes → List ServiceState → Started
  handle_delete_service writes started id ss =
      let next = remove_service id ss in
      let saved =
        save_ui_config parse_ip split_host_port atoi new_id writes (all_services_config next) in
      let found : Started = elim (lookup_service id ss) [
        | none ↦ (ss, some no_service)
        | some removed ↦ elim saved [
          | none ↦ (next, none)
          | some e ↦ (next ++ removed ∷ [], some e)
        ]
      ] in
      if started || not (idle_status (get_service_status id ss))
      then (ss, some not_stopped)
      else found
