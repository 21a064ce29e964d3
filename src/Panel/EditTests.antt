-- ===== src/Panel/EditTests.antt =====
-- A service is changed and deleted; the child of a service reports that it gave up.
use good_link.Base.{
  List, none, some, Bytes, Option, ◌++◌, ◌≡◌, ◌∷◌, inr, All, ap, true, false, refl, err, ℤ, ℕ, [],
  pos, Outcome,
}
use good_link.Config.Text.{
  join_host_port, digits_of, normalize_transport, is_control, trim_left, trim_right, is_space,
  to_lower, lower_rune, itoa, spelled, spelled-itoa, contains, trim_space,
}
use good_link.Panel.Services.{
  local_work, bad_config, ServiceState, StartRequest, lookup_service, all_services_config,
  remote_work,
}
use good_link.Panel.Messages.{
  set_proxy_listen, proxy_deny_token, known_status, parse_proxy_message, parse_status_message,
  update_start_button_statue, report_proxy_addr, handle_line, handle_stop,
}
use good_link.Panel.Views.{service_view_locked, shown_at, reports-AreShown}
use good_link.Net.{Ip, equal, v4_in_v6_prefix}
use good_link.Dict.{lookup, put, delete}
use good_link.Config.Services.{ConfigError, control_in_name, UiService}
use good_link.Config.Services.Check.{
  normalize_and_validate, check_services, check_service, check_identity, check_address,
  check_listens, service_listens, note_service, normalize_service_mode, normalize_rules,
  normalize_rule, normalize_service_name, free_label, check_name, any_control, is_in, id_of,
  key_owner, mode_of, or_fail, keep_auto_start, settle_auto_start,
}
use good_link.Panel.Start.{normalize}
use good_link.Panel.Edits.{
  handle_forwards, handle_rename, mutate_service, set_forwards, takes_forwards, idle_status,
  handle_set_auto_start, handle_update_config, handle_delete_service,
}
use good_link.Panel.Refused.{handle_forwards_stays, IsAlone, handlers-IsAlone}
use good_link.Panel.{status_idle, no_proc}
use good_link.Panel.Deletes.{IsDeleted, handle_delete_service-IsDeleted}
use good_link.Panel.Reported.{reports-AreRead}
use good_link.Panel.Verdicts.{IsResting, verdicts-Stop}
use good_link.Peer as Peer

abbrev one_ip : Bytes → Option Ip
one_ip _ = some (v4_in_v6_prefix ++ 192 ∷ 17 ∷ 19 ∷ 1 ∷ [])

abbrev whole : Bytes → Option (Bytes × Bytes)
whole s = some (s, s)

abbrev number : Bytes → Option ℤ
number s = some (pos (spelled 0 s))

number-itoa : (n : ℕ) → number (itoa n) ≡ some (pos n)
number-itoa n = ap (λ (k : ℕ). some (pos k)) (spelled-itoa n)

abbrev some_id : ℕ → Bytes
some_id n = n ∷ []

abbrev saved : UiService
saved = record {
  id = 5 ∷ [];
  name = 65 ∷ [];
  work_type = remote_work;
  tun_key = 66 ∷ [];
  local_mode = [];
  transport = [];
  tun_ip = 67 ∷ [];
  auto_start = false;
  forward_rules = [];
  allow_local_proxy = none;
}

abbrev idle_service : ServiceState
idle_service = record {
  cfg = saved;
  status = status_idle;
  proxy_host = [];
  proxy_port = pos 0;
  proxy_denied = false;
}

abbrev services : List ServiceState
services = idle_service ∷ []

abbrev wish : StartRequest
wish = record {
  work_type = remote_work;
  tun_key = [];
  local_mode = [];
  transport = 88 ∷ [];
  rules = [];
  allow_local_proxy = some false;
}

handle_delete_service-IsDeleted_example :
    IsDeleted
      (5 ∷ [])
      services
      (handle_delete_service one_ip whole number some_id true false (5 ∷ []) services)
handle_delete_service-IsDeleted_example =
    handle_delete_service-IsDeleted one_ip whole number some_id true false (5 ∷ []) services

there : lookup_service (5 ∷ []) services ≡ some idle_service
unfolding lookup_service equal
there = refl

handlers-IsAlone_example :
    All
      (IsAlone (5 ∷ []))
      (handle_set_auto_start one_ip whole number some_id true (5 ∷ []) true wish services).0
    × (idle_status idle_service.status ≡ true
        → All
            (IsAlone (5 ∷ []))
            (handle_update_config one_ip whole number some_id true (5 ∷ []) true wish services).0)
handlers-IsAlone_example =
    handlers-IsAlone one_ip whole number some_id true (5 ∷ []) wish services idle_service there

unstamped : contains b'[' (50 ∷ []) ≡ false
unfolding contains
unstamped = refl

reports-AreRead_example :
    ((n : ℕ)
      → known_status n ≡ true
      → (parse_proxy_message (update_start_button_statue (50 ∷ []) n) ≡ none)
        × (parse_status_message whole number (update_start_button_statue (50 ∷ []) n) ≡ some n))
    × ((addr : Bytes)
        → equal (trim_space addr) [] ≡ false
        → parse_proxy_message (report_proxy_addr (50 ∷ []) addr) ≡ some (trim_space addr))
reports-AreRead_example = reports-AreRead whole number number-itoa (50 ∷ []) unstamped

verdicts-Stop_example :
    let r =
      handle_line whole number
        (5 ∷ [])
        (update_start_button_statue (50 ∷ []) Peer.status_connect_failed)
        (services, no_proc) in
    (r.1 ≡ true)
    × IsResting (r.0).1
    × (no_proc.started ≡ true
        → ((handle_stop (5 ∷ []) (services, no_proc)).1 ≡ true)
          × IsResting ((handle_stop (5 ∷ []) (services, no_proc)).0).1)
verdicts-Stop_example =
    verdicts-Stop whole number number-itoa (50 ∷ []) (5 ∷ []) Peer.status_connect_failed services
      no_proc unstamped (inr (inr (inr (inr refl))))

takes : takes_forwards status_idle ≡ true
unfolding takes_forwards idle_status
takes = refl

abbrev error_of : Outcome ConfigError (List UiService) → ConfigError
error_of (err e) = e
error_of _ = control_in_name

-- Memory after `HandleForwards` with the mode `X`, checked.
abbrev checked : Outcome ConfigError (List UiService)
checked =
    normalize one_ip whole number some_id
      (all_services_config (mutate_service (5 ∷ []) (set_forwards (88 ∷ []) []) services))

refused : checked ≡ err (error_of checked)
unfolding all_services_config mutate_service set_forwards normalize_and_validate check_services
    check_service check_identity check_address check_listens service_listens note_service
    normalize_service_mode normalize_rules normalize_rule normalize_service_name free_label
    check_name any_control is_in id_of key_owner mode_of or_fail keep_auto_start settle_auto_start
    lookup put delete trim_space trim_left trim_right is_space to_lower lower_rune
    normalize_transport contains is_control equal
refused = refl

handle_forwards_stays_example :
    let r = handle_forwards one_ip whole number some_id true (5 ∷ []) (88 ∷ []) [] services in
    (r.1 ≡ some (bad_config (error_of checked)))
    × (lookup_service (5 ∷ []) r.0 ≡ some (set_forwards (88 ∷ []) [] idle_service))
    × ((j : Bytes) (t : ServiceState)
        → lookup_service j r.0 ≡ some t
        → handle_rename one_ip whole number some_id true j t.cfg.name r.0
          ≡ (r.0, some (bad_config (error_of checked))))
handle_forwards_stays_example =
    handle_forwards_stays one_ip whole number some_id true (5 ∷ []) (88 ∷ []) [] services
      idle_service (error_of checked) there takes refused

-- A proxy at `7:3`.
abbrev proxy_addr : Bytes
proxy_addr = 55 ∷ b':' ∷ 51 ∷ []

abbrev split_once : Bytes → Option (Bytes × Bytes)
split_once _ = some (55 ∷ [], 51 ∷ [])

abbrev local_service : ServiceState
local_service = record idle_service { cfg = record saved { work_type = local_work } }

local_there : lookup_service (5 ∷ []) (local_service ∷ []) ≡ some local_service
unfolding lookup_service equal
local_there = refl

is_local : equal local_service.cfg.work_type local_work ≡ true
unfolding equal
is_local = refl

split_there : split_once (join_host_port (55 ∷ []) (itoa 3)) ≡ some (55 ∷ [], itoa 3)
unfolding itoa digits_of
split_there = refl

addr_trimmed : trim_space proxy_addr ≡ join_host_port (55 ∷ []) (itoa 3)
unfolding trim_space trim_left trim_right is_space join_host_port contains itoa digits_of equal
addr_trimmed = refl

addr_listens : equal (join_host_port (55 ∷ []) (itoa 3)) proxy_deny_token ≡ false
unfolding join_host_port contains itoa digits_of equal
addr_listens = refl

reports-AreShown_example :
    (t : ServiceState) × (lookup_service
        (5 ∷ [])
        (set_proxy_listen split_once number (5 ∷ []) proxy_addr (local_service ∷ []))
      ≡ some t)
    × ((service_view_locked t).proxy ≡ shown_at (trim_space proxy_addr) 3)
reports-AreShown_example =
    reports-AreShown split_once number (5 ∷ []) proxy_addr 55 [] 3 (local_service ∷ [])
      local_service split_there (number-itoa 3) local_there is_local addr_trimmed addr_listens refl
