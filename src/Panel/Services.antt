-- ===== src/Panel/Services.antt =====
-- ui2/state.go, ui2/start.go: the services in memory, and `HandleStart` up to the start of the
-- child.
-- The map from ids to services has the same services as the list, so that a look-up is one in the
-- list.
use good_link.Base.{
  Option, none, [], false, List, Bool, ◌∷◌, Bytes, if◌then◌else◌, ◌||◌, ℕ, ◌&&◌, some, not, ℤ,
}
use good_link.Net.{equal}
use good_link.Config.Text.{trim_space}
use good_link.Config.Services.{
  UiForwardRule, UiService, ConfigError, listen_rule_key, tun_mode, forward_mode,
}
use good_link.Panel.{status_idle}

pub record ServiceState : Type 0 where
  pub cfg : UiService
  pub status : ℕ
  -- Where the proxy of the child listens; the empty host is none.
  pub proxy_host : Bytes
  pub proxy_port : ℤ
  pub proxy_denied : Bool

abbrev pub status_detecting : ℕ
status_detecting = 0

abbrev pub status_starting : ℕ
status_starting = 2

abbrev pub status_connecting : ℕ
status_connecting = 3

abbrev pub status_connected : ℕ
status_connected = 5

abbrev pub status_running : ℕ
status_running = 6

abbrev pub local_work : Bytes
local_work = b'L' ∷ b'o' ∷ b'c' ∷ b'a' ∷ b'l' ∷ []

abbrev pub remote_work : Bytes
remote_work = b'R' ∷ b'e' ∷ b'm' ∷ b'o' ∷ b't' ∷ b'e' ∷ []

-- `lookupService`
unfoldable pub lookup_service : Bytes → List ServiceState → Option ServiceState
lookup_service id [] = none
lookup_service id (s ∷ ss) =
    let rest = lookup_service id ss in if equal s.cfg.id id then some s else rest

-- `getServiceStatus`
unfoldable pub get_service_status : Bytes → List ServiceState → ℕ
get_service_status id ss = elim (lookup_service id ss) [ some s ↦ s.status | none ↦ status_idle ]

-- `mutateService` with a function that sets the configuration.
unfoldable pub set_cfg : Bytes → UiService → List ServiceState → List ServiceState
set_cfg id cfg [] = []
set_cfg id cfg (s ∷ ss) =
    let rest = set_cfg id cfg ss in
    if equal s.cfg.id id then record s { cfg = cfg } ∷ ss else s ∷ rest

-- `allServicesConfig`
unfoldable pub all_services_config : List ServiceState → List UiService
all_services_config [] = []
all_services_config (s ∷ ss) = s.cfg ∷ all_services_config ss

-- `duplicateKey`: the name of another service with the key, or nothing.
unfoldable pub other_with_key : Bytes → Bytes → List ServiceState → Option Bytes
other_with_key id key [] = none
other_with_key id key (s ∷ ss) =
    let rest = other_with_key id key ss in
    if equal s.cfg.id id
    then rest
    else if equal (trim_space s.cfg.tun_key) key
    then some s.cfg.name
    else rest

unfoldable pub duplicate_key : Bytes → Bytes → List ServiceState → Option Bytes
duplicate_key id tun_key ss =
    let key = trim_space tun_key in
    let other : Option Bytes = elim (other_with_key id key ss) [
      | none ↦ none
      | some name ↦ if equal name [] then none else some name
    ] in
    if equal key [] then none else other

abbrev has_text : Bytes → List Bytes → Bool
has_text k [] = false
has_text k (j ∷ js) = equal j k || has_text k js

unfoldable pub rule_keys : List UiForwardRule → List Bytes
rule_keys [] = []
rule_keys (r ∷ rs) = listen_rule_key r ∷ rule_keys rs

-- The loop of `ListenConflicts`, with the keys that are passed over.
unfoldable pub conflicts_from :
    (occupied : UiForwardRule → Bool) → List Bytes → List UiForwardRule → List UiForwardRule
conflicts_from occupied seen [] = []
conflicts_from occupied seen (r ∷ rs) =
    let skip = conflicts_from occupied seen rs in
    let rest = conflicts_from occupied (listen_rule_key r ∷ seen) rs in
    if has_text (listen_rule_key r) seen then skip else if occupied r then r ∷ rest else rest

unfoldable pub listen_conflicts :
    (occupied : UiForwardRule → Bool) (rules skip : List UiForwardRule) → List UiForwardRule
listen_conflicts occupied rules skip = conflicts_from occupied (rule_keys skip) rules

-- What the user asks for.
pub record StartRequest : Type 0 where
  pub work_type : Bytes
  pub tun_key : Bytes
  pub local_mode : Bytes
  pub transport : Bytes
  pub rules : List UiForwardRule
  pub allow_local_proxy : Option Bool

-- The configuration that `HandleStart` tries.
unfoldable pub candidate : UiService → StartRequest → UiService
candidate prev q =
    let work = trim_space q.work_type in
    let key = trim_space q.tun_key in
    record prev {
      work_type =
          if not (equal work local_work) && not (equal work remote_work) then local_work else work;
      tun_key = if equal key [] then prev.tun_key else key;
      local_mode = q.local_mode;
      transport = q.transport;
      forward_rules = q.rules;
      allow_local_proxy = elim q.allow_local_proxy [
        | none ↦ prev.allow_local_proxy
        | some b ↦ some b
      ];
    }

pub data StartError : Type 0 where
  already_started : StartError
  busy : StartError
  no_service : StartError
  same_key_as : Bytes → StartError
  ports_taken : List UiForwardRule → StartError
  admin_needed : StartError
  bad_config : ConfigError → StartError
  not_saved : StartError
  -- Of `HandleDeleteService` and `HandleCreateService`.
  not_stopped : StartError
  no_segment : StartError
  -- Of `HandleImportConfig`.
  nothing_to_import : StartError
  bad_work_type : Bytes → StartError
  -- No error of the code: the check always returns.
  crashed : StartError

-- The checks before anything is changed.
unfoldable pub refuse_start :
    (occupied : UiForwardRule → Bool) (is_admin : Bool)
    → Bytes
    → UiService
    → List ServiceState
    → Option StartError
refuse_start occupied is_admin id cfg ss =
    let is_local = equal cfg.work_type local_work in
    let conflicts = listen_conflicts occupied cfg.forward_rules [] in
    let taken : Option StartError = elim conflicts [
      | [] ↦ none
      | r ∷ rs ↦ some (ports_taken (r ∷ rs))
    ] in
    let unprivileged = is_local && equal cfg.local_mode tun_mode && not is_admin in
    let later : Option StartError =
      elim (if is_local && equal cfg.local_mode forward_mode then taken else none) [
        | some e ↦ some e
        | none ↦ if unprivileged then some admin_needed else none
      ] in
    elim (duplicate_key id cfg.tun_key ss) [ some name ↦ some (same_key_as name) | none ↦ later ]
