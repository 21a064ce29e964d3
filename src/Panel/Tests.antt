-- ===== src/Panel/Tests.antt =====
-- A child is stopped, another one is started, and only then the first one's waiter wakes up.
use good_link.Base.{
  ◌≡◌, ◌∷◌, true, refl, [], some, ◌++◌, none, List, ℤ, ℕ, false, Bytes, Option, Bool, pos,
}
use good_link.Panel.{start_cmd, stop_service, wait_exit, status_idle}
use good_link.Panel.Steps.{Panel, no_child, spawn, launch, stop, kill, wait}
use good_link.Net.{Ip, v4_in_v6_prefix}
use good_link.Config.Services.{UiForwardRule, UiService}
use good_link.Panel.Services.{ServiceState, StartRequest, remote_work}

abbrev asked : Panel → Panel
asked s = record s { starting = true; proc = record (s.proc) { auto_restart = true } }

abbrev first : Panel
first = launch 1 (spawn (asked no_child))

abbrev second : Panel
second = launch 2 (spawn (asked (stop first)))

abbrev woken : Panel
woken = wait 1 1 ((2, 2) ∷ []) (kill 1 second)

still_filed : woken.pid_file ≡ some 2
unfolding spawn launch stop kill wait start_cmd stop_service wait_exit
still_filed = refl

abbrev one_ip : Bytes → Option Ip
one_ip _ = some (v4_in_v6_prefix ++ 192 ∷ 17 ∷ 19 ∷ 1 ∷ [])

abbrev whole : Bytes → Option (Bytes × Bytes)
whole s = some (s, s)

abbrev port_80 : Bytes → Option ℤ
port_80 _ = some (pos 80)

abbrev some_id : ℕ → Bytes
some_id n = n ∷ []

abbrev saved : UiService
saved = record {
  id = 5 ∷ [];
  name = 65 ∷ [];
  work_type = remote_work;
  tun_key = 66 ∷ [];
  local_mode = [];
  transport = [];
  tun_ip = 67 ∷ [];
  auto_start = false;
  forward_rules = [];
  allow_local_proxy = none;
}

abbrev services : List ServiceState
services =
    record {
      cfg = saved;
      status = status_idle;
      proxy_host = [];
      proxy_port = pos 0;
      proxy_denied = false;
    }
    ∷ []

abbrev wish : StartRequest
wish = record {
  work_type = remote_work;
  tun_key = [];
  local_mode = [];
  transport = 88 ∷ [];
  rules = [];
  allow_local_proxy = some false;
}

abbrev unoccupied : UiForwardRule → Bool
unoccupied _ = false
