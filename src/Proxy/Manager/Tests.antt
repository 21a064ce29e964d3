-- ===== src/Proxy/Manager/Tests.antt =====
-- The theorems on the forward manager at two rules, one of which is dropped later.
use good_link.Base.{true, [], refl, ℕ, ◌≡◌, Bool, some, ◌∷◌, none, Bytes, Option, ◌≢◌}
use good_link.Proxy.Manager.{
  create_new, new_runner, ForwardRule, ForwardManager, apply, set_quic, listen_key, has_key,
  wanted_from,
}
use good_link.Proxy.Manager.Builtin.{start_builtin_proxy}
use good_link.Dict.{delete, lookup}
use good_link.Net.{equal}
use good_link.Proxy.Manager.Steps.{
  new_forward_manager, serve_ends, ManagerReach, at_new, after, applied, connected, ended,
  started_builtin,
}
use good_link.Proxy.Manager.Quic.{IsConnected, ManagerReach-IsConnected}
use good_link.Proxy.Manager.Reached.{Owns, ManagerReach-Owns}
use good_link.Proxy.Manager.Wanted.{apply_wanted}

abbrev web : ForwardRule
web = record {
  listen_addr = 56 ∷ 48 ∷ [];
  remote_ip = 10 ∷ 0 ∷ 0 ∷ 5 ∷ [];
  remote_port = 8080;
  proto = 0;
}

abbrev dns : ForwardRule
dns = record { listen_addr = 53 ∷ []; remote_ip = 10 ∷ 0 ∷ 0 ∷ 1 ∷ []; remote_port = 53; proto = 1 }

abbrev always : ℕ → ForwardRule → Bool
always _ _ = true

abbrev first : ForwardManager
first = (apply always (web ∷ dns ∷ []) new_forward_manager).1

-- Addresses of listeners, as texts of one byte.
abbrev bound : ℕ → Bytes
bound id = id ∷ []

abbrev no_port : ℕ → Option ℕ
no_port _ = none

abbrev whole : Bytes → Option (Bytes × Bytes)
whole s = some (s, s)

bound_told : (n : ℕ) → bound n ≢ []
bound_told n e = cc e

abbrev proxied : ForwardManager
proxied = (start_builtin_proxy always bound no_port whole first).0

abbrev later : ForwardManager
later = (apply always (dns ∷ []) (serve_ends 0 (set_quic (some 7) proxied))).1

later-ManagerReach : ManagerReach always bound no_port whole later
later-ManagerReach =
    after
      (after
        (after (after (after at_new (applied (web ∷ dns ∷ []))) started_builtin)
          (connected (some 7)))
        (ended 0))
      (applied (dns ∷ []))

ManagerReach-IsConnected_example : IsConnected later
ManagerReach-IsConnected_example =
    ManagerReach-IsConnected always bound no_port whole later later-ManagerReach

ManagerReach-Owns_example : Owns 2 later
ManagerReach-Owns_example =
    ManagerReach-Owns always bound no_port whole 2 later bound_told later-ManagerReach

apply_wanted_example :
    has_key (listen_key web) (apply always (dns ∷ web ∷ []) new_forward_manager).1.entries ≡ true
unfolding apply wanted_from listen_key lookup equal create_new has_key new_runner delete
apply_wanted_example =
    apply_wanted always (listen_key web) web (dns ∷ web ∷ []) new_forward_manager refl tt refl refl
