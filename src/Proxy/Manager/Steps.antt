-- ===== src/Proxy/Manager/Steps.antt =====
-- The operations of a `ForwardManager`, each under its mutex, and the end of a `Serve`, which marks
-- its runner as failed (proxy/proxy_l.go), in any order.
use good_link.Base.{Option, ◌∷◌, Bool, if◌then◌else◌, false, none, ◌==◌, true, ℕ, [], List, Bytes}
use good_link.Proxy.Manager.Builtin.{start_builtin_proxy}
use good_link.Proxy.Manager.{
  ForwardRule, ForwardEntry, ForwardManager, apply, set_quic, stop_builtin_proxy, close_manager,
}

abbrev pub new_forward_manager : ForwardManager
new_forward_manager = record {
  entries = [];
  builtin = none;
  quic = none;
  closed = false;
  listeners = record { tried = 0; live = [] };
}

-- `defer p.failed.Store(true)` of the runner with this number; `Apply` reads the mark of an entry's
-- runner, and nothing reads that of the built-in proxy's.
abbrev pub mark_failed : ℕ → List ForwardEntry → List ForwardEntry
mark_failed id [] = []
mark_failed id (e ∷ es) =
    record e {
      runner = record (e.runner) { failed = if e.runner.id == id then true else e.runner.failed };
    }
    ∷ mark_failed id es

abbrev pub serve_ends : ℕ → ForwardManager → ForwardManager
serve_ends id m = record m { entries = mark_failed id m.entries }

module _ (listens : ℕ → ForwardRule → Bool) (bound : ℕ → Bytes) (tcp_port : ℕ → Option ℕ)
    (split_host_port : Bytes → Option (Bytes × Bytes)) where
  pub data ManagerStep : ForwardManager → ForwardManager → Type 0 where
    applied :
        {m : ForwardManager} (rules : List ForwardRule) → ManagerStep m (apply listens rules m).1
    connected : {m : ForwardManager} (conn : Option ℕ) → ManagerStep m (set_quic conn m)
    started_builtin :
        {m : ForwardManager}
        → ManagerStep m (start_builtin_proxy listens bound tcp_port split_host_port m).0
    stopped_builtin : {m : ForwardManager} → ManagerStep m (stop_builtin_proxy m)
    ended : {m : ForwardManager} (id : ℕ) → ManagerStep m (serve_ends id m)
    closes : {m : ForwardManager} → ManagerStep m (close_manager m)

  pub data ManagerReach : ForwardManager → Type 0 where
    at_new : ManagerReach new_forward_manager
    after : {m n : ForwardManager} → ManagerReach m → ManagerStep m n → ManagerReach n
