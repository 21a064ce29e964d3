-- ===== src/Proxy/Sessions/Threads.antt =====
-- proxy/proxy_l.go: the steps of the goroutines of a `ForwardUDPClient` that change its sessions:
-- `Serve` with `newSession`, the deferred call of each `readBack`, `sweepIdle`, and
-- `closeAllSessions` from any other. A step is one section under `sessMu`, or one `close`.
use good_link.Base.{false, Bytes, some, ◌++◌, List, none, ◌≡◌, Option, ℕ, ◌∷◌, [], ◌≢◌}
use good_link.Proxy.Sessions.{
  note_write, UdpFwdSession, UdpClient, existing, stored, evicted, admit, store, drop_session,
  close_all_sessions, sweep,
}

-- `pending` is a session that `newSession` has yet to enter, when it gave back the lock to close
-- a victim. `opened` counts the streams that came to the table, `closed` those that were closed.
pub record System : Type 0 where
  pub client : UdpClient
  pub pending : Option (Bytes × UdpFwdSession)
  pub closed : List ℕ
  pub opened : List ℕ

abbrev pub start : System
start = record {
  client = record { sessions = []; sweeping = false; closing = [] };
  pending = none;
  closed = [];
  opened = [];
}

unfoldable pub begin_session : Bytes → UdpFwdSession → System → System
begin_session key s t =
    let (p, how) = admit key s t.client in
    record t {
      client = p;
      pending = elim how [ existing _ ↦ none | stored ↦ none | evicted ↦ some (key, s) ];
      opened = s.stream ∷ t.opened;
    }

unfoldable pub end_session : Bytes → UdpFwdSession → System → System
end_session key s t = record t { client = store key s t.client; pending = none }

unfoldable pub close_one : ℕ → List ℕ → System → System
close_one stream rest t = record t {
  client = record (t.client) { closing = rest };
  closed = stream ∷ t.closed;
}

abbrev pub on_client : (UdpClient → UdpClient) → System → System
on_client f t = record t { client = f t.client }

-- One goroutine runs `Serve`: it begins a session where none is pending. The address of a client
-- is never the empty text.
pub data Step : System → System → Type 0 where
  begin :
      {t : System} (key : Bytes) (s : UdpFwdSession)
      → key ≢ []
      → t.pending ≡ none
      → Step t (begin_session key s t)
  finish :
      {t : System} (key : Bytes) (s : UdpFwdSession)
      → t.pending ≡ some (key, s)
      → Step t (end_session key s t)
  drop_one : {t : System} (key : Bytes) → Step t (on_client (drop_session key) t)
  noted : {t : System} (key : Bytes) (now : ℕ) → Step t (on_client (note_write key now) t)
  close_all : {t : System} → Step t (on_client close_all_sessions t)
  tick : {t : System} (now : ℕ) → Step t (on_client (sweep now) t)
  close :
      {t : System} (stream : ℕ) (before after : List ℕ)
      → t.client.closing ≡ before ++ stream ∷ after
      → Step t (close_one stream (before ++ after) t)

pub data Reach : System → Type 0 where
  at_start : Reach start
  step_after : {t u : System} → Reach t → Step t u → Reach u
