-- ===== src/Proxy/Sessions.antt =====
-- proxy/proxy_l.go: the sessions of `ForwardUDPClient`, one tunnel stream for each client address.
-- Streams are numbers. Time is in nanoseconds. A removed session is closed after the lock is
-- given back: until then its stream is in `closing`.
pub mod Table
pub mod Touch
pub mod Threads
pub mod Bounds
pub mod Leaks
mod Tests
use good_link.Base.{
  Bool, if◌then◌else◌, Option, Bytes, false, List, ltb, ◌-◌, ◌++◌, leb, [], ℕ, some, true, ◌∷◌,
  none, length, ◌==◌, not,
}
use good_link.Dict.{Dict, lookup, delete, put}
use good_link.Net.{Ip, equal, to4}
use good_link.Proxy.Header.{head}

abbrev pub max_udp_sessions : ℕ
max_udp_sessions = 1024

-- `UDPIdleTimeout`, sixty seconds
abbrev pub udp_idle_timeout : ℕ
udp_idle_timeout = 60_000_000_000

pub record UdpFwdSession : Type 0 where
  pub stream : ℕ
  pub created_at : ℕ
  pub last_used : ℕ

abbrev pub Sessions : Type 0
Sessions = Dict UdpFwdSession

pub record UdpClient : Type 0 where
  pub sessions : Sessions
  pub sweeping : Bool
  pub closing : List ℕ

abbrev pub streams : Sessions → List ℕ
streams [] = []
streams ((_, s) ∷ m) = s.stream ∷ streams m

-- What precedes the table in `newSession`: the tunnel, the stream that it opens, the target, and
-- whether the head is written.
pub record Opening : Type 0 where
  pub tunnel_ready : Bool
  pub opened : Option ℕ
  pub remote_ip : Ip
  pub remote_port : ℕ
  pub written : Bool

pub data OpenError : Type 0 where
  closed_pipe open_failed invalid_target head_not_written : OpenError

-- The stream with its head, or the error and the stream that is closed at once.
pub data Opened : Type 0 where
  session : ℕ → Bytes → Opened
  refused : OpenError → Option ℕ → Opened

unfoldable pub open_stream : Opening → Opened
unfolding to4
open_stream o = if not o.tunnel_ready then refused closed_pipe none else elim o.opened [
  | none ↦ refused open_failed none
  | some stream ↦ elim (to4 o.remote_ip) [
    | none ↦ refused invalid_target (some stream)
    | some ip4 ↦
        if not o.written
        then refused head_not_written (some stream)
        else session stream (head 0x01 ip4 o.remote_port)
  ]
]

-- The loop of `evictOldestLocked`: the session that was created first.
unfoldable pub oldest_from :
    Option (Bytes × UdpFwdSession) → Sessions → Option (Bytes × UdpFwdSession)
oldest_from victim [] = victim
oldest_from none ((k, s) ∷ m) = oldest_from (some (k, s)) m
oldest_from (some (j, v)) ((k, s) ∷ m) =
    oldest_from (if ltb s.created_at v.created_at then some (k, s) else some (j, v)) m

unfoldable pub evict_oldest : Sessions → Sessions × Option UdpFwdSession
unfolding oldest_from equal
evict_oldest m = elim (oldest_from none m) [
  | none ↦ (m, none)
  | some (k, v) ↦ (if equal k [] then m else delete k m, some v)
]

-- The entry that `newSession` makes, and the flag of the sweeper.
unfoldable pub store : Bytes → UdpFwdSession → UdpClient → UdpClient
store key s p = record p { sessions = put key s p.sessions; sweeping = true }

-- The first locked section of `newSession`. The result is the session to use, and whether the
-- lock was given back to close a victim: then `store` follows in a second section.
pub data Admitted : Type 0 where
  existing : UdpFwdSession → Admitted
  stored : Admitted
  evicted : Admitted

unfoldable pub admit : Bytes → UdpFwdSession → UdpClient → UdpClient × Admitted
unfolding store
admit key s p = elim (lookup key p.sessions) [
  | some other ↦ (record p { closing = s.stream ∷ p.closing }, existing other)
  | none ↦
      if leb max_udp_sessions (length p.sessions)
      then (let (rest, victim) = evict_oldest p.sessions in
          (
            record p {
              sessions = rest;
              closing = elim victim [ none ↦ p.closing | some v ↦ v.stream ∷ p.closing ];
            },
            evicted,
          ))
      else (store key s p, stored)
]

-- `dropSession`
unfoldable pub drop_session : Bytes → UdpClient → UdpClient
drop_session key p = elim (lookup key p.sessions) [
  | none ↦ p
  | some s ↦ record p { sessions = delete key p.sessions; closing = s.stream ∷ p.closing }
]

-- `closeAllSessions`
unfoldable pub close_all_sessions : UdpClient → UdpClient
close_all_sessions p = record p { sessions = []; closing = streams p.sessions ++ p.closing }

-- `udpFwdSession.write` notes the time in the session that it writes to.
unfoldable pub touch : Bytes → ℕ → Sessions → Sessions
unfolding equal
touch k now [] = []
touch k now ((j, s) ∷ m) =
    let rest = touch k now m in
    if equal j k then (j, record s { last_used = now }) ∷ m else (j, s) ∷ rest

abbrev pub note_write : Bytes → ℕ → UdpClient → UdpClient
note_write key now p = record p { sessions = touch key now p.sessions }

-- `now.Sub(s.idleSince()) > UDPIdleTimeout`
abbrev pub idle : ℕ → UdpFwdSession → Bool
idle now s = ltb udp_idle_timeout (now - s.last_used)

unfoldable pub keep_busy : ℕ → Sessions → Sessions
keep_busy now [] = []
keep_busy now ((k, s) ∷ m) =
    let rest = keep_busy now m in if idle now s then rest else (k, s) ∷ rest

unfoldable pub idle_streams : ℕ → Sessions → List ℕ
idle_streams now [] = []
idle_streams now ((k, s) ∷ m) =
    let rest = idle_streams now m in if idle now s then s.stream ∷ rest else rest

-- One tick of `sweepIdle`, which ends where there is no session left.
unfoldable pub sweep : ℕ → UdpClient → UdpClient
unfolding keep_busy idle_streams
sweep now p = if length p.sessions == 0 then record p { sweeping = false } else record p {
  sessions = keep_busy now p.sessions;
  closing = idle_streams now p.sessions ++ p.closing;
}
