-- ===== src/Proxy/Serve.antt =====
-- proxy/proxy_l.go: the loops `Serve` of both listeners on what `Accept` and `ReadFrom` return in
-- turn, and the way of one datagram into its session. Times are in nanoseconds.
pub mod Retries
pub mod Datagrams
mod Tests
use good_link.Base.{
  ◌*◌, ltb, false, ◌%◌, List, ◌∷◌, none, Bool, [], ℕ, not, Option, ◌==◌, true, ◌^◌, ◌||◌, Bytes,
  some, suc, if◌then◌else◌,
}
use good_link.Dict.{lookup}
use good_link.Proxy.Sessions.{
  UdpFwdSession, UdpClient, Opening, OpenError, Opened, session, refused, open_stream, admit,
  existing, stored, evicted, store, drop_session, note_write,
}

abbrev pub serve_retry_base : ℕ
serve_retry_base = 50_000_000

abbrev pub serve_retry_max : ℕ
serve_retry_max = 1_000_000_000

abbrev pub max_serve_failures : ℕ
max_serve_failures = 10

-- What `retryServeError` asks of an error that is not nil.
pub record ServeError : Type 0 where
  pub is_net : Bool
  pub temporary : Bool
  pub timeout : Bool

abbrev pub retry_serve_error : ServeError → Bool
retry_serve_error e = if not e.is_net then false else e.temporary || e.timeout

-- The product is one of 64 bits. What is negative there is above the maximum here.
abbrev pub serve_backoff : ℕ → ℕ
serve_backoff failures =
    let d = serve_retry_base * failures % 2 ^ 64 in
    if ltb serve_retry_max d || d == 0 then serve_retry_max else d

-- A connection with its number and whether the tunnel is ready, or an error.
pub data Accepted : Type 0 where
  conn : ℕ → Bool → Accepted
  error : ServeError → Accepted

pub data Served : Type 0 where
  sleep handle reject : ℕ → Served

-- What the loop does, and whether it has returned, which marks the runner as failed.
unfoldable pub serve : ℕ → List Accepted → List Served × Bool
serve failures [] = ([], false)
serve failures (conn c ready ∷ rest) =
    let (done, failed) = serve 0 rest in ((if ready then handle c else reject c) ∷ done, failed)
serve failures (error e ∷ rest) =
    let (done, failed) = serve (suc failures) rest in
    if not (retry_serve_error e)
    then ([], true)
    else if ltb max_serve_failures (suc failures)
    then ([], true)
    else (sleep (serve_backoff (suc failures)) ∷ done, failed)

-- `newSession` where no other goroutine comes between: the session to use, or the error.
unfoldable pub new_session : Bytes → Opening → ℕ → UdpClient → Option UdpFwdSession × UdpClient
new_session key o now p = elim (open_stream o) [
  | refused _ none ↦ (none, p)
  | refused _ (some stream) ↦ (none, record p { closing = stream ∷ p.closing })
  | session stream _ ↦
      let s : UdpFwdSession = record { stream = stream; created_at = now; last_used = now } in
      let (p', how) = admit key s p in
      elim how [
        | existing other ↦ (some other, p')
        | stored ↦ (some s, p')
        | evicted ↦ (some s, store key s p')
      ]
]

-- One datagram that `ReadFrom` returned: its length, and what its way meets.
pub record Datagram : Type 0 where
  pub size : ℕ
  pub tunnel_ready : Bool
  pub key : Bytes
  pub opening : Opening
  pub now : ℕ
  pub written : Bool

-- `sess.write`, and `dropSession` where it fails.
abbrev pub write_to : Datagram → UdpClient → UdpClient
write_to d p = if d.written then note_write d.key d.now p else drop_session d.key p

-- The rest of the loop's body: the session that was written to, if any.
unfoldable pub serve_datagram : Datagram → UdpClient → Option UdpFwdSession × UdpClient
serve_datagram d p =
    if d.size == 0
    then (none, p)
    else if not d.tunnel_ready
    then (none, p)
    else elim (lookup d.key p.sessions) [
      | some s ↦ (some s, write_to d p)
      | none ↦
          let (made, p') = new_session d.key d.opening d.now p in
          elim made [ none ↦ (none, p') | some s ↦ (some s, write_to d p') ]
    ]
