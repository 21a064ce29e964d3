-- ===== src/Panel/Verdicts.antt =====
-- ui2/start.go: what follows a report of the child that it cannot connect, or a stop by the user.
use good_link.Base.{
  ◌≢◌, arith, Option, false, refl, ◌≡◌, true, ℕ, ◌⊎◌, List, Bytes, some, ℤ, none, pos,
}
use good_link.Config.Text.{itoa, contains}
use good_link.Panel.{SvcProc, restart, wait_exit, may_restart, disable_auto_restart}
use good_link.Panel.Services.{ServiceState}
use good_link.Panel.Messages.{
  update_start_button_statue, known_status, parse_proxy_message, parse_status_message,
  update_connection_status, handle_line, handle_stop,
}
use good_link.Panel.Reported.{reports-AreRead}
use good_link.Peer as Peer

-- The reports after which the child is not wanted any more.
abbrev pub IsVerdict : ℕ → Type 0
IsVerdict n =
    (n ≡ Peer.status_connecting_nat4)
    ⊎ (n ≡ Peer.status_version_mismatch)
    ⊎ (n ≡ Peer.status_transport_mismatch)
    ⊎ (n ≡ Peer.status_need_admin)
    ⊎ (n ≡ Peer.status_connect_failed)

-- Nothing starts the child again: the test for a restart fails, and no waiter asks for one.
abbrev pub IsResting : SvcProc → Type 0
IsResting p =
    (may_restart p ≡ false)
    × ((child gen : ℕ) (file : Option ℕ) → (wait_exit child gen p file).2 ≢ restart)

disable_auto_restart-IsResting : (p : SvcProc) → IsResting (disable_auto_restart p)
unfolding wait_exit disable_auto_restart may_restart
disable_auto_restart-IsResting p = (refl, λ child gen file h. ground arith)

known-verdict : (n : ℕ) → IsVerdict n → known_status n ≡ true
unfolding known_status
known-verdict n h = ground arith

-- The report stops the child.
verdict-Stops :
    (id : Bytes) (n : ℕ) (ss : List ServiceState) (p : SvcProc)
    → IsVerdict n
    → let r = update_connection_status id n (ss, p) in
      (r.1 ≡ true) × ((r.0).1 ≡ disable_auto_restart p)
unfolding update_connection_status
verdict-Stops id n ss p h = ground arith

module _ (split_host_port : Bytes → Option (Bytes × Bytes)) (atoi : Bytes → Option ℤ)
    (atoi-itoa : (n : ℕ) → atoi (itoa n) ≡ some (pos n)) where
  handle_line-status :
      (id line : Bytes) (n : ℕ) (ss : List ServiceState) (p : SvcProc)
      → parse_proxy_message line ≡ none
      → parse_status_message split_host_port atoi line ≡ some n
      → handle_line split_host_port atoi id line (ss, p)
        ≡ (let r = update_connection_status id n (ss, p) in (r.0, r.1, false))
  unfolding handle_line
  handle_line-status id line n ss p no_proxy read = rw (handle_line, no_proxy, read) refl

  -- After a line of the child that the connection cannot be made (both sides behind NAT4,
  -- versions or transports that differ, a lack of rights, too many attempts), and after
  -- `HandleStop` for a process that has been started, the process is stopped and neither its
  -- waiter nor the automatic restart starts it again.
  pub verdicts-Stop :
      (stamp id : Bytes) (n : ℕ) (ss : List ServiceState) (p : SvcProc)
      → contains b'[' stamp ≡ false
      → IsVerdict n
      → let r = handle_line split_host_port atoi id (update_start_button_statue stamp n) (ss, p) in
        (r.1 ≡ true)
        × IsResting (r.0).1
        × (p.started ≡ true
            → ((handle_stop id (ss, p)).1 ≡ true) × IsResting ((handle_stop id (ss, p)).0).1)
  unfolding handle_stop
  verdicts-Stop stamp id n ss p h verdict =
      let (no_proxy, read) =
        (reports-AreRead split_host_port atoi atoi-itoa stamp h).0 n (known-verdict n verdict) in
      let line = update_start_button_statue stamp n in
      let (stops, disabled) = verdict-Stops id n ss p verdict in
      let rests = disable_auto_restart-IsResting p in
      rw (handle_line-status id line n ss p no_proxy read)
        (stops, rw disabled rests, λ started. simp (handle_stop, started) (refl, rests))
