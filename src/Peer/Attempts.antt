-- ===== src/Peer/Attempts.antt =====
-- pro/local.go: `RunLocal`, on what each round of its loop meets, and `applyLocalProxy`.
use good_link.Base.{
  ◌≡◌, ◌<◌, Bool, false, ◌∷◌, some, [], Bytes, leb, ◌++◌, ℕ, true, not, ◌⊎◌, ◌≤◌, suc, Option, ◌||◌,
  ◌&&◌, none, List, if◌then◌else◌, ◌+◌, refl, Bool-cases, All, length, inl, arith, inr,
}
use good_link.Peer.{Tunnel, status_connecting, status_need_admin, status_connect_failed}
use good_link.Peer.Local.{LocalError, LocalResult, failed, no_connection, connected}

pub data NetstackStart : Type 0 where
  runs : NetstackStart
  needs_admin : NetstackStart
  fails : NetstackStart

-- Whether `GetUDPAddr` finds an address, how the network stack starts, what `GetLocalQuicConn`
-- returns, and whether `StopLocal` has been called when the loop looks again.
pub record Round : Type 0 where
  pub probed : Bool
  pub netstack : NetstackStart
  pub result : LocalResult
  pub is_stopped : Bool

pub data RunError : Type 0 where
  no_udp_addr : RunError
  no_netstack : RunError
  no_session : LocalError → RunError
  gave_up : RunError

pub data RunEvent : Type 0 where
  told : ℕ → RunEvent
  forwarder_set : Tunnel → RunEvent
  forwarder_cleared : RunEvent
  proxy_applied : Bool → RunEvent
  tunnels_released : RunEvent

-- `count`, `m_local_state == 1` and `g_netstack_started`.
pub record Run : Type 0 where
  pub count : ℕ
  pub is_running : Bool
  pub netstack_started : Bool

abbrev pub max_connect_attempts : ℕ
max_connect_attempts = 15

-- The rest of a round, from the connection on.
unfoldable pub after_connect :
    (use_forward : Bool) → Round → Run → LocalResult → Run × Option RunError × List RunEvent
after_connect use_forward round run (failed e) = (run, some (no_session e), tunnels_released ∷ [])
after_connect use_forward round run no_connection =
    if leb max_connect_attempts run.count
    then (run, some gave_up, tunnels_released ∷ told status_connect_failed ∷ [])
    else (record run { is_running = not round.is_stopped }, none, tunnels_released ∷ [])
after_connect use_forward round run (connected t allow) = (
  record run { count = 0; is_running = not round.is_stopped },
  none,
  forwarder_set t
        ∷ proxy_applied allow
        ∷ (if round.is_stopped then [] else told status_connecting ∷ [])
      ++ tunnels_released
        ∷ (if use_forward && round.is_stopped then [] else forwarder_cleared ∷ []),
)

-- One round.
unfoldable pub run_round :
    (use_forward : Bool) → Round → Run → Run × Option RunError × List RunEvent
run_round use_forward round run =
    let started = record run { netstack_started = run.netstack_started || not use_forward } in
    let goes_on =
      after_connect use_forward round (record started { count = suc run.count }) round.result in
    let fresh : Run × Option RunError × List RunEvent = elim round.netstack [
      | runs ↦ goes_on
      | needs_admin ↦ (run, some no_netstack, told status_need_admin ∷ [])
      | fails ↦ (run, some no_netstack, [])
    ] in
    if not round.probed
    then (run, some no_udp_addr, [])
    else if not use_forward && not run.netstack_started
    then fresh
    else goes_on

-- The loop, on the rounds that there are: `none` is a loop that goes on, or has been stopped.
unfoldable pub run_local :
    (use_forward : Bool) → List Round → Run → Run × Option RunError × List RunEvent
run_local use_forward [] run = (run, none, [])
run_local use_forward (round ∷ rounds) run =
    let (run', error, events) = run_round use_forward round run in
    let (run'', error', events') = run_local use_forward rounds run' in
    if not run.is_running
    then (run, none, [])
    else elim error [ some e ↦ (run', some e, events) | none ↦ (run'', error', events ++ events') ]

-- What `applyLocalProxy` reports.
pub data ProxyReport : Type 0 where
  proxy_denied : ProxyReport
  proxy_at : Bytes → ProxyReport

-- `manager` has what `StartBuiltinProxy` returns, where there is a manager; `tun_addr` is the
-- address of the proxy in the other mode. Also whether the proxy is stopped.
unfoldable pub apply_local_proxy :
    (use_forward allow : Bool) (manager : Option (Option Bytes)) (tun_addr : Bytes)
    → Bool × ProxyReport
apply_local_proxy use_forward allow manager tun_addr =
    let asked : ProxyReport = elim manager [
      | none ↦ proxy_denied
      | some none ↦ proxy_denied
      | some (some addr) ↦ proxy_at addr
    ] in
    if not allow
    then (elim manager [ none ↦ false | some _ ↦ true ], proxy_denied)
    else (false, if use_forward then asked else proxy_at tun_addr)

-- A round that finds no connection, and nothing worse.
abbrev pub IsVain : Round → Type 0
IsVain round =
    (round.probed ≡ true)
    × (round.netstack ≡ runs)
    × (round.result ≡ no_connection)
    × (round.is_stopped ≡ false)

abbrev Counted : Run → Run × Option RunError × List RunEvent → Type 0
Counted run (run', error, events) =
    (run'.count ≡ run.count)
    × (((run.count < 15) × (error ≡ none) × (run'.is_running ≡ true))
        ⊎ ((15 ≤ run.count) × (error ≡ some gave_up)))

after_connect-Counted :
    (use_forward : Bool) (round : Round) (run : Run)
    → round.is_stopped ≡ false
    → Counted run (after_connect use_forward round run no_connection)
unfolding after_connect
after_connect-Counted use_forward round run w = elim (Bool-cases (leb 15 run.count)) [
  | inl last ↦ rw last (refl, inr (ground (arith, last), refl))
  | inr more ↦ rw more (refl, inl (ground (arith, more), refl, rw w refl))
]

abbrev counted : Bool → Run → Run
counted use_forward run = record run {
  count = suc run.count;
  netstack_started = run.netstack_started || not use_forward;
}

run_round_vain :
    (use_forward : Bool) (round : Round) (run : Run)
    → IsVain round
    → run_round use_forward round run
      ≡ after_connect use_forward round (counted use_forward run) no_connection
unfolding run_round
run_round_vain use_forward round run (p, s, r, w) =
    elim (Bool-cases (not use_forward && not run.netstack_started)) [
      | inl fresh ↦ simp (run_round, p, fresh, s, r) refl
      | inr again ↦ simp (run_round, p, again, r) refl
    ]

-- Rounds of `RunLocal` that find no connection: as long as they make fewer than fifteen with
-- those before, the loop goes on and counts them; the fifteenth stops it with the error that it
-- gave up.
pub run_local-IsVain :
    (use_forward : Bool) (rounds : List Round) (run : Run)
    → All IsVain rounds
    → run.is_running ≡ true
    → run.count < 15
    → (let (run', error, events) = run_local use_forward rounds run in
        ((run.count + length rounds < 15)
          × (error ≡ none)
          × (run'.is_running ≡ true)
          × (run'.count ≡ run.count + length rounds))
        ⊎ ((15 ≤ run.count + length rounds) × (error ≡ some gave_up) × (run'.count ≡ 15)))
unfolding run_local
run_local-IsVain use_forward [] run h on few = inl (omega arith, refl, on, omega arith)
run_local-IsVain use_forward (round ∷ rounds) run h on few =
    let step = run_round use_forward round run in
    let after : Counted (counted use_forward run) step =
      rw (run_round_vain use_forward round run h.0)
        (after_connect-Counted use_forward round (counted use_forward run) h.0.3) in
    elim after.1 [
      | inl (less, goes, running) ↦
          let rest =
            run_local-IsVain use_forward rounds step.0 h.1 running (omega (arith, after.0, less)) in
          simp (run_local, on, goes)
            (elim rest [
              | inl (few', none_yet, on', sum) ↦
                  inl (omega (arith, after.0, few'), none_yet, on', omega (arith, after.0, sum))
              | inr (many, given_up, fifteen) ↦
                  inr (omega (arith, after.0, many), given_up, fifteen)
            ])
      | inr (last, stops) ↦
          simp (run_local, on, stops)
            (inr (omega (arith, last), refl, omega (arith, after.0, last)))
    ]
