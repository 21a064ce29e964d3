-- ===== src/Panel/Strays.antt =====
-- ui2/start.go: no child is left running without an owner.
use good_link.Base.{All, false, ◌⊎◌, ◌<◌, ◌≡◌, none, Option, some, List, ℕ, true, Bool}
use good_link.Panel.{SvcProc}
use good_link.Panel.Steps.{Panel, is_in}

-- A child that runs is the service's, or has been started by who holds `startMu` and is entered
-- next, or is about to be killed.
abbrev pub IsOwned : (cmd spawned : Option ℕ) → List ℕ → ℕ → Type 0
IsOwned cmd spawned doomed c = (cmd ≡ some c) ⊎ (spawned ≡ some c) ⊎ (is_in c doomed ≡ true)

-- Nothing has been started, or one child that the file names; after `StopCmdProcess`, a file may
-- be left, or missing.
abbrev pub IsFiled : (swept : Bool) → SvcProc → Option ℕ → Type 0
IsFiled swept p file =
    ((p.started ≡ false) × (p.cmd ≡ none) × ((file ≡ none) ⊎ (swept ≡ true)))
    ⊎ ((c : ℕ) × (p.started ≡ true)
        × (p.cmd ≡ some c)
        × ((file ≡ some c) ⊎ ((file ≡ none) × (swept ≡ true))))

-- Only the holder of `startMu` has a child that is not entered yet.
abbrev pub IsHeld : Option ℕ → Bool → Type 0
IsHeld spawned starting = (spawned ≡ none) ⊎ (starting ≡ true)

-- A waiter of an older generation, or of the child that is the service's unless it was stopped.
abbrev IsWaiter : ℕ → Option ℕ → ℕ × ℕ → Type 0
IsWaiter gen cmd w = (w.1 < gen) ⊎ ((w.1 ≡ gen) × ((cmd ≡ some w.0) ⊎ (cmd ≡ none)))

abbrev IsSound : Panel → Type 0
IsSound s =
    All (IsOwned s.proc.cmd s.spawned s.doomed) s.running
    × IsFiled s.swept s.proc s.pid_file
    × IsHeld s.spawned s.starting
    × ((s.starting ≡ false) ⊎ (s.proc.started ≡ false))
    × All (IsWaiter s.proc.gen s.proc.cmd) s.waiters
