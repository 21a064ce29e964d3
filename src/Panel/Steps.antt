-- ===== src/Panel/Steps.antt =====
-- ui2/start.go: the steps of the goroutines on the child process of one service. A step is one
-- section under `procMu`, or one call of the operating system. `startMu` is held from the test
-- whether a child runs until the child is started.
use good_link.Base.{
  ◌≡◌, true, some, Option, none, ◌==◌, Bool, false, if◌then◌else◌, suc, ◌∷◌, ℕ, ◌++◌, List, ◌||◌,
  [],
}
use good_link.Panel.{
  SvcProc, no_proc, start_cmd, start_failed, stop_service, disable_auto_restart, wait_exit,
  may_restart,
}

-- The children that run, those about to be killed, the waiters with their child and generation,
-- whether `startMu` is held, the child that its holder has started and not entered yet, whether
-- `StopCmdProcess` has been called, and the next process number.
pub record Panel : Type 0 where
  pub proc : SvcProc
  pub pid_file : Option ℕ
  pub running : List ℕ
  pub doomed : List ℕ
  pub waiters : List (ℕ × ℕ)
  pub starting : Bool
  pub spawned : Option ℕ
  pub swept : Bool
  pub next_pid : ℕ

abbrev pub no_child : Panel
no_child = record {
  proc = no_proc;
  pid_file = none;
  running = [];
  doomed = [];
  waiters = [];
  starting = false;
  spawned = none;
  swept = false;
  next_pid = 1;
}

abbrev pub remove : ℕ → List ℕ → List ℕ
remove n [] = []
remove n (m ∷ ms) = let rest = remove n ms in if m == n then rest else m ∷ rest

abbrev pub is_in : ℕ → List ℕ → Bool
is_in n [] = false
is_in n (m ∷ ms) = m == n || is_in n ms

abbrev pub to_kill : Option ℕ → List ℕ → List ℕ
to_kill none ms = ms
to_kill (some n) ms = n ∷ ms

-- `cmd.Start` in `startCmdProcess`, before the lock is taken.
unfoldable pub spawn : Panel → Panel
spawn s = record s {
  running = s.next_pid ∷ s.running;
  spawned = some s.next_pid;
  next_pid = suc s.next_pid;
}

-- The section of `startCmdProcess` under `procMu`; then the waiter is on its way.
unfoldable pub launch : ℕ → Panel → Panel
launch child s =
    let (p, file) = start_cmd child s.proc in
    record s {
      proc = p;
      pid_file = file;
      waiters = (child, p.gen) ∷ s.waiters;
      starting = false;
      spawned = none;
    }

unfoldable pub stop : Panel → Panel
stop s =
    let (p, cmd) = stop_service s.proc in
    record s { proc = p; pid_file = none; doomed = to_kill cmd s.doomed }

-- The section of `StopCmdProcess` under `procMu`, for one service: the file stays. The child that
-- `KillProcess` is called on there may end later.
unfoldable pub stop_cmd : Panel → Panel
stop_cmd s = record s {
  proc = record (s.proc) { cmd = none; started = false; auto_restart = false };
  doomed = to_kill s.proc.cmd s.doomed;
  swept = true;
}

unfoldable pub kill : ℕ → Panel → Panel
kill n s = record s { running = remove n s.running; doomed = remove n s.doomed }

unfoldable pub wait : ℕ → ℕ → List (ℕ × ℕ) → Panel → Panel
wait child gen rest s =
    let (p, file, _) = wait_exit child gen s.proc s.pid_file in
    record s { proc = p; pid_file = file; waiters = rest }

pub data Step : Panel → Panel → Type 0 where
  -- `HandleStart`, past its test.
  asks :
      (s : Panel)
      → s.starting ≡ false
      → s.proc.started ≡ false
      → Step s (record s { starting = true; proc = record (s.proc) { auto_restart = true } })
  -- `autoRestartProcess`, past its test.
  restarts :
      (s : Panel)
      → s.starting ≡ false
      → may_restart s.proc ≡ true
      → Step s (record s { starting = true })
  spawns : (s : Panel) → s.starting ≡ true → s.spawned ≡ none → Step s (spawn s)
  launches : (s : Panel) (child : ℕ) → s.spawned ≡ some child → Step s (launch child s)
  start_fails :
      (s : Panel)
      → s.starting ≡ true
      → s.spawned ≡ none
      → Step s (record s { starting = false; proc = start_failed s.proc })
  disables : (s : Panel) → Step s (record s { proc = disable_auto_restart s.proc })
  stops : (s : Panel) → Step s (stop s)
  -- `StopCmdProcess`, and its removal of the files, which comes after its section; what it kills
  -- there besides is an exit.
  stops_all : (s : Panel) → Step s (stop_cmd s)
  sweeps : (s : Panel) → s.swept ≡ true → Step s (record s { pid_file = none })
  kills : (s : Panel) (n : ℕ) → is_in n s.doomed ≡ true → Step s (kill n s)
  exits : (s : Panel) (n : ℕ) → Step s (record s { running = remove n s.running })
  waits :
      (s : Panel) (child gen : ℕ) (before after : List (ℕ × ℕ))
      → s.waiters ≡ before ++ (child, gen) ∷ after
      → is_in child s.running ≡ false
      → Step s (wait child gen (before ++ after) s)

pub data Reach (s : Panel) : Panel → Type 0 where
  here : Reach s s
  next : {t u : Panel} → Reach s t → Step t u → Reach s u
