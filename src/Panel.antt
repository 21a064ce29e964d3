-- ===== src/Panel.antt =====
-- ui2/start.go: the child process of one service, as the interface keeps it. A child is known by its
-- process number, and a number is not used twice.
pub mod Steps
pub mod Strays
pub mod Services
pub mod Start
pub mod Edits
pub mod Deletes
pub mod Refused
pub mod Messages
pub mod Reported
pub mod Verdicts
pub mod Import
pub mod Overview
pub mod Views
mod Tests
mod EditTests
use good_link.Base.{true, ◌&&◌, some, Option, none, ◌==◌, Bool, false, if◌then◌else◌, not, suc, ℕ}

-- The states of a service, from ui2/state.go.
abbrev pub status_idle : ℕ
status_idle = 1

abbrev pub status_connecting_nat4 : ℕ
status_connecting_nat4 = 4

abbrev pub status_stopping : ℕ
status_stopping = 7

abbrev pub status_connect_failed : ℕ
status_connect_failed = 8

pub record SvcProc : Type 0 where
  pub cmd : Option ℕ
  pub gen : ℕ
  pub started : Bool
  pub auto_restart : Bool

abbrev pub no_proc : SvcProc
no_proc = record { cmd = none; gen = 0; started = false; auto_restart = false }

abbrev pub same_cmd : Option ℕ → ℕ → Bool
same_cmd none c = false
same_cmd (some d) c = d == c

-- The section of `startCmdProcess` under the lock, for the child that has been started; the file
-- with the process number is written in it.
unfoldable pub start_cmd : ℕ → SvcProc → SvcProc × Option ℕ
start_cmd child p = (record p { gen = suc p.gen; cmd = some child; started = true }, some child)

-- What follows where the child could not be started.
unfoldable pub start_failed : SvcProc → SvcProc
start_failed p = record p { started = false; auto_restart = false }

-- The section of `stopServiceProcess` under the lock, and the child to kill.
unfoldable pub stop_service : SvcProc → SvcProc × Option ℕ
stop_service p = (record p { auto_restart = false; cmd = none; started = false }, p.cmd)

unfoldable pub disable_auto_restart : SvcProc → SvcProc
disable_auto_restart p = record p { auto_restart = false }

-- What a waiter does once its child has come to an end.
pub data Exit : Type 0 where
  outdated : Exit
  restart : Exit
  ended : Exit

-- The section of `waitForProcessAndHandleExit` under the lock; `file` is that of the process.
unfoldable pub wait_exit : ℕ → ℕ → SvcProc → Option ℕ → SvcProc × Option ℕ × Exit
wait_exit child gen p file =
    if p.gen == gen
    then (
      record p { started = false; cmd = if same_cmd p.cmd child then none else p.cmd },
      none,
      if p.started && p.auto_restart then restart else ended,
    )
    else (p, file, outdated)

-- The state of the service after its child has ended, where no restart follows.
unfoldable pub status_after_exit : ℕ → ℕ
status_after_exit st =
    if not (st == status_connect_failed)
      && not (st == status_connecting_nat4)
      && not (st == status_stopping)
    then status_idle
    else st

-- The test of `autoRestartProcess`.
unfoldable pub may_restart : SvcProc → Bool
may_restart p = p.auto_restart && not p.started
