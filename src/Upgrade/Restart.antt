-- ===== src/Upgrade/Restart.antt =====
-- ui2/upgrade.go: `RunSelfUpdate`, from the moment when the old process is gone, and
-- `restoreAndRestart`.
use good_link.Base.{ℕ, true, Option, Bool, if◌then◌else◌, List, none, false, some, ◌∷◌, [], Bytes}
use good_link.Net.{equal}
use good_link.Upgrade.Install.{Applied, apply_zip}
use good_link.Upgrade.{
  Disk, Fault, works, refused, torn, with_files, remove, retry_rename, present, old_of, equal,
}
use good_link.Upgrade.Archive.{ZipEntry, Algo}

-- How the updater ends: the files, the bytes of the program that it has started, its exit code.
pub record Ended : Type 0 where
  pub disk : Disk
  pub runs : Option Bytes
  pub code : ℕ

abbrev pub ran : Option Bytes → Fault → Option Bytes
ran none f = none
ran (some c) works = some c
ran (some c) refused = none
ran (some c) (torn _) = none

module _ (fault : ℕ → Fault) where
  -- `cmd.Start` of the program at a path: the bytes that run.
  unfoldable pub start_program : Bytes → Disk → Option Bytes × Disk
  start_program p d = (ran (d.files p) (fault d.tick), with_files d.files d)

  abbrev pub restarted : Bytes → Bool × Disk → Ended
  restarted target (false, d) = record { disk = d; runs = none; code = 1 }
  restarted target (true, d) =
      let r = start_program target d in record { disk = r.1; runs = r.0; code = 1 }

  -- With the exit after it.
  unfoldable pub restore_and_restart : Bytes → Disk → Ended
  restore_and_restart target d =
      if present (old_of target) d
      then restarted target (retry_rename fault (old_of target) target d)
      else record { disk = d; runs = none; code = 1 }

module _ (fault : ℕ → Fault) (digest : Algo → Bytes → Bytes)
    (base_name dll_of : Bytes → Bytes) where
  abbrev pub after_start : (zip_path target : Bytes) → Option Bytes × Disk → Ended
  after_start zip_path target (none, d) = restore_and_restart fault target d
  after_start zip_path target (some c, d) = record {
    disk = remove fault zip_path d;
    runs = some c;
    code = 0;
  }

  abbrev pub after_apply : (zip_path target : Bytes) → Applied → Ended
  after_apply zip_path target (some e, d) = restore_and_restart fault target d
  after_apply zip_path target (none, d) = after_start zip_path target (start_program fault target d)

  -- `same` is `sameFilePath`; `self` the path of the updater; `archive` what opening the file at
  -- the path gives.
  abbrev pub self_update : Bool → (zip_path target : Bytes) → Option (List ZipEntry) → Disk → Ended
  self_update false zip_path target archive d = record { disk = d; runs = none; code = 1 }
  self_update true [] target archive d = record { disk = d; runs = none; code = 1 }
  self_update true (b ∷ bs) target archive d =
      after_apply (b ∷ bs) target (apply_zip fault digest base_name dll_of archive target d)

  unfoldable pub run_self_update :
      (same : Bytes → Bytes → Bool) (self zip_path target : Bytes)
      → Option (List ZipEntry)
      → Disk
      → Ended
  run_self_update same self zip_path target archive d =
      let path = if equal target [] then self else target in
      self_update (same path self) zip_path path archive d
