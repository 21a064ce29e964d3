-- ===== src/Upgrade/Ends.antt =====
-- ui2/upgrade.go: what runs once the updater has ended.
use good_link.Base.{
  ℕ, true, Option, Bool, refl, List, none, false, ◌≡◌, some, ◌∷◌, [], Bytes, inr, Bool-cases, arith,
  inl, ok, Outcome, ◌∙◌, sym, err, suc, ap,
}
use good_link.Config.Text.{to_lower}
use good_link.Net.{equal}
use good_link.Upgrade.Files.{Files, IsMoved, retry_rename-IsMoved, set_file_same, remove-Leaves}
use good_link.Upgrade.Safe.{apart_of, IsLeft, AreFar, IsInstalled, IsSafe}
use good_link.Upgrade.Keeps.{apply_zip-IsSafe}
use good_link.Upgrade.Install.{
  UpgradeError, bad_archive, bad_exe, bad_dll, dll_failed, exe_failed, exe_lost, read_archive,
  Applied, apply_zip, ArchiveError, Sums, is_sum,
}
use good_link.Upgrade.Replace.{not_set_aside, not_replaced, lost, present-some}
use good_link.Upgrade.{
  set_file, rename, rename_again, Disk, Fault, works, refused, torn, with_files, retry_rename,
  present, old_of, equal,
}
use good_link.Upgrade.Archive.{ZipEntry, Algo, hash_for}
use good_link.Upgrade.Restart.{
  Ended, ran, start_program, restarted, restore_and_restart, after_start, after_apply, self_update,
  run_self_update,
}

module _ (fault : ℕ → Fault) where
  -- Where the first rename works, `retryRename` makes no other.
  retry_rename_first :
      (from to c : Bytes) (d : Disk)
      → d.files from ≡ some c
      → fault d.tick ≡ works
      → retry_rename fault from to d
        ≡ (true, with_files (set_file to (some c) (set_file from none d.files)) d)
  unfolding retry_rename rename_again rename
  retry_rename_first from to c d there fine = rw (there, fine) refl

ran-some : (o : Option Bytes) (f : Fault) (p : Bytes) → ran o f ≡ some p → o ≡ some p
ran-some none f p h = cc
ran-some (some c) works p h = h
ran-some (some c) refused p h = cc
ran-some (some c) (torn _) p h = cc

module _ (digest : Algo → Bytes → Bytes) (base_name : Bytes → Bytes) where
  -- The old program is the rollback point.
  abbrev pub IsAside : Option UpgradeError → Type 0
  IsAside none = Unit
  IsAside (some (exe_failed lost)) = Unit
  IsAside (some (exe_lost r)) = Unit
  IsAside _ = ⊥

  -- What is started after a failure: the rollback point that `applyZip` has left, put back.
  abbrev pub IsRolledBack : (target c : Bytes) → Applied → Ended → Type 0
  IsRolledBack target c applied r =
      (p : Bytes)
      → r.code ≡ 1
      → r.runs ≡ some p
      → ((applied.1).files (old_of target) ≡ some p) × (IsAside applied.0 → p ≡ c)

  -- What runs stands at the target; and where the updater says that all went well, it is the
  -- program of the archive, with the sum that is listed.
  abbrev pub IsTrueEnd :
      (target c : Bytes)
      → Applied
      → Outcome ArchiveError (ZipEntry × Option ZipEntry × Sums)
      → Ended
      → Type 0
  IsTrueEnd target c applied plan r =
      ((p : Bytes) → r.runs ≡ some p → (r.disk).files target ≡ some p)
      × (r.code ≡ 0
          → (exe : ZipEntry) × (lib : Option ZipEntry) × (sums : Sums) × (x : Bytes) × (plan
              ≡ ok (exe, lib, sums))
            × (exe.body ≡ some x)
            × (is_sum digest sums.algo (hash_for sums.hashes (to_lower (base_name exe.name))) x
                ≡ true)
            × (r.runs ≡ some x))
      × IsRolledBack target c applied r

-- What becomes of an update whose archive cannot be used, by the rollback point: without one
-- nothing runs; with one, its program takes the place of the installed one.
abbrev pub IsBadEnd : Bytes → Disk → Option Bytes → Ended → Type 0
IsBadEnd target d none r = (r.disk ≡ d) × (r.runs ≡ none) × (r.code ≡ 1)
IsBadEnd target d (some o) r = ((r.disk).files target ≡ some o) × (r.runs ≡ some o) × (r.code ≡ 1)

module _ (fault : ℕ → Fault) (digest : Algo → Bytes → Bytes)
    (base_name dll_of : Bytes → Bytes) where
  restarted-IsTrueEnd :
      (target c : Bytes) (applied : Applied)
      (plan : Outcome ArchiveError (ZipEntry × Option ZipEntry × Sums)) (files : Files)
      (r : Bool × Disk)
      → IsMoved (old_of target) target files r
      → (applied.1).files (old_of target) ≡ files (old_of target)
      → (IsAside digest base_name applied.0 → files (old_of target) ≡ some c)
      → IsTrueEnd digest base_name target c applied plan (restarted fault target r)
  unfolding start_program
  restarted-IsTrueEnd target c applied plan files (false, d) moved same aside =
      (λ p h. cc, λ h. absurd (omega (arith, h)), λ p h k. cc)
  restarted-IsTrueEnd target c applied plan files (true, d) moved same aside = (
    λ p h. ran-some (d.files target) (fault d.tick) p h,
    λ h. absurd (omega (arith, h)),
    λ p h k.
        let old : files (old_of target) ≡ some p =
          sym moved.0 ∙ ran-some (d.files target) (fault d.tick) p k in
        (same ∙ old, λ a. let both : some p ≡ some c = sym old ∙ aside a in cc both),
  )

  restore-IsTrueEnd :
      (target c : Bytes) (applied : Applied)
      (plan : Outcome ArchiveError (ZipEntry × Option ZipEntry × Sums)) (d : Disk)
      → (applied.1).files ≡ d.files
      → (IsAside digest base_name applied.0 → d.files (old_of target) ≡ some c)
      → IsTrueEnd digest base_name target c applied plan (restore_and_restart fault target d)
  unfolding restore_and_restart
  restore-IsTrueEnd target c applied plan d same aside =
      elim (Bool-cases (present (old_of target) d)) [
        | inl there ↦ rw there (
            restarted-IsTrueEnd target c applied plan d.files
              (retry_rename fault (old_of target) target d)
              (retry_rename-IsMoved fault (old_of target) target d (apart_of target).old_dest)
              (ap (λ (f : Files). f (old_of target)) same) aside)
        | inr gone ↦ rw gone (λ p h. cc, λ h. absurd (omega (arith, h)), λ p h k. cc)
      ]

  -- The last part of an update that was applied.
  after_start-IsTrueEnd :
      (zip_path target c : Bytes) (plan : Outcome ArchiveError (ZipEntry × Option ZipEntry × Sums))
      (exe : ZipEntry) (lib : Option ZipEntry) (sums : Sums) (x : Bytes) (d : Disk)
      (o : Option Bytes) (f : Fault)
      → equal target zip_path ≡ false
      → plan ≡ ok (exe, lib, sums)
      → exe.body ≡ some x
      → is_sum digest sums.algo (hash_for sums.hashes (to_lower (base_name exe.name))) x ≡ true
      → (d.files target ≡ some x) × (d.files (old_of target) ≡ some c)
      → d.files target ≡ o
      → IsTrueEnd digest base_name target c
          (none, d)
          plan
          (after_start fault digest base_name dll_of zip_path target
            (ran o f, with_files d.files d))
  after_start-IsTrueEnd zip_path target c plan exe lib sums x d none f apart fits body right here
        at =
      restore-IsTrueEnd target c (none, d) plan (with_files d.files d) refl (λ a. here.1)
  after_start-IsTrueEnd zip_path target c plan exe lib sums x d (some y) refused apart fits body
        right here at =
      restore-IsTrueEnd target c (none, d) plan (with_files d.files d) refl (λ a. here.1)
  after_start-IsTrueEnd zip_path target c plan exe lib sums x d (some y) (torn _) apart fits body
        right here at =
      restore-IsTrueEnd target c (none, d) plan (with_files d.files d) refl (λ a. here.1)
  after_start-IsTrueEnd zip_path target c plan exe lib sums x d (some y) works apart fits body right
        here at =
      (
        λ p h. remove-Leaves fault zip_path (with_files d.files d) target apart apart ∙ at ∙ h,
        λ h. (exe, lib, sums, x, fits, body, right, sym at ∙ here.0),
        λ p h k. absurd (omega (arith, h)),
      )

  IsInstalled-fits :
      (target dll c k : Bytes) (exe : ZipEntry) (lib : Option ZipEntry) (sums : Sums) (d : Disk)
      → IsInstalled digest base_name target dll c k exe lib sums d
      → (x : Bytes) × (exe.body ≡ some x)
        × (is_sum digest sums.algo (hash_for sums.hashes (to_lower (base_name exe.name))) x ≡ true)
        × (d.files target ≡ some x)
        × (d.files (old_of target) ≡ some c)
  IsInstalled-fits target dll c k exe none sums d h = (h.0, h.1, h.2, h.3, h.4)
  IsInstalled-fits target dll c k exe (some lib) sums d h = (h.0, h.2, h.4, h.6, h.7)

  -- Where the error says so, the old program is the rollback point.
  IsLeft-aside :
      (target dll c k : Bytes) (why : UpgradeError) (d : Disk)
      → IsLeft target dll c k why d
      → IsAside digest base_name (some why)
      → d.files (old_of target) ≡ some c
  IsLeft-aside target dll c k (bad_archive e) d h a = absurd a
  IsLeft-aside target dll c k (bad_exe e) d h a = absurd a
  IsLeft-aside target dll c k (bad_dll e) d h a = absurd a
  IsLeft-aside target dll c k (exe_failed not_set_aside) d h a = absurd a
  IsLeft-aside target dll c k (exe_failed not_replaced) d h a = absurd a
  IsLeft-aside target dll c k (exe_failed lost) d h a = h.0
  IsLeft-aside target dll c k (dll_failed r) d h a = absurd a
  IsLeft-aside target dll c k (exe_lost r) d h a = h.0

  after_apply-IsTrueEnd :
      (zip_path target c k : Bytes)
      (plan : Outcome ArchiveError (ZipEntry × Option ZipEntry × Sums)) (r : Applied)
      → equal target zip_path ≡ false
      → IsSafe digest base_name target (dll_of target) c k plan r
      → IsTrueEnd digest base_name target c r plan
          (after_apply fault digest base_name dll_of zip_path target r)
  unfolding start_program
  after_apply-IsTrueEnd zip_path target c k plan (some e, d) apart h =
      restore-IsTrueEnd target c (some e, d) plan d refl
        (IsLeft-aside target (dll_of target) c k e d h)
  after_apply-IsTrueEnd zip_path target c k plan (none, d) apart (exe, lib, sums, fits, h) =
      let (x, body, right, here, old) =
        IsInstalled-fits target (dll_of target) c k exe lib sums d h in
      after_start-IsTrueEnd zip_path target c plan exe lib sums x d (d.files target) (fault d.tick)
        apart fits body right (here, old) refl

  self_update-IsTrueEnd :
      (zip_path target c k : Bytes) (archive : Option (List ZipEntry)) (d : Disk)
      → AreFar target (dll_of target)
      → equal target zip_path ≡ false
      → d.files target ≡ some c
      → d.files (dll_of target) ≡ some k
      → IsTrueEnd digest base_name target c
          (apply_zip fault digest base_name dll_of archive target d)
          (read_archive base_name archive)
          (self_update fault digest base_name dll_of true zip_path target archive d)
  self_update-IsTrueEnd [] target c k archive d far apart here lib_there =
      (λ p h. cc, λ h. absurd (omega (arith, h)), λ p h k. cc)
  self_update-IsTrueEnd (b ∷ bs) target c k archive d far apart here lib_there =
      after_apply-IsTrueEnd (b ∷ bs) target c k (read_archive base_name archive)
        (apply_zip fault digest base_name dll_of archive target d) apart
        (apply_zip-IsSafe fault digest base_name dll_of far c k archive d here lib_there)

  -- Where the program and its library are there, and whatever the operating system refuses or
  -- breaks off: what the updater has started stands at the target; where the updater ends with
  -- the code 0, that is the program of the archive, with the sum that is listed; and where it
  -- ends with the code 1, that is what `applyZip` has left at the rollback point, which is the
  -- old program where `applyZip` went well or says that the old program is set aside.
  pub run_self_update-IsTrueEnd :
      (same : Bytes → Bytes → Bool) (self zip_path target c k : Bytes)
      (archive : Option (List ZipEntry)) (d : Disk)
      → AreFar target (dll_of target)
      → equal target [] ≡ false
      → equal target zip_path ≡ false
      → d.files target ≡ some c
      → d.files (dll_of target) ≡ some k
      → IsTrueEnd digest base_name target c
          (apply_zip fault digest base_name dll_of archive target d)
          (read_archive base_name archive)
          (run_self_update fault digest base_name dll_of same self zip_path target archive d)
  unfolding run_self_update
  run_self_update-IsTrueEnd same self zip_path target c k archive d far given apart here lib_there =
      elim (Bool-cases (same target self)) [
        | inr other ↦ rw (given, other) (λ p h. cc, λ h. absurd (omega (arith, h)), λ p h k. cc)
        | inl match ↦
            rw (given, match)
              (self_update-IsTrueEnd zip_path target c k archive d far apart here lib_there)
      ]

  present-none : {p : Bytes} (d : Disk) → d.files p ≡ none → present p d ≡ false
  unfolding present
  present-none d h = rw (present, h) refl

  restarted-IsBadEnd :
      (target o : Bytes) (before d : Disk)
      → d.files target ≡ some o
      → fault d.tick ≡ works
      → IsBadEnd target before (some o) (restarted fault target (true, d))
  unfolding start_program
  restarted-IsBadEnd target o before d now fine = (now, rw (now, fine) refl, refl)

  restore-IsBadEnd :
      (target : Bytes) (d : Disk) (o : Option Bytes)
      → fault d.tick ≡ works
      → fault (suc d.tick) ≡ works
      → d.files (old_of target) ≡ o
      → IsBadEnd target d o (restore_and_restart fault target d)
  unfolding restore_and_restart
  restore-IsBadEnd target d none first second gone = rw (present-none d gone) (refl, refl, refl)
  restore-IsBadEnd target d (some o) first second there =
      rw (present-some d there, retry_rename_first fault (old_of target) target o d there first)
        (restarted-IsBadEnd target o d
          (with_files (set_file target (some o) (set_file (old_of target) none d.files)) d)
          (set_file_same target (some o) (set_file (old_of target) none d.files)) second)

  self_update-IsBadEnd :
      (b : ℕ) (bs target : Bytes) (archive : Option (List ZipEntry)) (d : Disk) (o : Option Bytes)
      (why : ArchiveError)
      → read_archive base_name archive ≡ err why
      → fault d.tick ≡ works
      → fault (suc d.tick) ≡ works
      → d.files (old_of target) ≡ o
      → IsBadEnd target d o
          (self_update fault digest base_name dll_of true (b ∷ bs) target archive d)
  unfolding apply_zip
  self_update-IsBadEnd b bs target archive d o why bad first second old =
      rw (bad) (restore-IsBadEnd target d o first second old)

  -- Where the archive cannot be used and the operating system does what it is asked: without a
  -- rollback point the updater changes no file and starts nothing; with one, that program, of
  -- whatever update it is from, replaces the installed one and is started.
  pub run_self_update-IsBadEnd :
      (same : Bytes → Bytes → Bool) (self : Bytes) (b : ℕ) (bs target : Bytes)
      (archive : Option (List ZipEntry)) (d : Disk) (o : Option Bytes) (why : ArchiveError)
      → same target self ≡ true
      → equal target [] ≡ false
      → read_archive base_name archive ≡ err why
      → fault d.tick ≡ works
      → fault (suc d.tick) ≡ works
      → d.files (old_of target) ≡ o
      → IsBadEnd target d o
          (run_self_update fault digest base_name dll_of same self (b ∷ bs) target archive d)
  unfolding run_self_update
  run_self_update-IsBadEnd same self b bs target archive d o why match given bad first second old =
      rw (given, match) (self_update-IsBadEnd b bs target archive d o why bad first second old)
