-- ===== src/Upgrade/Install.antt =====
-- ui2/upgrade.go: `extractTo` and `applyZip`.
use good_link.Base.{
  none, ◌>>=◌, err, Bool, ◌||◌, Option, [], ℕ, some, stuck, ◌∷◌, true, Outcome, false, ok, List,
  Bytes, if◌then◌else◌, panic,
}
use good_link.Net.{equal}
use good_link.Dict.{Dict}
use good_link.Config.Text.{to_lower}
use good_link.Upgrade.{Disk, Fault, remove, write_file, retry_rename, present, old_of, new_of}
use good_link.Upgrade.Replace.{ReplaceError, Replaced, replace_file}
use good_link.Upgrade.Archive.{
  ZipEntry, Sources, Algo, sha256_sum, md5_sum, dll_name, dash, find_sources, parse_md5sum_file,
  hash_for,
}

pub data ExtractError : Type 0 where
  not_listed : ExtractError
  unreadable : ExtractError
  not_written : ExtractError
  mismatch : ExtractError

pub data ArchiveError : Type 0 where
  not_opened : ArchiveError
  illegal_path : ArchiveError
  no_program : ArchiveError
  bad_list : ArchiveError
  empty_list : ArchiveError

pub data UpgradeError : Type 0 where
  bad_archive : ArchiveError → UpgradeError
  bad_exe : ExtractError → UpgradeError
  bad_dll : ExtractError → UpgradeError
  exe_failed : ReplaceError → UpgradeError
  dll_failed : ReplaceError → UpgradeError
  -- The library failed, and putting the old program back failed too.
  exe_lost : ReplaceError → UpgradeError

abbrev pub Applied : Type 0
Applied = Option UpgradeError × Disk

-- What the entries are checked against.
pub record Sums : Type 0 where
  pub algo : Algo
  pub hashes : Option (Dict Bytes)

-- The list of sums, if there is one.
abbrev pub non_empty : Algo → Dict Bytes → Outcome ArchiveError Sums
non_empty algo [] = err empty_list
non_empty algo (h ∷ hs) = ok (record { algo = algo; hashes = some (h ∷ hs) })

abbrev pub no_sources : Sources
no_sources = record { exe = none; dll = none; sha = none; md5 = none }

-- After putting the old program back.
abbrev pub after_undo : ReplaceError → Bool × Disk → Applied
after_undo e (true, d) = (some (dll_failed e), d)
after_undo e (false, d) = (some (exe_lost e), d)

-- `digest` is the hash in hexadecimal digits.
module _ (digest : Algo → Bytes → Bytes) where
  -- `strings.EqualFold` on hexadecimal digits.
  abbrev pub is_sum : Algo → Bytes → Bytes → Bool
  is_sum algo want c = equal want [] || equal (to_lower (digest algo c)) (to_lower want)

-- `fault` is the operating system's.
module _ (fault : ℕ → Fault) (digest : Algo → Bytes → Bytes) where
  abbrev pub sum_judged : Algo → Bytes → Bytes → Bool × Disk → Option ExtractError × Disk
  sum_judged algo want c (true, d) = (if is_sum digest algo want c then none else some mismatch, d)
  sum_judged algo want c (false, d) = (some not_written, d)

  abbrev pub unpacked : Bytes → Algo → Bytes → Disk → Option Bytes → Option ExtractError × Disk
  unpacked dest algo want d none = (some unreadable, d)
  unpacked dest algo want d (some c) = sum_judged algo want c (write_file fault dest c d)

  unfoldable pub extract_to :
      Option Bytes → Bytes → Algo → Bytes → Disk → Option ExtractError × Disk
  extract_to body dest algo want d =
      if equal want dash then (some not_listed, d) else unpacked dest algo want d body

-- `dll_of` is the path of `wintun.dll` beside a program.
module _ (fault : ℕ → Fault) (dll_of : Bytes → Bytes) where
  abbrev pub after_swap_dll : Bytes → Replaced → Applied
  after_swap_dll target (none, d) = (none, d)
  after_swap_dll target (some e, d) =
      if present (old_of target) d
      then after_undo e (retry_rename fault (old_of target) target d)
      else (some (dll_failed e), d)

  abbrev pub drop_both : Bytes → Disk → Disk
  drop_both target d = remove fault (new_of (dll_of target)) (remove fault (new_of target) d)

  abbrev pub after_swap_exe : (has_dll : Bool) → Bytes → Replaced → Applied
  after_swap_exe false target (none, d) = (none, d)
  after_swap_exe true target (none, d) =
      after_swap_dll target (replace_file fault (new_of (dll_of target)) (dll_of target) d)
  after_swap_exe false target (some e, d) = (some (exe_failed e), remove fault (new_of target) d)
  after_swap_exe true target (some e, d) = (some (exe_failed e), drop_both target d)

  abbrev pub after_dll : Bytes → Option ExtractError × Disk → Applied
  after_dll target (some e, d) = (some (bad_dll e), drop_both target d)
  after_dll target (none, d) =
      after_swap_exe true target (replace_file fault (new_of target) target d)

-- `base_name` is `filepath.Base`.
module _ (base_name : Bytes → Bytes) where
  -- `readHashFile`
  abbrev pub read_hash_file : Algo → ZipEntry → Outcome ArchiveError Sums
  read_hash_file algo e = elim e.body [
    | none ↦ err bad_list
    | some s ↦ non_empty algo (parse_md5sum_file base_name s)
  ]

  unfoldable pub choose_sums : Option ZipEntry → Option ZipEntry → Outcome ArchiveError Sums
  choose_sums (some e) md5 = read_hash_file sha256_sum e
  choose_sums none (some e) = read_hash_file md5_sum e
  choose_sums none none = ok (record { algo = md5_sum; hashes = none })

  -- What `applyZip` reads of the archive before it writes anything; `none` is an archive that
  -- cannot be opened.
  unfoldable pub read_archive :
      Option (List ZipEntry) → Outcome ArchiveError (ZipEntry × Option ZipEntry × Sums)
  read_archive none = err not_opened
  read_archive (some entries) = elim (find_sources base_name entries no_sources) [
    | none ↦ err illegal_path
    | some s ↦ elim (s.exe) [
      | none ↦ err no_program
      | some exe ↦ choose_sums s.sha s.md5 >>= λ sums. ok (exe, s.dll, sums)
    ]
  ]

module _ (fault : ℕ → Fault) (digest : Algo → Bytes → Bytes)
    (base_name dll_of : Bytes → Bytes) where
  abbrev pub after_exe : Option ZipEntry → Sums → Bytes → Option ExtractError × Disk → Applied
  after_exe dll sums target (some e, d) = (some (bad_exe e), remove fault (new_of target) d)
  after_exe none sums target (none, d) =
      after_swap_exe fault dll_of false target (replace_file fault (new_of target) target d)
  after_exe (some dll) sums target (none, d) = after_dll fault dll_of target (
      extract_to fault digest dll.body (new_of (dll_of target)) sums.algo
        (hash_for sums.hashes dll_name) d)

  -- `applyZip` from the extraction on.
  unfoldable pub install : ZipEntry → Option ZipEntry → Sums → Bytes → Disk → Applied
  install exe dll sums target d = after_exe dll sums target (
      extract_to fault digest exe.body (new_of target) sums.algo
        (hash_for sums.hashes (to_lower (base_name exe.name))) d)

  abbrev pub installed :
      Bytes → Disk → Outcome ArchiveError (ZipEntry × Option ZipEntry × Sums) → Applied
  installed target d (ok (exe, dll, sums)) = install exe dll sums target d
  installed target d (err e) = (some (bad_archive e), d)
  -- The reading does not end so.
  installed target d panic = (some (bad_archive not_opened), d)
  installed target d stuck = (some (bad_archive not_opened), d)

  unfoldable pub apply_zip : Option (List ZipEntry) → Bytes → Disk → Applied
  apply_zip archive target d = installed target d (read_archive base_name archive)
