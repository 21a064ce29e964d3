-- ===== src/Upgrade/Tests.antt =====
-- An update from 1 to 2 with the library from 3 to 4; and a broken archive after an earlier update.
use good_link.Base.{Bytes, none, refl, true, err, List, ◌≡◌, ◌∷◌, some, [], false, ℕ, Bool, pos}
use good_link.Upgrade.Download.{
  place_download, fail_download, bad_request, Loader, ProgressWriter, handle_upgrade_download,
  begin_download, receive, write_progress, no_bytes, end_download, release_loader,
}
use good_link.Upgrade.Loads.{nothing_loaded}
use good_link.Net.{equal}
use good_link.Upgrade.{
  write_file, remove, rename, retry_rename, rename_again, present, Fault, works, Disk, set_file,
  old_of,
}
use good_link.Upgrade.Replace.{replace_file}
use good_link.Upgrade.Restart.{start_program, run_self_update}
use good_link.Upgrade.Archive.{
  hash_for, ZipEntry, Algo, find_sources, zip_entry_base, slashes, split_at, has_item, note_entry,
  has_suffix,
}
use good_link.Config.Text.{to_lower, lower_rune, contains}
use good_link.Upgrade.Install.{
  not_opened, read_archive, apply_zip, choose_sums, install, extract_to,
}
use good_link.Upgrade.Safe.{AreFar, IsSafe}
use good_link.Upgrade.Keeps.{apply_zip-IsSafe}
use good_link.Upgrade.Ends.{
  IsTrueEnd, IsBadEnd, run_self_update-IsTrueEnd, run_self_update-IsBadEnd,
}

abbrev fine : ℕ → Fault
fine _ = works

abbrev same_text : Algo → Bytes → Bytes
same_text _ c = c

abbrev whole_path : Bytes → Bytes
whole_path p = p

abbrev program : Bytes
program = b'g' ∷ b'.' ∷ b'e' ∷ b'x' ∷ b'e' ∷ []

abbrev library : Bytes
library = b'w' ∷ b'i' ∷ b'n' ∷ b't' ∷ b'u' ∷ b'n' ∷ b'.' ∷ b'd' ∷ b'l' ∷ b'l' ∷ []

abbrev beside : Bytes → Bytes
beside _ = library

abbrev archive : List ZipEntry
archive =
    record { name = program; is_dir = false; body = some (2 ∷ []) }
    ∷ record { name = library; is_dir = false; body = some (4 ∷ []) }
    ∷ []

abbrev disk : Disk
disk = record {
  files = set_file program (some (1 ∷ [])) (set_file library (some (3 ∷ [])) (λ _. none));
  tick = 0;
}

-- After an earlier update from 0 to 1.
abbrev after_update : Disk
after_update = record { files = set_file (old_of program) (some (0 ∷ [])) disk.files; tick = 0 }

two_files : AreFar program (beside program)
unfolding equal
two_files = record {
  here_here = refl;
  here_old = refl;
  here_new = refl;
  old_here = refl;
  old_old = refl;
  old_new = refl;
  new_here = refl;
  new_old = refl;
  new_new = refl;
}

program_there : disk.files program ≡ some (1 ∷ [])
unfolding equal set_file
program_there = refl

library_there : disk.files (beside program) ≡ some (3 ∷ [])
unfolding equal set_file
library_there = refl

rollback_there : after_update.files (old_of program) ≡ some (0 ∷ [])
unfolding equal set_file
rollback_there = refl

program_named : equal program [] ≡ false
unfolding equal
program_named = refl

zip_apart : equal program (9 ∷ []) ≡ false
unfolding equal
zip_apart = refl

program_self : equal program program ≡ true
unfolding equal
program_self = refl

unopened : read_archive whole_path none ≡ err not_opened
unfolding read_archive
unopened = refl

-- The new program runs, and the updater says so.
updated_now :
    ((run_self_update fine same_text whole_path beside equal program
      (9 ∷ [])
      program
      (some archive)
      disk).runs)
    ≡ some (2 ∷ [])
unfolding run_self_update apply_zip install extract_to write_file remove rename retry_rename
    rename_again present replace_file start_program hash_for set_file read_archive find_sources
    zip_entry_base slashes split_at has_item note_entry has_suffix to_lower lower_rune contains
    choose_sums equal
updated_now = refl

apply_zip-IsSafe_example :
    IsSafe same_text whole_path program library
      (1 ∷ [])
      (3 ∷ [])
      (read_archive whole_path (some archive))
      (apply_zip fine same_text whole_path beside (some archive) program disk)
apply_zip-IsSafe_example =
    apply_zip-IsSafe fine same_text whole_path beside two_files (1 ∷ []) (3 ∷ []) (some archive)
      disk program_there library_there

run_self_update-IsTrueEnd_example :
    IsTrueEnd same_text whole_path program
      (1 ∷ [])
      (apply_zip fine same_text whole_path beside (some archive) program disk)
      (read_archive whole_path (some archive))
      (run_self_update fine same_text whole_path beside equal program
        (9 ∷ [])
        program
        (some archive)
        disk)
run_self_update-IsTrueEnd_example =
    run_self_update-IsTrueEnd fine same_text whole_path beside equal program (9 ∷ []) program
      (1 ∷ []) (3 ∷ []) (some archive) disk two_files program_named zip_apart program_there
      library_there

run_self_update-IsBadEnd_example : IsBadEnd program after_update (some (0 ∷ [])) (
    run_self_update fine same_text whole_path beside equal program
      (9 ∷ [])
      program
      none
      after_update)
run_self_update-IsBadEnd_example =
    run_self_update-IsBadEnd fine same_text whole_path beside equal program 9 [] program none
      after_update (some (0 ∷ [])) not_opened program_self program_named unopened refl refl
      rollback_there

-- A download of one piece.
abbrev asked : Loader
asked = (handle_upgrade_download (some (1 ∷ [])) nothing_loaded).0

abbrev begun : Loader
begun = begin_download (pos 10) asked

abbrev received : Loader
received = receive 10 5 (no_bytes (pos 10)) begun

abbrev piece : ProgressWriter
piece = (write_progress 10 5 (no_bytes (pos 10))).0

abbrev loaded : Loader
loaded = release_loader (end_download (place_download (8 ∷ []) received))

-- Another one, which fails before a byte comes.
abbrev again : Loader
again = (handle_upgrade_download (some (1 ∷ [])) loaded).0

abbrev failed : Loader
failed =
    release_loader (fail_download bad_request (no_bytes (pos 3)) (begin_download (pos 3) again))

abbrev as_text : ℕ → Bytes
as_text n = n ∷ []

abbrev is_there : Bytes → Bool
is_there _ = true
