-- ===== src/Upgrade.antt =====
-- ui2/upgrade.go: the files that an update changes, and what it asks the operating system for.
use good_link.Base.{
  ℕ, Bytes, ◌++◌, ◌∷◌, zero, if◌then◌else◌, suc, none, [], some, true, false, Option, Bool,
}
use good_link.Net.{equal, equal_iff}
pub mod Files
pub mod Replace
pub mod Archive
pub mod Install
pub mod Safe
pub mod Keeps
pub mod Restart
pub mod Ends
pub mod Download
pub mod Loads
pub mod Releases
mod Tests

-- How one request of the operating system goes: it works, it is refused, or, where it writes, it
-- breaks off and leaves other bytes.
pub data Fault : Type 0 where
  works : Fault
  refused : Fault
  torn : Bytes → Fault

-- The files by their paths, and how many requests there have been.
pub record Disk : Type 0 where
  pub files : Bytes → Option Bytes
  pub tick : ℕ

unfoldable pub set_file : Bytes → Option Bytes → (Bytes → Option Bytes) → Bytes → Option Bytes
set_file p v files q = if equal q p then v else files q

abbrev pub with_files : (Bytes → Option Bytes) → Disk → Disk
with_files files d = record { files = files; tick = suc d.tick }

-- `os.Stat` without an error.
unfoldable pub present : Bytes → Disk → Bool
present p d = elim (d.files p) [ some c ↦ true | none ↦ false ]

-- `retryRename` makes that many tries.
abbrev pub rename_tries : ℕ
rename_tries = 25

abbrev pub dot_old : Bytes
dot_old = b'.' ∷ b'o' ∷ b'l' ∷ b'd' ∷ []

abbrev pub dot_new : Bytes
dot_new = b'.' ∷ b'n' ∷ b'e' ∷ b'w' ∷ []

-- `oldPath` of a file
abbrev pub old_of : Bytes → Bytes
old_of path = path ++ dot_old

abbrev pub new_of : Bytes → Bytes
new_of path = path ++ dot_new

-- What a request leaves, by what is at the path and by how it goes.
abbrev pub removed : Bytes → Disk → Fault → Disk
removed p d works = with_files (set_file p none d.files) d
removed p d refused = with_files d.files d
removed p d (torn _) = with_files d.files d

abbrev pub renamed : Bytes → Bytes → Disk → Option Bytes → Fault → Bool × Disk
renamed from to d none f = (false, with_files d.files d)
renamed from to d (some c) works =
    (true, with_files (set_file to (some c) (set_file from none d.files)) d)
renamed from to d (some c) refused = (false, with_files d.files d)
renamed from to d (some c) (torn _) = (false, with_files d.files d)

abbrev pub after_write : Bytes → Bytes → Disk → Fault → Bool × Disk
after_write p c d works = (true, with_files (set_file p (some c) d.files) d)
after_write p c d refused = (false, with_files d.files d)
after_write p c d (torn part) = (false, with_files (set_file p (some part) d.files) d)

-- A try, and another one where it failed.
abbrev pub or_again : (Disk → Bool × Disk) → Bool × Disk → Bool × Disk
or_again again (true, d) = (true, d)
or_again again (false, d) = again d

module _ (fault : ℕ → Fault) where
  -- `os.Remove`, whose error the program passes over.
  unfoldable pub remove : Bytes → Disk → Disk
  remove p d = removed p d (fault d.tick)

  -- `os.Rename`; a file at the new path is replaced.
  unfoldable pub rename : Bytes → Bytes → Disk → Bool × Disk
  rename from to d = renamed from to d (d.files from) (fault d.tick)

  -- `os.OpenFile` that truncates, with the copy into it and the close.
  unfoldable pub write_file : Bytes → Bytes → Disk → Bool × Disk
  write_file p c d = after_write p c d (fault d.tick)

  abbrev pub copied : Bytes → Disk → Option Bytes → Bool × Disk
  copied dest d none = (false, with_files d.files d)
  copied dest d (some c) = write_file dest c d

  -- `copyFileOverwrite`
  unfoldable pub copy_file_overwrite : Bytes → Bytes → Disk → Bool × Disk
  copy_file_overwrite src dest d = copied dest d (d.files src)

  -- The tries of `retryRename` that are left.
  unfoldable pub rename_again : ℕ → Bytes → Bytes → Disk → Bool × Disk
  rename_again zero from to d = (false, d)
  rename_again (suc n) from to d = or_again (rename_again n from to) (rename from to d)

  unfoldable pub retry_rename : Bytes → Bytes → Disk → Bool × Disk
  retry_rename from to d = rename_again rename_tries from to d
