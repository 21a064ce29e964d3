-- ===== src/Upgrade/Files.antt =====
-- What one request changes of the files: ui2/upgrade.go over the operating system.
use good_link.Base.{ℕ, Bytes, none, ◌≡◌, true, false, Option, Bool, some, refl, zero, suc, sym, ◌∙◌}
use mathlib.Core.Path.{subst}
use good_link.Net.{equal, equal_iff}
use good_link.Upgrade.{
  Disk, Fault, works, refused, torn, set_file, remove, rename, write_file, copy_file_overwrite,
  rename_again, retry_rename, renamed, removed, after_write, copied, or_again, rename_tries,
}

abbrev pub Files : Type 0
Files = Bytes → Option Bytes

-- The files are as before but for those two.
abbrev pub Leaves : Bytes → Bytes → Files → Files → Type 0
Leaves a b old now = (q : Bytes) → equal q a ≡ false → equal q b ≡ false → now q ≡ old q

-- The file is moved, or nothing is changed.
abbrev pub IsMoved : Bytes → Bytes → Files → Bool × Disk → Type 0
IsMoved from to old (true, e) =
    (e.files to ≡ old from) × (e.files from ≡ none) × Leaves from to old e.files
IsMoved from to old (false, e) = e.files ≡ old

-- The bytes are at the path; on a failure something else may be.
abbrev pub IsWritten : Bytes → Option Bytes → Files → Bool × Disk → Type 0
IsWritten p v old (true, e) = (e.files p ≡ v) × Leaves p p old e.files
IsWritten p v old (false, e) = Leaves p p old e.files

pub set_file_same :
    (p : Bytes) (v : Option Bytes) (files : Bytes → Option Bytes) → set_file p v files p ≡ v
unfolding set_file
set_file_same p v files = rw ((equal_iff p p).1 refl) refl

pub set_file_other :
    (p q : Bytes) (v : Option Bytes) (files : Bytes → Option Bytes)
    → equal q p ≡ false
    → set_file p v files q ≡ files q
unfolding set_file
set_file_other p q v files h = rw h refl

renamed-IsMoved :
    (from to : Bytes) (d : Disk) (c : Option Bytes) (f : Fault)
    → equal from to ≡ false
    → d.files from ≡ c
    → IsMoved from to d.files (renamed from to d c f)
renamed-IsMoved from to d none f h e = refl
renamed-IsMoved from to d (some c) works h e = (
  set_file_same to (some c) (set_file from none d.files) ∙ sym e,
  set_file_other to from (some c) (set_file from none d.files) h ∙ set_file_same from none d.files,
  λ q off_from off_to.
      set_file_other to q (some c) (set_file from none d.files) off_to
      ∙ set_file_other from q none d.files off_from,
)
renamed-IsMoved from to d (some c) refused h e = refl
renamed-IsMoved from to d (some c) (torn _) h e = refl

removed-Leaves : (p : Bytes) (d : Disk) (f : Fault) → Leaves p p d.files (removed p d f).files
removed-Leaves p d works q h k = set_file_other p q none d.files h
removed-Leaves p d refused q h k = refl
removed-Leaves p d (torn _) q h k = refl

after_write-IsWritten :
    (p c : Bytes) (d : Disk) (f : Fault) → IsWritten p (some c) d.files (after_write p c d f)
after_write-IsWritten p c d works =
    (set_file_same p (some c) d.files, λ q h k. set_file_other p q (some c) d.files h)
after_write-IsWritten p c d refused = λ q h k. refl
after_write-IsWritten p c d (torn part) = λ q h k. set_file_other p q (some part) d.files h

module _ (fault : ℕ → Fault) where
  pub remove-Leaves : (p : Bytes) (d : Disk) → Leaves p p d.files (remove fault p d).files
  unfolding remove
  remove-Leaves p d = removed-Leaves p d (fault d.tick)

  pub rename-IsMoved :
      (from to : Bytes) (d : Disk)
      → equal from to ≡ false
      → IsMoved from to d.files (rename fault from to d)
  unfolding rename
  rename-IsMoved from to d h = renamed-IsMoved from to d (d.files from) (fault d.tick) h refl

  pub write_file-IsWritten :
      (p c : Bytes) (d : Disk) → IsWritten p (some c) d.files (write_file fault p c d)
  unfolding write_file
  write_file-IsWritten p c d = after_write-IsWritten p c d (fault d.tick)

  copied-IsWritten :
      (dest : Bytes) (d : Disk) (c : Option Bytes)
      → IsWritten dest c d.files (copied fault dest d c)
  copied-IsWritten dest d none = λ q h k. refl
  copied-IsWritten dest d (some c) = write_file-IsWritten dest c d

  pub copy_file_overwrite-IsWritten :
      (src dest : Bytes) (d : Disk)
      → IsWritten dest (d.files src) d.files (copy_file_overwrite fault src dest d)
  unfolding copy_file_overwrite
  copy_file_overwrite-IsWritten src dest d = copied-IsWritten dest d (d.files src)

  or_again-IsMoved :
      (from to : Bytes) (d : Disk) (again : Disk → Bool × Disk) (r : Bool × Disk)
      → ((e : Disk) → IsMoved from to e.files (again e))
      → IsMoved from to d.files r
      → IsMoved from to d.files (or_again again r)
  or_again-IsMoved from to d again (true, e) ih h = h
  or_again-IsMoved from to d again (false, e) ih h =
      subst (λ (old : Files). IsMoved from to old (again e)) h (ih e)

  rename_again-IsMoved :
      (n : ℕ) (from to : Bytes) (d : Disk)
      → equal from to ≡ false
      → IsMoved from to d.files (rename_again fault n from to d)
  unfolding rename_again
  rename_again-IsMoved zero from to d h = refl
  rename_again-IsMoved (suc n) from to d h =
      or_again-IsMoved from to d (rename_again fault n from to) (rename fault from to d)
        (λ e. rename_again-IsMoved n from to e h) (rename-IsMoved from to d h)

  pub retry_rename-IsMoved :
      (from to : Bytes) (d : Disk)
      → equal from to ≡ false
      → IsMoved from to d.files (retry_rename fault from to d)
  unfolding retry_rename
  retry_rename-IsMoved from to d h = rename_again-IsMoved rename_tries from to d h
