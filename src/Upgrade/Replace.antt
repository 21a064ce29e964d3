-- ===== src/Upgrade/Replace.antt =====
-- ui2/upgrade.go: `replaceFile`.
use good_link.Base.{
  Bool, if◌then◌else◌, ◌∙◌, ℕ, ◌≡◌, true, refl, some, ap, none, false, Bytes, Option, inr,
  Bool-cases, inl,
}
use good_link.Net.{equal}
use good_link.Upgrade.{
  Disk, Fault, remove, rename, copy_file_overwrite, retry_rename, present, old_of,
}
use good_link.Upgrade.Files.{
  Files, IsMoved, IsWritten, remove-Leaves, rename-IsMoved, copy_file_overwrite-IsWritten,
  retry_rename-IsMoved,
}

-- Why a file was not replaced. `lost` is the error that says that putting the old file back failed
-- too.
pub data ReplaceError : Type 0 where
  not_set_aside : ReplaceError
  not_replaced : ReplaceError
  lost : ReplaceError

abbrev pub Replaced : Type 0
Replaced = Option ReplaceError × Disk

abbrev put_back : Bool × Disk → Replaced
put_back (true, d) = (some not_replaced, d)
put_back (false, d) = (some lost, d)

module _ (fault : ℕ → Fault) where
  -- After `copyFileOverwrite`.
  abbrev after_copy : Bytes → Bytes → Bool × Disk → Replaced
  after_copy src dest (true, d) = (none, remove fault src d)
  after_copy src dest (false, d) =
      if present (old_of dest) d
      then put_back (retry_rename fault (old_of dest) dest d)
      else (some not_replaced, d)

  -- After the new file has been renamed.
  abbrev after_rename : Bytes → Bytes → Bool × Disk → Replaced
  after_rename src dest (true, d) = (none, d)
  after_rename src dest (false, d) = after_copy src dest (copy_file_overwrite fault src dest d)

  -- After the old file has been set aside.
  abbrev after_set_aside : Bytes → Bytes → Bool × Disk → Replaced
  after_set_aside src dest (true, d) = after_rename src dest (rename fault src dest d)
  after_set_aside src dest (false, d) = (some not_set_aside, d)

  unfoldable pub replace_file : Bytes → Bytes → Disk → Replaced
  replace_file src dest d =
      let cleared = remove fault (old_of dest) d in
      let aside : Bool × Disk =
        if present dest cleared
        then retry_rename fault dest (old_of dest) cleared
        else (true, cleared) in
      after_set_aside src dest aside

-- The three paths of a replacement differ.
pub record AreApart (src dest : Bytes) : Type 0 where
  pub src_dest : equal src dest ≡ false
  pub dest_src : equal dest src ≡ false
  pub src_old : equal src (old_of dest) ≡ false
  pub old_src : equal (old_of dest) src ≡ false
  pub dest_old : equal dest (old_of dest) ≡ false
  pub old_dest : equal (old_of dest) dest ≡ false

-- What a replacement leaves of the file that was there: the new file, with the old one set aside;
-- or the old one, back in its place; or, where putting back failed too, the old one set aside.
abbrev pub IsReplaced : Bytes → (old new : Option Bytes) → Replaced → Type 0
IsReplaced dest old new (none, e) = (e.files dest ≡ new) × (e.files (old_of dest) ≡ old)
IsReplaced dest old new (some not_set_aside, e) = e.files dest ≡ old
IsReplaced dest old new (some not_replaced, e) = e.files dest ≡ old
IsReplaced dest old new (some lost, e) = e.files (old_of dest) ≡ old

pub present-some : {p v : Bytes} (d : Disk) → d.files p ≡ some v → present p d ≡ true
unfolding present
present-some d h = rw (present, h) refl

module _ (fault : ℕ → Fault) {src dest : Bytes} (apart : AreApart src dest) (c : Bytes)
    (new : Option Bytes) where
  put_back-IsReplaced :
      (files : Files) (r : Bool × Disk)
      → IsMoved (old_of dest) dest files r
      → files (old_of dest) ≡ some c
      → IsReplaced dest (some c) new (put_back r)
  put_back-IsReplaced files (true, e) h aside = h.0 ∙ aside
  put_back-IsReplaced files (false, e) h aside = ap (λ (f : Files). f (old_of dest)) h ∙ aside

  after_copy-IsReplaced :
      (files : Files) (r : Bool × Disk)
      → IsWritten dest (files src) files r
      → files src ≡ new
      → files (old_of dest) ≡ some c
      → IsReplaced dest (some c) new (after_copy fault src dest r)
  after_copy-IsReplaced files (true, e) h there aside = (
    remove-Leaves fault src e dest apart.dest_src apart.dest_src ∙ h.0 ∙ there,
    remove-Leaves fault src e (old_of dest) apart.old_src apart.old_src
        ∙ h.1 (old_of dest) apart.old_dest apart.old_dest
        ∙ aside,
  )
  after_copy-IsReplaced files (false, e) h there aside =
      let kept = h (old_of dest) apart.old_dest apart.old_dest ∙ aside in
      rw (present-some e kept) (
        put_back-IsReplaced e.files (retry_rename fault (old_of dest) dest e)
          (retry_rename-IsMoved fault (old_of dest) dest e apart.old_dest) kept)

  after_rename-IsReplaced :
      (files : Files) (r : Bool × Disk)
      → IsMoved src dest files r
      → files src ≡ new
      → files (old_of dest) ≡ some c
      → IsReplaced dest (some c) new (after_rename fault src dest r)
  after_rename-IsReplaced files (true, e) h there aside =
      (h.0 ∙ there, h.2 (old_of dest) apart.old_src apart.old_dest ∙ aside)
  after_rename-IsReplaced files (false, e) h there aside =
      after_copy-IsReplaced e.files (copy_file_overwrite fault src dest e)
        (copy_file_overwrite-IsWritten fault src dest e) (ap (λ (f : Files). f src) h ∙ there)
        (ap (λ (f : Files). f (old_of dest)) h ∙ aside)

  after_set_aside-IsReplaced :
      (files : Files) (r : Bool × Disk)
      → IsMoved dest (old_of dest) files r
      → files src ≡ new
      → files dest ≡ some c
      → IsReplaced dest (some c) new (after_set_aside fault src dest r)
  after_set_aside-IsReplaced files (true, e) h there here =
      after_rename-IsReplaced e.files (rename fault src dest e)
        (rename-IsMoved fault src dest e apart.src_dest)
        (h.2 src apart.src_dest apart.src_old ∙ there) (h.0 ∙ here)
  after_set_aside-IsReplaced files (false, e) h there here = ap (λ (f : Files). f dest) h ∙ here

  pub replace_file-IsReplaced :
      (d : Disk)
      → d.files dest ≡ some c
      → d.files src ≡ new
      → IsReplaced dest (some c) new (replace_file fault src dest d)
  unfolding replace_file
  replace_file-IsReplaced d here there =
      let cleared = remove-Leaves fault (old_of dest) d in
      let now = cleared dest apart.dest_old apart.dest_old ∙ here in
      rw (present-some (remove fault (old_of dest) d) now) (
        after_set_aside-IsReplaced (remove fault (old_of dest) d).files
          (retry_rename fault dest (old_of dest) (remove fault (old_of dest) d))
          (retry_rename-IsMoved fault dest (old_of dest) (remove fault (old_of dest) d)
            apart.dest_old)
          (cleared src apart.src_old apart.src_old ∙ there) now)

pub moved-elsewhere :
    (from to q : Bytes) (files : Files) (r : Bool × Disk)
    → equal q from ≡ false
    → equal q to ≡ false
    → IsMoved from to files r
    → r.1.files q ≡ files q
moved-elsewhere from to q files (true, e) off_from off_to h = h.2 q off_from off_to
moved-elsewhere from to q files (false, e) off_from off_to h = ap (λ (f : Files). f q) h

put_back-elsewhere : (q : Bytes) (r : Bool × Disk) → (put_back r).1.files q ≡ r.1.files q
put_back-elsewhere q (true, e) = refl
put_back-elsewhere q (false, e) = refl

-- What a replacement does to a file elsewhere: nothing.
module _ (fault : ℕ → Fault) (src dest q : Bytes) (off_src : equal q src ≡ false)
    (off_dest : equal q dest ≡ false) (off_old : equal q (old_of dest) ≡ false) where
  after_copy-elsewhere :
      (files : Files) (r : Bool × Disk)
      → equal (old_of dest) dest ≡ false
      → IsWritten dest (files src) files r
      → (after_copy fault src dest r).1.files q ≡ files q
  after_copy-elsewhere files (true, e) apart h =
      remove-Leaves fault src e q off_src off_src ∙ h.1 q off_dest off_dest
  after_copy-elsewhere files (false, e) apart h = elim (Bool-cases (present (old_of dest) e)) [
    | inl there ↦ rw there (
        put_back-elsewhere q (retry_rename fault (old_of dest) dest e)
        ∙ moved-elsewhere (old_of dest) dest q e.files (retry_rename fault (old_of dest) dest e)
            off_old off_dest (retry_rename-IsMoved fault (old_of dest) dest e apart)
        ∙ h q off_dest off_dest)
    | inr gone ↦ rw gone (h q off_dest off_dest)
  ]

  after_rename-elsewhere :
      (files : Files) (r : Bool × Disk)
      → equal (old_of dest) dest ≡ false
      → IsMoved src dest files r
      → (after_rename fault src dest r).1.files q ≡ files q
  after_rename-elsewhere files (true, e) apart h = h.2 q off_src off_dest
  after_rename-elsewhere files (false, e) apart h =
      after_copy-elsewhere e.files (copy_file_overwrite fault src dest e) apart
        (copy_file_overwrite-IsWritten fault src dest e)
      ∙ ap (λ (f : Files). f q) h

  after_set_aside-elsewhere :
      (files : Files) (r : Bool × Disk)
      → AreApart src dest
      → r.1.files q ≡ files q
      → (after_set_aside fault src dest r).1.files q ≡ files q
  after_set_aside-elsewhere files (true, e) apart h =
      after_rename-elsewhere e.files (rename fault src dest e) apart.old_dest
        (rename-IsMoved fault src dest e apart.src_dest)
      ∙ h
  after_set_aside-elsewhere files (false, e) apart h = h

  pub replace_file-elsewhere :
      (d : Disk) → AreApart src dest → (replace_file fault src dest d).1.files q ≡ d.files q
  unfolding replace_file
  replace_file-elsewhere d apart =
      let cleared = remove-Leaves fault (old_of dest) d q off_old off_old in
      elim (Bool-cases (present dest (remove fault (old_of dest) d))) [
        | inl there ↦ rw there (
            after_set_aside-elsewhere d.files
              (retry_rename fault dest (old_of dest) (remove fault (old_of dest) d)) apart
              (moved-elsewhere dest (old_of dest) q (remove fault (old_of dest) d).files
                  (retry_rename fault dest (old_of dest) (remove fault (old_of dest) d)) off_dest
                  off_old
                  (retry_rename-IsMoved fault dest (old_of dest) (remove fault (old_of dest) d)
                    apart.dest_old)
                ∙ cleared))
        | inr gone ↦
            rw gone
              (after_set_aside-elsewhere d.files (true, remove fault (old_of dest) d) apart cleared)
      ]
