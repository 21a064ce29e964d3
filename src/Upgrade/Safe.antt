-- ===== src/Upgrade/Safe.antt =====
-- ui2/upgrade.go: an update that fails leaves the installed program.
use good_link.Base.{
  false, Bytes, refl, true, some, ℕ, ◌∷◌, ◌≡◌, [], Option, ◌++◌, none, arith, inl, ok, Bool-cases,
  inr, Outcome, Bool,
}
use good_link.Config.Text.{to_lower}
use good_link.Upgrade.Replace.{not_set_aside, not_replaced, lost, AreApart, ReplaceError}
use good_link.Net.{equal, equal_iff}
use good_link.Upgrade.{Disk, Fault, old_of, new_of, dot_old, dot_new, write_file}
use good_link.Upgrade.Files.{Files, Leaves, IsWritten, write_file-IsWritten}
use good_link.Upgrade.Archive.{Algo, ZipEntry, dash, hash_for, dll_name}
use good_link.Upgrade.Install.{
  ArchiveError, ExtractError, is_sum, unpacked, extract_to, UpgradeError, sum_judged, exe_failed,
  Sums, dll_failed, Applied, exe_lost,
}

equal-flip : (a b : Bytes) → equal a b ≡ false → equal b a ≡ false
equal-flip a b h = ground (arith, equal_iff a b, equal_iff b a)

equal-longer : (p : Bytes) (c : ℕ) (s : Bytes) → equal (p ++ c ∷ s) p ≡ false
unfolding equal
equal-longer [] c s = refl
equal-longer (b ∷ p) c s = ground (arith, equal-longer p c s)

equal-behind : (p s t : Bytes) → equal s t ≡ false → equal (p ++ s) (p ++ t) ≡ false
unfolding equal
equal-behind [] s t h = h
equal-behind (b ∷ p) s t h = ground (arith, equal-behind p s t h)

dots-differ : equal dot_new dot_old ≡ false
unfolding equal
dots-differ = refl

-- The new file, the file and its rollback point are three files.
pub apart_of : (p : Bytes) → AreApart (new_of p) p
apart_of p =
    let longer = equal-longer p b'.' (b'n' ∷ b'e' ∷ b'w' ∷ []) in
    let old_longer = equal-longer p b'.' (b'o' ∷ b'l' ∷ b'd' ∷ []) in
    let both = equal-behind p dot_new dot_old dots-differ in
    record {
      src_dest = longer;
      dest_src = equal-flip (new_of p) p longer;
      src_old = both;
      old_src = equal-flip (new_of p) (old_of p) both;
      dest_old = equal-flip (old_of p) p old_longer;
      old_dest = old_longer;
    }

-- The program and the library are two files, each with its own copies.
pub record AreFar (p q : Bytes) : Type 0 where
  pub here_here : equal p q ≡ false
  pub here_old : equal p (old_of q) ≡ false
  pub here_new : equal p (new_of q) ≡ false
  pub old_here : equal (old_of p) q ≡ false
  pub old_old : equal (old_of p) (old_of q) ≡ false
  pub old_new : equal (old_of p) (new_of q) ≡ false
  pub new_here : equal (new_of p) q ≡ false
  pub new_old : equal (new_of p) (old_of q) ≡ false
  pub new_new : equal (new_of p) (new_of q) ≡ false

pub far-flip : {p q : Bytes} → AreFar p q → AreFar q p
far-flip {p} {q} far = record {
  here_here = equal-flip p q far.here_here;
  here_old = equal-flip (old_of p) q far.old_here;
  here_new = equal-flip (new_of p) q far.new_here;
  old_here = equal-flip p (old_of q) far.here_old;
  old_old = equal-flip (old_of p) (old_of q) far.old_old;
  old_new = equal-flip (new_of p) (old_of q) far.new_old;
  new_here = equal-flip p (new_of q) far.here_new;
  new_old = equal-flip (old_of p) (new_of q) far.old_new;
  new_new = equal-flip (new_of p) (new_of q) far.new_new;
}

-- What an extraction leaves: the bytes of the entry, with the sum that is wanted; or some other
-- bytes in their place.
abbrev pub IsUnpacked :
    (Algo → Bytes → Bytes)
    → Option Bytes
    → Bytes
    → Algo
    → Bytes
    → Files
    → Option ExtractError × Disk
    → Type 0
IsUnpacked digest body dest algo want old (none, e) =
    (c : Bytes) × (body ≡ some c)
    × (is_sum digest algo want c ≡ true)
    × (e.files dest ≡ some c)
    × Leaves dest dest old e.files
IsUnpacked digest body dest algo want old (some _, e) = Leaves dest dest old e.files

module _ (fault : ℕ → Fault) (digest : Algo → Bytes → Bytes) where
  sum_judged-IsUnpacked :
      (dest : Bytes) (algo : Algo) (want c : Bytes) (old : Files) (r : Bool × Disk)
      → IsWritten dest (some c) old r
      → IsUnpacked digest (some c) dest algo want old (sum_judged fault digest algo want c r)
  sum_judged-IsUnpacked dest algo want c old (false, e) h = h
  sum_judged-IsUnpacked dest algo want c old (true, e) h =
      elim (Bool-cases (is_sum digest algo want c)) [
        | inl right ↦ rw right (c, refl, right, h.0, h.1)
        | inr wrong ↦ rw wrong (h.1)
      ]

  unpacked-IsUnpacked :
      (body : Option Bytes) (dest : Bytes) (algo : Algo) (want : Bytes) (d : Disk)
      → IsUnpacked digest body dest algo want d.files (unpacked fault digest dest algo want d body)
  unpacked-IsUnpacked none dest algo want d = λ q h k. refl
  unpacked-IsUnpacked (some c) dest algo want d =
      sum_judged-IsUnpacked dest algo want c d.files (write_file fault dest c d)
        (write_file-IsWritten fault dest c d)

  pub extract_to-IsUnpacked :
      (body : Option Bytes) (dest : Bytes) (algo : Algo) (want : Bytes) (d : Disk)
      → IsUnpacked digest body dest algo want d.files
          (extract_to fault digest body dest algo want d)
  unfolding extract_to
  extract_to-IsUnpacked body dest algo want d = elim (Bool-cases (equal want dash)) [
    | inl missing ↦ rw missing (λ q h k. refl)
    | inr there ↦ rw there (unpacked-IsUnpacked body dest algo want d)
  ]

-- Where the program and the library stand after a failure of the library's replacement.
abbrev pub LibraryLeft : Bytes → Bytes → ReplaceError → Files → Type 0
LibraryLeft dll k not_set_aside files = files dll ≡ some k
LibraryLeft dll k not_replaced files = files dll ≡ some k
LibraryLeft dll k lost files = files (old_of dll) ≡ some k

-- The program `c` or its rollback point, and the library `k` or its own, by the error.
abbrev pub IsLeft : (target dll c k : Bytes) → UpgradeError → Disk → Type 0
IsLeft target dll c k (exe_failed lost) e =
    (e.files (old_of target) ≡ some c) × (e.files dll ≡ some k)
IsLeft target dll c k (dll_failed r) e = (e.files target ≡ some c) × LibraryLeft dll k r e.files
IsLeft target dll c k (exe_lost r) e =
    (e.files (old_of target) ≡ some c) × LibraryLeft dll k r e.files
IsLeft target dll c k _ e = (e.files target ≡ some c) × (e.files dll ≡ some k)

-- The new program and the new library, each with the sum that the archive's list says.
module _ (digest : Algo → Bytes → Bytes) (base_name : Bytes → Bytes) (target dll c k : Bytes) where
  abbrev pub IsInstalled : ZipEntry → Option ZipEntry → Sums → Disk → Type 0
  IsInstalled exe none sums e =
      (x : Bytes) × (exe.body ≡ some x)
      × (is_sum digest sums.algo (hash_for sums.hashes (to_lower (base_name exe.name))) x ≡ true)
      × (e.files target ≡ some x)
      × (e.files (old_of target) ≡ some c)
      × (e.files dll ≡ some k)
  IsInstalled exe (some lib) sums e =
      (x : Bytes) × (y : Bytes) × (exe.body ≡ some x)
      × (lib.body ≡ some y)
      × (is_sum digest sums.algo (hash_for sums.hashes (to_lower (base_name exe.name))) x ≡ true)
      × (is_sum digest sums.algo (hash_for sums.hashes dll_name) y ≡ true)
      × (e.files target ≡ some x)
      × (e.files (old_of target) ≡ some c)
      × (e.files dll ≡ some y)
      × (e.files (old_of dll) ≡ some k)

  abbrev pub IsSafe : Outcome ArchiveError (ZipEntry × Option ZipEntry × Sums) → Applied → Type 0
  IsSafe plan (some why, e) = IsLeft target dll c k why e
  IsSafe plan (none, e) =
      (exe : ZipEntry) × (lib : Option ZipEntry) × (sums : Sums) × (plan ≡ ok (exe, lib, sums))
      × IsInstalled exe lib sums e
