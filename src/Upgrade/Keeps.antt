-- ===== src/Upgrade/Keeps.antt =====
-- ui2/upgrade.go: `applyZip` keeps the installed program, or installs the new one whole.
use good_link.Base.{
  true, Bytes, ◌∙◌, some, ◌≡◌, Option, Bool, false, ap, Outcome, none, ℕ, ok, stuck, panic, err,
  refl, List,
}
use good_link.Net.{equal}
use good_link.Config.Text.{to_lower}
use good_link.Upgrade.{Disk, Fault, remove, retry_rename, old_of, new_of}
use good_link.Upgrade.Files.{Files, IsMoved, remove-Leaves, retry_rename-IsMoved}
use good_link.Upgrade.Replace.{
  ReplaceError, not_set_aside, not_replaced, lost, Replaced, replace_file, IsReplaced,
  replace_file-IsReplaced, replace_file-elsewhere, moved-elsewhere, present-some,
}
use good_link.Upgrade.Archive.{ZipEntry, Algo, dll_name, hash_for}
use good_link.Upgrade.Install.{
  ArchiveError, exe_failed, Applied, Sums, is_sum, after_undo, after_swap_dll, drop_both,
  after_swap_exe, ExtractError, install, installed, after_dll, after_exe, extract_to, apply_zip,
  read_archive,
}
use good_link.Upgrade.Safe.{
  IsInstalled, AreFar, apart_of, far-flip, LibraryLeft, IsLeft, IsSafe, IsUnpacked,
  extract_to-IsUnpacked,
}

LibraryLeft-IsReplaced :
    (dll k : Bytes) (new : Option Bytes) (why : ReplaceError) (d : Disk)
    → IsReplaced dll (some k) new (some why, d)
    → LibraryLeft dll k why d.files
LibraryLeft-IsReplaced dll k new not_set_aside d h = h
LibraryLeft-IsReplaced dll k new not_replaced d h = h
LibraryLeft-IsReplaced dll k new lost d h = h

module _ {target dll : Bytes} (far : AreFar target dll) (c k : Bytes) where
  -- Putting the old program back does not touch the library.
  LibraryLeft-after_undo :
      (why : ReplaceError) (files : Files) (r : Bool × Disk)
      → IsMoved (old_of target) target files r
      → LibraryLeft dll k why files
      → LibraryLeft dll k why (r.1).files
  LibraryLeft-after_undo not_set_aside files r h left =
      let near = far-flip far in
      moved-elsewhere (old_of target) target dll files r near.here_old near.here_here h ∙ left
  LibraryLeft-after_undo not_replaced files r h left =
      let near = far-flip far in
      moved-elsewhere (old_of target) target dll files r near.here_old near.here_here h ∙ left
  LibraryLeft-after_undo lost files r h left =
      let near = far-flip far in
      moved-elsewhere (old_of target) target (old_of dll) files r near.old_old near.old_here h
      ∙ left

  exe_failed-IsLeft :
      (why : ReplaceError) (new : Option Bytes) (d e : Disk)
      → IsReplaced target (some c) new (some why, d)
      → d.files dll ≡ some k
      → e.files target ≡ d.files target
      → e.files (old_of target) ≡ d.files (old_of target)
      → e.files dll ≡ d.files dll
      → IsLeft target dll c k (exe_failed why) e
  exe_failed-IsLeft not_set_aside new d e h lib at_target at_old at_dll =
      (at_target ∙ h, at_dll ∙ lib)
  exe_failed-IsLeft not_replaced new d e h lib at_target at_old at_dll =
      (at_target ∙ h, at_dll ∙ lib)
  exe_failed-IsLeft lost new d e h lib at_target at_old at_dll = (at_old ∙ h, at_dll ∙ lib)

module _ (fault : ℕ → Fault) (digest : Algo → Bytes → Bytes) (base_name dll_of : Bytes → Bytes)
    {target : Bytes} (far : AreFar target (dll_of target)) (c k : Bytes)
    (plan : Outcome ArchiveError (ZipEntry × Option ZipEntry × Sums)) where
  abbrev Safe : Applied → Type 0
  Safe = IsSafe digest base_name target (dll_of target) c k plan

  after_undo-Safe :
      (why : ReplaceError) (files : Files) (r : Bool × Disk)
      → IsMoved (old_of target) target files r
      → files (old_of target) ≡ some c
      → LibraryLeft (dll_of target) k why files
      → Safe (after_undo why r)
  after_undo-Safe why files (true, d) h aside left =
      (h.0 ∙ aside, LibraryLeft-after_undo far c k why files (true, d) h left)
  after_undo-Safe why files (false, d) h aside left = (
    ap (λ (f : Files). f (old_of target)) h ∙ aside,
    LibraryLeft-after_undo far c k why files (false, d) h left,
  )

  drop_both-elsewhere :
      (q : Bytes) (d : Disk)
      → equal q (new_of target) ≡ false
      → equal q (new_of (dll_of target)) ≡ false
      → (drop_both fault dll_of target d).files q ≡ d.files q
  drop_both-elsewhere q d off_exe off_dll =
      remove-Leaves fault (new_of (dll_of target)) (remove fault (new_of target) d) q off_dll
        off_dll
      ∙ remove-Leaves fault (new_of target) d q off_exe off_exe

  module _ (exe lib : ZipEntry) (sums : Sums) (x y : Bytes) (fits : plan ≡ ok (exe, some lib, sums))
      (exe_x : exe.body ≡ some x) (lib_y : lib.body ≡ some y)
      (x_sum : is_sum digest sums.algo (hash_for sums.hashes (to_lower (base_name exe.name))) x
        ≡ true)
      (y_sum : is_sum digest sums.algo (hash_for sums.hashes dll_name) y ≡ true) where
    after_swap_dll-Safe :
        (r : Replaced)
        → IsReplaced (dll_of target) (some k) (some y) r
        → (r.1).files target ≡ some x
        → (r.1).files (old_of target) ≡ some c
        → Safe (after_swap_dll fault dll_of target r)
    after_swap_dll-Safe (none, d) h there aside =
        let whole : IsInstalled digest base_name target (dll_of target) c k exe (some lib) sums d =
          (x, y, exe_x, lib_y, x_sum, y_sum, there, aside, h.0, h.1) in
        (exe, some lib, sums, fits, whole)
    after_swap_dll-Safe (some why, d) h there aside = rw (present-some d aside) (
        after_undo-Safe why d.files (retry_rename fault (old_of target) target d)
          (retry_rename-IsMoved fault (old_of target) target d (apart_of target).old_dest) aside
          (LibraryLeft-IsReplaced (dll_of target) k (some y) why d h))

    after_swap_both-Safe :
        (r : Replaced)
        → IsReplaced target (some c) (some x) r
        → (r.1).files (dll_of target) ≡ some k
        → (r.1).files (new_of (dll_of target)) ≡ some y
        → Safe (after_swap_exe fault dll_of true target r)
    after_swap_both-Safe (none, d) h lib_there lib_new =
        let dll = dll_of target in
        after_swap_dll-Safe (replace_file fault (new_of dll) dll d)
          (replace_file-IsReplaced fault (apart_of dll) k (some y) d lib_there lib_new)
          (replace_file-elsewhere fault (new_of dll) dll target far.here_new far.here_here
              far.here_old d (apart_of dll)
            ∙ h.0)
          (replace_file-elsewhere fault (new_of dll) dll (old_of target) far.old_new far.old_here
              far.old_old d (apart_of dll)
            ∙ h.1)
    after_swap_both-Safe (some why, d) h lib_there lib_new =
        let dll = dll_of target in
        let near = far-flip far in
        let own = apart_of target in
        exe_failed-IsLeft far c k why (some x) d (drop_both fault dll_of target d) h lib_there
          (drop_both-elsewhere target d own.dest_src far.here_new)
          (drop_both-elsewhere (old_of target) d own.old_src far.old_new)
          (drop_both-elsewhere dll d near.here_new (apart_of dll).dest_src)

  module _ (exe : ZipEntry) (sums : Sums) (x : Bytes) (exe_x : exe.body ≡ some x)
      (x_sum : is_sum digest sums.algo (hash_for sums.hashes (to_lower (base_name exe.name))) x
        ≡ true) where
    after_swap_one-Safe :
        (r : Replaced)
        → plan ≡ ok (exe, none, sums)
        → IsReplaced target (some c) (some x) r
        → (r.1).files (dll_of target) ≡ some k
        → Safe (after_swap_exe fault dll_of false target r)
    after_swap_one-Safe (none, d) fits h lib_there =
        let whole : IsInstalled digest base_name target (dll_of target) c k exe none sums d =
          (x, exe_x, x_sum, h.0, h.1, lib_there) in
        (exe, none, sums, fits, whole)
    after_swap_one-Safe (some why, d) fits h lib_there =
        let near = far-flip far in
        let own = apart_of target in
        let gone = remove-Leaves fault (new_of target) d in
        exe_failed-IsLeft far c k why (some x) d (remove fault (new_of target) d) h lib_there
          (gone target own.dest_src own.dest_src) (gone (old_of target) own.old_src own.old_src)
          (gone (dll_of target) near.here_new near.here_new)

    after_dll-Safe :
        (lib : ZipEntry) (files : Files) (r : Option ExtractError × Disk)
        → plan ≡ ok (exe, some lib, sums)
        → IsUnpacked digest lib.body
            (new_of (dll_of target))
            sums.algo
            (hash_for sums.hashes dll_name)
            files
            r
        → files target ≡ some c
        → files (dll_of target) ≡ some k
        → files (new_of target) ≡ some x
        → Safe (after_dll fault dll_of target r)
    after_dll-Safe lib files (some why, d) fits h here lib_there new =
        let near = far-flip far in
        let dll = dll_of target in
        (
          drop_both-elsewhere target d (apart_of target).dest_src far.here_new
              ∙ h target far.here_new far.here_new
              ∙ here,
          drop_both-elsewhere dll d near.here_new (apart_of dll).dest_src
              ∙ h dll (apart_of dll).dest_src (apart_of dll).dest_src
              ∙ lib_there,
        )
    after_dll-Safe lib files (none, d) fits (y, lib_y, y_sum, lib_new, leaves) here lib_there new =
        let near = far-flip far in
        let dll = dll_of target in
        after_swap_both-Safe exe lib sums x y fits exe_x lib_y x_sum y_sum
          (replace_file fault (new_of target) target d)
          (replace_file-IsReplaced fault (apart_of target) c (some x) d
            (leaves target far.here_new far.here_new ∙ here)
            (leaves (new_of target) far.new_new far.new_new ∙ new))
          (replace_file-elsewhere fault (new_of target) target dll near.here_new near.here_here
              near.here_old d (apart_of target)
            ∙ leaves dll (apart_of dll).dest_src (apart_of dll).dest_src
            ∙ lib_there)
          (replace_file-elsewhere fault (new_of target) target (new_of dll) near.new_new
              near.new_here near.new_old d (apart_of target)
            ∙ lib_new)

  after_exe-Safe :
      (exe : ZipEntry) (lib : Option ZipEntry) (sums : Sums) (files : Files)
      (r : Option ExtractError × Disk)
      → plan ≡ ok (exe, lib, sums)
      → IsUnpacked digest exe.body
          (new_of target)
          sums.algo
          (hash_for sums.hashes (to_lower (base_name exe.name)))
          files
          r
      → files target ≡ some c
      → files (dll_of target) ≡ some k
      → Safe (after_exe fault digest base_name dll_of lib sums target r)
  after_exe-Safe exe lib sums files (some why, d) fits h here lib_there =
      let near = far-flip far in
      let own = apart_of target in
      let gone = remove-Leaves fault (new_of target) d in
      (
        gone target own.dest_src own.dest_src ∙ h target own.dest_src own.dest_src ∙ here,
        gone (dll_of target) near.here_new near.here_new
            ∙ h (dll_of target) near.here_new near.here_new
            ∙ lib_there,
      )
  after_exe-Safe exe none sums files (none, d) fits (x, exe_x, x_sum, new, leaves) here lib_there =
      let near = far-flip far in
      let own = apart_of target in
      after_swap_one-Safe exe sums x exe_x x_sum (replace_file fault (new_of target) target d) fits
        (replace_file-IsReplaced fault own c (some x) d
          (leaves target own.dest_src own.dest_src ∙ here) new)
        (replace_file-elsewhere fault (new_of target) target (dll_of target) near.here_new
            near.here_here near.here_old d own
          ∙ leaves (dll_of target) near.here_new near.here_new
          ∙ lib_there)
  after_exe-Safe exe (some lib) sums files (none, d) fits (x, exe_x, x_sum, new, leaves) here
        lib_there =
      let near = far-flip far in
      let own = apart_of target in
      after_dll-Safe exe sums x exe_x x_sum lib d.files
        (extract_to fault digest lib.body (new_of (dll_of target)) sums.algo
          (hash_for sums.hashes dll_name) d)
        fits
        (extract_to-IsUnpacked fault digest lib.body (new_of (dll_of target)) sums.algo
          (hash_for sums.hashes dll_name) d)
        (leaves target own.dest_src own.dest_src ∙ here)
        (leaves (dll_of target) near.here_new near.here_new ∙ lib_there) new

module _ (fault : ℕ → Fault) (digest : Algo → Bytes → Bytes) (base_name dll_of : Bytes → Bytes)
    {target : Bytes} (far : AreFar target (dll_of target)) (c k : Bytes) where
  installed-IsSafe :
      (plan : Outcome ArchiveError (ZipEntry × Option ZipEntry × Sums)) (d : Disk)
      → d.files target ≡ some c
      → d.files (dll_of target) ≡ some k
      → IsSafe digest base_name target
          (dll_of target)
          c
          k
          plan
          (installed fault digest base_name dll_of target d plan)
  unfolding install
  installed-IsSafe panic d here lib_there = (here, lib_there)
  installed-IsSafe stuck d here lib_there = (here, lib_there)
  installed-IsSafe (err e) d here lib_there = (here, lib_there)
  installed-IsSafe (ok (exe, lib, sums)) d here lib_there =
      after_exe-Safe fault digest base_name dll_of far c k (ok (exe, lib, sums)) exe lib sums
        d.files
        (extract_to fault digest exe.body (new_of target) sums.algo
          (hash_for sums.hashes (to_lower (base_name exe.name))) d)
        refl
        (extract_to-IsUnpacked fault digest exe.body (new_of target) sums.algo
          (hash_for sums.hashes (to_lower (base_name exe.name))) d)
        here lib_there

  -- Where the program and its library are there, and whatever the operating system refuses or
  -- breaks off: an `applyZip` that succeeds leaves the program and the library of the archive,
  -- each with the sum that is listed, and the old ones set aside; one that fails leaves the old
  -- program and the old library where they were; and where its error says that putting one of
  -- them back failed too, that one is set aside.
  pub apply_zip-IsSafe :
      (archive : Option (List ZipEntry)) (d : Disk)
      → d.files target ≡ some c
      → d.files (dll_of target) ≡ some k
      → IsSafe digest base_name target
          (dll_of target)
          c
          k
          (read_archive base_name archive)
          (apply_zip fault digest base_name dll_of archive target d)
  unfolding apply_zip
  apply_zip-IsSafe archive d here lib_there =
      installed-IsSafe (read_archive base_name archive) d here lib_there
