-- ===== src/Upgrade/Archive.antt =====
-- ui2/upgrade.go: the entries of an update's archive, and the list of sums in it.
use good_link.Base.{
  none, Bool, ◌||◌, ◌&&◌, Option, [], ℕ, some, ◌∷◌, ◌==◌, false, List, Bytes, if◌then◌else◌,
}
use good_link.Net.{equal}
use good_link.Dict.{Dict, lookup, put}
use good_link.Config.Text.{trim_space, to_lower, contains, is_space}

-- An entry; `none` where opening it fails, or reading it where it is a list of sums. Other entries
-- that cannot be read to the end are written in part (`torn`).
pub record ZipEntry : Type 0 where
  pub name : Bytes
  pub is_dir : Bool
  pub body : Option Bytes

pub record Sources : Type 0 where
  pub exe : Option ZipEntry
  pub dll : Option ZipEntry
  pub sha : Option ZipEntry
  pub md5 : Option ZipEntry

pub data Algo : Type 0 where
  sha256_sum : Algo
  md5_sum : Algo

abbrev pub sha_name : Bytes
sha_name =
    b's' ∷ b'h' ∷ b'a' ∷ b'2' ∷ b'5' ∷ b'6' ∷ b's' ∷ b'u' ∷ b'm' ∷ b'.' ∷ b't' ∷ b'x' ∷ b't' ∷ []

abbrev pub md5_name : Bytes
md5_name = b'm' ∷ b'd' ∷ b'5' ∷ b's' ∷ b'u' ∷ b'm' ∷ b'.' ∷ b't' ∷ b'x' ∷ b't' ∷ []

abbrev pub dll_name : Bytes
dll_name = b'w' ∷ b'i' ∷ b'n' ∷ b't' ∷ b'u' ∷ b'n' ∷ b'.' ∷ b'd' ∷ b'l' ∷ b'l' ∷ []

abbrev pub dot_exe : Bytes
dot_exe = b'.' ∷ b'e' ∷ b'x' ∷ b'e' ∷ []

abbrev pub dot : Bytes
dot = b'.' ∷ []

abbrev pub dot_dot : Bytes
dot_dot = b'.' ∷ b'.' ∷ []

abbrev pub slash : Bytes
slash = b'/' ∷ []

-- `strings.ReplaceAll(name, "\\", "/")`
unfoldable pub slashes : Bytes → Bytes
slashes [] = []
slashes (c ∷ s) = (if c == 0x5c then b'/' else c) ∷ slashes s

-- `strings.HasSuffix`
unfoldable pub has_suffix : Bytes → Bytes → Bool
has_suffix [] suffix = equal [] suffix
has_suffix (c ∷ s) suffix = equal (c ∷ s) suffix || has_suffix s suffix

-- `strings.Split` at one character.
abbrev pub cons_first : ℕ → List Bytes → List Bytes
cons_first c [] = (c ∷ []) ∷ []
cons_first c (s ∷ ss) = (c ∷ s) ∷ ss

unfoldable pub split_at : ℕ → Bytes → List Bytes
split_at c [] = [] ∷ []
split_at c (d ∷ s) = let rest = split_at c s in if d == c then [] ∷ rest else cons_first d rest

-- `strings.Fields`
abbrev pub only_filled : List Bytes → List Bytes
only_filled [] = []
only_filled ([] ∷ ss) = only_filled ss
only_filled ((c ∷ s) ∷ ss) = (c ∷ s) ∷ only_filled ss

unfoldable pub blank_parts : Bytes → List Bytes
blank_parts [] = [] ∷ []
blank_parts (d ∷ s) =
    let rest = blank_parts s in if is_space d then [] ∷ rest else cons_first d rest

unfoldable pub fields : Bytes → List Bytes
fields s = only_filled (blank_parts s)

unfoldable pub has_item : Bytes → List Bytes → Bool
has_item x [] = false
has_item x (y ∷ ys) = equal y x || has_item x ys

abbrev pub starts_with : ℕ → Bytes → Bool
starts_with c [] = false
starts_with c (d ∷ s) = d == c

-- `strings.TrimPrefix` of one character.
abbrev pub trim_prefix : ℕ → Bytes → Bytes
trim_prefix c [] = []
trim_prefix c (d ∷ s) = if d == c then s else d ∷ s

-- `strings.TrimSuffix` of one character.
unfoldable pub trim_suffix : ℕ → Bytes → Bytes
trim_suffix c [] = []
trim_suffix c (d ∷ s) = let rest = trim_suffix c s in if d == c && equal s [] then [] else d ∷ rest

abbrev pub last_of : Bytes → List Bytes → Bytes
last_of x [] = x
last_of x (y ∷ ys) = last_of y ys

-- `filepath.Base` is a function of the library.
module _ (base_name : Bytes → Bytes) where
  unfoldable pub zip_entry_base : Bytes → Option Bytes
  zip_entry_base name =
      let n = slashes name in
      let base = base_name n in
      if equal n [] || starts_with b'/' n || contains b':' n
      then none
      else if has_item dot_dot (split_at b'/' n)
      then none
      else if equal base dot || equal base slash || equal base []
      then none
      else some base

  -- The `switch` of `applyZip`, on the lower case of the base name.
  unfoldable pub note_entry : Bytes → ZipEntry → Sources → Sources
  note_entry base e s =
      if equal base sha_name
      then record s { sha = some e }
      else if equal base md5_name
      then record s { md5 = some e }
      else if equal base dll_name
      then record s { dll = some e }
      else if has_suffix base dot_exe
      then record s { exe = some e }
      else s

  -- The loop of `applyZip` over the entries; `none` where a path is illegal.
  unfoldable pub find_sources : List ZipEntry → Sources → Option Sources
  find_sources [] s = some s
  find_sources (e ∷ es) s =
      let noted : Option Sources = elim (zip_entry_base e.name) [
        | none ↦ none
        | some base ↦ some (note_entry (to_lower base) e s)
      ] in
      elim (if e.is_dir then some s else noted) [ none ↦ none | some next ↦ find_sources es next ]

  -- A line of the list: nothing, or a name and its sum.
  abbrev pub listed : List Bytes → Option (Bytes × Bytes)
  listed [] = none
  listed (sum ∷ []) = none
  listed (sum ∷ x ∷ xs) = some (trim_prefix b'*' (to_lower (base_name (last_of x xs))), sum)

  unfoldable pub sum_line : Bytes → Option (Bytes × Bytes)
  sum_line raw =
      let line = trim_space (trim_suffix 0x0d raw) in
      if equal line [] || starts_with b'#' line then none else listed (fields line)

  abbrev pub put_listed : Option (Bytes × Bytes) → Dict Bytes → Dict Bytes
  put_listed none m = m
  put_listed (some (name, sum)) m = put name sum m

  unfoldable pub sums_from : List Bytes → Dict Bytes → Dict Bytes
  sums_from [] m = m
  sums_from (l ∷ ls) m = sums_from ls (put_listed (sum_line l) m)

  unfoldable pub parse_md5sum_file : Bytes → Dict Bytes
  parse_md5sum_file s = sums_from (split_at 0x0a s) []

abbrev pub dash : Bytes
dash = b'-' ∷ []

-- `hashFor`; `none` is the nil map.
unfoldable pub hash_for : Option (Dict Bytes) → Bytes → Bytes
hash_for none base = []
hash_for (some hashes) base = elim (lookup (to_lower base) hashes) [ some h ↦ h | none ↦ dash ]
