-- ===== src/Config/Tests.antt =====
-- Versions at work.
use good_link.Base.{refl, ◌≡◌, true, [], ◌↔◌, ◌∷◌, Bytes, ◌-◌, ℕ, ◌+◌, false, Bool, none, Option}
use good_link.Config.Version.{
  versions_compatible, split_dots, compatible_segments, line, versions_compatible_iff,
}
use good_link.Net.{equal}
use good_link.Config.Args.{SelfUpdate}

abbrev old : Bytes
old = 49 ∷ 46 ∷ 50 ∷ 46 ∷ 51 ∷ []

abbrev new : Bytes
new = 49 ∷ 46 ∷ 50 ∷ 46 ∷ 57 ∷ []

same_release : versions_compatible old new ≡ true
unfolding versions_compatible split_dots compatible_segments equal
same_release = refl

versions_compatible_iff_example : (versions_compatible old new ≡ true) ↔ (line old ≡ line new)
versions_compatible_iff_example = versions_compatible_iff old new

-- One digit is enough for the number of this process.
abbrev digit : ℕ → Bytes
digit n = (48 + n) ∷ []

abbrev from_digit : Bytes → ℕ
from_digit [] = 0
from_digit (c ∷ _) = c - 48

abbrev unset : SelfUpdate
unset = record { zip_path = []; wait_pid = 0; target = []; ok = false }

abbrev no_bool : Bytes → Option Bool
no_bool _ = none
