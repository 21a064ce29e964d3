-- ===== src/Config/Version.antt =====
-- config/version.go: `VersionsCompatible`.
use good_link.Base.{
  ◌≡◌, arith, ◌&&◌, ◌==◌, [], Bool, refl, List, ◌∷◌, if◌then◌else◌, ◌↔◌, true, Bytes, ap,
}
use good_link.Net.{equal, equal_iff}

-- `strings.Split(s, ".")`; a text without a dot is one segment.
unfoldable pub split_dots : Bytes → List Bytes
split_dots [] = [] ∷ []
split_dots (c ∷ s) =
    let rest = split_dots s in
    if c == 46 then [] ∷ rest else elim rest [ [] ↦ (c ∷ []) ∷ [] | p ∷ ps ↦ (c ∷ p) ∷ ps ]

-- The test on the segments of both.
unfoldable pub compatible_segments : List Bytes → List Bytes → Bytes → Bytes → Bool
unfolding equal
compatible_segments (a0 ∷ a1 ∷ _) (b0 ∷ b1 ∷ _) a b = equal a0 b0 && equal a1 b1
compatible_segments _ _ a b = equal a b

unfoldable pub versions_compatible : Bytes → Bytes → Bool
unfolding split_dots compatible_segments
versions_compatible a b = compatible_segments (split_dots a) (split_dots b) a b

-- What a version is known by: its first two segments, or all of it.
pub data Line : Type 0 where
  release : Bytes → Bytes → Line
  whole : Bytes → Line

abbrev pub line_of : List Bytes → Bytes → Line
line_of (p ∷ q ∷ _) a = release p q
line_of _ a = whole a

abbrev pub line : Bytes → Line
line a = line_of (split_dots a) a

segments-line :
    (ps qs : List Bytes) (a b : Bytes)
    → ps ≡ split_dots a
    → qs ≡ split_dots b
    → (compatible_segments ps qs a b ≡ true) ↔ (line_of ps a ≡ line_of qs b)
unfolding compatible_segments
segments-line (p0 ∷ p1 ∷ ps) (q0 ∷ q1 ∷ qs) a b h k =
    ground (arith, equal_iff p0 q0, equal_iff p1 q1)
segments-line (p0 ∷ p1 ∷ ps) (q0 ∷ []) a b h k = (
  λ e. absurd (let same = ap split_dots ((equal_iff a b).0 e) in cc (h, k, same)),
  λ e. absurd (cc e),
)
segments-line (p0 ∷ p1 ∷ ps) [] a b h k = (
  λ e. absurd (let same = ap split_dots ((equal_iff a b).0 e) in cc (h, k, same)),
  λ e. absurd (cc e),
)
segments-line (p0 ∷ []) (q0 ∷ q1 ∷ qs) a b h k = (
  λ e. absurd (let same = ap split_dots ((equal_iff a b).0 e) in cc (h, k, same)),
  λ e. absurd (cc e),
)
segments-line [] (q0 ∷ q1 ∷ qs) a b h k = (
  λ e. absurd (let same = ap split_dots ((equal_iff a b).0 e) in cc (h, k, same)),
  λ e. absurd (cc e),
)
segments-line (p0 ∷ []) (q0 ∷ []) a b h k = ground (arith, equal_iff a b)
segments-line (p0 ∷ []) [] a b h k = ground (arith, equal_iff a b)
segments-line [] (q0 ∷ []) a b h k = ground (arith, equal_iff a b)
segments-line [] [] a b h k = ground (arith, equal_iff a b)

-- Two versions are compatible exactly where their first two segments are the same, or, for a
-- version with fewer segments, where they are the same text.
pub versions_compatible_iff : (a b : Bytes) → (versions_compatible a b ≡ true) ↔ (line a ≡ line b)
unfolding versions_compatible
versions_compatible_iff a b = segments-line (split_dots a) (split_dots b) a b refl refl
