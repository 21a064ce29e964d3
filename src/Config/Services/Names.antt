-- ===== src/Config/Services/Names.antt =====
-- config/uiconfig.go: the names that `normalizeServiceName` gives.
use good_link.Base.{
  inr, ok, ◌<◌, ℕ, ◌≡◌, Outcome, zero, suc, false, arith, Bool-cases, drop, Option-cases, Bytes,
  none, refl, inl, ap, ◌∙◌, ◌≤◌, [], sym, ◌≢◌, length, fail_if-eq-ok, ◌>>◌, fail_if, ◌⊎◌, ltb,
}
use good_link.Dict.{Dict, lookup, delete, lookup-delete, length-delete-some}
use good_link.Net.{equal, equal_iff}
use good_link.Config.Text.{itoa_injective}
use good_link.Config.Services.{
  ConfigError, service_label, trim_space, long_name, control_in_name, duplicate_name,
}
use good_link.Config.Services.Check.{
  Names, is_in, free_label, normalize_service_name, check_name, any_control,
}

pub is_in-false : {V : Type 0} (k : Bytes) (m : Dict V) → is_in k m ≡ false → lookup k m ≡ none
unfolding is_in
is_in-false k m h = elim (Option-cases (lookup k m)) [
  | inl none_there ↦ none_there
  | inr (v, there) ↦ absurd (let same = rw (is_in, there) at h in cc same)
]

-- Lists of numbers that differ in the tail differ.
label_injective : (n k : ℕ) → service_label n ≡ service_label k → n ≡ k
label_injective n k h = itoa_injective n k (ap (drop 2) h)

-- Whether a label below `n` that is not in the map is not in the smaller one.
label-delete :
    (n k : ℕ) (used : Names)
    → n < k
    → is_in (service_label k) (delete (service_label n) used) ≡ is_in (service_label k) used
unfolding is_in
label-delete n k used h = elim (Bool-cases (equal (service_label n) (service_label k))) [
  | inl same ↦
      absurd (
        omega (arith, label_injective n k ((equal_iff (service_label n) (service_label k)).0 same)))
  | inr other ↦ rw (is_in, lookup-delete (service_label n) (service_label k) used, other) refl
]

free_label-delete :
    (fuel n k : ℕ) (used : Names)
    → n < k
    → free_label fuel k (delete (service_label n) used) ≡ free_label fuel k used
unfolding free_label
free_label-delete zero n k used h = refl
free_label-delete (suc fuel) n k used h =
    rw (free_label, label-delete n k used h, free_label-delete fuel n (suc k) used (omega arith))
      refl

abbrev IsFreeFrom : ℕ → Names → Outcome ConfigError Bytes → Type 0
IsFreeFrom n used r =
    (m : ℕ) × (n ≤ m) × (r ≡ ok (service_label m)) × (lookup (service_label m) used ≡ none)

pub free_label-IsFreeFrom :
    (fuel n : ℕ) (used : Names) → length used < fuel → IsFreeFrom n used (free_label fuel n used)
unfolding free_label is_in
free_label-IsFreeFrom zero n used h = absurd (omega arith)
free_label-IsFreeFrom (suc fuel) n used h = elim (Option-cases (lookup (service_label n) used)) [
  | inl free ↦ (n, omega arith, rw (free_label, is_in, free) refl, free)
  | inr (v, taken) ↦
      let less = delete (service_label n) used in
      let shorter = length-delete-some (service_label n) v used taken in
      let (m, later, found, free) =
        free_label-IsFreeFrom fuel (suc n) less (omega (arith, shorter)) in
      let distinct : is_in (service_label m) less ≡ is_in (service_label m) used =
        label-delete n m used (omega (arith, later)) in
      (
        m,
        omega (arith, later),
        rw (free_label, is_in, taken)
            (sym (free_label-delete fuel n (suc n) used (omega arith)) ∙ found),
        is_in-false (service_label m) used (sym distinct ∙ rw (is_in, free) refl),
      )
]

-- A name that the user wrote, or one that the program made.
abbrev pub IsName : Bytes → Type 0
IsName s =
    (s ≢ []) × (((length s ≤ 32) × (any_control s ≡ false)) ⊎ ((m : ℕ) × (s ≡ service_label m)))

check_name-eq-ok :
    (name : Bytes) (used : Names) {out : Bytes}
    → check_name name used ≡ ok out
    → (name ≡ out) × (length name ≤ 32) × (any_control name ≡ false) × (lookup name used ≡ none)
unfolding check_name
check_name-eq-ok name used h =
    let (short, h1) =
      fail_if-eq-ok (ltb 32 (length name)) (long_name name)
        (fail_if (any_control name) control_in_name
          >> (fail_if (is_in name used) (duplicate_name name) >> ok name))
        h in
    let (plain, h2) =
      fail_if-eq-ok (any_control name) control_in_name
        (fail_if (is_in name used) (duplicate_name name) >> ok name) h1 in
    let (free, h3) = fail_if-eq-ok (is_in name used) (duplicate_name name) (ok name) h2 in
    (cc h3, ground (arith, short), plain, is_in-false name used free)

pub normalize_service_name-eq-ok :
    (name : Bytes) (used : Names) (i : ℕ) {out : Bytes}
    → normalize_service_name name used i ≡ ok out
    → (lookup out used ≡ none) × IsName out
unfolding normalize_service_name
normalize_service_name-eq-ok name used i {out} h = elim (Bool-cases (equal (trim_space name) [])) [
  | inl blank ↦
      let (m, later, found, free) =
        free_label-IsFreeFrom (suc (length used)) (suc i) used (omega arith) in
      let given = rw (normalize_service_name, blank, found) at h in
      let same : service_label m ≡ out = cc given in
      (rw (sym same) free, ((λ e. cc (same, e)), inr (m, sym same)))
  | inr written ↦
      let given = rw (normalize_service_name, written) at h in
      let (same, short, plain, free) = check_name-eq-ok (trim_space name) used given in
      let filled : trim_space name ≢ [] = λ e. cc ((equal_iff (trim_space name) []).1 e, written) in
      rw (sym same) (free, (filled, inl (short, plain)))
]

-- The search for a free name ends: a blank name is replaced by a label with a number behind the
-- index that no service before has, whatever names there are.
pub normalize_service_name-blank :
    (name : Bytes) (used : Names) (i : ℕ)
    → trim_space name ≡ []
    → (m : ℕ) × (i < m)
      × (normalize_service_name name used i ≡ ok (service_label m))
      × (lookup (service_label m) used ≡ none)
unfolding normalize_service_name
normalize_service_name-blank name used i h =
    let (m, later, found, free) =
      free_label-IsFreeFrom (suc (length used)) (suc i) used (omega arith) in
    (
      m,
      omega (arith, later),
      rw (normalize_service_name, (equal_iff (trim_space name) []).1 h) found,
      free,
    )
