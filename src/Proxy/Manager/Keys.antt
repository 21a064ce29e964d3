-- ===== src/Proxy/Manager/Keys.antt =====
-- The keys of the entries and of the rules.
use good_link.Base.{
  ◌++◌, none, arith, ◌||◌, ap, List, ◌∙◌, ◌≡◌, true, ◌⊎◌, false, Bool-cases, inl, some, Bytes, refl,
  ◌∷◌, [], inr,
}
use good_link.Dict.{Dict, lookup}
use good_link.Net.{equal, equal_iff}
use good_link.Proxy.Manager.{ForwardRule, Runner, ForwardEntry, retarget, has_key}

pub has_key-append :
    (k : Bytes) (xs ys : List ForwardEntry) → has_key k (xs ++ ys) ≡ (has_key k xs || has_key k ys)
unfolding has_key
has_key-append k [] ys = refl
has_key-append k (x ∷ xs) ys = ground (arith, has_key-append k xs ys)

pub retarget-key : (rule : ForwardRule) (e : ForwardEntry) → (retarget rule e).key ≡ e.key
unfolding retarget
retarget-key rule e = ground arith

pub apart :
    (j k : Bytes) (r : ForwardRule) (m : Dict ForwardRule)
    → lookup j m ≡ some r
    → lookup k m ≡ none
    → equal j k ≡ false
apart j k r m there gone = elim (Bool-cases (equal j k)) [
  | inl same ↦ let e = rw ((equal_iff j k).0 same) at there in absurd (cc (e, gone))
  | inr other ↦ other
]

pub apart_sym :
    (j k : Bytes) (r : ForwardRule) (m : Dict ForwardRule)
    → lookup j m ≡ none
    → lookup k m ≡ some r
    → equal j k ≡ false
apart_sym j k r m gone there = elim (Bool-cases (equal j k)) [
  | inl same ↦ let e = rw ((equal_iff j k).0 same) at gone in absurd (cc (e, there))
  | inr other ↦ other
]

pub lookup_tail_none :
    (j k : Bytes) (r : ForwardRule) (m : Dict ForwardRule)
    → lookup k ((j, r) ∷ m) ≡ none
    → (equal j k ≡ false) × (lookup k m ≡ none)
unfolding lookup
lookup_tail_none j k r m h = ground arith

pub lookup_tail_some :
    (j k : Bytes) (r v : ForwardRule) (m : Dict ForwardRule)
    → lookup k ((j, r) ∷ m) ≡ some v
    → (equal j k ≡ true) ⊎ (lookup k m ≡ some v)
unfolding lookup
lookup_tail_some j k r v m h = ground arith

pub has_key_nil : (k : Bytes) → has_key k [] ≡ false
unfolding has_key
has_key_nil k = refl

pub has_key_one :
    (k j : Bytes) (rule : ForwardRule) (r : Runner) (es : List ForwardEntry)
    → has_key k (es ++ record { key = j; rule = rule; runner = r } ∷ [])
      ≡ (has_key k es || equal j k)
unfolding has_key
has_key_one k j rule r [] = ground arith
has_key_one k j rule r (e ∷ es) = ground (arith, has_key_one k j rule r es)

pub has_key_same :
    (j k : Bytes) (es : List ForwardEntry) → equal j k ≡ true → has_key j es ≡ has_key k es
has_key_same j k es same = ap (λ i. has_key i es) ((equal_iff j k).0 same)

-- What is still to be found, when the rule at the head has an entry already, and when it gets one.
pub skipped :
    (j k : Bytes) (r rule : ForwardRule) (existing : List ForwardEntry) (wanted : Dict ForwardRule)
    (created : List ForwardEntry)
    → has_key j existing ≡ true
    → has_key k existing ≡ false
    → (lookup k ((j, r) ∷ wanted) ≡ some rule) ⊎ (has_key k created ≡ true)
    → (lookup k wanted ≡ some rule) ⊎ (has_key k created ≡ true)
skipped j k r rule existing wanted created old new (inr c) = inr c
skipped j k r rule existing wanted created old new (inl l) =
    elim (lookup_tail_some j k r rule wanted l) [
      | inl same ↦ let e = has_key_same j k existing same in absurd (cc (e, old, new))
      | inr tail ↦ inl tail
    ]

pub entered :
    (j k : Bytes) (r rule : ForwardRule) (u : Runner) (wanted : Dict ForwardRule)
    (created : List ForwardEntry)
    → (lookup k ((j, r) ∷ wanted) ≡ some rule) ⊎ (has_key k created ≡ true)
    → (lookup k wanted ≡ some rule)
      ⊎ (has_key k (created ++ record { key = j; rule = r; runner = u } ∷ []) ≡ true)
entered j k r rule u wanted created (inr c) = inr (has_key_one k j r u created ∙ rw c refl)
entered j k r rule u wanted created (inl l) = elim (lookup_tail_some j k r rule wanted l) [
  | inl same ↦ inr (has_key_one k j r u created ∙ ground arith)
  | inr tail ↦ inl tail
]
