-- ===== src/Config/Services/Apart.antt =====
-- config/uiconfig.go: what `NormalizeAndValidate` makes sure of for two services.
use good_link.Base.{
  ◌≢◌, none, ◌≡◌, All, Bytes, if◌then◌else◌, [], ◌∷◌, ◌⊎◌, List, some, ok, sym, ap, Option-cases,
  arith, Bool-cases, inl, inr, ◌∙◌,
}
use good_link.Dict.{Dict, lookup, put, lookup-put}
use good_link.Net.{equal, equal_iff}
use good_link.Config.Services.{UiForwardRule, UiService, listen_rule_key, forward_mode}
use good_link.Config.Services.Check.{Seen, note_service, check_listens, service_listens}

-- A rule's address is not that of another's.
abbrev IsOther : UiForwardRule → UiForwardRule → Type 0
IsOther r q = listen_rule_key r ≢ listen_rule_key q

abbrev pub listening : UiService → List UiForwardRule
listening s = if equal s.local_mode forward_mode then s.forward_rules else []

-- Two services have nothing in common that has to be unique.
abbrev pub IsApart : UiService → UiService → Type 0
IsApart s t =
    (s.id ≢ t.id)
    × (s.name ≢ t.name)
    × ((t.tun_key ≡ []) ⊎ (s.tun_key ≢ t.tun_key))
    × (s.tun_ip ≢ t.tun_ip)
    × All (λ r. All (IsOther r) (listening t)) (listening s)

abbrev pub Pairwise {ℓ κ} : {A : Type ℓ} → (A → A → Type κ) → List A → Type κ
Pairwise R [] = Unit
Pairwise R (x ∷ xs) = All (R x) xs × Pairwise R xs

-- An address is free, or the service's own.
abbrev IsOwn : Dict Bytes → Bytes → UiForwardRule → Type 0
IsOwn listens id r =
    (lookup (listen_rule_key r) listens ≡ none) ⊎ (lookup (listen_rule_key r) listens ≡ some id)

abbrev pub IsFresh : Seen → UiService → Type 0
IsFresh seen s =
    (lookup s.id seen.ids ≡ none)
    × (lookup s.name seen.names ≡ none)
    × ((s.tun_key ≡ []) ⊎ (lookup s.tun_key seen.keys ≡ none))
    × (lookup s.tun_ip seen.ips ≡ none)
    × All (IsOwn seen.listens s.id) (listening s)

-- What was free after an entry was so before it, and is not the entry's key.
pub lookup-put-none :
    {V : Type 0} (k j : Bytes) (v : V) (m : Dict V)
    → lookup j (put k v m) ≡ none
    → (k ≢ j) × (lookup j m ≡ none)
lookup-put-none k j v m h = ground (arith, lookup-put k j v m, equal_iff k j)

-- The entries that the rules make.
abbrev enter : Bytes → List UiForwardRule → Dict Bytes → Dict Bytes
enter id [] m = m
enter id (r ∷ rs) m = enter id rs (put (listen_rule_key r) id m)

IsOwn-put :
    (m : Dict Bytes) (id : Bytes) (r : UiForwardRule) (qs : List UiForwardRule)
    → IsOwn m id r
    → All (IsOwn (put (listen_rule_key r) id m) id) qs
    → All (IsOwn m id) qs
IsOwn-put m id r [] own h = tt
IsOwn-put m id r (q ∷ qs) own h =
    let k = listen_rule_key r in
    let j = listen_rule_key q in
    (
      elim (Bool-cases (equal k j)) [
        | inl same ↦ rw ((equal_iff k j).0 same) at own
        | inr other ↦ rw (lookup-put k j id m, other) at h.0
      ],
      IsOwn-put m id r qs own h.1,
    )

check_listens-eq-ok :
    (services : List UiService) (s : UiService) (listens : Dict Bytes) (rs : List UiForwardRule)
    {out : Dict Bytes}
    → check_listens services s listens rs ≡ ok out
    → (enter s.id rs listens ≡ out) × All (IsOwn listens s.id) rs
unfolding check_listens
check_listens-eq-ok services s listens [] h = (cc h, tt)
check_listens-eq-ok services s listens (r ∷ rs) {out} h =
    let k = listen_rule_key r in
    let step : IsOwn listens s.id r
        → check_listens services s (put k s.id listens) rs ≡ ok out
        → (enter s.id (r ∷ rs) listens ≡ out) × All (IsOwn listens s.id) (r ∷ rs) =
      λ own rest.
        let (same, owned) = check_listens-eq-ok services s (put k s.id listens) rs rest in
        (same, (own, IsOwn-put listens s.id r rs own owned)) in
    elim (Option-cases (lookup k listens)) [
      | inl free ↦ step (inl free) (rw (check_listens, free) at h)
      | inr (other, taken) ↦ elim (Bool-cases (equal other s.id)) [
        | inl own ↦
            step (inr (taken ∙ ap some ((equal_iff other s.id).0 own)))
              (rw (check_listens, taken, own) at h)
        | inr foreign ↦ absurd (let e = rw (check_listens, taken, foreign) at h in cc e)
      ]
    ]

-- Addresses that a second service may have after a first one entered its own.
IsOwn-past_put :
    (m : Dict Bytes) (id tid k : Bytes) (qs : List UiForwardRule)
    → id ≢ tid
    → All (IsOwn (put k id m) tid) qs
    → All (IsOwn m tid) qs × All (λ q. k ≢ listen_rule_key q) qs
IsOwn-past_put m id tid k [] ne h = (tt, tt)
IsOwn-past_put m id tid k (q ∷ qs) ne h =
    let (rest, apart) = IsOwn-past_put m id tid k qs ne h.1 in
    let j = listen_rule_key q in
    elim (Bool-cases (equal k j)) [
      | inl same ↦ elim (rw (lookup-put k j id m, same) at h.0) [
        | inl missing ↦ cc missing
        | inr owner ↦ absurd (ne (cc owner))
      ]
      | inr other ↦ (
        (rw (lookup-put k j id m, other) at h.0, rest),
        ((λ e. cc ((equal_iff k j).1 e, other)), apart),
      )
    ]

IsOwn-past_enter :
    (m : Dict Bytes) (id tid : Bytes) (rs qs : List UiForwardRule)
    → id ≢ tid
    → All (IsOwn (enter id rs m) tid) qs
    → All (IsOwn m tid) qs × All (λ r. All (IsOther r) qs) rs
IsOwn-past_enter m id tid [] qs ne h = (h, tt)
IsOwn-past_enter m id tid (r ∷ rs) qs ne h =
    let (before, others) = IsOwn-past_enter (put (listen_rule_key r) id m) id tid rs qs ne h in
    let (owned, apart) = IsOwn-past_put m id tid (listen_rule_key r) qs ne before in
    (owned, (apart, others))

pub service_listens-eq-ok :
    (services : List UiService) (s : UiService) (listens : Dict Bytes) {out : Dict Bytes}
    → service_listens services s listens ≡ ok out
    → (enter s.id (listening s) listens ≡ out) × All (IsOwn listens s.id) (listening s)
unfolding service_listens
service_listens-eq-ok services s listens h = elim (Bool-cases (equal s.local_mode forward_mode)) [
  | inl forwards ↦
      rw forwards (
        check_listens-eq-ok services s listens s.forward_rules
          (rw (service_listens, forwards) at h))
  | inr tunnels ↦ rw tunnels (let e = rw (service_listens, tunnels) at h in (cc e, tt))
]

-- The same for the key, which may be blank.
key-past-note :
    (key name other : Bytes) (keys : Dict Bytes)
    → (other ≡ []) ⊎ (lookup other (if equal key [] then keys else put key name keys) ≡ none)
    → ((other ≡ []) ⊎ (lookup other keys ≡ none)) × ((other ≡ []) ⊎ (key ≢ other))
key-past-note key name other keys (inl blank) = (inl blank, inl blank)
key-past-note key name other keys (inr free) = elim (Bool-cases (equal other [])) [
  | inl blank ↦ let e = (equal_iff other []).0 blank in (inl e, inl e)
  | inr filled ↦ elim (Bool-cases (equal key [])) [
    | inl none_noted ↦ (
      inr (rw none_noted at free),
      inr (λ e. cc ((equal_iff other []).1 (sym e ∙ (equal_iff key []).0 none_noted), filled)),
    )
    | inr noted ↦
        let (different, before) = lookup-put-none key other name keys (rw noted at free) in
        (inr before, inr different)
  ]
]

-- What is fresh after a service was noted was so before, and is apart from it.
pub note_service-IsFresh :
    (services : List UiService) (s t : UiService) (seen : Seen) {listens : Dict Bytes}
    → service_listens services s seen.listens ≡ ok listens
    → IsFresh (note_service s listens seen) t
    → IsFresh seen t × IsApart s t
unfolding note_service
note_service-IsFresh services s t seen {listens} h (id, name, key, ip, owns) =
    let (id_other, id_free) = lookup-put-none s.id t.id tt seen.ids id in
    let (name_other, name_free) = lookup-put-none s.name t.name tt seen.names name in
    let (ip_other, ip_free) = lookup-put-none s.tun_ip t.tun_ip tt seen.ips ip in
    let (entered, _) = service_listens-eq-ok services s seen.listens h in
    let (owned, others) =
      IsOwn-past_enter seen.listens s.id t.id (listening s) (listening t) id_other
        (rw (sym entered) at owns) in
    let (key_free, key_other) = key-past-note s.tun_key s.name t.tun_key seen.keys key in
    (
      (id_free, name_free, key_free, ip_free, owned),
      (id_other, name_other, key_other, ip_other, others),
    )
