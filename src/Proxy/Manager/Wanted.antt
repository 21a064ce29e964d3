-- ===== src/Proxy/Manager/Wanted.antt =====
-- Which rules have an entry after `Apply`.
use good_link.Base.{
  All, Option-cases, ℕ, false, Option, ◌⊎◌, refl, inl, List, Bytes, some, ◌++◌, inr, [], ◌∷◌, true,
  ◌≡◌, arith, Bool-cases, none, Bool, ◌∙◌,
}
use good_link.Dict.{Dict, lookup}
use good_link.Net.{equal}
use good_link.Proxy.Manager.{
  ForwardRule, ForwardEntry, Listeners, ForwardManager, apply, new_runner, keep_entry, keep_entries,
  create_new, retarget, wanted_from, close_unwanted, close_runner, has_key,
}
use good_link.Proxy.Manager.Keys.{
  has_key-append, retarget-key, apart, apart_sym, lookup_tail_none, has_key_nil, has_key_one,
  skipped, entered,
}

abbrev pub IsServing : ForwardEntry → Type 0
IsServing e = e.runner.failed ≡ false

abbrev HasKey : Bytes → Option ForwardEntry → Type 0
HasKey key none = Unit
HasKey key (some e) = e.key ≡ key

module _ (listens : ℕ → ForwardRule → Bool) where
  keep_entry-HasKey :
      (quic : Option ℕ) (rule : ForwardRule) (e : ForwardEntry) (l : Listeners)
      → HasKey e.key (keep_entry listens quic rule e l).0
  unfolding keep_entry
  keep_entry-HasKey quic rule e l = elim (Bool-cases e.runner.failed) [
    | inl failed ↦
        elim (Option-cases (new_runner listens rule quic (close_runner e.runner.id l)).0) [
          | inl none_made ↦ rw (failed, none_made) tt
          | inr (r, built) ↦ rw (failed, built) refl
        ]
    | inr serving ↦
        let served : ForwardEntry = record e { runner = record (e.runner) { failed = false } } in
        rw serving (retarget-key rule served)
  ]

  keep_entry_serving :
      (quic : Option ℕ) (rule : ForwardRule) (e : ForwardEntry) (l : Listeners)
      → IsServing e
      → (keep_entry listens quic rule e l).0 ≡ some (retarget rule e)
  unfolding keep_entry
  keep_entry_serving quic rule e l h = rw (keep_entry, h) refl

  keep_entries_unwanted :
      (k : Bytes) (wanted : Dict ForwardRule) (quic : Option ℕ) (es : List ForwardEntry)
      (l : Listeners)
      → lookup k wanted ≡ none
      → has_key k (keep_entries listens wanted quic es l).0 ≡ false
  unfolding keep_entries has_key
  keep_entries_unwanted k wanted quic [] l h = refl
  keep_entries_unwanted k wanted quic (e ∷ es) l h = elim (Option-cases (lookup e.key wanted)) [
    | inl gone ↦ rw (keep_entries, gone) (keep_entries_unwanted k wanted quic es l h)
    | inr (rule, there) ↦
        let (kept, l') = keep_entry listens quic rule e l in
        let rest = keep_entries_unwanted k wanted quic es l' h in
        elim (Option-cases kept) [
          | inl lost ↦ rw (keep_entries, there, lost) rest
          | inr (e', known) ↦
              rw (keep_entries, there, known)
                (let same = rw known at (keep_entry-HasKey quic rule e l) in
                  rw same (rw (apart e.key k rule wanted there h) rest))
        ]
  ]

  keep_entries_serving :
      (k : Bytes) (rule : ForwardRule) (wanted : Dict ForwardRule) (quic : Option ℕ)
      (es : List ForwardEntry) (l : Listeners)
      → All IsServing es
      → lookup k wanted ≡ some rule
      → has_key k es ≡ true
      → has_key k (keep_entries listens wanted quic es l).0 ≡ true
  unfolding keep_entries has_key
  keep_entries_serving k rule wanted quic [] l h w has = has
  keep_entries_serving k rule wanted quic (e ∷ es) l h w has =
      elim (Option-cases (lookup e.key wanted)) [
        | inl gone ↦
            rw (keep_entries, gone)
              (keep_entries_serving k rule wanted quic es l h.1 w
                (rw (apart_sym e.key k rule wanted gone w) at has))
        | inr (r, there) ↦
            rw (keep_entries, there)
              (rw (keep_entry_serving quic r e l h.0) (
                rw (retarget-key r e) (elim (Bool-cases (equal e.key k)) [
                  | inl same ↦ rw same refl
                  | inr other ↦ rw other (
                      keep_entries_serving k rule wanted quic es (keep_entry listens quic r e l).1
                        h.1 w (rw other at has))
                ])))
      ]

  create_new_unwanted :
      (k : Bytes) (existing : List ForwardEntry) (quic : Option ℕ)
      (wanted : List (Bytes × ForwardRule)) (created : List ForwardEntry) (l : Listeners)
      → lookup k wanted ≡ none
      → has_key k created ≡ false
      → has_key k (create_new listens existing quic wanted created l).1 ≡ false
  unfolding create_new lookup
  create_new_unwanted k existing quic [] created l h c = c
  create_new_unwanted k existing quic ((key, rule) ∷ wanted) created l h c =
      let (other, tail) = lookup_tail_none key k rule wanted h in
      elim (Bool-cases (has_key key existing)) [
        | inl old ↦
            rw (create_new, old) (create_new_unwanted k existing quic wanted created l tail c)
        | inr new ↦
            let (built, l') = new_runner listens rule quic l in
            elim (Option-cases built) [
              | inl none_made ↦ rw (create_new, new, none_made) (has_key_nil k)
              | inr (r, known) ↦
                  let more = created ++ record { key = key; rule = rule; runner = r } ∷ [] in
                  rw (create_new, new, known)
                    (create_new_unwanted k existing quic wanted more l' tail
                      (has_key_one k key rule r created ∙ rw (c, other) refl))
            ]
      ]

  create_new_wanted :
      (k : Bytes) (rule : ForwardRule) (existing : List ForwardEntry) (quic : Option ℕ)
      (wanted : List (Bytes × ForwardRule)) (created : List ForwardEntry) (l : Listeners)
      → has_key k existing ≡ false
      → (lookup k wanted ≡ some rule) ⊎ (has_key k created ≡ true)
      → (create_new listens existing quic wanted created l).0 ≡ true
      → has_key k (create_new listens existing quic wanted created l).1 ≡ true
  unfolding create_new lookup
  create_new_wanted k rule existing quic [] created l new (inl h) fine = absurd (ground arith)
  create_new_wanted k rule existing quic [] created l new (inr h) fine = h
  create_new_wanted k rule existing quic ((key, r) ∷ wanted) created l new h fine =
      elim (Bool-cases (has_key key existing)) [
        | inl old ↦
            rw (create_new, old)
              (create_new_wanted k rule existing quic wanted created l new
                (skipped key k r rule existing wanted created old new h)
                (rw (create_new, old) at fine))
        | inr absent ↦
            let (built, l') = new_runner listens r quic l in
            elim (Option-cases built) [
              | inl none_made ↦
                  absurd (let no = rw (create_new, absent, none_made) at fine in cc no)
              | inr (u, known) ↦
                  let more = created ++ record { key = key; rule = r; runner = u } ∷ [] in
                  rw (create_new, absent, known)
                    (create_new_wanted k rule existing quic wanted more l' new
                      (entered key k r rule u wanted created h)
                      (rw (create_new, absent, known) at fine))
            ]
      ]

  -- An open manager has no entry after `Apply` for a key that no rule has.
  apply_unwanted :
      (k : Bytes) (rules : List ForwardRule) (m : ForwardManager)
      → m.closed ≡ false
      → lookup k (wanted_from [] rules) ≡ none
      → has_key k (apply listens rules m).1.entries ≡ false
  unfolding apply
  apply_unwanted k rules m open_still h =
      let wanted = wanted_from [] rules in
      let l = close_unwanted listens wanted m.entries m.listeners in
      let (kept, l') = keep_entries listens wanted m.quic m.entries l in
      let new = create_new listens m.entries m.quic wanted [] l' in
      let none_kept = keep_entries_unwanted k wanted m.quic m.entries l h in
      let none_new = create_new_unwanted k m.entries m.quic wanted [] l' h (has_key_nil k) in
      rw (apply, open_still) (has_key-append k kept new.1 ∙ rw (none_kept, none_new) refl)

  -- Where no listener has failed and `Apply` returns nil, an open manager has an entry for each
  -- rule.
  pub apply_wanted :
      (k : Bytes) (rule : ForwardRule) (rules : List ForwardRule) (m : ForwardManager)
      → m.closed ≡ false
      → All IsServing m.entries
      → lookup k (wanted_from [] rules) ≡ some rule
      → (apply listens rules m).0 ≡ true
      → has_key k (apply listens rules m).1.entries ≡ true
  unfolding apply
  apply_wanted k rule rules m open_still serving h fine =
      let wanted = wanted_from [] rules in
      let l = close_unwanted listens wanted m.entries m.listeners in
      let (kept, l') = keep_entries listens wanted m.quic m.entries l in
      let new = create_new listens m.entries m.quic wanted [] l' in
      rw (apply, open_still)
        (has_key-append k kept new.1 ∙ elim (Bool-cases (has_key k m.entries)) [
          | inl old ↦ rw (keep_entries_serving k rule wanted m.quic m.entries l serving h old) refl
          | inr absent ↦
              let made =
                create_new_wanted k rule m.entries m.quic wanted [] l' absent (inl h)
                  (rw (apply, open_still) at fine) in
              rw made (ground arith)
        ])
