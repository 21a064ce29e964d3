-- ===== src/Proxy/Manager/Owned.antt =====
-- Each listener that is open belongs to one entry, or is that of the built-in proxy.
use good_link.Base.{
  some, ◌≤◌, arith, Option, [], ◌∷◌, List, ◌≡◌, none, if◌then◌else◌, ◌<◌, ℕ, ◌⊎◌, ◌+◌, Bool, ◌==◌,
  Bool-cases, inr, inl, Option-cases, ◌++◌, false, Bytes,
}
use good_link.Dict.{Dict, lookup}
use good_link.Proxy.Sessions.Table.{count}
use good_link.Proxy.Manager.{
  ForwardRule, Runner, ForwardEntry, Listeners, new_runner, keep_entry, keep_entries, create_new,
  retarget, close_unwanted, has_key, close_runner, remove, close_entries,
}

abbrev pub ids : List ForwardEntry → List ℕ
ids [] = []
ids (e ∷ es) = e.runner.id ∷ ids es

abbrev pub builtin_ids : Option Runner → List ℕ
builtin_ids none = []
builtin_ids (some r) = r.id ∷ []

-- Of the number `x`: it is used up or not live, it is live once at most, and is it live as often
-- as it is owned.
abbrev pub IsOwned : ℕ → ℕ → Listeners → Type 0
IsOwned x n l = (n ≡ count x l.live) × (n ≤ 1) × ((x < l.tried) ⊎ (n ≡ 0))

-- Closing a runner takes it from the live ones; any other stays.
count-remove :
    (x id : ℕ) (ms : List ℕ) → count x (remove id ms) ≡ (if id == x then 0 else count x ms)
count-remove x id [] = ground arith
count-remove x id (m ∷ ms) = ground (arith, count-remove x id ms)

pub close_runner-IsOwned :
    (x id n : ℕ) (l : Listeners)
    → IsOwned x ((if id == x then 1 else 0) + n) l
    → IsOwned x n (close_runner id l)
close_runner-IsOwned x id n l h = ground (arith, count-remove x id l.live)

pub recount : (x n k : ℕ) (l : Listeners) → n ≡ k → IsOwned x n l → IsOwned x k l
recount x n k l e h = rw e at h

pub close_entries-IsOwned :
    (x n : ℕ) (es : List ForwardEntry) (l : Listeners)
    → IsOwned x (count x (ids es) + n) l
    → IsOwned x n (close_entries es l)
close_entries-IsOwned x n [] l h = recount x (0 + n) n l (omega arith) h
close_entries-IsOwned x n (e ∷ es) l h = close_entries-IsOwned x n es (close_runner e.runner.id l) (
    close_runner-IsOwned x e.runner.id (count x (ids es) + n) l (
      recount x (count x (ids (e ∷ es)) + n)
        ((if e.runner.id == x then 1 else 0) + (count x (ids es) + n)) l (omega arith) h))

pub ids-append :
    (x : ℕ) (es fs : List ForwardEntry)
    → count x (ids (es ++ fs)) ≡ count x (ids es) + count x (ids fs)
ids-append x [] fs = omega arith
ids-append x (e ∷ es) fs = omega (arith, ids-append x es fs)

abbrev kept_ids : Option ForwardEntry → List ℕ
kept_ids none = []
kept_ids (some e) = e.runner.id ∷ []

-- How often the entries own `x` that the first loop leaves open.
abbrev pub wanted_count : ℕ → Dict ForwardRule → List ForwardEntry → ℕ
wanted_count x wanted [] = 0
wanted_count x wanted (e ∷ es) =
    (elim (lookup e.key wanted) [ none ↦ 0 | some _ ↦ if e.runner.id == x then 1 else 0 ])
    + wanted_count x wanted es

retarget-id : (rule : ForwardRule) (e : ForwardEntry) → (retarget rule e).runner.id ≡ e.runner.id
unfolding retarget
retarget-id rule e = ground arith

module _ (listens : ℕ → ForwardRule → Bool) where
  pub new_runner-IsOwned :
      (x n : ℕ) (rule : ForwardRule) (quic : Option ℕ) (l : Listeners)
      → IsOwned x n l
      → IsOwned x
          (count x (builtin_ids (new_runner listens rule quic l).0) + n)
          (new_runner listens rule quic l).1
  unfolding new_runner
  new_runner-IsOwned x n rule quic l h = ground arith

  pub close_unwanted-IsOwned :
      (x n : ℕ) (wanted : Dict ForwardRule) (es : List ForwardEntry) (l : Listeners)
      → IsOwned x (count x (ids es) + n) l
      → IsOwned x (wanted_count x wanted es + n) (close_unwanted listens wanted es l)
  unfolding close_unwanted
  close_unwanted-IsOwned x n wanted [] l h = h
  close_unwanted-IsOwned x n wanted (e ∷ es) l h =
      let one : ℕ = if e.runner.id == x then 1 else 0 in
      elim (Option-cases (lookup e.key wanted)) [
        | inl gone ↦
            let l' = close_runner e.runner.id l in
            rw (close_unwanted, gone)
              (recount x (wanted_count x wanted es + n) (0 + wanted_count x wanted es + n)
                (close_unwanted listens wanted es l') (omega arith)
                (close_unwanted-IsOwned x n wanted es l' (
                  close_runner-IsOwned x e.runner.id (count x (ids es) + n) l (
                    recount x (count x (ids (e ∷ es)) + n) (one + (count x (ids es) + n)) l
                      (omega arith) h))))
        | inr (rule, there) ↦
            rw (close_unwanted, there)
              (recount x (wanted_count x wanted es + (one + n)) (one + wanted_count x wanted es + n)
                (close_unwanted listens wanted es l) (omega arith)
                (close_unwanted-IsOwned x (one + n) wanted es l (
                  recount x (count x (ids (e ∷ es)) + n) (count x (ids es) + (one + n)) l
                    (omega arith) h)))
      ]

  keep_entry-IsOwned :
      (x n : ℕ) (quic : Option ℕ) (rule : ForwardRule) (e : ForwardEntry) (l : Listeners)
      → IsOwned x ((if e.runner.id == x then 1 else 0) + n) l
      → IsOwned x
          (count x (kept_ids (keep_entry listens quic rule e l).0) + n)
          (keep_entry listens quic rule e l).1
  unfolding keep_entry
  keep_entry-IsOwned x n quic rule e l h = elim (Bool-cases e.runner.failed) [
    | inl failed ↦
        let l' = close_runner e.runner.id l in
        let shut = close_runner-IsOwned x e.runner.id n l h in
        let new = new_runner-IsOwned x n rule quic l' shut in
        elim (Option-cases (new_runner listens rule quic l').0) [
          | inl none_made ↦ rw (failed, none_made) (rw none_made at new)
          | inr (r, built) ↦ rw (failed, built) (rw built at new)
        ]
    | inr serving ↦
        let served : ForwardEntry = record e { runner = record (e.runner) { failed = false } } in
        rw serving (
          rw (retarget-id rule served) (
            recount x ((if e.runner.id == x then 1 else 0) + n)
              ((if e.runner.id == x then 1 else 0) + 0 + n) l (omega arith) h))
  ]

  pub keep_entries-IsOwned :
      (x n : ℕ) (wanted : Dict ForwardRule) (quic : Option ℕ) (es : List ForwardEntry)
      (l : Listeners)
      → IsOwned x (wanted_count x wanted es + n) l
      → IsOwned x
          (count x (ids (keep_entries listens wanted quic es l).0) + n)
          (keep_entries listens wanted quic es l).1
  unfolding keep_entries
  keep_entries-IsOwned x n wanted quic [] l h = h
  keep_entries-IsOwned x n wanted quic (e ∷ es) l h =
      let one : ℕ = if e.runner.id == x then 1 else 0 in
      elim (Option-cases (lookup e.key wanted)) [
        | inl gone ↦
            rw (keep_entries, gone)
              (keep_entries-IsOwned x n wanted quic es l (
                recount x (0 + wanted_count x wanted es + n) (wanted_count x wanted es + n) l
                  (omega arith) (rw gone at h)))
        | inr (rule, there) ↦
            let (kept, l') = keep_entry listens quic rule e l in
            let more = count x (kept_ids kept) in
            let (next, l'') = keep_entries listens wanted quic es l' in
            let here = keep_entry-IsOwned x (wanted_count x wanted es + n) quic rule e l (
              recount x (one + wanted_count x wanted es + n) (one + (wanted_count x wanted es + n))
                l (omega arith) (rw there at h)) in
            let rest = keep_entries-IsOwned x (more + n) wanted quic es l' (
              recount x (more + (wanted_count x wanted es + n))
                (wanted_count x wanted es + (more + n)) l' (omega arith) here) in
            elim (Option-cases kept) [
              | inl lost ↦
                  rw (keep_entries, there, lost)
                    (recount x (count x (ids next) + (0 + n)) (count x (ids next) + n) l''
                      (omega arith) (rw lost at rest))
              | inr (k, known) ↦
                  rw (keep_entries, there, known)
                    (recount x (count x (ids next) + (count x (k.runner.id ∷ []) + n))
                      (count x (k.runner.id ∷ ids next) + n) l'' (omega arith) (rw known at rest))
            ]
      ]

  pub create_new-IsOwned :
      (x n : ℕ) (existing : List ForwardEntry) (quic : Option ℕ)
      (wanted : List (Bytes × ForwardRule)) (created : List ForwardEntry) (l : Listeners)
      → IsOwned x (count x (ids created) + n) l
      → IsOwned x
          (count x (ids (create_new listens existing quic wanted created l).1) + n)
          (create_new listens existing quic wanted created l).2
  unfolding create_new
  create_new-IsOwned x n existing quic [] created l h = h
  create_new-IsOwned x n existing quic ((key, rule) ∷ wanted) created l h =
      elim (Bool-cases (has_key key existing)) [
        | inl old ↦ rw (create_new, old) (create_new-IsOwned x n existing quic wanted created l h)
        | inr absent ↦
            let (built, l') = new_runner listens rule quic l in
            let new = new_runner-IsOwned x (count x (ids created) + n) rule quic l h in
            elim (Option-cases built) [
              | inl none_made ↦
                  rw (create_new, absent, none_made)
                    (recount x n (0 + n) (close_entries created l') (omega arith) (
                      close_entries-IsOwned x n created l' (
                        recount x (0 + (count x (ids created) + n)) (count x (ids created) + n) l'
                          (omega arith) (rw none_made at new))))
              | inr (r, known) ↦
                  let entry : ForwardEntry = record { key = key; rule = rule; runner = r } in
                  rw (create_new, absent, known)
                    (create_new-IsOwned x n existing quic wanted (created ++ entry ∷ []) l' (
                      recount x (count x (builtin_ids (some r)) + (count x (ids created) + n))
                        (count x (ids (created ++ entry ∷ [])) + n) l'
                        (omega (arith, ids-append x created (entry ∷ []))) (rw known at new)))
            ]
      ]
