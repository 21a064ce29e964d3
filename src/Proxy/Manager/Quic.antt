-- ===== src/Proxy/Manager/Quic.antt =====
-- Each runner of a `ForwardManager` has the manager's tunnel.
use good_link.Base.{
  Option, ◌++◌, refl, some, ◌∷◌, [], Bytes, arith, ◌≡◌, Bool, ℕ, All, none, List, Option-cases, inr,
  Bool-cases, inl, ◌∙◌, false, true,
}
use good_link.Dict.{Dict, lookup}
use good_link.Proxy.Manager.Steps.{
  mark_failed, ManagerReach, ManagerStep, at_new, after, applied, connected, started_builtin,
  stopped_builtin, ended, closes,
}
use good_link.Net.{equal}
use good_link.Proxy.Header.{proxy_port}
use good_link.Proxy.Manager.Builtin.{
  builtin_rule, start_anywhere, start_preferred, start_new, start_over, start_unless,
  start_builtin_proxy,
}
use good_link.Proxy.Manager.{
  wanted_from, close_unwanted, has_key, close_runner, ForwardRule, Runner, ForwardEntry, Listeners,
  ForwardManager, apply, set_quic, new_runner, keep_entry, keep_entries, create_new, retarget,
  set_entries_quic, set_runner_quic, stop_builtin_proxy, close_manager,
}

abbrev pub IsOn : Option ℕ → ForwardEntry → Type 0
IsOn quic e = e.runner.quic ≡ quic

abbrev pub IsOnBuiltin : Option ℕ → Option Runner → Type 0
IsOnBuiltin quic none = Unit
IsOnBuiltin quic (some r) = r.quic ≡ quic

abbrev pub IsConnected : ForwardManager → Type 0
IsConnected m = All (IsOn m.quic) m.entries × IsOnBuiltin m.quic m.builtin

abbrev IsOnKept : Option ℕ → Option ForwardEntry → Type 0
IsOnKept quic none = Unit
IsOnKept quic (some e) = IsOn quic e

append-All {ℓ} :
    {A : Type ℓ} (P : A → Type 0) (xs ys : List A) → All P xs → All P ys → All P (xs ++ ys)
append-All P [] ys h k = k
append-All P (x ∷ xs) ys h k = (h.0, append-All P xs ys h.1 k)

set_entries_quic-All :
    (conn : Option ℕ) (es : List ForwardEntry) → All (IsOn conn) (set_entries_quic conn es)
set_entries_quic-All conn [] = tt
set_entries_quic-All none (e ∷ es) = (refl, set_entries_quic-All none es)
set_entries_quic-All (some c) (e ∷ es) = (refl, set_entries_quic-All (some c) es)

module _ (listens : ℕ → ForwardRule → Bool) where
  new_runner-quic :
      (rule : ForwardRule) (quic : Option ℕ) (l : Listeners)
      → IsOnBuiltin quic (new_runner listens rule quic l).0
  unfolding new_runner
  new_runner-quic rule none l = ground arith
  new_runner-quic rule (some c) l = ground arith

  retarget-quic :
      (rule : ForwardRule) (e : ForwardEntry) → (retarget rule e).runner.quic ≡ e.runner.quic
  unfolding retarget
  retarget-quic rule e = ground arith

  keep_entry-quic :
      (quic : Option ℕ) (rule : ForwardRule) (e : ForwardEntry) (l : Listeners)
      → IsOn quic e
      → IsOnKept quic (keep_entry listens quic rule e l).0
  unfolding keep_entry
  keep_entry-quic quic rule e l h = elim (Bool-cases e.runner.failed) [
    | inl failed ↦
        elim (Option-cases (new_runner listens rule quic (close_runner e.runner.id l)).0) [
          | inl none_made ↦ rw (failed, none_made) tt
          | inr (r, made) ↦
              let on = rw made at (new_runner-quic rule quic (close_runner e.runner.id l)) in
              rw (failed, made) on
        ]
    | inr serving ↦
        let served : ForwardEntry = record e { runner = record (e.runner) { failed = false } } in
        rw serving (retarget-quic rule served ∙ h)
  ]

  keep_entries-All :
      (wanted : Dict ForwardRule) (quic : Option ℕ) (es : List ForwardEntry) (l : Listeners)
      → All (IsOn quic) es
      → All (IsOn quic) (keep_entries listens wanted quic es l).0
  unfolding keep_entries keep_entry
  keep_entries-All wanted quic [] l h = tt
  keep_entries-All wanted quic (e ∷ es) l h = elim (Option-cases (lookup e.key wanted)) [
    | inl gone ↦ rw (keep_entries, gone) (keep_entries-All wanted quic es l h.1)
    | inr (rule, there) ↦ elim (Option-cases (keep_entry listens quic rule e l).0) [
      | inl lost ↦
          rw (keep_entries, there, lost)
            (keep_entries-All wanted quic es (keep_entry listens quic rule e l).1 h.1)
      | inr (k, kept) ↦
          let on = keep_entry-quic quic rule e l h.0 in
          rw (keep_entries, there, kept)
            (
              rw kept at on,
              keep_entries-All wanted quic es (keep_entry listens quic rule e l).1 h.1,
            )
    ]
  ]

  create_new-All :
      (existing : List ForwardEntry) (quic : Option ℕ) (wanted : List (Bytes × ForwardRule))
      (created : List ForwardEntry) (l : Listeners)
      → All (IsOn quic) created
      → All (IsOn quic) (create_new listens existing quic wanted created l).1
  unfolding create_new
  create_new-All existing quic [] created l h = h
  create_new-All existing quic ((key, rule) ∷ wanted) created l h =
      elim (Bool-cases (has_key key existing)) [
        | inl old ↦ rw (create_new, old) (create_new-All existing quic wanted created l h)
        | inr new ↦ elim (Option-cases (new_runner listens rule quic l).0) [
          | inl failed ↦ rw (create_new, new, failed) tt
          | inr (r, made) ↦
              let on = rw made at (new_runner-quic rule quic l) in
              let entry : ForwardEntry = record { key = key; rule = rule; runner = r } in
              rw (create_new, new, made)
                (create_new-All existing quic wanted (created ++ entry ∷ [])
                  (new_runner listens rule quic l).1
                  (append-All (IsOn quic) created (entry ∷ []) h (on, tt)))
        ]
      ]

  apply-IsConnected :
      (rules : List ForwardRule) (m : ForwardManager)
      → IsConnected m
      → IsConnected (apply listens rules m).1
  unfolding apply
  apply-IsConnected rules m h = elim (Bool-cases m.closed) [
    | inl shut ↦ rw (apply, shut) h
    | inr open_still ↦
        rw (apply, open_still)
          (
            (let wanted = wanted_from [] rules in
                let l = close_unwanted listens wanted m.entries m.listeners in
                let (kept, l') = keep_entries listens wanted m.quic m.entries l in
                append-All (IsOn m.quic) kept (create_new listens m.entries m.quic wanted [] l').1
                  (keep_entries-All wanted m.quic m.entries l h.0)
                  (create_new-All m.entries m.quic wanted [] l' tt)),
            h.1,
          )
  ]

set_quic-builtin :
    (conn : Option ℕ) (o : Option Runner)
    → IsOnBuiltin conn (elim o [ none ↦ none | some r ↦ some (set_runner_quic conn r) ])
set_quic-builtin conn none = tt
set_quic-builtin none (some r) = refl
set_quic-builtin (some c) (some r) = refl

set_quic-IsConnected :
    (conn : Option ℕ) (m : ForwardManager) → IsConnected m → IsConnected (set_quic conn m)
unfolding set_quic
set_quic-IsConnected conn m h = elim (Bool-cases m.closed) [
  | inl shut ↦ rw shut h
  | inr open_still ↦
      rw open_still (set_entries_quic-All conn m.entries, set_quic-builtin conn m.builtin)
]

stop_builtin_proxy-IsConnected :
    (m : ForwardManager) → IsConnected m → IsConnected (stop_builtin_proxy m)
unfolding stop_builtin_proxy
stop_builtin_proxy-IsConnected m h = elim (Option-cases m.builtin) [
  | inl absent ↦ rw absent (h.0, tt)
  | inr (r, there) ↦ rw there (h.0, tt)
]

mark_failed-All :
    (quic : Option ℕ) (id : ℕ) (es : List ForwardEntry)
    → All (IsOn quic) es
    → All (IsOn quic) (mark_failed id es)
mark_failed-All quic id [] h = tt
mark_failed-All quic id (e ∷ es) h = (h.0, mark_failed-All quic id es h.1)

module _ (listens : ℕ → ForwardRule → Bool) (bound : ℕ → Bytes) (tcp_port : ℕ → Option ℕ)
    (split_host_port : Bytes → Option (Bytes × Bytes)) where
  start_anywhere-IsConnected :
      (m : ForwardManager) (made : Option Runner × Listeners)
      → IsOnBuiltin m.quic made.0
      → IsConnected m
      → IsConnected (start_anywhere listens bound tcp_port split_host_port m made).0
  start_anywhere-IsConnected m (none, l) on h = h
  start_anywhere-IsConnected m (some r, l) on h = (h.0, on)

  start_preferred-IsConnected :
      (m : ForwardManager) (made : Option Runner × Listeners)
      → IsOnBuiltin m.quic made.0
      → IsConnected m
      → IsConnected (start_preferred listens bound tcp_port split_host_port m made).0
  start_preferred-IsConnected m (none, l) on h =
      start_anywhere-IsConnected m (new_runner listens (builtin_rule 0) m.quic l)
        (new_runner-quic listens (builtin_rule 0) m.quic l) h
  start_preferred-IsConnected m (some r, l) on h = (h.0, on)

  start_new-IsConnected :
      (m : ForwardManager)
      → IsConnected m
      → IsConnected (start_new listens bound tcp_port split_host_port m).0
  start_new-IsConnected m h =
      start_preferred-IsConnected m
        (new_runner listens (builtin_rule proxy_port) m.quic m.listeners)
        (new_runner-quic listens (builtin_rule proxy_port) m.quic m.listeners) h

  start_over-IsConnected :
      (m : ForwardManager) (builtin : Option Runner)
      → IsConnected m
      → IsConnected (start_over listens bound tcp_port split_host_port builtin m).0
  start_over-IsConnected m none h = start_new-IsConnected m h
  start_over-IsConnected m (some r) h = elim (Bool-cases (equal (bound r.id) [])) [
    | inl untold ↦ rw untold (start_new-IsConnected m h)
    | inr there ↦ rw there h
  ]

  start_unless-IsConnected :
      (closed : Bool) (m : ForwardManager)
      → IsConnected m
      → IsConnected (start_unless listens bound tcp_port split_host_port closed m).0
  start_unless-IsConnected true m h = h
  start_unless-IsConnected false m h = start_over-IsConnected m m.builtin h

  -- After any sequence of the operations of `ForwardManager` and of ends of a `Serve`, each
  -- runner, the built-in proxy's too, has the manager's tunnel.
  pub ManagerReach-IsConnected :
      (m : ForwardManager) → ManagerReach listens bound tcp_port split_host_port m → IsConnected m
  unfolding close_manager start_builtin_proxy
  ManagerReach-IsConnected m at_new = (tt, tt)
  ManagerReach-IsConnected m (after {m = l} r s) = go l m (ManagerReach-IsConnected l r) s
    where
      go :
          (l m : ForwardManager)
          → IsConnected l
          → ManagerStep listens bound tcp_port split_host_port l m
          → IsConnected m
      go l m h (applied rules) = apply-IsConnected listens rules l h
      go l m h (connected conn) = set_quic-IsConnected conn l h
      go l m h started_builtin = start_unless-IsConnected l.closed l h
      go l m h stopped_builtin = stop_builtin_proxy-IsConnected l h
      go l m h (ended id) = (mark_failed-All l.quic id l.entries h.0, h.1)
      go l m h closes = (tt, tt)
