-- ===== src/Proxy/Manager/Reached.antt =====
-- After any operations of a `ForwardManager`: whom each open listener belongs to.
use good_link.Base.{
  Bool-cases, some, refl, List, none, inr, if◌then◌else◌, ◌==◌, inl, Option-cases, ◌≡◌, ◌+◌, ◌∷◌,
  Option, [], ℕ, ◌++◌, Bool, arith, Bytes, ◌≢◌, true, false,
}
use good_link.Proxy.Sessions.Table.{count}
use good_link.Net.{equal, equal_iff}
use good_link.Proxy.Header.{proxy_port}
use good_link.Proxy.Manager.Builtin.{
  builtin_rule, start_anywhere, start_preferred, start_over, start_unless, start_builtin_proxy,
}
use good_link.Proxy.Manager.{
  Listeners, new_runner, ForwardRule, Runner, ForwardEntry, ForwardManager, apply, set_quic,
  keep_entries, create_new, set_entries_quic, set_runner_quic, stop_builtin_proxy, close_manager,
  wanted_from, close_unwanted, close_runner,
}
use good_link.Proxy.Manager.Steps.{
  mark_failed, serve_ends, ManagerReach, ManagerStep, at_new, after, applied, connected,
  started_builtin, stopped_builtin, ended, closes,
}
use good_link.Proxy.Manager.Owned.{
  IsOwned, new_runner-IsOwned, ids, builtin_ids, recount, ids-append, close_runner-IsOwned,
  close_entries-IsOwned, close_unwanted-IsOwned, keep_entries-IsOwned, create_new-IsOwned,
}

abbrev pub owned : ℕ → ForwardManager → ℕ
owned x m = count x (ids m.entries) + count x (builtin_ids m.builtin)

abbrev pub Owns : ℕ → ForwardManager → Type 0
Owns x m = IsOwned x (owned x m) m.listeners

ids-set_entries_quic :
    (x : ℕ) (conn : Option ℕ) (es : List ForwardEntry)
    → count x (ids (set_entries_quic conn es)) ≡ count x (ids es)
ids-set_entries_quic x conn [] = refl
ids-set_entries_quic x none (e ∷ es) = omega (arith, ids-set_entries_quic x none es)
ids-set_entries_quic x (some c) (e ∷ es) = omega (arith, ids-set_entries_quic x (some c) es)

ids-mark_failed :
    (x id : ℕ) (es : List ForwardEntry) → count x (ids (mark_failed id es)) ≡ count x (ids es)
ids-mark_failed x id [] = refl
ids-mark_failed x id (e ∷ es) = omega (arith, ids-mark_failed x id es)

builtin-set_quic :
    (x : ℕ) (conn : Option ℕ) (o : Option Runner)
    → count x (builtin_ids (elim o [ none ↦ none | some r ↦ some (set_runner_quic conn r) ]))
      ≡ count x (builtin_ids o)
builtin-set_quic x conn none = refl
builtin-set_quic x none (some r) = refl
builtin-set_quic x (some c) (some r) = refl

set_quic-Owns : (x : ℕ) (conn : Option ℕ) (m : ForwardManager) → Owns x m → Owns x (set_quic conn m)
unfolding set_quic
set_quic-Owns x conn m h = elim (Bool-cases m.closed) [
  | inl shut ↦ rw shut h
  | inr open_still ↦ rw open_still (
      recount x (owned x m)
        (count x (ids (set_entries_quic conn m.entries))
          + count x (
              builtin_ids
                (elim m.builtin [ none ↦ none | some r ↦ some (set_runner_quic conn r) ])))
        m.listeners
        (omega (arith, ids-set_entries_quic x conn m.entries, builtin-set_quic x conn m.builtin)) h)
]

stop_builtin_proxy-Owns : (x : ℕ) (m : ForwardManager) → Owns x m → Owns x (stop_builtin_proxy m)
unfolding stop_builtin_proxy
stop_builtin_proxy-Owns x m h = elim (Option-cases m.builtin) [
  | inl absent ↦ rw (stop_builtin_proxy, absent) h
  | inr (r, there) ↦
      rw (stop_builtin_proxy, there)
        (let n = count x (ids m.entries) in
          let one : ℕ = if r.id == x then 1 else 0 in
          recount x n (n + 0) (close_runner r.id m.listeners) (omega arith) (
            close_runner-IsOwned x r.id n m.listeners
              (recount x (n + (one + 0)) (one + n) m.listeners (omega arith) (rw there at h))))
]

close_manager-Owns : (x : ℕ) (m : ForwardManager) → Owns x m → Owns x (close_manager m)
unfolding close_manager
close_manager-Owns x m h = elim (Option-cases m.builtin) [
  | inl absent ↦
      rw (close_manager, absent) (close_entries-IsOwned x 0 m.entries m.listeners (rw absent at h))
  | inr (r, there) ↦
      rw (close_manager, there)
        (let n = count x (ids m.entries) in
          let one : ℕ = if r.id == x then 1 else 0 in
          close_entries-IsOwned x 0 m.entries (close_runner r.id m.listeners) (
            recount x n (n + 0) (close_runner r.id m.listeners) (omega arith) (
              close_runner-IsOwned x r.id n m.listeners
                (recount x (n + (one + 0)) (one + n) m.listeners (omega arith) (rw there at h)))))
]

module _ (listens : ℕ → ForwardRule → Bool) where
  apply-Owns :
      (x : ℕ) (rules : List ForwardRule) (m : ForwardManager)
      → Owns x m
      → Owns x (apply listens rules m).1
  unfolding apply
  apply-Owns x rules m h = elim (Bool-cases m.closed) [
    | inl shut ↦ rw (apply, shut) h
    | inr open_still ↦
        let wanted = wanted_from [] rules in
        let l = close_unwanted listens wanted m.entries m.listeners in
        let (kept, l') = keep_entries listens wanted m.quic m.entries l in
        let new = create_new listens m.entries m.quic wanted [] l' in
        let b = count x (builtin_ids m.builtin) in
        let left = close_unwanted-IsOwned listens x b wanted m.entries m.listeners h in
        let carried = keep_entries-IsOwned listens x b wanted m.quic m.entries l left in
        let k = count x (ids kept) in
        let made =
          create_new-IsOwned listens x (k + b) m.entries m.quic wanted [] l'
            (recount x (k + b) (0 + (k + b)) l' (omega arith) carried) in
        rw (apply, open_still)
          (recount x (count x (ids new.1) + (k + b)) (count x (ids (kept ++ new.1)) + b) new.2
            (omega (arith, ids-append x kept new.1)) made)
  ]

module _ (listens : ℕ → ForwardRule → Bool) (bound : ℕ → Bytes) (tcp_port : ℕ → Option ℕ)
    (split_host_port : Bytes → Option (Bytes × Bytes)) where
  -- A start puts a new runner in the place of none.
  abbrev entered : ℕ → ForwardManager → Option Runner → ℕ
  entered x m made = count x (builtin_ids made) + count x (ids m.entries)

  start_anywhere-Owns :
      (x : ℕ) (m : ForwardManager) (made : Option Runner × Listeners)
      → m.builtin ≡ none
      → IsOwned x (entered x m made.0) made.1
      → Owns x (start_anywhere listens bound tcp_port split_host_port m made).0
  start_anywhere-Owns x m (none, l) e h =
      recount x (entered x m none) (count x (ids m.entries) + count x (builtin_ids m.builtin)) l
        (rw e (omega arith)) h
  start_anywhere-Owns x m (some r, l) e h =
      recount x (entered x m (some r)) (count x (ids m.entries) + count x (builtin_ids (some r))) l
        (omega arith) h

  start_preferred-Owns :
      (x : ℕ) (m : ForwardManager) (made : Option Runner × Listeners)
      → m.builtin ≡ none
      → IsOwned x (entered x m made.0) made.1
      → Owns x (start_preferred listens bound tcp_port split_host_port m made).0
  start_preferred-Owns x m (none, l) e h =
      start_anywhere-Owns x m (new_runner listens (builtin_rule 0) m.quic l) e (
        new_runner-IsOwned listens x (count x (ids m.entries)) (builtin_rule 0) m.quic l
          (recount x (entered x m none) (count x (ids m.entries)) l (omega arith) h))
  start_preferred-Owns x m (some r, l) e h =
      recount x (entered x m (some r)) (count x (ids m.entries) + count x (builtin_ids (some r))) l
        (omega arith) h

  start_over-Owns :
      (x : ℕ) (m : ForwardManager) (builtin : Option Runner)
      → ((n : ℕ) → bound n ≢ [])
      → m.builtin ≡ builtin
      → Owns x m
      → Owns x (start_over listens bound tcp_port split_host_port builtin m).0
  start_over-Owns x m none told e h =
      start_preferred-Owns x m (new_runner listens (builtin_rule proxy_port) m.quic m.listeners) e (
        new_runner-IsOwned listens x (count x (ids m.entries)) (builtin_rule proxy_port) m.quic
          m.listeners
          (recount x (owned x m) (count x (ids m.entries)) m.listeners (rw e (omega arith)) h))
  start_over-Owns x m (some r) told e h = elim (Bool-cases (equal (bound r.id) [])) [
    | inl untold ↦ absurd (told r.id ((equal_iff (bound r.id) []).0 untold))
    | inr there ↦ rw there h
  ]

  start_unless-Owns :
      (x : ℕ) (closed : Bool) (m : ForwardManager)
      → ((n : ℕ) → bound n ≢ [])
      → Owns x m
      → Owns x (start_unless listens bound tcp_port split_host_port closed m).0
  start_unless-Owns x true m told h = h
  start_unless-Owns x false m told h = start_over-Owns x m m.builtin told refl h

  -- Where the address of a listener is never empty, after any sequence of the operations of
  -- `ForwardManager` and of ends of a `Serve`: a listener is open exactly where one entry, or
  -- the built-in proxy, has its runner: none is left open without an owner, and none is owned
  -- twice.
  pub ManagerReach-Owns :
      (x : ℕ) (m : ForwardManager)
      → ((n : ℕ) → bound n ≢ [])
      → ManagerReach listens bound tcp_port split_host_port m
      → Owns x m
  unfolding start_builtin_proxy
  ManagerReach-Owns x m told at_new = (refl, omega arith, inr refl)
  ManagerReach-Owns x m told (after {m = l} r s) = go l m (ManagerReach-Owns x l told r) s
    where
      go :
          (l m : ForwardManager)
          → Owns x l
          → ManagerStep listens bound tcp_port split_host_port l m
          → Owns x m
      go l m h (applied rules) = apply-Owns listens x rules l h
      go l m h (connected conn) = set_quic-Owns x conn l h
      go l m h started_builtin = start_unless-Owns x l.closed l told h
      go l m h stopped_builtin = stop_builtin_proxy-Owns x l h
      go l m h (ended id) =
          recount x (owned x l) (owned x (serve_ends id l)) l.listeners
            (omega (arith, ids-mark_failed x id l.entries)) h
      go l m h closes = close_manager-Owns x l h
