-- ===== src/Panel/Overview.antt =====
-- ui2/state.go: `aggregateStatus`.
use good_link.Base.{
  ltb, ◌≤◌, ◌||◌, All, Bool-cases, ◌==◌, arith, inl, inr, ◌∷◌, [], if◌then◌else◌, ℕ, List, ltb→lt,
}
use native.Mathlib.Nat.{le_trans}
use good_link.Panel.{status_idle, status_connecting_nat4, status_stopping, status_connect_failed}
use good_link.Panel.Services.{
  ServiceState, status_starting, status_connecting, status_connected, status_running,
}

-- The map of ranks, with the zero of a missing key.
unfoldable pub rank : ℕ → ℕ
rank st =
    if st == status_starting || st == status_connecting || st == status_stopping
    then 1
    else if st == status_connected || st == status_running
    then 2
    else if st == status_connecting_nat4 || st == status_connect_failed
    then 3
    else 0

unfoldable pub best_from : ℕ → List ServiceState → ℕ
best_from best [] = best
best_from best (s ∷ ss) = best_from (if ltb (rank best) (rank s.status) then s.status else best) ss

unfoldable pub aggregate_status : List ServiceState → ℕ
aggregate_status ss = best_from status_idle ss

higher-rank :
    (best st : ℕ)
    → let now = if ltb (rank best) (rank st) then st else best in
      (rank best ≤ rank now) × (rank st ≤ rank now)
higher-rank best st = elim (Bool-cases (ltb (rank best) (rank st))) [
  | inl higher ↦
      let less = ltb→lt (rank best) (rank st) higher in rw higher (omega (arith, less), omega arith)
  | inr lower ↦ let more : rank st ≤ rank best = ground arith in rw lower (omega arith, more)
]

best_from-rank :
    (best : ℕ) (ss : List ServiceState)
    → (rank best ≤ rank (best_from best ss))
      × All (λ s. rank s.status ≤ rank (best_from best ss)) ss
unfolding best_from
best_from-rank best [] = (omega arith, tt)
best_from-rank best (s ∷ ss) =
    let now = if ltb (rank best) (rank s.status) then s.status else best in
    let (first, rest) = best_from-rank now ss in
    let (older, newer) = higher-rank best s.status in
    (le_trans older first, (le_trans newer first, rest))

-- No service has a status of a higher rank than the one that is shown.
aggregate_status-rank :
    (ss : List ServiceState) → All (λ s. rank s.status ≤ rank (aggregate_status ss)) ss
unfolding aggregate_status
aggregate_status-rank ss = (best_from-rank status_idle ss).1
