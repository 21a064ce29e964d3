-- ===== src/Stun/Server/Invariant.antt =====
-- The table holds only transactions that are young and that wait for their second request.
use good_link.Base.{
  List, ℕ, [], All, false, ◌∷◌, Option, none, Bytes, ◌⊎◌, ◌≡◌, inr, Option-cases, refl, inl, arith,
  some,
}
use good_link.Net.{UdpAddr}
use good_link.Dict.{delete-All, delete-put-All, lookup, delete, put}
use good_link.Stun.Server.Table.{expire-All, expire_keeps}
use good_link.Stun.Server.{
  Txn, Txns, StunServer, NatType, expired, expire, state_of, note_addr, verdict, track,
}

abbrev pub IsWaiting : Bytes × Txn → Type 0
IsWaiting e = (e.1.primary_addr ≡ none) ⊎ (e.1.secondary_addr ≡ none)

abbrev pub IsYoung : ℕ → Bytes × Txn → Type 0
IsYoung now e = expired now e.1 ≡ false

both {ℓ} :
    {A : Type ℓ} (P Q : A → Type 0) (xs : List A) → All P xs → All Q xs → All (λ x. P x × Q x) xs
both P Q [] h k = tt
both P Q (x ∷ xs) h k = ((h.0, k.0), both P Q xs h.1 k.1)

abbrev Holds : ℕ → Bytes × Txn → Type 0
Holds now e = IsYoung now e × IsWaiting e

state_of-IsYoung : (now : ℕ) (tid : Bytes) (o : Option Txn) → IsYoung now (tid, state_of now o)
unfolding state_of
state_of-IsYoung now tid none = ground arith
state_of-IsYoung now tid (some v) = ground arith

note_addr-IsYoung :
    (s : StunServer) (port : ℕ) (remote : UdpAddr) (tid : Bytes) (now : ℕ) (v : Txn)
    → IsYoung now (tid, v)
    → IsYoung now (tid, note_addr s port remote v)
unfolding note_addr
note_addr-IsYoung s port remote tid now v h = ground arith

-- Where there is no verdict on a young entry, one of its addresses is missing.
verdict-IsWaiting :
    (now : ℕ) (tid : Bytes) (v : Txn)
    → IsYoung now (tid, v)
    → verdict now v ≡ none
    → IsWaiting (tid, v)
unfolding verdict
verdict-IsWaiting now tid v y h = elim (Option-cases v.primary_addr) [
  | inl missing ↦ inl missing
  | inr (a, known) ↦ elim (Option-cases v.secondary_addr) [
    | inl missing ↦ inr missing
    | inr (b, known2) ↦ absurd (ground arith)
  ]
]

-- Whatever request comes, the table afterwards holds no transaction older than three seconds, and
-- none that has been heard on both ports, if it held none of the latter before.
track-All :
    (s : StunServer) (port : ℕ) (remote : UdpAddr) (tid : Bytes) (now : ℕ)
    → All IsWaiting s.txns
    → All (λ e. IsYoung now e × IsWaiting e) (track s port remote tid now).0.txns
unfolding track put
track-All s port remote tid now h =
    let live = expire now s.txns in
    let good =
      both (IsYoung now) IsWaiting live (expire-All now s.txns)
        (expire_keeps IsWaiting now s.txns h) in
    let v = note_addr s port remote (state_of now (lookup tid live)) in
    let young =
      note_addr-IsYoung s port remote tid now (state_of now (lookup tid live))
        (state_of-IsYoung now tid (lookup tid live)) in
    go v live good young (verdict now v) refl
  where
    go :
        (v : Txn) (live : Txns)
        → All (Holds now) live
        → IsYoung now (tid, v)
        → (told : Option NatType) → verdict now v ≡ told
        → All
            (Holds now)
            (elim told [ none ↦ put tid v live | some _ ↦ delete tid (put tid v live) ])
    go v live good young none e =
        ((young, verdict-IsWaiting now tid v young e), delete-All (Holds now) tid live good)
    go v live good young (some x) e = delete-put-All (Holds now) tid v live good
