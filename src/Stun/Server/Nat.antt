-- ===== src/Stun/Server/Nat.antt =====
-- The verdict on the NAT, from one request on each of the two ports.
use good_link.Base.{
  false, ◌-◌, refl, none, [], ◌∷◌, Bytes, arith, All, ◌≡◌, ℕ, ◌∙◌, ◌≤◌, List, Option, some,
  if◌then◌else◌, ◌≢◌, ap,
}
use good_link.Net.{UdpAddr, equal, equal_iff}
use good_link.Dict.{lookup-put, lookup-delete, lookup, delete, put}
use good_link.Stun.Server.Table.{}
use good_link.Stun.Server.{
  Txn, Txns, StunServer, NatType, three_seconds, expired, expire, state_of, note_addr, verdict,
  track, addr_equal, nat1_nat3, nat4,
}

-- A request with another transaction id, as the lock's section sees it.
pub record Request : Type 0 where
  pub local_port : ℕ
  pub remote : UdpAddr
  pub tid : Bytes
  pub now : ℕ

abbrev pub run : StunServer → List Request → StunServer
run s [] = s
run s (r ∷ rs) = run (track s r.local_port r.remote r.tid r.now).0 rs

lookup-expire-none :
    (now : ℕ) (k : Bytes) (m : Txns) → lookup k m ≡ none → lookup k (expire now m) ≡ none
unfolding lookup expire
lookup-expire-none now k [] h = refl
lookup-expire-none now k ((j, v) ∷ m) h = ground (arith, lookup-expire-none now k m)

lookup-expire-some :
    (now : ℕ) (k : Bytes) (v : Txn) (m : Txns)
    → lookup k m ≡ some v
    → expired now v ≡ false
    → lookup k (expire now m) ≡ some v
unfolding lookup expire
lookup-expire-some now k v [] h f = ground arith
lookup-expire-some now k v ((j, w) ∷ m) h f = ground (arith, lookup-expire-some now k v m)

kept_state : (now : ℕ) (v : Txn) → expired now v ≡ false → state_of now (some v) ≡ v
unfolding state_of
kept_state now v h = rw h

-- What the lock's section leaves at a transaction id.
lookup-track :
    (s : StunServer) (port : ℕ) (remote : UdpAddr) (tid k : Bytes) (now : ℕ)
    → lookup k (track s port remote tid now).0.txns ≡ (
        let v = note_addr s port remote (state_of now (lookup tid (expire now s.txns))) in
        if equal tid k
        then elim (verdict now v) [ none ↦ some v | some _ ↦ none ]
        else lookup k (expire now s.txns))
unfolding track
lookup-track s port remote tid k now =
    let live = expire now s.txns in
    let v = note_addr s port remote (state_of now (lookup tid live)) in go (verdict now v) v live
  where
    go :
        (told : Option NatType) (v : Txn) (live : Txns)
        → lookup k (elim told [ none ↦ put tid v live | some _ ↦ delete tid (put tid v live) ])
          ≡ (if equal tid k then elim told [ none ↦ some v | some _ ↦ none ] else lookup k live)
    go none v live = lookup-put tid k v live
    go (some x) v live =
        ground (arith, lookup-delete tid k (put tid v live), lookup-put tid k v live)

module _ (tid : Bytes) (t1 : ℕ) where
  -- A request of another transaction, made no later than three seconds after `t1`.
  abbrev pub IsOther : Request → Type 0
  IsOther r = (equal r.tid tid ≡ false) × (r.now - t1 ≤ three_seconds)

  lookup-run :
      (rs : List Request) (s : StunServer) (v : Txn)
      → All IsOther rs
      → v.first_seen ≡ t1
      → lookup tid s.txns ≡ some v
      → lookup tid (run s rs).txns ≡ some v
  lookup-run [] s v h e l = l
  lookup-run (r ∷ rs) s v h e l =
      lookup-run rs (track s r.local_port r.remote r.tid r.now).0 v h.1 e (
        lookup-track s r.local_port r.remote r.tid tid r.now
        ∙ rw h.0.0 (lookup-expire-some r.now tid v s.txns l (ground arith)))

ports_run :
    (rs : List Request) (s : StunServer)
    → ((run s rs).primary_port ≡ s.primary_port) × ((run s rs).secondary_port ≡ s.secondary_port)
unfolding track
ports_run [] s = (refl, refl)
ports_run (r ∷ rs) s = ports_run rs (track s r.local_port r.remote r.tid r.now).0

told-track :
    (s : StunServer) (port : ℕ) (remote : UdpAddr) (tid : Bytes) (now : ℕ)
    → (track s port remote tid now).1
      ≡ verdict now (note_addr s port remote (state_of now (lookup tid (expire now s.txns))))
unfolding track
told-track s port remote tid now = refl

module _ (s : StunServer) (a b : UdpAddr) (tid : Bytes) (t1 t2 : ℕ) (others : List Request)
    (ports : s.primary_port ≢ s.secondary_port) (new : lookup tid s.txns ≡ none)
    (soon : t2 - t1 ≤ three_seconds) (apart : All (IsOther tid t1) others) where
  -- The entry that the first request leaves is found by the second.
  second_finds :
      (v : Txn) (s1 : StunServer)
      → v.first_seen ≡ t1
      → lookup tid s1.txns ≡ some v
      → lookup tid (expire t2 (run s1 others).txns) ≡ some v
  second_finds v s1 e l =
      lookup-expire-some t2 tid v (run s1 others).txns (lookup-run tid t1 others s1 v apart e l)
        (ground arith)

  abbrev pub after_first : ℕ → StunServer × Option NatType
  after_first port = track s port a tid t1

  abbrev pub after_both : ℕ → ℕ → StunServer × Option NatType
  after_both p q = track (run (after_first p).0 others) q b tid t2

  first_leaves :
      (port : ℕ) (v : Txn)
      → note_addr s port a (state_of t1 none) ≡ v
      → verdict t1 v ≡ none
      → (lookup tid (after_first port).0.txns ≡ some v) × ((after_first port).1 ≡ none)
  first_leaves port v e d =
      let gone = lookup-expire-none t1 tid s.txns new in
      let noted : note_addr s port a (state_of t1 (lookup tid (expire t1 s.txns))) ≡ v =
        rw gone e in
      (
        lookup-track s port a tid tid t1
            ∙ rw noted (rw ((equal_iff tid tid).1 refl) (rw d (ap some noted))),
        told-track s port a tid t1 ∙ rw noted d,
      )

  -- The second request's verdict, and what it leaves.
  second_tells :
      (p q : ℕ) (v w : Txn) (told : NatType)
      → v.first_seen ≡ t1
      → lookup tid (after_first p).0.txns ≡ some v
      → note_addr (run (after_first p).0 others) q b v ≡ w
      → verdict t2 w ≡ some told
      → ((after_both p q).1 ≡ some told) × (lookup tid (after_both p q).0.txns ≡ none)
  second_tells p q v w told e l n d =
      let s2 = run (after_first p).0 others in
      let found = second_finds v (after_first p).0 e l in
      let kept = kept_state t2 v (ground arith) in
      (
        (told-track s2 q b tid t2 ∙ rw found (rw kept (rw n d))),
        (lookup-track s2 q b tid tid t2
            ∙ rw found (rw kept (rw n (rw ((equal_iff tid tid).1 refl) (rw d))))),
      )

  -- A client asks the primary port and then the secondary port, within three seconds, with a
  -- new transaction id: the first request tells nothing; the second tells NAT4 exactly where
  -- the two requests came from different addresses; and the transaction is forgotten. Requests
  -- of other transactions between the two change nothing.
  pub track_primary_first :
      ((after_first s.primary_port).1 ≡ none)
      × ((after_both s.primary_port s.secondary_port).1
          ≡ some (if addr_equal a b then nat1_nat3 else nat4))
      × (lookup tid (after_both s.primary_port s.secondary_port).0.txns ≡ none)
  unfolding note_addr state_of verdict
  track_primary_first =
      let v : Txn = record { primary_addr = some a; secondary_addr = none; first_seen = t1 } in
      let (left, quiet) = first_leaves s.primary_port v (ground arith) refl in
      let (told, forgot) =
        second_tells s.primary_port s.secondary_port v (record v { secondary_addr = some b })
          (if addr_equal a b then nat1_nat3 else nat4) refl left
          (ground (
            arith,
            ports_run others (after_first s.primary_port).0,
            ports_run
                ((record { local_port = s.primary_port; remote = a; tid = tid; now = t1 }) ∷ []) s,
          ))
          (ground arith) in
      (quiet, told, forgot)
