-- ===== src/Peer/Store.antt =====
-- pro/comm.go: the functions on the store that both ends can reach, a map from keys to sealed
-- messages. `md5`, and `seal` and `unseal` (JSON and AES with a key), are parameters.
use good_link.Base.{◌≢◌, none, ◌≡◌, some, Bytes, Option, inr, inl, refl, Option-cases, sym, [], ◌∷◌}
use good_link.Dict.{
  lookup-put_same, lookup-delete_other, lookup-delete_same, Dict, lookup, delete, put,
  lookup-delete_same,
}
use good_link.Peer.{RedisJson, merge}

-- A text with a key, and what is left of the store.
module _ (md5 : Bytes → Bytes) (seal : RedisJson → Bytes → Bytes)
    (unseal : Bytes → Bytes → Option RedisJson) where
  -- `RedisSessionRegister`; `none` is another round of its wait for the last session to end.
  unfoldable pub session_register : (tun_key : Bytes) → RedisJson → Dict Bytes → Option (Dict Bytes)
  session_register tun_key j store = elim (lookup (md5 tun_key) store) [
    | some _ ↦ none
    | none ↦ some (put (md5 tun_key) (seal j tun_key) store)
  ]

  -- `RedisSessionClaim`
  unfoldable pub session_claim : (tun_key : Bytes) → Dict Bytes → Option RedisJson × Dict Bytes
  session_claim tun_key store = elim (lookup (md5 tun_key) store) [
    | none ↦ (none, store)
    | some sealed ↦ elim (unseal sealed tun_key) [
      | none ↦ (none, store)
      | some j ↦ (some j, delete (md5 tun_key) store)
    ]
  ]

  -- `RedisSessionSet`, where the store takes it.
  unfoldable pub session_set : (session : Bytes) → RedisJson → Dict Bytes → Dict Bytes
  session_set session j store = put (md5 session) (seal j session) store

  -- What `RedisSessionGet` makes of the bytes: nothing of no bytes.
  unfoldable pub open_sealed : Bytes → (session : Bytes) → Option RedisJson
  open_sealed [] session = none
  open_sealed (b ∷ bs) session = unseal (b ∷ bs) session

  -- `RedisSessionGet` into a message that is there.
  unfoldable pub session_get : (session : Bytes) → RedisJson → Dict Bytes → Option RedisJson
  session_get session old store = elim (lookup (md5 session) store) [
    | none ↦ none
    | some sealed ↦ elim (open_sealed sealed session) [ none ↦ none | some j ↦ some (merge old j) ]
  ]

  -- `RedisSessionDel`
  unfoldable pub session_del : (session : Bytes) → Dict Bytes → Dict Bytes
  session_del session store = delete (md5 session) store

  -- `RedisSessionUnregister`
  unfoldable pub session_unregister : (tun_key : Bytes) → Dict Bytes → Dict Bytes
  session_unregister tun_key store = delete (md5 tun_key) store

  -- What a read finds after each of the operations of the two ends.
  abbrev pub IsHeard : RedisJson → RedisJson → Bytes → Bytes → Dict Bytes → Type 0
  IsHeard j old tun_key session store =
      (session_get session old (session_set session j store) ≡ some (merge old j))
      × (session_get session old (session_del session store) ≡ none)
      × (session_get session old (session_unregister tun_key store) ≡ session_get session old store)
      × (session_get session old (session_claim tun_key store).1 ≡ session_get session old store)

  -- The claim takes what was registered, once.
  abbrev pub IsClaimed : RedisJson → Bytes → Dict Bytes → Type 0
  IsClaimed j tun_key registered =
      ((session_claim tun_key registered).0 ≡ some j)
      × ((session_claim tun_key (session_claim tun_key registered).1).0 ≡ none)

  -- Where a sealed message can be read back: a claim takes the request that was registered, and
  -- the next claim finds none.
  session_claim-session_register :
      (j : RedisJson) (tun_key : Bytes) (store registered : Dict Bytes)
      → unseal (seal j tun_key) tun_key ≡ some j
      → session_register tun_key j store ≡ some registered
      → IsClaimed j tun_key registered
  unfolding session_register session_claim
  session_claim-session_register j tun_key store registered law h =
      elim (Option-cases (lookup (md5 tun_key) store)) [
        | inr (v, busy) ↦ absurd (let e = rw (session_register, busy) at h in cc e)
        | inl free ↦
            let stored = put (md5 tun_key) (seal j tun_key) store in
            let e : stored ≡ registered = (let k = rw (session_register, free) at h in cc k) in
            let found : lookup (md5 tun_key) stored ≡ some (seal j tun_key) =
              lookup-put_same (md5 tun_key) (seal j tun_key) store in
            let gone = lookup-delete_same (md5 tun_key) stored in
            rw (sym e) (
              rw (session_claim, found, law) refl,
              rw (session_claim, found, law) (rw (session_claim, gone) refl),
            )
      ]

  -- Where a sealed message can be read back, and the two keys have different digests: what one
  -- end sets for a session the other end gets, merged into its own; a deleted one is not found;
  -- and neither the registration that is removed nor the one that is claimed disturbs a
  -- session.
  pub session_get-session_set :
      (j old : RedisJson) (tun_key session : Bytes) (store : Dict Bytes)
      → open_sealed (seal j session) session ≡ some j
      → md5 tun_key ≢ md5 session
      → IsHeard j old tun_key session store
  unfolding session_get session_set session_del session_unregister session_claim
  session_get-session_set j old tun_key session store law apart =
      let k = md5 tun_key in
      let s = md5 session in
      let other : lookup s (delete k store) ≡ lookup s store =
        lookup-delete_other k s store apart in
      (
        rw (session_get, lookup-put_same s (seal j session) store, law) refl,
        rw (session_get, lookup-delete_same s store) refl,
        rw (session_get, other) refl,
        elim (Option-cases (lookup k store)) [
          | inl missing ↦ rw (session_claim, missing) refl
          | inr (sealed, there) ↦ elim (Option-cases (unseal sealed tun_key)) [
            | inl broken ↦ rw (session_claim, there, broken) refl
            | inr (i, opened) ↦ rw (session_claim, there, opened) (rw (session_get, other) refl)
          ]
        ],
      )
