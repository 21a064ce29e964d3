-- ===== src/Proxy/Sessions/Table.antt =====
-- Facts about the table of sessions: its keys, its streams, and the choice of a victim.
use good_link.Base.{
  none, Bool-cases, [], ◌==◌, ◌⊎◌, refl, ◌∷◌, ◌++◌, inr, length, arith, ◌≡◌, ◌≤◌, if◌then◌else◌,
  Option, List, ◌+◌, Bytes, ℕ, some, inl, ◌≢◌, ◌<◌, All, ap, ltb, false, ◌∙◌, Option-cases, leb,
}
use good_link.Dict.{lookup, delete, lookup-delete}
use good_link.Net.{equal, equal_iff}
use good_link.Proxy.Sessions.{
  admit, UdpClient, existing, evicted, stored, store, max_udp_sessions, UdpFwdSession, Sessions,
  streams, oldest_from, evict_oldest, keep_busy, idle_streams,
}

-- Each key stands once, and none is empty.
abbrev pub IsKeyed : Sessions → Type 0
IsKeyed [] = Unit
IsKeyed ((k, s) ∷ m) = (lookup k m ≡ none) × (k ≢ []) × IsKeyed m

abbrev pub count : ℕ → List ℕ → ℕ
count x [] = 0
count x (y ∷ ys) = (if y == x then 1 else 0) + count x ys

pub count-append : (x : ℕ) (xs ys : List ℕ) → count x (xs ++ ys) ≡ count x xs + count x ys
count-append x [] ys = omega arith
count-append x (y ∷ xs) ys = omega (arith, count-append x xs ys)

pub delete_absent : (k : Bytes) (m : Sessions) → lookup k m ≡ none → delete k m ≡ m
unfolding lookup delete
delete_absent k [] h = refl
delete_absent k ((j, s) ∷ m) h = ground (arith, delete_absent k m)

pub delete-IsKeyed : (k : Bytes) (m : Sessions) → IsKeyed m → IsKeyed (delete k m)
unfolding delete
delete-IsKeyed k [] h = tt
delete-IsKeyed k ((j, s) ∷ m) h = ground (arith, delete-IsKeyed k m h.2, lookup-delete k j m)

pub lookup-keep_busy :
    (now : ℕ) (k : Bytes) (m : Sessions) → lookup k m ≡ none → lookup k (keep_busy now m) ≡ none
unfolding lookup keep_busy
lookup-keep_busy now k [] h = refl
lookup-keep_busy now k ((j, s) ∷ m) h = ground (arith, lookup-keep_busy now k m)

pub keep_busy-IsKeyed : (now : ℕ) (m : Sessions) → IsKeyed m → IsKeyed (keep_busy now m)
unfolding keep_busy
keep_busy-IsKeyed now [] h = tt
keep_busy-IsKeyed now ((j, s) ∷ m) h =
    ground (arith, keep_busy-IsKeyed now m h.2, lookup-keep_busy now j m)

pub length-keep_busy : (now : ℕ) (m : Sessions) → length (keep_busy now m) ≤ length m
unfolding keep_busy
length-keep_busy now [] = omega arith
length-keep_busy now ((j, s) ∷ m) = ground (arith, length-keep_busy now m)

-- A deleted session's stream leaves the table once.
pub count-delete :
    (x : ℕ) (k : Bytes) (v : UdpFwdSession) (m : Sessions)
    → IsKeyed m
    → lookup k m ≡ some v
    → count x (streams (delete k m)) + (if v.stream == x then 1 else 0) ≡ count x (streams m)
unfolding lookup delete
count-delete x k v [] h e = absurd (ground arith)
count-delete x k v ((j, s) ∷ m) h e = elim (Bool-cases (equal j k)) [
  | inl same ↦
      let gone = delete_absent k m (rw ((equal_iff j k).0 same) at h.0) in ground (arith, gone)
  | inr other ↦ ground (arith, count-delete x k v m h.2)
]

pub count-keep_busy :
    (x now : ℕ) (m : Sessions)
    → count x (streams (keep_busy now m)) + count x (idle_streams now m) ≡ count x (streams m)
unfolding keep_busy idle_streams
count-keep_busy x now [] = omega arith
count-keep_busy x now ((k, s) ∷ m) = ground (arith, count-keep_busy x now m)

at_head :
    (j k : Bytes) (s v : UdpFwdSession) (m : Sessions)
    → ◌≡◌ {A = Option (Bytes × UdpFwdSession)} (some (j, s)) (some (k, v))
    → lookup k ((j, s) ∷ m) ≡ some v
unfolding lookup
at_head j k s v m e =
    let same : j ≡ k = ground arith in
    let it : s ≡ v = ground arith in rw ((equal_iff j k).1 same) (ap some it)

in_tail :
    (j k : Bytes) (s v : UdpFwdSession) (m : Sessions)
    → lookup j m ≡ none
    → lookup k m ≡ some v
    → lookup k ((j, s) ∷ m) ≡ some v
unfolding lookup
in_tail j k s v m absent e = elim (Bool-cases (equal j k)) [
  | inl same ↦ absurd (let gone = rw ((equal_iff j k).0 same) at absent in ground arith)
  | inr other ↦ rw other e
]

-- The victim is an entry of the table, or the one at hand.
oldest_from-lookup :
    (acc : Option (Bytes × UdpFwdSession)) (m : Sessions) (k : Bytes) (v : UdpFwdSession)
    → IsKeyed m
    → oldest_from acc m ≡ some (k, v)
    → (acc ≡ some (k, v)) ⊎ (lookup k m ≡ some v)
unfolding oldest_from
oldest_from-lookup acc [] k v h e = inl e
oldest_from-lookup none ((j, s) ∷ m) k v h e = elim (oldest_from-lookup (some (j, s)) m k v h.2 e) [
  | inl here ↦ inr (at_head j k s v m here)
  | inr there ↦ inr (in_tail j k s v m h.0 there)
]
oldest_from-lookup (some (i, w)) ((j, s) ∷ m) k v h e =
    elim (Bool-cases (ltb s.created_at w.created_at)) [
      | inl older ↦ elim (oldest_from-lookup (some (j, s)) m k v h.2 (rw older at e)) [
        | inl here ↦ inr (at_head j k s v m here)
        | inr there ↦ inr (in_tail j k s v m h.0 there)
      ]
      | inr younger ↦ elim (oldest_from-lookup (some (i, w)) m k v h.2 (rw younger at e)) [
        | inl here ↦ inl here
        | inr there ↦ inr (in_tail j k s v m h.0 there)
      ]
    ]

is_named :
    (k : Bytes) (v : UdpFwdSession) (m : Sessions)
    → IsKeyed m
    → lookup k m ≡ some v
    → equal k [] ≡ false
unfolding lookup
is_named k v [] h e = absurd (ground arith)
is_named k v ((j, s) ∷ m) h e = elim (Bool-cases (equal j k)) [
  | inl same ↦ elim (Bool-cases (equal k [])) [
    | inl empty ↦ absurd (h.1 ((equal_iff j k).0 same ∙ (equal_iff k []).0 empty))
    | inr named ↦ named
  ]
  | inr other ↦ is_named k v m h.2 (rw other at e)
]

abbrev pub IsOldest : UdpFwdSession → Sessions → Type 0
IsOldest v m = All (λ e. v.created_at ≤ e.1.created_at) m

oldest_from-none : (m : Sessions) (w : Bytes × UdpFwdSession) → oldest_from (some w) m ≢ none
unfolding oldest_from
oldest_from-none [] w e = cc
oldest_from-none ((k, s) ∷ m) (j, v) e =
    oldest_from-none m (if ltb s.created_at v.created_at then (k, s) else (j, v)) (ground arith)

-- No entry was created before the victim.
oldest_from-IsOldest :
    (m : Sessions) (w : Bytes × UdpFwdSession) (k : Bytes) (v : UdpFwdSession)
    → oldest_from (some w) m ≡ some (k, v)
    → (v.created_at ≤ w.1.created_at) × IsOldest v m
unfolding oldest_from
oldest_from-IsOldest [] (j, w) k v e = let it : w ≡ v = ground arith in (rw it (omega arith), tt)
oldest_from-IsOldest ((j, s) ∷ m) (i, w) k v e = elim (Bool-cases (ltb s.created_at w.created_at)) [
  | inl older ↦
      let (le, rest) = oldest_from-IsOldest m (j, s) k v (rw older at e) in
      (ground arith, (le, rest))
  | inr younger ↦
      let (le, rest) = oldest_from-IsOldest m (i, w) k v (rw younger at e) in
      (le, (ground arith, rest))
]

-- In a table that holds a session, `evictOldestLocked` removes one entry: one that was created
-- first.
pub evict_oldest_lem :
    (m : Sessions)
    → IsKeyed m
    → 0 < length m
    → (k : Bytes) × (v : UdpFwdSession) × (lookup k m ≡ some v)
      × IsOldest v m
      × (evict_oldest m ≡ (delete k m, some v))
unfolding evict_oldest oldest_from
evict_oldest_lem [] h l = absurd (omega arith)
evict_oldest_lem ((j, s) ∷ m) h l = go (oldest_from (some (j, s)) m) refl
  where
    go :
        (o : Option (Bytes × UdpFwdSession))
        → oldest_from (some (j, s)) m ≡ o
        → (k : Bytes) × (v : UdpFwdSession) × (lookup k ((j, s) ∷ m) ≡ some v)
          × IsOldest v ((j, s) ∷ m)
          × (evict_oldest ((j, s) ∷ m) ≡ (delete k ((j, s) ∷ m), some v))
    go none e = absurd (oldest_from-none m (j, s) e)
    go (some (k, v)) e =
        let l : lookup k ((j, s) ∷ m) ≡ some v =
          elim (oldest_from-lookup (some (j, s)) m k v h.2 e) [
            | inl here ↦ at_head j k s v m here
            | inr there ↦ in_tail j k s v m h.0 there
          ] in
        (
          k,
          v,
          l,
          oldest_from-IsOldest m (j, s) k v e,
          rw (evict_oldest, e, is_named k v ((j, s) ∷ m) h l) refl,
        )

-- What `newSession` does with a fresh session, in each of its three cases: the client has a
-- session already, there is room, or a session that was created first has to go.
pub admit-cases :
    (k : Bytes) (s : UdpFwdSession) (p : UdpClient)
    → IsKeyed p.sessions
    → ((w : UdpFwdSession) × (lookup k p.sessions ≡ some w)
        × (admit k s p ≡ (record p { closing = s.stream ∷ p.closing }, existing w)))
      ⊎ ((lookup k p.sessions ≡ none)
          × (length p.sessions < max_udp_sessions)
          × (admit k s p ≡ (store k s p, stored)))
      ⊎ ((lookup k p.sessions ≡ none)
          × (j : Bytes) × (v : UdpFwdSession) × (lookup j p.sessions ≡ some v)
          × IsOldest v p.sessions
          × (admit k s p ≡ (
            record p { sessions = delete j p.sessions; closing = v.stream ∷ p.closing },
            evicted,
          )))
unfolding admit
admit-cases k s p h = elim (Option-cases (lookup k p.sessions)) [
  | inr (w, there) ↦ inl (w, there, rw (admit, there) refl)
  | inl absent ↦ elim (Bool-cases (leb max_udp_sessions (length p.sessions))) [
    | inl full ↦
        let (j, v, here, oldest, e) = evict_oldest_lem p.sessions h (ground arith) in
        inr (inr (absent, j, v, here, oldest, rw (admit, absent, full, e) refl))
    | inr room ↦ inr (inl (absent, ground arith, rw (admit, absent, room) refl))
  ]
]
