-- ===== src/Proxy/Sessions/Bounds.antt =====
-- What holds of the sessions between any two steps: their number, their keys, their sweeper.
use good_link.Proxy.Sessions.Touch.{touch-IsKeyed, length-touch, lookup-touch-none}
use good_link.Base.{
  Bytes, some, none, ◌≡◌, Option, ◌<◌, ◌≤◌, length, [], true, ◌≢◌, arith, ℕ, refl, Bool-cases, inl,
  Option-cases, ◌==◌, inr, Bool, ◌⊎◌,
}
use good_link.Dict.{
  lookup, delete, put, lookup-delete_same, lookup-delete-none, length-delete, length-delete-some,
}
use good_link.Proxy.Sessions.Threads.{
  noted, System, Step, Reach, begin_session, end_session, close_one, on_client, begin, finish,
  drop_one, close_all, tick, close, at_start, step_after,
}
use good_link.Proxy.Sessions.{
  note_write, touch, UdpFwdSession, UdpClient, Sessions, store, drop_session, close_all_sessions,
  sweep, keep_busy, max_udp_sessions,
}
use good_link.Proxy.Sessions.Table.{
  IsKeyed, delete-IsKeyed, keep_busy-IsKeyed, length-keep_busy, admit-cases, lookup-keep_busy,
}

-- A pending session has its place kept free.
abbrev pub HasRoom : Option (Bytes × UdpFwdSession) → Sessions → Type 0
HasRoom none m = length m ≤ max_udp_sessions
HasRoom (some (k, _)) m = (length m < max_udp_sessions) × (k ≢ []) × (lookup k m ≡ none)

abbrev pub IsSwept : UdpClient → Type 0
IsSwept p = (length p.sessions ≡ 0) ⊎ (p.sweeping ≡ true)

abbrev pub IsSound : System → Type 0
IsSound t = IsKeyed t.client.sessions × HasRoom t.pending t.client.sessions × IsSwept t.client

put-IsKeyed :
    (k : Bytes) (s : UdpFwdSession) (m : Sessions) → k ≢ [] → IsKeyed m → IsKeyed (put k s m)
unfolding put
put-IsKeyed k s m named h = (lookup-delete_same k m, named, delete-IsKeyed k m h)

shrink-HasRoom :
    (o : Option (Bytes × UdpFwdSession)) (m rest : Sessions)
    → length rest ≤ length m
    → ((k : Bytes) → lookup k m ≡ none → lookup k rest ≡ none)
    → HasRoom o m
    → HasRoom o rest
shrink-HasRoom none m rest l gone h = omega arith
shrink-HasRoom (some (k, s)) m rest l gone h = (omega arith, h.1, gone k h.2)

swept_fewer :
    (m rest : Sessions) (sweeping : Bool)
    → length rest ≤ length m
    → (length m ≡ 0) ⊎ (sweeping ≡ true)
    → (length rest ≡ 0) ⊎ (sweeping ≡ true)
swept_fewer m rest sweeping l (inl empty) = inl (omega arith)
swept_fewer m rest sweeping l (inr on) = inr on

store-IsSound :
    (k : Bytes) (s : UdpFwdSession) (t : System)
    → k ≢ []
    → length t.client.sessions < max_udp_sessions
    → IsSound t
    → IsSound (record t { client = store k s t.client; pending = none })
unfolding store put
store-IsSound k s t named room h = (
  put-IsKeyed k s t.client.sessions named h.0,
  omega (arith, length-delete k t.client.sessions),
  inr refl,
)

-- At a full table, the victim makes room for the session to come.
begin_session-IsSound :
    (k : Bytes) (s : UdpFwdSession) (t : System)
    → k ≢ []
    → t.pending ≡ none
    → IsSound t
    → IsSound (begin_session k s t)
unfolding begin_session
begin_session-IsSound k s t named free h = elim (admit-cases k s t.client h.0) [
  | inl (w, there, e) ↦ rw (begin_session, e) (h.0, rw free at h.1, h.2)
  | inr (inl (absent, room, e)) ↦ rw (begin_session, e) (store-IsSound k s t named room h)
  | inr (inr (absent, j, v, here, oldest, e)) ↦
      let less = length-delete-some j v t.client.sessions here in
      let full : length t.client.sessions ≤ max_udp_sessions = rw free at h.1 in
      rw (begin_session, e)
        (
          delete-IsKeyed j t.client.sessions h.0,
          (omega arith, named, lookup-delete-none j k t.client.sessions absent),
          swept_fewer t.client.sessions (delete j t.client.sessions) t.client.sweeping (omega arith)
              h.2,
        )
]

drop_session-IsSound : (k : Bytes) (t : System) → IsSound t → IsSound (on_client (drop_session k) t)
unfolding drop_session
drop_session-IsSound k t h = elim (Option-cases (lookup k t.client.sessions)) [
  | inl absent ↦ rw (drop_session, absent) h
  | inr (s, there) ↦
      rw (drop_session, there)
        (
          delete-IsKeyed k t.client.sessions h.0,
          shrink-HasRoom t.pending t.client.sessions (delete k t.client.sessions)
              (length-delete k t.client.sessions) (λ j. lookup-delete-none k j t.client.sessions)
              h.1,
          swept_fewer t.client.sessions (delete k t.client.sessions) t.client.sweeping
              (length-delete k t.client.sessions) h.2,
        )
]

sweep-IsSound : (now : ℕ) (t : System) → IsSound t → IsSound (on_client (sweep now) t)
unfolding sweep
sweep-IsSound now t h = elim (Bool-cases (length t.client.sessions == 0)) [
  | inl empty ↦ rw empty (h.0, h.1, inl (ground arith))
  | inr some_left ↦ rw some_left (
    keep_busy-IsKeyed now t.client.sessions h.0,
    shrink-HasRoom t.pending t.client.sessions (keep_busy now t.client.sessions)
        (length-keep_busy now t.client.sessions) (λ j. lookup-keep_busy now j t.client.sessions)
        h.1,
    swept_fewer t.client.sessions (keep_busy now t.client.sessions) t.client.sweeping
        (length-keep_busy now t.client.sessions) h.2,
  )
]

close_all_sessions-IsSound : (t : System) → IsSound t → IsSound (on_client close_all_sessions t)
unfolding close_all_sessions lookup
close_all_sessions-IsSound t h = (
  tt,
  shrink-HasRoom t.pending t.client.sessions [] (omega arith) (λ j absent. refl) h.1,
  inl refl,
)

note_write-IsSound :
    (k : Bytes) (now : ℕ) (t : System) → IsSound t → IsSound (on_client (note_write k now) t)
note_write-IsSound k now t h =
    let m = t.client.sessions in
    let same = length-touch k now m in
    (
      touch-IsKeyed k now m h.0,
      shrink-HasRoom t.pending m (touch k now m) (omega arith) (λ j. lookup-touch-none k j now m)
          h.1,
      swept_fewer m (touch k now m) t.client.sweeping (omega arith) h.2,
    )

end_session-IsSound :
    (k : Bytes) (s : UdpFwdSession) (t : System)
    → t.pending ≡ some (k, s)
    → IsSound t
    → IsSound (end_session k s t)
unfolding end_session
end_session-IsSound k s t e h =
    let (room, named, absent) = rw e at h.1 in store-IsSound k s t named room h

Step-IsSound : {t u : System} → Step t u → IsSound t → IsSound u
unfolding close_one
Step-IsSound {t = t} (begin key s named free) h = begin_session-IsSound key s t named free h
Step-IsSound {t = t} (finish key s e) h = end_session-IsSound key s t e h
Step-IsSound {t = t} (drop_one key) h = drop_session-IsSound key t h
Step-IsSound {t = t} (noted key now) h = note_write-IsSound key now t h
Step-IsSound {t = t} close_all h = close_all_sessions-IsSound t h
Step-IsSound {t = t} (tick now) h = sweep-IsSound now t h
Step-IsSound (close stream before after e) h = h

-- After any steps of the goroutines, each client has one session at most, the table holds 1024 at
-- most (and fewer while a session waits to be entered), and a sweeper runs wherever it is not
-- empty.
pub Reach-IsSound : (t : System) → Reach t → IsSound t
Reach-IsSound t at_start = (tt, omega arith, inl refl)
Reach-IsSound t (step_after r s) = Step-IsSound s (Reach-IsSound _ r)
