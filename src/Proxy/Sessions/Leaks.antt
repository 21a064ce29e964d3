-- ===== src/Proxy/Sessions/Leaks.antt =====
-- Where the streams of a `ForwardUDPClient` are: in the table, pending, about to be closed, or
-- closed.
use good_link.Proxy.Sessions.Touch.{streams-touch}
use good_link.Base.{
  List, ℕ, ◌≡◌, arith, Bytes, length, ◌+◌, none, ◌∙◌, Option-cases, ◌==◌, inr, [], ◌∷◌, refl, ◌++◌,
  if◌then◌else◌, inl, some, Bool-cases, Option, ap,
}
use good_link.Dict.{lookup, put}
use good_link.Proxy.Sessions.Threads.{
  noted, System, Step, Reach, begin_session, end_session, close_one, on_client, begin, finish,
  drop_one, close_all, tick, close, at_start, step_after,
}
use good_link.Proxy.Sessions.{
  UdpFwdSession, UdpClient, store, drop_session, close_all_sessions, sweep, idle_streams, streams,
}
use good_link.Proxy.Sessions.Table.{
  count, count-append, count-delete, count-keep_busy, admit-cases, delete_absent,
}
use good_link.Proxy.Sessions.Bounds.{Reach-IsSound, IsSound}

abbrev pub waiting : Option (Bytes × UdpFwdSession) → List ℕ
waiting none = []
waiting (some (_, s)) = s.stream ∷ []

abbrev pub tally : ℕ → System → ℕ
tally x t =
    count x (streams t.client.sessions)
    + count x (waiting t.pending)
    + count x t.client.closing
    + count x t.closed

-- A session takes the place of none, where its client has none.
store_tally :
    (x : ℕ) (k : Bytes) (s : UdpFwdSession) (p : UdpClient)
    → lookup k p.sessions ≡ none
    → count x (streams (store k s p).sessions)
      ≡ (if s.stream == x then 1 else 0) + count x (streams p.sessions)
unfolding store put
store_tally x k s p absent = rw (delete_absent k p.sessions absent) (omega arith)

tally-begin_session :
    (x : ℕ) (k : Bytes) (s : UdpFwdSession) (t : System)
    → IsSound t
    → t.pending ≡ none
    → tally x (begin_session k s t) ≡ (if s.stream == x then 1 else 0) + tally x t
unfolding begin_session store
tally-begin_session x k s t h free = elim (admit-cases k s t.client h.0) [
  | inl (w, there, e) ↦ rw (begin_session, e, free) (omega arith)
  | inr (inl (absent, room, e)) ↦
      rw (begin_session, e, free) (omega (arith, store_tally x k s t.client absent))
  | inr (inr (absent, j, v, here, oldest, e)) ↦
      rw (begin_session, e, free) (omega (arith, count-delete x j v t.client.sessions h.0 here))
]

tally-end_session :
    (x : ℕ) (k : Bytes) (s : UdpFwdSession) (t : System)
    → IsSound t
    → t.pending ≡ some (k, s)
    → tally x (end_session k s t) ≡ tally x t
unfolding end_session store
tally-end_session x k s t h e =
    let (room, named, absent) = rw e at h.1 in
    rw e (omega (arith, store_tally x k s t.client absent))

tally-drop_session :
    (x : ℕ) (k : Bytes) (t : System)
    → IsSound t
    → tally x (on_client (drop_session k) t) ≡ tally x t
unfolding drop_session
tally-drop_session x k t h = elim (Option-cases (lookup k t.client.sessions)) [
  | inl absent ↦ rw (drop_session, absent) refl
  | inr (s, there) ↦
      rw (drop_session, there) (omega (arith, count-delete x k s t.client.sessions h.0 there))
]

tally-close_all_sessions :
    (x : ℕ) (t : System) → tally x (on_client close_all_sessions t) ≡ tally x t
unfolding close_all_sessions
tally-close_all_sessions x t =
    omega (arith, count-append x (streams t.client.sessions) t.client.closing)

tally-sweep : (x now : ℕ) (t : System) → tally x (on_client (sweep now) t) ≡ tally x t
unfolding sweep
tally-sweep x now t = elim (Bool-cases (length t.client.sessions == 0)) [
  | inl empty ↦ rw empty refl
  | inr some_left ↦ rw some_left (
      omega (
        arith,
        count-append x (idle_streams now t.client.sessions) t.client.closing,
        count-keep_busy x now t.client.sessions,
      ))
]

tally-close_one :
    (x stream : ℕ) (before after : List ℕ) (t : System)
    → t.client.closing ≡ before ++ stream ∷ after
    → tally x (close_one stream (before ++ after) t) ≡ tally x t
unfolding close_one
tally-close_one x stream before after t e =
    rw e (omega (arith, count-append x before after, count-append x before (stream ∷ after)))

-- After any steps of the goroutines, each stream that came to the table is in one place (the
-- table, pending, about to be closed, closed), as often as it came: none is lost without being
-- closed, and none is closed twice.
pub Reach-tally : (x : ℕ) (t : System) → Reach t → tally x t ≡ count x t.opened
unfolding begin_session end_session close_one
Reach-tally x t at_start = refl
Reach-tally x t (step_after {t = u} r s) = go u t r s (Reach-tally x u r)
  where
    go :
        (u t : System)
        → Reach u
        → Step u t
        → tally x u ≡ count x u.opened
        → tally x t ≡ count x t.opened
    go u t r (begin key s named free) ih =
        omega (arith, tally-begin_session x key s u (Reach-IsSound u r) free)
    go u t r (finish key s e) ih = tally-end_session x key s u (Reach-IsSound u r) e ∙ ih
    go u t r (drop_one key) ih = tally-drop_session x key u (Reach-IsSound u r) ∙ ih
    go u t r (noted key now) ih =
        ap
          (λ l.
            count x l + count x (waiting u.pending) + count x u.client.closing + count x u.closed)
          (streams-touch key now u.client.sessions)
        ∙ ih
    go u t r close_all ih = tally-close_all_sessions x u ∙ ih
    go u t r (tick now) ih = tally-sweep x now u ∙ ih
    go u t r (close stream before after e) ih = tally-close_one x stream before after u e ∙ ih
