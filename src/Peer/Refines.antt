-- ===== src/Peer/Refines.antt =====
-- pro/local.go, pro/remote.go: a session follows the protocol.
use good_link.Base.{
  inl, Bool, Bytes, some, refl, ℕ, ◌≡◌, none, ℤ, inr, Option, pos, ◌++◌, List, [], sym,
}
use good_link.Peer.{RedisJson, Tunnel, AddrType}
use good_link.Peer.Local.{Local, local_round}
use good_link.Peer.Remote.{Remote, send_remote_addr, Arrival, end_wait}
use good_link.Peer.Steps.{
  Writer, local_end, remote_end, wrote, wrote_in, messages, LocalPhase, RemotePhase, Session, at,
  deliver, after_round, after_offer, after_judging, Step, Reach, registered, awaiting, polling,
  deciding, returned, stopped, scanning, claimed, connecting, claims, offers, sees, local_gets,
  local_acts, local_leaves, remote_gets, remote_acts, arrives, remote_leaves, expires, here, next,
}
use good_link.Peer.Stage.{
  messages_of, Stage, silent, refused, offered, answered, joined, timed_out_both, IsSlotAt,
  IsLocalAt, IsRemoteAt, IsAt, Moves, IsSpoken, after_round-IsLocalAt, IsLocalAt-stopped,
  IsRemoteAt-gone,
}
use good_link.Peer.Turns.{
  round_silent, local_gets-IsLocalAt, remote_gets-IsRemoteAt, offer-AnswersFirst, round-offered,
  round_quiet, arrives-IsAt, judges-IsRemoteAt, answer-IsRemoteAt, Lands, AfterOffer,
}

-- The stage after what has been said.
abbrev pub Follows : Stage → List (Writer × ℤ) → Session → Type 0
Follows stage said t =
    (stage' : Stage) × Moves stage stage'
    × IsAt stage' t
    × (messages_of stage' ≡ said ++ messages_of stage)

-- A round that says nothing.
quiet_round :
    {said : List (Writer × ℤ)} (stage : Stage)
    → said ≡ []
    → messages_of stage ≡ said ++ messages_of stage
quiet_round stage e = rw e refl

-- The local end once the other one has spoken.
spoken-IsLocalAt : (l : LocalPhase) → IsLocalAt silent l → IsLocalAt refused l × IsLocalAt offered l
spoken-IsLocalAt (awaiting l) h = (tt, tt)
spoken-IsLocalAt (polling l) h = absurd h
spoken-IsLocalAt (deciding l) h = absurd h
spoken-IsLocalAt (returned l r) h = (tt, tt)
spoken-IsLocalAt stopped h = (tt, tt)

-- An end that has seen the claim polls.
sees-IsLocalAt : (stage : Stage) (l l' : Local) → IsSpoken stage → IsLocalAt stage (polling l')
sees-IsLocalAt silent l l' h = absurd h
sees-IsLocalAt refused l l' h = tt
sees-IsLocalAt offered l l' h = tt
sees-IsLocalAt answered l l' h = tt
sees-IsLocalAt joined l l' h = tt
sees-IsLocalAt timed_out_both l l' h = tt

slot-IsSpoken : (stage : Stage) (j : RedisJson) → IsSlotAt stage (some j) → IsSpoken stage
slot-IsSpoken silent j h = h
slot-IsSpoken refused j h = tt
slot-IsSpoken offered j h = tt
slot-IsSpoken answered j h = tt
slot-IsSpoken joined j h = tt
slot-IsSpoken timed_out_both j h = tt

-- Only a session of which nothing has been said is claimed.
claims-IsRemoteAt :
    (stage : Stage) (j : RedisJson) → IsRemoteAt stage scanning → IsRemoteAt stage (claimed j)
claims-IsRemoteAt silent j h = tt
claims-IsRemoteAt refused j h = absurd h
claims-IsRemoteAt offered j h = absurd h
claims-IsRemoteAt answered j h = absurd h
claims-IsRemoteAt joined j h = absurd h
claims-IsRemoteAt timed_out_both j h = absurd h

module _ (version : Bytes) (timeout : ℕ) (transport : Bytes) (allow : Bool) where
  -- The answer to a request leaves the local end where it was.
  first-IsLocalAt :
      (stage : Stage) (l : LocalPhase) → Moves silent stage → IsLocalAt silent l → IsLocalAt stage l
  first-IsLocalAt silent l m h = h
  first-IsLocalAt refused l m h = (spoken-IsLocalAt l h).0
  first-IsLocalAt offered l m h = (spoken-IsLocalAt l h).1
  first-IsLocalAt answered l (inl e) h = absurd (cc e)
  first-IsLocalAt answered l (inr t) h = elim t [ ]
  first-IsLocalAt joined l (inl e) h = absurd (cc e)
  first-IsLocalAt joined l (inr t) h = elim t [ ]
  first-IsLocalAt timed_out_both l (inl e) h = absurd (cc e)
  first-IsLocalAt timed_out_both l (inr t) h = elim t [ ]

  offers-Follows :
      (stage : Stage) (probe : Option AddrType) (works : Bool) (j : RedisJson)
      (reg slot : Option RedisJson) (l : LocalPhase)
      → IsAt stage (at reg slot l (claimed j))
      → (let (accepted, r, events) = send_remote_addr version timeout transport allow probe j in
          Follows stage
            (wrote remote_end works events)
            (at reg (deliver works events slot) l (after_offer accepted r)))
  offers-Follows silent probe works j reg none l h =
      let (stage, moves, slot, remote, said) =
        offer-AnswersFirst version timeout transport allow works probe j in
      (stage, moves, (slot, first-IsLocalAt stage l moves h.1, remote), said)
  offers-Follows silent probe works j reg (some k) l h = absurd h.0
  offers-Follows refused probe works j reg slot l h = absurd h.2
  offers-Follows offered probe works j reg slot l h = absurd h.2
  offers-Follows answered probe works j reg slot l h = absurd h.2
  offers-Follows joined probe works j reg slot l h = absurd h.2
  offers-Follows timed_out_both probe works j reg slot l h = absurd h.2

module _ (version : Bytes) (up : Tunnel → Bool) where
  offered_round :
      (works : Bool) (l : Local) (n : ℤ) (slot : Option RedisJson)
      → n ≡ pos 1
      → IsSlotAt offered slot
      → Lands version up (AfterOffer version up) offered works (local_round version up l n) slot
  offered_round works l n slot e h = rw e (round-offered version up works l slot h)

  acts-Follows :
      (stage : Stage) (works : Bool) (reg slot : Option RedisJson) (l : Local) (r : RemotePhase)
      → IsAt stage (at reg slot (deciding l) r)
      → (let (l', result, events) = local_round version up l l.json.state in
          Follows stage
            (wrote local_end works events)
            (at reg (deliver works events slot) (after_round l' result) r))
  acts-Follows silent works reg slot l r h = absurd h.1
  acts-Follows refused works reg slot l r h = (
    refused,
    inl refl,
    (
      round_quiet version up refused works l l.json.state slot (inl h.1) h.0,
      after_round-IsLocalAt refused _ _ tt,
      h.2,
    ),
    quiet_round refused (round_silent version up works l l.json.state (inl h.1)),
  )
  acts-Follows offered works reg slot l r h =
      let (stage, moves, left, which, said) = offered_round works l l.json.state slot h.1 h.0 in
      (
        stage,
        moves,
        (
          left,
          elim which [
            | inl e ↦ rw e (after_round-IsLocalAt offered _ _ tt)
            | inr e ↦ rw e (after_round-IsLocalAt answered _ _ tt)
          ],
          elim which [ inl e ↦ rw e h.2 | inr e ↦ rw e (answer-IsRemoteAt r h.2) ],
        ),
        said,
      )
  acts-Follows answered works reg slot l r h = (
    answered,
    inl refl,
    (
      round_quiet version up answered works l l.json.state slot (inr (inl h.1)) h.0,
      after_round-IsLocalAt answered _ _ tt,
      h.2,
    ),
    quiet_round answered (round_silent version up works l l.json.state (inr (inl h.1))),
  )
  acts-Follows joined works reg slot l r h = (
    joined,
    inl refl,
    (
      round_quiet version up joined works l l.json.state slot
          (elim h.1 [ inl e ↦ inr (inl e) | inr e ↦ inr (inr (inl e)) ]) h.0,
      after_round-IsLocalAt joined _ _ tt,
      h.2,
    ),
    quiet_round joined (
        round_silent version up works l l.json.state
          (elim h.1 [ inl e ↦ inr (inl e) | inr e ↦ inr (inr (inl e)) ])),
  )
  acts-Follows timed_out_both works reg slot l r h = (
    timed_out_both,
    inl refl,
    (
      round_quiet version up timed_out_both works l l.json.state slot
          (elim h.1 [ inl e ↦ inr (inl e) | inr e ↦ inr (inr (inr e)) ]) h.0,
      after_round-IsLocalAt timed_out_both _ _ tt,
      h.2,
    ),
    quiet_round timed_out_both (
        round_silent version up works l l.json.state
          (elim h.1 [ inl e ↦ inr (inl e) | inr e ↦ inr (inr (inr e)) ])),
  )

arrives-Follows :
    (stage : Stage) (arrival : Arrival) (works : Bool) (reg slot : Option RedisJson)
    (l : LocalPhase) (r : Remote)
    → IsAt stage (at reg slot l (connecting r))
    → Follows stage (wrote remote_end works (end_wait arrival r).2) (
        at reg
          (deliver works (end_wait arrival r).2 slot)
          l
          (after_judging (end_wait arrival r).0 (end_wait arrival r).1))
arrives-Follows silent arrival works reg slot l r h = absurd h.2
arrives-Follows refused arrival works reg slot l r h = absurd h.2
arrives-Follows offered arrival works reg slot l r h = absurd h.2
arrives-Follows answered arrival works reg slot l r h = arrives-IsAt arrival works l r slot h.0 h.1
arrives-Follows joined arrival works reg slot l r h = absurd h.2
arrives-Follows timed_out_both arrival works reg slot l r h = absurd h.2

module _ (local_version remote_version : Bytes) (timeout : ℕ) (transport : Bytes) (allow : Bool)
    (up : Tunnel → Bool) where
  Step-Follows :
      (stage : Stage) {s t : Session}
      → IsAt stage s
      → (step : Step local_version remote_version timeout transport allow up s t)
      → Follows stage (wrote_in local_version remote_version timeout transport allow up step) t
  Step-Follows stage h (claims j slot l) =
      (stage, inl refl, (h.0, h.1, claims-IsRemoteAt stage j h.2), refl)
  Step-Follows stage h (offers probe works j reg slot l) =
      offers-Follows remote_version timeout transport allow stage probe works j reg slot l h
  Step-Follows stage h (sees reg j l r) =
      (stage, inl refl, (h.0, sees-IsLocalAt stage l _ (slot-IsSpoken stage j h.0), h.2), refl)
  Step-Follows stage h (local_gets reg j l r) =
      (stage, inl refl, (h.0, local_gets-IsLocalAt stage l j h.0, h.2), refl)
  Step-Follows stage h (local_acts works reg slot l r) =
      acts-Follows local_version up stage works reg slot l r h
  Step-Follows stage h (local_leaves reg slot l r) =
      (stage, inl refl, (h.0, IsLocalAt-stopped stage, h.2), refl)
  Step-Follows stage h (remote_gets reg j l r) = (
    stage,
    inl refl,
    (h.0, h.1, remote_gets-IsRemoteAt remote_version timeout stage r j h.0 h.2),
    refl,
  )
  Step-Follows stage h (remote_acts reg slot l r) =
      (stage, inl refl, (h.0, h.1, judges-IsRemoteAt stage r h.2), refl)
  Step-Follows stage h (arrives arrival works reg slot l r) =
      arrives-Follows stage arrival works reg slot l r h
  Step-Follows stage h (remote_leaves reg slot l r) =
      (stage, inl refl, (h.0, h.1, IsRemoteAt-gone stage), refl)
  Step-Follows stage h (expires reg slot l r) = (stage, inl refl, (tt, h.1, h.2), refl)

  -- Whatever the two ends and the store do, in whatever order, failed writes and expiry
  -- included: the messages of the session that have been written, each with the end that wrote
  -- it and its state, are those of one of six courses (none; a refusal; an offer; an offer and
  -- an answer; these two and the last word, which says that the wait was met, or timed out), so
  -- no end writes one twice or out of turn; and what the store still has of the message and
  -- each end's phase fit that course. One remote end claims the session.
  pub Reach-IsAt :
      (session : Bytes) (addr : AddrType) (count : ℕ) {s : Session}
      → (reach : Reach local_version remote_version timeout transport allow up
          (registered local_version remote_version timeout transport allow up session addr count)
          s)
      → (stage : Stage) × (messages local_version remote_version timeout transport allow up reach
          ≡ messages_of stage)
        × IsAt stage s
  Reach-IsAt session addr count here = (silent, refl, (tt, tt, tt))
  Reach-IsAt session addr count (next reach step) =
      let (stage, said, is_at) = Reach-IsAt session addr count reach in
      let (stage', _, is_at', says) = Step-Follows stage is_at step in
      (stage', rw said (sym says), is_at')
