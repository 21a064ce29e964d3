-- ===== src/Peer/Stage.antt =====
-- pro/local.go, pro/remote.go: what the two ends have told each other, and the phases in which each
-- can be at that time.
use good_link.Base.{some, ◌≡◌, Option, none, ℤ, negsuc, pos, ◌⊎◌, [], List, ◌∷◌}
use good_link.Peer.{RedisJson}
use good_link.Peer.Local.{Local, LocalResult}
use good_link.Peer.Steps.{
  Writer, local_end, remote_end, LocalPhase, awaiting, polling, deciding, returned, stopped,
  RemotePhase, following, judging, connecting, serving, gone, Session, at, after_round,
}

-- What the two ends have told each other so far.
pub data Stage : Type 0 where
  silent : Stage
  refused : Stage
  offered : Stage
  answered : Stage
  joined : Stage
  timed_out_both : Stage

-- The protocol: each message is written at most once, by the end whose turn it is.
pub data Turn : Stage → Stage → Type 0 where
  refuse : Turn silent refused
  offer : Turn silent offered
  answer : Turn offered answered
  join : Turn answered joined
  give_in : Turn answered timed_out_both

-- The state that the last message had.
abbrev pub IsStateOf : Stage → ℤ → Type 0
IsStateOf silent n = ⊥
IsStateOf refused n = n ≡ negsuc 0
IsStateOf offered n = n ≡ pos 1
IsStateOf answered n = n ≡ pos 2
IsStateOf joined n = n ≡ pos 3
IsStateOf timed_out_both n = n ≡ pos 4

-- Who has written what, up to the stage, the last one first.
abbrev pub messages_of : Stage → List (Writer × ℤ)
messages_of silent = []
messages_of refused = (remote_end, negsuc 0) ∷ []
messages_of offered = (remote_end, pos 1) ∷ []
messages_of answered = (local_end, pos 2) ∷ (remote_end, pos 1) ∷ []
messages_of joined = (remote_end, pos 3) ∷ (local_end, pos 2) ∷ (remote_end, pos 1) ∷ []
messages_of timed_out_both = (remote_end, pos 4) ∷ (local_end, pos 2) ∷ (remote_end, pos 1) ∷ []

abbrev pub IsSlotAt : Stage → Option RedisJson → Type 0
IsSlotAt stage none = Unit
IsSlotAt stage (some j) = IsStateOf stage j.state

abbrev pub IsLocalAt : Stage → LocalPhase → Type 0
IsLocalAt silent (awaiting l) = Unit
IsLocalAt silent (returned l r) = Unit
IsLocalAt silent stopped = Unit
IsLocalAt silent (polling l) = ⊥
IsLocalAt silent (deciding l) = ⊥
IsLocalAt refused (deciding l) = l.json.state ≡ negsuc 0
IsLocalAt refused _ = Unit
IsLocalAt offered (deciding l) = l.json.state ≡ pos 1
IsLocalAt offered _ = Unit
IsLocalAt answered (awaiting l) = ⊥
IsLocalAt answered (deciding l) = l.json.state ≡ pos 2
IsLocalAt answered _ = Unit
IsLocalAt joined (awaiting l) = ⊥
IsLocalAt joined (deciding l) = (l.json.state ≡ pos 2) ⊎ (l.json.state ≡ pos 3)
IsLocalAt joined _ = Unit
IsLocalAt timed_out_both (awaiting l) = ⊥
IsLocalAt timed_out_both (deciding l) = (l.json.state ≡ pos 2) ⊎ (l.json.state ≡ pos 4)
IsLocalAt timed_out_both _ = Unit

abbrev pub IsRemoteAt : Stage → RemotePhase → Type 0
IsRemoteAt silent (judging r) = ⊥
IsRemoteAt silent (connecting r) = ⊥
IsRemoteAt silent _ = Unit
IsRemoteAt refused gone = Unit
IsRemoteAt refused _ = ⊥
IsRemoteAt offered (following r) = Unit
IsRemoteAt offered (judging r) = r.json.state ≡ pos 1
IsRemoteAt offered gone = Unit
IsRemoteAt offered _ = ⊥
IsRemoteAt answered (following r) = Unit
IsRemoteAt answered (judging r) = (r.json.state ≡ pos 1) ⊎ (r.json.state ≡ pos 2)
IsRemoteAt answered (connecting r) = Unit
IsRemoteAt answered (serving r) = Unit
IsRemoteAt answered gone = Unit
IsRemoteAt answered _ = ⊥
IsRemoteAt joined (following r) = Unit
IsRemoteAt joined (judging r) = r.json.state ≡ pos 3
IsRemoteAt joined (serving r) = Unit
IsRemoteAt joined gone = Unit
IsRemoteAt joined _ = ⊥
IsRemoteAt timed_out_both (judging r) = r.json.state ≡ pos 4
IsRemoteAt timed_out_both (following r) = Unit
IsRemoteAt timed_out_both gone = Unit
IsRemoteAt timed_out_both _ = ⊥

abbrev pub IsAt : Stage → Session → Type 0
IsAt stage (at reg slot l r) = IsSlotAt stage slot × IsLocalAt stage l × IsRemoteAt stage r

-- No turn, or one.
abbrev pub Moves : Stage → Stage → Type 0
Moves s t = (s ≡ t) ⊎ Turn s t

pub IsLocalAt-stopped : (stage : Stage) → IsLocalAt stage stopped
IsLocalAt-stopped silent = tt
IsLocalAt-stopped refused = tt
IsLocalAt-stopped offered = tt
IsLocalAt-stopped answered = tt
IsLocalAt-stopped joined = tt
IsLocalAt-stopped timed_out_both = tt

pub IsRemoteAt-gone : (stage : Stage) → IsRemoteAt stage gone
IsRemoteAt-gone silent = tt
IsRemoteAt-gone refused = tt
IsRemoteAt-gone offered = tt
IsRemoteAt-gone answered = tt
IsRemoteAt-gone joined = tt
IsRemoteAt-gone timed_out_both = tt

-- Something has been written.
abbrev pub IsSpoken : Stage → Type 0
IsSpoken silent = ⊥
IsSpoken _ = Unit

-- After a round the local end polls again, or has returned.
pub after_round-IsLocalAt :
    (stage : Stage) (l : Local) (result : Option LocalResult)
    → IsSpoken stage
    → IsLocalAt stage (after_round l result)
after_round-IsLocalAt silent l result h = absurd h
after_round-IsLocalAt refused l none h = tt
after_round-IsLocalAt refused l (some r) h = tt
after_round-IsLocalAt offered l none h = tt
after_round-IsLocalAt offered l (some r) h = tt
after_round-IsLocalAt answered l none h = tt
after_round-IsLocalAt answered l (some r) h = tt
after_round-IsLocalAt joined l none h = tt
after_round-IsLocalAt joined l (some r) h = tt
after_round-IsLocalAt timed_out_both l none h = tt
after_round-IsLocalAt timed_out_both l (some r) h = tt
