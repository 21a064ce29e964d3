-- ===== src/Peer/Steps.antt =====
-- pro/local.go, pro/remote.go: one session between the two ends, as steps of the ends and of the
-- store. Each read and each write of the store is a step of its own, so that anything can come
-- between a handler's read and its write.
-- The claim reads and deletes the registration in one step: one remote end claims.
use good_link.Base.{
  true, List, Bytes, if◌then◌else◌, some, Bool, [], ◌∷◌, Option, false, none, ℕ, ℤ, ◌++◌,
}
use good_link.Peer.{
  AddrType, RedisJson, PeerEvent, Tunnel, reported, deleted, released, created, started, sent,
}
use good_link.Peer.Local.{Local, LocalResult, new_local, local_round, local_reads}
use good_link.Peer.Remote.{
  Remote, Arrival, RemoteNext, again, wait_connection, serve_connection, give_up, send_remote_addr,
  remote_reads, remote_round, end_wait,
}

-- Before the claim is seen; between two rounds; after a read; at the end.
pub data LocalPhase : Type 0 where
  awaiting : Local → LocalPhase
  polling : Local → LocalPhase
  deciding : Local → LocalPhase
  returned : Local → LocalResult → LocalPhase
  stopped : LocalPhase

-- Before the claim; after it; between two rounds; after a read; in the wait for a connection.
pub data RemotePhase : Type 0 where
  scanning : RemotePhase
  claimed : RedisJson → RemotePhase
  following : Remote → RemotePhase
  judging : Remote → RemotePhase
  connecting : Remote → RemotePhase
  serving : Remote → RemotePhase
  gone : RemotePhase

-- The registration, the session's message, and the two ends.
pub data Session : Type 0 where
  at : Option RedisJson → Option RedisJson → LocalPhase → RemotePhase → Session

-- The events of a handler on the session's message; a write may fail, which nobody notices.
abbrev pub deliver : (works : Bool) → List PeerEvent → Option RedisJson → Option RedisJson
deliver works [] slot = slot
deliver works (sent _ _ j ∷ events) slot = deliver works events (if works then some j else slot)
deliver works (deleted _ ∷ events) slot = deliver works events none
deliver works (reported _ ∷ events) slot = deliver works events slot
deliver works (released _ ∷ events) slot = deliver works events slot
deliver works (created _ _ _ _ ∷ events) slot = deliver works events slot
deliver works (started _ ∷ events) slot = deliver works events slot

-- The end that writes, and the state that its message has.
pub data Writer : Type 0 where
  local_end : Writer
  remote_end : Writer

-- The messages that a handler has written, the last one first; a failed write is none.
abbrev pub wrote : Writer → (works : Bool) → List PeerEvent → List (Writer × ℤ)
wrote w works [] = []
wrote w works (sent _ _ j ∷ events) =
    wrote w works events ++ (if works then (w, j.state) ∷ [] else [])
wrote w works (deleted _ ∷ events) = wrote w works events
wrote w works (reported _ ∷ events) = wrote w works events
wrote w works (released _ ∷ events) = wrote w works events
wrote w works (created _ _ _ _ ∷ events) = wrote w works events
wrote w works (started _ ∷ events) = wrote w works events

abbrev pub after_round : Local → Option LocalResult → LocalPhase
after_round l none = polling l
after_round l (some r) = returned l r

abbrev pub after_offer : Bool → Remote → RemotePhase
after_offer true r = following r
after_offer false r = gone

abbrev pub after_judging : Remote → RemoteNext → RemotePhase
after_judging r again = following r
after_judging r wait_connection = connecting r
after_judging r serve_connection = serving r
after_judging r give_up = gone

module _ (local_version remote_version : Bytes) (timeout : ℕ) (transport : Bytes) (allow : Bool)
    (up : Tunnel → Bool) where
  abbrev pub offer_of : Option AddrType → RedisJson → Bool × Remote × List PeerEvent
  offer_of probe j = send_remote_addr remote_version timeout transport allow probe j

  abbrev pub round_of : Local → Local × Option LocalResult × List PeerEvent
  round_of l = local_round local_version up l l.json.state

  pub data Step : Session → Session → Type 0 where
    claims :
        (j : RedisJson) (slot : Option RedisJson) (l : LocalPhase)
        → Step (at (some j) slot l scanning) (at none slot l (claimed j))
    offers :
        (probe : Option AddrType) (works : Bool) (j : RedisJson) (reg slot : Option RedisJson)
        (l : LocalPhase)
        → Step (at reg slot l (claimed j)) (
            at reg
              (deliver works (offer_of probe j).2 slot)
              l
              (after_offer (offer_of probe j).0 (offer_of probe j).1))
    sees :
        (reg : Option RedisJson) (j : RedisJson) (l : Local) (r : RemotePhase)
        → Step (at reg (some j) (awaiting l) r) (at reg (some j) (polling (local_reads l j)) r)
    local_gets :
        (reg : Option RedisJson) (j : RedisJson) (l : Local) (r : RemotePhase)
        → Step (at reg (some j) (polling l) r) (at reg (some j) (deciding (local_reads l j)) r)
    local_acts :
        (works : Bool) (reg slot : Option RedisJson) (l : Local) (r : RemotePhase)
        → Step (at reg slot (deciding l) r) (
            at reg
              (deliver works (round_of l).2 slot)
              (after_round (round_of l).0 (round_of l).1)
              r)
    local_leaves :
        (reg slot : Option RedisJson) (l : LocalPhase) (r : RemotePhase)
        → Step (at reg slot l r) (at none slot stopped r)
    remote_gets :
        (reg : Option RedisJson) (j : RedisJson) (l : LocalPhase) (r : Remote)
        → Step
            (at reg (some j) l (following r))
            (at reg (some j) l (judging (remote_reads remote_version timeout r j)))
    remote_acts :
        (reg slot : Option RedisJson) (l : LocalPhase) (r : Remote)
        → Step
            (at reg slot l (judging r))
            (at reg slot l (after_judging r (remote_round r.json.state)))
    arrives :
        (arrival : Arrival) (works : Bool) (reg slot : Option RedisJson) (l : LocalPhase)
        (r : Remote)
        → Step (at reg slot l (connecting r)) (
            at reg
              (deliver works (end_wait arrival r).2 slot)
              l
              (after_judging (end_wait arrival r).0 (end_wait arrival r).1))
    remote_leaves :
        (reg slot : Option RedisJson) (l : LocalPhase) (r : RemotePhase)
        → Step (at reg slot l r) (at reg slot l gone)
    expires :
        (reg slot : Option RedisJson) (l : LocalPhase) (r : RemotePhase)
        → Step (at reg slot l r) (at reg none l r)

  -- The session that the local end has just registered.
  abbrev pub registered : Bytes → AddrType → ℕ → Session
  registered session addr count =
      let l = new_local local_version session addr count in
      at (some l.json) none (awaiting l) scanning

  pub data Reach (s : Session) : Session → Type 0 where
    here : Reach s s
    next : {t u : Session} → Reach s t → Step t u → Reach s u

  abbrev pub wrote_in : {s t : Session} → Step s t → List (Writer × ℤ)
  wrote_in (claims j slot l) = []
  wrote_in (offers probe works j reg slot l) = wrote remote_end works (offer_of probe j).2
  wrote_in (sees reg j l r) = []
  wrote_in (local_gets reg j l r) = []
  wrote_in (local_acts works reg slot l r) = wrote local_end works (round_of l).2
  wrote_in (local_leaves reg slot l r) = []
  wrote_in (remote_gets reg j l r) = []
  wrote_in (remote_acts reg slot l r) = []
  wrote_in (arrives arrival works reg slot l r) = wrote remote_end works (end_wait arrival r).2
  wrote_in (remote_leaves reg slot l r) = []
  wrote_in (expires reg slot l r) = []

  -- The messages that the steps have written, the last one first.
  abbrev pub messages : {s t : Session} → Reach s t → List (Writer × ℤ)
  messages here = []
  messages (next reach step) = wrote_in step ++ messages reach
