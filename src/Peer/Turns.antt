-- ===== src/Peer/Turns.antt =====
-- pro/local.go, pro/remote.go: which message each handler writes, and what it leads to.
use good_link.Base.{
  some, ◌≡◌, Option, none, ℤ, negsuc, pos, ℕ, Bool, List, ◌⊎◌, Bytes, inr, zero, false, Bool-cases,
  suc, inl, Option-cases, refl, true, not, ◌++◌, ◌==◌, ◌&&◌, ◌∷◌, [], ap,
}
use good_link.Config.Version.{versions_compatible}
use good_link.Peer.{RedisJson, Tunnel, AddrType, PeerEvent}
use good_link.Peer.Local.{
  Local, LocalResult, local_round, local_reads, process_remote_addr, open_tunnel, release_tunnel,
  connection_success,
}
use good_link.Peer.Remote.{
  Remote, send_remote_addr, remote_reads, offer_tunnel, refresh, Arrival, end_wait, on_active,
  remote_round, on_passive, timed_out,
}
use good_link.Peer.Steps.{
  Writer, local_end, remote_end, wrote, LocalPhase, awaiting, polling, deciding, returned, stopped,
  RemotePhase, following, judging, connecting, serving, gone, at, deliver, after_offer,
  after_judging, claimed, scanning,
}
use good_link.Peer.Stage.{
  messages_of, Stage, silent, refused, offered, answered, joined, timed_out_both, refuse, offer,
  answer, join, give_in, IsStateOf, IsSlotAt, IsLocalAt, IsRemoteAt, IsAt, Moves,
}

-- An end that reads the message learns the stage.
pub local_gets-IsLocalAt :
    (stage : Stage) (l : Local) (j : RedisJson)
    → IsStateOf stage j.state
    → IsLocalAt stage (deciding (local_reads l j))
unfolding local_reads
local_gets-IsLocalAt silent l j h = absurd h
local_gets-IsLocalAt refused l j h = h
local_gets-IsLocalAt offered l j h = h
local_gets-IsLocalAt answered l j h = h
local_gets-IsLocalAt joined l j h = inr h
local_gets-IsLocalAt timed_out_both l j h = inr h

module _ (version : Bytes) (timeout : ℕ) where
  pub remote_gets-IsRemoteAt :
      (stage : Stage) (r : Remote) (j : RedisJson)
      → IsStateOf stage j.state
      → IsRemoteAt stage (following r)
      → IsRemoteAt stage (judging (remote_reads version timeout r j))
  unfolding remote_reads
  remote_gets-IsRemoteAt silent r j h k = absurd h
  remote_gets-IsRemoteAt refused r j h k = absurd k
  remote_gets-IsRemoteAt offered r j h k = h
  remote_gets-IsRemoteAt answered r j h k = inr h
  remote_gets-IsRemoteAt joined r j h k = h
  remote_gets-IsRemoteAt timed_out_both r j h k = h

  abbrev one_offer : ℤ → List (Writer × ℤ)
  one_offer n = (remote_end, n) ∷ []

  offer_tunnel-sent :
      (transport : Bytes) (j : RedisJson) (port : ℕ)
      → j.state ≡ pos 1
      → IsSlotAt offered (deliver true (offer_tunnel transport j port).1 none)
        × (deliver false (offer_tunnel transport j port).1 none ≡ none)
        × (wrote remote_end true (offer_tunnel transport j port).1 ≡ messages_of offered)
        × (wrote remote_end false (offer_tunnel transport j port).1 ≡ [])
  unfolding offer_tunnel
  offer_tunnel-sent transport j zero h = (h, refl, ap one_offer h, refl)
  offer_tunnel-sent transport j (suc port) h = (h, refl, ap one_offer h, refl)

  -- The first message of the other end: a refusal, an offer, or nothing.
  abbrev pub AnswersFirst : Bool → Bool × Remote × List PeerEvent → Type 0
  AnswersFirst works (accepted, r, events) =
      (stage : Stage) × Moves silent stage
      × IsSlotAt stage (deliver works events none)
      × IsRemoteAt stage (after_offer accepted r)
      × (messages_of stage ≡ wrote remote_end works events ++ [])

  pub offer-AnswersFirst :
      (transport : Bytes) (allow works : Bool) (probe : Option AddrType) (j : RedisJson)
      → AnswersFirst works (send_remote_addr version timeout transport allow probe j)
  unfolding send_remote_addr
  offer-AnswersFirst transport allow works probe j =
      elim (Bool-cases (versions_compatible version j.local_version)) [
        | inr differ ↦ elim (Bool-cases works) [
          | inl written ↦ (
            refused,
            inr refuse,
            rw (send_remote_addr, differ, written) refl,
            rw (send_remote_addr, differ) tt,
            rw (send_remote_addr, differ, written) refl,
          )
          | inr lost ↦ (
            silent,
            inl refl,
            rw (send_remote_addr, differ, lost) tt,
            rw (send_remote_addr, differ) tt,
            rw (send_remote_addr, differ, lost) refl,
          )
        ]
        | inl same ↦ elim (Option-cases probe) [
          | inl failed ↦ (
            silent,
            inl refl,
            rw (send_remote_addr, same, failed) tt,
            rw (send_remote_addr, same, failed) tt,
            rw (send_remote_addr, same, failed) refl,
          )
          | inr (addr, found) ↦
              let made = record (refresh version timeout j) {
                state = pos 1;
                transport = transport;
                allow_local_proxy = some allow;
                remote_addr = addr;
              } in
              let (sent_it, lost_it, wrote_it, wrote_none) =
                offer_tunnel-sent transport made j.local_addr.wan_port1 refl in
              elim (Bool-cases works) [
                | inl written ↦ (
                  offered,
                  inr offer,
                  rw (send_remote_addr, same, found, written) sent_it,
                  rw (send_remote_addr, same, found) tt,
                  rw (send_remote_addr, same, found, written) (rw wrote_it refl),
                )
                | inr lost ↦ (
                  silent,
                  inl refl,
                  rw (send_remote_addr, same, found, lost) (rw lost_it tt),
                  rw (send_remote_addr, same, found) tt,
                  rw (send_remote_addr, same, found, lost) (rw wrote_none refl),
                )
              ]
        ]
      ]

pub release_tunnel-deliver :
    (works : Bool) (t : Option Tunnel) (events : List PeerEvent) (slot : Option RedisJson)
    → deliver works (release_tunnel t ++ events) slot ≡ deliver works events slot
unfolding release_tunnel
release_tunnel-deliver works none events slot = refl
release_tunnel-deliver works (some t) events slot = refl

release_tunnel-wrote :
    (works : Bool) (t : Option Tunnel) (events : List PeerEvent)
    → wrote local_end works (release_tunnel t ++ events) ≡ wrote local_end works events
unfolding release_tunnel
release_tunnel-wrote works none events = refl
release_tunnel-wrote works (some t) events = refl

abbrev Opens : Option RedisJson → List PeerEvent → Type 0
Opens slot events =
    IsSlotAt answered (deliver true events slot)
    × (deliver false events slot ≡ slot)
    × (wrote local_end true events ≡ (local_end, pos 2) ∷ [])
    × (wrote local_end false events ≡ [])

open_tunnel-answers :
    (l : Local) (kind : ℕ) (slot : Option RedisJson)
    → IsSlotAt offered slot
    → Opens slot (open_tunnel l kind).1
unfolding open_tunnel
open_tunnel-answers l zero slot h = (
  rw (release_tunnel-deliver true l.tun_passive _ slot) refl,
  release_tunnel-deliver false l.tun_passive _ slot,
  release_tunnel-wrote true l.tun_passive _,
  release_tunnel-wrote false l.tun_passive _,
)
open_tunnel-answers l (suc kind) slot h = (
  rw (release_tunnel-deliver true l.tun_active _ slot) refl,
  release_tunnel-deliver false l.tun_active _ slot,
  release_tunnel-wrote true l.tun_active _,
  release_tunnel-wrote false l.tun_active _,
)

module _ (version : Bytes) (up : Tunnel → Bool) where
  -- What a round leaves of the session's message, and where it leads.
  abbrev pub Lands :
      (Stage → Type 0)
      → Stage
      → Bool
      → Local × Option LocalResult × List PeerEvent
      → Option RedisJson
      → Type 0
  Lands P stage works (l, result, events) slot =
      (stage' : Stage) × Moves stage stage'
      × IsSlotAt stage' (deliver works events slot)
      × P stage'
      × (messages_of stage' ≡ wrote local_end works events ++ messages_of stage)

  abbrev pub AfterOffer : Stage → Type 0
  AfterOffer stage = (stage ≡ offered) ⊎ (stage ≡ answered)

  pub round-offered :
      (works : Bool) (l : Local) (slot : Option RedisJson)
      → IsSlotAt offered slot
      → Lands AfterOffer offered works (local_round version up l (pos 1)) slot
  unfolding local_round process_remote_addr
  round-offered works l slot h =
      elim (Bool-cases (versions_compatible version l.json.remote_version)) [
        | inr differ ↦ (
          offered,
          inl refl,
          rw (process_remote_addr, differ) tt,
          inl refl,
          rw (process_remote_addr, differ) refl,
        )
        | inl same ↦
            elim (Bool-cases (
              not (l.addr.wan_port1 == l.addr.wan_port2)
              && not (l.json.remote_addr.wan_port1 == l.json.remote_addr.wan_port2))) [
                | inl both ↦ (
                  offered,
                  inl refl,
                  rw (process_remote_addr, same, both) tt,
                  inl refl,
                  rw (process_remote_addr, same, both) refl,
                )
                | inr direct ↦
                    let (sent_it, lost_it, wrote_it, wrote_none) =
                      open_tunnel-answers l l.conn_type slot h in
                    elim (Bool-cases works) [
                      | inl written ↦ (
                        answered,
                        inr answer,
                        rw (process_remote_addr, same, direct, written) sent_it,
                        inr refl,
                        rw (process_remote_addr, same, direct, written) (rw wrote_it refl),
                      )
                      | inr lost ↦ (
                        offered,
                        inl refl,
                        rw (process_remote_addr, same, direct, lost) (rw lost_it h),
                        inl refl,
                        rw (process_remote_addr, same, direct, lost) (rw wrote_none refl),
                      )
                    ]
              ]
      ]

  -- A round that is not on an offer writes nothing; it may delete.
  pub round_quiet :
      (stage : Stage) (works : Bool) (l : Local) (n : ℤ) (slot : Option RedisJson)
      → (n ≡ negsuc 0) ⊎ (n ≡ pos 2) ⊎ (n ≡ pos 3) ⊎ (n ≡ pos 4)
      → IsSlotAt stage slot
      → IsSlotAt stage (deliver works (local_round version up l n).2 slot)
  unfolding local_round
  round_quiet stage works l n slot (inl e) h = rw e tt
  round_quiet stage works l n slot (inr (inl e)) h = rw e h
  round_quiet stage works l n slot (inr (inr (inl e))) h =
      rw e (elim (Option-cases (connection_success up l)) [
        | inl failed ↦ rw (local_round, failed) h
        | inr (t, known) ↦ rw (local_round, known) h
      ])
  round_quiet stage works l n slot (inr (inr (inr e))) h = rw e h

module _ (version : Bytes) (up : Tunnel → Bool) where
  pub round_silent :
      (works : Bool) (l : Local) (n : ℤ)
      → (n ≡ negsuc 0) ⊎ (n ≡ pos 2) ⊎ (n ≡ pos 3) ⊎ (n ≡ pos 4)
      → wrote local_end works (local_round version up l n).2 ≡ []
  unfolding local_round
  round_silent works l n (inl e) = rw e refl
  round_silent works l n (inr (inl e)) = rw e refl
  round_silent works l n (inr (inr (inl e))) = rw e (elim (Option-cases (connection_success up l)) [
    | inl failed ↦ rw (local_round, failed) refl
    | inr (t, known) ↦ rw (local_round, known) refl
  ])
  round_silent works l n (inr (inr (inr e))) = rw e refl

-- The local end, when the other end has written the last message.
answered-IsLocalAt :
    (l : LocalPhase) → IsLocalAt answered l → IsLocalAt joined l × IsLocalAt timed_out_both l
answered-IsLocalAt (awaiting l) h = absurd h
answered-IsLocalAt (polling l) h = (tt, tt)
answered-IsLocalAt (deciding l) h = (inl h, inl h)
answered-IsLocalAt (returned l r) h = (tt, tt)
answered-IsLocalAt stopped h = (tt, tt)

abbrev pub ArrivesAt : Arrival → Bool → LocalPhase → Remote → Option RedisJson → Type 0
ArrivesAt arrival works l r slot =
    (stage : Stage) × Moves answered stage
    × IsAt stage (
        at none (deliver works (end_wait arrival r).2 slot) l
          (after_judging (end_wait arrival r).0 (end_wait arrival r).1))
    × (messages_of stage ≡ wrote remote_end works (end_wait arrival r).2 ++ messages_of answered)

pub arrives-IsAt :
    (arrival : Arrival) (works : Bool) (l : LocalPhase) (r : Remote) (slot : Option RedisJson)
    → IsSlotAt answered slot
    → IsLocalAt answered l
    → ArrivesAt arrival works l r slot
unfolding end_wait
arrives-IsAt (on_active true) true l r slot h k =
    (joined, inr join, (refl, (answered-IsLocalAt l k).0, tt), refl)
arrives-IsAt (on_active false) true l r slot h k =
    (joined, inr join, (refl, (answered-IsLocalAt l k).0, tt), refl)
arrives-IsAt (on_passive true) true l r slot h k =
    (joined, inr join, (refl, (answered-IsLocalAt l k).0, tt), refl)
arrives-IsAt (on_passive false) true l r slot h k =
    (joined, inr join, (refl, (answered-IsLocalAt l k).0, tt), refl)
arrives-IsAt timed_out true l r slot h k =
    (timed_out_both, inr give_in, (refl, (answered-IsLocalAt l k).1, tt), refl)
arrives-IsAt (on_active true) false l r slot h k = (answered, inl refl, (h, k, tt), refl)
arrives-IsAt (on_active false) false l r slot h k = (answered, inl refl, (h, k, tt), refl)
arrives-IsAt (on_passive true) false l r slot h k = (answered, inl refl, (h, k, tt), refl)
arrives-IsAt (on_passive false) false l r slot h k = (answered, inl refl, (h, k, tt), refl)
arrives-IsAt timed_out false l r slot h k = (answered, inl refl, (h, k, tt), refl)

-- What a judging end does next, at each stage.
pub judges-IsRemoteAt :
    (stage : Stage) (r : Remote)
    → IsRemoteAt stage (judging r)
    → IsRemoteAt stage (after_judging r (remote_round r.json.state))
unfolding remote_round
judges-IsRemoteAt silent r h = absurd h
judges-IsRemoteAt refused r h = absurd h
judges-IsRemoteAt offered r h = rw h tt
judges-IsRemoteAt answered r (inl h) = rw h tt
judges-IsRemoteAt answered r (inr h) = rw h tt
judges-IsRemoteAt joined r h = rw h tt
judges-IsRemoteAt timed_out_both r h = rw h tt

-- The other end is not disturbed by an answer to its offer.
pub answer-IsRemoteAt : (r : RemotePhase) → IsRemoteAt offered r → IsRemoteAt answered r
answer-IsRemoteAt scanning h = absurd h
answer-IsRemoteAt (claimed j) h = absurd h
answer-IsRemoteAt (following r) h = tt
answer-IsRemoteAt (judging r) h = inl h
answer-IsRemoteAt (connecting r) h = absurd h
answer-IsRemoteAt (serving r) h = absurd h
answer-IsRemoteAt gone h = tt
