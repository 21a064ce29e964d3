-- ===== src/Peer/Tests.antt =====
-- A session between two ends.
use good_link.Base.{
  true, [], some, none, Bool, Bytes, ◌∷◌, pos, ◌≤◌, ◌⊎◌, refl, arith, ◌==◌, ◌≡◌, ◌++◌, ℕ, Option,
  if◌then◌else◌, false, ◌<◌, ◌+◌,
}
use good_link.Net.{equal}
use good_link.Config.Version.{versions_compatible, split_dots, compatible_segments}
use good_link.Config.Text.{
  normalize_transport, trim_space, trim_left, trim_right, is_space, to_lower, lower_rune, kcp_name,
}
use good_link.Peer.{RedisJson, Tunnel, AddrType, merge, session_transport, no_addr, proxy_allowed}
use good_link.Peer.Local.{
  Local, connected, conn_type_of, new_local, register_json, local_reads, local_round,
  process_remote_addr, open_tunnel, release_tunnel, connection_success, no_connection,
}
use good_link.Peer.Remote.{
  Remote, remote_reads, refresh, send_remote_addr, offer_tunnel, end_wait, remote_round, on_passive,
}
use good_link.Peer.Steps.{
  Session, at, Reach, registered, returned, serving, awaiting, claims, offers, sees, local_gets,
  local_acts, remote_gets, remote_acts, arrives, here, next,
}
use good_link.Peer.Agree.{local_tunnel, IsNothingBut}
use good_link.Peer.Fits.{mirror, Reach-fits}
use good_link.Peer.Stage.{Stage, IsAt}
use good_link.Peer.Refines.{Reach-IsAt}
use good_link.Peer.Steps.{messages}
use good_link.Peer.Stage.{messages_of}
use good_link.Peer.Probe.{Attempt}
use good_link.Peer.Attempts.{Round, Run, runs, gave_up, run_local, run_local-IsVain}
use good_link.Peer.Store.{open_sealed, IsHeard, session_get-session_set}

abbrev version : Bytes
version = b'3' ∷ b'.' ∷ b'4' ∷ []

abbrev session : Bytes
session = 7 ∷ 8 ∷ []

abbrev here_addr : AddrType
here_addr = record no_addr { wan_ipv4 = b'1' ∷ []; wan_port1 = 4000; wan_port2 = 4000 }

abbrev there_addr : AddrType
there_addr = record no_addr { wan_ipv4 = b'2' ∷ []; wan_port1 = 5000; wan_port2 = 5001 }

abbrev is_up : Tunnel → Bool
is_up _ = true

abbrev Run0 : Session → Type 0
Run0 =
    Reach version version 30 kcp_name true is_up
      (registered version version 30 kcp_name true is_up session here_addr 1)

abbrev request : RedisJson
request = (new_local version session here_addr 1).json

abbrev offer : RedisJson
offer = (send_remote_addr version 30 kcp_name true (some there_addr) request).1.json

abbrev first : Local
first = local_reads (new_local version session here_addr 1) offer

abbrev decided : Local
decided = (local_round version is_up (local_reads first offer) (pos 1)).0

abbrev judged : Remote
judged =
    remote_reads version 30 (send_remote_addr version 30 kcp_name true (some there_addr) request).1
      decided.json

abbrev joined : Remote
joined = (end_wait (on_passive true) judged).0

abbrev last : Local
last = local_reads decided joined.json

whole_session : Run0 (
    at none
      (some joined.json)
      (returned last (connected (local_tunnel session here_addr kcp_name true) true))
      (serving joined))
unfolding new_local register_json conn_type_of send_remote_addr refresh offer_tunnel local_reads
    merge local_round process_remote_addr open_tunnel release_tunnel connection_success
    proxy_allowed session_transport remote_reads remote_round end_wait versions_compatible
    split_dots compatible_segments equal normalize_transport trim_space trim_left trim_right
    is_space to_lower lower_rune
whole_session =
    next
      (next
        (next
          (next
            (next
              (next
                (next
                  (next
                    (next
                      (next here
                        (claims request none (awaiting (new_local version session here_addr 1))))
                      (offers (some there_addr) true request none none
                        (awaiting (new_local version session here_addr 1))))
                    (sees none offer (new_local version session here_addr 1) _))
                  (local_gets none offer first _))
                (local_acts true none (some offer) (local_reads first offer) _))
              (remote_gets none decided.json _ _))
            (remote_acts none (some decided.json) _ judged))
          (arrives (on_passive true) true none (some decided.json) _ judged))
        (local_gets none joined.json decided _))
      (local_acts true none (some joined.json) last _)

Reach-fits_example :
    (true ≡ true)
    × (local_tunnel session here_addr kcp_name true ≡ local_tunnel session here_addr kcp_name true)
    × IsNothingBut (mirror (local_tunnel session here_addr kcp_name true)) joined.tun_active
    × IsNothingBut (mirror (local_tunnel session here_addr kcp_name true)) joined.tun_passive
unfolding session_transport normalize_transport trim_space trim_left trim_right is_space to_lower
    lower_rune equal
Reach-fits_example =
    Reach-fits session here_addr kcp_name true version version 30 is_up refl 1 none
      (some joined.json) last (local_tunnel session here_addr kcp_name true) true joined
      (λ e. absurd (omega (arith, e))) whole_session

Reach-IsAt_example :
    (stage : Stage) × (messages version version 30 kcp_name true is_up whole_session
      ≡ messages_of stage)
    × IsAt stage (
        at none
          (some joined.json)
          (returned last (connected (local_tunnel session here_addr kcp_name true) true))
          (serving joined))
Reach-IsAt_example =
    Reach-IsAt version version 30 kcp_name true is_up session here_addr 1 whole_session

-- The servers are heard on the second attempt.
abbrev attempts : ℕ → Attempt
attempts n = record {
  opens = true;
  port = 9000 + n;
  wan_ipv4 = if n == 1 then [] else b'1' ∷ [];
  wan_port1 = 4000;
  wan_port2 = 4000;
  wan_port3 = 0;
  reopens = true;
}

abbrev vain : Round
vain = record { probed = true; netstack = runs; result = no_connection; is_stopped = false }

abbrev begun : Run
begun = record { count = 13; is_running = true; netstack_started = false }

run_local-IsVain_example :
    (let (run, error, events) = run_local true (vain ∷ vain ∷ []) begun in
      ((begun.count + 2 < 15) × (error ≡ none) × (run.is_running ≡ true) × (run.count ≡ 15))
      ⊎ ((15 ≤ begun.count + 2) × (error ≡ some gave_up) × (run.count ≡ 15)))
run_local-IsVain_example =
    run_local-IsVain true (vain ∷ vain ∷ []) begun
      ((refl, refl, refl, refl), ((refl, refl, refl, refl), tt)) refl (omega arith)

abbrev plain_seal : RedisJson → Bytes → Bytes
plain_seal j key = j.session_id ++ key

abbrev only_request : Bytes → Bytes → Option RedisJson
only_request sealed key = some request

abbrev same_key : Bytes → Bytes
same_key k = k

session_get-session_set_example :
    IsHeard same_key plain_seal only_request request offer version session []
unfolding open_sealed new_local
session_get-session_set_example =
    session_get-session_set same_key plain_seal only_request request offer version session [] refl
      (λ e. absurd (cc e))
