-- ===== src/Proxy/Sessions/Tests.antt =====
-- The theorems on the sessions at a short run of the goroutines.
use good_link.Base.{◌∷◌, refl, true, ◌≡◌, [], Bytes}
use good_link.Dict.{lookup}
use good_link.Net.{equal}
use good_link.Proxy.Sessions.{UdpFwdSession, Sessions, UdpClient, drop_session, sweep}
use good_link.Proxy.Sessions.Table.{IsKeyed, count}
use good_link.Proxy.Sessions.Threads.{
  System, Reach, start, begin_session, on_client, begin, drop_one, tick, at_start, step_after,
}
use good_link.Proxy.Sessions.Bounds.{IsSound, Reach-IsSound}
use good_link.Proxy.Sessions.Leaks.{tally, Reach-tally}

abbrev key : Bytes
key = 49 ∷ 58 ∷ 57 ∷ []

abbrev other_key : Bytes
other_key = 50 ∷ []

abbrev young : UdpFwdSession
young = record { stream = 4; created_at = 20; last_used = 30 }

abbrev old : UdpFwdSession
old = record { stream = 8; created_at = 10; last_used = 40 }

abbrev table : Sessions
table = (key, young) ∷ (other_key, old) ∷ []

table-IsKeyed : IsKeyed table
unfolding lookup equal
table-IsKeyed = (refl, (λ e. cc), (refl, (λ e. cc), tt))

abbrev client : UdpClient
client = record { sessions = table; sweeping = true; closing = [] }

abbrev late : UdpFwdSession
late = record { stream = 12; created_at = 50; last_used = 50 }

abbrev begun : System
begun = begin_session key young start

abbrev later : System
later = on_client (drop_session key) (on_client (sweep 90) begun)

later-Reach : Reach later
later-Reach =
    step_after (step_after (step_after at_start (begin key young (λ e. cc) refl)) (tick 90))
      (drop_one key)

Reach-IsSound_example : IsSound later
Reach-IsSound_example = Reach-IsSound later later-Reach

Reach-tally_example : tally 4 later ≡ count 4 later.opened
Reach-tally_example = Reach-tally 4 later later-Reach
