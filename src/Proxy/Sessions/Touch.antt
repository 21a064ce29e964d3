-- ===== src/Proxy/Sessions/Touch.antt =====
-- What `udpFwdSession.write` leaves as it is in the table.
use good_link.Base.{none, some, [], refl, Bytes, ℕ, ◌≡◌, arith, length, ◌∷◌}
use good_link.Dict.{lookup}
use good_link.Proxy.Sessions.{UdpFwdSession, Sessions, streams, touch}
use good_link.Proxy.Sessions.Table.{IsKeyed}

pub lookup-touch-none :
    (k j : Bytes) (now : ℕ) (m : Sessions) → lookup j m ≡ none → lookup j (touch k now m) ≡ none
unfolding lookup touch
lookup-touch-none k j now [] h = refl
lookup-touch-none k j now ((i, s) ∷ m) h = ground (arith, lookup-touch-none k j now m)

pub lookup-touch :
    (k : Bytes) (now : ℕ) (s : UdpFwdSession) (m : Sessions)
    → lookup k m ≡ some s
    → lookup k (touch k now m) ≡ some (record s { last_used = now })
unfolding lookup touch
lookup-touch k now s [] h = absurd (ground arith)
lookup-touch k now s ((i, v) ∷ m) h = ground (arith, lookup-touch k now s m)

pub touch-IsKeyed : (k : Bytes) (now : ℕ) (m : Sessions) → IsKeyed m → IsKeyed (touch k now m)
unfolding touch
touch-IsKeyed k now [] h = tt
touch-IsKeyed k now ((i, s) ∷ m) h =
    ground (arith, touch-IsKeyed k now m h.2, lookup-touch-none k i now m h.0)

pub length-touch : (k : Bytes) (now : ℕ) (m : Sessions) → length (touch k now m) ≡ length m
unfolding touch
length-touch k now [] = refl
length-touch k now ((i, s) ∷ m) = ground (arith, length-touch k now m)

pub streams-touch : (k : Bytes) (now : ℕ) (m : Sessions) → streams (touch k now m) ≡ streams m
unfolding touch
streams-touch k now [] = refl
streams-touch k now ((i, s) ∷ m) = ground (arith, streams-touch k now m)
