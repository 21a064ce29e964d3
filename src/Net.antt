-- ===== src/Net.antt =====
-- What the program uses of Go's `net`: addresses as bytes, `IP.To4` and `IP.To16`.
use good_link.Base.{
  ℕ, ◌↔◌, ◌&&◌, ◌||◌, Bool, Option, drop, ◌∷◌, arith, true, if◌then◌else◌, none, ◌++◌, ◌==◌, [],
  false, Bytes, some, ◌≡◌, length, length-drop, take,
}

-- `net.IP`: four bytes, or sixteen.
abbrev pub Ip : Type 0
Ip = Bytes

-- `net.UDPAddr`; a port is below 65536.
pub record UdpAddr : Type 0 where
  pub ip : Ip
  pub port : ℕ

-- Byte strings are compared as `bytes.Equal` does it.
unfoldable pub equal : Bytes → Bytes → Bool
equal [] [] = true
equal (b ∷ bs) (c ∷ cs) = b == c && equal bs cs
equal _ _ = false

-- The first twelve bytes of an IPv4 address in sixteen bytes.
abbrev pub v4_in_v6_prefix : Bytes
v4_in_v6_prefix = 0 ∷ 0 ∷ 0 ∷ 0 ∷ 0 ∷ 0 ∷ 0 ∷ 0 ∷ 0 ∷ 0 ∷ 0xff ∷ 0xff ∷ []

-- `IP.To4`; `none` is nil.
unfoldable pub to4 : Ip → Option Ip
unfolding equal
to4 ip =
    if length ip == 4
    then some ip
    else if length ip == 16 && equal (take 12 ip) v4_in_v6_prefix
    then some (drop 12 ip)
    else none

-- `IP.To16`; the empty address is nil.
unfoldable pub to16 : Ip → Ip
to16 ip = if length ip == 4 then v4_in_v6_prefix ++ ip else if length ip == 16 then ip else []

-- `IP.Equal`: an IPv4 address equals its form in sixteen bytes.
unfoldable pub ip_equal : Ip → Ip → Bool
unfolding equal to16
ip_equal a b =
    if length a == length b
    then equal a b
    else if length a == 4 && length b == 16 || length a == 16 && length b == 4
    then equal (to16 a) (to16 b)
    else false

pub equal_iff : (bs cs : Bytes) → (equal bs cs ≡ true) ↔ (bs ≡ cs)
unfolding equal
equal_iff (b ∷ bs) (c ∷ cs) = ground (arith, equal_iff bs cs)
equal_iff _ _ = ground arith

pub length-to4 : (ip : Ip) {ip4 : Ip} → to4 ip ≡ some ip4 → length ip4 ≡ 4
unfolding to4
length-to4 ip h = ground (arith, length-drop 12 ip)
