-- ===== src/Peer/Probe.antt =====
-- pro/comm.go: `GetUDPAddr`, on what each attempt meets.
use good_link.Base.{
  none, if◌then◌else◌, true, Bytes, suc, ◌⊎◌, ◌<◌, ◌≤◌, not, Option, ◌+◌, false, ◌||◌, some, ℕ, ◌≡◌,
  [], Bool, ◌==◌, zero, ◌≢◌,
}
use good_link.Net.{equal}
use good_link.Peer.{AddrType}

-- Whether the first socket opens and under which port, what the STUN servers tell, and whether the
-- second socket opens.
pub record Attempt : Type 0 where
  pub opens : Bool
  pub port : ℕ
  pub wan_ipv4 : Bytes
  pub wan_port1 : ℕ
  pub wan_port2 : ℕ
  pub wan_port3 : ℕ
  pub reopens : Bool

abbrev pub max_attempts : ℕ
max_attempts = 5

unfoldable pub attempt_addr : AddrType → Attempt → AddrType
attempt_addr addr a = record addr {
  local_port = a.port;
  wan_ipv4 = a.wan_ipv4;
  wan_port1 = a.wan_port1;
  wan_port2 = a.wan_port2;
  wan_port3 = a.wan_port3;
}

unfoldable pub stun_failed : Attempt → Bool
stun_failed a = equal a.wan_ipv4 [] || a.wan_port1 == 0 || a.wan_port2 == 0

-- The loop, for as many attempts as are left.
unfoldable pub probe_from : (ℕ → Attempt) → ℕ → ℕ → AddrType → Option AddrType
unfolding attempt_addr stun_failed
probe_from attempts zero n addr = none
probe_from attempts (suc left) n addr =
    let a = attempts n in
    let known = attempt_addr addr a in
    let retry = probe_from attempts left (suc n) addr in
    let later = probe_from attempts left (suc n) known in
    let fresh = probe_from attempts left (suc n) (record known { local_port = 0 }) in
    if not a.opens
    then retry
    else if stun_failed a
    then fresh
    else if a.reopens
    then some known
    else later

unfoldable pub get_udp_addr : (ℕ → Attempt) → (local_ipv4 ipv6 : Bytes) → Option AddrType
unfolding probe_from
get_udp_addr attempts local_ipv4 ipv6 = probe_from attempts max_attempts 1 (record {
  local_ipv4 = local_ipv4;
  ipv6 = ipv6;
  local_port = 0;
  wan_ipv4 = [];
  wan_port1 = 0;
  wan_port2 = 0;
  wan_port3 = 0;
})

abbrev pub IsUseless : Attempt → Type 0
IsUseless a = (a.opens ≡ false) ⊎ (stun_failed a ≡ true) ⊎ (a.reopens ≡ false)

-- Both sockets open, and the servers have told an address and two ports.
abbrev pub IsUseful : Attempt → Type 0
IsUseful a =
    (a.opens ≡ true)
    × (a.wan_ipv4 ≢ [])
    × (a.wan_port1 ≢ 0)
    × (a.wan_port2 ≢ 0)
    × (a.reopens ≡ true)

-- The addresses of this computer, with what the attempt found.
abbrev pub IsFrom : AddrType → Bytes → Bytes → Attempt → Type 0
IsFrom addr local_ipv4 ipv6 a = addr ≡ record {
  local_ipv4 = local_ipv4;
  ipv6 = ipv6;
  local_port = a.port;
  wan_ipv4 = a.wan_ipv4;
  wan_port1 = a.wan_port1;
  wan_port2 = a.wan_port2;
  wan_port3 = a.wan_port3;
}

abbrev ProbeCases : (ℕ → Attempt) → ℕ → ℕ → Bytes → Bytes → Option AddrType → Type 0
ProbeCases attempts left n local_ipv4 ipv6 none =
    (k : ℕ) → n ≤ k → k < n + left → IsUseless (attempts k)
ProbeCases attempts left n local_ipv4 ipv6 (some addr) =
    (k : ℕ) × (n ≤ k)
    × (k < n + left)
    × IsFrom addr local_ipv4 ipv6 (attempts k)
    × ((attempts k).opens ≡ true)
    × (stun_failed (attempts k) ≡ false)
    × ((attempts k).reopens ≡ true)
    × ((i : ℕ) → n ≤ i → i < k → IsUseless (attempts i))

abbrev pub GetCases : (ℕ → Attempt) → Bytes → Bytes → Option AddrType → Type 0
GetCases attempts local_ipv4 ipv6 none = (k : ℕ) → 1 ≤ k → k ≤ 5 → IsUseless (attempts k)
GetCases attempts local_ipv4 ipv6 (some addr) =
    (k : ℕ) × (1 ≤ k)
    × (k ≤ 5)
    × IsFrom addr local_ipv4 ipv6 (attempts k)
    × IsUseful (attempts k)
    × ((i : ℕ) → 1 ≤ i → i < k → IsUseless (attempts i))
