-- ===== src/Stun/Server.antt =====
-- stun2/svr.go: the table of transactions, from which the server tells the kind of NAT, and the
-- handler of one request. Time is in nanoseconds.
pub mod Table
pub mod Nat
pub mod Invariant
use good_link.Base.{
  List, ok, Option, Outcome, ◌&&◌, [], ℕ, ◌>>=◌, ltb, leb, ◌∷◌, Bytes, not, none, some, ◌-◌, ◌>>◌,
  length, ◌==◌, slice, if◌then◌else◌, Bool,
}
use good_link.Dict.{Dict, lookup, delete, put}
use good_link.Wire.{uint16}
use good_link.Net.{UdpAddr, equal, ip_equal}
use good_link.Stun.Message.{StunError, magic_cookie_bytes, build_binding_response}

pub record Txn : Type 0 where
  pub primary_addr : Option UdpAddr
  pub secondary_addr : Option UdpAddr
  pub first_seen : ℕ

abbrev pub Txns : Type 0
Txns = Dict Txn

pub record StunServer : Type 0 where
  pub txns : Txns
  pub primary_port : ℕ
  pub secondary_port : ℕ

pub data NatType : Type 0 where
  nat1_nat3 nat4 : NatType

abbrev pub three_seconds : ℕ
three_seconds = 3_000_000_000

-- `now.Sub(firstSeen) > 3*time.Second`
abbrev pub expired : ℕ → Txn → Bool
expired now txn = ltb three_seconds (now - txn.first_seen)

-- The loop that deletes the old entries.
unfoldable pub expire : ℕ → Txns → Txns
expire now [] = []
expire now ((k, v) ∷ m) = let rest = expire now m in if expired now v then rest else (k, v) ∷ rest

unfoldable pub addr_equal : UdpAddr → UdpAddr → Bool
addr_equal a b = ip_equal a.ip b.ip && a.port == b.port

abbrev pub fresh : ℕ → Txn
fresh now = record { primary_addr = none; secondary_addr = none; first_seen = now }

-- `if !exists || now.Sub(state.firstSeen) > 3*time.Second { state = &txnState{...} }`
unfoldable pub state_of : ℕ → Option Txn → Txn
state_of now none = fresh now
state_of now (some v) = if expired now v then fresh now else v

-- The switch on the local port.
unfoldable pub note_addr : StunServer → ℕ → UdpAddr → Txn → Txn
note_addr s local_port remote v =
    if local_port == s.primary_port
    then record v { primary_addr = some remote }
    else if local_port == s.secondary_port
    then record v { secondary_addr = some remote }
    else v

-- Both addresses are known, and not too far apart.
unfoldable pub verdict : ℕ → Txn → Option NatType
verdict now v = elim v.primary_addr [
  | none ↦ none
  | some a ↦ elim v.secondary_addr [
    | none ↦ none
    | some b ↦
        if leb (now - v.first_seen) three_seconds
        then some (if addr_equal a b then nat1_nat3 else nat4)
        else none
  ]
]

-- The section under the lock: the table after it, and what it logs.
unfoldable pub track : StunServer → ℕ → UdpAddr → Bytes → ℕ → StunServer × Option NatType
track s local_port remote tid now =
    let live = expire now s.txns in
    let v = note_addr s local_port remote (state_of now (lookup tid live)) in
    let told = verdict now v in
    (
      record s {
        txns = elim told [ none ↦ put tid v live | some _ ↦ delete tid (put tid v live) ];
      },
      told,
    )

pub record Handled : Type 0 where
  pub server : StunServer
  pub nat : Option NatType
  pub reply : Option Bytes

-- `handleStunRequest`: what is sent back, if anything, is `reply`. `changed` is the attribute that
-- `buildChangedAddress` makes of the other listener's address.
unfoldable pub handle_stun_request :
    StunServer → ℕ → UdpAddr → Bytes → Bytes → ℕ → Outcome StunError Handled
handle_stun_request s local_port remote message changed now = do
  kind ← slice message 0 2
  msg_type ← uint16 kind
  cookie ← slice message 4 8
  let ignored = ok (record { server = s; nat = none; reply = none })
  let handled = (do
    tid ← slice message 8 20
    let (s', told) = track s local_port remote tid now
    let silent = ok (record { server = s'; nat = told; reply = none })
    let answered = (do
      response ← build_binding_response remote tid changed
      ok (record { server = s'; nat = told; reply = some response }))
    if msg_type == 0x0001 then answered else silent)
  if not (equal cookie magic_cookie_bytes) then ignored else handled

-- One round of `handleConnection`: a packet of less than twenty bytes is dropped.
unfoldable pub handle_packet :
    StunServer → ℕ → UdpAddr → Bytes → Bytes → ℕ → Outcome StunError Handled
handle_packet s local_port remote packet changed now =
    let handled = handle_stun_request s local_port remote packet changed now in
    if ltb (length packet) 20 then ok (record { server = s; nat = none; reply = none }) else handled
