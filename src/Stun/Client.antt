-- ===== src/Stun/Client.antt =====
-- stun2/cli.go: the parser of a binding response.
pub mod Safety
use good_link.Base.{
  ◌++◌, ◌>>◌, drop, ◌+◌, stuck, length, if◌then◌else◌, ◌*◌, take, ℕ, suc, ◌/◌, ◌>>=◌, slice, zero,
  ok, bit_xor, Bytes, ◌∷◌, Outcome, not, ltb, fail_if, err, ◌||◌, panic, ◌==◌, min, ◌-◌, ◌%◌, Bool,
}
use good_link.Wire.{uint16}
use good_link.Net.{equal}
use good_link.Stun.Message.{
  magic_cookie_bytes, StunError, attr_length_overflow, short_address, short_ipv4, short_ipv6,
  unknown_family, short_cookie, short_transaction_id, attr_not_found, invalid_response,
  invalid_cookie, transaction_mismatch, attr_mapped_address, attr_xor_mapped_address,
  attr_changed_address, xor_bytes,
}

-- An address and a port, and the attribute bytes after the call: the exclusive or is made in place.
pub record Parsed : Type 0 where
  pub ip : Bytes
  pub port : ℕ
  pub buffer : Bytes

-- `attributeValue[1]`
unfoldable pub index_one : Bytes → Outcome StunError ℕ
index_one (_ ∷ b ∷ _) = ok b
index_one _ = panic

-- The switch on the family: the address, `attributeValue[4:8]` or `[4:20]`.
unfoldable pub address_of : ℕ → Bytes → Outcome StunError Bytes
unfolding slice
address_of family value =
    if family == 1
    then (do fail_if (ltb (length value) 8) short_ipv4; slice value 4 8)
    else if family == 2
    then (do fail_if (ltb (length value) 20) short_ipv6; slice value 4 20)
    else err unknown_family

-- The two loops that undo the exclusive or with the cookie, and for IPv6 with the transaction id.
unfoldable pub unmask : ℕ → Bytes → Bytes → Bytes → Outcome StunError Bytes
unmask family ip magic_cookie transaction_id = do
  fail_if (ltb (length magic_cookie) 4) short_cookie
  fail_if (ltb (length transaction_id) 12) short_transaction_id
  head ← xor_bytes 4 ip magic_cookie
  if family == 2
      then (do rest ← xor_bytes (length ip - 4) (drop 4 ip) transaction_id; ok (head ++ rest))
      else ok (head ++ drop 4 ip)

-- From the address on; `masked` is `attrType == 0x0020`.
unfoldable pub decode_address :
    Bool → Bytes → Bytes → ℕ → Bytes → Bytes → Bytes → Outcome StunError Parsed
decode_address masked attributes value family ip magic_cookie transaction_id = do
  port ← slice value 2 4
  ip' ← (if masked then unmask family ip magic_cookie transaction_id else ok ip)
  port2 ← uint16 port
  ok (record {
    ip = ip';
    port = if masked then bit_xor port2 0x2112 else port2;
    buffer = take 8 attributes ++ (ip' ++ drop (8 + length ip') attributes);
  })

unfoldable pub get_stun_ip_port5 : ℕ → Bytes → ℕ → Bytes → Bytes → Outcome StunError Parsed
get_stun_ip_port5 attr_type attributes attr_length magic_cookie transaction_id = do
  fail_if (ltb (length attributes) 4 || ltb (length attributes) (attr_length + 4))
      attr_length_overflow
  value ← slice attributes 4 (4 + attr_length)
  fail_if (ltb (length value) 2) short_address
  family ← index_one value
  ip ← address_of family value
  decode_address (attr_type == attr_xor_mapped_address) attributes value family ip magic_cookie
      transaction_id

-- `binary.BigEndian.Uint16(bs[lo : lo+2])`
unfoldable pub uint16_at : Bytes → ℕ → Outcome StunError ℕ
uint16_at bs lo = do field ← slice bs lo (lo + 2); uint16 field

-- `int((attrLength + 3) &^ 3)`, where the sum is a `uint16`.
abbrev pub padded_len : ℕ → ℕ
padded_len attr_length = (attr_length + 3) % 65536 / 4 * 4

module _ (response : Bytes) (limit need_type : ℕ) (magic_cookie transaction_id : Bytes) where
  -- The loop from `start`, on fuel. `buffer` is the whole response after the call.
  unfoldable pub scan_attributes : ℕ → ℕ → Outcome StunError Parsed
  scan_attributes zero start = stuck
  scan_attributes (suc fuel) start =
      let found = do
        attributes ← slice response start limit
        attr_type ← uint16_at attributes 0
        attr_length ← uint16_at attributes 2
        let padded = padded_len attr_length
        let next = scan_attributes fuel (start + 4 + padded)
        let parse = do
          p ← get_stun_ip_port5 attr_type attributes attr_length magic_cookie transaction_id
          ok (record p { buffer = take start response ++ (p.buffer ++ drop limit response) })
        if ltb (length attributes) (4 + padded)
            then err attr_not_found
            else if attr_type == need_type
            then parse
            else next
      in if ltb limit (start + 4) then err attr_not_found else found

-- Each round goes four bytes on at least, so `limit` rounds and one more are enough.
unfoldable pub get_stun_ip_port4 : Bytes → ℕ → ℕ → Bytes → Bytes → Outcome StunError Parsed
get_stun_ip_port4 response response_len need_type magic_cookie transaction_id =
    let limit = min response_len (length response) in
    scan_attributes response limit need_type magic_cookie transaction_id (suc limit) 0

-- The checks of `getStunResponse` on the `n` bytes that one read gave; `request` is what was sent.
unfoldable pub check_response : Bytes → Bytes → Outcome StunError Bytes
check_response request response = do
  fail_if (ltb (length response) 32) invalid_response
  cookie ← slice response 4 8
  sent_cookie ← slice request 4 8
  fail_if (not (equal cookie sent_cookie)) invalid_cookie
  id ← slice response 8 20
  sent_id ← slice request 8 20
  fail_if (not (equal id sent_id)) transaction_mismatch
  ok response

pub record Mapped : Type 0 where
  pub wan_ip : Bytes
  pub wan_port : ℕ
  pub change_ip : Bytes
  pub change_port : ℕ

-- `if err != nil { ..., err = ... }`: the second call is made where the first returned an error.
or_else : Outcome StunError Parsed → Outcome StunError Parsed → Outcome StunError Parsed
or_else (err e) second = second
or_else first second = first

-- The request that `GetStunIpPort2` writes.
abbrev pub binding_request : Bytes → Bytes
binding_request transaction_id = 0x00 ∷ 0x01 ∷ 0x00 ∷ 0x00 ∷ (magic_cookie_bytes ++ transaction_id)

-- `getStunIpPort2`, from the datagram on.
unfoldable pub get_stun_ip_port2 : Bytes → Bytes → Bytes → Bytes → Outcome StunError Mapped
unfolding or_else
get_stun_ip_port2 request answer magic_cookie transaction_id = do
  response ← check_response request answer
  attrs ← slice response 20 (length response)
  wan ←
      or_else
        (get_stun_ip_port4 attrs (length attrs) attr_mapped_address magic_cookie transaction_id)
        (get_stun_ip_port4 attrs (length attrs) attr_xor_mapped_address magic_cookie transaction_id)
  change ←
      get_stun_ip_port4 wan.buffer (length wan.buffer) attr_changed_address magic_cookie
        transaction_id
  ok (record {
    wan_ip = wan.ip;
    wan_port = wan.port;
    change_ip = change.ip;
    change_port = change.port;
  })
