-- ===== src/Stun/Message.antt =====
-- stun2/svr.go: the attributes of a binding response, and the response.
use good_link.Base.{
  refl, ◌^◌, panic, drop, ◌∷◌, suc, if◌then◌else◌, none, ◌++◌, ◌==◌, ℕ, ◌+◌, [], Outcome, Bytes,
  ◌/◌, some, zero, ◌≡◌, ok, length, ◌%◌, bit_xor, ◌>>=◌,
}
use good_link.Wire.{put_uint16}
use good_link.Net.{UdpAddr, to4, to16}

pub data StunError : Type 0 where
  attr_length_overflow short_address short_ipv4 short_ipv6 unknown_family : StunError
  short_cookie short_transaction_id attr_not_found : StunError
  invalid_response invalid_cookie transaction_mismatch no_answer : StunError

abbrev pub attr_mapped_address : ℕ
attr_mapped_address = 0x0001

abbrev pub attr_changed_address : ℕ
attr_changed_address = 0x0005

abbrev pub attr_xor_mapped_address : ℕ
attr_xor_mapped_address = 0x0020

abbrev pub attr_fingerprint : ℕ
attr_fingerprint = 0x8028

abbrev pub family_ipv4 : ℕ
family_ipv4 = 0x01

abbrev pub family_ipv6 : ℕ
family_ipv6 = 0x02

abbrev pub magic_cookie_bytes : Bytes
magic_cookie_bytes = 0x21 ∷ 0x12 ∷ 0xA4 ∷ 0x42 ∷ []

abbrev pub fingerprint_xor : ℕ
fingerprint_xor = 0x5354554e

-- `for i := 0; i < n; i++ { out[i] = a[i] ^ mask[i] }`
unfoldable pub xor_bytes : ℕ → Bytes → Bytes → Outcome StunError Bytes
xor_bytes zero a mask = ok []
xor_bytes (suc n) (x ∷ a) (y ∷ mask) = do rest ← xor_bytes n a mask; ok (bit_xor x y ∷ rest)
xor_bytes (suc n) _ _ = panic

-- What the three address builders write in turn: type, length, a zero byte, family, port, address.
unfoldable pub address_attribute : ℕ → ℕ → ℕ → ℕ → Bytes → Bytes
unfolding put_uint16
address_attribute kind size family port address =
    put_uint16 kind ++ (put_uint16 size ++ (0x00 ∷ family ∷ (put_uint16 port ++ address)))

unfoldable pub build_mapped_address : UdpAddr → Bytes
unfolding address_attribute
build_mapped_address addr = elim (to4 addr.ip) [
  | some ip4 ↦ address_attribute attr_mapped_address 8 family_ipv4 (addr.port % 65536) ip4
  | none ↦ address_attribute attr_mapped_address 20 family_ipv6 (addr.port % 65536) (to16 addr.ip)
]

-- An address of neither four nor sixteen bytes makes `ip16[i]` panic.
unfoldable pub build_xor_mapped_address : UdpAddr → Bytes → Outcome StunError Bytes
unfolding address_attribute
build_xor_mapped_address addr transaction_id =
    let x_port = bit_xor (addr.port % 65536) 0x2112 in
    elim (to4 addr.ip) [
      | some ip4 ↦ do
        x_addr ← xor_bytes 4 ip4 magic_cookie_bytes
        ok (address_attribute attr_xor_mapped_address 8 family_ipv4 x_port x_addr)
      | none ↦ do
        head ← xor_bytes 4 (to16 addr.ip) magic_cookie_bytes
        rest ← xor_bytes 12 (drop 4 (to16 addr.ip)) transaction_id
        ok (address_attribute attr_xor_mapped_address 20 family_ipv6 x_port (head ++ rest))
    ]

-- One bit of CRC-32 with the reflected IEEE polynomial.
crc_bit : ℕ → ℕ
crc_bit c = if c % 2 == 1 then bit_xor (c / 2) 0xEDB88320 else c / 2

crc_byte : ℕ → ℕ → ℕ
unfolding crc_bit
crc_byte c b =
    let x = bit_xor c b in
    crc_bit (crc_bit (crc_bit (crc_bit (crc_bit (crc_bit (crc_bit (crc_bit x)))))))

crc_loop : ℕ → Bytes → ℕ
unfolding crc_byte
crc_loop c [] = c
crc_loop c (b ∷ bs) = crc_loop (crc_byte c b) bs

-- `crc32.ChecksumIEEE`
unfoldable pub checksum_ieee : Bytes → ℕ
unfolding crc_loop
checksum_ieee bs = bit_xor (crc_loop 0xFFFFFFFF bs) 0xFFFFFFFF

unfoldable pub calc_fingerprint : Bytes → ℕ
unfolding checksum_ieee
calc_fingerprint bs = bit_xor (checksum_ieee bs) fingerprint_xor

-- `binary.BigEndian.PutUint32`
put_uint32 : ℕ → Bytes
put_uint32 n = (n / 2 ^ 24 % 256) ∷ (n / 2 ^ 16 % 256) ∷ (n / 2 ^ 8 % 256) ∷ (n % 256) ∷ []

unfoldable pub build_fingerprint : ℕ → Bytes
unfolding put_uint32
build_fingerprint crc = 0x80 ∷ 0x28 ∷ 0x00 ∷ 0x04 ∷ put_uint32 crc

-- The attribute for the changed address is `changed`, see `build_changed_address`.
unfoldable pub build_binding_response : UdpAddr → Bytes → Bytes → Outcome StunError Bytes
unfolding put_uint16
build_binding_response remote transaction_id changed = do
  let mapped = build_mapped_address remote
  xor_mapped ← build_xor_mapped_address remote transaction_id
  let attrs_len = length mapped + length xor_mapped + length changed
  let header =
      0x01 ∷ 0x01 ∷ (put_uint16 ((attrs_len + 8) % 65536) ++ (magic_cookie_bytes ++ transaction_id))
  let message = header ++ (mapped ++ (xor_mapped ++ changed))
  ok (message ++ build_fingerprint (calc_fingerprint message))

crc_check :
    checksum_ieee (0x31 ∷ 0x32 ∷ 0x33 ∷ 0x34 ∷ 0x35 ∷ 0x36 ∷ 0x37 ∷ 0x38 ∷ 0x39 ∷ []) ≡ 0xCBF43926
unfolding checksum_ieee
crc_check = refl
