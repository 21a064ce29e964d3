-- ===== src/Stun/Attributes.antt =====
-- The client's loop over IPv4 attributes: at one that is wanted, and past one that is not.
use good_link.Base.{
  ◌∷◌, ◌*◌, slice, drop, if◌then◌else◌, take, ◌>>=◌, Bytes, take-length, ◌++◌, length, ◌+◌, ℕ,
  length-append, arith, suc, ◌≡◌, ◌==◌, drop-length-append, ok, ◌<◌, ◌/◌, [], false, ◌%◌,
  bit_xor_cancel, bit_xor, refl, min, append-nil, ◌∙◌, drop-length,
}
use good_link.Stun.Message.{StunError, magic_cookie_bytes, xor_bytes}
use good_link.Stun.Client.{
  get_stun_ip_port4, Parsed, unmask, get_stun_ip_port5, scan_attributes, uint16_at, padded_len,
  index_one, address_of, decode_address,
}
use good_link.Wire.{uint16}

pub slice-append :
    (pre s : Bytes) → slice {E = StunError} (pre ++ s) (length pre) (length (pre ++ s)) ≡ ok s
unfolding slice
slice-append pre s = ground (arith, length-append pre s, drop-length-append pre s, take-length s)

-- An attribute's head, at a place where it stands.
uint16_at_head :
    (a b c d : ℕ) (s : Bytes)
    → (uint16_at (a ∷ b ∷ c ∷ d ∷ s) 0 ≡ ok (a * 256 + b))
      × (uint16_at (a ∷ b ∷ c ∷ d ∷ s) 2 ≡ ok (c * 256 + d))
unfolding uint16_at slice uint16
uint16_at_head a b c d s = (ground arith, ground arith)

-- One round of the loop over a whole attribute.
pub scan_attributes_round :
    (pre v rest : Bytes) (k1 k0 l1 l0 need fuel : ℕ) (c t : Bytes)
    → length v ≡ padded_len (l1 * 256 + l0)
    → scan_attributes
        (pre ++ (k1 ∷ k0 ∷ l1 ∷ l0 ∷ (v ++ rest)))
        (length (pre ++ (k1 ∷ k0 ∷ l1 ∷ l0 ∷ (v ++ rest))))
        need
        c
        t
        (suc fuel)
        (length pre)
      ≡ (if (k1 * 256 + k0) == need
          then (do
            p ←
                get_stun_ip_port5
                  (k1 * 256 + k0)
                  (k1 ∷ k0 ∷ l1 ∷ l0 ∷ (v ++ rest))
                  (l1 * 256 + l0)
                  c
                  t
            ok (record p {
              buffer =
                  take (length pre) (pre ++ (k1 ∷ k0 ∷ l1 ∷ l0 ∷ (v ++ rest)))
                  ++ (p.buffer
                      ++ drop
                          (length (pre ++ (k1 ∷ k0 ∷ l1 ∷ l0 ∷ (v ++ rest))))
                          (pre ++ (k1 ∷ k0 ∷ l1 ∷ l0 ∷ (v ++ rest))));
            }))
          else scan_attributes
              (pre ++ (k1 ∷ k0 ∷ l1 ∷ l0 ∷ (v ++ rest)))
              (length (pre ++ (k1 ∷ k0 ∷ l1 ∷ l0 ∷ (v ++ rest))))
              need
              c
              t
              fuel
              (length pre + 4 + length v))
unfolding scan_attributes
scan_attributes_round pre v rest k1 k0 l1 l0 need fuel c t size =
    let s = k1 ∷ k0 ∷ l1 ∷ l0 ∷ (v ++ rest) in
    rw (slice-append pre s) (
      rw ((uint16_at_head k1 k0 l1 l0 (v ++ rest)).0, (uint16_at_head k1 k0 l1 l0 (v ++ rest)).1)
        (rw size (ground (arith, length-append pre s, length-append v rest))))

-- The value of an IPv4 address attribute: `ip` masked by the cookie where `masked` is set.
abbrev pub value : ℕ → ℕ → ℕ → ℕ → ℕ → Bytes
value p a b c d = 0 ∷ 1 ∷ (p / 256) ∷ (p % 256) ∷ a ∷ b ∷ c ∷ d ∷ []

module _ (p a b c d : ℕ) (rest ck tid : Bytes) (short : p < 65536) where
  pub plain_attribute :
      (k1 k0 : ℕ)
      → ((k1 * 256 + k0) == 0x0020) ≡ false
      → get_stun_ip_port5 (k1 * 256 + k0) (k1 ∷ k0 ∷ 0 ∷ 8 ∷ (value p a b c d ++ rest)) 8 ck tid
        ≡ ok (record {
          ip = a ∷ b ∷ c ∷ d ∷ [];
          port = p;
          buffer = k1 ∷ k0 ∷ 0 ∷ 8 ∷ (value p a b c d ++ rest);
        })
  unfolding get_stun_ip_port5 slice index_one address_of decode_address uint16
  plain_attribute k1 k0 other = ground arith

-- The masked form: the parser undoes the exclusive or of port and address.
pub masked_attribute :
    (p a b c d : ℕ) (rest tid : Bytes)
    → p < 65536
    → length tid ≡ 12
    → (q : Bytes) × (get_stun_ip_port5 0x0020
          (0
            ∷ 0x20
            ∷ 0
            ∷ 8
            ∷ (value
                  (bit_xor p 0x2112)
                  (bit_xor a 0x21)
                  (bit_xor b 0x12)
                  (bit_xor c 0xA4)
                  (bit_xor d 0x42)
                ++ rest))
          8
          magic_cookie_bytes
          tid
        ≡ ok (record { ip = a ∷ b ∷ c ∷ d ∷ []; port = p; buffer = q }))
unfolding get_stun_ip_port5 slice index_one address_of decode_address unmask xor_bytes uint16
masked_attribute p a b c d rest tid short size = (
  0
      ∷ 0x20
      ∷ 0
      ∷ 8
      ∷ 0
      ∷ 1
      ∷ (bit_xor p 0x2112 / 256)
      ∷ (bit_xor p 0x2112 % 256)
      ∷ a
      ∷ b
      ∷ c
      ∷ d
      ∷ rest,
  ground (
    arith,
    bit_xor_cancel p 0x2112,
    bit_xor_cancel a 0x21,
    bit_xor_cancel b 0x12,
    bit_xor_cancel c 0xA4,
    bit_xor_cancel d 0x42,
  ),
)

pub min_self : (n : ℕ) → min n n ≡ n
min_self n = omega arith

-- The first attribute, where it is the one that is wanted; and the loop past one that is not.
module _ (p a b c d : ℕ) (rest ck tid : Bytes) (short : p < 65536) where
  pub first_found :
      (k1 k0 : ℕ)
      → ((k1 * 256 + k0) == 0x0020) ≡ false
      → get_stun_ip_port4
          (k1 ∷ k0 ∷ 0 ∷ 8 ∷ (value p a b c d ++ rest))
          (length (k1 ∷ k0 ∷ 0 ∷ 8 ∷ (value p a b c d ++ rest)))
          (k1 * 256 + k0)
          ck
          tid
        ≡ ok (record {
          ip = a ∷ b ∷ c ∷ d ∷ [];
          port = p;
          buffer = k1 ∷ k0 ∷ 0 ∷ 8 ∷ (value p a b c d ++ rest);
        })
  unfolding get_stun_ip_port4
  first_found k1 k0 other = rw (min_self (length (k1 ∷ k0 ∷ 0 ∷ 8 ∷ (value p a b c d ++ rest)))) (
      rw
        (scan_attributes_round [] (value p a b c d) rest k1 k0 0 8 (k1 * 256 + k0)
          (length (k1 ∷ k0 ∷ 0 ∷ 8 ∷ (value p a b c d ++ rest))) ck tid refl)
        (rw (plain_attribute p a b c d rest ck tid short k1 k0 other)
          (ground (arith, drop-length rest, append-nil rest))))

-- The loop past an IPv4 attribute that is not wanted.
pub skip_at :
    (pre : Bytes) (k1 k0 p a b c d : ℕ) (rest : Bytes) (need fuel : ℕ) (ck tid : Bytes)
    → ((k1 * 256 + k0) == need) ≡ false
    → scan_attributes
        (pre ++ (k1 ∷ k0 ∷ 0 ∷ 8 ∷ (value p a b c d ++ rest)))
        (length (pre ++ (k1 ∷ k0 ∷ 0 ∷ 8 ∷ (value p a b c d ++ rest))))
        need
        ck
        tid
        (suc fuel)
        (length pre)
      ≡ scan_attributes
          (pre ++ (k1 ∷ k0 ∷ 0 ∷ 8 ∷ (value p a b c d ++ rest)))
          (length (pre ++ (k1 ∷ k0 ∷ 0 ∷ 8 ∷ (value p a b c d ++ rest))))
          need
          ck
          tid
          fuel
          (length pre + 4 + 8)
skip_at pre k1 k0 p a b c d rest need fuel ck tid other =
    scan_attributes_round pre (value p a b c d) rest k1 k0 0 8 need fuel ck tid refl ∙ rw other

-- The loop at the attribute that is wanted.
pub found_at :
    (pre : Bytes) (k1 k0 : ℕ) (value8 rest : Bytes) (fuel : ℕ) (ck tid : Bytes) (found : Parsed)
    → length value8 ≡ 8
    → get_stun_ip_port5 (k1 * 256 + k0) (k1 ∷ k0 ∷ 0 ∷ 8 ∷ (value8 ++ rest)) 8 ck tid ≡ ok found
    → (q : Bytes) × (scan_attributes
          (pre ++ (k1 ∷ k0 ∷ 0 ∷ 8 ∷ (value8 ++ rest)))
          (length (pre ++ (k1 ∷ k0 ∷ 0 ∷ 8 ∷ (value8 ++ rest))))
          (k1 * 256 + k0)
          ck
          tid
          (suc fuel)
          (length pre)
        ≡ ok (record found { buffer = q }))
found_at pre k1 k0 value8 rest fuel ck tid found size parsed =
    let s = k1 ∷ k0 ∷ 0 ∷ 8 ∷ (value8 ++ rest) in
    (
      take (length pre) (pre ++ s) ++ (found.buffer ++ drop (length (pre ++ s)) (pre ++ s)),
      scan_attributes_round pre value8 rest k1 k0 0 8 (k1 * 256 + k0) fuel ck tid size
          ∙ rw parsed (ground arith),
    )
