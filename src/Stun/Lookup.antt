-- ===== src/Stun/Lookup.antt =====
-- Where the three addresses stand among the attributes of a response.
use good_link.Base.{◌++◌, bit_xor, ◌≡◌, ok, length, ◌<◌, ◌∷◌, ℕ, Bytes, [], drop, ◌∙◌, refl}
use good_link.Stun.Message.{magic_cookie_bytes}
use good_link.Stun.Client.{get_stun_ip_port4}
use good_link.Stun.Attributes.{
  value, skip_at, found_at, plain_attribute, masked_attribute, min_self,
}

-- A response's attributes: the mapped address, the masked one, the changed address, and the rest.
abbrev pub attributes : ℕ → ℕ → ℕ → ℕ → ℕ → ℕ → ℕ → ℕ → ℕ → ℕ → Bytes → Bytes
attributes p a b c d cp e f g h tail =
    0
    ∷ 1
    ∷ 0
    ∷ 8
    ∷ (value p a b c d
        ++ (0
            ∷ 0x20
            ∷ 0
            ∷ 8
            ∷ (value (bit_xor p 0x2112) (bit_xor a 0x21) (bit_xor b 0x12) (bit_xor c 0xA4)
                  (bit_xor d 0x42)
                ++ (0 ∷ 5 ∷ 0 ∷ 8 ∷ (value cp e f g h ++ tail)))))

module _ (p a b c d cp e f g h : ℕ) (tail tid : Bytes) (short : p < 65536)
    (size : length tid ≡ 12) where
  abbrev pub attrs : Bytes
  attrs = attributes p a b c d cp e f g h tail

  abbrev first12 : Bytes
  first12 = 0 ∷ 1 ∷ 0 ∷ 8 ∷ value p a b c d

  abbrev first24 : Bytes
  first24 =
      first12
      ++ (0
          ∷ 0x20
          ∷ 0
          ∷ 8
          ∷ value (bit_xor p 0x2112) (bit_xor a 0x21) (bit_xor b 0x12) (bit_xor c 0xA4)
              (bit_xor d 0x42))

  pub masked_found :
      (q : Bytes) × (get_stun_ip_port4 attrs (length attrs) 0x0020 magic_cookie_bytes tid
        ≡ ok (record { ip = a ∷ b ∷ c ∷ d ∷ []; port = p; buffer = q }))
  unfolding get_stun_ip_port4
  masked_found =
      let (buf, parsed) =
        masked_attribute p a b c d (0 ∷ 5 ∷ 0 ∷ 8 ∷ (value cp e f g h ++ tail)) tid short size in
      let (q, run) =
        found_at first12 0 0x20
          (value (bit_xor p 0x2112) (bit_xor a 0x21) (bit_xor b 0x12) (bit_xor c 0xA4)
            (bit_xor d 0x42))
          (0 ∷ 5 ∷ 0 ∷ 8 ∷ (value cp e f g h ++ tail)) (length (drop 1 attrs)) magic_cookie_bytes
          tid _ refl parsed in
      (
        q,
        rw (min_self (length attrs)) (
            skip_at [] 0 1 p a b c d (drop 12 attrs) 0x20 (length attrs) magic_cookie_bytes tid refl
            ∙ run),
      )

  pub changed_found :
      cp < 65536
      → (q : Bytes) × (get_stun_ip_port4 attrs (length attrs) 0x0005 magic_cookie_bytes tid
          ≡ ok (record { ip = e ∷ f ∷ g ∷ h ∷ []; port = cp; buffer = q }))
  unfolding get_stun_ip_port4
  changed_found cshort =
      let (q, run) =
        found_at first24 0 5 (value cp e f g h) tail (length (drop 2 attrs)) magic_cookie_bytes tid
          _ refl (plain_attribute cp e f g h tail magic_cookie_bytes tid cshort 0 5 refl) in
      (
        q,
        rw (min_self (length attrs)) (
            skip_at [] 0 1 p a b c d (drop 12 attrs) 5 (length attrs) magic_cookie_bytes tid refl
            ∙ skip_at first12 0 0x20 (bit_xor p 0x2112) (bit_xor a 0x21) (bit_xor b 0x12)
                (bit_xor c 0xA4) (bit_xor d 0x42) (drop 24 attrs) 5 (length (drop 1 attrs))
                magic_cookie_bytes tid refl
            ∙ run),
      )
