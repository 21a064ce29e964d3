-- ===== src/Stun/RoundTrip.antt =====
-- The client reads back from the server's response the address that the server saw.
use good_link.Base.{
  ◌++◌, bit_xor, ◌≡◌, ok, length, ◌<◌, ◌∷◌, ℕ, Bytes, [], drop, ◌∙◌, refl, arith, some,
  append_assoc, slice, ◌≤◌, ◌%◌, ap, take-length, length-append, take-length-append, ◌>>=◌, Outcome,
}
use good_link.Stun.Message.{
  magic_cookie_bytes, attr_changed_address, family_ipv4, StunError, attr_xor_mapped_address,
  xor_bytes, address_attribute, build_mapped_address, build_xor_mapped_address,
  build_binding_response, build_fingerprint, calc_fingerprint,
}
use good_link.Stun.Client.{
  get_stun_ip_port4, get_stun_ip_port2, binding_request, Parsed, check_response,
}
use good_link.Stun.Attributes.{slice-append, first_found, value}
use good_link.Stun.Lookup.{attributes, masked_found, changed_found}
use good_link.Net.{UdpAddr, to4, equal_iff, length-to4}

-- `to4` gives four bytes.
four_bytes : (ip4 : Bytes) → length ip4 ≡ 4 → (a b c d : ℕ) × (ip4 ≡ a ∷ b ∷ c ∷ d ∷ [])
four_bytes (a ∷ b ∷ c ∷ d ∷ []) h = (a, b, c, d, refl)
four_bytes [] h = absurd (omega arith)
four_bytes (a ∷ []) h = absurd (omega arith)
four_bytes (a ∷ b ∷ []) h = absurd (omega arith)
four_bytes (a ∷ b ∷ c ∷ []) h = absurd (omega arith)
four_bytes (a ∷ b ∷ c ∷ d ∷ x ∷ r) h = absurd (omega arith)

-- The changed address as an attribute, where it is an IPv4 address.
abbrev pub changed_ipv4 : ℕ → Bytes → Bytes
changed_ipv4 port ip = address_attribute attr_changed_address 8 family_ipv4 port ip

module _ (remote : UdpAddr) (a b c d e f g h cp : ℕ) (tid : Bytes)
    (is4 : to4 remote.ip ≡ some (a ∷ b ∷ c ∷ d ∷ [])) where
  abbrev built_attributes : Bytes → Bytes
  built_attributes tail = attributes (remote.port % 65536) a b c d cp e f g h tail

  abbrev message : Bytes
  message = 1 ∷ 1 ∷ 0 ∷ 44 ∷ (magic_cookie_bytes ++ (tid ++ built_attributes []))

  abbrev fingerprint : Bytes
  fingerprint = build_fingerprint (calc_fingerprint message)

  mapped_is : build_mapped_address remote ≡ 0 ∷ 1 ∷ 0 ∷ 8 ∷ value (remote.port % 65536) a b c d
  unfolding build_mapped_address
  mapped_is = rw (is4, build_mapped_address)

  xor_mapped_is :
      build_xor_mapped_address remote tid
      ≡ ok (
          0
          ∷ 0x20
          ∷ 0
          ∷ 8
          ∷ value
              (bit_xor (remote.port % 65536) 0x2112)
              (bit_xor a 0x21)
              (bit_xor b 0x12)
              (bit_xor c 0xA4)
              (bit_xor d 0x42))
  unfolding build_xor_mapped_address xor_bytes
  xor_mapped_is = rw (is4, build_xor_mapped_address)

  built :
      build_binding_response remote tid (changed_ipv4 cp (e ∷ f ∷ g ∷ h ∷ []))
      ≡ ok (1 ∷ 1 ∷ 0 ∷ 44 ∷ (magic_cookie_bytes ++ (tid ++ built_attributes fingerprint)))
  unfolding build_binding_response address_attribute
  built =
      rw (mapped_is, xor_mapped_is)
        (ap (λ x. ok (1 ∷ 1 ∷ 0 ∷ 44 ∷ (magic_cookie_bytes ++ x)))
          (append_assoc tid (built_attributes []) fingerprint))

length_fingerprint : (n : ℕ) → length (build_fingerprint n) ≡ 8
unfolding build_fingerprint
length_fingerprint n = refl

-- A response with the request's cookie and transaction id passes the client's checks.
check_response_same :
    (q1 q2 q3 q4 r1 r2 r3 r4 : ℕ) (tid body : Bytes)
    → length tid ≡ 12
    → 12 ≤ length body
    → check_response
        (q1 ∷ q2 ∷ q3 ∷ q4 ∷ (magic_cookie_bytes ++ tid))
        (r1 ∷ r2 ∷ r3 ∷ r4 ∷ (magic_cookie_bytes ++ (tid ++ body)))
      ≡ ok (r1 ∷ r2 ∷ r3 ∷ r4 ∷ (magic_cookie_bytes ++ (tid ++ body)))
unfolding check_response slice
check_response_same q1 q2 q3 q4 r1 r2 r3 r4 tid body size long =
    let first = rw size at (take-length-append tid body) in
    let same = rw size at (take-length tid) in
    ground (
      arith,
      first,
      same,
      (equal_iff tid tid).1 refl,
      length-append tid body,
      (equal_iff magic_cookie_bytes magic_cookie_bytes).1 refl,
    )

-- The attributes of a message stand behind its twenty bytes of header.
slice_attributes :
    (h1 h2 h3 h4 h5 h6 h7 h8 : ℕ) (tid attrs : Bytes)
    → length tid ≡ 12
    → slice {E = StunError}
        (h1 ∷ h2 ∷ h3 ∷ h4 ∷ h5 ∷ h6 ∷ h7 ∷ h8 ∷ (tid ++ attrs))
        20
        (length (h1 ∷ h2 ∷ h3 ∷ h4 ∷ h5 ∷ h6 ∷ h7 ∷ h8 ∷ (tid ++ attrs)))
      ≡ ok attrs
slice_attributes h1 h2 h3 h4 h5 h6 h7 h8 tid attrs size =
    rw size at (slice-append (h1 ∷ h2 ∷ h3 ∷ h4 ∷ h5 ∷ h6 ∷ h7 ∷ h8 ∷ tid) attrs)

read_back :
    (p a b c d cp e f g h : ℕ) (tail tid : Bytes)
    → p < 65536
    → cp < 65536
    → length tid ≡ 12
    → get_stun_ip_port2
        (binding_request tid)
        (1 ∷ 1 ∷ 0 ∷ 44 ∷ (magic_cookie_bytes ++ (tid ++ attributes p a b c d cp e f g h tail)))
        magic_cookie_bytes
        tid
      ≡ ok (record {
        wan_ip = a ∷ b ∷ c ∷ d ∷ [];
        wan_port = p;
        change_ip = e ∷ f ∷ g ∷ h ∷ [];
        change_port = cp;
      })
unfolding get_stun_ip_port2
read_back p a b c d cp e f g h tail tid short cshort size =
    let attrs = attributes p a b c d cp e f g h tail in
    let (q, changed) = changed_found p a b c d cp e f g h tail tid short size cshort in
    rw (check_response_same 0 1 0 0 1 1 0 44 tid attrs size (omega arith)) (
      rw (slice_attributes 1 1 0 44 0x21 0x12 0xA4 0x42 tid attrs size) (
        rw (first_found p a b c d (drop 12 attrs) magic_cookie_bytes tid short 0 1 refl)
          (rw changed)))

-- The client reads from the server's response the IPv4 address and the port that the server put
-- in, and the changed address.
pub get_stun_ip_port2-build_binding_response :
    (remote : UdpAddr) (ip4 tid change_ip : Bytes) (change_port : ℕ)
    → to4 remote.ip ≡ some ip4
    → remote.port < 65536
    → length tid ≡ 12
    → length change_ip ≡ 4
    → change_port < 65536
    → (do
      response ← build_binding_response remote tid (changed_ipv4 change_port change_ip)
      get_stun_ip_port2 (binding_request tid) response magic_cookie_bytes tid)
      ≡ ok (record {
        wan_ip = ip4;
        wan_port = remote.port;
        change_ip = change_ip;
        change_port = change_port;
      })
get_stun_ip_port2-build_binding_response remote ip4 tid cip cp is4 short size csize cshort =
    let (a, b, c, d, four) = four_bytes ip4 (length-to4 remote.ip is4) in
    let (e, f, g, h, cfour) = four_bytes cip csize in
    rw (four, cfour)
      (rw (built remote a b c d e f g h cp tid (is4 ∙ ap some four)) (
        read_back (remote.port % 65536) a b c d cp e f g h _ tid (omega arith) cshort size
        ∙ ground arith))

abbrev pub address_of_parsed : Parsed → Outcome StunError (Bytes × ℕ)
address_of_parsed p = ok (p.ip, p.port)

-- The XOR-MAPPED-ADDRESS of the server's response, found by the client's scan and unmasked, is
-- the address and the port that the server put in.
pub get_stun_ip_port4-build_binding_response :
    (remote : UdpAddr) (ip4 tid change_ip : Bytes) (change_port : ℕ)
    → to4 remote.ip ≡ some ip4
    → remote.port < 65536
    → length tid ≡ 12
    → length change_ip ≡ 4
    → (do
      response ← build_binding_response remote tid (changed_ipv4 change_port change_ip)
      attrs ← slice response 20 (length response)
      parsed ← get_stun_ip_port4 attrs (length attrs) attr_xor_mapped_address magic_cookie_bytes tid
      address_of_parsed parsed)
      ≡ ok (ip4, remote.port)
get_stun_ip_port4-build_binding_response remote ip4 tid cip cp is4 short size csize =
    let (a, b, c, d, four) = four_bytes ip4 (length-to4 remote.ip is4) in
    let (e, f, g, h, cfour) = four_bytes cip csize in
    let is4' = is4 ∙ ap some four in
    let tail = fingerprint remote a b c d e f g h cp tid is4' in
    let attrs = attributes (remote.port % 65536) a b c d cp e f g h tail in
    let (q, masked) =
      masked_found (remote.port % 65536) a b c d cp e f g h tail tid (omega arith) size in
    rw (four, cfour)
      (rw (built remote a b c d e f g h cp tid is4') (
        rw (slice_attributes 1 1 0 44 0x21 0x12 0xA4 0x42 tid attrs size)
          (rw masked (ground arith))))
