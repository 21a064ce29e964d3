-- ===== src/Stun/Client/Safety.antt =====
-- The parser never reads out of range, whatever the message, and its loop ends.
use good_link.Base.{
  ◌-◌, take, [], ◌+◌, Bool, ◌≡◌, ok, ℕ, arith, stuck, Bytes, ◌>>=◌, true, false, err, drop, Outcome,
  length-take, ◌∷◌, refl, panic, ◌*◌, slice, zero, ◌>>◌, length-drop, fail_if, bit_xor, length, ◌≤◌,
  suc, ◌==◌, Bool-cases, ◌||◌, ◌<◌, ltb, inr, min, Returns, inl,
}
use good_link.Wire.{uint16}
use good_link.Stun.Message.{StunError, xor_bytes}
use good_link.Stun.Client.{
  get_stun_ip_port5, get_stun_ip_port4, scan_attributes, index_one, address_of, unmask, padded_len,
  decode_address, uint16_at,
}

slice-Returns :
    (bs : Bytes) (lo hi : ℕ)
    → lo ≤ hi
    → hi ≤ length bs
    → (s : Bytes) × (slice {E = StunError} bs lo hi ≡ ok s) × (length s ≡ hi - lo)
unfolding slice
slice-Returns bs lo hi p q = (
  take (hi - lo) (drop lo bs),
  ground arith,
  omega (arith, length-take (hi - lo) (drop lo bs), length-drop lo bs),
)

xor_bytes-Returns :
    (n : ℕ) (a mask : Bytes)
    → n ≤ length a
    → n ≤ length mask
    → (out : Bytes) × (xor_bytes n a mask ≡ ok out) × (length out ≡ n)
unfolding xor_bytes
xor_bytes-Returns zero a mask p q = ([], refl, refl)
xor_bytes-Returns (suc n) [] mask p q = absurd (omega arith)
xor_bytes-Returns (suc n) (x ∷ a) [] p q = absurd (omega arith)
xor_bytes-Returns (suc n) (x ∷ a) (y ∷ mask) p q =
    let (out, run, size) = xor_bytes-Returns n a mask (omega arith) (omega arith) in
    (bit_xor x y ∷ out, rw run, omega arith)

uint16-Returns : (bs : Bytes) → 2 ≤ length bs → (n : ℕ) × (uint16 {E = StunError} bs ≡ ok n)
unfolding uint16
uint16-Returns [] h = absurd (omega arith)
uint16-Returns (a ∷ []) h = absurd (omega arith)
uint16-Returns (a ∷ b ∷ bs) h = (a * 256 + b, refl)

index_one-Returns : (bs : Bytes) → 2 ≤ length bs → (n : ℕ) × (index_one bs ≡ ok n)
unfolding index_one
index_one-Returns [] h = absurd (omega arith)
index_one-Returns (a ∷ []) h = absurd (omega arith)
index_one-Returns (a ∷ b ∷ bs) h = (b, refl)

-- The postcondition of a step that may return an error: no panic, and `P` of what it returns.
abbrev Ensures {ℓ} : {A : Type ℓ} → (A → Type 0) → Outcome StunError A → Type 0
Ensures P (ok a) = P a
Ensures P (err e) = Unit
Ensures P panic = ⊥
Ensures P stuck = ⊥

Ensures-bind {ℓ κ} :
    {A : Type ℓ} {B : Type κ} (P : A → Type 0) (Q : B → Type 0) (m : Outcome StunError A)
    (f : A → Outcome StunError B)
    → Ensures P m
    → ((a : A) → P a → Ensures Q (f a))
    → Ensures Q (m >>= f)
Ensures-bind P Q (ok a) f h k = k a h
Ensures-bind P Q (err e) f h k = tt
Ensures-bind P Q panic f h k = h
Ensures-bind P Q stuck f h k = h

Ensures-fail_if {κ} :
    {B : Type κ} (Q : B → Type 0) (b : Bool) (e : StunError) (k : Outcome StunError B)
    → (b ≡ false → Ensures Q k)
    → Ensures Q (fail_if b e >> k)
Ensures-fail_if Q true e k h = tt
Ensures-fail_if Q false e k h = h refl

-- A step that is known to return.
Ensures-ok {ℓ κ} :
    {A : Type ℓ} {B : Type κ} (Q : B → Type 0) (m : Outcome StunError A) (a : A)
    (f : A → Outcome StunError B)
    → m ≡ ok a
    → Ensures Q (f a)
    → Ensures Q (m >>= f)
Ensures-ok Q m a f e h = rw e h

address_of-Ensures :
    (family : ℕ) (value : Bytes)
    → Ensures
        (λ ip. (4 ≤ length ip) × (8 ≤ length value) × (family ≡ 2 → length ip ≡ 16))
        (address_of family value)
unfolding address_of
address_of-Ensures family value =
    ground (arith, length-take 4 (drop 4 value), length-take 16 (drop 4 value), length-drop 4 value)

unmask-Ensures :
    (family : ℕ) (ip magic_cookie transaction_id : Bytes)
    → 4 ≤ length ip
    → (family ≡ 2 → length ip ≡ 16)
    → Ensures (λ out. Unit) (unmask family ip magic_cookie transaction_id)
unfolding unmask
unmask-Ensures family ip c t h k = ground (
  arith,
  xor_bytes-Returns 4 ip c,
  xor_bytes-Returns (length ip - 4) (drop 4 ip) t,
  length-drop 4 ip,
)

-- What follows the read of the family and its address.
decode_address-Ensures :
    (masked : Bool) (attributes value : Bytes) (family : ℕ) (ip c t : Bytes)
    → 8 ≤ length value
    → 4 ≤ length ip
    → (family ≡ 2 → length ip ≡ 16)
    → Ensures (λ p. Unit) (decode_address masked attributes value family ip c t)
unfolding decode_address
decode_address-Ensures masked attributes value family ip c t v h k =
    let (port, cut, size) = slice-Returns value 2 4 (omega arith) (omega arith) in
    let (n, read) = uint16-Returns port (omega arith) in
    rw cut (rw read (ground (arith, unmask-Ensures family ip c t h k)))

-- One attribute: `getStunIpPort5` checks each length before it slices.
get_stun_ip_port5-Ensures :
    (attr_type : ℕ) (attributes : Bytes) (attr_length : ℕ) (c t : Bytes)
    → Ensures (λ p. Unit) (get_stun_ip_port5 attr_type attributes attr_length c t)
unfolding get_stun_ip_port5
get_stun_ip_port5-Ensures attr_type attributes attr_length c t =
    Ensures-fail_if (λ p. Unit)
      (ltb (length attributes) 4 || ltb (length attributes) (attr_length + 4)) _ _
      λ fits.
        let (value, cut, size) =
          slice-Returns attributes 4 (4 + attr_length) (omega arith) (ground arith) in
        Ensures-ok (λ p. Unit) _ value _ cut
          (Ensures-fail_if (λ p. Unit) (ltb (length value) 2) _ _
            λ two.
              let (family, read) = index_one-Returns value (ground arith) in
              Ensures-ok (λ p. Unit) _ family _ read
                (Ensures-bind _ (λ p. Unit) (address_of family value) _
                  (address_of-Ensures family value)
                  λ ip (h, v, k).
                    decode_address-Ensures (attr_type == 0x0020) attributes value family ip c t v h
                      k))

-- Two bytes of an attribute's head.
uint16_at-Returns : (bs : Bytes) (lo : ℕ) → lo + 2 ≤ length bs → (n : ℕ) × (uint16_at bs lo ≡ ok n)
unfolding uint16_at
uint16_at-Returns bs lo h =
    let (field, cut, size) = slice-Returns bs lo (lo + 2) (omega arith) h in
    let (n, read) = uint16-Returns field (omega arith) in (n, rw cut read)

module _ (response : Bytes) (limit need_type : ℕ) (c t : Bytes) where
  -- The loop ends before its fuel does, and stays within the response.
  scan_attributes-Ensures :
      (fuel start : ℕ)
      → limit ≤ length response
      → start ≤ limit
      → limit < start + fuel
      → Ensures (λ p. Unit) (scan_attributes response limit need_type c t fuel start)
  unfolding scan_attributes
  scan_attributes-Ensures zero start l s f = absurd (omega arith)
  scan_attributes-Ensures (suc fuel) start l s f = elim (Bool-cases (ltb limit (start + 4))) [
    | inl out ↦ rw out tt
    | inr room ↦
        let (attributes, cut, size) = slice-Returns response start limit s l in
        let (attr_type, read) = uint16_at-Returns attributes 0 (ground arith) in
        let (attr_length, read2) = uint16_at-Returns attributes 2 (ground arith) in
        rw room (
          rw cut (
            rw read (
              rw read2 (
                ground (
                  arith,
                  get_stun_ip_port5-Ensures attr_type attributes attr_length c t,
                  scan_attributes-Ensures fuel (start + 4 + padded_len attr_length) l,
                )))))
  ]

Ensures-Returns {ℓ} :
    {A : Type ℓ} (P : A → Type 0) (m : Outcome StunError A) → Ensures P m → Returns m
Ensures-Returns P (ok a) h = tt
Ensures-Returns P (err e) h = tt
Ensures-Returns P panic h = h
Ensures-Returns P stuck h = h

-- The client's scan of the attributes of a message returns a value or an error on any bytes: no
-- index is out of range, and the fuel is enough.
pub get_stun_ip_port4-Returns :
    (response : Bytes) (response_len need_type : ℕ) (magic_cookie transaction_id : Bytes)
    → Returns (get_stun_ip_port4 response response_len need_type magic_cookie transaction_id)
unfolding get_stun_ip_port4
get_stun_ip_port4-Returns response n need c t =
    Ensures-Returns (λ p. Unit) _
      (scan_attributes-Ensures response (min n (length response)) need c t _ 0 (omega arith)
        (omega arith) (omega arith))
