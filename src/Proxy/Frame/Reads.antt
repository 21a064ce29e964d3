-- ===== src/Proxy/Frame/Reads.antt =====
-- What `readFrame` accepts, and that the loop over it ends.
use good_link.Base.{
  All, ◌∷◌, length, ◌≡◌, ◌*◌, Returns, arith, ◌≤◌, ok, ◌+◌, ℕ, IsByte, ◌++◌, [], Bytes, ◌%◌, take,
  err, length-take, suc, ltb, ◌/◌, length-append, zero, some, ◌<◌, if◌then◌else◌, Outcome, inr,
  stuck, inl, refl, panic, Bool-cases,
}
use good_link.Wire.{
  IoError, eof, read_full, read_full-eq-ok, read_full_two, read_full-Returns, invalid_length,
  read_full_two_nil, read_full_two_one, unexpected_eof, read_full_short,
}
use good_link.Proxy.Frame.{
  copy_buf_size, max_udp_frame_payload, frame, read_frame, Put, tunnel_to_udp,
}

read_frame_header :
    (capacity a b : ℕ) (s : Bytes)
    → read_frame capacity (a ∷ b ∷ s) ≡ (
        if ltb capacity (a * 256 + b)
        then err (invalid_length (a * 256 + b))
        else read_full (a * 256 + b) s)
unfolding read_frame
read_frame_header capacity a b s = rw (read_full_two a b s) (ground arith)

-- `readFrame` returns a frame or an error on every stream: no index is out of range.
pub read_frame-Returns : (capacity : ℕ) (s : Bytes) → Returns (read_frame capacity s)
unfolding read_frame read_full
read_frame-Returns capacity [] = tt
read_frame-Returns capacity (a ∷ []) = tt
read_frame-Returns capacity (a ∷ b ∷ s) =
    rw (read_full_two a b s) (ground (arith, read_full-Returns (a * 256 + b) s))

-- A payload that `readFrame` returns fits the buffer, and the stream began with its frame.
read_frame-eq-ok :
    (capacity : ℕ) (s p rest : Bytes)
    → All IsByte s
    → read_frame capacity s ≡ ok (p, rest)
    → (s ≡ frame p ++ rest) × (length p ≤ capacity)
unfolding frame
read_frame-eq-ok capacity [] p rest h e = unfold read_frame in cc (read_full_two_nil, e)
read_frame-eq-ok capacity (a ∷ []) p rest h e = unfold read_frame in cc (read_full_two_one a, e)
read_frame-eq-ok capacity (a ∷ b ∷ s) p rest h e =
    ground (arith, read_frame_header capacity a b s, read_full-eq-ok (a * 256 + b) s p rest)

-- A frame that is cut short is an error, whatever was cut: never a shorter datagram.
read_frame_cut :
    (capacity : ℕ) (p : Bytes) (k : ℕ)
    → length p ≤ max_udp_frame_payload
    → length p ≤ capacity
    → k < length (frame p)
    → (e : IoError) × (read_frame capacity (take k (frame p)) ≡ err e)
unfolding frame
read_frame_cut capacity p zero h c l = (eof, unfold read_frame in rw read_full_two_nil)
read_frame_cut capacity p (suc zero) h c l =
    (unexpected_eof, unfold read_frame in rw (read_full_two_one (length p % 65536 / 256)))
read_frame_cut capacity p (suc (suc k)) h c l =
    let n = length p % 65536 in
    let (e, cut) = read_full_short (length p) (take k p) (omega (arith, length-take k p)) in
    (e, ground (arith, read_frame_header capacity (n / 256) (n % 256) (take k p)))

-- Each frame takes two bytes at least.
read_frame_shrinks :
    (capacity : ℕ) (s p rest : Bytes)
    → read_frame capacity s ≡ ok (p, rest)
    → length rest < length s
read_frame_shrinks capacity [] p rest e = unfold read_frame in cc (read_full_two_nil, e)
read_frame_shrinks capacity (a ∷ []) p rest e = unfold read_frame in cc (read_full_two_one a, e)
read_frame_shrinks capacity (a ∷ b ∷ s) p rest e = grind (
  arith,
  read_frame_header capacity a b s,
  read_full-eq-ok (a * 256 + b) s p rest,
  length-append p rest,
)

module _ {W : Type 0} (bump : W → W) (put : Put W) where
  -- One round, where the read gives a frame.
  round_ends :
      (fuel : ℕ) (s p rest : Bytes) (w : W)
      → read_frame copy_buf_size s ≡ ok (p, rest)
      → ((v : W) → (r : W) × (tunnel_to_udp bump put fuel rest v ≡ some r))
      → (r : W) × (tunnel_to_udp bump put (suc fuel) s w ≡ some r)
  unfolding tunnel_to_udp
  round_ends fuel s p rest w e next = elim (Bool-cases (ltb 0 (length p))) [
    | inr empty ↦ let (r, run) = next w in (r, rw (e, tunnel_to_udp) (rw empty run))
    | inl full ↦ elim (Bool-cases (put (bump w) p).0) [
      | inl sent ↦
          let (r, run) = next (put (bump w) p).1 in
          (r, rw (e, tunnel_to_udp) (rw full (rw sent run)))
      | inr lost ↦ ((put (bump w) p).1, rw (e, tunnel_to_udp) (rw full (rw lost)))
    ]
  ]

  -- The loop from the tunnel to the socket ends, whatever the bytes and whatever the socket
  -- answers: one round more than there are bytes is enough.
  pub tunnel_to_udp_total :
      (fuel : ℕ) (s : Bytes) (w : W)
      → length s < fuel
      → (r : W) × (tunnel_to_udp bump put fuel s w ≡ some r)
  tunnel_to_udp_total zero s w h = absurd (omega arith)
  tunnel_to_udp_total (suc fuel) s w h = go (read_frame copy_buf_size s) refl (λ p rest e v.
      tunnel_to_udp_total fuel rest v (omega (arith, read_frame_shrinks copy_buf_size s p rest e)))
    where
      go :
          (o : Outcome IoError (Bytes × Bytes))
          → read_frame copy_buf_size s ≡ o
          → ((p rest : Bytes)
              → read_frame copy_buf_size s ≡ ok (p, rest)
              → (v : W) → (r : W) × (tunnel_to_udp bump put fuel rest v ≡ some r))
          → (r : W) × (tunnel_to_udp bump put (suc fuel) s w ≡ some r)
      go (ok (p, rest)) e next = round_ends fuel s p rest w e (next p rest e)
      go (err x) e next = (w, unfold tunnel_to_udp in rw (e, tunnel_to_udp))
      go panic e next = (w, unfold tunnel_to_udp in rw (e, tunnel_to_udp))
      go stuck e next = (w, unfold tunnel_to_udp in rw (e, tunnel_to_udp))
