-- ===== src/Proxy/Frame/RoundTrip.antt =====
-- Datagrams keep their boundaries on the tunnel, which is a stream of bytes.

use good_link.Base.{
  ℕ, ◌/◌, ◌%◌, ◌≤◌, ◌≡◌, arith, ◌++◌, Bytes, length, ok, List, ◌<◌, true, ◌∷◌, All, [], append-nil,
  length-append, suc, append_assoc, err, some, ltb, if◌then◌else◌, zero, ap, sym,
}
use good_link.Wire.{read_full-append, read_full_two, eof, read_full_two_nil}
use good_link.Proxy.Frame.{
  max_udp_frame_payload, frame, read_frame, Put, Read, udp_to_tunnel, tunnel_to_udp, write_frame,
  IoError, copy_buf_size,
}

-- A payload of 65535 bytes at most that fits the buffer is read back from its frame, and the
-- bytes behind the frame are left.
pub read_frame-frame :
    (capacity : ℕ) (payload rest : Bytes)
    → length payload ≤ max_udp_frame_payload
    → length payload ≤ capacity
    → read_frame capacity (frame payload ++ rest) ≡ ok (payload, rest)
unfolding read_frame frame
read_frame-frame capacity payload rest h k =
    let n = length payload in
    rw (read_full_two (n % 65536 / 256) (n % 65536 % 256) (payload ++ rest))
      (ground (arith, read_full-append payload rest))

-- The sinks of a tunnel that takes all bytes, and of a socket that takes all datagrams.
abbrev pub append_put : Put Bytes
append_put s b = (true, s ++ b)

abbrev pub record_put : Put (List Bytes)
record_put l p = (true, l ++ p ∷ [])

abbrev pub still {ℓ} : {A : Type ℓ} → A → A
still w = w

-- The datagrams that `conn.Read` returns up to its first error, but the empty ones.
abbrev pub delivered : List Read → List Bytes
delivered [] = []
delivered (r ∷ rs) =
    let rest = if r.failed then [] else delivered rs in
    if ltb 0 (length r.bytes) then r.bytes ∷ rest else rest

abbrev pub Fits : Bytes → Type 0
Fits p = length p ≤ max_udp_frame_payload

abbrev pub FitsRead : Read → Type 0
FitsRead r = Fits r.bytes

abbrev frames : List Bytes → Bytes
frames [] = []
frames (p ∷ ps) = frame p ++ frames ps

abbrev IsSent : Bytes → Type 0
IsSent p = Fits p × (0 < length p)

delivered-IsSent : (reads : List Read) → All FitsRead reads → All IsSent (delivered reads)
delivered-IsSent [] h = tt
delivered-IsSent (r ∷ rs) h = ground (arith, delivered-IsSent rs h.1)

udp_to_tunnel-frames :
    (reads : List Read) (w : Bytes)
    → All FitsRead reads
    → udp_to_tunnel still append_put reads w ≡ w ++ frames (delivered reads)
unfolding udp_to_tunnel write_frame
udp_to_tunnel-frames [] w h = ground (arith, append-nil w)
udp_to_tunnel-frames (r ∷ rs) w h = ground (
  arith,
  append-nil w,
  append-nil (frame r.bytes),
  udp_to_tunnel-frames rs w h.1,
  udp_to_tunnel-frames rs (w ++ frame r.bytes) h.1,
  append_assoc w (frame r.bytes) (frames (delivered rs)),
)

-- Whole frames, and behind them what holds none.
tunnel_to_udp-frames :
    (fuel : ℕ) (ds : List Bytes) (tail : Bytes) (w : List Bytes) (e : IoError)
    → All IsSent ds
    → read_frame copy_buf_size tail ≡ err e
    → length ds < fuel
    → tunnel_to_udp still record_put fuel (frames ds ++ tail) w ≡ some (w ++ ds)
unfolding tunnel_to_udp
tunnel_to_udp-frames zero ds tail w e h stop f = absurd (omega arith)
tunnel_to_udp-frames (suc fuel) [] tail w e h stop f =
    rw (stop, tunnel_to_udp) (ap some (sym (append-nil w)))
tunnel_to_udp-frames (suc fuel) (d ∷ ds) tail w e h stop f =
    rw (append_assoc (frame d) (frames ds) tail) (
      rw (read_frame-frame copy_buf_size d (frames ds ++ tail) h.0.0 (omega arith), tunnel_to_udp)
        (ground (
          arith,
          tunnel_to_udp-frames fuel ds tail (w ++ d ∷ []) e h.1 stop (omega arith),
          append_assoc w (d ∷ []) ds,
        )))

length-frames : (ds : List Bytes) → length ds ≤ length (frames ds)
unfolding frame
length-frames [] = omega arith
length-frames (d ∷ ds) = omega (arith, length-append d (frames ds), length-frames ds)

read_frame-nil : read_frame copy_buf_size [] ≡ err eof
unfolding read_frame
read_frame-nil = rw read_full_two_nil

-- What one end of a UDP relay reads from its socket, the other end writes to its own: the same
-- datagrams, in order, with the same boundaries, up to the first read error; empty datagrams are
-- dropped. No datagram read is longer than 65535 bytes, and neither end meets a write error.
pub relay-delivered :
    (reads : List Read)
    → All FitsRead reads
    → tunnel_to_udp still record_put
        (suc (length (udp_to_tunnel still append_put reads [])))
        (udp_to_tunnel still append_put reads [])
        []
      ≡ some (delivered reads)
relay-delivered reads h = rw (udp_to_tunnel-frames reads [] h) (
    let run =
      tunnel_to_udp-frames (suc (length (frames (delivered reads)))) (delivered reads) [] [] eof
        (delivered-IsSent reads h) read_frame-nil
        (omega (arith, length-frames (delivered reads))) in
    rw (append-nil (frames (delivered reads))) at run)
