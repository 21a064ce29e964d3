-- ===== src/Proxy/Frame.antt =====
-- proxy/proxy_io.go: `writeFrame`, `readFrame` and the two loops of `RelayUDPIdle`.
pub mod RoundTrip
pub mod Reads
use good_link.Base.{
  ℕ, suc, zero, ◌+◌, ◌*◌, ◌%◌, Bool, true, false, Option, none, some, List, [], ◌∷◌, ◌++◌, ltb,
  if◌then◌else◌, Bytes, length, Outcome, ok, err, panic, stuck, ◌>>=◌, ◌>>◌, fail_if,
}
use good_link.Wire.{IoError, write_failed, too_large, invalid_length, put_uint16, uint16, read_full}

-- The size of the buffers that both loops read into.
abbrev pub copy_buf_size : ℕ
copy_buf_size = 64 * 1024

abbrev pub max_udp_frame_payload : ℕ
max_udp_frame_payload = 65535

-- The bytes of one frame: `uint16(len(payload))`, and the payload.
unfoldable pub frame : Bytes → Bytes
unfolding put_uint16
frame payload = put_uint16 (length payload % 65536) ++ payload

-- The result is the payload, `buf[:n]`, and what is left in the stream. `capacity` is `len(buf)`.
unfoldable pub read_frame : ℕ → Bytes → Outcome IoError (Bytes × Bytes)
unfolding uint16
read_frame capacity s = do
  (hdr, body) ← read_full 2 s
  n ← uint16 hdr
  fail_if (ltb capacity n) (invalid_length n)
  read_full n body

-- A writer with its state: `true` stands for a nil error.
abbrev pub Put : Type 0 → Type 0
Put W = W → Bytes → Bool × W

module _ {W : Type 0} (put : Put W) where
  unfoldable pub write_frame : W → Bytes → Outcome IoError (Unit {0}) × W
  unfolding frame
  write_frame w payload =
      if ltb max_udp_frame_payload (length payload)
      then (err (too_large (length payload)), w)
      else let (sent, w') = put w (frame payload) in (if sent then ok tt else err write_failed, w')

-- `conn.Read`: the bytes read, `buf[:n]`, and whether there was an error beside them.
pub record Read : Type 0 where
  pub bytes : Bytes
  pub failed : Bool

-- `bump` restarts the idle timer that the two directions share; `put` writes to the other end.
module _ {W : Type 0} (bump : W → W) (put : Put W) where
  -- Tunnel to UDP. The fuel bounds the frames that are read; `none` means that it ran out.
  unfoldable pub tunnel_to_udp : ℕ → Bytes → W → Option W
  tunnel_to_udp zero s w = none
  tunnel_to_udp (suc fuel) s w = elim (read_frame copy_buf_size s) [
    | ok (payload, rest) ↦
        let (sent, w') = put (bump w) payload in
        let next = tunnel_to_udp fuel rest w' in
        let skip = tunnel_to_udp fuel rest w in
        if ltb 0 (length payload) then (if sent then next else some w') else skip
    | _ ↦ some w
  ]

  -- UDP to tunnel, on what the reads of the connection return in turn. Where the list ends the
  -- loop waits in `conn.Read`.
  unfoldable pub udp_to_tunnel : List Read → W → W
  udp_to_tunnel [] w = w
  udp_to_tunnel (r ∷ reads) w =
      let (result, w') = write_frame put (bump w) r.bytes in
      let next = udp_to_tunnel reads in
      let after = λ (v : W). if r.failed then v else next v in
      if ltb 0 (length r.bytes) then elim result [ ok _ ↦ after w' | _ ↦ w' ] else after w
