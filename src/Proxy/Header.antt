-- ===== src/Proxy/Header.antt =====
-- The seven bytes at the head of each tunnel stream: `handleConn` of proxy/proxy_l.go writes them,
-- and `process_stream` of proxy/proxy_r.go acts on them. Calls on streams and sockets are events.
pub mod Laws
use good_link.Base.{
  ℕ, slice, ◌==◌, panic, Bytes, none, stuck, ok, [], List, ◌++◌, some, Bool, ◌>>◌, not, ◌&&◌,
  Outcome, ◌∷◌, ◌>>=◌, err, if◌then◌else◌,
}
use good_link.Wire.{IoError, put_uint16, uint16, read_full}
use good_link.Net.{Ip, to4}

abbrev pub head_len : ℕ
head_len = 7

abbrev pub proxy_port : ℕ
proxy_port = 1080

pub data Event : Type 0 where
  -- `SetReadDeadline`, and its removal
  set_deadline clear_deadline : Event
  -- `proxy_handle.Serve` on the stream
  serve_proxy : Event
  -- `Dial` and `DialUDP`
  dial_tcp dial_udp : Ip → ℕ → Event
  -- `SetNoDelay`, and the two socket buffers
  set_no_delay set_buffers : Event
  -- `Relay` and `RelayUDPIdle`, which cancel and close the stream when they are done
  relay relay_udp : Event
  cancel_read close_stream close_conn : Event
  write_stream : Bytes → Event

-- The stream is given up.
abbrev pub drop_stream : List Event
drop_stream = cancel_read ∷ close_stream ∷ []

-- The bytes of the head: protocol, IPv4 address, port.
unfoldable pub head : ℕ → Ip → ℕ → Bytes
unfolding put_uint16
head proto ip4 port = proto ∷ (ip4 ++ put_uint16 port)

-- What the environment answers to `handleConn`: whether the stream opens, and whether the head is written.
pub record Answers : Type 0 where
  pub opened : Bool
  pub written : Bool

unfoldable pub handle_conn : Ip → ℕ → Answers → List Event
unfolding to4
handle_conn remote_ip remote_port answers =
    if not answers.opened then close_conn ∷ [] else elim (to4 remote_ip) [
      | none ↦ close_conn ∷ drop_stream
      | some ip4 ↦
          write_stream (head 0x00 ip4 remote_port)
          ∷ (if not answers.written then close_conn ∷ drop_stream else relay ∷ [])
    ]

-- The port that a TCP head stands for.
abbrev pub dial_port : ℕ → ℕ
dial_port remote_port = if remote_port == 13389 then 3389 else remote_port

-- The switch on the protocol; `dialed` is whether the dial succeeds.
unfoldable pub serve_protocol : Bool → Bool → ℕ → Ip → ℕ → List Event
serve_protocol allow_proxy dialed protocol ip remote_port =
    if protocol == 0x00
    then (if remote_port == proxy_port && allow_proxy
        then serve_proxy ∷ drop_stream
        else dial_tcp ip (dial_port remote_port)
          ∷ (if dialed then set_no_delay ∷ relay ∷ [] else drop_stream))
    else if protocol == 0x01
    then dial_udp ip remote_port ∷ (if dialed then set_buffers ∷ relay_udp ∷ [] else drop_stream)
    else drop_stream

-- On the head that was read: `headerBuf[0]`, `headerBuf[1:5]` and `headerBuf[5:7]`.
unfoldable pub act_on_head : Bool → Bool → Bytes → Outcome IoError (List Event)
unfolding uint16
act_on_head allow_proxy dialed header_buf = do
  protocol ← slice header_buf 0 1
  port_field ← slice header_buf 5 head_len
  remote_port ← uint16 port_field
  ip ← slice header_buf 1 5
  elim protocol [ [] ↦ panic | p ∷ _ ↦ ok (serve_protocol allow_proxy dialed p ip remote_port) ]

-- `process_stream` on the bytes that the peer sends. A failed read of the head ends the stream.
unfoldable pub process_stream : Bool → Bool → Bytes → Outcome IoError (List Event)
process_stream allow_proxy dialed stream = elim (read_full head_len stream) [
  | ok (header_buf, _) ↦ do
    events ← act_on_head allow_proxy dialed header_buf
    ok (set_deadline ∷ clear_deadline ∷ events)
  | err _ ↦ ok (set_deadline ∷ drop_stream)
  | panic ↦ panic
  | stuck ↦ stuck
]
