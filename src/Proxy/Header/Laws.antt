-- ===== src/Proxy/Header/Laws.antt =====
-- The head that one end writes is what the other end acts on; and each stream is let go.
use good_link.Base.{
  ℕ, slice, refl, ok, ◌≡◌, [], List, ◌+◌, ◌*◌, Bool, ◌∷◌, length, err, ◌%◌, panic, Outcome, ◌/◌,
  Bytes, Returns, ◌++◌, stuck, arith, true, ◌==◌, if◌then◌else◌, ◌&&◌, some, false, ◌∙◌,
}
use good_link.Wire.{IoError, read_full, read_full-append, read_full-eq-ok, read_full-Returns}
use good_link.Net.{to4, length-to4, Ip, to4, length-to4}
use good_link.Proxy.Header.{
  handle_conn, Answers, write_stream, proxy_port, dial_port, dial_tcp, set_no_delay, Event,
  set_deadline, clear_deadline, dial_tcp, set_no_delay, relay, relay_udp, close_stream, drop_stream,
  head_len, proxy_port, head, dial_port, serve_protocol, act_on_head, process_stream,
}

-- How often a run lets the tunnel stream go: it closes it, or hands it to a relay, which closes it.
abbrev pub releases : List Event → ℕ
releases [] = 0
releases (e ∷ es) = (elim e [ relay ↦ 1 | relay_udp ↦ 1 | close_stream ↦ 1 | _ ↦ 0 ]) + releases es

releases-serve_protocol :
    (allow dialed : Bool) (p : ℕ) (ip : Ip) (port : ℕ)
    → releases (serve_protocol allow dialed p ip port) ≡ 1
unfolding serve_protocol
releases-serve_protocol allow dialed p ip port = ground arith

-- The seven bytes, one by one.
act_on_seven :
    (allow dialed : Bool) (p a b c d hi lo : ℕ)
    → act_on_head allow dialed (p ∷ a ∷ b ∷ c ∷ d ∷ hi ∷ lo ∷ [])
      ≡ ok (serve_protocol allow dialed p (a ∷ b ∷ c ∷ d ∷ []) (hi * 256 + lo))
unfolding act_on_head slice
act_on_seven allow dialed p a b c d hi lo = refl

act_on_head-releases :
    (allow dialed : Bool) (bs : Bytes)
    → length bs ≡ 7
    → (events : List Event) × (act_on_head allow dialed bs ≡ ok events) × (releases events ≡ 1)
act_on_head-releases allow dialed (p ∷ a ∷ b ∷ c ∷ d ∷ hi ∷ lo ∷ []) h = (
  serve_protocol allow dialed p (a ∷ b ∷ c ∷ d ∷ []) (hi * 256 + lo),
  act_on_seven allow dialed p a b c d hi lo,
  releases-serve_protocol allow dialed p (a ∷ b ∷ c ∷ d ∷ []) (hi * 256 + lo),
)
act_on_head-releases allow dialed (p ∷ a ∷ b ∷ c ∷ d ∷ hi ∷ lo ∷ x ∷ r) h = absurd (omega arith)
act_on_head-releases allow dialed [] h = absurd (omega arith)
act_on_head-releases allow dialed (p ∷ []) h = absurd (omega arith)
act_on_head-releases allow dialed (p ∷ a ∷ []) h = absurd (omega arith)
act_on_head-releases allow dialed (p ∷ a ∷ b ∷ []) h = absurd (omega arith)
act_on_head-releases allow dialed (p ∷ a ∷ b ∷ c ∷ []) h = absurd (omega arith)
act_on_head-releases allow dialed (p ∷ a ∷ b ∷ c ∷ d ∷ []) h = absurd (omega arith)
act_on_head-releases allow dialed (p ∷ a ∷ b ∷ c ∷ d ∷ hi ∷ []) h = absurd (omega arith)

-- Whatever bytes a peer sends, `process_stream` comes to an end without an index out of range,
-- and lets the stream go exactly once.
pub process_stream-releases :
    (allow dialed : Bool) (stream : Bytes)
    → (events : List Event) × (process_stream allow dialed stream ≡ ok events)
      × (releases events ≡ 1)
process_stream-releases allow dialed stream =
    go (read_full head_len stream) refl (read_full-Returns head_len stream)
  where
    go :
        (o : Outcome IoError (Bytes × Bytes))
        → read_full head_len stream ≡ o
        → Returns (read_full head_len stream)
        → (events : List Event) × (process_stream allow dialed stream ≡ ok events)
          × (releases events ≡ 1)
    go (ok (bs, rest)) e r =
        let (events, acted, once) =
          act_on_head-releases allow dialed bs (read_full-eq-ok head_len stream bs rest e).1 in
        (
          set_deadline ∷ clear_deadline ∷ events,
          unfold process_stream in rw (e, process_stream) (rw acted),
          omega (arith, once),
        )
    go (err x) e r =
        (set_deadline ∷ drop_stream, unfold process_stream in rw (e, process_stream), refl)
    go panic e r = absurd (rw e at r)
    go stuck e r = absurd (rw e at r)

-- The head that `handleConn` writes, with anything behind it, makes `process_stream` serve that
-- protocol, address and port.
pub process_stream-head :
    (allow dialed : Bool) (proto : ℕ) (ip4 : Ip) (port : ℕ) (rest : Bytes)
    → length ip4 ≡ 4
    → process_stream allow dialed (head proto ip4 port ++ rest)
      ≡ ok (set_deadline ∷ clear_deadline ∷ serve_protocol allow dialed proto ip4 port)
unfolding process_stream head
process_stream-head allow dialed proto (a ∷ b ∷ c ∷ d ∷ []) port rest h =
    rw
      (
        read_full-append (proto ∷ a ∷ b ∷ c ∷ d ∷ (port / 256) ∷ (port % 256) ∷ []) rest,
        process_stream,
      )
      (rw (act_on_seven allow dialed proto a b c d (port / 256) (port % 256)) (ground arith))
process_stream-head allow dialed proto [] port rest h = absurd (omega arith)
process_stream-head allow dialed proto (a ∷ []) port rest h = absurd (omega arith)
process_stream-head allow dialed proto (a ∷ b ∷ []) port rest h = absurd (omega arith)
process_stream-head allow dialed proto (a ∷ b ∷ c ∷ []) port rest h = absurd (omega arith)
process_stream-head allow dialed proto (a ∷ b ∷ c ∷ d ∷ x ∷ r) port rest h = absurd (omega arith)

-- What `handleConn` writes for a TCP rule makes the other end dial that address and port (3389
-- for 13389), unless the port is that of the built-in proxy and the proxy is allowed; on both
-- ends a relay takes over.
pub handle_conn-process_stream :
    (remote_ip ip4 : Ip) (port : ℕ) (allow : Bool) (rest : Bytes)
    → to4 remote_ip ≡ some ip4
    → (port == proxy_port && allow) ≡ false
    → (handle_conn remote_ip port (record { opened = true; written = true })
        ≡ write_stream (head 0x00 ip4 port) ∷ relay ∷ [])
      × (process_stream allow true (head 0x00 ip4 port ++ rest)
          ≡ ok (
              set_deadline
              ∷ clear_deadline
              ∷ dial_tcp ip4 (dial_port port)
              ∷ set_no_delay
              ∷ relay
              ∷ []))
unfolding handle_conn serve_protocol
handle_conn-process_stream remote_ip ip4 port allow rest is4 other = (
  rw (is4, handle_conn),
  process_stream-head allow true 0x00 ip4 port rest (length-to4 remote_ip is4) ∙ rw other,
)

-- `handleConn` lets the stream go exactly once on every path, if it was opened at all.
releases-handle_conn :
    (remote_ip : Ip) (port : ℕ) (answers : Answers)
    → releases (handle_conn remote_ip port answers) ≡ (if answers.opened then 1 else 0)
unfolding handle_conn
releases-handle_conn remote_ip port answers = ground arith
