-- ===== src/Proxy/Tests.antt =====
-- The theorems on the proxy at concrete streams, datagrams and sessions.
use good_link.Base.{
  some, ◌++◌, true, arith, ◌∷◌, [], suc, ok, List, Returns, ◌≡◌, Bytes, false, refl, length, slice,
}
use good_link.Wire.{read_full, uint16}
use good_link.Net.{Ip, to4}
use good_link.Proxy.Frame.{Read, frame, read_frame, tunnel_to_udp, udp_to_tunnel}
use good_link.Proxy.Frame.RoundTrip.{append_put, record_put, still, relay-delivered}
use good_link.Proxy.Frame.Reads.{read_frame-Returns, tunnel_to_udp_total}
use good_link.Proxy.Header.{
  head, Event, handle_conn, process_stream, write_stream, relay, set_deadline, clear_deadline,
  dial_tcp, set_no_delay,
}
use good_link.Proxy.Header.Laws.{releases, process_stream-releases, handle_conn-process_stream}

abbrev payload : Bytes
payload = 7 ∷ 8 ∷ 9 ∷ []

abbrev reads : List Read
reads =
    record { bytes = 1 ∷ 2 ∷ []; failed = false }
    ∷ record { bytes = []; failed = false }
    ∷ record { bytes = payload; failed = true }
    ∷ record { bytes = 4 ∷ []; failed = false }
    ∷ []

relay-delivered_example :
    tunnel_to_udp still record_put
      (suc (length (udp_to_tunnel still append_put reads [])))
      (udp_to_tunnel still append_put reads [])
      []
    ≡ some ((1 ∷ 2 ∷ []) ∷ payload ∷ [])
relay-delivered_example =
    relay-delivered reads (omega arith, (omega arith, (omega arith, (omega arith, tt))))

read_frame-Returns_example : Returns (read_frame 2 (frame payload))
read_frame-Returns_example = read_frame-Returns 2 (frame payload)

read_frame_run : read_frame 16 (0 ∷ 2 ∷ 7 ∷ 8 ∷ 9 ∷ []) ≡ ok (7 ∷ 8 ∷ [], 9 ∷ [])
unfolding read_frame read_full uint16 slice
read_frame_run = refl

tunnel_to_udp_total_example :
    (r : List Bytes) × (tunnel_to_udp still record_put 6 (0 ∷ 9 ∷ 1 ∷ 2 ∷ 3 ∷ []) [] ≡ some r)
tunnel_to_udp_total_example =
    tunnel_to_udp_total still record_put 6 (0 ∷ 9 ∷ 1 ∷ 2 ∷ 3 ∷ []) [] (omega arith)

abbrev host : Ip
host = 192 ∷ 168 ∷ 1 ∷ 20 ∷ []

process_stream-releases_example :
    (events : List Event) × (process_stream true false (0 ∷ 1 ∷ []) ≡ ok events)
    × (releases events ≡ 1)
process_stream-releases_example = process_stream-releases true false (0 ∷ 1 ∷ [])

handle_conn-process_stream_example :
    (handle_conn host 13389 (record { opened = true; written = true })
      ≡ write_stream (head 0x00 host 13389) ∷ relay ∷ [])
    × (process_stream true true (head 0x00 host 13389 ++ payload)
        ≡ ok (set_deadline ∷ clear_deadline ∷ dial_tcp host 3389 ∷ set_no_delay ∷ relay ∷ []))
unfolding to4
handle_conn-process_stream_example =
    handle_conn-process_stream host host 13389 true payload refl refl
