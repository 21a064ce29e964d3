-- ===== src/Stun/Tests.antt =====
-- Runs of the STUN code, and the theorems at concrete messages.
use good_link.Base.{
  ◌>>=◌, slice, ok, ◌++◌, ◌∷◌, Bytes, [], refl, ◌≡◌, length, arith, Returns, if◌then◌else◌, none,
  some,
}
use good_link.Stun.Message.{
  build_fingerprint, calc_fingerprint, attr_xor_mapped_address, build_mapped_address,
  build_xor_mapped_address, xor_bytes, address_attribute, build_binding_response,
  magic_cookie_bytes,
}
use good_link.Stun.RoundTrip.{
  get_stun_ip_port4-build_binding_response, changed_ipv4, address_of_parsed,
}
use good_link.Stun.Client.Safety.{get_stun_ip_port4-Returns}
use good_link.Stun.Client.{
  binding_request, index_one, address_of, decode_address, uint16_at, check_response,
  get_stun_ip_port2, get_stun_ip_port4, get_stun_ip_port5, scan_attributes,
}
use good_link.Net.{UdpAddr, equal, to4}
use good_link.Wire.{uint16}
use good_link.Dict.{lookup}
use good_link.Stun.Server.{StunServer, Txn, nat1_nat3, nat4, track, addr_equal, handle_packet}
use good_link.Stun.Server.Nat.{Request, run, IsOther, track_primary_first}
use good_link.Stun.Exchange.{exchange}

abbrev peer : UdpAddr
peer = record { ip = 203 ∷ 0 ∷ 113 ∷ 7 ∷ []; port = 40001 }

abbrev tid : Bytes
tid = 1 ∷ 2 ∷ 3 ∷ 4 ∷ 5 ∷ 6 ∷ 7 ∷ 8 ∷ 9 ∷ 10 ∷ 11 ∷ 12 ∷ []

abbrev cookie : Bytes
cookie = 0x21 ∷ 0x12 ∷ 0xA4 ∷ 0x42 ∷ []

abbrev request : Bytes
request = 0 ∷ 1 ∷ 0 ∷ 0 ∷ (cookie ++ tid)

abbrev changed : Bytes
changed = 0 ∷ 5 ∷ 0 ∷ 8 ∷ 0 ∷ 1 ∷ 0x0d ∷ 0x97 ∷ 198 ∷ 51 ∷ 100 ∷ 2 ∷ []

answered :
    (do m ← build_binding_response peer tid changed; get_stun_ip_port2 request m cookie tid)
    ≡ ok (record {
      wan_ip = peer.ip;
      wan_port = 40001;
      change_ip = 198 ∷ 51 ∷ 100 ∷ 2 ∷ [];
      change_port = 3479;
    })
unfolding build_binding_response get_stun_ip_port2 get_stun_ip_port4 scan_attributes
    get_stun_ip_port5 check_response build_mapped_address build_xor_mapped_address to4 xor_bytes
    address_attribute build_fingerprint calc_fingerprint equal slice index_one address_of
    decode_address uint16_at uint16
answered = refl

abbrev change_ip : Bytes
change_ip = 198 ∷ 51 ∷ 100 ∷ 2 ∷ []

get_stun_ip_port4-build_binding_response_example :
    (do
      m ← build_binding_response peer tid (changed_ipv4 3479 change_ip)
      attrs ← slice m 20 (length m)
      parsed ← get_stun_ip_port4 attrs (length attrs) attr_xor_mapped_address cookie tid
      address_of_parsed parsed)
    ≡ ok (peer.ip, 40001)
unfolding to4
get_stun_ip_port4-build_binding_response_example =
    get_stun_ip_port4-build_binding_response peer peer.ip tid change_ip 3479 refl (omega arith) refl
      refl

-- An attribute that claims 65535 bytes, in a message of six.
get_stun_ip_port4-Returns_example :
    Returns (get_stun_ip_port4 (0 ∷ 1 ∷ 0xff ∷ 0xff ∷ 0 ∷ 1 ∷ []) 6 1 cookie tid)
get_stun_ip_port4-Returns_example =
    get_stun_ip_port4-Returns (0 ∷ 1 ∷ 0xff ∷ 0xff ∷ 0 ∷ 1 ∷ []) 6 1 cookie tid

abbrev server : StunServer
server = record { txns = []; primary_port = 3478; secondary_port = 3479 }

abbrev mapped : UdpAddr
mapped = record { ip = peer.ip; port = 40002 }

abbrev elsewhere : Request
elsewhere = record { local_port = 3478; remote = mapped; tid = cookie; now = 600 }

elsewhere-IsOther : IsOther tid 500 elsewhere
unfolding equal
elsewhere-IsOther = (refl, omega arith)

track_primary_first_example :
    let first = track server 3478 peer tid 500 in
    let both = track (run first.0 (elsewhere ∷ [])) 3479 mapped tid 700 in
    (first.1 ≡ none)
    × (both.1 ≡ some (if addr_equal peer mapped then nat1_nat3 else nat4))
    × (lookup tid both.0.txns ≡ none)
unfolding lookup
track_primary_first_example =
    track_primary_first server peer mapped tid 500 700 (elsewhere ∷ []) (omega arith) refl
      (omega arith) (elsewhere-IsOther, tt)

abbrev waiting : Txn
waiting = record { primary_addr = some peer; secondary_addr = none; first_seen = 100 }

abbrev waiting_server : StunServer
waiting_server = record server { txns = (cookie, waiting) ∷ [] }

exchange_example :
    (response : Bytes) × (handle_packet server 3478 peer
        (binding_request tid)
        (changed_ipv4 3479 change_ip)
        500
      ≡ ok (record {
        server = (track server 3478 peer tid 500).0;
        nat = (track server 3478 peer tid 500).1;
        reply = some response;
      }))
    × (get_stun_ip_port2 (binding_request tid) response magic_cookie_bytes tid
        ≡ ok (record {
          wan_ip = peer.ip;
          wan_port = 40001;
          change_ip = change_ip;
          change_port = 3479;
        }))
unfolding to4
exchange_example =
    exchange server 3478 peer peer.ip tid change_ip 3479 500 refl (omega arith) refl refl
      (omega arith)
