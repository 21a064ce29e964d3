-- ===== src/Config/Services/Tests.antt =====
-- The configuration at work.
use good_link.Config.Services.Total.{normalize_and_validate-Returns}
use good_link.Base.{
  arith, refl, Outcome, List, take, ◌<◌, [], ◌++◌, Bytes, ℤ, drop, Option, ap, ◌⊎◌, ok, ℕ, none,
  length-append, length, ◌-◌, take-length-append, true, some, ◌∙◌, ◌∷◌, ◌≡◌, pos, false, All,
  Returns,
}
use good_link.Net.{to4, Ip, v4_in_v6_prefix, equal}
use good_link.Dict.{lookup, put, delete}
use good_link.Config.Text.{
  spelled, spelled-itoa, itoa, digits_of, trim_space, trim_left, trim_right, is_space, contains,
  to_lower, lower_rune, normalize_transport, join_host_port, is_control,
}
use good_link.Config.Services.{
  UiService, ConfigError, tun_ip_of, allocate_tun_ip, validate_tun_ip, tun_segment_of,
  used_segments, service_label, free_segment, parse_ipv4, segment_of, tcp_name, listen_rule_key,
  parse_host_port_ipv4, parse_port, is_tun_ip,
}
use good_link.Config.Services.Segments.{IsFull, IsFirstFree, allocate_tun_ip-cases}
use good_link.Config.Services.Check.{
  normalize_service_name, normalize_and_validate, check_services, check_service, check_identity,
  check_address, check_listens, service_listens, note_service, normalize_service_mode,
  normalize_rules, normalize_rule, any_control, id_of, key_owner, mode_of, or_fail, fill_tun_ip,
  keep_auto_start, settle_auto_start, is_in, free_label, check_name,
}
use good_link.Config.Services.Valid.{IsUsable}
use good_link.Config.Services.Apart.{IsApart, Pairwise}
use good_link.Config.Services.Rules.{Pairs, IsServiceOf}
use good_link.Config.Services.Whole.{AtMostOne, normalize_and_validate-eq-ok}

-- All but the last two.
abbrev strip : Bytes → Bytes
strip s = take (length s - 2) s

strip-append : (s : Bytes) (a b : ℕ) → strip (s ++ a ∷ b ∷ []) ≡ s
strip-append s a b =
    let e : length (s ++ a ∷ b ∷ []) - 2 ≡ length s = omega (arith, length-append s (a ∷ b ∷ [])) in
    rw e (take-length-append s (a ∷ b ∷ []))

-- It reads the third number of the addresses that the program makes.
abbrev read_ip : Bytes → Option Ip
read_ip s = some (v4_in_v6_prefix ++ 192 ∷ 17 ∷ spelled 0 (strip (drop 7 s)) ∷ 1 ∷ [])

read_ip-tun_ip_of :
    (n : ℕ) → n < 256 → read_ip (tun_ip_of n) ≡ some (v4_in_v6_prefix ++ 192 ∷ 17 ∷ n ∷ 1 ∷ [])
read_ip-tun_ip_of n h =
    ap (λ k. some (v4_in_v6_prefix ++ 192 ∷ 17 ∷ k ∷ 1 ∷ []))
      (ap (spelled 0) (strip-append (itoa n) b'.' b'1') ∙ spelled-itoa n)

abbrev plain : UiService
plain = record {
  id = [];
  name = 32 ∷ [];
  work_type = [];
  tun_key = [];
  local_mode = 70 ∷ b'o' ∷ b'r' ∷ b'w' ∷ b'a' ∷ b'r' ∷ b'd' ∷ [];
  transport = [];
  tun_ip = [];
  auto_start = true;
  forward_rules = record { proto = tcp_name; listen = b'9' ∷ []; remote = b'9' ∷ [] } ∷ [];
  allow_local_proxy = none;
}

-- A second service, with its own rules.
abbrev other : UiService
other = record plain {
  forward_rules =
      record { proto = 85 ∷ b'd' ∷ b'p' ∷ []; listen = b'9' ∷ []; remote = b'9' ∷ [] } ∷ [];
}

abbrev whole_host : Bytes → Option (Bytes × Bytes)
whole_host s = some (s, s)

abbrev read_port : Bytes → Option ℤ
read_port s = some (pos (spelled 0 s))

first_segments :
    allocate_tun_ip read_ip (record plain { tun_ip = tun_ip_of 19 } ∷ []) ≡ tun_ip_of 20
unfolding allocate_tun_ip free_segment used_segments tun_segment_of parse_ipv4 segment_of trim_space
    trim_left trim_right is_space contains itoa digits_of equal to4
first_segments = refl

allocate_tun_ip-cases_example :
    ((allocate_tun_ip read_ip (plain ∷ []) ≡ []) × IsFull read_ip (plain ∷ []))
    ⊎ ((m : ℕ) × (allocate_tun_ip read_ip (plain ∷ []) ≡ tun_ip_of m)
        × IsFirstFree read_ip (plain ∷ []) m
        × (validate_tun_ip read_ip (tun_ip_of m) ≡ true)
        × (tun_segment_of read_ip (tun_ip_of m) ≡ some m))
allocate_tun_ip-cases_example = allocate_tun_ip-cases read_ip read_ip-tun_ip_of (plain ∷ [])

abbrev normalized : Outcome ConfigError (List UiService)
normalized = normalize_and_validate read_ip whole_host read_port service_label (plain ∷ other ∷ [])

abbrev services_of : Outcome ConfigError (List UiService) → List UiService
services_of (ok ss) = ss
services_of _ = []

normalized_ok : normalized ≡ ok (services_of normalized)
unfolding normalize_and_validate check_services check_service check_identity check_address
    check_listens service_listens note_service normalize_service_mode normalize_rules normalize_rule
    normalize_service_name free_label check_name any_control is_in id_of key_owner mode_of or_fail
    fill_tun_ip keep_auto_start settle_auto_start lookup put delete listen_rule_key
    parse_host_port_ipv4 parse_port parse_ipv4 is_tun_ip validate_tun_ip tun_segment_of segment_of
    used_segments free_segment allocate_tun_ip trim_space trim_left trim_right is_space to_lower
    lower_rune normalize_transport contains itoa digits_of join_host_port is_control equal to4
normalized_ok = refl

normalize_and_validate-eq-ok_example :
    All (IsUsable read_ip) (services_of normalized)
    × Pairwise IsApart (services_of normalized)
    × AtMostOne false (services_of normalized)
    × Pairs (IsServiceOf read_ip whole_host read_port) (plain ∷ other ∷ []) (services_of normalized)
normalize_and_validate-eq-ok_example =
    normalize_and_validate-eq-ok read_ip whole_host read_port service_label (plain ∷ other ∷ [])
      normalized_ok

normalize_and_validate-Returns_example : Returns normalized
normalize_and_validate-Returns_example =
    normalize_and_validate-Returns read_ip whole_host read_port service_label (plain ∷ other ∷ [])
