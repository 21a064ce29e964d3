-- ===== src/Config/Services/Segments.antt =====
-- config/uiconfig.go: the address that `AllocateTunIP` takes.
use good_link.Base.{
  inr, ◌++◌, List, ◌≡◌, ℕ, suc, Bool-cases, ◌⊎◌, ◌<◌, inl, ◌≤◌, refl, false, true, [], zero, Bytes,
  ◌∷◌, arith, ◌+◌, ==_iff, ◌≢◌, some, All, ◌==◌, Option, append_assoc, Option-cases, leb,
}
use good_link.Net.{Ip, equal, to4, v4_in_v6_prefix}
use good_link.Config.Text.{is_space, trim_left, trim_right, trim_space, contains, itoa}
use good_link.Config.Services.{
  UiService, tun_ip_prefix, parse_ipv4, is_tun_ip, validate_tun_ip, segment_of, tun_segment_of,
  used_segments, tun_ip_of, free_segment, allocate_tun_ip,
}

trim_right_more :
    (d : ℕ) (s : Bytes) → trim_right s ≡ s → equal s [] ≡ false → trim_right (d ∷ s) ≡ d ∷ s
unfolding trim_right
trim_right_more d s e filled = elim (Bool-cases (is_space d)) [
  | inl space ↦ rw (trim_right, space, e, filled) refl
  | inr other ↦ rw (trim_right, other, e) refl
]

filled-append : (s : Bytes) (c : ℕ) → equal (s ++ c ∷ []) [] ≡ false
unfolding equal
filled-append [] c = refl
filled-append (d ∷ s) c = refl

trim_right_last : (s : Bytes) (c : ℕ) → is_space c ≡ false → trim_right (s ++ c ∷ []) ≡ s ++ c ∷ []
unfolding trim_right equal
trim_right_last [] c h = rw (trim_right, h) refl
trim_right_last (d ∷ s) c h =
    trim_right_more d (s ++ c ∷ []) (trim_right_last s c h) (filled-append s c)

-- The search takes the first segment that is not in use.
free_segment-cases :
    (used : List ℕ) (left n : ℕ)
    → ((free_segment used left n ≡ []) × ((k : ℕ) → n ≤ k → k < n + left → contains k used ≡ true))
      ⊎ ((m : ℕ) × (n ≤ m)
          × (m < n + left)
          × (free_segment used left n ≡ tun_ip_of m)
          × (contains m used ≡ false)
          × ((k : ℕ) → n ≤ k → k < m → contains k used ≡ true))
unfolding free_segment
free_segment-cases used zero n = inl (refl, λ k p q. absurd (omega arith))
free_segment-cases used (suc left) n = elim (Bool-cases (contains n used)) [
  | inl taken ↦
      let first : (k : ℕ)
          → n ≤ k
          → ((suc n ≤ k) → contains k used ≡ true)
          → contains k used ≡ true =
        λ k p later. elim (Bool-cases (n == k)) [
          | inl same ↦ rw ((==_iff n k).0 same) at taken
          | inr other ↦ later (ground (arith, other))
        ] in
      elim (free_segment-cases used left (suc n)) [
        | inl (full, all) ↦
            inl (rw (free_segment, taken) full, λ k p q. first k p (λ r. all k r (omega arith)))
        | inr (m, p, q, e, free, all) ↦ inr (
          m,
          omega arith,
          omega arith,
          rw (free_segment, taken) e,
          free,
          λ k r t. first k r (λ u. all k u t),
        )
      ]
  | inr free ↦ inr (
    n,
    omega arith,
    omega arith,
    rw (free_segment, free) refl,
    free,
    λ k p q. absurd (omega arith),
  )
]

-- No address that the program makes has a space around it.
trim_space-tun_ip_of : (n : ℕ) → trim_space (tun_ip_of n) ≡ tun_ip_of n
unfolding trim_space trim_left is_space
trim_space-tun_ip_of n =
    let tail : (itoa n ++ b'.' ∷ []) ++ b'1' ∷ [] ≡ itoa n ++ b'.' ∷ b'1' ∷ [] =
      append_assoc (itoa n) (b'.' ∷ []) (b'1' ∷ []) in
    rw tail at (trim_right_last (tun_ip_prefix ++ (itoa n ++ b'.' ∷ [])) b'1' refl)

apart_from :
    (m n : ℕ) (used : List ℕ) → contains n (m ∷ used) ≡ false → (m ≢ n) × (contains n used ≡ false)
unfolding contains
apart_from m n used h = ground (arith, ==_iff m n)

-- The segments in use are those of the services.
module _ (parse_ip : Bytes → Option Ip) where
  used_segments-All :
      (ss : List UiService) (n : ℕ)
      → contains n (used_segments parse_ip ss) ≡ false
      → All (λ s. tun_segment_of parse_ip s.tun_ip ≢ some n) ss
  unfolding used_segments contains
  used_segments-All [] n h = tt
  used_segments-All (s ∷ ss) n h = elim (Option-cases (tun_segment_of parse_ip s.tun_ip)) [
    | inl outside ↦
        ((λ e. absurd (cc (outside, e))), used_segments-All ss n (rw (used_segments, outside) at h))
    | inr (m, inside) ↦
        let (other, free) =
          apart_from m n (used_segments parse_ip ss) (rw (used_segments, inside) at h) in
        ((λ e. other (cc (inside, e))), used_segments-All ss n free)
  ]

  parse_ipv4-tun_ip_of :
      (n : ℕ)
      → parse_ip (tun_ip_of n) ≡ some (v4_in_v6_prefix ++ 192 ∷ 17 ∷ n ∷ 1 ∷ [])
      → parse_ipv4 parse_ip (trim_space (tun_ip_of n)) ≡ some (192 ∷ 17 ∷ n ∷ 1 ∷ [])
  unfolding parse_ipv4 to4 equal
  parse_ipv4-tun_ip_of n parses = rw (trim_space-tun_ip_of n, parse_ipv4, parses) refl

  tun_ip_of-IsTunIp :
      (n : ℕ)
      → 0 < n
      → parse_ip (tun_ip_of n) ≡ some (v4_in_v6_prefix ++ 192 ∷ 17 ∷ n ∷ 1 ∷ [])
      → (validate_tun_ip parse_ip (tun_ip_of n) ≡ true)
        × (tun_segment_of parse_ip (tun_ip_of n) ≡ some n)
  unfolding validate_tun_ip tun_segment_of is_tun_ip segment_of
  tun_ip_of-IsTunIp n h parses =
      let fits : leb 1 n ≡ true = ground arith in
      let four = parse_ipv4-tun_ip_of n parses in
      (rw (validate_tun_ip, four) fits, rw (tun_segment_of, four) refl)

  abbrev pub IsFull : List UiService → Type 0
  IsFull ss = (k : ℕ) → 19 ≤ k → k ≤ 254 → contains k (used_segments parse_ip ss) ≡ true

  -- The first segment from 19 on that no service has.
  abbrev pub IsFirstFree : List UiService → ℕ → Type 0
  IsFirstFree ss m =
      (19 ≤ m)
      × (m ≤ 254)
      × All (λ s. tun_segment_of parse_ip s.tun_ip ≢ some m) ss
      × ((k : ℕ) → 19 ≤ k → k < m → contains k (used_segments parse_ip ss) ≡ true)

  search-cases :
      (ss : List UiService) (left : ℕ)
      → left ≡ 236
      → ((free_segment (used_segments parse_ip ss) left 19 ≡ []) × IsFull ss)
        ⊎ ((m : ℕ) × (free_segment (used_segments parse_ip ss) left 19 ≡ tun_ip_of m)
            × IsFirstFree ss m)
  search-cases ss left h = elim (free_segment-cases (used_segments parse_ip ss) left 19) [
    | inl (full, all) ↦ inl (full, λ k p q. all k p (omega arith))
    | inr (m, p, q, e, free, all) ↦ inr (m, e, (p, omega arith, used_segments-All ss m free, all))
  ]

  -- `AllocateTunIP`, where `net.ParseIP` reads the addresses that it makes: either each segment
  -- from 19 to 254 is in use and the result is empty, or the result is an address that
  -- `validateTunIP` takes, with the first segment from 19 on that no service has.
  pub allocate_tun_ip-cases :
      (parses : (n : ℕ)
        → n < 256
        → parse_ip (tun_ip_of n) ≡ some (v4_in_v6_prefix ++ 192 ∷ 17 ∷ n ∷ 1 ∷ []))
      (ss : List UiService)
      → ((allocate_tun_ip parse_ip ss ≡ []) × IsFull ss)
        ⊎ ((m : ℕ) × (allocate_tun_ip parse_ip ss ≡ tun_ip_of m)
            × IsFirstFree ss m
            × (validate_tun_ip parse_ip (tun_ip_of m) ≡ true)
            × (tun_segment_of parse_ip (tun_ip_of m) ≡ some m))
  unfolding allocate_tun_ip
  allocate_tun_ip-cases parses ss = elim (search-cases ss 236 refl) [
    | inl full ↦ inl full
    | inr (m, e, first) ↦
        let (valid, segment) =
          tun_ip_of-IsTunIp m (omega (arith, first.0)) (parses m (omega (arith, first.1))) in
        inr (m, e, first, valid, segment)
  ]
