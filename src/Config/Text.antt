-- ===== src/Config/Text.antt =====
-- What the configuration uses of Go's `strings` and `strconv`, on a text as the list of its runes;
-- config/uiconfig.go: `NormalizeTransport`.
use good_link.Base.{
  ℕ, Bool, [], ◌∷◌, ◌++◌, if◌then◌else◌, leb, ltb, ◌==◌, ◌||◌, ◌&&◌, false, ◌+◌, ◌*◌, ◌/◌, ◌%◌, ◌-◌,
  ◌≡◌, refl, arith, zero, suc, ◌≤◌, ap, ◌∙◌, Bytes, sym,
}
use good_link.Net.{equal}

-- `unicode.IsSpace`
unfoldable pub is_space : ℕ → Bool
is_space c =
    leb 9 c && leb c 13
    || c == 0x20
    || c == 0x85
    || c == 0xa0
    || c == 0x1680
    || leb 0x2000 c && leb c 0x200a
    || c == 0x2028
    || c == 0x2029
    || c == 0x202f
    || c == 0x205f
    || c == 0x3000

-- `unicode.IsControl`
unfoldable pub is_control : ℕ → Bool
is_control c = ltb c 0x20 || leb 0x7f c && ltb c 0xa0

unfoldable pub trim_left : Bytes → Bytes
trim_left [] = []
trim_left (c ∷ s) = let rest = trim_left s in if is_space c then rest else c ∷ s

unfoldable pub trim_right : Bytes → Bytes
trim_right [] = []
trim_right (c ∷ s) = let rest = trim_right s in if is_space c && equal rest [] then [] else c ∷ rest

-- `strings.TrimSpace`
unfoldable pub trim_space : Bytes → Bytes
trim_space s = trim_right (trim_left s)

-- `unicode.ToLower` on the runes whose lower case is an ASCII letter; other letters are kept.
unfoldable pub lower_rune : ℕ → ℕ
lower_rune c =
    if leb 65 c && leb c 90
    then c + 32
    else if c == 0x212a
    then b'k'
    else if c == 0x130
    then b'i'
    else c

unfoldable pub to_lower : Bytes → Bytes
to_lower [] = []
to_lower (c ∷ s) = lower_rune c ∷ to_lower s

unfoldable pub contains : ℕ → Bytes → Bool
contains c [] = false
contains c (d ∷ s) = d == c || contains c s

-- `strconv.Itoa` of a number that is not negative.
unfoldable pub digits_of : ℕ → ℕ → Bytes
digits_of zero n = []
digits_of (suc fuel) n =
    let rest = digits_of fuel (n / 10) in
    if ltb n 10 then (48 + n) ∷ [] else rest ++ (48 + n % 10) ∷ []

unfoldable pub itoa : ℕ → Bytes
itoa n = digits_of (suc n) n

-- `net.JoinHostPort`
unfoldable pub join_host_port : Bytes → Bytes → Bytes
join_host_port host port =
    if contains b':' host then b'[' ∷ host ++ b']' ∷ b':' ∷ port else host ++ b':' ∷ port

abbrev pub quic_name : Bytes
quic_name = b'q' ∷ b'u' ∷ b'i' ∷ b'c' ∷ []

abbrev pub kcp_name : Bytes
kcp_name = b'k' ∷ b'c' ∷ b'p' ∷ []

unfoldable pub normalize_transport : Bytes → Bytes
normalize_transport s = let t = to_lower (trim_space s) in if equal t [] then kcp_name else t

-- The number that digits spell.
abbrev pub spelled : ℕ → Bytes → ℕ
spelled n [] = n
spelled n (c ∷ s) = spelled (n * 10 + (c - 48)) s

spelled-append : (n : ℕ) (s t : Bytes) → spelled n (s ++ t) ≡ spelled (spelled n s) t
spelled-append n [] t = refl
spelled-append n (c ∷ s) t = spelled-append (n * 10 + (c - 48)) s t

spelled-digits_of : (fuel n : ℕ) → suc n ≤ fuel → spelled 0 (digits_of fuel n) ≡ n
unfolding digits_of
spelled-digits_of zero n h = absurd (omega arith)
spelled-digits_of (suc fuel) n h = ground (
  arith,
  spelled-append 0 (digits_of fuel (n / 10)) ((48 + n % 10) ∷ []),
  spelled-digits_of fuel (n / 10),
)

pub spelled-itoa : (n : ℕ) → spelled 0 (itoa n) ≡ n
unfolding itoa
spelled-itoa n = spelled-digits_of (suc n) n (omega arith)

pub itoa_injective : (n k : ℕ) → itoa n ≡ itoa k → n ≡ k
itoa_injective n k h = sym (spelled-itoa n) ∙ ap (spelled 0) h ∙ spelled-itoa k
