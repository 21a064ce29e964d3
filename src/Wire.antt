-- ===== src/Wire.antt =====
-- What the program uses of Go's `io` and `encoding/binary`: `io.ReadFull`, `binary.BigEndian`.
-- A byte stream is the list of the bytes that have yet to come, and then its end.
use good_link.Base.{
  ℕ, suc, zero, ◌+◌, ◌*◌, ◌/◌, ◌%◌, ◌≡◌, refl, arith, [], ◌∷◌, ◌++◌, leb, if◌then◌else◌, Bytes,
  length, take, drop, length-append, take-length-append, drop-length-append, Outcome, ok, err,
  panic, ap, ◌<◌, Returns, length-take, take-append-drop,
}

pub data IoError : Type 0 where
  eof unexpected_eof write_failed : IoError
  too_large invalid_length : ℕ → IoError

-- `binary.BigEndian.PutUint16`, on a value below 65536.
unfoldable pub put_uint16 : ℕ → Bytes
put_uint16 n = (n / 256) ∷ (n % 256) ∷ []

-- `binary.BigEndian.Uint16`, which panics on fewer than two bytes.
unfoldable pub uint16 {ℓ} : {E : Type ℓ} → Bytes → Outcome E ℕ
uint16 (hi ∷ lo ∷ _) = ok (hi * 256 + lo)
uint16 (hi ∷ []) = panic
uint16 [] = panic

-- `io.ReadFull` into a buffer of `n` bytes: what it read, and what it left in the stream.
unfoldable pub read_full : ℕ → Bytes → Outcome IoError (Bytes × Bytes)
read_full zero s = ok ([], s)
read_full (suc n) [] = err eof
read_full (suc n) (b ∷ s) =
    if leb n (length s) then ok (b ∷ take n s, drop n s) else err unexpected_eof

pub read_full-append : (xs ys : Bytes) → read_full (length xs) (xs ++ ys) ≡ ok (xs, ys)
unfolding read_full
read_full-append [] ys = refl
read_full-append (x ∷ xs) ys =
    ground (arith, length-append xs ys, take-length-append xs ys, drop-length-append xs ys)

pub uint16-put_uint16 {ℓ} :
    {E : Type ℓ} (n : ℕ) (rest : Bytes) → uint16 {E = E} (put_uint16 n ++ rest) ≡ ok n
unfolding uint16 put_uint16
uint16-put_uint16 n rest = ap ok (omega arith)

pub read_full_two : (a b : ℕ) (s : Bytes) → read_full 2 (a ∷ b ∷ s) ≡ ok (a ∷ b ∷ [], s)
unfolding read_full
read_full_two a b s = ground arith

pub read_full_two_nil : read_full 2 [] ≡ err eof
unfolding read_full
read_full_two_nil = refl

pub read_full_two_one : (a : ℕ) → read_full 2 (a ∷ []) ≡ err unexpected_eof
unfolding read_full
read_full_two_one a = refl

pub read_full-Returns : (n : ℕ) (s : Bytes) → Returns (read_full n s)
unfolding read_full
read_full-Returns zero s = tt
read_full-Returns (suc n) [] = tt
read_full-Returns (suc n) (b ∷ s) = ground arith

pub read_full-eq-ok :
    (n : ℕ) (s p rest : Bytes) → read_full n s ≡ ok (p, rest) → (s ≡ p ++ rest) × (length p ≡ n)
unfolding read_full
read_full-eq-ok zero s p rest e = ground arith
read_full-eq-ok (suc n) [] p rest e = ground arith
read_full-eq-ok (suc n) (b ∷ s) p rest e = ground (arith, take-append-drop n s, length-take n s)

pub read_full_short : (n : ℕ) (s : Bytes) → length s < n → (e : IoError) × (read_full n s ≡ err e)
unfolding read_full
read_full_short zero s h = absurd (omega arith)
read_full_short (suc n) [] h = (eof, refl)
read_full_short (suc n) (b ∷ s) h = (unexpected_eof, ground arith)
