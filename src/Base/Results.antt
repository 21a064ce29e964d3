-- ===== src/Base/Results.antt =====
-- Results of Go code that may return an error, or stop by a slice out of range.
use mathlib.Core.Path.{◌≡◌, refl}
use mathlib.Core.Logic.{◌⊎◌, inl, inr}
use mathlib.Core.Bool.{Bool, true, false, ◌&&◌}
use mathlib.Core.List.{List}
use Prim.Native.Nat.{ℕ, ◌-◌}
use good_link.Base.Tests.{leb, if◌then◌else◌}
use good_link.Base.Lists.{take, drop, length}

-- `panic` is Go's run-time panic. `stuck` is no Go value: a loop on fuel ran out of it.
pub data Outcome {ℓ κ} (E : Type ℓ) (A : Type κ) : Type (ℓ ⊔ κ) where
  ok : A → Outcome E A
  err : E → Outcome E A
  panic : Outcome E A
  stuck : Outcome E A

infixl 5 ◌>>=◌ ◌>>◌
abbrev pub ◌>>=◌ {ℓ κ μ} :
    {E : Type ℓ} {A : Type κ} {B : Type μ} → Outcome E A → (A → Outcome E B) → Outcome E B
ok a >>= f = f a
err e >>= f = err e
panic >>= f = panic
stuck >>= f = stuck

abbrev pub ◌>>◌ {ℓ κ} : {E : Type ℓ} {B : Type κ} → Outcome E (Unit {0}) → Outcome E B → Outcome E B
m >> k = m >>= λ _. k

-- `if cond { return err }`
abbrev pub fail_if {ℓ} : {E : Type ℓ} → Bool → E → Outcome E (Unit {0})
fail_if true e = err e
fail_if false e = ok tt

-- It returned a value or an error: no panic, and the fuel was enough.
abbrev pub Returns {ℓ κ} : {E : Type ℓ} {A : Type κ} → Outcome E A → Type 0
Returns (ok a) = Unit
Returns (err e) = Unit
Returns panic = ⊥
Returns stuck = ⊥

-- `bs[lo:hi]` on a slice whose capacity is its length.
unfoldable pub slice {ℓ κ} : {E : Type ℓ} {A : Type κ} → List A → ℕ → ℕ → Outcome E (List A)
slice bs lo hi = if leb lo hi && leb hi (length bs) then ok (take (hi - lo) (drop lo bs)) else panic

-- A step that succeeded: so did its parts.
pub >>=-eq-ok {ℓ κ μ} :
    {E : Type ℓ} {A : Type κ} {B : Type μ} (first : Outcome E A) (next : A → Outcome E B) {r : B}
    → (first >>= next) ≡ ok r
    → (v : A) × (first ≡ ok v) × (next v ≡ ok r)
>>=-eq-ok panic next e = cc
>>=-eq-ok stuck next e = cc
>>=-eq-ok (err x) next e = cc
>>=-eq-ok (ok v) next e = (v, refl, e)

-- A guard that let the code through.
pub fail_if-eq-ok {ℓ κ} :
    {E : Type ℓ} {B : Type κ} (b : Bool) (e : E) (next : Outcome E B) {r : B}
    → (fail_if b e >> next) ≡ ok r
    → (b ≡ false) × (next ≡ ok r)
fail_if-eq-ok true e next h = cc
fail_if-eq-ok false e next h = (refl, h)

pub Outcome-cases {ℓ κ} :
    {E : Type ℓ} {A : Type κ} (r : Outcome E A)
    → ((a : A) × (r ≡ ok a)) ⊎ ((e : E) × (r ≡ err e)) ⊎ (r ≡ panic) ⊎ (r ≡ stuck)
Outcome-cases (ok a) = inl (a, refl)
Outcome-cases (err e) = inr (inl (e, refl))
Outcome-cases panic = inr (inr (inl refl))
Outcome-cases stuck = inr (inr (inr refl))

-- Steps that return one after another.
pub >>=-Returns {ℓ κ μ} :
    {E : Type ℓ} {A : Type κ} {B : Type μ} (first : Outcome E A) (next : A → Outcome E B)
    → Returns first
    → ((a : A) → Returns (next a))
    → Returns (first >>= next)
>>=-Returns (ok a) next h k = k a
>>=-Returns (err e) next h k = tt
>>=-Returns panic next h k = h
>>=-Returns stuck next h k = h

pub fail_if-Returns {ℓ κ} :
    {E : Type ℓ} {B : Type κ} (b : Bool) (e : E) (next : Outcome E B)
    → Returns next
    → Returns (fail_if b e >> next)
fail_if-Returns true e next h = tt
fail_if-Returns false e next h = h
