-- ===== src/Stun/Server/Table.antt =====
-- What is left in the table when the old entries are dropped.
use good_link.Base.{arith, All, [], ℕ, ◌≡◌, ◌∷◌, Bytes, false}
use good_link.Stun.Server.{Txn, Txns, expired, expire}

-- No entry that is left is old.
pub expire-All : (now : ℕ) (m : Txns) → All (λ e. expired now e.1 ≡ false) (expire now m)
unfolding expire
expire-All now [] = tt
expire-All now ((k, v) ∷ m) = ground (arith, expire-All now m)

pub expire_keeps : (P : Bytes × Txn → Type 0) (now : ℕ) (m : Txns) → All P m → All P (expire now m)
unfolding expire
expire_keeps P now [] h = tt
expire_keeps P now ((j, v) ∷ m) h = ground (arith, expire_keeps P now m h.1)
