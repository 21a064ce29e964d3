-- ===== src/Dict.antt =====
-- Go's maps with text keys, as lists of entries. The order of the entries stands for the order of
-- `range`, which Go leaves open.
use good_link.Base.{
  refl, All, ◌≡◌, ◌∷◌, if◌then◌else◌, Bytes, ◌≤◌, List, length, [], arith, Option, some, none, ◌<◌,
  ◌∙◌, ◌≢◌,
}
use good_link.Net.{equal, equal_iff}

abbrev pub Dict : Type 0 → Type 0
Dict V = List (Bytes × V)

module _ {V : Type 0} where
  -- `m[k]`, and whether it is there.
  unfoldable pub lookup : Bytes → Dict V → Option V
  lookup k [] = none
  lookup k ((j, v) ∷ m) = if equal j k then some v else lookup k m

  -- `delete(m, k)`
  unfoldable pub delete : Bytes → Dict V → Dict V
  delete k [] = []
  delete k ((j, v) ∷ m) = let rest = delete k m in if equal j k then rest else (j, v) ∷ rest

  -- `m[k] = v`
  unfoldable pub put : Bytes → V → Dict V → Dict V
  put k v m = (k, v) ∷ delete k m

  pub lookup-delete :
      (k j : Bytes) (m : Dict V) → lookup j (delete k m) ≡ (if equal k j then none else lookup j m)
  unfolding lookup delete
  lookup-delete k j [] = ground arith
  lookup-delete k j ((i, v) ∷ m) =
      ground (arith, lookup-delete k j m, equal_iff i k, equal_iff i j, equal_iff k j)

  pub lookup-delete_same : (k : Bytes) (m : Dict V) → lookup k (delete k m) ≡ none
  lookup-delete_same k m = lookup-delete k k m ∙ rw ((equal_iff k k).1 refl) refl

  pub lookup-delete-none :
      (k j : Bytes) (m : Dict V) → lookup j m ≡ none → lookup j (delete k m) ≡ none
  lookup-delete-none k j m h = ground (arith, lookup-delete k j m)

  pub lookup-put :
      (k j : Bytes) (v : V) (m : Dict V)
      → lookup j (put k v m) ≡ (if equal k j then some v else lookup j m)
  unfolding lookup put
  lookup-put k j v m = ground (arith, lookup-delete k j m)

  pub lookup-put_same : (k : Bytes) (v : V) (m : Dict V) → lookup k (put k v m) ≡ some v
  lookup-put_same k v m = lookup-put k k v m ∙ rw ((equal_iff k k).1 refl) refl

  pub lookup-delete_other : (k j : Bytes) (m : Dict V) → k ≢ j → lookup j (delete k m) ≡ lookup j m
  lookup-delete_other k j m h = ground (arith, lookup-delete k j m, equal_iff k j)

  pub delete-All : (P : Bytes × V → Type 0) (k : Bytes) (m : Dict V) → All P m → All P (delete k m)
  unfolding delete
  delete-All P k [] h = tt
  delete-All P k ((j, v) ∷ m) h = ground (arith, delete-All P k m h.1)

  -- What is put and deleted again leaves no trace.
  pub delete-put-All :
      (P : Bytes × V → Type 0) (k : Bytes) (v : V) (m : Dict V)
      → All P m
      → All P (delete k (put k v m))
  unfolding delete put
  delete-put-All P k v m h =
      rw ((equal_iff k k).1 refl) (delete-All P k (delete k m) (delete-All P k m h))

  pub length-delete : (k : Bytes) (m : Dict V) → length (delete k m) ≤ length m
  unfolding delete
  length-delete k [] = omega arith
  length-delete k ((j, v) ∷ m) = ground (arith, length-delete k m)

  pub length-delete-some :
      (k : Bytes) (v : V) (m : Dict V) → lookup k m ≡ some v → length (delete k m) < length m
  unfolding delete lookup
  length-delete-some k v [] h = absurd (ground arith)
  length-delete-some k v ((j, w) ∷ m) h =
      ground (arith, length-delete k m, length-delete-some k v m)
