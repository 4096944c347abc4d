-- ===== src/Maps.antt =====
-- Go maps with text keys, and lists of keys. Two association lists with the same lookups are the same
-- map: no theorem depends on the order of entries.
use graphpost.Prelude.{
  ℕ, ◌+◌, ◌≤◌, String, List, [], ◌∷◌, map, Option, none, some, ◌≡◌, refl, arith, ◌==◌, eq_iff,
  eq_refl, if◌then◌else◌, length,
}

abbrev pub GoMap {ℓ} : Type ℓ → Type ℓ
GoMap V = List (String × V)

module _ {ℓ} {V : Type ℓ} where
  -- `v, found := m[k]`
  unfoldable pub lookup : String → GoMap V → Option V
  lookup k [] = none
  lookup k ((j, v) ∷ m) = if j == k then some v else lookup k m

  -- `delete(m, k)`
  unfoldable pub delete : String → GoMap V → GoMap V
  delete k [] = []
  delete k ((j, v) ∷ m) = let rest = delete k m in if j == k then rest else (j, v) ∷ rest

  -- `m[k] = v`
  abbrev pub put : String → V → GoMap V → GoMap V
  put k v m = (k, v) ∷ delete k m

  abbrev pub keys : GoMap V → List String
  keys = map (λ e. e.0)

  pub lookup-delete :
      (k j : String) (m : GoMap V) → lookup j (delete k m) ≡ (if k == j then none else lookup j m)
  unfolding lookup delete
  lookup-delete k j [] = ground arith
  lookup-delete k j ((i, v) ∷ m) =
      ground (arith, lookup-delete k j m, eq_iff i k, eq_iff i j, eq_iff k j)

  pub lookup-put :
      (k j : String) (v : V) (m : GoMap V)
      → lookup j (put k v m) ≡ (if k == j then some v else lookup j m)
  unfolding lookup
  lookup-put k j v m = ground (arith, lookup-delete k j m)

  pub lookup-put_same : (k : String) (v : V) (m : GoMap V) → lookup k (put k v m) ≡ some v
  lookup-put_same k v m = rw (lookup-put k k v m, eq_refl k) refl

-- How often a key stands in a list.
unfoldable pub count : String → List String → ℕ
count k [] = 0
count k (j ∷ l) = (if j == k then 1 else 0) + count k l

-- A list of keys without one of them.
unfoldable pub without : String → List String → List String
without k [] = []
without k (j ∷ l) = let rest = without k l in if j == k then rest else j ∷ rest

pub count-without :
    (k j : String) (l : List String) → count j (without k l) ≡ (if k == j then 0 else count j l)
unfolding count without
count-without k j [] = ground arith
count-without k j (i ∷ l) = ground (arith, count-without k j l, eq_iff i k, eq_iff i j, eq_iff k j)

pub length-without : (k : String) (l : List String) → length (without k l) + count k l ≡ length l
unfolding count without
length-without k [] = refl
length-without k (j ∷ l) = ground (arith, length-without k l)

pub without_absent : (k : String) (l : List String) → count k l ≡ 0 → without k l ≡ l
unfolding count without
without_absent k [] h = refl
without_absent k (j ∷ l) h = ground (arith, without_absent k l)

module _ {ℓ} {V : Type ℓ} where
  pub keys-delete : (k : String) (m : GoMap V) → keys (delete k m) ≡ without k (keys m)
  unfolding delete without
  keys-delete k [] = refl
  keys-delete k ((j, v) ∷ m) = ground (arith, keys-delete k m)

  pub length-keys : (m : GoMap V) → length (keys m) ≡ length m
  length-keys [] = refl
  length-keys (e ∷ m) = omega (arith, length-keys m)

  pub lookup-none_of_count : (k : String) (m : GoMap V) → count k (keys m) ≡ 0 → lookup k m ≡ none
  unfolding lookup count
  lookup-none_of_count k [] h = refl
  lookup-none_of_count k ((j, v) ∷ m) h = ground (arith, lookup-none_of_count k m)

  pub count-none : (k : String) (m : GoMap V) → lookup k m ≡ none → count k (keys m) ≡ 0
  unfolding lookup count
  count-none k [] h = refl
  count-none k ((j, v) ∷ m) h = ground (arith, count-none k m)

  pub count-some : (k : String) (m : GoMap V) (v : V) → lookup k m ≡ some v → 1 ≤ count k (keys m)
  unfolding lookup count
  count-some k [] v h = cc
  count-some k ((j, w) ∷ m) v h = ground (arith, count-some k m v)

  pub delete_absent : (k : String) (m : GoMap V) → count k (keys m) ≡ 0 → delete k m ≡ m
  unfolding delete count
  delete_absent k [] h = refl
  delete_absent k ((j, v) ∷ m) h = ground (arith, delete_absent k m)

  pub length-delete : (k : String) (m : GoMap V) → length (delete k m) + count k (keys m) ≡ length m
  unfolding delete count
  length-delete k [] = refl
  length-delete k ((j, v) ∷ m) = ground (arith, length-delete k m)
