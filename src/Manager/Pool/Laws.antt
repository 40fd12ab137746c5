-- ===== src/Manager/Pool/Laws.antt =====
-- Order, size and lookup of the pool.
use polychrome_php.Prelude.{
  ℕ, suc, ◌+◌, ◌≤◌, ◌<◌, ◌≡◌, refl, ap, [], ◌∷◌, none, some, arith, ◌==◌, length, if◌then◌else◌,
  Bool-cases, inl, inr, subst,
}
use polychrome_php.Manager.Pool.{Pool, insert, lookup, remove, map_values}

-- Every key lies above `k`.
abbrev pub Above : {V : Type 0} → ℕ → Pool V → Type 0
Above k [] = Unit
Above k ((j, w) ∷ m) = (k < j) × Above k m

abbrev pub Sorted : {V : Type 0} → Pool V → Type 0
Sorted [] = Unit
Sorted ((j, w) ∷ m) = Above j m × Sorted m

module _ {V : Type 0} where
  pub Above-mono : (k j : ℕ) (m : Pool V) → k ≤ j → Above j m → Above k m
  Above-mono k j [] le h = tt
  Above-mono k j ((i, w) ∷ m) le h = (omega arith, Above-mono k j m le h.1)

  pub Above-insert : (i k : ℕ) (v : V) (m : Pool V) → i < k → Above i m → Above i (insert k v m)
  unfolding insert
  Above-insert i k v [] lt h = (lt, tt)
  Above-insert i k v ((j, w) ∷ m) lt h = ground (arith, Above-insert i k v m lt h.1)

  pub insert-Sorted : (k : ℕ) (v : V) (m : Pool V) → Sorted m → Sorted (insert k v m)
  unfolding insert
  insert-Sorted k v [] h = (tt, tt)
  insert-Sorted k v ((j, w) ∷ m) h =
      ground (arith, insert-Sorted k v m h.1, Above-insert j k v m, Above-mono k j m)

  pub Above-remove : (i k : ℕ) (m : Pool V) → Above i m → Above i (remove k m)
  unfolding remove
  Above-remove i k [] h = tt
  Above-remove i k ((j, w) ∷ m) h = ground (arith, Above-remove i k m h.1)

  pub remove-Sorted : (k : ℕ) (m : Pool V) → Sorted m → Sorted (remove k m)
  unfolding remove
  remove-Sorted k [] h = tt
  remove-Sorted k ((j, w) ∷ m) h = ground (arith, remove-Sorted k m h.1, Above-remove j k m h.0)

  pub Above-map_values : (i : ℕ) (f : ℕ → V → V) (m : Pool V) → Above i m → Above i (map_values f m)
  Above-map_values i f [] h = tt
  Above-map_values i f ((j, w) ∷ m) h = (h.0, Above-map_values i f m h.1)

  pub map_values-Sorted : (f : ℕ → V → V) (m : Pool V) → Sorted m → Sorted (map_values f m)
  map_values-Sorted f [] h = tt
  map_values-Sorted f ((j, w) ∷ m) h = (Above-map_values j f m h.0, map_values-Sorted f m h.1)

  pub length-map_values : (f : ℕ → V → V) (m : Pool V) → length (map_values f m) ≡ length m
  length-map_values f [] = refl
  length-map_values f ((j, w) ∷ m) = ap suc (length-map_values f m)

  pub length-insert : (k : ℕ) (v : V) (m : Pool V) → length (insert k v m) ≤ length m + 1
  unfolding insert
  length-insert k v [] = omega arith
  length-insert k v ((j, w) ∷ m) = ground (arith, length-insert k v m)

  -- A new key makes the pool grow.
  pub length-insert_new :
      (k : ℕ) (v : V) (m : Pool V) → lookup k m ≡ none → length (insert k v m) ≡ length m + 1
  unfolding insert lookup
  length-insert_new k v [] h = omega arith
  length-insert_new k v ((j, w) ∷ m) h = ground (arith, length-insert_new k v m)

  pub length-remove : (k : ℕ) (m : Pool V) → length (remove k m) ≤ length m
  unfolding remove
  length-remove k [] = omega arith
  length-remove k ((j, w) ∷ m) = ground (arith, length-remove k m)

  pub lookup-Above : (k j : ℕ) (m : Pool V) → Above j m → k ≤ j → lookup k m ≡ none
  unfolding lookup
  lookup-Above k j [] h le = refl
  lookup-Above k j ((i, w) ∷ m) h le = ground (arith, lookup-Above k j m h.1)

  pub lookup-insert :
      (q k : ℕ) (v : V) (m : Pool V)
      → lookup q (insert k v m) ≡ (if k == q then some v else lookup q m)
  unfolding insert lookup
  lookup-insert q k v [] = refl
  lookup-insert q k v ((j, w) ∷ m) = ground (arith, lookup-insert q k v m)

  pub lookup-remove :
      (q k : ℕ) (m : Pool V)
      → Sorted m
      → lookup q (remove k m) ≡ (if k == q then none else lookup q m)
  unfolding lookup remove
  lookup-remove q k [] h = ground arith
  lookup-remove q k ((j, w) ∷ m) h = ground (arith, lookup-remove q k m h.1, lookup-Above q j m h.0)

  pub lookup-map_values :
      (q : ℕ) (f : ℕ → V → V) (m : Pool V) (v : V)
      → lookup q m ≡ some v
      → lookup q (map_values f m) ≡ some (f q v)
  unfolding lookup
  lookup-map_values q f [] v h = cc
  lookup-map_values q f ((j, w) ∷ m) v h = ground (arith, lookup-map_values q f m v)

  pub lookup-map_values-none :
      (q : ℕ) (f : ℕ → V → V) (m : Pool V) → lookup q m ≡ none → lookup q (map_values f m) ≡ none
  unfolding lookup
  lookup-map_values-none q f [] h = refl
  lookup-map_values-none q f ((j, w) ∷ m) h = ground (arith, lookup-map_values-none q f m)

  -- What holds of every worker of a pool.
  abbrev pub Each {κ} : (ℕ → V → Type κ) → Pool V → Type κ
  Each P [] = Unit
  Each P ((k, v) ∷ m) = P k v × Each P m

  pub Each-lookup {κ} :
      (P : ℕ → V → Type κ) (m : Pool V) (k : ℕ) {v : V} → Each P m → lookup k m ≡ some v → P k v
  unfolding lookup
  Each-lookup P [] k h e = cc
  Each-lookup P ((j, w) ∷ m) k {v} h e = elim (Bool-cases (j == k)) [
    | inl t ↦
        let same_key : j ≡ k = ground arith in
        let same : w ≡ v = ground arith in subst (λ x. P x v) same_key (subst (P j) same h.0)
    | inr n ↦ Each-lookup P m k h.1 (ground arith)
  ]
