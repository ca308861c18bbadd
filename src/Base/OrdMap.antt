-- ===== src/Base/OrdMap.antt =====
-- `std::map` as a list of entries in the order of its keys, which is the order of iteration.
use rawdishfs.Base.Tests.{Bool-cases, if◌then◌else◌, some_inj}
use rawdishfs.Base.{Bool-cases, true, inl, inr, ◌⊎◌, false}
use mathlib.Core.Path.{◌≡◌, refl}
use mathlib.Core.Option.{Option, none, some}
use mathlib.Core.List.{List, [], ◌∷◌, map}
use native.Mathlib.Omega.{arith}
use rawdishfs.Base.Keys.{Key, eqb_ne}
use rawdishfs.Base.Lists.{All}

abbrev pub OrdMap {ℓ κ} : Type ℓ → Type κ → Type (ℓ ⊔ κ)
OrdMap K V = List (K × V)

module _ {ℓ κ} {K : Type ℓ} {V : Type κ} ⦃k : Key K⦄ where
  -- `find`
  unfoldable pub lookup : K → OrdMap K V → Option V
  lookup q [] = none
  lookup q ((j, v) ∷ m) = if k.eqb j q then some v else lookup q m

  -- `m[q] = v`
  unfoldable pub insert : K → V → OrdMap K V → OrdMap K V
  insert q v [] = (q, v) ∷ []
  insert q v ((j, w) ∷ m) =
      if k.eqb j q
      then (q, v) ∷ m
      else if k.ltb q j
      then (q, v) ∷ (j, w) ∷ m
      else (j, w) ∷ insert q v m

  unfoldable pub erase : K → OrdMap K V → OrdMap K V
  erase q [] = []
  erase q ((j, w) ∷ m) = if k.eqb j q then erase q m else (j, w) ∷ erase q m

  abbrev pub keys : OrdMap K V → List K
  keys = map (λ e. e.0)

  pub lookup-insert :
      (q r : K) (v : V) (m : OrdMap K V)
      → lookup r (insert q v m) ≡ (if k.eqb q r then some v else lookup r m)
  unfolding lookup insert
  lookup-insert q r v [] = refl
  lookup-insert q r v ((j, w) ∷ m) =
      ground (arith, k.eqb_iff q r, k.eqb_iff j q, k.eqb_iff j r, lookup-insert q r v m)

  pub lookup-erase :
      (q r : K) (m : OrdMap K V) → lookup r (erase q m) ≡ (if k.eqb q r then none else lookup r m)
  unfolding lookup erase
  lookup-erase q r [] = ground arith
  lookup-erase q r ((j, w) ∷ m) =
      ground (arith, k.eqb_iff q r, k.eqb_iff j q, k.eqb_iff j r, lookup-erase q r m)

  pub lookup-insert_self : (q : K) (v : V) (m : OrdMap K V) → lookup q (insert q v m) ≡ some v
  lookup-insert_self q v m = ground (arith, lookup-insert q q v m, k.eqb_iff q q)

  pub lookup-erase_self : (q : K) (m : OrdMap K V) → lookup q (erase q m) ≡ none
  lookup-erase_self q m = ground (arith, lookup-erase q q m, k.eqb_iff q q)

  -- What is found after a write is what was written, or was there.
  pub lookup-insert_inv :
      (q r : K) (v w : V) (m : OrdMap K V)
      → lookup r (insert q v m) ≡ some w
      → ((q ≡ r) × (v ≡ w)) ⊎ ((k.eqb q r ≡ false) × (lookup r m ≡ some w))
  lookup-insert_inv q r v w m e =
      let e' = rw (lookup-insert q r v m) at e in
      elim (Bool-cases (k.eqb q r)) [
        | inl same ↦ inl ((k.eqb_iff q r).0 same, some_inj (rw same at e'))
        | inr other ↦ inr (other, rw other at e')
      ]

  -- What is found after an erasure was there, at another key.
  pub lookup-erase_inv :
      (q r : K) (v : V) (m : OrdMap K V)
      → lookup r (erase q m) ≡ some v
      → (k.eqb q r ≡ false) × (lookup r m ≡ some v)
  lookup-erase_inv q r v m e = ground (arith, lookup-erase q r m)

  -- What was there is found after a write to a new key.
  pub lookup-insert_new :
      (q r : K) (v w : V) (m : OrdMap K V)
      → lookup q m ≡ none
      → lookup r m ≡ some w
      → lookup r (insert q v m) ≡ some w
  lookup-insert_new q r v w m absent e = ground (arith, lookup-insert q r v m, k.eqb_iff q r)

  -- Every key comes before those behind it.
  abbrev pub IsSorted : OrdMap K V → Type 0
  IsSorted [] = Unit
  IsSorted ((j, w) ∷ m) = All (λ e. k.ltb j e.0 ≡ true) m × IsSorted m

  All-lt_trans :
      (i j : K) (m : OrdMap K V)
      → k.ltb i j ≡ true
      → All (λ e. k.ltb j e.0 ≡ true) m
      → All (λ e. k.ltb i e.0 ≡ true) m
  All-lt_trans i j [] h a = tt
  All-lt_trans i j ((l, w) ∷ m) h a = (k.ltb_trans i j l h a.0, All-lt_trans i j m h a.1)

  All-insert :
      (i q : K) (v : V) (m : OrdMap K V)
      → k.ltb i q ≡ true
      → All (λ e. k.ltb i e.0 ≡ true) m
      → All (λ e. k.ltb i e.0 ≡ true) (insert q v m)
  unfolding insert
  All-insert i q v [] h a = (h, tt)
  All-insert i q v ((j, w) ∷ m) h a = ground (arith, All-insert i q v m h a.1)

  All-erase :
      (i q : K) (m : OrdMap K V)
      → All (λ e. k.ltb i e.0 ≡ true) m
      → All (λ e. k.ltb i e.0 ≡ true) (erase q m)
  unfolding erase
  All-erase i q [] a = tt
  All-erase i q ((j, w) ∷ m) a = ground (arith, All-erase i q m a.1)

  pub insert-IsSorted : (q : K) (v : V) (m : OrdMap K V) → IsSorted m → IsSorted (insert q v m)
  unfolding insert
  insert-IsSorted q v [] s = (tt, tt)
  insert-IsSorted q v ((j, w) ∷ m) s = elim (Bool-cases (k.eqb j q)) [
    | inl same ↦ rw same ((rw ((k.eqb_iff j q).0 same) at (s.0)), s.1)
    | inr other ↦ elim (Bool-cases (k.ltb q j)) [
      | inl before ↦ rw (other, before) ((before, All-lt_trans q j m before s.0), s)
      | inr behind ↦
          let after : k.ltb j q ≡ true = k.ltb_total q j (eqb_ne j q other) behind in
          rw (other, behind) (All-insert j q v m after s.0, insert-IsSorted q v m s.1)
    ]
  ]

  pub erase-IsSorted : (q : K) (m : OrdMap K V) → IsSorted m → IsSorted (erase q m)
  unfolding erase
  erase-IsSorted q [] s = tt
  erase-IsSorted q ((j, w) ∷ m) s = elim (Bool-cases (k.eqb j q)) [
    | inl same ↦ rw same (erase-IsSorted q m s.1)
    | inr other ↦ rw other (All-erase j q m s.0, erase-IsSorted q m s.1)
  ]

  -- A key that comes before all keys of a map is not in it.
  pub lookup_before : (q : K) (m : OrdMap K V) → All (λ e. k.ltb q e.0 ≡ true) m → lookup q m ≡ none
  unfolding lookup
  lookup_before q [] a = refl
  lookup_before q ((j, w) ∷ m) a = elim (Bool-cases (k.eqb j q)) [
    | inl same ↦ absurd (ground (arith, (k.eqb_iff j q).0 same, a.0, k.ltb_irrefl q))
    | inr other ↦ rw other (lookup_before q m a.1)
  ]

module _ {ℓ κ μ} {K : Type ℓ} {V : Type κ} ⦃k : Key K⦄ (P : K × V → Type μ) where
  -- A property of every entry, after one entry is written.
  pub insert-All : (q : K) (v : V) (m : OrdMap K V) → P (q, v) → All P m → All P (insert q v m)
  unfolding insert
  insert-All q v [] p a = (p, tt)
  insert-All q v ((j, w) ∷ m) p a = elim (Bool-cases (k.eqb j q)) [
    | inl same ↦ rw same (p, a.1)
    | inr other ↦ rw other (elim (Bool-cases (k.ltb q j)) [
      | inl before ↦ rw before (p, a)
      | inr behind ↦ rw behind (a.0, insert-All q v m p a.1)
    ])
  ]

  pub erase-All : (q : K) (m : OrdMap K V) → All P m → All P (erase q m)
  unfolding erase
  erase-All q [] a = tt
  erase-All q ((j, w) ∷ m) a = elim (Bool-cases (k.eqb j q)) [
    | inl same ↦ rw same (erase-All q m a.1)
    | inr other ↦ rw other (a.0, erase-All q m a.1)
  ]

  pub lookup-All : (q : K) (v : V) (m : OrdMap K V) → lookup q m ≡ some v → All P m → P (q, v)
  unfolding lookup
  lookup-All q v [] e a = absurd (none_some e)
    where
      none_some : none ≡ some v → ⊥
      none_some h = cc
  lookup-All q v ((j, w) ∷ m) e a = elim (Bool-cases (k.eqb j q)) [
    | inl same ↦
        let values : w ≡ v = some_inj (rw same at e) in rw (← values, ← (k.eqb_iff j q).0 same) a.0
    | inr other ↦ lookup-All q v m (rw other at e) a.1
  ]
