-- ===== src/LruCache/Recency.antt =====
-- A least-recently-used cache as a list of entries, the last used first: what src/util/lrucache.h
-- promises, without the vector, the map and the counter of accesses.
use rawdishfs.Base.{
  All, Bool, Bool-cases, Bytes, List, Option, [], ap, arith, false, inl, inr, length, none, refl,
  some, suc, take, true, zero, ℕ, ◌++◌, ◌<◌, ◌∷◌, ◌≡◌, ◌≤◌,
}
use rawdishfs.Base.Keys.{bytes_key, bytes_eqb, bytes_eqb_refl, bytes_eqb→eq}
use rawdishfs.Base.OrdMap.{OrdMap, lookup, erase, erase-All}
use rawdishfs.LruCache.Runs.{Call, call_get, call_put, call_invalidate}

abbrev pub Recent : Type 0
Recent = OrdMap Bytes Bytes

-- A call on the list: the list afterwards, and what a `get` returns.
unfoldable pub recent_step : ℕ → Call → Recent → Recent × List (Option Bytes)
unfolding lookup erase
recent_step n (call_get key) l = elim (lookup key l) [
  | none ↦ (l, none ∷ [])
  | some content ↦ ((key, content) ∷ erase key l, some content ∷ [])
]
recent_step n (call_put key content) l = (take n ((key, content) ∷ erase key l), [])
recent_step n (call_invalidate key) l = (erase key l, [])

unfoldable pub recent_answers : ℕ → List Call → Recent → List (Option Bytes)
unfolding recent_step
recent_answers n [] l = []
recent_answers n (call ∷ calls) l =
    (recent_step n call l).1 ++ recent_answers n calls (recent_step n call l).0

-- Whether the vector of the cache is a heap after a call, where `ordered` tells whether it was one
-- before: a `put` under a key of the list does not restore the order, and the next `get` or
-- `invalidate` of such a key does.
unfoldable pub keeps_order : Call → Recent → Bool → Bool
unfolding lookup
keeps_order (call_get key) l ordered = elim (lookup key l) [ none ↦ ordered | some old ↦ true ]
keeps_order (call_put key content) l ordered = elim (lookup key l) [
  | none ↦ ordered
  | some old ↦ false
]
keeps_order (call_invalidate key) l ordered = elim (lookup key l) [
  | none ↦ ordered
  | some old ↦ true
]

-- A `put` under a new key needs a heap.
unfoldable pub has_order : Call → Recent → Bool → Bool
unfolding lookup
has_order (call_get key) l ordered = true
has_order (call_put key content) l ordered = elim (lookup key l) [
  | none ↦ ordered
  | some old ↦ true
]
has_order (call_invalidate key) l ordered = true

-- Each `put` under a new key finds the vector in order.
unfoldable pub FindsOrder : ℕ → List Call → Recent → Bool → Type 0
unfolding recent_step keeps_order has_order
FindsOrder n [] l ordered = Unit
FindsOrder n (call ∷ calls) l ordered =
    (has_order call l ordered ≡ true)
    × FindsOrder n calls (recent_step n call l).0 (keeps_order call l ordered)

-- The times `f` of the keys go down.
abbrev pub Descends : (Bytes → ℕ) → Recent → Type 0
Descends f [] = Unit
Descends f ((k, d) ∷ l) = All (λ e. f e.0 < f k) l × Descends f l

pub All-weaken :
    {A : Type 0} (P Q : A → Type 0) (xs : List A) → ((x : A) → P x → Q x) → All P xs → All Q xs
All-weaken P Q [] f a = tt
All-weaken P Q (x ∷ xs) f a = (f x a.0, All-weaken P Q xs f a.1)

pub All-zip :
    {A : Type 0} (P Q : A → Type 0) (xs : List A) → All P xs → All Q xs → All (λ x. P x × Q x) xs
All-zip P Q [] a b = tt
All-zip P Q (x ∷ xs) a b = ((a.0, b.0), All-zip P Q xs a.1 b.1)

-- The keys that are left are others.
pub erase_others : (k : Bytes) (l : Recent) → All (λ e. bytes_eqb k e.0 ≡ false) (erase k l)
unfolding erase
erase_others k [] = tt
erase_others k ((j, d) ∷ l) = elim (Bool-cases (bytes_eqb j k)) [
  | inl same ↦ rw same (erase_others k l)
  | inr other ↦ rw other (ground (arith, bytes_eqb→eq k j, bytes_eqb_refl k), erase_others k l)
]

pub erase_absent : (k : Bytes) (l : Recent) → lookup k l ≡ none → erase k l ≡ l
unfolding lookup erase
erase_absent k [] absent = refl
erase_absent k ((j, d) ∷ l) absent = elim (Bool-cases (bytes_eqb j k)) [
  | inl same ↦ absurd (ground (arith, absent))
  | inr other ↦ rw other (ap (◌∷◌ (j, d)) (erase_absent k l (rw other at absent)))
]

lookup_above :
    (f : Bytes → ℕ) (k : Bytes) (l : Recent) → All (λ e. f e.0 < f k) l → lookup k l ≡ none
unfolding lookup
lookup_above f k [] a = refl
lookup_above f k ((j, d) ∷ l) a = elim (Bool-cases (bytes_eqb j k)) [
  | inl same ↦ absurd (lt_self (rw (bytes_eqb→eq j k same) at (a.0)))
  | inr other ↦ rw other (lookup_above f k l a.1)
]
  where
    lt_self : f k < f k → ⊥
    lt_self h = omega arith

pub Descends-erase :
    (f : Bytes → ℕ) (k : Bytes) (l : Recent) → Descends f l → Descends f (erase k l)
unfolding erase
Descends-erase f k [] s = tt
Descends-erase f k ((j, d) ∷ l) s = elim (Bool-cases (bytes_eqb j k)) [
  | inl same ↦ rw same (Descends-erase f k l s.1)
  | inr other ↦ rw other (erase-All (λ e. f e.0 < f j) k l s.0, Descends-erase f k l s.1)
]

pub length-erase :
    (f : Bytes → ℕ) (k d : Bytes) (l : Recent)
    → Descends f l
    → lookup k l ≡ some d
    → suc (length (erase k l)) ≡ length l
unfolding lookup erase
length-erase f k d [] s found = absurd (ground arith)
length-erase f k d ((j, e) ∷ l) s found = elim (Bool-cases (bytes_eqb j k)) [
  | inl same ↦
      let gone = lookup_above f k l (rw (bytes_eqb→eq j k same) at (s.0)) in
      rw (same, erase_absent k l gone) refl
  | inr other ↦ rw other (ap suc (length-erase f k d l s.1 (rw other at found)))
]

-- The times of the keys that are left may change to those of `g`.
pub Descends-kept :
    (f g : Bytes → ℕ) (l : Recent) → All (λ e. f e.0 ≡ g e.0) l → Descends f l → Descends g l
Descends-kept f g [] same s = tt
Descends-kept f g ((k, d) ∷ l) same s = (All_same l same.1 s.0, Descends-kept f g l same.1 s.1)
  where
    All_same :
        (l : Recent)
        → All (λ e. f e.0 ≡ g e.0) l
        → All (λ e. f e.0 < f k) l
        → All (λ e. g e.0 < g k) l
    All_same [] same a = tt
    All_same (e ∷ l) eq a = (omega (arith, eq.0, same.0, a.0), All_same l eq.1 a.1)

-- A key goes to the front with a time above all.
pub Descends-above :
    (f g : Bytes → ℕ) (k d : Bytes) (l : Recent)
    → All (λ e. (f e.0 ≡ g e.0) × (g e.0 < g k)) l
    → Descends f l
    → Descends g ((k, d) ∷ l)
Descends-above f g k d l others s = (
  All-weaken (λ e. (f e.0 ≡ g e.0) × (g e.0 < g k)) (λ e. g e.0 < g k) l (λ e h. h.1) others,
  Descends-kept f g l
      (All-weaken (λ e. (f e.0 ≡ g e.0) × (g e.0 < g k)) (λ e. f e.0 ≡ g e.0) l (λ e h. h.0) others)
      s,
)

-- Each key of the list is found in it.
All-found :
    (l m : Recent)
    → ((k d : Bytes) → lookup k m ≡ some d → (c : Bytes) × (lookup k l ≡ some c))
    → All (λ e. (c : Bytes) × (lookup e.0 l ≡ some c)) m
unfolding lookup
All-found l [] inside = tt
All-found l ((j, e) ∷ m) inside = (
  inside j e (rw (bytes_eqb_refl j) refl),
  All-found l m (λ k d found. elim (Bool-cases (bytes_eqb j k)) [
    | inl same ↦ inside k e (rw same refl)
    | inr other ↦ inside k d (rw other found)
  ]),
)

pub keys_found : (l : Recent) → All (λ e. (c : Bytes) × (lookup e.0 l ≡ some c)) l
keys_found l = All-found l l (λ k d found. (d, found))

-- The key with the least time is the last.
pub take-oldest :
    (f : Bytes → ℕ) (q d : Bytes) (l : Recent) (n : ℕ)
    → Descends f l
    → lookup q l ≡ some d
    → All (λ e. f q ≤ f e.0) l
    → suc n ≡ length l
    → take n l ≡ erase q l
unfolding lookup erase
take-oldest f q d [] n s found a size = absurd (ground arith)
take-oldest f q d ((j, e) ∷ []) zero s found a size = elim (Bool-cases (bytes_eqb j q)) [
  | inl same ↦ rw same refl
  | inr other ↦ absurd (ground (arith, rw other at found))
]
take-oldest f q d ((j, e) ∷ []) (suc n) s found a size = absurd (omega arith)
take-oldest f q d ((j, e) ∷ (i, x) ∷ l) zero s found a size = absurd (omega arith)
take-oldest f q d ((j, e) ∷ (i, x) ∷ l) (suc n) s found a size = elim (Bool-cases (bytes_eqb j q)) [
  | inl same ↦ absurd (too_late (rw (bytes_eqb→eq j q same) at (s.0.0)) (a.1.0))
  | inr other ↦
      rw other (
        ap (◌∷◌ (j, e))
          (take-oldest f q d ((i, x) ∷ l) n s.1 (rw other at found) a.1 (omega arith)))
]
  where
    too_late : f i < f q → f q ≤ f i → ⊥
    too_late h k = omega arith
