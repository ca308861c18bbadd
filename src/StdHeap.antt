-- ===== src/StdHeap.antt =====
-- `make_heap`, `push_heap` and `pop_heap` of the C++ standard library on a vector of pointers, as the
-- cache of src/util/lrucache.h calls them: an interface with their documented behaviour. They
-- rearrange the range that they are given, whose elements are addresses.
use rawdishfs.Base.{
  Bool, List, [], false, if◌then◌else◌, length, true, ℕ, ◌++◌, ◌+◌, ◌==◌, ◌∷◌, ◌≡◌, ◌≤◌,
}

-- How many times an address stands in a vector.
unfoldable pub count : ℕ → List ℕ → ℕ
count p [] = 0
count p (q ∷ qs) = (if p == q then 1 else 0) + count p qs

-- A strict weak order, which the functions ask of their comparison.
pub record IsOrder (less : ℕ → ℕ → Bool) : Type 0 where
  pub asym : (a b : ℕ) → less a b ≡ true → less b a ≡ false
  pub not_less_trans : (a b c : ℕ) → less a b ≡ false → less b c ≡ false → less a c ≡ false

pub record StdHeap : Type 1 where
  pub make_heap : (ℕ → ℕ → Bool) → List ℕ → List ℕ
  pub push_heap : (ℕ → ℕ → Bool) → List ℕ → List ℕ
  pub pop_heap : (ℕ → ℕ → Bool) → List ℕ → List ℕ
  pub IsHeap : (ℕ → ℕ → Bool) → List ℕ → Type 0
  -- The range keeps its length and its elements: any range for `make_heap`, a heap and one more
  -- element for `push_heap`, and a heap for `pop_heap`.
  pub length-make_heap :
      (less : ℕ → ℕ → Bool) (ps : List ℕ) → length (make_heap less ps) ≡ length ps
  pub length-push_heap :
      (less : ℕ → ℕ → Bool) (ps : List ℕ) (p : ℕ)
      → IsOrder less
      → IsHeap less ps
      → length (push_heap less (ps ++ p ∷ [])) ≡ length (ps ++ p ∷ [])
  pub length-pop_heap :
      (less : ℕ → ℕ → Bool) (ps : List ℕ)
      → IsOrder less
      → IsHeap less ps
      → length (pop_heap less ps) ≡ length ps
  pub count-make_heap :
      (less : ℕ → ℕ → Bool) (ps : List ℕ) (p : ℕ) → count p (make_heap less ps) ≡ count p ps
  pub count-push_heap :
      (less : ℕ → ℕ → Bool) (ps : List ℕ) (p q : ℕ)
      → IsOrder less
      → IsHeap less ps
      → count q (push_heap less (ps ++ p ∷ [])) ≡ count q (ps ++ p ∷ [])
  pub count-pop_heap :
      (less : ℕ → ℕ → Bool) (ps : List ℕ) (q : ℕ)
      → IsOrder less
      → IsHeap less ps
      → count q (pop_heap less ps) ≡ count q ps
  -- Whether a range is a heap depends on how its elements compare.
  pub IsHeap_same_order :
      (less more : ℕ → ℕ → Bool) (ps : List ℕ)
      → ((a b : ℕ) → 1 ≤ count a ps → 1 ≤ count b ps → less a b ≡ more a b)
      → IsHeap less ps
      → IsHeap more ps
  pub IsHeap_empty : (less : ℕ → ℕ → Bool) → IsHeap less []
  -- The first element is a greatest one.
  pub IsHeap_front :
      (less : ℕ → ℕ → Bool) (p q : ℕ) (ps : List ℕ)
      → IsOrder less
      → IsHeap less (p ∷ ps)
      → 1 ≤ count q (p ∷ ps)
      → less p q ≡ false
  pub make_heap-IsHeap :
      (less : ℕ → ℕ → Bool) (ps : List ℕ) → IsOrder less → IsHeap less (make_heap less ps)
  -- Of a heap and one more element a heap; of a heap the first element last, behind a heap.
  pub push_heap-IsHeap :
      (less : ℕ → ℕ → Bool) (ps : List ℕ) (p : ℕ)
      → IsOrder less
      → IsHeap less ps
      → IsHeap less (push_heap less (ps ++ p ∷ []))
  pub pop_heap-IsHeap :
      (less : ℕ → ℕ → Bool) (ps : List ℕ) (p : ℕ)
      → IsOrder less
      → IsHeap less (p ∷ ps)
      → (qs : List ℕ) × (pop_heap less (p ∷ ps) ≡ qs ++ p ∷ []) × IsHeap less qs
