-- ===== src/LruCache/Ranges.antt =====
-- The interface `StdHeap` can be met: functions that keep a greatest element in front.
use rawdishfs.Base.{
  ==_iff, Bool, Bool-cases, List, [], ap, arith, false, if◌then◌else◌, inl, inr, length,
  length-append, refl, suc, sym, ℕ, ◌++◌, ◌==◌, ◌∙◌, ◌∷◌, ◌≡◌, ◌≤◌,
}
use rawdishfs.StdHeap.{StdHeap, IsOrder, count}
use rawdishfs.LruCache.Heap.{count-append}

-- An element before a range whose first element is a greatest one.
abbrev insert_front : (ℕ → ℕ → Bool) → ℕ → List ℕ → List ℕ
insert_front less p [] = p ∷ []
insert_front less p (q ∷ qs) = if less p q then q ∷ p ∷ qs else p ∷ q ∷ qs

abbrev pub make_heap : (ℕ → ℕ → Bool) → List ℕ → List ℕ
make_heap less [] = []
make_heap less (p ∷ ps) = insert_front less p (make_heap less ps)

abbrev pub pop_heap : (ℕ → ℕ → Bool) → List ℕ → List ℕ
pop_heap less [] = []
pop_heap less (p ∷ ps) = make_heap less ps ++ p ∷ []

abbrev pub IsHeap : (ℕ → ℕ → Bool) → List ℕ → Type 0
IsHeap less [] = Unit
IsHeap less (p ∷ ps) = (q : ℕ) → 1 ≤ count q (p ∷ ps) → less p q ≡ false

length-insert_front :
    (less : ℕ → ℕ → Bool) (p : ℕ) (ps : List ℕ) → length (insert_front less p ps) ≡ suc (length ps)
length-insert_front less p [] = refl
length-insert_front less p (q ∷ qs) = ground arith

count-insert_front :
    (less : ℕ → ℕ → Bool) (p : ℕ) (ps : List ℕ) (q : ℕ)
    → count q (insert_front less p ps) ≡ count q (p ∷ ps)
unfolding count
count-insert_front less p [] q = refl
count-insert_front less p (r ∷ ps) q = ground arith

pub length-make_heap : (less : ℕ → ℕ → Bool) (ps : List ℕ) → length (make_heap less ps) ≡ length ps
length-make_heap less [] = refl
length-make_heap less (p ∷ ps) =
    length-insert_front less p (make_heap less ps) ∙ ap suc (length-make_heap less ps)

pub count-make_heap :
    (less : ℕ → ℕ → Bool) (ps : List ℕ) (q : ℕ) → count q (make_heap less ps) ≡ count q ps
unfolding count
count-make_heap less [] q = refl
count-make_heap less (p ∷ ps) q =
    omega (arith, count-insert_front less p (make_heap less ps) q, count-make_heap less ps q)

pub length-pop_heap : (less : ℕ → ℕ → Bool) (ps : List ℕ) → length (pop_heap less ps) ≡ length ps
length-pop_heap less [] = refl
length-pop_heap less (p ∷ ps) =
    omega (arith, length-append (make_heap less ps) (p ∷ []), length-make_heap less ps)

pub count-pop_heap :
    (less : ℕ → ℕ → Bool) (ps : List ℕ) (q : ℕ) → count q (pop_heap less ps) ≡ count q ps
unfolding count
count-pop_heap less [] q = refl
count-pop_heap less (p ∷ ps) q =
    omega (arith, count-append q (make_heap less ps) (p ∷ []), count-make_heap less ps q)

pub IsHeap-same_order :
    (less more : ℕ → ℕ → Bool) (ps : List ℕ)
    → ((a b : ℕ) → 1 ≤ count a ps → 1 ≤ count b ps → less a b ≡ more a b)
    → IsHeap less ps
    → IsHeap more ps
unfolding count
IsHeap-same_order less more [] same heap = tt
IsHeap-same_order less more (p ∷ ps) same heap =
    λ q there. sym (same p q (ground arith) there) ∙ heap q there

less_irrefl : (less : ℕ → ℕ → Bool) (p : ℕ) → IsOrder less → less p p ≡ false
less_irrefl less p order = elim (Bool-cases (less p p)) [
  | inl is ↦ order.asym p p is
  | inr not_is ↦ not_is
]

IsHeap-insert_front :
    (less : ℕ → ℕ → Bool) (p : ℕ) (ps : List ℕ)
    → IsOrder less
    → IsHeap less ps
    → IsHeap less (insert_front less p ps)
unfolding count
IsHeap-insert_front less p [] order heap =
    λ q there. let same : p ≡ q = grind arith in rw (← same) (less_irrefl less p order)
IsHeap-insert_front less p (r ∷ ps) order heap = elim (Bool-cases (less p r)) [
  | inl after ↦ rw after (λ q there. elim (Bool-cases (q == p)) [
    | inl same ↦ rw (((==_iff q p).0 same)) (order.asym p r after)
    | inr other ↦ heap q (grind (arith, there, other))
  ])
  | inr before ↦ rw before (λ q there. elim (Bool-cases (q == p)) [
    | inl same ↦ rw (((==_iff q p).0 same)) (less_irrefl less p order)
    | inr other ↦ order.not_less_trans p r q before (heap q (grind (arith, there, other)))
  ])
]

pub make_heap-IsHeap :
    (less : ℕ → ℕ → Bool) (ps : List ℕ) → IsOrder less → IsHeap less (make_heap less ps)
make_heap-IsHeap less [] order = tt
make_heap-IsHeap less (p ∷ ps) order =
    IsHeap-insert_front less p (make_heap less ps) order (make_heap-IsHeap less ps order)

abbrev pub ranges : StdHeap
ranges = record {
  make_heap = make_heap;
  push_heap = make_heap;
  pop_heap = pop_heap;
  IsHeap = IsHeap;
  length-make_heap = length-make_heap;
  length-push_heap = λ less ps p order heap. length-make_heap less (ps ++ p ∷ []);
  length-pop_heap = λ less ps order heap. length-pop_heap less ps;
  count-make_heap = count-make_heap;
  count-push_heap = λ less ps p q order heap. count-make_heap less (ps ++ p ∷ []) q;
  count-pop_heap = λ less ps q order heap. count-pop_heap less ps q;
  IsHeap_same_order = IsHeap-same_order;
  IsHeap_empty = λ less. tt;
  IsHeap_front = λ less p q ps order heap there. heap q there;
  make_heap-IsHeap = make_heap-IsHeap;
  push_heap-IsHeap = λ less ps p order heap. make_heap-IsHeap less (ps ++ p ∷ []) order;
  pop_heap-IsHeap =
      λ less ps p order heap. (make_heap less ps, refl, make_heap-IsHeap less ps order);
}
