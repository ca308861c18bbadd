-- ===== src/LruCache/Refinement/Puts.antt =====
-- A `put` of src/util/lrucache.h against the list of Recency.
use rawdishfs.LruCache.Refinement.Evictions.{Refines-put_full}
use rawdishfs.Base.{
  Bool, Bytes, Option-cases, [], ap, arith, false, inl, inr, length, none, refl, some, suc, sym,
  take, take_of_length-le, true, zero, ℕ, ◌+◌, ◌<◌, ◌^◌, ◌∙◌, ◌∷◌, ◌≡◌, ◌≤◌,
}
use rawdishfs.Base.Keys.{bytes_key, bytes_eqb_refl}
use rawdishfs.Base.OrdMap.{lookup, erase}
use rawdishfs.StdHeap.{StdHeap}
use rawdishfs.LruCache.{LruCache, held, content_of, atime_part, find}
use rawdishfs.LruCache.Insertion.{grown, grown-IsPool, grown-IsOrdered, length-grown, held-grown}
use rawdishfs.LruCache.Access.{put_again}
use rawdishfs.LruCache.Put.{put-room, full_of}
use rawdishfs.LruCache.Runs.{call_put}
use rawdishfs.LruCache.Recency.{
  keeps_order, has_order, Recent, recent_step, Descends-above, Descends-erase, erase_absent,
  length-erase,
}
use rawdishfs.LruCache.Refinement.{
  last_use, Refines, Simulates, absent_of, others_stay, lookup-front, answer,
}

-- A new key, with room: it goes to the front of the list.
Refines-put_room :
    (std : StdHeap) (key content : Bytes) (c : LruCache) (l : Recent)
    → Refines std true c l
    → c.time_cnt + 1 < 2 ^ 64
    → lookup key l ≡ none
    → length c.heap < c.size
    → Simulates std (call_put key content) c true ((key, content) ∷ erase key l, [])
unfolding answer
Refines-put_room std key content c l r small gone room =
    let pool = r.well.0 in
    let absent = absent_of c key pool (r.same key ∙ gone) in
    let c' = grown std key content c in
    let uses = λ (j : Bytes). held-grown atime_part std key content c j pool in
    let now : last_use c' key ≡ c.time_cnt = rw (uses key, bytes_eqb_refl key) refl in
    (
      c',
      simp (put-room std key content c pool (r.ordered refl) absent small room),
      record {
        well = (
          grown-IsPool std key content c pool (r.ordered refl) absent small,
          omega (arith, length-grown std key content c pool (r.ordered refl)),
        );
        ordered = λ t. grown-IsOrdered std key content c pool (r.ordered refl);
        same = λ k.
            held-grown content_of std key content c k pool
            ∙ rw (r.same k) (sym (lookup-front key content k l));
        recency =
            Descends-above (last_use c) (last_use c') key content (erase key l)
              (others_stay c c' key l pool now (λ j away. rw (uses j, away) refl))
              (Descends-erase (last_use c) key l r.recency);
        size =
            rw (erase_absent key l gone)
              (omega (arith, length-grown std key content c pool (r.ordered refl), r.size));
      },
      (refl, omega arith),
    )

-- A `put` under a key that the cache holds.
Refines-put_again :
    (std : StdHeap) (o : Bool) (key content : Bytes) (c : LruCache) (l : Recent) (p : ℕ)
    → Refines std o c l
    → c.time_cnt + 1 < 2 ^ 64
    → lookup key c.map ≡ some p
    → Simulates std (call_put key content) c false ((key, content) ∷ erase key l, [])
unfolding answer held
Refines-put_again std o key content c l p r small found =
    let pool = r.well.0 in
    let (e, there, its_key) = pool.in_map key p found in
    let (c', runs, well, follows, same_heap, contents, uses) =
      put_again std key content c p r.well found small in
    let holds : find key c ≡ some e.content = simp (held, found, there) in
    let now : last_use c' key ≡ c.time_cnt = rw (uses key, bytes_eqb_refl key) refl in
    (
      c',
      simp runs,
      record {
        well = well;
        ordered = λ t. absurd (false_true t);
        same = λ k. contents k ∙ rw (r.same k) (sym (lookup-front key content k l));
        recency =
            Descends-above (last_use c) (last_use c') key content (erase key l)
              (others_stay c c' key l pool now (λ j away. rw (uses j, away) refl))
              (Descends-erase (last_use c) key l r.recency);
        size = omega (
          arith,
          length-erase (last_use c) key e.content l r.recency (sym (r.same key) ∙ holds),
          r.size,
          ap length same_heap,
        );
      },
      follows,
    )
  where
    false_true : false ≡ true → ⊥
    false_true h = cc

-- A `put` under a new key, where the vector is a heap.
Refines-put_new :
    (std : StdHeap) (key content : Bytes) (c : LruCache) (l : Recent)
    → Refines std true c l
    → 1 ≤ c.size
    → c.time_cnt + 1 < 2 ^ 64
    → lookup key l ≡ none
    → Simulates std (call_put key content) c true (take c.size ((key, content) ∷ erase key l), [])
Refines-put_new std key content c l r one small gone =
    elim (full_of (length c.heap) c.size r.well.1) [
      | inl room ↦
          let all : take c.size ((key, content) ∷ erase key l) ≡ (key, content) ∷ erase key l =
            take_of_length-le c.size ((key, content) ∷ erase key l)
              (rw (erase_absent key l gone) (omega (arith, r.size))) in
          rw all (Refines-put_room std key content c l r small gone room)
      | inr full ↦
          let (n, size) = pred_of c.size one in
          let all : take c.size ((key, content) ∷ erase key l) ≡ (key, content) ∷ take n l =
            rw (size, erase_absent key l gone) refl in
          rw all (Refines-put_full std key content c l n r small gone full size)
    ]
  where
    pred_of : (m : ℕ) → 1 ≤ m → (n : ℕ) × (m ≡ suc n)
    pred_of zero h = absurd (omega arith)
    pred_of (suc n) h = (n, refl)

pub Refines-put :
    (std : StdHeap) (o : Bool) (key content : Bytes) (c : LruCache) (l : Recent)
    → Refines std o c l
    → 1 ≤ c.size
    → c.time_cnt + 1 < 2 ^ 64
    → has_order (call_put key content) l o ≡ true
    → Simulates std
        (call_put key content)
        c
        (keeps_order (call_put key content) l o)
        (recent_step c.size (call_put key content) l)
unfolding recent_step keeps_order has_order held
Refines-put std o key content c l r one small ready = elim (Option-cases (lookup key c.map)) [
  | inl absent ↦
      let gone : lookup key l ≡ none = sym (r.same key) ∙ simp (held, absent) in
      let order : keeps_order (call_put key content) l o ≡ o = simp (keeps_order, gone) in
      let needs : has_order (call_put key content) l o ≡ o = simp (has_order, gone) in
      let is_true : o ≡ true = sym needs ∙ ready in
      rw (order, is_true) (Refines-put_new std key content c l (rw is_true at r) one small gone)
  | inr (p, found) ↦
      let (e, there, its_key) = r.well.0.in_map key p found in
      let holds : find key c ≡ some e.content = simp (held, found, there) in
      let listed : lookup key l ≡ some e.content = sym (r.same key) ∙ holds in
      let order : keeps_order (call_put key content) l o ≡ false = simp (keeps_order, listed) in
      let all : take c.size ((key, content) ∷ erase key l) ≡ (key, content) ∷ erase key l =
        take_of_length-le c.size ((key, content) ∷ erase key l) (
          omega (
            arith,
            length-erase (last_use c) key e.content l r.recency listed,
            r.size,
            r.well.1,
          )) in
      rw (order, all) (Refines-put_again std o key content c l p r small found)
]
