-- ===== src/LruCache/Tests.antt =====
-- Runs of a cache of src/util/lrucache.h over `ranges`, and inputs at which its theorems apply.
use mathlib.Core.Option.{get}
use rawdishfs.Base.{
  Bytes, List, Option, [], arith, false, length, none, refl, some, some_inj, sym, true, ℕ, ◌∙◌, ◌∷◌,
  ◌≡◌, ◌≤◌,
}
use rawdishfs.Base.Keys.{bytes_key, nat_key}
use rawdishfs.Base.OrdMap.{lookup, insert, erase}
use rawdishfs.StdHeap.{count}
use rawdishfs.LruCache.{
  held, BlockCacheData, LruCache, all_live, new_cache, destroy, put, reorder, touch, add, replace,
  find, update,
}
use rawdishfs.LruCache.Invariant.{IsCache}
use rawdishfs.LruCache.Access.{IsOrdered}
use rawdishfs.LruCache.Oldest.{put-Evicts, Evicts}
use rawdishfs.LruCache.Runs.{Call, call_get, call_put, step, run, destroy_lem}
use rawdishfs.LruCache.Recency.{recent_step, recent_answers, keeps_order, has_order, FindsOrder}
use rawdishfs.LruCache.Refinement.Answers.{answers, answers-recent_answers, run_bounds}
use rawdishfs.LruCache.Ranges.{ranges}
use mathlib.Core.Option

abbrev a : Bytes
a = b'a' ∷ []

abbrev b : Bytes
b = b'b' ∷ []

abbrev d : Bytes
d = b'd' ∷ []

abbrev one_entry : LruCache
one_entry = record {
  size = 1;
  heap = 0 ∷ [];
  map = (a, 0) ∷ [];
  time_cnt = 2;
  cells = update 0 (some (record { key = a; content = 7 ∷ []; atime = 1 })) (λ p. none);
  next = 1;
}

one_entry-run : run ranges (call_put a (7 ∷ []) ∷ []) (new_cache 1) ≡ some one_entry
unfolding run step put add reorder lookup insert new_cache all_live count
one_entry-run = refl

one_entry-IsCache : IsCache one_entry
unfolding FindsOrder has_order lookup
one_entry-IsCache =
    let (c, runs, well, bound) =
      run_bounds ranges (call_put a (7 ∷ []) ∷ []) 1 (omega arith) (omega arith) (refl, tt) in
    rw (some_inj (sym runs ∙ one_entry-run)) at well

one_entry-IsOrdered : IsOrdered ranges one_entry
unfolding count
one_entry-IsOrdered = λ q there. ground arith

put-Evicts_example :
    (c' : LruCache) × (e : BlockCacheData) × (put ranges b (9 ∷ []) one_entry ≡ some c')
    × IsCache c'
    × IsOrdered ranges c'
    × Evicts ranges b (9 ∷ []) one_entry c' e
unfolding lookup
put-Evicts_example =
    put-Evicts ranges b (9 ∷ []) one_entry one_entry-IsCache one_entry-IsOrdered refl (omega arith)
      (omega arith) refl

abbrev three_calls : List Call
three_calls = call_put a (7 ∷ []) ∷ call_put b (8 ∷ []) ∷ call_put a (9 ∷ []) ∷ []

destroy_lem_example :
    (cells : ℕ → Option BlockCacheData) × (destroy one_entry ≡ some cells)
    × ((p : ℕ) → cells p ≡ none)
destroy_lem_example = destroy_lem one_entry one_entry-IsCache.0

-- The third call makes the entry at the front the last one used, and leaves it in front.
abbrev put_twice : LruCache
put_twice = record {
  size = 2;
  heap = 0 ∷ 1 ∷ [];
  map = (a, 0) ∷ (b, 1) ∷ [];
  time_cnt = 4;
  cells =
      update 0 (some (record { key = a; content = 9 ∷ []; atime = 3 }))
        (update 1 (some (record { key = b; content = 8 ∷ []; atime = 2 })) (λ p. none));
  next = 2;
}

put_twice-run :
    (find a put_twice ≡ some (9 ∷ []))
    × (Option.map (λ c. c.heap) (run ranges three_calls (new_cache 2)) ≡ some (0 ∷ 1 ∷ []))
unfolding run step put add reorder lookup insert new_cache all_live count held replace touch
put_twice-run = (refl, refl)

put_twice-not_IsOrdered : ¬ IsOrdered ranges put_twice
unfolding count
put_twice-not_IsOrdered heap = true_false (heap 1 (omega arith))
  where
    true_false : true ≡ false → ⊥
    true_false e = cc

-- With room for two entries, a third one takes the place of the one that was used the longest ago;
-- the second `put` under a key is followed by a `get`.
abbrev several_calls : List Call
several_calls =
    call_put a (7 ∷ [])
    ∷ call_put b (8 ∷ [])
    ∷ call_put a (5 ∷ [])
    ∷ call_get a
    ∷ call_put d (9 ∷ [])
    ∷ call_get b
    ∷ call_get a
    ∷ []

several_calls-FindsOrder : FindsOrder 2 several_calls [] true
unfolding FindsOrder has_order keeps_order recent_step lookup erase
several_calls-FindsOrder = (refl, (refl, (refl, (refl, (refl, (refl, (refl, tt)))))))

several_calls-recent_answers :
    recent_answers 2 several_calls [] ≡ some (5 ∷ []) ∷ none ∷ some (5 ∷ []) ∷ []
unfolding recent_answers recent_step lookup erase
several_calls-recent_answers = refl

answers-recent_answers_example :
    answers ranges several_calls (new_cache 2) ≡ some (recent_answers 2 several_calls [])
answers-recent_answers_example =
    answers-recent_answers ranges several_calls 2 (omega arith) (omega arith)
      several_calls-FindsOrder

run_bounds_example :
    (c : LruCache) × (run ranges several_calls (new_cache 2) ≡ some c)
    × IsCache c
    × (length c.heap ≤ 2)
run_bounds_example =
    run_bounds ranges several_calls 2 (omega arith) (omega arith) several_calls-FindsOrder
