-- ===== src/LruCache/Refinement/Evictions.antt =====
-- A `put` of src/util/lrucache.h that evicts, against the list of Recency.
use rawdishfs.Base.{
  All, Bool-cases, Bytes, Option, Option-cases, [], arith, false, if◌then◌else◌, inl, inr, length,
  none, refl, some, suc, sym, take, true, ℕ, ◌+◌, ◌<◌, ◌^◌, ◌∙◌, ◌∷◌, ◌≡◌, ◌≤◌,
}
use rawdishfs.Base.Keys.{bytes_key, bytes_eqb, bytes_eqb_refl}
use rawdishfs.Base.OrdMap.{lookup, erase, lookup-erase}
use rawdishfs.StdHeap.{StdHeap}
use rawdishfs.LruCache.{BlockCacheData, LruCache, held, content_of, atime_part, find}
use rawdishfs.LruCache.Eviction.{without}
use rawdishfs.LruCache.Insertion.{grown, length-grown}
use rawdishfs.LruCache.Oldest.{put-Evicted, held-Evicted}
use rawdishfs.LruCache.Runs.{call_put}
use rawdishfs.LruCache.Recency.{
  All-zip, Recent, Descends-above, Descends-erase, erase_others, erase_absent, length-erase,
  take-oldest, keys_found, All-weaken,
}
use rawdishfs.LruCache.Refinement.{
  last_use, Refines, Simulates, absent_of, held_entry, last_use-lt, answer,
}

-- No entry of the list was used before the oldest one.
oldest_of :
    (std : StdHeap) (c : LruCache) (l : Recent) (e : BlockCacheData)
    → Refines std true c l
    → last_use c e.key ≡ e.atime
    → ((q : ℕ) (g : BlockCacheData) → c.cells q ≡ some g → e.atime ≤ g.atime)
    → All (λ x. last_use c e.key ≤ last_use c x.0) l
unfolding held
oldest_of std c l e r time oldest =
    All-weaken (λ x. (d : Bytes) × (lookup x.0 l ≡ some d)) (λ x. last_use c e.key ≤ last_use c x.0)
      l
      (λ x listed. elim (Option-cases (lookup x.0 c.map)) [
        | inl absent ↦ absurd (none_some (sym (simp (held, absent)) ∙ r.same x.0 ∙ listed.1))
        | inr (p, found) ↦
            let (g, there, its_key) = r.well.0.in_map x.0 p found in
            let its_time : last_use c x.0 ≡ g.atime = simp (held, found, there) in
            omega (arith, oldest p g there, time, its_time)
      ])
      (keys_found l)
  where
    none_some : {d : Bytes} → ◌≡◌ {A = Option Bytes} none (some d) → ⊥
    none_some h = cc

away_of :
    (k q : Bytes) (l : Recent) → lookup k l ≡ none → All (λ e. bytes_eqb k e.0 ≡ false) (erase q l)
away_of k q l gone =
    let absent : lookup k (erase q l) ≡ none =
      lookup-erase q k l
      ∙ elim (Bool-cases (bytes_eqb q k)) [ inl same ↦ rw same refl | inr other ↦ rw other gone ] in
    rw (erase_absent k (erase q l) absent) at (erase_others k (erase q l))

-- What is found in the list when an entry is put in front and another one taken out.
lookup-evicted :
    (key content q k : Bytes) (c : LruCache) (l : Recent)
    → ((j : Bytes) → find j c ≡ lookup j l)
    → (if bytes_eqb key k then some content else if bytes_eqb q k then none else find k c)
      ≡ lookup k ((key, content) ∷ erase q l)
unfolding lookup
lookup-evicted key content q k c l same = elim (Bool-cases (bytes_eqb key k)) [
  | inl new ↦ rw new refl
  | inr old ↦ rw (old, lookup-erase q k l, same k) refl
]

-- A new key, without room: the last of the list goes.
pub Refines-put_full :
    (std : StdHeap) (key content : Bytes) (c : LruCache) (l : Recent) (n : ℕ)
    → Refines std true c l
    → c.time_cnt + 1 < 2 ^ 64
    → lookup key l ≡ none
    → length c.heap ≡ c.size
    → c.size ≡ suc n
    → Simulates std (call_put key content) c true ((key, content) ∷ take n l, [])
unfolding answer
Refines-put_full std key content c l n r small gone full size =
    let pool = r.well.0 in
    let absent = absent_of c key pool (r.same key ∙ gone) in
    let (qs, p, e, ev) =
      put-Evicted std key content c r.well (r.ordered refl) absent small (omega arith) full in
    let (listed, time) = held_entry c p e pool ev.was in
    let last : take n l ≡ erase e.key l =
      take-oldest (last_use c) e.key e.content l n r.recency (sym (r.same e.key) ∙ listed)
        (oldest_of std c l e r time ev.oldest) (omega (arith, r.size)) in
    let c' = without (grown std key content c) qs p e in
    let uses = λ (j : Bytes).
      held-Evicted atime_part std key content c qs p e j pool (r.ordered refl) absent small ev in
    let now : last_use c' key ≡ c.time_cnt = rw (uses key, bytes_eqb_refl key) refl in
    let away = away_of key e.key l gone in
    (
      c',
      simp ev.runs,
      record {
        well = ev.well;
        ordered = λ t. ev.ordered;
        same = λ k.
            held-Evicted content_of std key content c qs p e k pool (r.ordered refl) absent small ev
            ∙ rw last (lookup-evicted key content e.key k c l r.same);
        recency = rw last (
            Descends-above (last_use c) (last_use c') key content (erase e.key l)
              (All-weaken (λ x. (bytes_eqb key x.0 ≡ false) × (bytes_eqb e.key x.0 ≡ false))
                (λ x. (last_use c x.0 ≡ last_use c' x.0) × (last_use c' x.0 < last_use c' key))
                (erase e.key l)
                (λ x (new, old).
                  let stays : last_use c x.0 ≡ last_use c' x.0 = rw (uses x.0, new, old) refl in
                  (stays, omega (arith, stays, now, last_use-lt c x.0 pool)))
                (All-zip (λ x. bytes_eqb key x.0 ≡ false) (λ x. bytes_eqb e.key x.0 ≡ false)
                  (erase e.key l) (away_of key e.key l gone) (erase_others e.key l)))
              (Descends-erase (last_use c) e.key l r.recency));
        size = rw last (
            omega (
              arith,
              length-erase (last_use c) e.key e.content l r.recency (sym (r.same e.key) ∙ listed),
              r.size,
              ev.full,
              length-grown std key content c pool (r.ordered refl),
            ));
      },
      (refl, omega arith),
    )
