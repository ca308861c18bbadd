-- ===== src/FileBlockStore/Accounting.antt =====
-- `putBlock` and `removeBlock` of src/blockstore/fileblockstore.cc on every branch: the result, the
-- counts, the recorded keys and the open descriptors.
use rawdishfs.FileBlockStore.{
  finish_get, get_block, get_fullpath, num_total_blocks, FileBlockStore, mem, insert_block,
  record_block, finish_put, put_block,
}
use rawdishfs.Base.{
  Bool, Bool-cases, Bytes, Option, arith, c_str, false, inl, inr, length, ltb, none, refl, some,
  true, u32, ℕ, ◌+◌, ◌-◌, ◌<◌, ◌==◌, ◌||◌, ◌≡◌, ◌≤◌, ap, some_inj, sym, ◌∙◌, ◌≢◌, ◌∷◌, [],
  if◌then◌else◌,
}
use rawdishfs.Base.Keys.{bytes_eqb}
use rawdishfs.Posix.{Posix}
use rawdishfs.FileBlockStore.Filter.Scan.{IsStore, add_key, mem-insert_block, get_fullpath_total}

-- What a `putBlock` with the given result leaves of the store `s`.
abbrev pub PutEffect : FileBlockStore → Bytes → Bytes → Bool → FileBlockStore → Type 0
PutEffect s key content true s' =
    (length content ≡ s.blocksize)
    × (s'.free_blocks + 1 ≡ s.free_blocks)
    × (s'.used_blocks ≡ u32 (s.used_blocks + 1))
    × (s'.path ≡ s.path)
    × (s'.blocksize ≡ s.blocksize)
    × (s'.dir ≡ s.dir)
    × ((q : Bytes) → mem q s'.blockset ≡ (bytes_eqb key q || mem q s.blockset))
PutEffect s key content false s' = s' ≡ s

module _ (os : Posix) where
  open os use {
    World, open_write, open_read, write, read, close, open_files, write_bound, open_write_files,
    open_read_files, write_files, close_files,
  }

  record_block_lem :
      (s : FileBlockStore) (key : Bytes) (content : Bytes)
      → IsStore s
      → 0 < s.free_blocks
      → length content ≡ s.blocksize
      → (s' : FileBlockStore) × (record_block os s key ≡ some s')
        × IsStore s'
        × PutEffect s key content true s'
  unfolding record_block
  record_block_lem s key content st room whole =
      let (bf, sets, v, covered) = add_key s.bloomfilter s.blockset key st.usable st.reported in
      (
        record s {
          free_blocks = s.free_blocks - 1;
          used_blocks = u32 (s.used_blocks + 1);
          bloomfilter = bf;
          blockset = insert_block key s.blockset;
        },
        rw sets refl,
        record {
          sized = st.sized;
          located = st.located;
          usable = v;
          reported = covered;
          used = omega arith;
          free = omega (arith, st.free);
        },
        (whole, omega arith, refl, refl, refl, refl, λ q. mem-insert_block q key s.blockset),
      )

  finish_put_lem :
      (w : World) (s : FileBlockStore) (key content : Bytes) (n : Option ℕ)
      → IsStore s
      → 0 < s.free_blocks
      → length content ≤ s.blocksize
      → ((k : ℕ) → n ≡ some k → k ≤ length content)
      → (w' : World) × (s' : FileBlockStore) × (ok : Bool) × (finish_put os w s key n
          ≡ some (w', s', ok))
        × IsStore s'
        × PutEffect s key content ok s'
  unfolding finish_put
  finish_put_lem w s key content none st room fits bound = (w, s, false, refl, st, refl)
  finish_put_lem w s key content (some n) st room fits bound =
      elim (Bool-cases (n == s.blocksize)) [
        | inl whole ↦
            let full : length content ≡ s.blocksize = ground (arith, bound n refl) in
            let (s', records, st', effect) = record_block_lem s key content st room full in
            (close w, s', true, rw (whole, records) refl, st', effect)
        | inr short ↦ (w, s, false, rw short refl, st, refl)
      ]

  -- `putBlock` never faults on a valid store. Where it returns `true` the block has exactly the
  -- block size, one block has moved from free to used, and just its key has been added to the
  -- recorded keys; where it returns `false` the store is as it was. The store stays valid: its
  -- filter reports every recorded key.
  pub put_block_lem :
      (w : World) (s : FileBlockStore) (key content : Bytes)
      → IsStore s
      → (w' : World) × (s' : FileBlockStore) × (ok : Bool) × (put_block os w s key content
          ≡ some (w', s', ok))
        × IsStore s'
        × PutEffect s key content ok s'
  unfolding put_block
  put_block_lem w s key content st =
      let (full, e) = get_fullpath_total s.path key st.located in
      let opened = open_write w (c_str full) in
      let written = write opened.0 (c_str full) content in
      elim (Bool-cases (s.free_blocks == 0)) [
        | inl full_disk ↦ (w, s, false, rw full_disk refl, st, refl)
        | inr room ↦ elim (Bool-cases opened.1) [
          | inr closed ↦ (opened.0, s, false, rw (room, e, closed) refl, st, refl)
          | inl opens ↦ elim (Bool-cases (ltb s.blocksize (length content))) [
            | inl big ↦ (opened.0, s, false, rw (room, e, opens, big) refl, st, refl)
            | inr fits ↦
                let (w', s', ok, runs, st', effect) =
                  finish_put_lem written.0 s key content written.1 st (ground arith) (ground arith)
                    (λ k wrote. write_bound opened.0 (c_str full) content k wrote) in
                (w', s', ok, rw (room, e, opens, fits) runs, st', effect)
          ]
        ]
      ]

  -- `putBlock` keeps the number of blocks of the device, whatever its result.
  pub num_total_blocks-put_block :
      (w : World) (s : FileBlockStore) (key content : Bytes) {w' : World} {s' : FileBlockStore}
      {ok : Bool}
      → IsStore s
      → put_block os w s key content ≡ some (w', s', ok)
      → num_total_blocks s' ≡ num_total_blocks s
  unfolding num_total_blocks
  num_total_blocks-put_block w s key content st runs =
      let (w1, s1, ok1, runs1, st1, effect) = put_block_lem w s key content st in
      let same : s1 ≡ _ = ap (λ r. r.1) (some_inj (sym runs1 ∙ runs)) in
      rw (← same) (kept ok1 s1 effect st1)
    where
      kept :
          (ok : Bool) (s' : FileBlockStore)
          → PutEffect s key content ok s'
          → IsStore s'
          → u32 (s'.used_blocks + s'.free_blocks) ≡ u32 (s.used_blocks + s.free_blocks)
      kept true s' effect st' = omega (arith, effect.1, effect.2)
      kept false s' effect st' = rw effect refl

  -- The two refusals behind `open`: a block that is too large, and one for which `write` did not
  -- return the block size. Where the disk has room and the file can be opened, every block whose
  -- length is not exactly the block size is refused, and the descriptor stays open.
  pub put_block_leaks :
      (w : World) (s : FileBlockStore) (key content full : Bytes)
      → 0 < s.free_blocks
      → get_fullpath s.path key ≡ some full
      → (open_write w (c_str full)).1 ≡ true
      → length content ≢ s.blocksize
      → (w' : World) × (put_block os w s key content ≡ some (w', s, false))
        × (open_files w' ≡ open_files w + 1)
  unfolding put_block finish_put
  put_block_leaks w s key content full room e opens unfit =
      let opened = open_write w (c_str full) in
      let written = write opened.0 (c_str full) content in
      let has_room : (s.free_blocks == 0) ≡ false = ground arith in
      let more : open_files opened.0 ≡ open_files w + 1 =
        rw opens at (open_write_files w (c_str full)) in
      elim (Bool-cases (ltb s.blocksize (length content))) [
        | inl big ↦ (opened.0, rw (has_room, e, opens, big) refl, more)
        | inr small ↦ (
          written.0,
          rw (has_room, e, opens, small)
              (short written.1 (λ n wrote. write_bound opened.0 (c_str full) content n wrote)
                (ground arith)),
          write_files opened.0 (c_str full) content ∙ more,
        )
      ]
    where
      short :
          {v : World} (n : Option ℕ)
          → ((k : ℕ) → n ≡ some k → k ≤ length content)
          → length content < s.blocksize
          → finish_put os v s key n ≡ some (v, s, false)
      short none bound less = refl
      short (some k) bound less = ground (arith, bound k refl)

  -- The block that a `read` gave.
  abbrev pub block_read : Option Bytes → Option Bytes
  block_read none = none
  block_read (some []) = none
  block_read (some (b ∷ bs)) = some (b ∷ bs)

  finish_get_lem : (w : World) (r : Option Bytes) → finish_get os w r ≡ (close w, block_read r)
  unfolding finish_get
  finish_get_lem w none = refl
  finish_get_lem w (some []) = refl
  finish_get_lem w (some (b ∷ bs)) = refl

  -- `getBlock` never faults where the path is not empty, and closes what it opens on every branch.
  -- It returns no block where the file cannot be opened, cannot be read or is empty, and otherwise
  -- what one `read` of the block size gives.
  pub get_block_lem :
      (w : World) (s : FileBlockStore) (key full : Bytes)
      → get_fullpath s.path key ≡ some full
      → (w' : World) × (get_block os w s key
          ≡ some (
            w',
            if (open_read w (c_str full)).1
                then block_read (read (open_read w (c_str full)).0 (c_str full) s.blocksize)
                else none,
          ))
        × (open_files w' ≡ open_files w)
  unfolding get_block
  get_block_lem w s key full e =
      let opened = open_read w (c_str full) in
      let count = open_read_files w (c_str full) in
      elim (Bool-cases opened.1) [
        | inl opens ↦
            let more : open_files opened.0 ≡ open_files w + 1 = rw opens at count in
            (
              close opened.0,
              rw (e, opens, finish_get_lem) refl,
              omega (arith, close_files opened.0),
            )
        | inr fails ↦
            let same : open_files opened.0 ≡ open_files w + 0 = rw fails at count in
            (opened.0, rw (e, fails) refl, omega (arith, same))
      ]
