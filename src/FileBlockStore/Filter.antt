-- ===== src/FileBlockStore/Filter.antt =====
-- The bloom filter and the block set of src/blockstore/fileblockstore.cc beside the directory.
pub mod Scan
use rawdishfs.FileBlockStore.Filter.Scan.{IsStore, visible, scan-IsScanned, or-false}
use rawdishfs.BloomFilter.Membership.{new_filter-IsValid, IsValid}
use rawdishfs.BloomFilter.{new_filter, BloomFilter, set, may_contain}
use rawdishfs.Base.{
  Bool, Bool-cases, Bytes, List, Option-cases, [], ap, arith, c_str, false, if◌then◌else◌, inl, inr,
  length, none, refl, some, sym, true, u32, u64, ℕ, ◌*◌, ◌++◌, ◌+◌, ◌/◌, ◌<◌, ◌==◌, ◌^◌, ◌||◌, ◌∙◌,
  ◌∷◌, ◌≡◌,
}
use rawdishfs.Base.Keys.{bytes_eqb, bytes_eqb→eq}
use rawdishfs.BloomFilter.Reports.{set_lem}
use rawdishfs.Posix.{Posix, Entry}
use rawdishfs.FileBlockStore.{
  last_byte, free_space, regenerate, get_fullpath, FileBlockStore, mem, insert_block, is_skipped,
  scan,
}

module _ (os : Posix) where
  open os use {World, entries}

  -- The entries of the directory of the store; none where it cannot be opened.
  pub listing : World → Bytes → List Entry
  listing w path = elim (entries w (c_str path)) [ none ↦ [] | some es ↦ es ]

  listing-none : (w : World) (path : Bytes) → entries w (c_str path) ≡ none → listing w path ≡ []
  unfolding listing
  listing-none w path e = rw (e, listing) refl

  listing-some :
      (w : World) (path : Bytes) (es : List Entry)
      → entries w (c_str path) ≡ some es
      → listing w path ≡ es
  unfolding listing
  listing-some w path es e = rw (e, listing) refl

  -- `s'` is `s` with the blocks, the counts and the filter read anew.
  pub record IsRegenerated (w : World) (s s' : FileBlockStore) : Type 0 where
    pub store : IsStore s'
    pub dir : s'.dir ≡ s.dir
    pub blocksize : s'.blocksize ≡ s.blocksize
    pub path : s'.path ≡ s.path
    pub free_blocks : some s'.free_blocks ≡ free_space os w s
    pub counted : s'.used_blocks ≡ u32 (length (visible (listing w s.path)))
    pub blocks : (q : Bytes) → mem q s'.blockset ≡ mem q (visible (listing w s.path))

  free_space_total :
      (w : World) (s : FileBlockStore)
      → 0 < s.blocksize
      → (n : ℕ) × (free_space os w s ≡ some n) × (n < 2 ^ 32)
  unfolding free_space
  free_space_total w s h = elim (Option-cases (os.statfs w (c_str s.path))) [
    | inl e ↦ (0, rw (e, free_space) refl, omega arith)
    | inr ((bavail, bsize), e) ↦
        (u32 (u64 (bavail * bsize) / s.blocksize), rw (e, free_space) (ground arith), omega arith)
  ]

  cleared-IsStore :
      (s : FileBlockStore) (free : ℕ)
      → 0 < s.blocksize
      → 0 < length s.path
      → free < 2 ^ 32
      → IsStore (record s {
        bloomfilter = new_filter;
        blockset = [];
        free_blocks = free;
        used_blocks = 0;
      })
  cleared-IsStore s free sized located small = record {
    sized = sized;
    located = located;
    usable = new_filter-IsValid;
    reported = λ q h. cc;
    used = omega arith;
    free = small;
  }

  -- `regenerateBloomFilterAndBlockSet` never faults where the block size is positive and the path
  -- is not empty. Whatever the store recorded before, afterwards its blocks are exactly the regular
  -- files of the directory whose name has no leading dot, its count is theirs modulo 2 ^ 32, and
  -- its filter reports each of them.
  pub regenerate-IsRegenerated :
      (w : World) (s : FileBlockStore)
      → 0 < s.blocksize
      → 0 < length s.path
      → (s' : FileBlockStore) × (regenerate os w s ≡ some s') × IsRegenerated w s s'
  unfolding regenerate visible
  regenerate-IsRegenerated w s sized located =
      let (free, e, small) = free_space_total w s sized in
      let cleared : FileBlockStore = record s {
        bloomfilter = new_filter;
        blockset = [];
        free_blocks = free;
        used_blocks = 0;
      } in
      let st : IsStore cleared = cleared-IsStore s free sized located small in
      elim (Option-cases (entries w (c_str s.path))) [
        | inl none_there ↦ (
          cleared,
          rw (e, none_there) refl,
          record {
            store = st;
            dir = refl;
            blocksize = refl;
            path = refl;
            free_blocks = sym e;
            counted = rw (listing-none w s.path none_there) refl;
            blocks = λ q. rw (listing-none w s.path none_there) refl;
          },
        )
        | inr (es, there) ↦
            let (s', runs, c) = scan-IsScanned cleared es st in
            (
              s',
              rw (e, there) runs,
              record {
                store = c.store;
                dir = c.dir;
                blocksize = c.blocksize;
                path = c.path;
                free_blocks = ap some c.free_blocks ∙ sym e;
                counted = rw (listing-some w s.path es there) (omega (arith, c.counted));
                blocks = λ q.
                    rw (listing-some w s.path es there)
                      (c.blocks q ∙ or-false (mem q (visible es)));
              },
            )
      ]
