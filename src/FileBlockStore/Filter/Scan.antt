-- ===== src/FileBlockStore/Filter/Scan.antt =====
-- The scan of a directory of src/blockstore/fileblockstore.cc into the filter and the block set,
-- and the paths of the blocks.
use rawdishfs.BloomFilter.Membership.{IsValid}
use rawdishfs.BloomFilter.{BloomFilter, set, may_contain}
use rawdishfs.Base.{
  Bool, Bool-cases, Bytes, List, [], ap, arith, false, if◌then◌else◌, inl, inr, length, refl, some,
  true, u32, ℕ, ◌++◌, ◌+◌, ◌<◌, ◌==◌, ◌^◌, ◌||◌, ◌∙◌, ◌∷◌, ◌≡◌,
}
use rawdishfs.Base.Keys.{bytes_eqb, bytes_eqb→eq}
use rawdishfs.BloomFilter.Reports.{set_lem}
use rawdishfs.Posix.{Entry}
use rawdishfs.FileBlockStore.{
  last_byte, get_fullpath, FileBlockStore, mem, insert_block, is_skipped, scan,
}

pub record IsStore (s : FileBlockStore) : Type 0 where
  pub sized : 0 < s.blocksize
  pub located : 0 < length s.path
  pub usable : IsValid s.bloomfilter
  pub reported :
      (key : Bytes) → mem key s.blockset ≡ true → may_contain s.bloomfilter key ≡ some true
  pub used : s.used_blocks < 2 ^ 32
  pub free : s.free_blocks < 2 ^ 32

-- The names of the blocks among the entries of a directory.
unfoldable pub visible : List Entry → List Bytes
unfolding is_skipped
visible [] = []
visible (e ∷ es) = if is_skipped e then visible es else e.name ∷ visible es

pub mem-insert_block :
    (q key : Bytes) (ks : List Bytes) → mem q (insert_block key ks) ≡ (bytes_eqb key q || mem q ks)
unfolding insert_block
mem-insert_block q key ks = elim (Bool-cases (mem key ks)) [
  | inl old ↦ rw old (elim (Bool-cases (bytes_eqb key q)) [
    | inl same ↦ rw (same, ← bytes_eqb→eq key q same) old
    | inr other ↦ rw other refl
  ])
  | inr new ↦ rw new refl
]

-- What a filter is after one more key is recorded.
pub add_key :
    (bf : BloomFilter) (ks : List Bytes) (key : Bytes)
    → IsValid bf
    → ((q : Bytes) → mem q ks ≡ true → may_contain bf q ≡ some true)
    → (bf' : BloomFilter) × (set bf key ≡ some bf')
      × IsValid bf'
      × ((q : Bytes) → mem q (insert_block key ks) ≡ true → may_contain bf' q ≡ some true)
add_key bf ks key v covered =
    let (bf', runs, v', found, kept) = set_lem bf key v in
    (
      bf',
      runs,
      v',
      λ q m. elim (Bool-cases (bytes_eqb key q)) [
        | inl same ↦ rw (← bytes_eqb→eq key q same) found
        | inr other ↦ kept q (covered q (ground (arith, mem-insert_block q key ks)))
      ],
    )

-- `scan` of the entries `es`, from `s` to `s'`.
pub record IsScanned (s : FileBlockStore) (es : List Entry) (s' : FileBlockStore) : Type 0 where
  pub store : IsStore s'
  pub dir : s'.dir ≡ s.dir
  pub blocksize : s'.blocksize ≡ s.blocksize
  pub path : s'.path ≡ s.path
  pub free_blocks : s'.free_blocks ≡ s.free_blocks
  pub counted : s'.used_blocks ≡ u32 (s.used_blocks + length (visible es))
  pub blocks : (q : Bytes) → mem q s'.blockset ≡ (mem q (visible es) || mem q s.blockset)

scan_next :
    (s : FileBlockStore) (e : Entry) (bf : BloomFilter)
    → IsStore s
    → IsValid bf
    → ((q : Bytes) → mem q (insert_block e.name s.blockset) ≡ true → may_contain bf q ≡ some true)
    → IsStore (record s {
      bloomfilter = bf;
      blockset = insert_block e.name s.blockset;
      used_blocks = u32 (s.used_blocks + 1);
    })
scan_next s e bf st v covered = record {
  sized = st.sized;
  located = st.located;
  usable = v;
  reported = covered;
  used = omega arith;
  free = st.free;
}

or_move : (a b c : Bool) → (a || (b || c)) ≡ ((b || a) || c)
or_move true true c = refl
or_move true false c = refl
or_move false true c = refl
or_move false false c = refl

-- The loop over a directory never faults, and records each block once more.
pub scan-IsScanned :
    (s : FileBlockStore) (es : List Entry)
    → IsStore s
    → (s' : FileBlockStore) × (scan s es ≡ some s') × IsScanned s es s'
unfolding scan visible
scan-IsScanned s [] st = (
  s,
  refl,
  record {
    store = st;
    dir = refl;
    blocksize = refl;
    path = refl;
    free_blocks = refl;
    counted = omega (arith, st.used);
    blocks = λ q. refl;
  },
)
scan-IsScanned s (e ∷ es) st = elim (Bool-cases (is_skipped e)) [
  | inl skip ↦
      let (s', runs, c) = scan-IsScanned s es st in
      (
        s',
        rw (skip, scan) runs,
        record {
          store = c.store;
          dir = c.dir;
          blocksize = c.blocksize;
          path = c.path;
          free_blocks = c.free_blocks;
          counted = rw skip c.counted;
          blocks = rw skip c.blocks;
        },
      )
  | inr keep ↦
      let (bf, sets, v, covered) = add_key s.bloomfilter s.blockset e.name st.usable st.reported in
      let s1 : FileBlockStore = record s {
        bloomfilter = bf;
        blockset = insert_block e.name s.blockset;
        used_blocks = u32 (s.used_blocks + 1);
      } in
      let (s', runs, c) = scan-IsScanned s1 es (scan_next s e bf st v covered) in
      (
        s',
        rw (keep, scan, sets) runs,
        record {
          store = c.store;
          dir = c.dir;
          blocksize = c.blocksize;
          path = c.path;
          free_blocks = c.free_blocks;
          counted = rw keep (omega (arith, c.counted));
          blocks = λ q. rw keep (
              c.blocks q
              ∙ ap (λ b. mem q (visible es) || b) (mem-insert_block q e.name s.blockset)
              ∙ or_move (mem q (visible es)) (bytes_eqb e.name q) (mem q s.blockset));
        },
      )
]

last_byte_total : (path : Bytes) → 0 < length path → (c : ℕ) × (last_byte path ≡ some c)
unfolding last_byte
last_byte_total [] h = elim h [ ]
last_byte_total (c ∷ []) h = (c, refl)
last_byte_total (c ∷ d ∷ s) h = last_byte_total (d ∷ s) (omega arith)

-- A path that is not empty has a name for every key.
pub get_fullpath_total :
    (path key : Bytes) → 0 < length path → (full : Bytes) × (get_fullpath path key ≡ some full)
unfolding get_fullpath
get_fullpath_total path key h =
    let (c, e) = last_byte_total path h in
    (
      if c == b'/' then path ++ key else path ++ b'/' ∷ key,
      rw e (elim (Bool-cases (c == b'/')) [ inl p ↦ rw p refl | inr p ↦ rw p refl ]),
    )

pub or-false : (b : Bool) → (b || false) ≡ b
or-false true = refl
or-false false = refl
