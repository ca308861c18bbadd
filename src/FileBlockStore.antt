-- ===== src/FileBlockStore.antt =====
-- `FileBlockStore` of src/blockstore/fileblockstore.h and src/blockstore/fileblockstore.cc over the
-- interface `Posix`. `none` is a fault. The futures that the methods return are already set, and an
-- `IOBuffer` is its bytes. The block size is not negative, and logging is left out.
pub mod Filter
pub mod Accounting
pub mod Blocks
pub mod Listing
pub mod MemFs
pub mod Sample
mod Tests
use rawdishfs.Base.{
  Bool, Bytes, List, Option, [], c_str, false, if◌then◌else◌, length, ltb, none, not, some, true,
  u32, u64, ℕ, ◌*◌, ◌++◌, ◌+◌, ◌-◌, ◌/◌, ◌==◌, ◌>>=◌, ◌||◌, ◌∷◌,
}
use rawdishfs.Base.Keys.{bytes_eqb}
use rawdishfs.BloomFilter.{BloomFilter, new_filter, set}
use rawdishfs.Posix.{Entry, Posix}

pub record FileBlockStore : Type 0 where
  -- `_dir`: the entries that `readdir` has not returned yet
  pub dir : Option (List Entry)
  pub blocksize : ℕ
  pub path : Bytes
  pub bloomfilter : BloomFilter
  pub blockset : List Bytes
  pub free_blocks : ℕ
  pub used_blocks : ℕ

abbrev pub mem : Bytes → List Bytes → Bool
mem key [] = false
mem key (k ∷ ks) = bytes_eqb k key || mem key ks

-- `_blockset.insert(key)`
pub insert_block : Bytes → List Bytes → List Bytes
insert_block key ks = if mem key ks then ks else key ∷ ks

pub last_byte : Bytes → Option ℕ
last_byte [] = none
last_byte (c ∷ []) = some c
last_byte (c ∷ d ∷ s) = last_byte (d ∷ s)

-- `get_fullpath`: it reads the last byte of the path, of which there must be one.
unfoldable pub get_fullpath : Bytes → Bytes → Option Bytes
unfolding last_byte
get_fullpath path key = do
  c ← last_byte path
  some (if c == b'/' then path ++ key else path ++ b'/' ∷ key)

-- `entry->d_name[0] == '.' || entry->d_type != DT_REG`
pub is_skipped : Entry → Bool
is_skipped e = elim e.name [ [] ↦ not e.regular | c ∷ s ↦ c == b'.' || not e.regular ]

-- The loop over the entries in `regenerateBloomFilterAndBlockSet`.
pub scan : FileBlockStore → List Entry → Option FileBlockStore
unfolding insert_block is_skipped
scan s [] = some s
scan s (e ∷ es) = elim (is_skipped e) [
  | true ↦ scan s es
  | false ↦ do
    bf ← set s.bloomfilter e.name
    scan
        (record s {
          bloomfilter = bf;
          blockset = insert_block e.name s.blockset;
          used_blocks = u32 (s.used_blocks + 1);
        })
        es
]

-- The loop of `next` over the entries that are left: the entry that is returned, and the rest.
pub next_entry : List Entry → Option (Bytes × List Entry)
unfolding is_skipped
next_entry [] = none
next_entry (e ∷ es) = elim (is_skipped e) [ true ↦ next_entry es | false ↦ some (e.name, es) ]

module _ (os : Posix) where
  open os use {World, open_write, open_read, write, read, close, unlink, statfs, entries}

  -- `(fs.f_bavail*fs.f_bsize) / _blocksize`, stored in 32 bits; a failed `statfs` leaves 0.
  pub free_space : World → FileBlockStore → Option ℕ
  free_space w s = elim (statfs w (c_str s.path)) [
    | none ↦ some 0
    | some (bavail, bsize) ↦
        if s.blocksize == 0 then none else some (u32 (u64 (bavail * bsize) / s.blocksize))
  ]

  pub regenerate : World → FileBlockStore → Option FileBlockStore
  unfolding free_space scan
  regenerate w s = do
    free ← free_space w s
    let cleared = record s {
      bloomfilter = new_filter;
      blockset = [];
      free_blocks = free;
      used_blocks = 0;
    }
    elim (entries w (c_str s.path)) [ none ↦ some cleared | some es ↦ scan cleared es ]

  -- The constructor.
  pub create : World → Bytes → ℕ → Option FileBlockStore
  unfolding regenerate
  create w path blocksize = regenerate w (record {
    dir = none;
    blocksize = blocksize;
    path = path;
    bloomfilter = new_filter;
    blockset = [];
    free_blocks = 0;
    used_blocks = 0;
  })

  -- What `putBlock` records of a block that was written.
  pub record_block : FileBlockStore → Bytes → Option FileBlockStore
  unfolding insert_block
  record_block s key = do
    bf ← set s.bloomfilter key
    some (record s {
      free_blocks = s.free_blocks - 1;
      used_blocks = u32 (s.used_blocks + 1);
      bloomfilter = bf;
      blockset = insert_block key s.blockset;
    })

  -- `write(…) != _blocksize` and what follows it; `n` is what `write` returned.
  pub finish_put :
      World → FileBlockStore → Bytes → Option ℕ → Option (World × FileBlockStore × Bool)
  unfolding record_block
  finish_put w s key none = some (w, s, false)
  finish_put w s key (some n) =
      if n == s.blocksize
      then (record_block s key >>= λ s'. some (close w, s', true))
      else some (w, s, false)

  unfoldable pub put_block :
      World → FileBlockStore → Bytes → Bytes → Option (World × FileBlockStore × Bool)
  unfolding finish_put get_fullpath
  put_block w s key content = if s.free_blocks == 0 then some (w, s, false) else do
    fullpath ← get_fullpath s.path key
    let path = c_str fullpath
    let opened = open_write w path
    if opened.1
        then (if ltb s.blocksize (length content)
            then some (opened.0, s, false)
            else let written = write opened.0 path content in finish_put written.0 s key written.1)
        else some (opened.0, s, false)

  -- What follows `read`, which returned `r`; -1 and 0 mean that there is no block.
  pub finish_get : World → Option Bytes → World × Option Bytes
  finish_get w none = (close w, none)
  finish_get w (some []) = (close w, none)
  finish_get w (some (b ∷ bs)) = (close w, some (b ∷ bs))

  -- `none` is the null pointer.
  unfoldable pub get_block : World → FileBlockStore → Bytes → Option (World × Option Bytes)
  unfolding get_fullpath finish_get
  get_block w s key = do
    fullpath ← get_fullpath s.path key
    let path = c_str fullpath
    let opened = open_read w path
    some (
        if opened.1 then finish_get opened.0 (read opened.0 path s.blocksize) else (opened.0, none))

  unfoldable pub remove_block :
      World → FileBlockStore → Bytes → Option (World × FileBlockStore × Bool)
  unfolding regenerate get_fullpath
  remove_block w s key = do
    fullpath ← get_fullpath s.path key
    let removed = unlink w (c_str fullpath)
    if removed.1
        then (regenerate removed.0 s >>= λ s'. some (removed.0, s', true))
        else some (removed.0, s, false)

  -- `next`: the empty string is the end. `readdir` of a null pointer is a fault.
  pub next : World → FileBlockStore → Option (FileBlockStore × Bytes)
  unfolding next_entry
  next w s = do
    es ← (elim s.dir [ none ↦ entries w (c_str s.path) | some es ↦ some es ])
    elim (next_entry es) [
      | none ↦ some (record s { dir = none }, [])
      | some (name, rest) ↦ some (record s { dir = some rest }, name)
    ]

unfoldable pub num_free_blocks : FileBlockStore → ℕ
num_free_blocks s = s.free_blocks

-- The sum of two `uint32_t`.
unfoldable pub num_total_blocks : FileBlockStore → ℕ
num_total_blocks s = u32 (s.used_blocks + s.free_blocks)

unfoldable pub block_size : FileBlockStore → ℕ
block_size s = s.blocksize

-- `bloomfilter`: a copy of the filter.
unfoldable pub bloomfilter : FileBlockStore → BloomFilter
bloomfilter s = s.bloomfilter
