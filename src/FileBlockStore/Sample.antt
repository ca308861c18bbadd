-- ===== src/FileBlockStore/Sample.antt =====
-- A small store of src/blockstore/fileblockstore.cc, and its directory in memory.
use rawdishfs.BloomFilter.{BloomFilter, set, fnv_hash}
use rawdishfs.Base.{Bytes, [], arith, none, refl, replicate, some, true, ◌∷◌, ◌≡◌}
use rawdishfs.Base.Keys.{bytes_key}
use rawdishfs.BloomFilter.Membership.{IsValid}
use rawdishfs.FileBlockStore.{FileBlockStore, get_fullpath, put_block}
use rawdishfs.FileBlockStore.Filter.Scan.{IsStore}
use rawdishfs.FileBlockStore.MemFs.{Disk, mem_fs, open_write, write}

abbrev pub filter : BloomFilter
filter = record { seed = 7; size = 64; hash = replicate 8 0 }

pub filter-IsValid : IsValid filter
filter-IsValid = record {
  seeded = omega arith;
  positive = omega arith;
  bounded = omega arith;
  room = omega arith;
  bytes = omega arith;
}

-- The directory "d/" with the blocks "a" and ".b".
abbrev pub disk : Disk
disk = record {
  files =
      (b'd' ∷ b'/' ∷ b'.' ∷ b'b' ∷ [], 1 ∷ []) ∷ (b'd' ∷ b'/' ∷ b'a' ∷ [], 1 ∷ 2 ∷ 3 ∷ 4 ∷ []) ∷ [];
  fds = 5;
}

abbrev pub store : FileBlockStore
store = record {
  dir = none;
  blocksize = 4;
  path = b'd' ∷ b'/' ∷ [];
  bloomfilter = filter;
  blockset = [];
  free_blocks = 3;
  used_blocks = 0;
}

abbrev pub key : Bytes
key = b'k' ∷ []

abbrev pub full_path : Bytes
full_path = b'd' ∷ b'/' ∷ b'k' ∷ []

abbrev pub block : Bytes
block = 9 ∷ 8 ∷ 7 ∷ 6 ∷ []

pub store-IsStore : IsStore store
store-IsStore = record {
  sized = omega arith;
  located = omega arith;
  usable = filter-IsValid;
  reported = λ q h. cc;
  used = omega arith;
  free = omega arith;
}

pub full_path_of_key : get_fullpath store.path key ≡ some full_path
unfolding get_fullpath
full_path_of_key = refl

-- The store and the disk after the block is stored.
abbrev pub stored : FileBlockStore
stored = record store {
  bloomfilter = record filter { hash = 0 ∷ 0 ∷ 64 ∷ 144 ∷ 36 ∷ 8 ∷ 0 ∷ 0 ∷ [] };
  blockset = key ∷ [];
  free_blocks = 2;
  used_blocks = 1;
}

abbrev pub disk_after : Disk
disk_after = record disk {
  files =
      (b'd' ∷ b'/' ∷ b'.' ∷ b'b' ∷ [], 1 ∷ [])
      ∷ (b'd' ∷ b'/' ∷ b'a' ∷ [], 1 ∷ 2 ∷ 3 ∷ 4 ∷ [])
      ∷ (full_path, block)
      ∷ [];
}

pub puts : put_block mem_fs disk store key block ≡ some (disk_after, stored, true)
unfolding put_block set fnv_hash open_write write
puts = refl
