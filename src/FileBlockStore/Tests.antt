-- ===== src/FileBlockStore/Tests.antt =====
-- The store of src/blockstore/fileblockstore.cc on a small directory in memory.
use rawdishfs.Base.{Bool, [], arith, false, inr, none, refl, some, true, ◌∷◌, ◌≡◌}
use rawdishfs.FileBlockStore.Sample.{
  disk, store, key, full_path, block, store-IsStore, full_path_of_key, stored, disk_after, puts,
}
use rawdishfs.Base.Keys.{bytes_key}
use rawdishfs.FileBlockStore.{
  FileBlockStore, get_fullpath, regenerate, put_block, get_block, remove_block,
}
use rawdishfs.FileBlockStore.Filter.{IsRegenerated, regenerate-IsRegenerated}
use rawdishfs.FileBlockStore.Filter.Scan.{IsStore, visible}
use rawdishfs.FileBlockStore.Accounting.{PutEffect, put_block_lem, put_block_leaks}
use rawdishfs.FileBlockStore.Blocks.{get_block-put_block, remove_block_lem}
use rawdishfs.FileBlockStore.Listing.{drain, drain-visible}
use rawdishfs.FileBlockStore.MemFs.{Disk, mem_fs, open_write, open_read, unlink, entries}

regenerate-IsRegenerated_example :
    (s' : FileBlockStore) × (regenerate mem_fs disk store ≡ some s')
    × IsRegenerated mem_fs disk store s'
regenerate-IsRegenerated_example =
    regenerate-IsRegenerated mem_fs disk store (omega arith) (omega arith)

put_block_lem_example :
    (w' : Disk) × (s' : FileBlockStore) × (ok : Bool) × (put_block mem_fs disk store key block
      ≡ some (w', s', ok))
    × IsStore s'
    × PutEffect store key block ok s'
put_block_lem_example = put_block_lem mem_fs disk store key block store-IsStore

get_block-put_block_example :
    (w'' : Disk) × (get_block mem_fs disk_after stored key ≡ some (w'', some block))
unfolding open_read
get_block-put_block_example =
    get_block-put_block mem_fs disk store key block full_path store-IsStore full_path_of_key puts
      refl

put_block_leaks_example :
    (w' : Disk) × (put_block mem_fs disk store key (1 ∷ 2 ∷ []) ≡ some (w', store, false))
    × (w'.fds ≡ 6)
unfolding open_write
put_block_leaks_example =
    put_block_leaks mem_fs disk store key (1 ∷ 2 ∷ []) full_path (omega arith) full_path_of_key refl
      (omega arith)

remove_block_lem_example :
    (s' : FileBlockStore) × (remove_block mem_fs disk store (b'a' ∷ [])
      ≡ some ((unlink disk (b'd' ∷ b'/' ∷ b'a' ∷ [])).0, s', true))
    × IsRegenerated mem_fs (unlink disk (b'd' ∷ b'/' ∷ b'a' ∷ [])).0 store s'
unfolding unlink
remove_block_lem_example =
    remove_block_lem mem_fs disk store (b'a' ∷ []) (b'd' ∷ b'/' ∷ b'a' ∷ []) store-IsStore
      (unfold get_fullpath in refl)

drain-visible_example :
    drain mem_fs disk 2 store
    ≡ some (
      record store { dir = none },
      visible (
          record { name = b'.' ∷ b'b' ∷ []; regular = true }
          ∷ record { name = b'a' ∷ []; regular = true }
          ∷ []),
    )
unfolding entries visible
drain-visible_example =
    drain-visible mem_fs disk 2 store
      (record { name = b'.' ∷ b'b' ∷ []; regular = true }
        ∷ record { name = b'a' ∷ []; regular = true }
        ∷ [])
      (inr (refl, refl)) (omega arith) (omega arith)
