-- ===== src/FileBlockStore/Blocks.antt =====
-- What `getBlock`, `putBlock` and `removeBlock` of src/blockstore/fileblockstore.cc mean together.
use rawdishfs.Base.{
  Bool, Bool-cases, Bytes, Option, [], ap, arith, c_str, false, if◌then◌else◌, inl, inr, length,
  ltb, none, refl, some, take_of_length-le, true, ℕ, ◌<◌, ◌==◌, ◌∙◌, ◌∷◌, ◌≡◌, ◌≤◌,
}
use rawdishfs.Posix.{Posix}
use rawdishfs.FileBlockStore.{
  FileBlockStore, get_fullpath, record_block, finish_put, put_block, get_block, remove_block,
}
use rawdishfs.FileBlockStore.Filter.{IsRegenerated, regenerate-IsRegenerated}
use rawdishfs.FileBlockStore.Filter.Scan.{IsStore}
use rawdishfs.FileBlockStore.Accounting.{get_block_lem, block_read}

module _ (os : Posix) where
  open os use {
    World, open_write, open_read, write, read, close, unlink, write_bound, read-write, open_files,
  }

  -- What a `putBlock` that returned `true` has done.
  pub record IsStored (w : World) (s : FileBlockStore) (content path : Bytes) (w' : World)
      (s' : FileBlockStore) : Type 0 where
    pub opened : (open_write w path).1 ≡ true
    pub wrote : (write (open_write w path).0 path content).1 ≡ some (length content)
    pub world : w' ≡ close (write (open_write w path).0 path content).0
    pub whole : length content ≡ s.blocksize
    pub same_path : s'.path ≡ s.path
    pub same_size : s'.blocksize ≡ s.blocksize

  finish_put-true :
      (v : World) (s : FileBlockStore) (key content : Bytes) (n : Option ℕ) {w' : World}
      {s' : FileBlockStore}
      → length content ≤ s.blocksize
      → ((k : ℕ) → n ≡ some k → k ≤ length content)
      → finish_put os v s key n ≡ some (w', s', true)
      → (n ≡ some (length content))
        × (w' ≡ close v)
        × (length content ≡ s.blocksize)
        × (s'.path ≡ s.path)
        × (s'.blocksize ≡ s.blocksize)
  unfolding finish_put record_block
  finish_put-true v s key content none fits bound runs = absurd (ground arith)
  finish_put-true v s key content (some n) fits bound runs = ground (arith, bound n refl)

  pub put_block-true :
      (w : World) (s : FileBlockStore) (key content full : Bytes) {w' : World} {s' : FileBlockStore}
      → get_fullpath s.path key ≡ some full
      → put_block os w s key content ≡ some (w', s', true)
      → IsStored w s content (c_str full) w' s'
  unfolding put_block
  put_block-true w s key content full e runs =
      let opened = open_write w (c_str full) in
      let written = write opened.0 (c_str full) content in
      elim (Bool-cases (s.free_blocks == 0)) [
        | inl no_room ↦ absurd (refused (rw no_room at runs))
        | inr room ↦ elim (Bool-cases opened.1) [
          | inr closed ↦ absurd (refused (rw (room, e, closed) at runs))
          | inl opens ↦ elim (Bool-cases (ltb s.blocksize (length content))) [
            | inl big ↦ absurd (refused (rw (room, e, opens, big) at runs))
            | inr fits ↦
                let (wrote, world, whole, same_path, same_size) =
                  finish_put-true written.0 s key content written.1 (ground arith)
                    (λ k wrote. write_bound opened.0 (c_str full) content k wrote)
                    (rw (room, e, opens, fits) at runs) in
                record {
                  opened = opens;
                  wrote = wrote;
                  world = world;
                  whole = whole;
                  same_path = same_path;
                  same_size = same_size;
                }
          ]
        ]
      ]
    where
      refused :
          {v v' : World} {t t' : FileBlockStore}
          → ◌≡◌ {A = Option (World × FileBlockStore × Bool)}
              (some (v, t, false))
              (some (v', t', true))
          → ⊥
      refused eq = cc

  -- A block that was stored is read back: where `putBlock` returned `true` and the file can be
  -- opened again, `getBlock` of the same key returns the same bytes.
  pub get_block-put_block :
      (w : World) (s : FileBlockStore) (key content full : Bytes) {w' : World} {s' : FileBlockStore}
      → IsStore s
      → get_fullpath s.path key ≡ some full
      → put_block os w s key content ≡ some (w', s', true)
      → (os.open_read w' (c_str full)).1 ≡ true
      → (w'' : World) × (get_block os w' s' key ≡ some (w'', some content))
  get_block-put_block w s key content full {w'} {s'} st e runs opens =
      let p = put_block-true w s key content full e runs in
      let (w'', got, kept) = get_block_lem os w' s' key full (rw p.same_path e) in
      let opens_there : (os.open_read
            (close (write (open_write w (c_str full)).0 (c_str full) content).0) (c_str full)).1
          ≡ true =
        rw p.world at opens in
      let reads : read (os.open_read w' (c_str full)).0 (c_str full) s'.blocksize ≡ some content =
        rw p.world (
          read-write w (c_str full) content s'.blocksize p.opened p.wrote opens_there
          ∙ ap some
              (take_of_length-le s'.blocksize content (omega (arith, p.whole, p.same_size)))) in
      (
        w'',
        got
            ∙ rw (opens, reads)
                (ap (λ r. some (w'', r))
                  (block_read_pos content (omega (arith, p.whole, st.sized)))),
      )
    where
      block_read_pos : (bs : Bytes) → 0 < length bs → block_read os (some bs) ≡ some bs
      block_read_pos [] h = elim h [ ]
      block_read_pos (b ∷ bs) h = refl

  -- `removeBlock` never faults on a valid store. Where `unlink` fails the store is as it was;
  -- otherwise its blocks, counts and filter are read anew from the directory as `unlink` left it.
  pub remove_block_lem :
      (w : World) (s : FileBlockStore) (key full : Bytes)
      → IsStore s
      → get_fullpath s.path key ≡ some full
      → (s' : FileBlockStore) × (remove_block os w s key
          ≡ some ((unlink w (c_str full)).0, s', (unlink w (c_str full)).1))
        × (if (unlink w (c_str full)).1
            then IsRegenerated os (unlink w (c_str full)).0 s s'
            else s' ≡ s)
  unfolding remove_block
  remove_block_lem w s key full st e =
      let removed = unlink w (c_str full) in
      elim (Bool-cases removed.1) [
        | inl gone ↦
            let (s', runs, new) = regenerate-IsRegenerated os removed.0 s st.sized st.located in
            (s', rw (e, gone, runs) refl, rw gone new)
        | inr fails ↦ (s, rw (e, fails) refl, rw fails refl)
      ]
