-- ===== src/RemoteBlockStore/Blocks.antt =====
-- What a block of src/blockstore/remoteblockstore.h is after it has travelled.
use rawdishfs.Base.{
  Bool, Bytes, Option, [], ap, false, if◌then◌else◌, none, refl, some, some_inj, sym, true, ◌∙◌,
  ◌∷◌, ◌≡◌,
}
use rawdishfs.Posix.{Posix}
use rawdishfs.FileBlockStore.{FileBlockStore, get_block, get_fullpath}
use rawdishfs.FileBlockStore.Accounting.{block_read, get_block_lem}
use rawdishfs.RemoteBlockStore.{answer_block, get_block_helper}

module _ (os : Posix) where
  get_block_helper-block_read :
      (found : Option Bytes)
      → get_block_helper (answer_block (block_read os found)) ≡ block_read os found
  unfolding get_block_helper answer_block
  get_block_helper-block_read none = refl
  get_block_helper-block_read (some []) = refl
  get_block_helper-block_read (some (b ∷ bs)) = refl

  get_block_helper-if :
      (opened : Bool) (found : Option Bytes)
      → get_block_helper (answer_block (if opened then block_read os found else none))
        ≡ (if opened then block_read os found else none)
  unfolding get_block_helper answer_block
  get_block_helper-if true found = get_block_helper-block_read found
  get_block_helper-if false found = refl

  -- The proxy returns what the store on the other side returns: an empty answer stands for the null
  -- pointer, and `getBlock` of a store never returns an empty block.
  pub get_block_helper-get_block :
      (w : os.World) (s : FileBlockStore) (key full : Bytes) {w' : os.World} {block : Option Bytes}
      → get_fullpath s.path key ≡ some full
      → get_block os w s key ≡ some (w', block)
      → get_block_helper (answer_block block) ≡ block
  get_block_helper-get_block w s key full e runs =
      let (v, reads, kept) = get_block_lem os w s key full e in
      let same = ap (λ r. r.1) (some_inj (sym reads ∙ runs)) in
      ap (λ o. get_block_helper (answer_block o)) (sym same) ∙ get_block_helper-if _ _ ∙ same
