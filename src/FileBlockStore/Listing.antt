-- ===== src/FileBlockStore/Listing.antt =====
-- `next` of src/blockstore/fileblockstore.cc, called again and again.
use rawdishfs.Base.{
  All, Bool-cases, Bytes, List, Option, [], arith, c_str, inl, inr, length, none, refl, some, suc,
  zero, ℕ, ◌<◌, ◌>>=◌, ◌∷◌, ◌≡◌, ◌⊎◌,
}
use rawdishfs.Posix.{Entry, Posix}
use rawdishfs.FileBlockStore.{FileBlockStore, is_skipped, next, next_entry}
use rawdishfs.FileBlockStore.Filter.Scan.{visible}

next_entry-visible :
    (es : List Entry)
    → (next_entry es ≡ none) × (visible es ≡ [])
      ⊎ ((name : Bytes) × (rest : List Entry) × (next_entry es ≡ some (name, rest))
          × (visible es ≡ name ∷ visible rest))
unfolding next_entry visible
next_entry-visible [] = inl (refl, refl)
next_entry-visible (e ∷ es) = elim (Bool-cases (is_skipped e)) [
  | inl skip ↦ rw (skip, next_entry) (next_entry-visible es)
  | inr keep ↦ inr (e.name, es, rw (keep, next_entry) refl, rw keep refl)
]

module _ (os : Posix) (w : os.World) where
  -- A caller's loop over `next`, which ends at the empty string.
  pub drain : ℕ → FileBlockStore → Option (FileBlockStore × List Bytes)
  drain zero s = none
  drain (suc n) s = next os w s >>= λ r. elim r.1 [
    | [] ↦ some (r.0, [])
    | c ∷ cs ↦ drain n r.0 >>= λ rest. some (rest.0, (c ∷ cs) ∷ rest.1)
  ]

  -- The entries that the next call reads: those left of an open directory, or the whole directory.
  abbrev pub Reads : FileBlockStore → List Entry → Type 0
  Reads s es = (s.dir ≡ some es) ⊎ ((s.dir ≡ none) × (os.entries w (c_str s.path) ≡ some es))

  next_ends :
      (s : FileBlockStore) (es : List Entry)
      → Reads s es
      → next_entry es ≡ none
      → next os w s ≡ some (record s { dir = none }, [])
  unfolding next
  next_ends s es (inl e) ends = rw (e, ◌>>=◌, ends) refl
  next_ends s es (inr (e, there)) ends = rw (e, there, ◌>>=◌, ends) refl

  next_found :
      (s : FileBlockStore) (es : List Entry) (name : Bytes) (rest : List Entry)
      → Reads s es
      → next_entry es ≡ some (name, rest)
      → next os w s ≡ some (record s { dir = some rest }, name)
  unfolding next
  next_found s es name rest (inl e) found = rw (e, ◌>>=◌, found) refl
  next_found s es name rest (inr (e, there)) found = rw (e, there, ◌>>=◌, found) refl

  drain_found :
      (n : ℕ) (s s' : FileBlockStore) (name : Bytes) (names : List Bytes) (last : FileBlockStore)
      → 0 < length name
      → next os w s ≡ some (s', name)
      → drain n s' ≡ some (last, names)
      → drain (suc n) s ≡ some (last, name ∷ names)
  unfolding drain
  drain_found n s s' [] names last h found rest = elim h [ ]
  drain_found n s s' (c ∷ cs) names last h found rest = rw (found, rest) refl

  -- Where no file name is empty, a loop over `next` ends: it meets each block of the directory
  -- once, in the order of the directory, and leaves the store as it was with the directory closed.
  pub drain-visible :
      (n : ℕ) (s : FileBlockStore) (es : List Entry)
      → Reads s es
      → All (λ name. 0 < length name) (visible es)
      → length (visible es) < n
      → drain n s ≡ some (record s { dir = none }, visible es)
  drain-visible zero s es reads named h = elim h [ ]
  drain-visible (suc n) s es reads named h = elim (next_entry-visible es) [
    | inl (ends, empty) ↦ unfold drain in rw (next_ends s es reads ends, empty) refl
    | inr (name, rest, found, split) ↦
        let named' : All (λ q. 0 < length q) (name ∷ visible rest) = rw split at named in
        let shorter : length (name ∷ visible rest) < suc n = rw split at h in
        rw split (
          drain_found n s (record s { dir = some rest }) name (visible rest)
            (record s { dir = none }) named'.0 (next_found s es name rest reads found)
            (drain-visible n (record s { dir = some rest }) rest (inl refl) named'.1 (omega arith)))
  ]
