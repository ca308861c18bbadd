-- ===== src/RemoteBlockStore/Names.antt =====
-- The names of the methods of the block stores of src/blockstore/remoteblockstore.h on one server.
use rawdishfs.Base.{
  Bool-cases, Bytes, List, [], ap, arith, drop, if◌then◌else◌, inl, inr, length, length-append,
  refl, some, suc, sym, take_of_length-le, ℕ, ◌&&◌, ◌++◌, ◌<◌, ◌==◌, ◌^◌, ◌∙◌, ◌∷◌, ◌≡◌, ◌≢◌, ◌≤◌,
}
use rawdishfs.Base.Keys.{bytes_key, bytes_eqb, bytes_eqb_iff}
use rawdishfs.Base.OrdMap.{OrdMap, lookup, insert, lookup-insert, lookup-insert_self}
use rawdishfs.Url.{scan_digits, print_nat}
use rawdishfs.Url.Digits.{length-print_nat, scan_digits-print_nat}
use rawdishfs.RemoteBlockStore.{
  Method, call_put_block, call_get_block, call_remove_block, call_block_size, call_num_free_blocks,
  call_num_total_blocks, call_bloomfilter, word, methods, make_string, register_methods,
  register_remote_block_store,
}

-- The method and the id of a name: by its first letters, and by the digits behind them.
name_method : Bytes → Method
name_method [] = call_put_block
name_method (a ∷ []) = call_put_block
name_method (a ∷ b ∷ []) = call_put_block
name_method (a ∷ b ∷ c ∷ []) = call_put_block
name_method (a ∷ b ∷ c ∷ d ∷ s) =
    if a == b'p'
    then call_put_block
    else if a == b'g'
    then call_get_block
    else if a == b'r'
    then call_remove_block
    else if d == b'F'
    then call_num_free_blocks
    else if d == b'T'
    then call_num_total_blocks
    else if c == b'o' && d == b'c'
    then call_block_size
    else call_bloomfilter

letters : Method → ℕ
unfolding word
letters m = length (word m)

name_id : Method → Bytes → ℕ
unfolding letters
name_id m s = scan_digits 0 (drop (letters m) s)

word_short : (m : Method) → length (word m) ≤ 14
unfolding word
word_short call_put_block = omega arith
word_short call_get_block = omega arith
word_short call_remove_block = omega arith
word_short call_block_size = omega arith
word_short call_num_free_blocks = omega arith
word_short call_num_total_blocks = omega arith
word_short call_bloomfilter = omega arith

make_string_whole :
    (m : Method) (bsid : ℕ)
    → bsid < 2 ^ 64
    → make_string (word m) bsid ≡ word m ++ print_nat (suc bsid) bsid
unfolding make_string
make_string_whole m bsid h =
    let short : length (print_nat (suc bsid) bsid) ≤ 20 =
      length-print_nat 19 (suc bsid) bsid (omega arith) in
    take_of_length-le 126 (word m ++ print_nat (suc bsid) bsid)
      (omega (arith, length-append (word m) (print_nat (suc bsid) bsid), short, word_short m))

name_method_lem : (m : Method) (s : Bytes) → name_method (word m ++ s) ≡ m
unfolding name_method word
name_method_lem call_put_block s = refl
name_method_lem call_get_block s = refl
name_method_lem call_remove_block s = refl
name_method_lem call_block_size s = refl
name_method_lem call_num_free_blocks s = refl
name_method_lem call_num_total_blocks s = refl
name_method_lem call_bloomfilter s = refl

drop-append : (a s : Bytes) → drop (length a) (a ++ s) ≡ s
drop-append [] s = refl
drop-append (x ∷ a) s = drop-append a s

-- Two names are the same for the same method of the same store only.
make_string_inj :
    (m n : Method) (a b : ℕ)
    → a < 2 ^ 64
    → b < 2 ^ 64
    → make_string (word m) a ≡ make_string (word n) b
    → (m ≡ n) × (a ≡ b)
unfolding name_id letters
make_string_inj m n a b ha hb e =
    let same : word m ++ print_nat (suc a) a ≡ word n ++ print_nat (suc b) b =
      sym (make_string_whole m a ha) ∙ e ∙ make_string_whole n b hb in
    let methods_agree : m ≡ n =
      sym (name_method_lem m (print_nat (suc a) a))
      ∙ ap name_method same
      ∙ name_method_lem n (print_nat (suc b) b) in
    let read : (k : Method) → (d : ℕ) → name_id k (word k ++ print_nat (suc d) d) ≡ d = λ k d.
      rw (drop-append (word k) (print_nat (suc d) d))
        (scan_digits-print_nat (suc d) d (omega arith)) in
    (
      methods_agree,
      sym (read m a)
          ∙ ap (name_id m) same
          ∙ ap (λ k. name_id k (word n ++ print_nat (suc b) b)) methods_agree
          ∙ read n b,
    )

module _ {F : Type 0} (funcs : Method → F) (a : ℕ) where
  -- The registrations of another store leave a name alone.
  register_methods_other :
      (ms : List Method) (m : Method) (b : ℕ) (server : OrdMap Bytes F)
      → a < 2 ^ 64
      → b < 2 ^ 64
      → a ≢ b
      → lookup (make_string (word m) b) (register_methods funcs a ms server)
        ≡ lookup (make_string (word m) b) server
  unfolding register_methods
  register_methods_other [] m b server ha hb apart = refl
  register_methods_other (k ∷ ms) m b server ha hb apart =
      register_methods_other ms m b (insert (make_string (word k) a) (funcs k) server) ha hb apart
      ∙ lookup-insert (make_string (word k) a) (make_string (word m) b) (funcs k) server
      ∙ elim (Bool-cases (bytes_eqb (make_string (word k) a) (make_string (word m) b))) [
        | inl same ↦ absurd (apart (make_string_inj k m a b ha hb ((bytes_eqb_iff _ _).0 same)).1)
        | inr other ↦ rw other refl
      ]

  -- A method that has been registered stays so.
  register_methods_kept :
      (ms : List Method) (m : Method) (server : OrdMap Bytes F)
      → a < 2 ^ 64
      → lookup (make_string (word m) a) server ≡ some (funcs m)
      → lookup (make_string (word m) a) (register_methods funcs a ms server) ≡ some (funcs m)
  unfolding register_methods
  register_methods_kept [] m server h e = e
  register_methods_kept (k ∷ ms) m server h e =
      register_methods_kept ms m (insert (make_string (word k) a) (funcs k) server) h (
        lookup-insert (make_string (word k) a) (make_string (word m) a) (funcs k) server
        ∙ elim (Bool-cases (bytes_eqb (make_string (word k) a) (make_string (word m) a))) [
          | inl same ↦ rw (same, (make_string_inj k m a a h h ((bytes_eqb_iff _ _).0 same)).0) refl
          | inr other ↦ rw other e
        ])

  put : Method → OrdMap Bytes F → OrdMap Bytes F
  put m server = insert (make_string (word m) a) (funcs m) server

  here :
      (ms : List Method) (m : Method) (server : OrdMap Bytes F)
      → a < 2 ^ 64
      → lookup (make_string (word m) a) (register_methods funcs a ms (put m server))
        ≡ some (funcs m)
  unfolding put
  here ms m server h =
      register_methods_kept ms m (put m server) h
        (lookup-insert_self (make_string (word m) a) (funcs m) server)

  pub register_remote_block_store_self :
      (m : Method) (server : OrdMap Bytes F)
      → a < 2 ^ 64
      → lookup (make_string (word m) a) (register_remote_block_store funcs a server)
        ≡ some (funcs m)
  unfolding register_remote_block_store register_methods put
  register_remote_block_store_self call_put_block server h =
      here
        (call_get_block ∷ call_remove_block ∷ call_block_size ∷ call_num_free_blocks
          ∷ call_num_total_blocks ∷ call_bloomfilter ∷ [])
        call_put_block server h
  register_remote_block_store_self call_get_block server h =
      here
        (call_remove_block ∷ call_block_size ∷ call_num_free_blocks ∷ call_num_total_blocks
          ∷ call_bloomfilter ∷ [])
        call_get_block (put call_put_block server) h
  register_remote_block_store_self call_remove_block server h =
      here (call_block_size ∷ call_num_free_blocks ∷ call_num_total_blocks ∷ call_bloomfilter ∷ [])
        call_remove_block (put call_get_block (put call_put_block server)) h
  register_remote_block_store_self call_block_size server h =
      here (call_num_free_blocks ∷ call_num_total_blocks ∷ call_bloomfilter ∷ []) call_block_size
        (put call_remove_block (put call_get_block (put call_put_block server))) h
  register_remote_block_store_self call_num_free_blocks server h =
      here (call_num_total_blocks ∷ call_bloomfilter ∷ []) call_num_free_blocks
        (put call_block_size
          (put call_remove_block (put call_get_block (put call_put_block server))))
        h
  register_remote_block_store_self call_num_total_blocks server h =
      here (call_bloomfilter ∷ []) call_num_total_blocks
        (put call_num_free_blocks (
          put call_block_size
            (put call_remove_block (put call_get_block (put call_put_block server)))))
        h
  register_remote_block_store_self call_bloomfilter server h =
      here ([]) call_bloomfilter
        (put call_num_total_blocks (
          put call_num_free_blocks (
            put call_block_size
              (put call_remove_block (put call_get_block (put call_put_block server))))))
        h

-- Two block stores with different ids share one server: every method of either store is registered
-- under its name, whatever else was registered before.
pub lookup-register_remote_block_store :
    {F : Type 0} (funcs others : Method → F) (a b : ℕ) (m : Method) (server : OrdMap Bytes F)
    → a < 2 ^ 64
    → b < 2 ^ 64
    → a ≢ b
    → (lookup
          (make_string (word m) a)
          (register_remote_block_store others b (register_remote_block_store funcs a server))
        ≡ some (funcs m))
      × (lookup
            (make_string (word m) b)
            (register_remote_block_store others b (register_remote_block_store funcs a server))
          ≡ some (others m))
unfolding register_remote_block_store
lookup-register_remote_block_store funcs others a b m server ha hb apart = (
  register_methods_other others b methods m a (register_remote_block_store funcs a server) hb ha
        (λ e. apart (sym e))
      ∙ register_remote_block_store_self funcs a m server ha,
  register_remote_block_store_self others b m (register_remote_block_store funcs a server) hb,
)
