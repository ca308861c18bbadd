-- ===== src/RemoteBlockStore/Tests.antt =====
-- Two block stores of src/blockstore/remoteblockstore.h on one server, and a block that travels.
use rawdishfs.Base.{Bytes, List, [], arith, false, none, refl, replicate, some, true, ℕ, ◌∷◌, ◌≡◌}
use rawdishfs.Base.Keys.{bytes_key}
use rawdishfs.Base.OrdMap.{OrdMap, lookup}
use rawdishfs.FileBlockStore.{FileBlockStore, get_block, get_fullpath}
use rawdishfs.FileBlockStore.MemFs.{Disk, mem_fs, open_read, read}
use rawdishfs.FileBlockStore.Sample.{
  key, block, store as sample, disk as sample_disk, disk_after, stored, puts, store-IsStore,
  full_path_of_key, full_path as path_of_key,
}
use rawdishfs.Rpc.{write, RpcClient, response_callback}
use rawdishfs.Rpc.Stream.{concat}
use rawdishfs.Rpc.Frames.{
  text, text_pair, nothing, flag, number, requests, responses, framed, to_request, to_response,
}
use rawdishfs.RemoteBlockStore.Methods.{remote_method, StoreCodecs, remote_call, apply}
use rawdishfs.RemoteBlockStore.Proxy.{Returns, Remote, remote_call_lem, Remote-get-put}
use rawdishfs.RemoteBlockStore.{
  call_put_block, Method, call_get_block, word, make_string, register_remote_block_store,
  get_block_helper,
}
use rawdishfs.Url.{print_nat}
use rawdishfs.RemoteBlockStore.Names.{lookup-register_remote_block_store}

-- "getBlock12"
name_of_12 :
    make_string (word call_get_block) 12
    ≡ b'g' ∷ b'e' ∷ b't' ∷ b'B' ∷ b'l' ∷ b'o' ∷ b'c' ∷ b'k' ∷ b'1' ∷ b'2' ∷ []
unfolding make_string word print_nat
name_of_12 = refl

abbrev ten : Method → ℕ
ten m = 10

abbrev twenty : Method → ℕ
twenty m = 20

abbrev two_stores : OrdMap Bytes ℕ
two_stores = register_remote_block_store twenty 12 (register_remote_block_store ten 1 [])

lookup-register_remote_block_store_example :
    (lookup (make_string (word call_get_block) 1) two_stores ≡ some 10)
    × (lookup (make_string (word call_get_block) 12) two_stores ≡ some 20)
lookup-register_remote_block_store_example =
    lookup-register_remote_block_store ten twenty 1 12 call_get_block [] (omega arith) (omega arith)
      (λ e. absurd (omega (arith, e)))

abbrev path_of_a : Bytes
path_of_a = b'd' ∷ b'/' ∷ b'a' ∷ []

abbrev disk : Disk
disk = record { files = (path_of_a, 1 ∷ 2 ∷ 3 ∷ 4 ∷ []) ∷ []; fds = 5 }

abbrev store : FileBlockStore
store = record {
  dir = none;
  blocksize = 4;
  path = b'd' ∷ b'/' ∷ [];
  bloomfilter = record { seed = 7; size = 64; hash = replicate 8 0 };
  blockset = [];
  free_blocks = 3;
  used_blocks = 0;
}

full_path : get_fullpath store.path (b'a' ∷ []) ≡ some path_of_a
unfolding get_fullpath
full_path = refl

reads_a : get_block mem_fs disk store (b'a' ∷ []) ≡ some (disk, some (1 ∷ 2 ∷ 3 ∷ 4 ∷ []))
unfolding get_block open_read read
reads_a = refl

abbrev codecs : StoreCodecs
codecs = record {
  block_args = text_pair;
  key_args = text;
  no_args = nothing;
  flag = flag;
  bytes = text;
  number = number;
}

abbrev no_methods : OrdMap Bytes Method
no_methods = []

abbrev put_sent : List Bytes
put_sent =
    (17 ∷ 0 ∷ 9 ∷ b'p' ∷ b'u' ∷ [])
    ∷ (b't' ∷ b'B' ∷ b'l' ∷ b'o' ∷ b'c' ∷ b'k' ∷ b'1' ∷ 1 ∷ b'k' ∷ 9 ∷ 8 ∷ 7 ∷ 6 ∷ [])
    ∷ []

abbrev put_answer : List Bytes
put_answer = (2 ∷ 0 ∷ []) ∷ (1 ∷ []) ∷ []

abbrev client : RpcClient
client = record {
  pac = [];
  req_id = 0;
  resp_callbacks = [];
  disconnect_callback = none;
  attached = true;
}

puts_there :
    apply mem_fs call_put_block (sample_disk, sample) (key, block)
    ≡ some ((disk_after, stored), true)
unfolding apply
puts_there = rw (puts, apply) refl

put_sends :
    (remote_call requests codecs 1 call_put_block client 5 (key, block)).1
    ≡ write (concat put_sent) ∷ []
unfolding remote_call requests framed to_request text_pair concat print_nat
put_sends = refl

put_answers : concat put_answer ≡ response_callback responses 0 (flag.pack true)
unfolding response_callback responses framed to_response flag concat
put_answers = refl

remote_call_lem_example :
    Remote mem_fs requests responses codecs 1 call_put_block no_methods client 5
      (key, block)
      false
      (sample_disk, sample)
      (disk_after, stored)
      true
      put_sent
      put_answer
    × Returns mem_fs requests responses codecs call_put_block
        (sample_disk, sample)
        (key, block)
        (disk_after, stored)
        true
unfolding remote_method
remote_call_lem_example =
    remote_call_lem mem_fs requests responses codecs 1 call_put_block no_methods client 5
      (key, block) false (sample_disk, sample) (disk_after, stored) true put_sent put_answer
      (omega arith) refl puts_there put_sends put_answers

abbrev get_sent : List Bytes
get_sent =
    (12 ∷ 0 ∷ 9 ∷ b'g' ∷ b'e' ∷ b't' ∷ b'B' ∷ b'l' ∷ b'o' ∷ b'c' ∷ b'k' ∷ b'1' ∷ b'k' ∷ []) ∷ []

abbrev get_answer : List Bytes
get_answer = (5 ∷ 0 ∷ 9 ∷ []) ∷ (8 ∷ 7 ∷ 6 ∷ []) ∷ []

get_sends :
    (remote_call requests codecs 1 call_get_block client 6 key).1 ≡ write (concat get_sent) ∷ []
unfolding remote_call requests framed to_request text concat print_nat
get_sends = refl

get_answers : concat get_answer ≡ response_callback responses 0 (text.pack block)
unfolding response_callback responses framed to_response text concat
get_answers = refl

Remote-get-put_example :
    (w'' : Disk) × Remote mem_fs requests responses codecs 1 call_get_block no_methods client 6 key
      []
      (disk_after, stored)
      (w'', stored)
      block
      get_sent
      get_answer
    × (get_block_helper block ≡ some block)
unfolding open_read
Remote-get-put_example =
    Remote-get-put mem_fs requests responses codecs 1 no_methods client 6 sample_disk sample key
      block path_of_key [] disk_after stored get_sent get_answer (omega arith) refl store-IsStore
      full_path_of_key puts refl get_sends get_answers
