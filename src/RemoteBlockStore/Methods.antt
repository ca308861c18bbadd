-- ===== src/RemoteBlockStore/Methods.antt =====
-- The methods of a block store as remote calls: the functions that `RegisterRemoteBlockStore` of
-- src/blockstore/remoteblockstore.h binds, and the calls that `RemoteBlockStore` makes. The types of
-- the arguments and of the value that travels depend on the method.
use rawdishfs.Base.{Bool, Bytes, List, Option, [], some, ℕ, ◌>>=◌}
use rawdishfs.Base.Keys.{bytes_key}
use rawdishfs.Base.OrdMap.{OrdMap}
use rawdishfs.Posix.{Posix}
use rawdishfs.BloomFilter.{BloomFilter}
use rawdishfs.FileBlockStore.{
  FileBlockStore, put_block, get_block, remove_block, block_size, num_free_blocks, num_total_blocks,
  bloomfilter,
}
use rawdishfs.Msgpack.{Framing, Codec}
use rawdishfs.Rpc.{
  Request, Response, RpcClient, ClientEffect, call, Task, run_function, run_disconnect,
  response_callback, deserialize_future,
}
use rawdishfs.RemoteBlockStore.{
  Method, call_put_block, call_get_block, call_remove_block, call_block_size, call_num_free_blocks,
  call_num_total_blocks, call_bloomfilter, word, make_string, register_remote_block_store,
  answer_block, answer_filter, get_block_helper, bloomfilter_helper,
}

abbrev pub Args : Method → Type 0
Args call_put_block = Bytes × Bytes
Args call_get_block = Bytes
Args call_remove_block = Bytes
Args call_block_size = Unit
Args call_num_free_blocks = Unit
Args call_num_total_blocks = Unit
Args call_bloomfilter = Unit

abbrev pub Result : Method → Type 0
Result call_put_block = Bool
Result call_get_block = Bytes
Result call_remove_block = Bool
Result call_block_size = ℕ
Result call_num_free_blocks = ℕ
Result call_num_total_blocks = ℕ
Result call_bloomfilter = Bytes

-- What the methods of a block store return, to a caller of the proxy or of the store itself.
abbrev pub Returned : Method → Type 0
Returned call_put_block = Bool
Returned call_get_block = Option Bytes
Returned call_remove_block = Bool
Returned call_block_size = ℕ
Returned call_num_free_blocks = ℕ
Returned call_num_total_blocks = ℕ
Returned call_bloomfilter = BloomFilter

-- How the arguments and the results are packed.
pub record StoreCodecs : Type 0 where
  pub block_args : Codec (Bytes × Bytes)
  pub key_args : Codec Bytes
  pub no_args : Codec Unit
  pub flag : Codec Bool
  pub bytes : Codec Bytes
  pub number : Codec ℕ

abbrev pub args_codec : StoreCodecs → (m : Method) → Codec (Args m)
args_codec codecs call_put_block = codecs.block_args
args_codec codecs call_get_block = codecs.key_args
args_codec codecs call_remove_block = codecs.key_args
args_codec codecs call_block_size = codecs.no_args
args_codec codecs call_num_free_blocks = codecs.no_args
args_codec codecs call_num_total_blocks = codecs.no_args
args_codec codecs call_bloomfilter = codecs.no_args

abbrev pub result_codec : StoreCodecs → (m : Method) → Codec (Result m)
result_codec codecs call_put_block = codecs.flag
result_codec codecs call_get_block = codecs.bytes
result_codec codecs call_remove_block = codecs.flag
result_codec codecs call_block_size = codecs.number
result_codec codecs call_num_free_blocks = codecs.number
result_codec codecs call_num_total_blocks = codecs.number
result_codec codecs call_bloomfilter = codecs.bytes

-- `_client->call(MakeString(…, _bsid), …)`, which each method of `RemoteBlockStore` makes.
unfoldable pub remote_call :
    Framing Request
    → StoreCodecs
    → ℕ
    → (m : Method) → RpcClient
    → ℕ
    → Args m
    → RpcClient × List ClientEffect
unfolding call make_string word
remote_call requests codecs bsid m c future args =
    call requests (args_codec codecs m) c future (make_string (word m) bsid) args

-- What the future that a method of the proxy returns is set to: by `getBlockHelper` and
-- `bloomfilterHelper`, or the value of the call itself.
unfoldable pub proxy_value : (m : Method) → Result m → Returned m
unfolding get_block_helper bloomfilter_helper
proxy_value call_put_block r = r
proxy_value call_get_block r = get_block_helper r
proxy_value call_remove_block r = r
proxy_value call_block_size r = r
proxy_value call_num_free_blocks r = r
proxy_value call_num_total_blocks r = r
proxy_value call_bloomfilter r = bloomfilter_helper r

-- A method of `RemoteBlockStore`: its call, and what its future is set to when that of the call is
-- resumed with a buffer.
unfoldable pub remote_method :
    Framing Request
    → StoreCodecs
    → ℕ
    → (m : Method) → RpcClient
    → ℕ
    → Args m
    → Result m
    → (RpcClient × List ClientEffect) × (Option Bytes → Option (Returned m))
unfolding remote_call deserialize_future proxy_value
remote_method requests codecs bsid m c future args empty = (
  remote_call requests codecs bsid m c future args,
  λ buf. do r ← deserialize_future (result_codec codecs m) empty buf; some (proxy_value m r),
)

abbrev pub same_method : Method → Method
same_method m = m

-- A server where the methods of a store are registered; the function of each is named by it.
unfoldable pub store_server : ℕ → OrdMap Bytes Method → OrdMap Bytes Method
unfolding register_remote_block_store
store_server bsid server = register_remote_block_store same_method bsid server

module _ (os : Posix) where
  abbrev pub Disk : Type 0
  Disk = os.World × FileBlockStore

  -- The bound functions, with the helpers that turn blocks and filters into vectors.
  unfoldable pub apply : (m : Method) → Disk → Args m → Option (Disk × Result m)
  unfolding put_block get_block remove_block block_size num_free_blocks num_total_blocks bloomfilter
      answer_block answer_filter
  apply call_put_block (w, s) (key, content) = do
    r ← put_block os w s key content
    some ((r.0, r.1), r.2)
  apply call_get_block (w, s) key = do r ← get_block os w s key; some ((r.0, s), answer_block r.1)
  apply call_remove_block (w, s) key = do r ← remove_block os w s key; some ((r.0, r.1), r.2)
  apply call_block_size (w, s) args = some ((w, s), block_size s)
  apply call_num_free_blocks (w, s) args = some ((w, s), num_free_blocks s)
  apply call_num_total_blocks (w, s) args = some ((w, s), num_total_blocks s)
  apply call_bloomfilter (w, s) args = do
    answer ← answer_filter (bloomfilter s)
    some ((w, s), answer)

  -- The method of the store itself.
  unfoldable pub store_method : (m : Method) → Disk → Args m → Option (Disk × Returned m)
  unfolding put_block get_block remove_block block_size num_free_blocks num_total_blocks bloomfilter
  store_method call_put_block (w, s) (key, content) = do
    r ← put_block os w s key content
    some ((r.0, r.1), r.2)
  store_method call_get_block (w, s) key = do r ← get_block os w s key; some ((r.0, s), r.1)
  store_method call_remove_block (w, s) key = do r ← remove_block os w s key; some ((r.0, r.1), r.2)
  store_method call_block_size (w, s) args = some ((w, s), block_size s)
  store_method call_num_free_blocks (w, s) args = some ((w, s), num_free_blocks s)
  store_method call_num_total_blocks (w, s) args = some ((w, s), num_total_blocks s)
  store_method call_bloomfilter (w, s) args = some ((w, s), bloomfilter s)

  -- What a worker thread does with a task: the store afterwards, and the bytes for the socket.
  unfoldable pub run_method :
      Framing Response → StoreCodecs → Task Method → Disk → Option (Disk × Bytes)
  unfolding apply response_callback
  run_method responses codecs (run_function id m packed) disk = do
    args ← (args_codec codecs m).unpack packed
    r ← apply m disk args
    some (r.0, response_callback responses id ((result_codec codecs m).pack r.1))
  run_method responses codecs run_disconnect disk = some (disk, [])
