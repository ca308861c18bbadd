-- ===== src/RemoteBlockStore.antt =====
-- `RemoteBlockStore` and `RegisterRemoteBlockStore` of src/blockstore/remoteblockstore.h: the names
-- under which the methods of a block store are registered with a server, and what the proxy makes
-- of the values that travel. An `IOBuffer` is its bytes, and `none` is the null pointer.
pub mod Names
pub mod Blocks
pub mod Methods
pub mod Proxy
mod Tests
use rawdishfs.Base.{Bytes, List, Option, [], none, some, suc, take, ℕ, ◌++◌, ◌∷◌}
use rawdishfs.Base.Keys.{bytes_key}
use rawdishfs.Base.OrdMap.{OrdMap, insert}
use rawdishfs.BloomFilter.{BloomFilter, new_filter, serialize}
use rawdishfs.Url.{print_nat}

-- The methods that a server offers.
pub data Method : Type 0 where
  call_put_block : Method
  call_get_block : Method
  call_remove_block : Method
  call_block_size : Method
  call_num_free_blocks : Method
  call_num_total_blocks : Method
  call_bloomfilter : Method

pub word : Method → Bytes
word call_put_block = b'p' ∷ b'u' ∷ b't' ∷ b'B' ∷ b'l' ∷ b'o' ∷ b'c' ∷ b'k' ∷ []
word call_get_block = b'g' ∷ b'e' ∷ b't' ∷ b'B' ∷ b'l' ∷ b'o' ∷ b'c' ∷ b'k' ∷ []
word call_remove_block =
    b'r' ∷ b'e' ∷ b'm' ∷ b'o' ∷ b'v' ∷ b'e' ∷ b'B' ∷ b'l' ∷ b'o' ∷ b'c' ∷ b'k' ∷ []
word call_block_size = b'b' ∷ b'l' ∷ b'o' ∷ b'c' ∷ b'k' ∷ b'S' ∷ b'i' ∷ b'z' ∷ b'e' ∷ []
word call_num_free_blocks =
    b'n' ∷ b'u' ∷ b'm' ∷ b'F' ∷ b'r' ∷ b'e' ∷ b'e' ∷ b'B' ∷ b'l' ∷ b'o' ∷ b'c' ∷ b'k' ∷ b's' ∷ []
word call_num_total_blocks =
    b'n' ∷ b'u' ∷ b'm' ∷ b'T' ∷ b'o' ∷ b't' ∷ b'a' ∷ b'l' ∷ b'B' ∷ b'l' ∷ b'o' ∷ b'c' ∷ b'k' ∷ b's'
    ∷ []
word call_bloomfilter =
    b'b' ∷ b'l' ∷ b'o' ∷ b'o' ∷ b'm' ∷ b'f' ∷ b'i' ∷ b'l' ∷ b't' ∷ b'e' ∷ b'r' ∷ []

-- `MakeString`: at most 126 bytes of the word and the id in decimal.
pub make_string : Bytes → ℕ → Bytes
make_string str bsid = take 126 (str ++ print_nat (suc bsid) bsid)

-- The methods in the order of their registration.
abbrev pub methods : List Method
methods =
    call_put_block ∷ call_get_block ∷ call_remove_block ∷ call_block_size ∷ call_num_free_blocks
    ∷ call_num_total_blocks ∷ call_bloomfilter ∷ []

-- The registrations; `funcs` has the function of each method.
pub register_methods :
    {F : Type 0} → (Method → F) → ℕ → List Method → OrdMap Bytes F → OrdMap Bytes F
unfolding make_string word
register_methods funcs bsid [] server = server
register_methods funcs bsid (m ∷ ms) server =
    register_methods funcs bsid ms (insert (make_string (word m) bsid) (funcs m) server)

-- `RegisterRemoteBlockStore`
pub register_remote_block_store : {F : Type 0} → (Method → F) → ℕ → OrdMap Bytes F → OrdMap Bytes F
unfolding register_methods
register_remote_block_store funcs bsid server = register_methods funcs bsid methods server

-- `FileBlockStoreGetBlockHelperCallback`: the bytes that the server answers to "getBlock".
unfoldable pub answer_block : Option Bytes → Bytes
answer_block none = []
answer_block (some block) = block

-- `getBlockHelper`: the block that the proxy makes of them.
unfoldable pub get_block_helper : Bytes → Option Bytes
get_block_helper [] = none
get_block_helper (b ∷ bs) = some (b ∷ bs)

-- `FileBlockStoreBloomFilterHelper`: the bytes that the server answers to "bloomfilter".
pub answer_filter : BloomFilter → Option Bytes
answer_filter filter = serialize filter

-- `bloomfilterHelper`, which returns before it reads the answer.
unfoldable pub bloomfilter_helper : Bytes → BloomFilter
bloomfilter_helper answer = new_filter
