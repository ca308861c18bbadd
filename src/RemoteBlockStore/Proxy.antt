-- ===== src/RemoteBlockStore/Proxy.antt =====
-- A method of `RemoteBlockStore` in src/blockstore/remoteblockstore.h, from the client to the store
-- of the server and back.
use rawdishfs.Base.{
  Bytes, List, Option, Option-cases, [], ap, arith, c_str, inl, inr, refl, some, some_inj, true, ℕ,
  ◌<◌, ◌^◌, ◌∙◌, ◌∷◌, ◌≡◌,
}
use rawdishfs.Base.Keys.{bytes_key, nat_key}
use rawdishfs.Base.OrdMap.{OrdMap}
use rawdishfs.BloomFilter.{new_filter}
use rawdishfs.Posix.{Posix}
use rawdishfs.Msgpack.{Framing}
use rawdishfs.Rpc.{
  Request, Response, RpcClient, write, resume, on_request, run_function, response_callback,
  deserialize_future,
}
use rawdishfs.Rpc.Stream.{concat, receive_all}
use rawdishfs.Rpc.Client.{waits}
use rawdishfs.Rpc.Server.{task_of, receive_chunks}
use rawdishfs.Rpc.RoundTrip.{delivered, answered}
use rawdishfs.FileBlockStore.Blocks.{get_block-put_block, put_block-true}
use rawdishfs.FileBlockStore.Filter.Scan.{IsStore}
use rawdishfs.FileBlockStore.{put_block, get_block, bloomfilter, get_fullpath, FileBlockStore}
use rawdishfs.RemoteBlockStore.Blocks.{get_block_helper-get_block}
use rawdishfs.RemoteBlockStore.{
  bloomfilter_helper, get_block_helper, answer_block, answer_filter, call_put_block,
  call_remove_block, call_block_size, call_num_free_blocks, call_num_total_blocks, call_bloomfilter,
  call_get_block, Method, word, make_string,
}
use rawdishfs.RemoteBlockStore.Names.{register_remote_block_store_self}
use rawdishfs.RemoteBlockStore.Methods.{
  Args, Result, StoreCodecs, args_codec, result_codec, remote_call, same_method, store_server, Disk,
  apply, run_method, Returned, proxy_value, remote_method, store_method,
}

module _ (os : Posix) (requests : Framing Request) (responses : Framing Response)
    (codecs : StoreCodecs) where
  -- What becomes of a remote call of a method whose arguments are `args`: the server makes one task
  -- of it, which does to the store what the method does and answers; the future of the call gets
  -- the result of the method, and the call waits no more.
  pub record Remote (bsid : ℕ) (m : Method) (server : OrdMap Bytes Method) (c : RpcClient)
      (future : ℕ) (args : Args m) (empty : Result m) (disk disk' : Disk os) (r : Result m)
      (sent answer : List Bytes) : Type 0 where
    pub received :
        receive_all requests on_request [] sent (store_server bsid server)
        ≡ some (
          [],
          store_server bsid server,
          run_function c.req_id m ((args_codec codecs m).pack args) ∷ [],
        )
    pub ran :
        run_method os responses codecs
          (run_function c.req_id m ((args_codec codecs m).pack args))
          disk
        ≡ some (disk', concat answer)
    pub client : RpcClient
    pub buf : Bytes
    pub resumed :
        receive_chunks responses (remote_call requests codecs bsid m c future args).0 answer
        ≡ some (client, resume future (some buf) ∷ [])
    pub value : deserialize_future (result_codec codecs m) empty (some buf) ≡ some r
    pub returned :
        (remote_method requests codecs bsid m c future args empty).1 (some buf)
        ≡ some (proxy_value m r)
    pub waits_no_more : waits c.req_id client ≡ 0

  task_of_method :
      (bsid : ℕ) (m : Method) (server : OrdMap Bytes Method) (id : ℕ) (packed : Bytes)
      → bsid < 2 ^ 64
      → task_of (store_server bsid server) (id, make_string (word m) bsid, packed)
        ≡ run_function id m packed
  unfolding task_of store_server
  task_of_method bsid m server id packed small =
      rw (register_remote_block_store_self same_method bsid m server small, task_of) refl

  -- Where the bound function of a method succeeds on the store with the result `r`, the future of the
  -- call gets `r`.
  Remote-apply :
      (bsid : ℕ) (m : Method) (server : OrdMap Bytes Method) (c : RpcClient) (future : ℕ)
      (args : Args m) (empty : Result m) (disk disk' : Disk os) (r : Result m)
      (sent answer : List Bytes)
      → bsid < 2 ^ 64
      → c.pac ≡ []
      → apply os m disk args ≡ some (disk', r)
      → (remote_call requests codecs bsid m c future args).1 ≡ write (concat sent) ∷ []
      → concat answer ≡ response_callback responses c.req_id ((result_codec codecs m).pack r)
      → Remote bsid m server c future args empty disk disk' r sent answer
  unfolding remote_call remote_method run_method response_callback deserialize_future
  Remote-apply bsid m server c future args empty disk disk' r sent answer small clear runs sends
        answers =
      let arguments = args_codec codecs m in
      let result = result_codec codecs m in
      let name = make_string (word m) bsid in
      let packed = arguments.pack args in
      let (client, resumed, done) =
        answered requests responses arguments c future name args (result.pack r) answer clear
          answers in
      record {
        received =
            delivered requests arguments c future name args (store_server bsid server) sent sends
            ∙ rw (task_of_method bsid m server c.req_id packed small) refl;
        ran = simp (run_method, arguments.unpack-pack args, runs, answers);
        client = client;
        buf = result.pack r;
        resumed = resumed;
        value = result.unpack-pack r;
        returned = simp (remote_method, result.unpack-pack r, deserialize_future);
        waits_no_more = done;
      }

  -- What a caller of the proxy sees of what the method of the store returns.
  abbrev pub seen : (m : Method) → Returned m → Returned m
  seen call_put_block v = v
  seen call_get_block v = v
  seen call_remove_block v = v
  seen call_block_size v = v
  seen call_num_free_blocks v = v
  seen call_num_total_blocks v = v
  seen call_bloomfilter v = new_filter

  -- The method of the store, with its result as the proxy makes it of the answer.
  pub Returns : (m : Method) → Disk os → Args m → Disk os → Result m → Type 0
  Returns m disk args disk' r =
      (v : Returned m) × (store_method os m disk args ≡ some (disk', v))
      × (proxy_value m r ≡ seen m v)

  located_of :
      (w : os.World) (s : FileBlockStore) (key : Bytes) {found : os.World × Option Bytes}
      → get_block os w s key ≡ some found
      → (full : Bytes) × (get_fullpath s.path key ≡ some full)
  unfolding get_block
  located_of w s key runs = elim (Option-cases (get_fullpath s.path key)) [
    | inl nowhere ↦ absurd (ground (arith, rw (nowhere, get_block) at runs))
    | inr there ↦ there
  ]

  get_block-Returns :
      (w : os.World) (s : FileBlockStore) (key : Bytes) (disk' : Disk os) (r : Bytes)
      → apply os call_get_block (w, s) key ≡ some (disk', r)
      → Returns call_get_block (w, s) key disk' r
  unfolding apply store_method proxy_value Returns
  get_block-Returns w s key disk' r runs = elim (Option-cases (get_block os w s key)) [
    | inl fault ↦ absurd (ground (arith, rw fault at runs))
    | inr ((w', block), got) ↦
        let same = some_inj (rw got at runs) in
        let kept : (w', s) ≡ disk' = ap (λ p. p.0) same in
        let answers : answer_block block ≡ r = ap (λ p. p.1) same in
        let (full, located) = located_of w s key got in
        (
          block,
          rw (got, ← kept) refl,
          rw (← answers) (get_block_helper-get_block os w s key full located got),
        )
  ]

  bloomfilter-Returns :
      (w : os.World) (s : FileBlockStore) (disk' : Disk os) (r : Bytes)
      → apply os call_bloomfilter (w, s) tt ≡ some (disk', r)
      → Returns call_bloomfilter (w, s) tt disk' r
  unfolding apply store_method proxy_value Returns bloomfilter_helper
  bloomfilter-Returns w s disk' r runs = elim (Option-cases (answer_filter (bloomfilter s))) [
    | inl fault ↦ absurd (ground (arith, rw fault at runs))
    | inr (answer, serialized) ↦
        let kept : (w, s) ≡ disk' = ap (λ p. p.0) (some_inj (rw serialized at runs)) in
        (bloomfilter s, rw kept refl, refl)
  ]

  apply-Returns :
      (m : Method) (disk disk' : Disk os) (args : Args m) (r : Result m)
      → apply os m disk args ≡ some (disk', r)
      → Returns m disk args disk' r
  unfolding apply store_method proxy_value Returns
  apply-Returns call_put_block (w, s) disk' (key, content) r runs = (r, runs, refl)
  apply-Returns call_get_block (w, s) disk' key r runs = get_block-Returns w s key disk' r runs
  apply-Returns call_remove_block (w, s) disk' key r runs = (r, runs, refl)
  apply-Returns call_block_size (w, s) disk' args r runs = (r, runs, refl)
  apply-Returns call_num_free_blocks (w, s) disk' args r runs = (r, runs, refl)
  apply-Returns call_num_total_blocks (w, s) disk' args r runs = (r, runs, refl)
  apply-Returns call_bloomfilter (w, s) disk' args r runs = bloomfilter-Returns w s disk' r runs

  -- For each of the seven methods, where the function that is bound to it succeeds on the store with
  -- the result `r`: however the bytes of a call by a proxy with an empty buffer are cut on their way
  -- to a server where the store is registered under its id, which is below 2^64, the server makes one
  -- task of them; the task does to the store what the method of the store does and writes the answer;
  -- and however the answer is cut on its way back, the future of the proxy's method gets what the
  -- method of the store returns, or an empty filter where the method is `bloomfilter`, and the call
  -- waits no more.
  pub remote_call_lem :
      (bsid : ℕ) (m : Method) (server : OrdMap Bytes Method) (c : RpcClient) (future : ℕ)
      (args : Args m) (empty : Result m) (disk disk' : Disk os) (r : Result m)
      (sent answer : List Bytes)
      → bsid < 2 ^ 64
      → c.pac ≡ []
      → apply os m disk args ≡ some (disk', r)
      → (remote_method requests codecs bsid m c future args empty).0.1 ≡ write (concat sent) ∷ []
      → concat answer ≡ response_callback responses c.req_id ((result_codec codecs m).pack r)
      → Remote bsid m server c future args empty disk disk' r sent answer
        × Returns m disk args disk' r
  unfolding remote_method
  remote_call_lem bsid m server c future args empty disk disk' r sent answer small clear runs sends
        answers =
      (
        Remote-apply bsid m server c future args empty disk disk' r sent answer small clear runs
            sends answers,
        apply-Returns m disk disk' args r runs,
      )

  -- A block that was stored is read back through the proxy: where `putBlock` of a valid store
  -- returned `true` and the file can be opened again, a remote `getBlock` of the same key gets the
  -- bytes that were stored, with both streams cut in any way, and the proxy makes the same block of
  -- them.
  pub Remote-get-put :
      (bsid : ℕ) (server : OrdMap Bytes Method) (c : RpcClient) (future : ℕ) (w : os.World)
      (s : FileBlockStore) (key content full empty : Bytes) (w' : os.World) (s' : FileBlockStore)
      (sent answer : List Bytes)
      → bsid < 2 ^ 64
      → c.pac ≡ []
      → IsStore s
      → get_fullpath s.path key ≡ some full
      → put_block os w s key content ≡ some (w', s', true)
      → (os.open_read w' (c_str full)).1 ≡ true
      → (remote_call requests codecs bsid call_get_block c future key).1 ≡ write (concat sent) ∷ []
      → concat answer ≡ response_callback responses c.req_id (codecs.bytes.pack content)
      → (w'' : os.World) × Remote bsid call_get_block server c future key empty
          (w', s')
          (w'', s')
          content
          sent
          answer
        × (get_block_helper content ≡ some content)
  unfolding apply answer_block
  Remote-get-put bsid server c future w s key content full empty w' s' sent answer small clear st
        located stored opens sends answers =
      let (w'', got) = get_block-put_block os w s key content full st located stored opens in
      (
        w'',
        Remote-apply bsid call_get_block server c future key empty (w', s') (w'', s') content sent
            answer small clear (simp (apply, got, answer_block)) sends answers,
        get_block_helper-get_block os w' s' key full
            (rw (put_block-true os w s key content full located stored).same_path located) got,
      )
