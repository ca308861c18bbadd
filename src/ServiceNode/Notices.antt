-- ===== src/ServiceNode/Notices.antt =====
-- What the methods of src/rpc/service_node.cc tell each peer and each callback.
use rawdishfs.Base.{
  Bool, Bool-cases, Bytes, List, Option, [], ap, false, if◌then◌else◌, inl, inr, map, none, not,
  refl, replicate, some, suc, true, ℕ, ◌++◌, ◌==◌, ◌∙◌, ◌∷◌, ◌≡◌,
}
use rawdishfs.Base.Keys.{Address, bytes_key, address_key, nat_key}
use rawdishfs.Base.OrdMap.{OrdMap, lookup}
use rawdishfs.Base.Int.{ℤ, pos, negsuc, inc, is_one}
use rawdishfs.ServiceNode.{
  Internal, Effect, send, notify, Call, call_add_to_group, call_remove_from_group, or_empty, count,
  callbacks_of, notify_all, send_all, add_member, drop_member, add_to_group, rpc_add_to_group,
  remove_from_group, rpc_remove_from_group,
}
use rawdishfs.ServiceNode.Events.{
  is_member, after_add, after_rpc_add, after_remove, after_rpc_remove,
}
use rawdishfs.ServiceNode.Groups.{added, removed, rpc_removed}
use rawdishfs.ServiceNode.Replicas.{add, call_of}
use rawdishfs.ServiceNode.Introduction.{calls_to}
use rawdishfs.ServiceNode.Delivery.{answer_call}
use rawdishfs.ServiceNode.Mesh.{change_by}
use rawdishfs.ServiceNode.Mesh.Entries.{times, change_by_peers, answer_call_peers}

-- What a callback is told, in order: the names, and whether each came or left.
unfoldable pub told : ℕ → List Effect → List (Bytes × Bool)
told cb [] = []
told cb (send c call ∷ es) = told cb es
told cb (notify d n came ∷ es) = let rest = told cb es in if d == cb then (n, came) ∷ rest else rest

unfoldable pub occurrences : ℕ → List ℕ → ℕ
occurrences cb [] = 0
occurrences cb (d ∷ ds) = let rest = occurrences cb ds in if d == cb then suc rest else rest

-- How often a callback is registered for a group.
abbrev pub registered : ℕ → Internal → Bytes → ℕ
registered cb s g = occurrences cb (or_empty (lookup g s.group_callbacks))

pub told-append : (cb : ℕ) (es fs : List Effect) → told cb (es ++ fs) ≡ told cb es ++ told cb fs
unfolding told
told-append cb [] fs = refl
told-append cb (send c call ∷ es) fs = told-append cb es fs
told-append cb (notify d n came ∷ es) fs = elim (Bool-cases (d == cb)) [
  | inl same ↦ rw same (ap (◌∷◌ (n, came)) (told-append cb es fs))
  | inr other ↦ rw other (told-append cb es fs)
]

told-send_all : (cb : ℕ) (s : Internal) (c : Call) → told cb (send_all s c) ≡ []
unfolding told send_all
told-send_all cb s c = go s.peers
  where
    go : (peers : OrdMap Address ℕ) → told cb (map (λ p. send p.1 c) peers) ≡ []
    go [] = refl
    go (p ∷ peers) = go peers

told-notify_all :
    (cb : ℕ) (s : Internal) (g n : Bytes) (came : Bool)
    → told cb (notify_all s g n came) ≡ replicate (registered cb s g) (n, came)
unfolding told notify_all callbacks_of occurrences
told-notify_all cb s g n came = go (or_empty (lookup g s.group_callbacks))
  where
    go :
        (cbs : List ℕ)
        → told cb (map (λ d. notify d n came) cbs) ≡ replicate (occurrences cb cbs) (n, came)
    go [] = refl
    go (d ∷ cbs) = elim (Bool-cases (d == cb)) [
      | inl same ↦ rw same (ap (◌∷◌ (n, came)) (go cbs))
      | inr other ↦ rw other (go cbs)
    ]

-- What a callback should be told of a name that comes, or leaves, where it does.
abbrev pub notices : ℕ → Internal → Bytes → Bytes → Bool → Bool → List (Bytes × Bool)
notices cb s g n came changes = if changes then replicate (registered cb s g) (n, came) else []

pub told-add_member :
    (cb : ℕ) (s : Internal) (g n : Bytes) (o : Option ℤ)
    → told cb (add_member s g n o).1 ≡ notices cb s g n true (not (is_member o))
unfolding told add_member
told-add_member cb s g n none = told-notify_all cb s g n true
told-add_member cb s g n (some c) = refl

pub told-drop_member :
    (cb : ℕ) (s : Internal) (g n : Bytes) (c : ℤ)
    → told cb (drop_member s g n c).1 ≡ notices cb s g n false (is_one c)
unfolding told drop_member
told-drop_member cb s g n c = elim (Bool-cases (is_one c)) [
  | inl one ↦ rw one (told-notify_all cb s g n false)
  | inr more ↦ rw more refl
]

-- The calls to the peers tell no callback.
pub told-sent :
    (cb : ℕ) (s : Internal) (c : Call) (es : List Effect)
    → told cb (send_all s c ++ es) ≡ told cb es
told-sent cb s c es =
    told-append cb (send_all s c) es ∙ ap (λ xs. xs ++ told cb es) (told-send_all cb s c)

pub told-add_to_group :
    (cb : ℕ) (s : Internal) (g n : Bytes)
    → told cb (add_to_group s g n).1 ≡ notices cb s g n true (not (is_member (count g n s.groups)))
unfolding add_to_group
told-add_to_group cb s g n =
    told-sent cb s (call_add_to_group g n) (add_member s g n (count g n s.groups)).1
    ∙ told-add_member cb s g n (count g n s.groups)

module _ (s : Internal) (g n : Bytes) (y cb : ℕ) where
  -- `addToGroup` makes one call to each client of a peer, and `RPCAddToGroup` makes none. Both make
  -- the name a member, and tell each callback that is registered for the group of it, once for each
  -- time that it is registered, where the name was not a member before, and nothing where it was.
  pub add_to_group-notices :
      (calls_to y (add_to_group s g n).1 ≡ replicate (times y s.peers) (call_add_to_group g n))
      × (calls_to y (rpc_add_to_group s g n).1 ≡ [])
      × (told cb (add_to_group s g n).1
          ≡ notices cb s g n true (not (is_member (count g n s.groups))))
      × (told cb (rpc_add_to_group s g n).1
          ≡ notices cb s g n true (not (is_member (count g n s.groups))))
      × (is_member (count g n (add_to_group s g n).0.groups) ≡ true)
      × (is_member (count g n (rpc_add_to_group s g n).0.groups) ≡ true)
  unfolding change_by call_of answer_call rpc_add_to_group
  add_to_group-notices = (
    (change_by_peers y s (add g n)).0,
    (answer_call_peers y none s (call_add_to_group g n) tt).0,
    told-add_to_group cb s g n,
    told-add_member cb s g n (count g n s.groups),
    ap is_member (after_add s g n) ∙ added_is_member (count g n s.groups),
    ap is_member (after_rpc_add s g n) ∙ added_is_member (count g n s.groups),
  )
    where
      added_is_member : (o : Option ℤ) → is_member (added o) ≡ true
      added_is_member none = refl
      added_is_member (some c) = refl

-- A node and a peer remove a name that is not in its group, and then add it: no callback of either is
-- told of anything, and the counts are 1 at the node and 0 at the peer. Another removal takes the name
-- out at the node, and leaves it a member at the peer.
pub remove_from_group_missing :
    (s t : Internal) (g n : Bytes) (cb : ℕ)
    → count g n s.groups ≡ none
    → count g n t.groups ≡ none
    → (told cb (remove_from_group s g n).1 ≡ [])
      × (told cb (rpc_remove_from_group t g n).1 ≡ [])
      × (told cb (add_to_group (remove_from_group s g n).0 g n).1 ≡ [])
      × (told cb (rpc_add_to_group (rpc_remove_from_group t g n).0 g n).1 ≡ [])
      × (count g n (add_to_group (remove_from_group s g n).0 g n).0.groups ≡ some (pos 1))
      × (count g n (rpc_add_to_group (rpc_remove_from_group t g n).0 g n).0.groups ≡ some (pos 0))
      × (count g n (remove_from_group (add_to_group (remove_from_group s g n).0 g n).0 g n).0.groups
          ≡ none)
      × (count g n
            (rpc_remove_from_group
              (rpc_add_to_group (rpc_remove_from_group t g n).0 g n).0
              g
              n).0.groups
          ≡ some (pos 0))
unfolding inc remove_from_group rpc_remove_from_group rpc_add_to_group told
remove_from_group_missing s t g n cb new_s new_t =
    let s' = (remove_from_group s g n).0 in
    let t' = (rpc_remove_from_group t g n).0 in
    let removed_s : count g n s'.groups ≡ some (pos 0) = after_remove s g n ∙ ap removed new_s in
    let removed_t : count g n t'.groups ≡ some (negsuc 0) =
      after_rpc_remove t g n ∙ ap rpc_removed new_t in
    let added_s : count g n (add_to_group s' g n).0.groups ≡ some (pos 1) =
      after_add s' g n ∙ ap added removed_s in
    let added_t : count g n (rpc_add_to_group t' g n).0.groups ≡ some (pos 0) =
      after_rpc_add t' g n ∙ ap added removed_t in
    (
      rw (new_s, remove_from_group) (told-send_all cb s (call_remove_from_group g n)),
      rw (new_t, rpc_remove_from_group) refl,
      told-add_to_group cb s' g n ∙ ap (λ o. notices cb s' g n true (not (is_member o))) removed_s,
      told-add_member cb t' g n (count g n t'.groups)
          ∙ ap (λ o. notices cb t' g n true (not (is_member o))) removed_t,
      added_s,
      added_t,
      after_remove (add_to_group s' g n).0 g n ∙ ap removed added_s,
      after_rpc_remove (rpc_add_to_group t' g n).0 g n ∙ ap rpc_removed added_t,
    )
