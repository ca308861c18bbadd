-- ===== src/ServiceNode/Mesh/Entries.antt =====
-- One entry of the directories of src/rpc/service_node.cc under the calls of a mesh, and the calls
-- that a change sends.
use rawdishfs.ServiceNode.{
  callbacks_of, Internal, Effect, send, notify, Call, call_add_peer, call_add_to_group,
  call_remove_from_group, count, notify_all, send_all, add_member, drop_member, add_to_group,
  remove_from_group, rpc_add_to_group, rpc_remove_from_group, remove_missing,
}
use rawdishfs.Base.{
  Bool, Bool-cases, Bytes, List, Option, Option-cases, [], ap, arith, false, if◌then◌else◌, inl,
  inr, map, none, refl, replicate, some, suc, true, ℕ, ◌++◌, ◌==◌, ◌∙◌, ◌∷◌, ◌≡◌,
}
use rawdishfs.Base.Keys.{bytes_key, Address, address_key, bytes_eqb_iff}
use rawdishfs.Base.OrdMap.{OrdMap}
use rawdishfs.Base.Int.{ℤ, is_one}
use mathlib.Core.List.{append-nil}
use rawdishfs.ServiceNode.Groups.{
  is_entry, added, removed, rpc_removed, count-add_to_group, count-remove_from_group,
}
use rawdishfs.ServiceNode.Events.{is_member}
use rawdishfs.ServiceNode.Replicas.{Change, add, remove, call_of, handle}
use rawdishfs.ServiceNode.Introduction.{calls_to, calls_to-append}
use rawdishfs.ServiceNode.Delivery.{answer_call, answer_call-handle}
use rawdishfs.ServiceNode.Mesh.{Mesh, change_by, with_link}

-- What a call makes of the entry for a group and a name.
abbrev pub entry_after : Bytes → Bytes → Call → Option ℤ → Option ℤ
entry_after g n (call_add_to_group h k) o = if is_entry h k g n then added o else o
entry_after g n (call_remove_from_group h k) o = if is_entry h k g n then rpc_removed o else o
entry_after g n (call_add_peer host port) o = o

unfoldable pub entry_after_all : Bytes → Bytes → List Call → Option ℤ → Option ℤ
entry_after_all g n [] o = o
entry_after_all g n (c ∷ cs) o = entry_after_all g n cs (entry_after g n c o)

pub entry_after_all-append :
    (g n : Bytes) (cs ds : List Call) (o : Option ℤ)
    → entry_after_all g n (cs ++ ds) o ≡ entry_after_all g n ds (entry_after_all g n cs o)
unfolding entry_after_all
entry_after_all-append g n [] ds o = refl
entry_after_all-append g n (c ∷ cs) ds o = entry_after_all-append g n cs ds (entry_after g n c o)

same_count :
    (g n h k : Bytes) (s : Internal)
    → is_entry h k g n ≡ true
    → count h k s.groups ≡ count g n s.groups
same_count g n h k s e =
    rw ((bytes_eqb_iff h g).0 (ground arith), (bytes_eqb_iff k n).0 (ground arith)) refl

-- A count that a method changes at one entry.
at_entry :
    (g n h k : Bytes) (s : Internal) (f : Option ℤ → Option ℤ) {o : Option ℤ}
    → o ≡ (if is_entry h k g n then f (count h k s.groups) else count g n s.groups)
    → o ≡ (if is_entry h k g n then f (count g n s.groups) else count g n s.groups)
at_entry g n h k s f e = elim (Bool-cases (is_entry h k g n)) [
  | inl here ↦ rw here (e ∙ rw (here, same_count g n h k s here) refl)
  | inr away ↦ rw away (e ∙ rw away refl)
]

count-handle :
    (g n : Bytes) (s : Internal) (c : Call)
    → count g n (handle s c).groups ≡ entry_after g n c (count g n s.groups)
unfolding handle
count-handle g n s (call_add_to_group h k) =
    at_entry g n h k s added ((count-add_to_group s h k g n).1)
count-handle g n s (call_remove_from_group h k) =
    at_entry g n h k s rpc_removed ((count-remove_from_group s h k g n).1)
count-handle g n s (call_add_peer host port) = refl

pub count-answer_call :
    (g n : Bytes) (socket : Option ℕ) (s : Internal) (c : Call)
    → count g n (answer_call socket s c).0.groups ≡ entry_after g n c (count g n s.groups)
count-answer_call g n socket s c =
    ap (count g n) (answer_call-handle socket s c) ∙ count-handle g n s c

-- A removal is one of a member.
abbrev pub RemovesMember : Internal → Change → Type 0
RemovesMember s (add g n) = Unit
RemovesMember s (remove g n) = is_member (count g n s.groups) ≡ true

-- The node that makes a change has the entry that its call makes of it.
pub count-change_by :
    (g n : Bytes) (s : Internal) (c : Change)
    → RemovesMember s c
    → count g n (change_by s c).0.groups ≡ entry_after g n (call_of c) (count g n s.groups)
unfolding change_by call_of
count-change_by g n s (add h k) there = at_entry g n h k s added ((count-add_to_group s h k g n).0)
count-change_by g n s (remove h k) there =
    at_entry g n h k s rpc_removed
      ((count-remove_from_group s h k g n).0 ∙ rw (removes_alike (count h k s.groups) there) refl)
  where
    removes_alike : (o : Option ℤ) → is_member o ≡ true → removed o ≡ rpc_removed o
    removes_alike none m = cc
    removes_alike (some c) m = refl

-- How many of the peers are connected to a node.
unfoldable pub times : ℕ → OrdMap Address ℕ → ℕ
times j [] = 0
times j ((a, c) ∷ peers) = let rest = times j peers in if c == j then suc rest else rest

calls_to-notify_all :
    (j : ℕ) (s : Internal) (g n : Bytes) (came : Bool) → calls_to j (notify_all s g n came) ≡ []
unfolding notify_all calls_to
calls_to-notify_all j s g n came = go (callbacks_of s g)
  where
    go : (cbs : List ℕ) → calls_to j (map (λ cb. notify cb n came) cbs) ≡ []
    go [] = refl
    go (cb ∷ cbs) = go cbs

calls_to-send_all :
    (j : ℕ) (c : Call) (peers : OrdMap Address ℕ)
    → calls_to j (map (λ p. send p.1 c) peers) ≡ replicate (times j peers) c
unfolding calls_to times
calls_to-send_all j c [] = refl
calls_to-send_all j c ((a, d) ∷ peers) = elim (Bool-cases (d == j)) [
  | inl same ↦ rw same (ap (◌∷◌ c) (calls_to-send_all j c peers))
  | inr other ↦ rw other (calls_to-send_all j c peers)
]

-- Nothing is sent by the membership part of a method.
Silent : Internal → Internal × List Effect → Type 0
Silent s r = ((j : ℕ) → calls_to j r.1 ≡ []) × (r.0.peers ≡ s.peers)

add_member-Silent : (s : Internal) (g n : Bytes) (o : Option ℤ) → Silent s (add_member s g n o)
unfolding add_member calls_to Silent
add_member-Silent s g n none = (λ j. calls_to-notify_all j s g n true, refl)
add_member-Silent s g n (some c) = (λ j. refl, refl)

drop_member-Silent : (s : Internal) (g n : Bytes) (c : ℤ) → Silent s (drop_member s g n c)
unfolding drop_member calls_to Silent
drop_member-Silent s g n c = elim (Bool-cases (is_one c)) [
  | inl one ↦ rw one (λ j. calls_to-notify_all j s g n false, refl)
  | inr more ↦ rw more (λ j. refl, refl)
]

-- The calls to each peer come before a part that sends nothing.
sends_first :
    (j : ℕ) (s : Internal) (c : Call) (es : List Effect)
    → calls_to j es ≡ []
    → calls_to j (send_all s c ++ es) ≡ replicate (times j s.peers) c
unfolding send_all
sends_first j s c es silent =
    calls_to-append j (send_all s c) es
    ∙ rw (silent, calls_to-send_all j c s.peers) (append-nil (replicate (times j s.peers) c))

-- A change sends its call to each peer, and leaves the peers as they are.
pub change_by_peers :
    (j : ℕ) (s : Internal) (c : Change)
    → (calls_to j (change_by s c).1 ≡ replicate (times j s.peers) (call_of c))
      × ((change_by s c).0.peers ≡ s.peers)
unfolding change_by call_of add_to_group remove_from_group Silent send_all remove_missing
change_by_peers j s (add g n) =
    let (silent, peers) = add_member-Silent s g n (count g n s.groups) in
    (sends_first j s (call_add_to_group g n) _ (silent j), ground arith)
change_by_peers j s (remove g n) = elim (Option-cases (count g n s.groups)) [
  | inl e ↦
      rw (e, remove_from_group) (calls_to-send_all j (call_remove_from_group g n) s.peers, refl)
  | inr (c, e) ↦
      let (silent, peers) = drop_member-Silent s g n c in
      rw (e, remove_from_group) (sends_first j s (call_remove_from_group g n) _ (silent j), peers)
]

-- A call that makes a change sends nothing, and leaves the peers as they are.
abbrev pub IsChange : Call → Type 0
IsChange (call_add_to_group g n) = Unit
IsChange (call_remove_from_group g n) = Unit
IsChange (call_add_peer host port) = ⊥

pub answer_call_peers :
    (j : ℕ) (socket : Option ℕ) (s : Internal) (c : Call)
    → IsChange c
    → (calls_to j (answer_call socket s c).1 ≡ []) × ((answer_call socket s c).0.peers ≡ s.peers)
unfolding answer_call rpc_add_to_group rpc_remove_from_group Silent calls_to
answer_call_peers j socket s (call_add_to_group g n) is =
    let (silent, peers) = add_member-Silent s g n (count g n s.groups) in (silent j, peers)
answer_call_peers j socket s (call_remove_from_group g n) is =
    elim (Option-cases (count g n s.groups)) [
      | inl e ↦ rw (e, rpc_remove_from_group) (refl, refl)
      | inr (c, e) ↦
          let (silent, peers) = drop_member-Silent s g n c in
          rw (e, rpc_remove_from_group) (silent j, peers)
    ]
answer_call_peers j socket s (call_add_peer host port) is = absurd is

-- A call that makes a change leaves the links as they are without it.
pub links_after_call :
    (i j : ℕ) (c : Call) (rest : List Call) (socket : Option ℕ) (m : Mesh)
    → IsChange c
    → (a b : ℕ)
    → (if j == a
        then (with_link i j rest m).links a b ++ calls_to b (answer_call socket (m.nodes j) c).1
        else (with_link i j rest m).links a b)
      ≡ (with_link i j rest m).links a b
links_after_call i j c rest socket m is a b = elim (Bool-cases (j == a)) [
  | inr other ↦ rw other refl
  | inl same ↦
      rw (same, (answer_call_peers b socket (m.nodes j) c is).0)
        (append-nil ((with_link i j rest m).links a b))
]
