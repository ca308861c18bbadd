-- ===== src/ServiceNode/Mesh/Ownership.antt =====
-- Who changes which entry of the directories of src/rpc/service_node.cc, and what a change by the
-- owner keeps.
use rawdishfs.Base.Sums.{==-false→ne, ne→==-false}
use rawdishfs.Base.{
  ==_iff, All, All-append, All-replicate, Bool-cases, Bytes, List, Option, [], ap, arith, false,
  if◌then◌else◌, inl, inr, none, refl, replicate, sym, ℕ, ◌++◌, ◌==◌, ◌∙◌, ◌∷◌, ◌≡◌, ◌≢◌, ◌⊎◌,
}
use rawdishfs.Base.Keys.{bytes_key, bytes_eqb_iff, nat_key}
use rawdishfs.Base.Int.{ℤ}
use rawdishfs.ServiceNode.{Call, call_add_peer, call_add_to_group, call_remove_from_group, count}
use rawdishfs.ServiceNode.Groups.{is_entry}
use rawdishfs.ServiceNode.Replicas.{Change, call_of}
use rawdishfs.ServiceNode.Introduction.{calls_to}
use rawdishfs.ServiceNode.Mesh.{
  Mesh, MeshEvent, changes, joins, delivers, change_by, post, take_at, mesh_step,
}
use rawdishfs.ServiceNode.Mesh.Entries.{
  entry_after, entry_after_all, entry_after_all-append, RemovesMember, count-change_by, times,
  change_by_peers, IsChange,
}

pub List-cases : (cs : List Call) → (cs ≡ []) ⊎ ((c : Call) × (rest : List Call) × (cs ≡ c ∷ rest))
List-cases [] = inl refl
List-cases (c ∷ rest) = inr (c, rest, refl)

pub take_at_nothing : (k : ℕ) → take_at k [] ≡ none
unfolding take_at
take_at_nothing k = refl

-- A call changes an entry that a node owns.
abbrev pub IsOwned : (Bytes → Bytes → ℕ) → ℕ → Call → Type 0
IsOwned owner i (call_add_to_group g n) = owner g n ≡ i
IsOwned owner i (call_remove_from_group g n) = owner g n ≡ i
IsOwned owner i (call_add_peer host port) = ⊥

-- Each node changes what it owns, and removes members only; the calls of a connection are carried
-- out in order, and no peer is added.
abbrev pub IsOrderly : (Bytes → Bytes → ℕ) → MeshEvent → Mesh → Type 0
IsOrderly owner (changes i c) m = IsOwned owner i (call_of c) × RemovesMember (m.nodes i) c
IsOrderly owner (joins i host port socket) m = ⊥
IsOrderly owner (delivers i j k socket) m = k ≡ 0

unfoldable pub AllOrderly : (Bytes → Bytes → ℕ) → List MeshEvent → Mesh → Type 0
unfolding mesh_step
AllOrderly owner [] m = Unit
AllOrderly owner (e ∷ es) m = IsOrderly owner e m × AllOrderly owner es (mesh_step e m)

pub IsOwned-IsChange :
    (owner : Bytes → Bytes → ℕ) (i : ℕ) (c : Call) → IsOwned owner i c → IsChange c
IsOwned-IsChange owner i (call_add_to_group g n) own = tt
IsOwned-IsChange owner i (call_remove_from_group g n) own = tt
IsOwned-IsChange owner i (call_add_peer host port) own = elim own [ ]

-- A call leaves the entries of other nodes as they are.
pub entry_of_other :
    (owner : Bytes → Bytes → ℕ) (i j : ℕ) (g n : Bytes) (c : Call) (o : Option ℤ)
    → IsOwned owner i c
    → owner g n ≡ j
    → i ≢ j
    → entry_after g n c o ≡ o
entry_of_other owner i j g n c o own own' ne = go c own
  where
    away : (h k : Bytes) → owner h k ≡ i → is_entry h k g n ≡ false
    away h k e = elim (Bool-cases (is_entry h k g n)) [
      | inl same ↦ absurd (
          ne (
            sym e
            ∙ rw ((bytes_eqb_iff h g).0 (ground arith), (bytes_eqb_iff k n).0 (ground arith)) own'))
      | inr other ↦ other
    ]

    go : (c : Call) → IsOwned owner i c → entry_after g n c o ≡ o
    go (call_add_to_group h k) e = rw (away h k e) refl
    go (call_remove_from_group h k) e = rw (away h k e) refl
    go (call_add_peer host port) e = elim e [ ]

module _ (owner : Bytes → Bytes → ℕ) (start : Mesh) where
  -- What is on its way to a peer makes the entries of the sender of those of the peer.
  pub record IsCurrent (m : Mesh) : Type 0 where
    pub owned : (i j : ℕ) → All (IsOwned owner i) (m.links i j)
    pub alone : (i : ℕ) → m.links i i ≡ []
    pub peers : (i : ℕ) → (m.nodes i).peers ≡ (start.nodes i).peers
    pub current :
        (i j : ℕ) (g n : Bytes)
        → owner g n ≡ i
        → i ≢ j
        → times j (start.nodes i).peers ≡ 1
        → entry_after_all g n (m.links i j) (count g n (m.nodes j).groups)
          ≡ count g n (m.nodes i).groups

  module _ (i : ℕ) (c : Change) (m : Mesh) (own : IsOwned owner i (call_of c))
      (there : RemovesMember (m.nodes i) c) (v : IsCurrent m) where
    -- The sender and what it sends.
    current_own :
        (j : ℕ) (g n : Bytes)
        → owner g n ≡ i
        → i ≢ j
        → times j (start.nodes i).peers ≡ 1
        → entry_after_all g n
            (m.links i j ++ calls_to j (change_by (m.nodes i) c).1)
            (count g n (m.nodes j).groups)
          ≡ count g n (change_by (m.nodes i) c).0.groups
    unfolding entry_after_all
    current_own j g n mine ne linked =
        let once : times j (m.nodes i).peers ≡ 1 = rw (v.peers i) linked in
        let sent : calls_to j (change_by (m.nodes i) c).1 ≡ call_of c ∷ [] =
          (change_by_peers j (m.nodes i) c).0 ∙ rw once refl in
        rw sent (
          entry_after_all-append g n (m.links i j) (call_of c ∷ []) (count g n (m.nodes j).groups)
          ∙ ap (entry_after g n (call_of c)) (v.current i j g n mine ne linked)
          ∙ sym (count-change_by g n (m.nodes i) c there))

    -- The entries of another node.
    kept_by_change :
        (a : ℕ) (g n : Bytes)
        → owner g n ≡ a
        → i ≢ a
        → (b : ℕ)
        → count g n (if i == b then (change_by (m.nodes i) c).0 else m.nodes b).groups
          ≡ count g n (m.nodes b).groups
    kept_by_change a g n theirs ne b = elim (Bool-cases (i == b)) [
      | inr other ↦ rw other refl
      | inl same ↦
          rw (same, ← (==_iff i b).0 same)
            (count-change_by g n (m.nodes i) c there
              ∙ entry_of_other owner i a g n (call_of c) (count g n (m.nodes i).groups) own theirs
                  ne)
    ]

    pub changes-IsCurrent :
        ((i : ℕ) → times i (start.nodes i).peers ≡ 0)
        → IsCurrent (post i (change_by (m.nodes i) c) m)
    changes-IsCurrent not_self = record {
      owned = λ a b. elim (Bool-cases (i == a)) [
        | inr other ↦ rw other (v.owned a b)
        | inl same ↦
            rw (same, (change_by_peers b (m.nodes i) c).0)
              (All-append (IsOwned owner a) (m.links a b)
                (replicate (times b (m.nodes i).peers) (call_of c)) (v.owned a b)
                (All-replicate (IsOwned owner a) (times b (m.nodes i).peers) (call_of c)
                  (rw ((==_iff i a).0 same) at own)))
      ];
      alone = λ a. elim (Bool-cases (i == a)) [
        | inr other ↦ rw other (v.alone a)
        | inl same ↦
            rw
              (
                same,
                v.alone a,
                (change_by_peers a (m.nodes i) c).0,
                (==_iff i a).0 same,
                v.peers a,
                not_self a,
              )
              refl
      ];
      peers = λ a. elim (Bool-cases (i == a)) [
        | inr other ↦ rw other (v.peers a)
        | inl same ↦ rw (same, (change_by_peers a (m.nodes i) c).1, (==_iff i a).0 same) (v.peers a)
      ];
      current = λ a b g n theirs ne linked. elim (Bool-cases (i == a)) [
        | inl same ↦
            let e = (==_iff i a).0 same in
            let away = ne→==-false i b (λ here. ne (sym e ∙ here)) in
            rw (same, away, ← e)
              (current_own b g n (theirs ∙ sym e) (λ here. ne (sym e ∙ here)) (rw (← e) at linked))
        | inr other ↦
            rw (other, kept_by_change a g n theirs (==-false→ne i a other) b)
              (v.current a b g n theirs ne linked)
      ];
    }
