-- ===== src/ServiceNode/Mesh/Owners.antt =====
-- Convergence of the directories of src/rpc/service_node.cc where each name is changed by one node.
use rawdishfs.Base.Sums.{==-false→ne, ne→==-false}
use rawdishfs.Base.{
  ==_iff, All, Bool-cases, Bytes, List, Option, [], ap, if◌then◌else◌, inl, inr, refl, sym, ℕ, ◌++◌,
  ◌==◌, ◌∙◌, ◌∷◌, ◌≡◌, ◌≢◌,
}
use rawdishfs.Base.Keys.{bytes_key, nat_key}
use rawdishfs.ServiceNode.{Call, count}
use rawdishfs.ServiceNode.Introduction.{calls_to}
use rawdishfs.ServiceNode.Delivery.{answer_call}
use rawdishfs.ServiceNode.Mesh.{
  Mesh, MeshEvent, changes, joins, delivers, post, with_link, mesh_step, run_mesh,
}
use rawdishfs.ServiceNode.Mesh.Entries.{
  entry_after_all, count-answer_call, times, answer_call_peers, links_after_call,
}
use rawdishfs.ServiceNode.Mesh.Ownership.{
  List-cases, take_at_nothing, IsOwned, IsOrderly, AllOrderly, IsOwned-IsChange, entry_of_other,
  IsCurrent, changes-IsCurrent,
}

module _ (owner : Bytes → Bytes → ℕ) (start : Mesh) where
  module _ (i j : ℕ) (c : Call) (rest : List Call) (socket : Option ℕ) (m : Mesh)
      (v : IsCurrent owner start m) (first : m.links i j ≡ c ∷ rest) where
    pub delivered : Mesh
    unfolding answer_call
    delivered = let r = answer_call socket (m.nodes j) c in post j (r.0, r.1) (with_link i j rest m)

    sender_owns : All (IsOwned owner i) (c ∷ rest)
    sender_owns = rw first at (v.owned i j)

    not_itself : i ≢ j
    not_itself e = cons_nil (sym first ∙ rw e (v.alone j))
      where
        cons_nil : c ∷ rest ≡ [] → ⊥
        cons_nil h = cc

    pub link_after :
        (a b : ℕ)
        → (if j == a
            then (with_link i j rest m).links a b ++ calls_to b (answer_call socket (m.nodes j) c).1
            else (with_link i j rest m).links a b)
          ≡ (with_link i j rest m).links a b
    link_after a b =
        links_after_call i j c rest socket m (IsOwned-IsChange owner i c sender_owns.0) a b

    kept_by_call :
        (a : ℕ) (g n : Bytes)
        → owner g n ≡ a
        → i ≢ a
        → (b : ℕ)
        → count g n (if j == b then (answer_call socket (m.nodes j) c).0 else m.nodes b).groups
          ≡ count g n (m.nodes b).groups
    kept_by_call a g n theirs ne b = elim (Bool-cases (j == b)) [
      | inr other ↦ rw other refl
      | inl same ↦
          rw (same, ← (==_iff j b).0 same)
            (count-answer_call g n socket (m.nodes j) c
              ∙ entry_of_other owner i a g n c (count g n (m.nodes j).groups) sender_owns.0 theirs
                  ne)
    ]

    receiver :
        (g n : Bytes)
        → owner g n ≡ i
        → times j (start.nodes i).peers ≡ 1
        → entry_after_all g n rest (count g n (answer_call socket (m.nodes j) c).0.groups)
          ≡ count g n (m.nodes i).groups
    unfolding entry_after_all
    receiver g n mine linked =
        ap (entry_after_all g n rest) (count-answer_call g n socket (m.nodes j) c)
        ∙ rw first at (v.current i j g n mine not_itself linked)

    pub delivers-IsCurrent : IsCurrent owner start delivered
    unfolding delivered
    delivers-IsCurrent = record {
      owned = λ a b. rw (link_after a b) (elim (Bool-cases (i == a)) [
        | inr other ↦ rw other (v.owned a b)
        | inl same ↦ elim (Bool-cases (j == b)) [
          | inr away ↦ rw (same, away) (v.owned a b)
          | inl here ↦ rw (same, here, ← (==_iff i a).0 same) (sender_owns.1)
        ]
      ]);
      alone = λ a. rw (link_after a a) (elim (Bool-cases (i == a)) [
        | inr other ↦ rw other (v.alone a)
        | inl same ↦
            let away = ne→==-false j a (λ here. not_itself ((==_iff i a).0 same ∙ sym here)) in
            rw (same, away) (v.alone a)
      ]);
      peers = λ a. elim (Bool-cases (j == a)) [
        | inr other ↦ rw other (v.peers a)
        | inl same ↦
            rw
              (
                same,
                (answer_call_peers a socket (m.nodes j) c
                    (IsOwned-IsChange owner i c sender_owns.0)).1,
                (==_iff j a).0 same,
              )
              (v.peers a)
      ];
      current = λ a b g n theirs ne linked. rw (link_after a b) (elim (Bool-cases (i == a)) [
        | inr other ↦
            let gone = ==-false→ne i a other in
            rw (other, kept_by_call a g n theirs gone b, kept_by_call a g n theirs gone a)
              (v.current a b g n theirs ne linked)
        | inl same ↦
            let e = (==_iff i a).0 same in
            let still = ne→==-false j a (λ here. not_itself (e ∙ sym here)) in
            elim (Bool-cases (j == b)) [
              | inr away ↦ rw (same, away, still) (v.current a b g n theirs ne linked)
              | inl here ↦
                  rw (same, here, still, ← e)
                    (receiver g n (theirs ∙ sym e) (rw (← e, ← (==_iff j b).0 here) at linked))
            ]
      ]);
    }

  pub mesh_step-IsCurrent :
      (e : MeshEvent) (m : Mesh)
      → ((i : ℕ) → times i (start.nodes i).peers ≡ 0)
      → IsOrderly owner e m
      → IsCurrent owner start m
      → IsCurrent owner start (mesh_step e m)
  unfolding mesh_step
  mesh_step-IsCurrent (changes i c) m not_self (own, there) v =
      changes-IsCurrent owner start i c m own there v not_self
  mesh_step-IsCurrent (joins i host port socket) m not_self orderly v = elim orderly [ ]
  mesh_step-IsCurrent (delivers i j k socket) m not_self first v = elim (List-cases (m.links i j)) [
    | inl nothing ↦ simp (mesh_step, nothing, take_at_nothing k) v
    | inr (c, rest, there) ↦
        simp (mesh_step, first, there)
          (unfold delivered in delivers-IsCurrent i j c rest socket m v there)
  ]

  pub run_mesh-IsCurrent :
      (es : List MeshEvent) (m : Mesh)
      → ((i : ℕ) → times i (start.nodes i).peers ≡ 0)
      → AllOrderly owner es m
      → IsCurrent owner start m
      → IsCurrent owner start (run_mesh es m)
  unfolding run_mesh AllOrderly
  run_mesh-IsCurrent [] m not_self orderly v = v
  run_mesh-IsCurrent (e ∷ es) m not_self orderly v =
      run_mesh-IsCurrent es (mesh_step e m) not_self orderly.1
        (mesh_step-IsCurrent e m not_self orderly.0 v)

-- Nothing is on its way, no node is a peer of itself, and a peer of the owner of an entry agrees with
-- it on that entry.
pub record IsStart (owner : Bytes → Bytes → ℕ) (m : Mesh) : Type 0 where
  pub quiet : (i j : ℕ) → m.links i j ≡ []
  pub not_self : (i : ℕ) → times i (m.nodes i).peers ≡ 0
  pub agreed :
      (i j : ℕ) (g n : Bytes)
      → owner g n ≡ i
      → times j (m.nodes i).peers ≡ 1
      → count g n (m.nodes j).groups ≡ count g n (m.nodes i).groups

pub IsStart-IsCurrent :
    (owner : Bytes → Bytes → ℕ) (m : Mesh) → IsStart owner m → IsCurrent owner m m
unfolding entry_after_all
IsStart-IsCurrent owner m starts = record {
  owned = λ a b. rw (starts.quiet a b) tt;
  alone = λ a. starts.quiet a a;
  peers = λ a. refl;
  current =
      λ a b h k theirs away joined. rw (starts.quiet a b) (starts.agreed a b h k theirs joined);
}

-- The copies of a name follow its owner, however the events of different nodes and connections
-- interleave: in a mesh that begins with no call on its way and with peers that have the owners'
-- counts, where no node is its own peer and none is added, each name is changed by the node that owns
-- it alone and is a member when it is removed, and the calls of each connection are carried out in
-- order, a peer with one connection from the owner, to which nothing is on its way from it, has the
-- owner's count of the name.
pub run_mesh-agreed :
    (owner : Bytes → Bytes → ℕ) (m : Mesh) (es : List MeshEvent) (i j : ℕ) (g n : Bytes)
    → IsStart owner m
    → AllOrderly owner es m
    → owner g n ≡ i
    → i ≢ j
    → times j (m.nodes i).peers ≡ 1
    → (run_mesh es m).links i j ≡ []
    → count g n ((run_mesh es m).nodes j).groups ≡ count g n ((run_mesh es m).nodes i).groups
unfolding entry_after_all
run_mesh-agreed owner m es i j g n starts orderly mine ne linked quiet =
    let v =
      run_mesh-IsCurrent owner m es m starts.not_self orderly (IsStart-IsCurrent owner m starts) in
    rw quiet at (v.current i j g n mine ne linked)
