-- ===== src/ServiceNode/Mesh/Totals.antt =====
-- The counts of src/rpc/service_node.cc where any node adds any name.
use rawdishfs.Base.Sums.{==-false→ne, ne→==-false, sum_below_change, sum_below_same, sum_below_zero}
use rawdishfs.Base.{
  ==_iff, All, Bool-cases, Bytes, List, Option, Option-cases, [], ap, arith, inl, inr, ltb, ltb→lt,
  none, refl, some, sym, ℕ, ◌+◌, ◌<◌, ◌==◌, ◌∙◌, ◌∷◌, ◌≡◌, ◌≢◌, ◌^◌,
}
use mathlib.Core.Path.{subst}
use rawdishfs.Base.Keys.{bytes_key, nat_key, eqb_refl}
use rawdishfs.ServiceNode.{Call, call_add_to_group, count}
use rawdishfs.ServiceNode.Replicas.{add, remove, call_of}
use rawdishfs.ServiceNode.Delivery.{answer_call}
use rawdishfs.ServiceNode.Mesh.{
  Mesh, MeshEvent, changes, joins, delivers, change_by, post, take_at, with_link, mesh_step,
  run_mesh,
}
use rawdishfs.ServiceNode.Mesh.Ownership.{take_at_nothing}
use rawdishfs.ServiceNode.Mesh.Entries.{
  count-answer_call, times, answer_call_peers, links_after_call,
}
use rawdishfs.ServiceNode.Mesh.Loads.{
  entry_of, added_times-entry_of, weight, load, IsAdd, IsAdd-IsChange, load-take_at, added_times,
  entry_after-added_times, adds,
}
use rawdishfs.ServiceNode.Mesh.Counting.{on_way, IsCounted, changes-IsCounted}

-- Only the first `size` nodes change the directory, nothing is removed and no peer is added.
abbrev pub AddsBelow : ℕ → List MeshEvent → Type 0
AddsBelow size [] = Unit
AddsBelow size (changes i (add g n) ∷ es) = (i < size) × AddsBelow size es
AddsBelow size (changes i (remove g n) ∷ es) = ⊥
AddsBelow size (joins i host port socket ∷ es) = ⊥
AddsBelow size (delivers i j k socket ∷ es) = AddsBelow size es

module _ (size : ℕ) (start : Mesh) (g n : Bytes) where
  module _ (i j p : ℕ) (c : Call) (rest : List Call) (socket : Option ℕ) (m : Mesh) (total : ℕ)
      (v : IsCounted size start g n m total)
      (there : take_at p (m.links i j) ≡ some (c, rest)) where
    call-IsAdd : IsAdd c × All IsAdd rest
    call-IsAdd = (load-take_at g n p (m.links i j) c rest there).1 (v.adds_only i j)

    sender_inside : i < size
    sender_inside = elim (Bool-cases (ltb i size)) [
      | inl below ↦ ltb→lt i size below
      | inr far ↦
          absurd
            (some_none (sym there ∙ rw (v.outside i j (ground (arith, far))) (take_at_nothing p)))
    ]
      where
        some_none : {A : Type 0} {a : A} → some a ≡ none → ⊥
        some_none e = cc

    delivered : Mesh
    delivered = let r = answer_call socket (m.nodes j) c in post j (r.0, r.1) (with_link i j rest m)

    link_after : (a b : ℕ) → delivered.links a b ≡ (with_link i j rest m).links a b
    unfolding delivered
    link_after a b = links_after_call i j c rest socket m (IsAdd-IsChange c call-IsAdd.0) a b

    on_way_self : weight g n c + on_way size start g n j delivered ≡ on_way size start g n j m
    unfolding on_way
    on_way_self =
        let new = λ (a : ℕ). load g n (delivered.links a j) in
        let old = λ (a : ℕ). load g n (m.links a j) in
        let at_i : new i ≡ load g n rest = rw (link_after i j, eqb_refl i, eqb_refl j) refl in
        omega (
          arith,
          at_i,
          (load-take_at g n p (m.links i j) c rest there).0,
          sum_below_change size i new old sender_inside
              (λ a away. rw (link_after a j, ne→==-false i a away) refl),
        )

    on_way-others : (b : ℕ) → j ≢ b → on_way size start g n b delivered ≡ on_way size start g n b m
    unfolding on_way
    on_way-others b ne =
        sum_below_same size (λ a. load g n (delivered.links a b)) (λ a. load g n (m.links a b))
          (λ a below. ap (load g n) (
            link_after a b ∙ elim (Bool-cases (i == a)) [
              | inl same ↦ rw (same, ne→==-false j b ne) refl
              | inr other ↦ rw other refl
            ]))

    counted_receiver :
        j < size
        → (k : ℕ) × (count g n (answer_call socket (m.nodes j) c).0.groups ≡ added_times k)
          × (k + on_way size start g n j delivered ≡ total)
    counted_receiver below =
        let (k, holds, sums) = v.counted j below in
        (
          weight g n c + k,
          count-answer_call g n socket (m.nodes j) c
              ∙ rw holds (entry_after-added_times g n c k call-IsAdd.0),
          omega (arith, sums, on_way_self),
        )

    delivers-IsCounted : IsCounted size start g n delivered total
    delivers-IsCounted = record {
      adds_only = λ a b. rw (link_after a b) (elim (Bool-cases (i == a)) [
        | inr other ↦ rw other (v.adds_only a b)
        | inl same ↦ elim (Bool-cases (j == b)) [
          | inr away ↦ rw (same, away) (v.adds_only a b)
          | inl here ↦ rw (same, here) (call-IsAdd.1)
        ]
      ]);
      peers = λ a.
          unfold delivered in
          elim (Bool-cases (j == a)) [
            | inr other ↦ rw other (v.peers a)
            | inl same ↦
                rw
                  (
                    same,
                    (answer_call_peers a socket (m.nodes j) c (IsAdd-IsChange c call-IsAdd.0)).1,
                    (==_iff j a).0 same,
                  )
                  (v.peers a)
          ];
      outside = λ a b far.
          rw (link_after a b, ne→==-false i a (λ e. omega (arith, e, far, sender_inside)))
            (v.outside a b far);
      counted = λ b below. elim (Bool-cases (j == b)) [
        | inl same ↦
            let e = (==_iff j b).0 same in
            subst
              (λ x.
                (k : ℕ) × (count g n (delivered.nodes x).groups ≡ added_times k)
                × (k + on_way size start g n x delivered ≡ total))
              e (unfold delivered in rw (eqb_refl j) (counted_receiver (rw (← e) at below)))
        | inr other ↦
            let (k, holds, sums) = v.counted b below in
            (
              k,
              unfold delivered in rw other holds,
              rw (on_way-others b (==-false→ne j b other)) sums,
            )
      ];
    }

  mesh_step-IsCounted :
      (i j k : ℕ) (socket : Option ℕ) (m : Mesh) (total : ℕ)
      → IsCounted size start g n m total
      → IsCounted size start g n (mesh_step (delivers i j k socket) m) total
  unfolding mesh_step
  mesh_step-IsCounted i j k socket m total v = elim (Option-cases (take_at k (m.links i j))) [
    | inl nothing ↦ simp (mesh_step, nothing) v
    | inr ((c, rest), there) ↦
        simp (mesh_step, there)
          (unfold delivered in delivers-IsCounted i j k c rest socket m total v there)
  ]

  module _ (not_self : (i : ℕ) → i < size → times i (start.nodes i).peers ≡ 0)
      (full : (i j : ℕ) → i < size → j < size → i ≢ j → times j (start.nodes i).peers ≡ 1) where
    run_mesh-IsCounted :
        (es : List MeshEvent) (m : Mesh) (total : ℕ)
        → AddsBelow size es
        → IsCounted size start g n m total
        → IsCounted size start g n (run_mesh es m) (adds g n es + total)
    unfolding run_mesh mesh_step adds change_by call_of
    run_mesh-IsCounted [] m total below v = subst (IsCounted size start g n m) (omega arith) v
    run_mesh-IsCounted (changes i (add h k) ∷ es) m total below v =
        let more = weight g n (call_add_to_group h k) in
        let m' = post i (change_by (m.nodes i) (add h k)) m in
        subst (IsCounted size start g n (run_mesh es m')) (omega arith) (
          run_mesh-IsCounted es m' (more + total) below.1
            (changes-IsCounted size start g n i h k m total below.0 v not_self full))
    run_mesh-IsCounted (changes i (remove h k) ∷ es) m total below v = elim below [ ]
    run_mesh-IsCounted (joins i host port socket ∷ es) m total below v = elim below [ ]
    run_mesh-IsCounted (delivers i j k socket ∷ es) m total below v =
        run_mesh-IsCounted es (mesh_step (delivers i j k socket) m) total below
          (mesh_step-IsCounted i j k socket m total v)

-- A mesh of the first nodes, each of which has one connection to each other, where nothing is on its
-- way and no entry has been made for a name.
pub record IsFullMesh (size : ℕ) (m : Mesh) (g n : Bytes) : Type 0 where
  pub quiet : (i j : ℕ) → m.links i j ≡ []
  pub not_self : (i : ℕ) → i < size → times i (m.nodes i).peers ≡ 0
  pub full : (i j : ℕ) → i < size → j < size → i ≢ j → times j (m.nodes i).peers ≡ 1
  pub unknown : (i : ℕ) → i < size → count g n (m.nodes i).groups ≡ none

-- Where the nodes of a full mesh, which begin with no entry for a name and with no call on its way,
-- add names, remove none and are given no further peer, in any order of the events and of the calls of
-- each connection, every node to which no call is on its way has the number of all additions of the
-- name by all nodes, which is below 2^31, as its count, and no entry where there was none.
pub run_mesh-adds :
    (size : ℕ) (m : Mesh) (g n : Bytes) (es : List MeshEvent) (j : ℕ)
    → IsFullMesh size m g n
    → AddsBelow size es
    → j < size
    → ((i : ℕ) → i < size → (run_mesh es m).links i j ≡ [])
    → adds g n es < 2 ^ 31
    → count g n ((run_mesh es m).nodes j).groups ≡ entry_of (adds g n es)
unfolding load added_times on_way
run_mesh-adds size m g n es j mesh only below quiet small =
    let first : IsCounted size m g n m 0 = record {
      adds_only = λ a b. rw (mesh.quiet a b) tt;
      peers = λ a. refl;
      outside = λ a b far. mesh.quiet a b;
      counted = λ b inside. (
        0,
        mesh.unknown b inside,
        omega (
          arith,
          sum_below_zero size (λ i. load g n (m.links i b))
              (λ i inside. ap (load g n) (mesh.quiet i b)),
        ),
      );
    } in
    let (k, holds, sums) =
      (run_mesh-IsCounted size m g n mesh.not_self mesh.full es m 0 only first).counted j below in
    let nothing =
      sum_below_zero size (λ i. load g n ((run_mesh es m).links i j))
        (λ i inside. ap (load g n) (quiet i inside)) in
    let all : k ≡ adds g n es = omega (arith, sums, nothing) in
    (rw all at holds) ∙ added_times-entry_of (adds g n es) small
