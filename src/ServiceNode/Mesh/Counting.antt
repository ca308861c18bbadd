-- ===== src/ServiceNode/Mesh/Counting.antt =====
-- What the additions of the nodes of src/rpc/service_node.h keep of the counts and of the calls that
-- are on their way.
use rawdishfs.Base.Sums.{==-false→ne, ne→==-false, sum_below, sum_below_change}
use rawdishfs.Base.{
  ==_iff, All, All-append, All-replicate, Bool-cases, Bytes, List, [], ap, arith, if◌then◌else◌,
  inl, inr, refl, replicate, ℕ, ◌++◌, ◌+◌, ◌<◌, ◌==◌, ◌∙◌, ◌∷◌, ◌≡◌, ◌≢◌, ◌≤◌,
}
use rawdishfs.Base.Keys.{bytes_key, nat_key, eqb_refl}
use rawdishfs.ServiceNode.{Call, call_add_to_group, count}
use rawdishfs.ServiceNode.Replicas.{add, call_of}
use rawdishfs.ServiceNode.Introduction.{calls_to}
use rawdishfs.ServiceNode.Mesh.{Mesh, change_by, post}
use rawdishfs.ServiceNode.Mesh.Entries.{count-change_by, times, change_by_peers}
use rawdishfs.ServiceNode.Mesh.Loads.{
  weight, load, load-append, IsAdd, added_times, entry_after-added_times,
}

module _ (size : ℕ) (start : Mesh) (g n : Bytes) where
  -- How many additions of the name are on their way to a node.
  unfoldable pub on_way : ℕ → Mesh → ℕ
  on_way j m = sum_below size (λ i. load g n (m.links i j))

  -- Each addition has been counted by a node or is on its way to it.
  pub record IsCounted (m : Mesh) (total : ℕ) : Type 0 where
    pub adds_only : (i j : ℕ) → All IsAdd (m.links i j)
    pub peers : (i : ℕ) → (m.nodes i).peers ≡ (start.nodes i).peers
    pub outside : (i j : ℕ) → size ≤ i → m.links i j ≡ []
    pub counted :
        (j : ℕ)
        → j < size
        → (k : ℕ) × (count g n (m.nodes j).groups ≡ added_times k) × (k + on_way j m ≡ total)

  module _ (i : ℕ) (h k : Bytes) (m : Mesh) (total : ℕ) (inside : i < size)
      (v : IsCounted m total) where
    sent : ℕ → List Call
    sent b = calls_to b (change_by (m.nodes i) (add h k)).1

    on_way-change :
        (b : ℕ)
        → on_way b (post i (change_by (m.nodes i) (add h k)) m) ≡ on_way b m + load g n (sent b)
    unfolding on_way sent
    on_way-change b =
        let new = λ (a : ℕ). load g n (
          if i == a
          then m.links a b ++ calls_to b (change_by (m.nodes i) (add h k)).1
          else m.links a b) in
        let old = λ (a : ℕ). load g n (m.links a b) in
        let at_i : new i ≡ old i + load g n (sent b) =
          rw (eqb_refl i) (load-append g n (m.links i b) (sent b)) in
        omega (
          arith,
          at_i,
          sum_below_change size i new old inside (λ a away. rw (ne→==-false i a away) refl),
        )

    -- The node itself, to which nothing is sent, and a peer of it.
    counted_own :
        times i (start.nodes i).peers ≡ 0
        → (c : ℕ) × (count g n (change_by (m.nodes i) (add h k)).0.groups ≡ added_times c)
          × (c + on_way i (post i (change_by (m.nodes i) (add h k)) m)
              ≡ weight g n (call_add_to_group h k) + total)
    unfolding sent load call_of
    counted_own not_self =
        let (c, holds, sums) = v.counted i inside in
        let none_sent : sent i ≡ [] =
          (change_by_peers i (m.nodes i) (add h k)).0 ∙ rw (v.peers i, not_self) refl in
        (
          weight g n (call_add_to_group h k) + c,
          count-change_by g n (m.nodes i) (add h k) tt
              ∙ rw holds (entry_after-added_times g n (call_add_to_group h k) c tt),
          omega (arith, sums, on_way-change i, ap (load g n) none_sent),
        )

    counted_other :
        (b : ℕ)
        → b < size
        → i ≢ b
        → times b (start.nodes i).peers ≡ 1
        → (c : ℕ) × (count g n (m.nodes b).groups ≡ added_times c)
          × (c + on_way b (post i (change_by (m.nodes i) (add h k)) m)
              ≡ weight g n (call_add_to_group h k) + total)
    unfolding sent load call_of
    counted_other b below ne linked =
        let (c, holds, sums) = v.counted b below in
        let one_sent : sent b ≡ call_add_to_group h k ∷ [] =
          (change_by_peers b (m.nodes i) (add h k)).0 ∙ rw (v.peers i, linked) refl in
        (c, holds, omega (arith, sums, on_way-change b, ap (load g n) one_sent))

    pub changes-IsCounted :
        ((i : ℕ) → i < size → times i (start.nodes i).peers ≡ 0)
        → ((i j : ℕ) → i < size → j < size → i ≢ j → times j (start.nodes i).peers ≡ 1)
        → IsCounted
            (post i (change_by (m.nodes i) (add h k)) m)
            (weight g n (call_add_to_group h k) + total)
    changes-IsCounted not_self full = record {
      adds_only = λ a b. elim (Bool-cases (i == a)) [
        | inr other ↦ rw other (v.adds_only a b)
        | inl same ↦
            rw (same, (change_by_peers b (m.nodes i) (add h k)).0)
              (All-append IsAdd (m.links a b)
                (replicate (times b (m.nodes i).peers) (call_of (add h k))) (v.adds_only a b)
                (unfold call_of in
                  All-replicate IsAdd (times b (m.nodes i).peers) (call_of (add h k)) tt))
      ];
      peers = λ a. elim (Bool-cases (i == a)) [
        | inr other ↦ rw other (v.peers a)
        | inl same ↦
            rw (same, (change_by_peers a (m.nodes i) (add h k)).1, (==_iff i a).0 same) (v.peers a)
      ];
      outside =
          λ a b far. rw (ne→==-false i a (λ e. omega (arith, e, far, inside))) (v.outside a b far);
      counted = λ b below. elim (Bool-cases (i == b)) [
        | inl same ↦ rw (same, ← (==_iff i b).0 same) (counted_own (not_self i inside))
        | inr other ↦
            let ne = ==-false→ne i b other in
            rw other (counted_other b below ne (full i b inside below ne))
      ];
    }
