-- ===== src/ServiceNode/Mesh/Crossing.antt =====
-- Calls of src/rpc/service_node.cc that cross each other.
use rawdishfs.Base.{Bytes, none, refl, some, true, ◌∙◌, ◌≡◌}
use rawdishfs.Base.Keys.{bytes_key, bytes_eqb_refl}
use rawdishfs.Base.Int.{pos, inc}
use rawdishfs.ServiceNode.{
  Internal, count, add_to_group, rpc_add_to_group, remove_from_group, rpc_remove_from_group,
}
use rawdishfs.ServiceNode.Groups.{is_entry, count-add_to_group, count-remove_from_group}

-- Two nodes without an entry for a name, where one adds the name and the other removes it before
-- each is told of what the other did, do not agree afterwards: the node that added has no entry, and
-- at the node that removed the name is a member with count 1.
pub crossing_lem :
    (s t : Internal) (g n : Bytes)
    → count g n s.groups ≡ none
    → count g n t.groups ≡ none
    → (count g n (rpc_remove_from_group (add_to_group s g n).0 g n).0.groups ≡ none)
      × (count g n (rpc_add_to_group (remove_from_group t g n).0 g n).0.groups ≡ some (pos 1))
unfolding inc
crossing_lem s t g n new_s new_t =
    let here : is_entry g n g n ≡ true = rw (bytes_eqb_refl g, bytes_eqb_refl n) refl in
    let s' = (add_to_group s g n).0 in
    let t' = (remove_from_group t g n).0 in
    let adds : count g n s'.groups ≡ some (pos 1) =
      (count-add_to_group s g n g n).0 ∙ rw (here, new_s) refl in
    let removes : count g n t'.groups ≡ some (pos 0) =
      (count-remove_from_group t g n g n).0 ∙ rw (here, new_t) refl in
    (
      (count-remove_from_group s' g n g n).1 ∙ rw (here, adds) refl,
      (count-add_to_group t' g n g n).1 ∙ rw (here, removes) refl,
    )
