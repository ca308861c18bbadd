-- ===== src/ServiceNode/Mesh/Tests.antt =====
-- Runs of two nodes of src/rpc/service_node.h, and inputs at which the theorems about a mesh apply.
use rawdishfs.Base.{Bytes, List, [], arith, none, refl, some, suc, zero, ℕ, ◌<◌, ◌∷◌, ◌≡◌, ◌≢◌}
use rawdishfs.Base.Keys.{bytes_key, Address, address_key, nat_key}
use rawdishfs.Base.OrdMap.{OrdMap, lookup, insert}
use rawdishfs.Base.Int.{pos, inc}
use rawdishfs.ServiceNode.{
  new_internal, count, members, add_member, set_count, callbacks_of, notify_all, send_all,
  add_to_group, rpc_add_to_group, remove_from_group, rpc_remove_from_group,
}
use rawdishfs.ServiceNode.Replicas.{add, call_of}
use rawdishfs.ServiceNode.Introduction.{calls_to}
use rawdishfs.ServiceNode.Delivery.{answer_call}
use rawdishfs.ServiceNode.Mesh.{
  Mesh, MeshEvent, changes, delivers, change_by, mesh_step, run_mesh, take_at,
}
use rawdishfs.ServiceNode.Mesh.Entries.{times}
use rawdishfs.ServiceNode.Mesh.Owners.{IsStart, run_mesh-agreed}
use rawdishfs.ServiceNode.Mesh.Ownership.{AllOrderly}
use rawdishfs.ServiceNode.Mesh.Totals.{IsFullMesh, run_mesh-adds}
use rawdishfs.ServiceNode.Mesh.Loads.{adds, entry_of}
use rawdishfs.ServiceNode.Mesh.Settling.{flush, run_mesh-flush}
use rawdishfs.ServiceNode.Mesh.Crossing.{crossing_lem}

abbrev g : Bytes
g = b'g' ∷ []

abbrev n : Bytes
n = b'n' ∷ []

-- Nodes 0 and 1 are peers of each other.
abbrev peers_of : ℕ → OrdMap Address ℕ
peers_of zero = (([], 1), 1) ∷ []
peers_of (suc zero) = (([], 0), 0) ∷ []
peers_of (suc (suc i)) = []

abbrev pair_of_nodes : Mesh
pair_of_nodes = record {
  nodes =
      λ i. record { host = []; port = i; peers = peers_of i; groups = []; group_callbacks = [] };
  links = λ i j. [];
}

peers_of-times : (i : ℕ) → times i (peers_of i) ≡ 0
unfolding times
peers_of-times zero = refl
peers_of-times (suc zero) = refl
peers_of-times (suc (suc i)) = refl

pair_of_nodes-IsStart : IsStart (λ h k. 0) pair_of_nodes
pair_of_nodes-IsStart = record {
  quiet = λ i j. refl;
  not_self = peers_of-times;
  agreed = λ i j h k mine linked. refl;
}

-- Node 0 adds a name twice and removes it; node 1 has been told of the first two.
abbrev orderly_events : List MeshEvent
orderly_events =
    changes 0 (add g n) ∷ changes 0 (add g n) ∷ delivers 0 1 0 none ∷ delivers 0 1 0 none ∷ []

orderly_events-AllOrderly : AllOrderly (λ h k. 0) orderly_events pair_of_nodes
unfolding AllOrderly call_of
orderly_events-AllOrderly = ((refl, tt), ((refl, tt), (refl, (refl, tt))))

orderly_events-quiet : (run_mesh orderly_events pair_of_nodes).links 0 1 ≡ []
unfolding run_mesh mesh_step change_by take_at answer_call calls_to add_to_group rpc_add_to_group
    add_member send_all notify_all callbacks_of count members set_count lookup insert inc
orderly_events-quiet = refl

run_mesh-agreed_example :
    count g n ((run_mesh orderly_events pair_of_nodes).nodes 1).groups
    ≡ count g n ((run_mesh orderly_events pair_of_nodes).nodes 0).groups
unfolding times
run_mesh-agreed_example =
    run_mesh-agreed (λ h k. 0) pair_of_nodes orderly_events 0 1 g n pair_of_nodes-IsStart
      orderly_events-AllOrderly refl (λ e. ground (arith, e)) refl orderly_events-quiet

-- The second call is still on its way.
abbrev early_events : List MeshEvent
early_events = changes 0 (add g n) ∷ changes 0 (add g n) ∷ delivers 0 1 0 none ∷ []

early_events-AllOrderly : AllOrderly (λ h k. 0) early_events pair_of_nodes
unfolding AllOrderly call_of
early_events-AllOrderly = ((refl, tt), ((refl, tt), (refl, tt)))

abbrev early_mesh : Mesh
early_mesh = run_mesh early_events pair_of_nodes

run_mesh-flush_example :
    count g n ((run_mesh (flush 0 1 early_mesh) early_mesh).nodes 1).groups
    ≡ count g n ((run_mesh (flush 0 1 early_mesh) early_mesh).nodes 0).groups
unfolding times
run_mesh-flush_example =
    run_mesh-flush (λ h k. 0) pair_of_nodes early_events 0 1 g n pair_of_nodes-IsStart
      early_events-AllOrderly refl (λ e. ground (arith, e)) refl

pair_of_nodes-IsFullMesh : IsFullMesh 2 pair_of_nodes g n
unfolding times count members lookup
pair_of_nodes-IsFullMesh = record {
  quiet = λ i j. refl;
  not_self = λ i below. peers_of-times i;
  full = two;
  unknown = λ i below. refl;
}
  where
    two : (i j : ℕ) → i < 2 → j < 2 → i ≢ j → times j (peers_of i) ≡ 1
    two zero zero a b ne = absurd (ne refl)
    two zero (suc zero) a b ne = refl
    two (suc zero) zero a b ne = refl
    two (suc zero) (suc zero) a b ne = absurd (ne refl)
    two (suc (suc i)) j a b ne = absurd (omega arith)
    two i (suc (suc j)) a b ne = absurd (omega arith)

-- Both nodes add the name, and node 1 is told of the additions of node 0 last to first.
abbrev mixed_events : List MeshEvent
mixed_events =
    changes 0 (add g n)
    ∷ changes 1 (add g n)
    ∷ changes 0 (add g n)
    ∷ delivers 0 1 1 none
    ∷ delivers 1 0 0 none
    ∷ delivers 0 1 0 none
    ∷ []

mixed_events-quiet : (i : ℕ) → i < 2 → (run_mesh mixed_events pair_of_nodes).links i 1 ≡ []
unfolding run_mesh mesh_step change_by take_at answer_call calls_to add_to_group rpc_add_to_group
    add_member send_all notify_all callbacks_of count members set_count lookup insert inc
mixed_events-quiet zero below = refl
mixed_events-quiet (suc zero) below = refl
mixed_events-quiet (suc (suc i)) below = absurd (omega arith)

mixed_events-three : adds g n mixed_events ≡ 3
unfolding adds call_of
mixed_events-three = refl

run_mesh-adds_example :
    count g n ((run_mesh mixed_events pair_of_nodes).nodes 1).groups
    ≡ entry_of (adds g n mixed_events)
run_mesh-adds_example =
    run_mesh-adds 2 pair_of_nodes g n mixed_events 1 pair_of_nodes-IsFullMesh
      (omega arith, (omega arith, (omega arith, tt))) (omega arith) mixed_events-quiet
      (rw mixed_events-three (omega arith))

mixed_events-adds : entry_of (adds g n mixed_events) ≡ some (pos 3)
unfolding entry_of adds call_of
mixed_events-adds = refl

crossing_lem_example :
    (count g n (rpc_remove_from_group (add_to_group (new_internal [] 0) g n).0 g n).0.groups ≡ none)
    × (count g n (rpc_add_to_group (remove_from_group (new_internal [] 1) g n).0 g n).0.groups
        ≡ some (pos 1))
unfolding new_internal count members lookup
crossing_lem_example = crossing_lem (new_internal [] 0) (new_internal [] 1) g n refl refl
