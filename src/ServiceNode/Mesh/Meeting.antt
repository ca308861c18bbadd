-- ===== src/ServiceNode/Mesh/Meeting.antt =====
-- A run of three nodes of src/rpc/service_node.h, two of which are given the address of the third.
use rawdishfs.Base.{
  List, [], arith, refl, some, suc, true, zero, ℕ, ◌∷◌, ◌≡◌, ◌<◌, ◌==◌, false, inr, inl, All,
}
use rawdishfs.Base.Sums.{ne→==-false}
use rawdishfs.Base.Keys.{bytes_key, Address, address_key, nat_key}
use rawdishfs.Base.OrdMap.{lookup, insert}
use rawdishfs.ServiceNode.{rpc_add_peer, introduce_peers, introduce_groups}
use rawdishfs.ServiceNode.Introduction.{calls_to}
use rawdishfs.ServiceNode.Delivery.{answer_call}
use rawdishfs.ServiceNode.Mesh.{Mesh, MeshEvent, joins, delivers, mesh_step, run_mesh, take_at}
use rawdishfs.ServiceNode.Mesh.Spread.{known}
use rawdishfs.ServiceNode.Mesh.Discovery.{IsConnecting, AllConnecting, IsUnconnected}
use rawdishfs.ServiceNode.Mesh.Gathering.{IsDelivery, run_mesh-gathers}
use rawdishfs.ServiceNode.Mesh.Acquaintance.{
  Joined, Connected, itself, along, against, run_mesh-acquainted,
}

-- The port of a node is its number.
abbrev address_of : ℕ → Address
address_of i = ([], i)

abbrev node_at : Address → ℕ
node_at a = a.1

abbrev strangers : Mesh
strangers = record {
  nodes = λ i. record { host = []; port = i; peers = []; groups = []; group_callbacks = [] };
  links = λ i j. [];
}

strangers-IsUnconnected : IsUnconnected node_at address_of strangers
strangers-IsUnconnected = record { place = λ i. refl; alone = λ i. refl; quiet = λ i j. refl }

-- Nodes 1 and 2 are given the address of node 0, which tells node 2 of node 1.
abbrev meeting : List MeshEvent
meeting =
    joins 1 [] 0 (some 0)
    ∷ joins 2 [] 0 (some 0)
    ∷ delivers 1 0 0 (some 1)
    ∷ delivers 2 0 0 (some 2)
    ∷ delivers 0 1 0 (some 0)
    ∷ delivers 0 2 0 (some 0)
    ∷ delivers 0 2 0 (some 1)
    ∷ delivers 2 1 0 (some 2)
    ∷ delivers 2 1 0 (some 0)
    ∷ delivers 1 2 0 (some 1)
    ∷ delivers 1 2 0 (some 0)
    ∷ []

meeting-AllConnecting : AllConnecting node_at address_of meeting strangers
unfolding AllConnecting IsConnecting mesh_step take_at answer_call calls_to rpc_add_peer
    introduce_peers introduce_groups lookup insert
meeting-AllConnecting = (
  (refl, refl),
  ((refl, refl), (refl, (refl, (refl, (refl, (refl, (refl, (refl, (refl, (refl, tt)))))))))),
)

-- A node beyond the three is none of them.
far : (k j : ℕ) → k < 3 → (k == suc (suc (suc j))) ≡ false
far k j below = ne→==-false k (suc (suc (suc j))) (λ e. omega arith)

meeting-quiet : (i j : ℕ) → (run_mesh meeting strangers).links i j ≡ []
unfolding run_mesh mesh_step take_at answer_call calls_to rpc_add_peer introduce_peers
    introduce_groups lookup insert
meeting-quiet zero zero = refl
meeting-quiet zero (suc zero) = refl
meeting-quiet zero (suc (suc zero)) = refl
meeting-quiet zero (suc (suc (suc j))) = simp (far 1 j (omega arith), far 2 j (omega arith))
meeting-quiet (suc zero) zero = refl
meeting-quiet (suc zero) (suc zero) = refl
meeting-quiet (suc zero) (suc (suc zero)) = refl
meeting-quiet (suc zero) (suc (suc (suc j))) = simp (far 0 j (omega arith), far 2 j (omega arith))
meeting-quiet (suc (suc zero)) zero = refl
meeting-quiet (suc (suc zero)) (suc zero) = refl
meeting-quiet (suc (suc zero)) (suc (suc zero)) = refl
meeting-quiet (suc (suc zero)) (suc (suc (suc j))) =
    simp (far 0 j (omega arith), far 1 j (omega arith))
meeting-quiet (suc (suc (suc i))) j =
    simp (far 0 i (omega arith), far 1 i (omega arith), far 2 i (omega arith))

meeting-connects : Connected address_of meeting 1 2
unfolding Joined
meeting-connects =
    along 1 0 2 (inl (refl, refl)) (against 0 2 2 (inr (inl (refl, refl))) (itself 2))

run_mesh-acquainted_example :
    (known (run_mesh meeting strangers) 1 ([], 2) ≡ true)
    × (known (run_mesh meeting strangers) 2 ([], 1) ≡ true)
run_mesh-acquainted_example =
    run_mesh-acquainted node_at address_of strangers meeting 1 2 (λ i. refl) strangers-IsUnconnected
      meeting-AllConnecting meeting-quiet meeting-connects (λ e. ground (arith, e))

-- The calls are still on their way.
abbrev greetings : List MeshEvent
greetings = joins 1 [] 0 (some 0) ∷ joins 2 [] 0 (some 0) ∷ []

greetings-AllConnecting : AllConnecting node_at address_of greetings strangers
unfolding AllConnecting IsConnecting
greetings-AllConnecting = ((refl, refl), ((refl, refl), tt))

greetings-connects : Connected address_of greetings 1 2
unfolding Joined
greetings-connects =
    along 1 0 2 (inl (refl, refl)) (against 0 2 2 (inr (inl (refl, refl))) (itself 2))

run_mesh-gathers_example :
    (later : List MeshEvent) × All IsDelivery later
    × AllConnecting node_at address_of later (run_mesh greetings strangers)
    × ((i j : ℕ) → (run_mesh later (run_mesh greetings strangers)).links i j ≡ [])
    × (known (run_mesh later (run_mesh greetings strangers)) 1 ([], 2) ≡ true)
    × (known (run_mesh later (run_mesh greetings strangers)) 2 ([], 1) ≡ true)
run_mesh-gathers_example =
    run_mesh-gathers 3 node_at address_of strangers greetings 1 2 (λ i. refl)
      strangers-IsUnconnected greetings-AllConnecting
      ((omega arith, omega arith), ((omega arith, omega arith), tt)) greetings-connects
      (λ e. ground (arith, e))
