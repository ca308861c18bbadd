-- ===== src/ServiceNode/Mesh.antt =====
-- A mesh of the nodes of src/rpc/service_node.h. The clients of a node are named by the nodes that
-- they are connected to. A call is on its way until the task that the server of the other node makes
-- of it has run; the tasks of one connection may run in any order.
pub mod Entries
pub mod Ownership
pub mod Owners
pub mod Loads
pub mod Counting
pub mod Totals
pub mod Settling
pub mod Telling
pub mod Greeting
pub mod Spread
pub mod Silence
pub mod Discovery
pub mod Acquaintance
pub mod Within
pub mod Progress
pub mod Gathering
pub mod Crossing
mod Tests
mod Meeting
use rawdishfs.Base.{
  ◌>>=◌, Bytes, List, Option, [], if◌then◌else◌, none, some, suc, zero, ℕ, ◌++◌, ◌==◌, ◌∷◌,
}
use rawdishfs.ServiceNode.{Internal, Effect, Call, add_to_group, remove_from_group, rpc_add_peer}
use rawdishfs.ServiceNode.Replicas.{Change, add, remove}
use rawdishfs.ServiceNode.Introduction.{calls_to}
use rawdishfs.ServiceNode.Delivery.{answer_call}

pub record Mesh : Type 0 where
  pub nodes : ℕ → Internal
  -- the calls on their way from one node to another
  pub links : ℕ → ℕ → List Call

-- A node changes the directory, or is given the address of a peer, or the call at a position of a link
-- is carried out; with what `TcpSocket::connect` gives.
pub data MeshEvent : Type 0 where
  changes : ℕ → Change → MeshEvent
  joins : ℕ → Bytes → ℕ → Option ℕ → MeshEvent
  delivers : ℕ → ℕ → ℕ → Option ℕ → MeshEvent

unfoldable pub change_by : Internal → Change → Internal × List Effect
change_by s (add g n) = add_to_group s g n
change_by s (remove g n) = remove_from_group s g n

-- A node has a new state, and its calls go on their way.
abbrev pub post : ℕ → Internal × List Effect → Mesh → Mesh
post i r m = record {
  nodes = λ j. if i == j then r.0 else m.nodes j;
  links = λ j k. if i == j then m.links j k ++ calls_to k r.1 else m.links j k;
}

-- The call at a position, and the others.
pub take_at : ℕ → List Call → Option (Call × List Call)
take_at k [] = none
take_at zero (c ∷ cs) = some (c, cs)
take_at (suc k) (c ∷ cs) = do r ← take_at k cs; some (r.0, c ∷ r.1)

abbrev pub with_link : ℕ → ℕ → List Call → Mesh → Mesh
with_link i j cs m = record m {
  links = λ a b. if i == a then (if j == b then cs else m.links a b) else m.links a b;
}

unfoldable pub mesh_step : MeshEvent → Mesh → Mesh
unfolding change_by take_at answer_call rpc_add_peer
mesh_step (changes i c) m = post i (change_by (m.nodes i) c) m
mesh_step (joins i host port socket) m =
    let r = rpc_add_peer (m.nodes i) host port socket in post i (r.0, r.1) m
mesh_step (delivers i j k socket) m = elim (take_at k (m.links i j)) [
  | none ↦ m
  | some (c, rest) ↦
      let r = answer_call socket (m.nodes j) c in post j (r.0, r.1) (with_link i j rest m)
]

unfoldable pub run_mesh : List MeshEvent → Mesh → Mesh
unfolding mesh_step
run_mesh [] m = m
run_mesh (e ∷ es) m = run_mesh es (mesh_step e m)
