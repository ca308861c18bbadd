-- ===== src/ServiceNode/Mesh/Acquaintance.antt =====
-- What the nodes of src/rpc/service_node.h know of each other once all calls have been carried out.
use rawdishfs.Base.{
  ==_iff, Bool-cases, Bytes, List, Option, [], arith, inl, inr, refl, sym, true, ℕ, ◌==◌, ◌∙◌, ◌∷◌,
  ◌≡◌, ◌≢◌, ◌⊎◌,
}
use rawdishfs.Base.Sums.{==-false→ne}
use rawdishfs.Base.Keys.{Address, address_key, address_eqb_iff, nat_key, bytes_key, eqb_refl}
use rawdishfs.ServiceNode.Mesh.{Mesh, MeshEvent, changes, joins, delivers, mesh_step, run_mesh}
use rawdishfs.ServiceNode.Mesh.Telling.{mentions, or_true}
use rawdishfs.ServiceNode.Mesh.Spread.{known, Reaches, IsSpread, greet}
use rawdishfs.ServiceNode.Mesh.Discovery.{
  StillKnown, IsConnecting, AllConnecting, IsUnconnected, IsUnconnected-IsSpread, Keeps,
  known_joined, mesh_step-Keeps,
}

module _ (address : ℕ → Address) where
  -- Among the events one node is given the address of another.
  unfoldable pub Joined : List MeshEvent → ℕ → ℕ → Type 0
  Joined [] x y = ⊥
  Joined (changes i c ∷ es) x y = Joined es x y
  Joined (delivers i j k socket ∷ es) x y = Joined es x y
  Joined (joins i host port socket ∷ es) x y =
      ((i ≡ x) × ((host, port) ≡ address y)) ⊎ Joined es x y

  -- The addresses that are given connect two nodes, whichever of two is given that of the other.
  pub data Connected (es : List MeshEvent) : ℕ → ℕ → Type 0 where
    itself : (x : ℕ) → Connected es x x
    along : (x y z : ℕ) → Joined es x y → Connected es y z → Connected es x z
    against : (x y z : ℕ) → Joined es y x → Connected es y z → Connected es x z

  module _ (home : Address → ℕ) (home-address : (i : ℕ) → home (address i) ≡ i) where
    pub run_mesh-Keeps :
        (es : List MeshEvent) (m : Mesh)
        → AllConnecting home address es m
        → IsSpread home address m
        → Keeps home address home-address m (run_mesh es m)
    unfolding AllConnecting run_mesh StillKnown
    run_mesh-Keeps [] m connects v = (v, λ x b e. e)
    run_mesh-Keeps (e ∷ es) m connects v =
        let (v', keeps) = mesh_step-Keeps home address home-address e m connects.0 v in
        let (v'', keeps') = run_mesh-Keeps es (mesh_step e m) connects.1 v' in
        (v'', λ x b had. keeps' x b (keeps x b had))

    known_now :
        (i : ℕ) (host : Bytes) (port : ℕ) (socket : Option ℕ) (m : Mesh) (x y : ℕ)
        → IsConnecting home address (joins i host port socket) m
        → IsSpread home address m
        → i ≡ x
        → (host, port) ≡ address y
        → known (mesh_step (joins i host port socket) m) x (address y) ≡ true
    unfolding IsConnecting mesh_step greet
    known_now i host port socket m x y connects v here given = rw connects.0 (
        known_joined home address home-address i host port m connects.1 v x (address y)
        ∙ rw (here, eqb_refl x, (address_eqb_iff (host, port) (address y)).1 given)
            (or_true (known m x (address y))))

    -- A node knows the addresses that it has been given.
    pub known_given :
        (es : List MeshEvent) (m : Mesh) (x y : ℕ)
        → AllConnecting home address es m
        → IsSpread home address m
        → Joined es x y
        → known (run_mesh es m) x (address y) ≡ true
    unfolding AllConnecting run_mesh StillKnown Joined
    known_given [] m x y connects v there = absurd there
    known_given (changes i c ∷ es) m x y connects v there =
        known_given es (mesh_step (changes i c) m) x y connects.1
          (mesh_step-Keeps home address home-address (changes i c) m connects.0 v).0 there
    known_given (delivers i j k socket ∷ es) m x y connects v there =
        known_given es (mesh_step (delivers i j k socket) m) x y connects.1
          (mesh_step-Keeps home address home-address (delivers i j k socket) m connects.0 v).0 there
    known_given (joins i host port socket ∷ es) m x y connects v (inr later) =
        known_given es (mesh_step (joins i host port socket) m) x y connects.1
          (mesh_step-Keeps home address home-address (joins i host port socket) m connects.0 v).0
          later
    known_given (joins i host port socket ∷ es) m x y connects v (inl (here, given)) =
        let e = joins i host port socket in
        (run_mesh-Keeps es (mesh_step e m) connects.1
            (mesh_step-Keeps home address home-address e m connects.0 v).0).1
          x (address y) (known_now i host port socket m x y connects.0 v here given)

    module _ (m : Mesh) (v : IsSpread home address m) (quiet : (i j : ℕ) → m.links i j ≡ []) where
      Reaches-known : (b : Address) (y : ℕ) → Reaches m b y → known m y b ≡ true
      unfolding mentions
      Reaches-known b y (inl had) = had
      Reaches-known b y (inr (k, told)) = absurd (ground (arith, rw (quiet k y) at told))

      -- Two nodes are one, or each knows the other.
      Acquainted : ℕ → ℕ → Type 0
      Acquainted x y = (x ≡ y) ⊎ ((known m x (address y) ≡ true) × (known m y (address x) ≡ true))

      one_way : (x y : ℕ) → known m x (address y) ≡ true → Acquainted x y
      unfolding Acquainted
      one_way x y e = elim (Bool-cases (x == y)) [
        | inl same ↦ inl ((==_iff x y).0 same)
        | inr other ↦
            inr (e, Reaches-known (address x) y (v.symmetric x y (==-false→ne x y other) e))
      ]

      turned : (x y : ℕ) → Acquainted x y → Acquainted y x
      unfolding Acquainted
      turned x y (inl same) = inl (sym same)
      turned x y (inr (there, back)) = inr (back, there)

      introduced : (x y z : ℕ) → Acquainted x y → Acquainted y z → Acquainted x z
      unfolding Acquainted
      introduced x y z (inl same) r = rw same r
      introduced x y z (inr l) (inl same) = rw (sym same) (inr l)
      introduced x y z (inr (there, back)) (inr (there', back')) = elim (Bool-cases (x == z)) [
        | inl same ↦ inl ((==_iff x z).0 same)
        | inr other ↦ elim (v.shared y x z (==-false→ne x z other) back there') [
          | inl a ↦ turned z x (one_way z x (Reaches-known (address x) z a))
          | inr b ↦ one_way x z (Reaches-known (address z) x b)
        ]
      ]

      Connected-Acquainted :
          (es : List MeshEvent) (x y : ℕ)
          → ((a b : ℕ) → Joined es a b → known m a (address b) ≡ true)
          → Connected es x y
          → Acquainted x y
      unfolding Acquainted
      Connected-Acquainted es _ _ given (itself x) = inl refl
      Connected-Acquainted es x z given (along _ y _ there path) =
          introduced x y z (one_way x y (given x y there)) (Connected-Acquainted es y z given path)
      Connected-Acquainted es x z given (against _ y _ there path) =
          introduced x y z (turned y x (one_way y x (given y x there)))
            (Connected-Acquainted es y z given path)

      pub Connected-known :
          (es : List MeshEvent) (x y : ℕ)
          → ((a b : ℕ) → Joined es a b → known m a (address b) ≡ true)
          → Connected es x y
          → x ≢ y
          → (known m x (address y) ≡ true) × (known m y (address x) ≡ true)
      unfolding Acquainted
      Connected-known es x y given path ne = elim (Connected-Acquainted es x y given path) [
        | inl same ↦ absurd (ne same)
        | inr both ↦ both
      ]

-- One address is enough to connect to the entire network: in a mesh of nodes with different
-- addresses that begin alone, where the addresses that nodes are given by `addPeer` are those of
-- nodes and every connection succeeds, two nodes which these addresses connect, over whichever
-- others and in whichever direction, are peers of each other under their addresses once all calls
-- have been carried out, whatever the order of the events.
pub run_mesh-acquainted :
    (home : Address → ℕ) (address : ℕ → Address) (m : Mesh) (es : List MeshEvent) (x y : ℕ)
    → ((i : ℕ) → home (address i) ≡ i)
    → IsUnconnected home address m
    → AllConnecting home address es m
    → ((i j : ℕ) → (run_mesh es m).links i j ≡ [])
    → Connected address es x y
    → x ≢ y
    → (known (run_mesh es m) x (address y) ≡ true) × (known (run_mesh es m) y (address x) ≡ true)
run_mesh-acquainted home address m es x y home-address u connects quiet joined ne =
    let v = IsUnconnected-IsSpread home address m u in
    Connected-known address home home-address (run_mesh es m)
      (run_mesh-Keeps address home home-address es m connects v).0 quiet es x y
      (λ a b. known_given address home home-address es m a b connects v) joined ne
