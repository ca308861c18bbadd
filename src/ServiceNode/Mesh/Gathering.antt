-- ===== src/ServiceNode/Mesh/Gathering.antt =====
-- The nodes of src/rpc/service_node.h come to know each other: their calls come to an end.
use rawdishfs.Base.{
  All, Bool-cases, List, [], arith, inl, inr, length, ltb, ltb→lt, refl, suc, sym, true, zero, ℕ,
  ◌&&◌, ◌<◌, ◌∙◌, ◌∷◌, ◌≡◌, ◌≢◌, ◌≤◌, ◌⊎◌,
}
use mathlib.Core.Path.{subst}
use rawdishfs.Base.Keys.{Address}
use rawdishfs.Base.Sums.{square_sum_lt, square_sum_positive}
use rawdishfs.ServiceNode.{Call}
use rawdishfs.ServiceNode.Mesh.{Mesh, MeshEvent, changes, joins, delivers, mesh_step, run_mesh}
use rawdishfs.ServiceNode.Mesh.Telling.{mentions}
use rawdishfs.ServiceNode.Mesh.Spread.{known, IsSpread}
use rawdishfs.ServiceNode.Mesh.Discovery.{
  StillKnown, IsConnecting, AllConnecting, IsUnconnected, IsUnconnected-IsSpread, mesh_step-Keeps,
}
use rawdishfs.ServiceNode.Mesh.Acquaintance.{
  Connected, Joined, run_mesh-Keeps, known_given, Connected-known,
}
use rawdishfs.ServiceNode.Mesh.Within.{IsWithin, EventWithin, mesh_step-IsWithin}
use rawdishfs.ServiceNode.Mesh.Progress.{
  unknown, pending, Advances, socket_for, socket_for-AnswersWell, taken_first, first_step,
  first_call-Advances,
}

-- The event is the task of a call.
abbrev pub IsDelivery : MeshEvent → Type 0
IsDelivery (changes i c) = ⊥
IsDelivery (joins i host port socket) = ⊥
IsDelivery (delivers i j k socket) = Unit

empty_or_not : (cs : List Call) → (cs ≡ []) ⊎ ((c : Call) × (rest : List Call) × (cs ≡ c ∷ rest))
empty_or_not [] = inl refl
empty_or_not (c ∷ rest) = inr (c, rest, refl)

module _ (size : ℕ) (home : Address → ℕ) (address : ℕ → Address)
    (home-address : (i : ℕ) → home (address i) ≡ i) where
  -- Calls that are carried out, and no other event, leave no call on its way.
  Settles : Mesh → Type 0
  Settles m =
      (es : List MeshEvent) × All IsDelivery es
      × AllConnecting home address es m
      × ((i j : ℕ) → (run_mesh es m).links i j ≡ [])

  FirstCall : Mesh → Type 0
  FirstCall m = (i : ℕ) × (j : ℕ) × (c : Call) × (rest : List Call) × (m.links i j ≡ c ∷ rest)

  not_quiet :
      (m : Mesh)
      → IsWithin size home address m
      → (i j : ℕ) (c : Call) (rest : List Call) → m.links i j ≡ c ∷ rest
      → pending size address m ≡ 0
      → ⊥
  unfolding pending
  not_quiet m w i j c rest there none_pending = elim (Bool-cases (ltb i size && ltb j size)) [
    | inr beyond ↦
        let far : (size ≤ i) ⊎ (size ≤ j) = elim (Bool-cases (ltb i size)) [
          | inl below ↦ inr (ground (arith, below, beyond))
          | inr above ↦ inl (ground (arith, above))
        ] in
        ground (arith, sym there ∙ w.inside i j far)
    | inl below ↦
        let more =
          square_sum_lt size (λ a b. 0) (λ a b. length (m.links a b)) i j (λ a b h h'. omega arith)
            (ground (arith, below)) (ground (arith, below)) (rw there (omega arith)) in
        omega (arith, more, none_pending)
  ]

  -- No call is on its way, or there is a first one on a link.
  quiet_or_not :
      (m : Mesh) → IsWithin size home address m → ((i j : ℕ) → m.links i j ≡ []) ⊎ FirstCall m
  unfolding pending FirstCall
  quiet_or_not m w = elim (Bool-cases (ltb 0 (pending size address m))) [
    | inl some_call ↦
        let (i, j, below, below', long) =
          square_sum_positive size (λ a b. length (m.links a b)) (ltb→lt 0 _ some_call) in
        elim (empty_or_not (m.links i j)) [
          | inl nothing ↦ absurd (omega (arith, rw nothing at long))
          | inr (c, rest, there) ↦ inr (i, j, c, rest, there)
        ]
    | inr no_call ↦ inl (λ i j. elim (empty_or_not (m.links i j)) [
      | inl nothing ↦ nothing
      | inr (c, rest, there) ↦ absurd (not_quiet m w i j c rest there (ground (arith, no_call)))
    ])
  ]

  module _ (m : Mesh) (v : IsSpread home address m) (w : IsWithin size home address m) where
    -- One call is carried out, and the rest settles.
    advance :
        ((m' : Mesh)
          → IsSpread home address m'
          → IsWithin size home address m'
          → Advances size address m m'
          → Settles m')
        → Settles m
    unfolding Settles FirstCall AllConnecting IsConnecting run_mesh
    advance settles = elim (quiet_or_not m w) [
      | inl quiet ↦ ([], tt, tt, quiet)
      | inr (i, j, c, rest, there) ↦
          let e : MeshEvent = delivers i j 0 (socket_for size address home home-address c) in
          let connects : IsConnecting home address e m =
            rw (taken_first size address home home-address i j m v w c rest there, IsConnecting)
              (socket_for-AnswersWell size address home home-address c) in
          let step = first_step size address home home-address i j m v w c rest there in
          let (v', still) = mesh_step-Keeps home address home-address e m connects v in
          let w' = mesh_step-IsWithin size home address home-address e m tt connects v w in
          let advances = subst (Advances size address m) (sym step) (
            first_call-Advances size address home home-address i j m v w c rest there
              (subst (StillKnown m) step still)) in
          let (es, deliveries, connecting, quiet) = settles (mesh_step e m) v' w' advances in
          (e ∷ es, (tt, deliveries), (connects, connecting), quiet)
    ]

  by_pending :
      (u : ℕ)
      → ((m : Mesh)
          → IsSpread home address m
          → IsWithin size home address m
          → unknown size address m < u
          → Settles m)
      → (p : ℕ) (m : Mesh) → IsSpread home address m
      → IsWithin size home address m
      → unknown size address m ≤ u
      → pending size address m ≤ p
      → Settles m
  by_pending u settles zero m v w few short = advance m v w (λ m' v' w' advances. elim advances [
    | inl fewer ↦ settles m' v' w' (omega (arith, fewer, few))
    | inr (le, shorter) ↦ absurd (omega (arith, shorter, short))
  ])
  by_pending u settles (suc p) m v w few short = advance m v w (λ m' v' w' advances. elim advances [
    | inl fewer ↦ settles m' v' w' (omega (arith, fewer, few))
    | inr (le, shorter) ↦
        by_pending u settles p m' v' w' (omega (arith, le, few)) (omega (arith, shorter, short))
  ])

  by_unknown :
      (u : ℕ) (m : Mesh)
      → IsSpread home address m
      → IsWithin size home address m
      → unknown size address m < u
      → Settles m
  by_unknown zero m v w few = absurd (omega (arith, few))
  by_unknown (suc u) m v w few =
      by_pending u (by_unknown u) (pending size address m) m v w (omega (arith, few)) (omega arith)

  run_mesh-IsWithin :
      (es : List MeshEvent) (m : Mesh)
      → All (EventWithin size home address) es
      → AllConnecting home address es m
      → IsSpread home address m
      → IsWithin size home address m
      → IsWithin size home address (run_mesh es m)
  unfolding AllConnecting run_mesh
  run_mesh-IsWithin [] m within connects v w = w
  run_mesh-IsWithin (e ∷ es) m within connects v w =
      run_mesh-IsWithin es (mesh_step e m) within.1 connects.1
        (mesh_step-Keeps home address home-address e m connects.0 v).0
        (mesh_step-IsWithin size home address home-address e m within.0 connects.0 v w)

  IsUnconnected-IsWithin : (m : Mesh) → IsUnconnected home address m → IsWithin size home address m
  unfolding mentions
  IsUnconnected-IsWithin m u = record {
    inside = λ i j far. u.quiet i j;
    clients_within = λ i. rw (u.alone i) tt;
    told_within = λ i j a told. absurd (ground (arith, rw (u.quiet i j) at told));
  }

-- The nodes gather: in a mesh of `size` nodes with different addresses that begin alone, where
-- only these nodes act, the addresses that they are given by `addPeer` are theirs and every
-- connection succeeds, from every state that is reached, finitely many tasks of calls and no other
-- event leave no call on its way, and then two nodes that these addresses connect are peers
-- of each other.
pub run_mesh-gathers :
    (size : ℕ) (home : Address → ℕ) (address : ℕ → Address) (m : Mesh) (es : List MeshEvent)
    (x y : ℕ)
    → ((i : ℕ) → home (address i) ≡ i)
    → IsUnconnected home address m
    → AllConnecting home address es m
    → All (EventWithin size home address) es
    → Connected address es x y
    → x ≢ y
    → (later : List MeshEvent) × All IsDelivery later
      × AllConnecting home address later (run_mesh es m)
      × ((i j : ℕ) → (run_mesh later (run_mesh es m)).links i j ≡ [])
      × (known (run_mesh later (run_mesh es m)) x (address y) ≡ true)
      × (known (run_mesh later (run_mesh es m)) y (address x) ≡ true)
unfolding Settles StillKnown
run_mesh-gathers size home address m es x y home-address u connects within joined ne =
    let v = IsUnconnected-IsSpread home address m u in
    let v' = (run_mesh-Keeps address home home-address es m connects v).0 in
    let w' =
      run_mesh-IsWithin size home address home-address es m within connects v
        (IsUnconnected-IsWithin size home address home-address m u) in
    let (later, deliveries, connecting, quiet) =
      by_unknown size home address home-address (suc (unknown size address (run_mesh es m)))
        (run_mesh es m) v' w' (omega arith) in
    let (v'', still) =
      run_mesh-Keeps address home home-address later (run_mesh es m) connecting v' in
    let given : (a b : ℕ)
        → Joined address es a b
        → known (run_mesh later (run_mesh es m)) a (address b) ≡ true =
      λ a b there.
        still a (address b) (known_given address home home-address es m a b connects v there) in
    let (there, back) =
      Connected-known address home home-address (run_mesh later (run_mesh es m)) v'' quiet es x y
        given joined ne in
    (later, deliveries, connecting, quiet, there, back)
