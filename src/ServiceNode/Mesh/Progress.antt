-- ===== src/ServiceNode/Mesh/Progress.antt =====
-- What each call of a mesh of the nodes of src/rpc/service_node.h brings it nearer to: fewer addresses
-- that are not known, or fewer calls on their way.
use rawdishfs.Base.{
  ==_iff, Bool-cases, Bytes, List, Option, Option-cases, ap, arith, false, if◌then◌else◌, inl, inr,
  length, none, refl, some, true, ℕ, ◌<◌, ◌==◌, ◌∙◌, ◌∷◌, ◌≡◌, ◌≤◌, ◌⊎◌,
}
use rawdishfs.Base.Keys.{Address, address_key, address_eqb_iff, bytes_key, nat_key, eqb_refl}
use rawdishfs.Base.OrdMap.{lookup}
use rawdishfs.Base.Sums.{square_sum, square_sum_le, square_sum_lt}
use mathlib.Core.List.{append-nil}
use rawdishfs.ServiceNode.{
  Call, call_add_peer, call_add_to_group, call_remove_from_group, rpc_add_peer,
}
use rawdishfs.ServiceNode.Introduction.{calls_to}
use rawdishfs.ServiceNode.Delivery.{answer_call}
use rawdishfs.ServiceNode.Mesh.{mesh_step, delivers, Mesh, post, take_at, with_link}
use rawdishfs.ServiceNode.Mesh.Entries.{IsChange, links_after_call}
use rawdishfs.ServiceNode.Mesh.Telling.{or_true}
use rawdishfs.ServiceNode.Mesh.Spread.{known, IsSpread, greet}
use rawdishfs.ServiceNode.Mesh.Discovery.{StillKnown, AnswersWell, known_told, told_valid}
use rawdishfs.ServiceNode.Mesh.Within.{IsWithin, link-within, told-within}

module _ (size : ℕ) (address : ℕ → Address) where
  abbrev unknown_at : Mesh → ℕ → ℕ → ℕ
  unknown_at m x y = if known m x (address y) then 0 else 1

  abbrev pending_at : Mesh → ℕ → ℕ → ℕ
  pending_at m i j = length (m.links i j)

  -- How many addresses are not known to how many nodes, and how many calls are on their way.
  pub unknown : Mesh → ℕ
  unknown m = square_sum size (unknown_at m)

  unfoldable pub pending : Mesh → ℕ
  pending m = square_sum size (pending_at m)

  abbrev pub Advances : Mesh → Mesh → Type 0
  Advances m m' = (unknown m' < unknown m) ⊎ ((unknown m' ≤ unknown m) × (pending m' < pending m))

  unknown_at-le : (m m' : Mesh) → StillKnown m m' → (x y : ℕ) → unknown_at m' x y ≤ unknown_at m x y
  unfolding StillKnown
  unknown_at-le m m' still x y = elim (Bool-cases (known m x (address y))) [
    | inl had ↦ rw (had, still x (address y) had) (omega arith)
    | inr had_not ↦ elim (Bool-cases (known m' x (address y))) [
      | inl has ↦ rw (had_not, has) (omega arith)
      | inr has_not ↦ rw (had_not, has_not) (omega arith)
    ]
  ]

  more_known :
      (m m' : Mesh) (x y : ℕ)
      → StillKnown m m'
      → x < size
      → y < size
      → known m x (address y) ≡ false
      → known m' x (address y) ≡ true
      → Advances m m'
  unfolding unknown
  more_known m m' x y still below below' had_not has = inl (
      square_sum_lt size (unknown_at m') (unknown_at m) x y
        (λ a b h h'. unknown_at-le m m' still a b) below below' (rw (had_not, has) (omega arith)))

  fewer_pending :
      (m m' : Mesh) (i j : ℕ) (c : Call) (rest : List Call)
      → StillKnown m m'
      → i < size
      → j < size
      → m.links i j ≡ c ∷ rest
      → ((a b : ℕ) → m'.links a b ≡ (with_link i j rest m).links a b)
      → Advances m m'
  unfolding unknown pending
  fewer_pending m m' i j c rest still below below' there links = inr (
    square_sum_le size (unknown_at m') (unknown_at m) (λ a b h h'. unknown_at-le m m' still a b),
    square_sum_lt size (pending_at m') (pending_at m) i j
        (λ a b h h'. rw (links a b) (no_longer a b)) below below'
        (rw (links i j, eqb_refl i, eqb_refl j, there) (omega arith)),
  )
    where
      no_longer : (a b : ℕ) → length ((with_link i j rest m).links a b) ≤ length (m.links a b)
      no_longer a b = elim (Bool-cases (i == a)) [
        | inr other ↦ rw other (omega arith)
        | inl same ↦ elim (Bool-cases (j == b)) [
          | inr other ↦ rw (same, other) (omega arith)
          | inl same' ↦
              rw (same, same', ← (==_iff i a).0 same, ← (==_iff j b).0 same', there) (omega arith)
        ]
      ]

  module _ (home : Address → ℕ) (home-address : (i : ℕ) → home (address i) ≡ i) where
    -- The socket that a call leads to.
    abbrev pub socket_for : Call → Option ℕ
    socket_for (call_add_peer host port) = some (home (host, port))
    socket_for (call_add_to_group g n) = none
    socket_for (call_remove_from_group g n) = none

    pub socket_for-AnswersWell : (c : Call) → AnswersWell home address (socket_for c) c
    socket_for-AnswersWell (call_add_peer host port) = refl
    socket_for-AnswersWell (call_add_to_group g n) = tt
    socket_for-AnswersWell (call_remove_from_group g n) = tt

    module _ (i j : ℕ) (m : Mesh) (v : IsSpread home address m)
        (w : IsWithin size home address m) where
      -- The first call of a link is carried out.
      abbrev pub first_call : Call → List Call → Mesh
      first_call c rest =
          post j
            (
              (answer_call (socket_for c) (m.nodes j) c).0,
              (answer_call (socket_for c) (m.nodes j) c).1,
            )
            (with_link i j rest m)

      pub taken_first :
          (c : Call) (rest : List Call)
          → m.links i j ≡ c ∷ rest
          → take_at 0 (m.links i j) ≡ some (c, rest)
      unfolding take_at
      taken_first c rest there = ap (take_at 0) there

      pub first_step :
          (c : Call) (rest : List Call)
          → m.links i j ≡ c ∷ rest
          → mesh_step (delivers i j 0 (socket_for c)) m ≡ first_call c rest
      unfolding mesh_step
      first_step c rest there = simp (mesh_step, taken_first c rest there)

      both_within : (c : Call) (rest : List Call) → m.links i j ≡ c ∷ rest → (i < size) × (j < size)
      both_within c rest there =
          link-within size home address i j 0 c rest m (taken_first c rest there) w

      change-Advances :
          (c : Call) (rest : List Call)
          → m.links i j ≡ c ∷ rest
          → IsChange c
          → StillKnown m (first_call c rest)
          → Advances m (first_call c rest)
      change-Advances c rest there is still =
          let (below, below') = both_within c rest there in
          fewer_pending m (first_call c rest) i j c rest still below below' there
            (links_after_call i j c rest (socket_for c) m is)

      -- The address is known.
      known-Advances :
          (host : Bytes) (port c : ℕ) (rest : List Call)
          → m.links i j ≡ call_add_peer host port ∷ rest
          → StillKnown m (first_call (call_add_peer host port) rest)
          → lookup (host, port) (m.nodes j).peers ≡ some c
          → Advances m (first_call (call_add_peer host port) rest)
      unfolding answer_call calls_to rpc_add_peer
      known-Advances host port c rest there still e =
          let call = call_add_peer host port in
          let (below, below') = both_within call rest there in
          fewer_pending m (first_call call rest) i j call rest still below below' there silent
        where
          silent :
              (a b : ℕ)
              → (first_call (call_add_peer host port) rest).links a b
                ≡ (with_link i j rest m).links a b
          silent a b = elim (Bool-cases (j == a)) [
            | inr other ↦ rw other refl
            | inl same ↦
                rw (same, answer_call, e, rpc_add_peer)
                  (append-nil ((with_link i j rest m).links a b))
          ]

      -- The address is new.
      new-Advances :
          (host : Bytes) (port : ℕ) (rest : List Call)
          → m.links i j ≡ call_add_peer host port ∷ rest
          → StillKnown m (first_call (call_add_peer host port) rest)
          → lookup (host, port) (m.nodes j).peers ≡ none
          → Advances m (first_call (call_add_peer host port) rest)
      unfolding answer_call greet
      new-Advances host port rest there still e =
          let c = call_add_peer host port in
          let there' = taken_first c rest there in
          let valid = told_valid home address home-address i j 0 host port rest m there' v in
          more_known m (first_call c rest) j (home (host, port)) still (both_within c rest there).1
            (told-within size home address i j 0 c rest m there' w (host, port)
              ((address_eqb_iff (host, port) (host, port)).1 refl))
            (rw (valid, e) refl)
            (rw valid (
              known_told home address home-address i j 0 host port rest m there' v j (host, port)
              ∙ rw (eqb_refl j, (address_eqb_iff (host, port) (host, port)).1 refl)
                  (or_true (known m j (host, port)))))

      pub first_call-Advances :
          (c : Call) (rest : List Call)
          → m.links i j ≡ c ∷ rest
          → StillKnown m (first_call c rest)
          → Advances m (first_call c rest)
      first_call-Advances (call_add_to_group g n) rest there still =
          change-Advances (call_add_to_group g n) rest there tt still
      first_call-Advances (call_remove_from_group g n) rest there still =
          change-Advances (call_remove_from_group g n) rest there tt still
      first_call-Advances (call_add_peer host port) rest there still =
          elim (Option-cases (lookup (host, port) (m.nodes j).peers)) [
            | inl new ↦ new-Advances host port rest there still new
            | inr (c, e) ↦ known-Advances host port c rest there still e
          ]
