-- ===== src/ServiceNode/Mesh/Settling.antt =====
-- The calls that are on their way between the nodes of src/rpc/service_node.h come to an end.
use rawdishfs.Base.{
  Bytes, List, [], ap, arith, inl, inr, length, none, refl, replicate, suc, zero, ℕ, ◌++◌, ◌∙◌, ◌∷◌,
  ◌≡◌, ◌≢◌,
}
use rawdishfs.Base.Keys.{bytes_key, nat_key, eqb_refl}
use rawdishfs.ServiceNode.{Call, count}
use rawdishfs.ServiceNode.Mesh.{Mesh, MeshEvent, delivers, mesh_step, run_mesh, post, with_link}
use rawdishfs.ServiceNode.Delivery.{answer_call}
use rawdishfs.ServiceNode.Mesh.Entries.{times}
use rawdishfs.ServiceNode.Mesh.Owners.{
  IsStart, link_after, mesh_step-IsCurrent, run_mesh-IsCurrent, run_mesh-agreed, IsStart-IsCurrent,
}
use rawdishfs.ServiceNode.Mesh.Ownership.{AllOrderly, IsCurrent, List-cases}

-- The calls of one connection are carried out, in order.
unfoldable pub flush : ℕ → ℕ → Mesh → List MeshEvent
flush i j m = replicate (length (m.links i j)) (delivers i j 0 none)

run_mesh-append :
    (es fs : List MeshEvent) (m : Mesh) → run_mesh (es ++ fs) m ≡ run_mesh fs (run_mesh es m)
unfolding run_mesh
run_mesh-append [] fs m = refl
run_mesh-append (e ∷ es) fs m = run_mesh-append es fs (mesh_step e m)

module _ (owner : Bytes → Bytes → ℕ) where
  AllOrderly-append :
      (es fs : List MeshEvent) (m : Mesh)
      → AllOrderly owner es m
      → AllOrderly owner fs (run_mesh es m)
      → AllOrderly owner (es ++ fs) m
  unfolding AllOrderly run_mesh
  AllOrderly-append [] fs m a b = b
  AllOrderly-append (e ∷ es) fs m a b = (a.0, AllOrderly-append es fs (mesh_step e m) a.1 b)

  flush-AllOrderly : (i j k : ℕ) (m : Mesh) → AllOrderly owner (replicate k (delivers i j 0 none)) m
  unfolding AllOrderly
  flush-AllOrderly i j zero m = tt
  flush-AllOrderly i j (suc k) m =
      (refl, flush-AllOrderly i j k (mesh_step (delivers i j 0 none) m))

  links-flush :
      (start : Mesh) (i j k : ℕ) (m : Mesh)
      → ((i : ℕ) → times i (start.nodes i).peers ≡ 0)
      → IsCurrent owner start m
      → length (m.links i j) ≡ k
      → (run_mesh (replicate k (delivers i j 0 none)) m).links i j ≡ []
  unfolding run_mesh mesh_step
  links-flush start i j zero m not_self v size = elim (List-cases (m.links i j)) [
    | inl nothing ↦ nothing
    | inr (c, rest, there) ↦ absurd (ground (arith, rw there at size))
  ]
  links-flush start i j (suc k) m not_self v size = elim (List-cases (m.links i j)) [
    | inl nothing ↦ absurd (ground (arith, rw nothing at size))
    | inr (c, rest, there) ↦
        let m' = mesh_step (delivers i j 0 none) m in
        links-flush start i j k m' not_self
          (mesh_step-IsCurrent owner start (delivers i j 0 none) m not_self refl v)
          (ap length (left_over c rest there) ∙ omega (arith, ap length there, size))
  ]
    where
      left_over :
          (c : Call) (rest : List Call)
          → m.links i j ≡ c ∷ rest
          → (mesh_step (delivers i j 0 none) m).links i j ≡ rest
      left_over c rest there =
          let r = answer_call none (m.nodes j) c in
          let step : mesh_step (delivers i j 0 none) m ≡ post j (r.0, r.1) (with_link i j rest m) =
            simp (mesh_step, there) in
          ap (λ (x : Mesh). x.links i j) step
          ∙ link_after owner start i j c rest none m v there i j
          ∙ rw (eqb_refl i, eqb_refl j) refl

-- The mesh settles: with the conditions of `run_mesh-agreed` on the mesh and its events, finitely
-- many more steps, the calls that are on their way from the owner of a name to a peer, bring the
-- count of the peer to that of the owner, from every state that is reached.
pub run_mesh-flush :
    (owner : Bytes → Bytes → ℕ) (m : Mesh) (es : List MeshEvent) (i j : ℕ) (g n : Bytes)
    → IsStart owner m
    → AllOrderly owner es m
    → owner g n ≡ i
    → i ≢ j
    → times j (m.nodes i).peers ≡ 1
    → count g n ((run_mesh (flush i j (run_mesh es m)) (run_mesh es m)).nodes j).groups
      ≡ count g n ((run_mesh (flush i j (run_mesh es m)) (run_mesh es m)).nodes i).groups
unfolding flush
run_mesh-flush owner m es i j g n starts orderly mine ne linked =
    let m' = run_mesh es m in
    let v =
      run_mesh-IsCurrent owner m es m starts.not_self orderly (IsStart-IsCurrent owner m starts) in
    let settled = links-flush owner m i j (length (m'.links i j)) m' starts.not_self v refl in
    let same = run_mesh-append es (flush i j m') m in
    rw same at (
      run_mesh-agreed owner m (es ++ flush i j m') i j g n starts
        (AllOrderly-append owner es (flush i j m') m orderly
          (flush-AllOrderly owner i j (length (m'.links i j)) m'))
        mine ne linked (rw same settled))
