-- ===== src/ServiceNode/Mesh/Spread.antt =====
-- How the addresses of the nodes of src/rpc/service_node.h spread over a mesh.
use rawdishfs.Base.{
  ==_iff, Bool, Bool-cases, Bytes, List, Option-cases, ap, arith, false, inl, inr, refl, some, sym,
  true, ℕ, ◌&&◌, ◌==◌, ◌||◌, ◌∙◌, ◌≡◌, ◌≢◌, ◌⊎◌,
}
use rawdishfs.Base.Keys.{
  Address, address_key, address_eqb, address_eqb_iff, bytes_key, nat_key, eqb_refl,
}
use rawdishfs.Base.OrdMap.{lookup}
use rawdishfs.ServiceNode.{Internal, Effect, rpc_add_peer}
use rawdishfs.ServiceNode.Introduction.{calls_to}
use rawdishfs.ServiceNode.Mesh.{Mesh, post}
use rawdishfs.ServiceNode.Mesh.Telling.{is_some, mentions, mentions-append, or_true}
use rawdishfs.ServiceNode.Mesh.Greeting.{Greets, rpc_add_peer-Greets}

-- Whether a node has a peer with an address.
abbrev pub known : Mesh → ℕ → Address → Bool
known m i a = is_some (lookup a (m.nodes i).peers)

-- A node knows an address or is being told of it; but for one address at one node.
abbrev pub Reaches : Mesh → Address → ℕ → Type 0
Reaches m a y = (known m y a ≡ true) ⊎ ((k : ℕ) × (mentions a (m.links k y) ≡ true))

abbrev pub ReachesBut : Address → ℕ → Mesh → Address → ℕ → Type 0
ReachesBut a i m b y = Reaches m b y ⊎ ((b ≡ a) × (y ≡ i))

-- A node calls `RPCAddPeer`, and the connection is one to the node with the address.
unfoldable pub greet : (Address → ℕ) → ℕ → Bytes → ℕ → Mesh → Internal × List Effect
unfolding rpc_add_peer
greet home i host port m =
    let r = rpc_add_peer (m.nodes i) host port (some (home (host, port))) in (r.0, r.1)

pub greet-Greets :
    (home : Address → ℕ) (i : ℕ) (host : Bytes) (port : ℕ) (m : Mesh)
    → Greets (m.nodes i) (host, port) (home (host, port)) (greet home i host port m)
unfolding greet
greet-Greets home i host port m = rpc_add_peer-Greets (m.nodes i) host port (home (host, port))

and_left : (a b : Bool) → (a && b) ≡ true → a ≡ true
and_left true b e = refl
and_left false b e = e

and_right : (a b : Bool) → (a && b) ≡ true → b ≡ true
and_right true b e = e
and_right false b e = cc

module _ (home : Address → ℕ) (address : ℕ → Address) where
  -- Nodes have their addresses, and each call goes where its address is. Of two nodes of which one is
  -- a peer of the other, and of two peers of one node, the first reaches the second, or the second
  -- the first. `R` is `Reaches`, with the exception.
  pub record Spreads (R : Address → ℕ → Type 0) (m : Mesh) : Type 0 where
    pub place : (i : ℕ) → ((m.nodes i).host, (m.nodes i).port) ≡ address i
    pub clients :
        (i : ℕ) (a : Address) (c : ℕ)
        → lookup a (m.nodes i).peers ≡ some c
        → (c ≡ home a) × (address (home a) ≡ a)
    pub told : (k y : ℕ) (a : Address) → mentions a (m.links k y) ≡ true → address (home a) ≡ a
    pub symmetric : (x y : ℕ) → x ≢ y → known m x (address y) ≡ true → R (address x) y
    pub shared :
        (w x y : ℕ)
        → x ≢ y
        → known m w (address x) ≡ true
        → known m w (address y) ≡ true
        → R (address x) y ⊎ R (address y) x

  abbrev pub IsSpread : Mesh → Type 0
  IsSpread m = Spreads (Reaches m) m

  -- A node calls `RPCAddPeer` for an address, which may be the exception.
  module _ (home-address : (i : ℕ) → home (address i) ≡ i) (i : ℕ) (host : Bytes) (port : ℕ)
      (m : Mesh) (valid : address (home (host, port)) ≡ (host, port))
      (v : Spreads (ReachesBut (host, port) i m) m) where
    abbrev result : Internal × List Effect
    result = greet home i host port m

    greets : Greets (m.nodes i) (host, port) (home (host, port)) result
    greets = greet-Greets home i host port m

    abbrev new_mesh : Mesh
    new_mesh = post i result m

    pub known_after :
        (x : ℕ) (b : Address)
        → known (post i (greet home i host port m) m) x b
          ≡ (known m x b || (i == x) && address_eqb (host, port) b)
    known_after x b = elim (Bool-cases (i == x)) [
      | inl same ↦ rw (same, greets.knows b, (==_iff i x).0 same) refl
      | inr other ↦ rw other (ground arith)
    ]

    mentions_after :
        (b : Address) (k y : ℕ)
        → mentions b (new_mesh.links k y)
          ≡ (mentions b (m.links k y) || (i == k) && mentions b (calls_to y result.1))
    mentions_after b k y = elim (Bool-cases (i == k)) [
      | inl same ↦ rw same (mentions-append b (m.links k y) (calls_to y result.1))
      | inr other ↦ rw other (ground arith)
    ]

    Reaches_after : (b : Address) (y : ℕ) → ReachesBut (host, port) i m b y → Reaches new_mesh b y
    Reaches_after b y (inl (inl there)) = inl (known_after y b ∙ rw there refl)
    Reaches_after b y (inl (inr (k, there))) = inr (k, mentions_after b k y ∙ rw there refl)
    Reaches_after b y (inr (same, here)) = inl (
        known_after y b
        ∙ rw (same, here, eqb_refl i, (address_eqb_iff (host, port) (host, port)).1 refl)
            (or_true (known m i (host, port))))

    tells_of :
        (b : Address) (y : ℕ)
        → home (host, port) ≡ y
        → mentions b (calls_to (home (host, port)) result.1) ≡ true
        → Reaches new_mesh b y
    tells_of b y e told = inr (i, mentions_after b i y ∙ rw (eqb_refl i, ← e, told) (ground arith))

    -- A peer that a node has afterwards was there, or is the new one.
    old_or_new :
        (x : ℕ) (b : Address)
        → known new_mesh x b ≡ true
        → (known m x b ≡ true) ⊎ ((x ≡ i) × (b ≡ (host, port)) × (known m i (host, port) ≡ false))
    old_or_new x b e = elim (Bool-cases (known m x b)) [
      | inl had ↦ inl had
      | inr new ↦
          let both : (i == x) && address_eqb (host, port) b ≡ true =
            rw new at (sym (known_after x b) ∙ e) in
          let here : x ≡ i =
            sym ((==_iff i x).0 (and_left (i == x) (address_eqb (host, port) b) both)) in
          let same : b ≡ (host, port) = sym (
            (address_eqb_iff (host, port) b).0
              (and_right (i == x) (address_eqb (host, port) b) both)) in
          inr (here, same, rw (here, same) at new)
    ]

    client_after :
        (b : Address) (c : ℕ)
        → lookup b result.0.peers ≡ some c
        → (c ≡ home b) × (address (home b) ≡ b)
    client_after b c there = elim (greets.clients b c there) [
      | inl old ↦ v.clients i b c old
      | inr (same, its_home) ↦ (its_home ∙ ap home (sym same), rw same valid)
    ]

    told_after :
        (b : Address) (y : ℕ) → mentions b (calls_to y result.1) ≡ true → address (home b) ≡ b
    told_after b y e = elim (greets.tells_only b y e) [
      | inl itself ↦
          let same : b ≡ address i = itself ∙ v.place i in rw same (ap address (home-address i))
      | inr there ↦ elim (Option-cases (lookup b result.0.peers)) [
        | inl nothing ↦ absurd (false_true (rw nothing at there))
        | inr (c, found) ↦ (client_after b c found).1
      ]
    ]
      where
        false_true : false ≡ true → ⊥
        false_true h = cc

    home_of : (y : ℕ) → address y ≡ (host, port) → home (host, port) ≡ y
    home_of y e = ap home (sym e) ∙ home-address y

    -- The new peer is told of the others.
    tells_of_others :
        (x y : ℕ)
        → x ≢ y
        → address x ≡ (host, port)
        → known m i (host, port) ≡ false
        → known m i (address y) ≡ true
        → Reaches new_mesh (address y) x
    tells_of_others x y ne e new had = tells_of (address y) x (home_of x e) (
        greets.tells_others (address y) new
          (elim (Bool-cases (address_eqb (host, port) (address y))) [
            | inr away ↦ away
            | inl same ↦ absurd (
                ne (
                  sym (home-address x)
                  ∙ ap home (e ∙ (address_eqb_iff (host, port) (address y)).0 same)
                  ∙ home-address y))
          ])
          had)

    pub greeted-IsSpread : IsSpread (post i (greet home i host port m) m)
    greeted-IsSpread = record {
      place = λ x. elim (Bool-cases (i == x)) [
        | inr other ↦ rw other (v.place x)
        | inl same ↦ rw (same, greets.same_host, greets.same_port, (==_iff i x).0 same) (v.place x)
      ];
      clients = λ x b c there. elim (Bool-cases (i == x)) [
        | inr other ↦ v.clients x b c (rw other at there)
        | inl same ↦ client_after b c (rw same at there)
      ];
      told = λ k y b e. elim (Bool-cases (mentions b (m.links k y))) [
        | inl old ↦ v.told k y b old
        | inr new ↦
            let both : (i == k) && mentions b (calls_to y result.1) ≡ true =
              rw new at (sym (mentions_after b k y) ∙ e) in
            told_after b y (and_right (i == k) (mentions b (calls_to y result.1)) both)
      ];
      symmetric = λ x y ne e. elim (old_or_new x (address y) e) [
        | inl old ↦ Reaches_after (address x) y (v.symmetric x y ne old)
        | inr (here, same, new) ↦
            tells_of (address x) y (home_of y same) (rw (here, ← v.place i) (greets.tells_self new))
      ];
      shared = λ w x y ne e f. elim (old_or_new w (address x) e) [
        | inl old ↦ elim (old_or_new w (address y) f) [
          | inl old' ↦ elim (v.shared w x y ne old old') [
            | inl a ↦ inl (Reaches_after (address x) y a)
            | inr b ↦ inr (Reaches_after (address y) x b)
          ]
          | inr (here, same, new) ↦
              inl (tells_of_others y x (λ q. ne (sym q)) same new (rw here at old))
        ]
        | inr (here, same, new) ↦ elim (old_or_new w (address y) f) [
          | inl old' ↦ inr (tells_of_others x y ne same new (rw here at old'))
          | inr (here', same', new') ↦
              absurd (ne (sym (home-address x) ∙ ap home (same ∙ sym same') ∙ home-address y))
        ]
      ];
    }
