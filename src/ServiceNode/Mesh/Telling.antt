-- ===== src/ServiceNode/Mesh/Telling.antt =====
-- Whom `RPCAddPeer` of src/rpc/service_node.cc tells of which addresses.
use rawdishfs.Base.{
  Bool, Bool-cases, Bytes, List, Option, [], ap, arith, false, inl, inr, none, not, refl, some,
  true, ℕ, ◌&&◌, ◌++◌, ◌==◌, ◌||◌, ◌∙◌, ◌∷◌, ◌≡◌,
}
use rawdishfs.Base.Keys.{
  Address, address_key, address_eqb, address_eqb_iff, bytes_key, nat_key, eqb_refl,
}
use rawdishfs.Base.OrdMap.{OrdMap, lookup}
use rawdishfs.Base.Int.{ℤ}
use rawdishfs.ServiceNode.{
  Effect, send, Call, call_add_peer, call_add_to_group, call_remove_from_group, introduce_peers,
  introduce_members, introduce_groups,
}
use rawdishfs.ServiceNode.Introduction.{calls_to, calls_to-append}

abbrev pub is_some {ℓ} : {A : Type ℓ} → Option A → Bool
is_some none = false
is_some (some a) = true

pub or_true : (x : Bool) → (x || true) ≡ true
or_true true = refl
or_true false = refl

-- Whether calls tell of an address.
abbrev pub tells_of : Address → Call → Bool
tells_of a (call_add_peer host port) = address_eqb (host, port) a
tells_of a (call_add_to_group g n) = false
tells_of a (call_remove_from_group g n) = false

unfoldable pub mentions : Address → List Call → Bool
mentions a [] = false
mentions a (c ∷ cs) = tells_of a c || mentions a cs

pub mentions-append :
    (a : Address) (cs ds : List Call) → mentions a (cs ++ ds) ≡ (mentions a cs || mentions a ds)
unfolding mentions
mentions-append a [] ds = refl
mentions-append a (c ∷ cs) ds = ground (arith, mentions-append a cs ds)

-- One more call.
pub mentions-send :
    (b : Address) (y z : ℕ) (c : Call) (es : List Effect)
    → mentions b (calls_to z (send y c ∷ es))
      ≡ ((y == z) && tells_of b c || mentions b (calls_to z es))
unfolding mentions calls_to
mentions-send b y z c es = elim (Bool-cases (y == z)) [
  | inl same ↦ rw same refl
  | inr other ↦ rw other refl
]

-- The addresses that a new peer is told of, and no others.
pub mentions-introduce_peers :
    (b a : Address) (y : ℕ) (peers : OrdMap Address ℕ)
    → mentions b (calls_to y (introduce_peers y a peers))
      ≡ (is_some (lookup b peers) && not (address_eqb a b))
unfolding mentions introduce_peers calls_to lookup
mentions-introduce_peers b a y [] = refl
mentions-introduce_peers b a y ((d, c) ∷ peers) =
    let rest = mentions-introduce_peers b a y peers in
    elim (Bool-cases (address_eqb a d)) [
      | inl same ↦
          rw (same, rest)
            (ground (arith, address_eqb_iff a d, address_eqb_iff d b, address_eqb_iff a b, same))
      | inr other ↦
          rw
            (
              other,
              mentions-send b y y (call_add_peer d.0 d.1) (introduce_peers y a peers),
              eqb_refl y,
              rest,
            )
            (ground (arith, address_eqb_iff a d, address_eqb_iff d b, address_eqb_iff a b, other))
    ]

pub mentions_only :
    (b a : Address) (y z : ℕ) (peers : OrdMap Address ℕ)
    → mentions b (calls_to z (introduce_peers y a peers)) ≡ true
    → is_some (lookup b peers) ≡ true
unfolding mentions introduce_peers calls_to lookup
mentions_only b a y z [] e = cc
mentions_only b a y z ((d, c) ∷ peers) e = elim (Bool-cases (address_eqb a d)) [
  | inl same ↦ ground (arith, mentions_only b a y z peers (rw same at e))
  | inr other ↦
      let e' =
        rw (mentions-send b y z (call_add_peer d.0 d.1) (introduce_peers y a peers)) at
          (rw other at e) in
      elim (Bool-cases (address_eqb d b)) [
        | inl here ↦ rw here refl
        | inr away ↦ rw away (mentions_only b a y z peers (ground (arith, e', away)))
      ]
]

mentions-introduce_members :
    (b : Address) (y z : ℕ) (g : Bytes) (ms : OrdMap Bytes ℤ)
    → mentions b (calls_to z (introduce_members y g ms)) ≡ false
unfolding mentions introduce_members calls_to
mentions-introduce_members b y z g [] = refl
mentions-introduce_members b y z g ((n, c) ∷ ms) =
    mentions-send b y z (call_add_to_group g n) (introduce_members y g ms)
    ∙ ground (arith, mentions-introduce_members b y z g ms)

pub mentions-introduce_groups :
    (b : Address) (y z : ℕ) (groups : OrdMap Bytes (OrdMap Bytes ℤ))
    → mentions b (calls_to z (introduce_groups y groups)) ≡ false
unfolding mentions introduce_groups calls_to
mentions-introduce_groups b y z [] = refl
mentions-introduce_groups b y z ((g, ms) ∷ groups) =
    ap (mentions b) (calls_to-append z (introduce_members y g ms) (introduce_groups y groups))
    ∙ mentions-append b (calls_to z (introduce_members y g ms))
        (calls_to z (introduce_groups y groups))
    ∙ rw (mentions-introduce_members b y z g ms, mentions-introduce_groups b y z groups) refl
