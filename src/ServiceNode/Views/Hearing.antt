-- ===== src/ServiceNode/Views/Hearing.antt =====
-- What the parts of the methods of src/rpc/service_node.cc tell a callback.
use rawdishfs.Base.{
  Bool, Bool-cases, Bytes, List, Option, Option-cases, [], arith, false, if◌then◌else◌, inl, inr,
  map, none, not, refl, some, true, ℕ, ◌&&◌, ◌++◌, ◌+◌, ◌==◌, ◌||◌, ◌∙◌, ◌∷◌, ◌≡◌,
}
use rawdishfs.Base.Keys.{
  Address, address_eqb, bytes_eqb, bytes_key, address_key, nat_key, eqb_refl, bytes_eqb_iff,
}
use rawdishfs.Base.OrdMap.{OrdMap, lookup, insert, lookup-insert}
use rawdishfs.Base.Int.{ℤ, is_one}
use rawdishfs.ServiceNode.{
  Internal, notify, or_empty, count, callbacks_of, add_member, drop_member, add_to_group,
  rpc_add_peer, introduce_peers, introduce_members, introduce_groups,
}
use rawdishfs.ServiceNode.Events.{is_member}
use rawdishfs.ServiceNode.Groups.{added}
use rawdishfs.ServiceNode.Mesh.Telling.{or_true}
use rawdishfs.ServiceNode.Notices.{told, occurrences, registered, told-append}
use rawdishfs.ServiceNode.Views.{view}

pub add_becomes :
    (found rest : Option ℤ) (entry : Bool)
    → (entry ≡ true → found ≡ rest)
    → is_member (if entry then added found else rest)
      ≡ (if not (is_member found) && entry then true else is_member rest)
add_becomes none rest true same = refl
add_becomes (some c) rest true same = rw (← same refl) refl
add_becomes none rest false same = refl
add_becomes (some c) rest false same = refl

pub drop_becomes :
    (c : ℤ) (rest : Option ℤ) (entry : Bool)
    → (entry ≡ true → some c ≡ rest)
    → is_member (if entry then (if is_one c then none else some c) else rest)
      ≡ (if is_one c && entry then false else is_member rest)
drop_becomes c rest false same = elim (Bool-cases (is_one c)) [
  | inl one ↦ rw one refl
  | inr more ↦ rw more refl
]
drop_becomes c rest true same = elim (Bool-cases (is_one c)) [
  | inl one ↦ rw one refl
  | inr more ↦ rw (more, ← same refl) refl
]

pub add_member_callbacks :
    (s : Internal) (h n : Bytes) (o : Option ℤ)
    → (add_member s h n o).0.group_callbacks ≡ s.group_callbacks
unfolding add_member
add_member_callbacks s h n none = refl
add_member_callbacks s h n (some c) = refl

pub registered_after_add :
    (cb : ℕ) (s : Internal) (h n j : Bytes)
    → registered cb (add_to_group s h n).0 j ≡ registered cb s j
unfolding add_to_group add_member callbacks_of occurrences
registered_after_add cb s h n j = elim (Option-cases (count h n s.groups)) [
  | inr (c, e) ↦ rw (e, add_to_group, add_member_callbacks s h n (count h n s.groups)) refl
  | inl e ↦
      rw
        (
          e,
          add_to_group,
          lookup-insert h j (or_empty (lookup h s.group_callbacks)) s.group_callbacks,
        )
        (elim (Bool-cases (bytes_eqb h j)) [
          | inr other ↦ rw other refl
          | inl same ↦ rw (same, (bytes_eqb_iff h j).0 same) refl
        ])
]

pub drop_member_callbacks :
    (s : Internal) (h n : Bytes) (c : ℤ)
    → (drop_member s h n c).0.group_callbacks ≡ s.group_callbacks
unfolding drop_member
drop_member_callbacks s h n c = elim (Bool-cases (is_one c)) [
  | inl one ↦ rw one refl
  | inr more ↦ rw more refl
]

-- The introduction of a peer tells no callback.
pub told-introduce_peers :
    (cb y : ℕ) (a : Address) (peers : OrdMap Address ℕ) → told cb (introduce_peers y a peers) ≡ []
unfolding told introduce_peers
told-introduce_peers cb y a [] = refl
told-introduce_peers cb y a ((d, c) ∷ peers) = elim (Bool-cases (address_eqb a d)) [
  | inl same ↦ rw same (told-introduce_peers cb y a peers)
  | inr other ↦ rw other (told-introduce_peers cb y a peers)
]

pub told-introduce_members :
    (cb y : ℕ) (g : Bytes) (ms : OrdMap Bytes ℤ) → told cb (introduce_members y g ms) ≡ []
unfolding told introduce_members
told-introduce_members cb y g [] = refl
told-introduce_members cb y g (m ∷ ms) = told-introduce_members cb y g ms

pub told-introduce_groups :
    (cb y : ℕ) (groups : OrdMap Bytes (OrdMap Bytes ℤ)) → told cb (introduce_groups y groups) ≡ []
unfolding told introduce_groups
told-introduce_groups cb y [] = refl
told-introduce_groups cb y ((g, ms) ∷ groups) =
    told-append cb (introduce_members y g ms) (introduce_groups y groups)
    ∙ rw (told-introduce_members cb y g ms, told-introduce_groups cb y groups) refl

-- `RPCAddPeer` tells no callback, and leaves the groups and the callbacks.
pub rpc_add_peer_silent :
    (cb : ℕ) (s : Internal) (host : Bytes) (port : ℕ) (socket : Option ℕ)
    → (told cb (rpc_add_peer s host port socket).1 ≡ [])
      × ((rpc_add_peer s host port socket).0.groups ≡ s.groups)
      × ((rpc_add_peer s host port socket).0.group_callbacks ≡ s.group_callbacks)
unfolding rpc_add_peer told
rpc_add_peer_silent cb s host port socket = elim (Option-cases (lookup (host, port) s.peers)) [
  | inr (c, e) ↦ rw (e, rpc_add_peer) (refl, refl, refl)
  | inl e ↦ elim (Option-cases socket) [
    | inl refused ↦ rw (e, refused, rpc_add_peer) (refl, refl, refl)
    | inr (y, connects) ↦
        rw (e, connects, rpc_add_peer)
          (
            (told-append cb (introduce_peers y (host, port) (insert (host, port) y s.peers))
                  (introduce_groups y s.groups)
                ∙ rw
                    (
                      told-introduce_peers cb y (host, port) (insert (host, port) y s.peers),
                      told-introduce_groups cb y s.groups,
                    )
                    refl),
            refl,
            refl,
          )
  ]
]

-- A new callback is told of the members.
pub told-members :
    (cb d : ℕ) (ms : OrdMap Bytes ℤ)
    → (d == cb) ≡ false
    → told cb (map (λ m. notify d m.0 true) ms) ≡ []
unfolding told
told-members cb d [] other = refl
told-members cb d (m ∷ ms) other = rw other (told-members cb d ms other)

pub occurrences-append :
    (cb : ℕ) (ds es : List ℕ) → occurrences cb (ds ++ es) ≡ occurrences cb ds + occurrences cb es
unfolding occurrences
occurrences-append cb [] es = omega arith
occurrences-append cb (d ∷ ds) es = ground (arith, occurrences-append cb ds es)

pub view-members :
    (k : Bytes) (cb : ℕ) (ms : OrdMap Bytes ℤ) (b : Bool)
    → view k (told cb (map (λ m. notify cb m.0 true) ms)) b ≡ (is_member (lookup k ms) || b)
unfolding view told lookup
view-members k cb [] b = refl
view-members k cb ((n, c) ∷ ms) b = rw (eqb_refl cb) (
    view-members k cb ms (if bytes_eqb n k then true else b) ∙ elim (Bool-cases (bytes_eqb n k)) [
      | inl same ↦ rw same (or_true (is_member (lookup k ms)))
      | inr other ↦ rw other refl
    ])
