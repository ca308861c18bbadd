-- ===== src/ServiceNode/Views.antt =====
-- What a callback of src/rpc/service_node.cc knows of the members of its group from what it is told.
pub mod Hearing
pub mod Steps
pub mod Runs
use rawdishfs.Base.{
  Bool, Bool-cases, Bytes, List, Option, [], ap, arith, false, if◌then◌else◌, inl, inr, none, not,
  refl, replicate, suc, sym, true, zero, ℕ, ◌&&◌, ◌++◌, ◌==◌, ◌∙◌, ◌∷◌, ◌≡◌, ◌≤◌,
}
use rawdishfs.Base.Keys.{Address, bytes_eqb, bytes_key, address_key, nat_key, bytes_eqb_iff}
use rawdishfs.ServiceNode.{
  Internal, Effect, Call, call_add_peer, call_add_to_group, call_remove_from_group, count, members,
  remove_peer, shutdown,
}
use rawdishfs.ServiceNode.Events.{is_member}
use rawdishfs.ServiceNode.Groups.{is_entry}
use rawdishfs.ServiceNode.Methods.{
  NodeMethod, peer_added, name_added, name_removed, callback_added, callback_removed, invoke,
}
use rawdishfs.ServiceNode.Delivery.{answer_call}
use rawdishfs.ServiceNode.Notices.{told, registered, notices}

-- What happens to a node: a method, an RPC of a peer with what `TcpSocket::connect` gives, a lost
-- connection, or its shutdown.
pub data NodeEvent : Type 0 where
  method : NodeMethod → NodeEvent
  is_called : Option ℕ → Call → NodeEvent
  loses_peer : Address → NodeEvent
  shuts_down : NodeEvent

unfoldable pub happen : NodeEvent → Internal → Internal × List Effect
unfolding invoke answer_call remove_peer shutdown
happen (method m) s = invoke m s
happen (is_called socket c) s = let r = answer_call socket s c in (r.0, r.1)
happen (loses_peer addr) s = (remove_peer s addr, [])
happen shuts_down s = (shutdown s, [])

unfoldable pub run_node : List NodeEvent → Internal → Internal × List Effect
unfolding happen
run_node [] s = (s, [])
run_node (e ∷ es) s = let r = happen e s in let rest = run_node es r.0 in (rest.0, r.1 ++ rest.1)

-- What is known of a name after what was told, from what was known before.
unfoldable pub view : Bytes → List (Bytes × Bool) → Bool → Bool
view k [] b = b
view k ((n, came) ∷ es) b = view k es (if bytes_eqb n k then came else b)

pub view-append :
    (k : Bytes) (es fs : List (Bytes × Bool)) (b : Bool)
    → view k (es ++ fs) b ≡ view k fs (view k es b)
unfolding view
view-append k [] fs b = refl
view-append k ((n, came) ∷ es) fs b = view-append k es fs (if bytes_eqb n k then came else b)

pub view-replicate :
    (k n : Bytes) (came b : Bool) (r : ℕ)
    → 1 ≤ r
    → view k (replicate r (n, came)) b ≡ (if bytes_eqb n k then came else b)
unfolding view
view-replicate k n came b zero one = absurd (omega arith)
view-replicate k n came b (suc zero) one = refl
view-replicate k n came b (suc (suc r)) one =
    view-replicate k n came (if bytes_eqb n k then came else b) (suc r) (omega arith)
    ∙ elim (Bool-cases (bytes_eqb n k)) [ inl same ↦ rw same refl | inr other ↦ rw other refl ]

module _ (cb : ℕ) (g : Bytes) where
  -- A removal is one of a member; the callback is not registered again, nor its group cleared.
  abbrev pub KeepsMethod : NodeMethod → Internal → Type 0
  KeepsMethod (peer_added host port socket) s = Unit
  KeepsMethod (name_added h n) s = Unit
  KeepsMethod (name_removed h n) s = is_member (count h n s.groups) ≡ true
  KeepsMethod (callback_added h d) s = (d == cb) ≡ false
  KeepsMethod (callback_removed h) s = bytes_eqb h g ≡ false

  abbrev pub KeepsCall : Call → Internal → Type 0
  KeepsCall (call_add_peer host port) s = Unit
  KeepsCall (call_add_to_group h n) s = Unit
  KeepsCall (call_remove_from_group h n) s = is_member (count h n s.groups) ≡ true

  abbrev pub KeepsView : NodeEvent → Internal → Type 0
  KeepsView (method m) s = KeepsMethod m s
  KeepsView (is_called socket c) s = KeepsCall c s
  KeepsView (loses_peer addr) s = Unit
  KeepsView shuts_down s = Unit

  unfoldable pub AllKeepView : List NodeEvent → Internal → Type 0
  unfolding happen
  AllKeepView [] s = Unit
  AllKeepView (e ∷ es) s = KeepsView e s × AllKeepView es (happen e s).0

  -- The callback is registered for its group and no other, and knows whether a name is a member.
  pub record IsViewed (k : Bytes) (b : Bool) (s : Internal) : Type 0 where
    pub knows : b ≡ is_member (count g k s.groups)
    pub here : 1 ≤ registered cb s g
    pub only_here : (h : Bytes) → bytes_eqb h g ≡ false → registered cb s h ≡ 0

  -- A step that changes one name, or none, and tells of it.
  pub told_change :
      (k : Bytes) (b : Bool) (s t : Internal) (es : List Effect) (h n : Bytes) (came changes : Bool)
      → told cb es ≡ notices cb s h n came changes
      → is_member (count g k t.groups)
        ≡ (if changes && is_entry h n g k then came else is_member (count g k s.groups))
      → ((j : Bytes) → registered cb t j ≡ registered cb s j)
      → IsViewed k b s
      → IsViewed k (view k (told cb es) b) t
  unfolding view
  told_change k b s t es h n came changes tells becomes same v = record {
    knows = ap (λ xs. view k xs b) tells ∙ known ∙ sym becomes;
    here = rw (same g) v.here;
    only_here = λ j other. same j ∙ v.only_here j other;
  }
    where
      known :
          view k (notices cb s h n came changes) b
          ≡ (if changes && is_entry h n g k then came else is_member (count g k s.groups))
      known = elim (Bool-cases changes) [
        | inr stays ↦ rw stays v.knows
        | inl does ↦ elim (Bool-cases (bytes_eqb h g)) [
          | inr other ↦ rw (does, other, v.only_here h other) v.knows
          | inl group ↦
              let eq = (bytes_eqb_iff h g).0 group in
              rw (does, group)
                (view-replicate k n came b (registered cb s h) (rw eq v.here) ∙ rw v.knows refl)
        ]
      ]

  -- A step that changes no member and tells the callback nothing.
  pub silent :
      (k : Bytes) (b : Bool) (s t : Internal) (es : List Effect)
      → told cb es ≡ []
      → is_member (count g k t.groups) ≡ is_member (count g k s.groups)
      → (registered cb t g ≡ registered cb s g)
      → ((j : Bytes) → bytes_eqb j g ≡ false → registered cb t j ≡ 0)
      → IsViewed k b s
      → IsViewed k (view k (told cb es) b) t
  unfolding view
  silent k b s t es tells same registers others v = record {
    knows = ap (λ xs. view k xs b) tells ∙ v.knows ∙ sym same;
    here = rw registers v.here;
    only_here = others;
  }
