-- ===== src/ServiceNode/Introduction.antt =====
-- What a peer learns when src/rpc/service_node.h introduces it.
use rawdishfs.Base.{
  ==_iff, All, Bool-cases, Bytes, List, Option, [], ap, arith, false, if◌then◌else◌, inl, inr, none,
  refl, some, true, ℕ, ◌++◌, ◌==◌, ◌∙◌, ◌∷◌, ◌≡◌, ◌≢◌,
}
use rawdishfs.Base.Keys.{bytes_eqb, bytes_key, bytes_eqb_iff, bytes_eqb_refl}
use rawdishfs.Base.OrdMap.{OrdMap, lookup, IsSorted, lookup_before}
use rawdishfs.Base.Int.{ℤ, pos}
use rawdishfs.ServiceNode.{
  Internal, Effect, send, notify, Call, call_add_to_group, count, members, rpc_add_to_group,
  introduce_members, introduce_groups,
}
use rawdishfs.ServiceNode.Groups.{is_entry, count-add_to_group}
use rawdishfs.ServiceNode.Replicas.{handle, handle_all}

-- The calls among the effects of a method that go to one client.
unfoldable pub calls_to : ℕ → List Effect → List Call
calls_to client [] = []
calls_to client (send c call ∷ es) =
    if c == client then call ∷ calls_to client es else calls_to client es
calls_to client (notify cb n came ∷ es) = calls_to client es

-- A count as a node that is introduced gets it.
abbrev pub once : Option ℤ → Option ℤ → Option ℤ
once none other = other
once (some c) other = some (pos 1)

-- A call that goes to the client comes first.
calls_to_self :
    (client : ℕ) (c : Call) (es : List Effect)
    → calls_to client (send client c ∷ es) ≡ c ∷ calls_to client es
unfolding calls_to
calls_to_self client c es = rw ((==_iff client client).1 refl) refl

count_after :
    (t : Internal) (g n g' n' : Bytes)
    → count g n t.groups ≡ none
    → count g' n' (rpc_add_to_group t g n).0.groups
      ≡ (if is_entry g n g' n' then some (pos 1) else count g' n' t.groups)
count_after t g n g' n' e = (count-add_to_group t g n g' n').1 ∙ rw e refl

handle_members :
    (client : ℕ) (g : Bytes) (ms : OrdMap Bytes ℤ) (t : Internal) (g' n' : Bytes)
    → IsSorted ms
    → ((n : Bytes) → lookup n ms ≢ none → count g n t.groups ≡ none)
    → count g' n' (handle_all t (calls_to client (introduce_members client g ms))).groups ≡ (
        if bytes_eqb g g' then once (lookup n' ms) (count g' n' t.groups) else count g' n' t.groups)
unfolding handle_all calls_to introduce_members lookup
handle_members client g [] t g' n' sorted fresh = ground arith
handle_members client g ((n, c) ∷ ms) t g' n' sorted fresh =
    let t' = (rpc_add_to_group t g n).0 in
    let new : count g n t.groups ≡ none = fresh n (ground (arith, bytes_eqb_refl n)) in
    let absent : lookup n ms ≡ none = lookup_before n ms sorted.0 in
    let fresh' : (m : Bytes)
        → lookup m ms ≢ none
        → count g m (rpc_add_to_group t g n).0.groups ≡ none =
      λ m there. elim (Bool-cases (bytes_eqb n m)) [
        | inl same ↦ absurd (there (rw (← (bytes_eqb_iff n m).0 same) absent))
        | inr other ↦
            count_after t g n g m new ∙ rw (bytes_eqb_refl g, other) (fresh m (rw other there))
      ] in
    let ih = handle_members client g ms t' g' n' sorted.1 fresh' in
    rw (calls_to_self client (call_add_to_group g n) (introduce_members client g ms))
      (ih ∙ rw (count_after t g n g' n' new) (ground (arith, bytes_eqb_iff n n', absent)))

-- Every group of a directory, and every name of a group, stands once and in order.
pub record IsDirectory (groups : OrdMap Bytes (OrdMap Bytes ℤ)) : Type 0 where
  pub sorted : IsSorted groups
  pub sorted_members : All (λ e. IsSorted e.1) groups

handle_all-append :
    (t : Internal) (as' bs : List Call)
    → handle_all t (as' ++ bs) ≡ handle_all (handle_all t as') bs
unfolding handle_all
handle_all-append t [] bs = refl
handle_all-append t (a ∷ as') bs = handle_all-append (handle t a) as' bs

pub calls_to-append :
    (client : ℕ) (es fs : List Effect)
    → calls_to client (es ++ fs) ≡ calls_to client es ++ calls_to client fs
unfolding calls_to
calls_to-append client [] fs = refl
calls_to-append client (send c call ∷ es) fs = ground (arith, calls_to-append client es fs)
calls_to-append client (notify cb n came ∷ es) fs = calls_to-append client es fs

module _ (g : Bytes) (ms : OrdMap Bytes ℤ) (groups : OrdMap Bytes (OrdMap Bytes ℤ))
    (g' n : Bytes) where
  count-cons_here : bytes_eqb g g' ≡ true → count g' n ((g, ms) ∷ groups) ≡ lookup n ms
  unfolding count members lookup
  count-cons_here same = rw same refl

  count-cons_away : bytes_eqb g g' ≡ false → count g' n ((g, ms) ∷ groups) ≡ count g' n groups
  unfolding count members lookup
  count-cons_away other = rw other refl

  count_absent : bytes_eqb g g' ≡ true → lookup g groups ≡ none → count g' n groups ≡ none
  unfolding count members lookup
  count_absent same e = rw (← (bytes_eqb_iff g g').0 same, e) refl

handle_groups :
    (client : ℕ) (groups : OrdMap Bytes (OrdMap Bytes ℤ)) (t : Internal) (g' n' : Bytes)
    → IsSorted groups
    → All (λ e. IsSorted e.1) groups
    → ((g n : Bytes) → count g n groups ≢ none → count g n t.groups ≡ none)
    → count g' n' (handle_all t (calls_to client (introduce_groups client groups))).groups
      ≡ once (count g' n' groups) (count g' n' t.groups)
unfolding introduce_groups
handle_groups client [] t g' n' sorted all_sorted fresh =
    unfold count members lookup calls_to handle_all in refl
handle_groups client ((g, ms) ∷ groups) t g' n' sorted all_sorted fresh =
    rw
      (
        calls_to-append client (introduce_members client g ms) (introduce_groups client groups),
        handle_all-append t (calls_to client (introduce_members client g ms))
            (calls_to client (introduce_groups client groups)),
      )
      (handle_groups client groups t' g' n' sorted.1 all_sorted.1 fresh' ∙ rw (step g' n') last)
  where
    t' : Internal
    t' = handle_all t (calls_to client (introduce_members client g ms))

    absent : lookup g groups ≡ none
    absent = lookup_before g groups sorted.0

    step :
        (h n : Bytes)
        → count h n t'.groups
          ≡ (if bytes_eqb g h then once (lookup n ms) (count h n t.groups) else count h n t.groups)
    step h n =
        handle_members client g ms t h n all_sorted.0
          (λ m there. fresh g m (rw (count-cons_here g ms groups g m (bytes_eqb_refl g)) there))

    fresh' : (h n : Bytes) → count h n groups ≢ none → count h n t'.groups ≡ none
    fresh' h n there = elim (Bool-cases (bytes_eqb g h)) [
      | inl same ↦ absurd (there (count_absent g ms groups h n same absent))
      | inr other ↦
          step h n ∙ rw other (fresh h n (rw (count-cons_away g ms groups h n other) there))
    ]

    last :
        once (count g' n' groups) (
          if bytes_eqb g g'
          then once (lookup n' ms) (count g' n' t.groups)
          else count g' n' t.groups)
        ≡ once (count g' n' ((g, ms) ∷ groups)) (count g' n' t.groups)
    last = elim (Bool-cases (bytes_eqb g g')) [
      | inl same ↦
          rw
            (
              same,
              count_absent g ms groups g' n' same absent,
              count-cons_here g ms groups g' n' same,
            )
            refl
      | inr other ↦ rw (other, count-cons_away g ms groups g' n' other) refl
    ]

-- A node with an empty directory that handles the calls by which `RPCAddPeer` introduces it learns
-- exactly the members of every group, and each with count 1, whatever the count was at the sender.
pub handle_all-introduce_groups :
    (client : ℕ) (s t : Internal) (g n : Bytes)
    → IsDirectory s.groups
    → t.groups ≡ []
    → count g n (handle_all t (calls_to client (introduce_groups client s.groups))).groups
      ≡ once (count g n s.groups) none
handle_all-introduce_groups client s t g n d empty =
    handle_groups client s.groups t g n d.sorted d.sorted_members (λ h m there. nothing h m)
    ∙ ap (once (count g n s.groups)) (nothing g n)
  where
    nothing : (h m : Bytes) → count h m t.groups ≡ none
    nothing h m = rw empty (unfold count members lookup in refl)
