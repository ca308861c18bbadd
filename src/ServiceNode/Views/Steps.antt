-- ===== src/ServiceNode/Views/Steps.antt =====
-- What a callback of src/rpc/service_node.cc knows after a method and after an RPC.
use rawdishfs.Base.{
  Bool, Bool-cases, Bytes, List, Option, Option-cases, [], ap, arith, false, if◌then◌else◌, inl,
  inr, none, not, refl, some, sym, true, ℕ, ◌==◌, ◌∙◌, ◌∷◌, ◌≡◌,
}
use rawdishfs.Base.Keys.{bytes_eqb, bytes_key, address_key, nat_key, bytes_eqb_iff}
use rawdishfs.Base.OrdMap.{lookup, lookup-erase}
use rawdishfs.Base.Int.{ℤ, is_one}
use rawdishfs.ServiceNode.{
  Internal, Effect, call_remove_from_group, or_empty, count, members, callbacks_of, drop_member,
  add_to_group, rpc_add_to_group, remove_from_group, rpc_remove_from_group, add_group_callback,
  remove_group_callback, rpc_add_peer,
}
use rawdishfs.ServiceNode.Events.{is_member, add_group_callback_lem}
use rawdishfs.ServiceNode.Groups.{is_entry, same_entry, count-add_to_group, count-remove_from_group}
use rawdishfs.ServiceNode.Notices.{
  told, occurrences, registered, notices, told-add_member, told-drop_member, told-add_to_group,
  told-sent,
}
use rawdishfs.ServiceNode.Views.{view, IsViewed, told_change, silent}
use rawdishfs.ServiceNode.Views.Hearing.{
  add_becomes, drop_becomes, add_member_callbacks, registered_after_add, drop_member_callbacks,
  rpc_add_peer_silent, told-members, occurrences-append,
}

module _ (cb : ℕ) (g : Bytes) where
  module _ (k : Bytes) (b : Bool) (s : Internal) (v : IsViewed cb g k b s) where
    -- The entry of the name itself.
    entry_alike : (h n : Bytes) → is_entry h n g k ≡ true → count h n s.groups ≡ count g k s.groups
    entry_alike h n = same_entry s h n g k

    pub add_to_group-IsViewed :
        (h n : Bytes)
        → IsViewed cb g k (view k (told cb (add_to_group s h n).1) b) (add_to_group s h n).0
    add_to_group-IsViewed h n =
        told_change cb g k b s (add_to_group s h n).0 (add_to_group s h n).1 h n true
          (not (is_member (count h n s.groups))) (told-add_to_group cb s h n)
          (ap is_member (count-add_to_group s h n g k).0
            ∙ add_becomes (count h n s.groups) (count g k s.groups) (is_entry h n g k)
                (entry_alike h n))
          (registered_after_add cb s h n) v

    pub rpc_add_to_group-IsViewed :
        (h n : Bytes)
        → IsViewed cb g k (view k (told cb (rpc_add_to_group s h n).1) b) (rpc_add_to_group s h n).0
    unfolding rpc_add_to_group
    rpc_add_to_group-IsViewed h n =
        told_change cb g k b s (rpc_add_to_group s h n).0 (rpc_add_to_group s h n).1 h n true
          (not (is_member (count h n s.groups))) (told-add_member cb s h n (count h n s.groups))
          (ap is_member (count-add_to_group s h n g k).1
            ∙ add_becomes (count h n s.groups) (count g k s.groups) (is_entry h n g k)
                (entry_alike h n))
          (λ j. rw (add_member_callbacks s h n (count h n s.groups)) refl) v

    -- The two removals of a member, whose effects for a callback are those of `drop_member`.
    drop_change :
        (h n : Bytes) (c : ℤ) (t : Internal) (es : List Effect)
        → count h n s.groups ≡ some c
        → told cb es ≡ notices cb s h n false (is_one c)
        → count g k t.groups
          ≡ (if is_entry h n g k then (if is_one c then none else some c) else count g k s.groups)
        → t.group_callbacks ≡ s.group_callbacks
        → IsViewed cb g k (view k (told cb es) b) t
    drop_change h n c t es e tells counts callbacks =
        told_change cb g k b s t es h n false (is_one c) tells
          (ap is_member counts
            ∙ drop_becomes c (count g k s.groups) (is_entry h n g k)
                (λ is. sym e ∙ entry_alike h n is))
          (λ j. rw callbacks refl) v

    pub remove_from_group-IsViewed :
        (h n : Bytes)
        → is_member (count h n s.groups) ≡ true
        → IsViewed cb g k
            (view k (told cb (remove_from_group s h n).1) b)
            (remove_from_group s h n).0
    unfolding remove_from_group
    remove_from_group-IsViewed h n there = elim (Option-cases (count h n s.groups)) [
      | inl nothing ↦ absurd (ground (arith, rw nothing at there))
      | inr (c, e) ↦
          drop_change h n c (remove_from_group s h n).0 (remove_from_group s h n).1 e
            (rw (e, remove_from_group)
              (told-sent cb s (call_remove_from_group h n) (drop_member s h n c).1
                ∙ told-drop_member cb s h n c))
            ((count-remove_from_group s h n g k).0 ∙ rw e refl)
            (rw (e, remove_from_group) (drop_member_callbacks s h n c))
    ]

    pub rpc_remove_from_group-IsViewed :
        (h n : Bytes)
        → is_member (count h n s.groups) ≡ true
        → IsViewed cb g k
            (view k (told cb (rpc_remove_from_group s h n).1) b)
            (rpc_remove_from_group s h n).0
    unfolding rpc_remove_from_group
    rpc_remove_from_group-IsViewed h n there = elim (Option-cases (count h n s.groups)) [
      | inl nothing ↦ absurd (ground (arith, rw nothing at there))
      | inr (c, e) ↦
          drop_change h n c (rpc_remove_from_group s h n).0 (rpc_remove_from_group s h n).1 e
            (rw (e, rpc_remove_from_group) (told-drop_member cb s h n c))
            ((count-remove_from_group s h n g k).1 ∙ rw e refl)
            (rw (e, rpc_remove_from_group) (drop_member_callbacks s h n c))
    ]

    pub rpc_add_peer-IsViewed :
        (host : Bytes) (port : ℕ) (socket : Option ℕ)
        → IsViewed cb g k
            (view k (told cb (rpc_add_peer s host port socket).1) b)
            (rpc_add_peer s host port socket).0
    rpc_add_peer-IsViewed host port socket =
        let (tells, groups, callbacks) = rpc_add_peer_silent cb s host port socket in
        silent cb g k b s (rpc_add_peer s host port socket).0 (rpc_add_peer s host port socket).1
          tells (rw groups refl) (rw callbacks refl) (λ j other. rw callbacks (v.only_here j other))
          v

    pub add_group_callback-IsViewed :
        (h : Bytes) (d : ℕ)
        → (d == cb) ≡ false
        → IsViewed cb g k
            (view k (told cb (add_group_callback s h d).1) b)
            (add_group_callback s h d).0
    unfolding callbacks_of
    add_group_callback-IsViewed h d other =
        let (tells, callbacks, counts) = add_group_callback_lem s h d g k in
        silent cb g k b s (add_group_callback s h d).0 (add_group_callback s h d).1
          (ap (told cb) tells ∙ told-members cb d (members h s.groups) other) (ap is_member counts)
          (one_more g) (λ j away. one_more j ∙ v.only_here j away) v
      where
        one_more : (j : Bytes) → registered cb (add_group_callback s h d).0 j ≡ registered cb s j
        one_more j =
            ap (occurrences cb) (add_group_callback_lem s h d j k).1
            ∙ elim (Bool-cases (bytes_eqb h j)) [
              | inr away ↦ rw away refl
              | inl same ↦
                  rw
                    (
                      same,
                      (bytes_eqb_iff h j).0 same,
                      occurrences-append cb (or_empty (lookup j s.group_callbacks)) (d ∷ []),
                    )
                    (unfold occurrences in rw other (omega arith))
            ]

    pub remove_group_callback-IsViewed :
        (h : Bytes) → bytes_eqb h g ≡ false → IsViewed cb g k b (remove_group_callback s h)
    unfolding remove_group_callback occurrences
    remove_group_callback-IsViewed h away = record {
      knows = v.knows;
      here = rw (lookup-erase h g s.group_callbacks, away) v.here;
      only_here = λ j other. elim (Bool-cases (bytes_eqb h j)) [
        | inl same ↦ rw (lookup-erase h j s.group_callbacks, same) refl
        | inr left ↦ rw (lookup-erase h j s.group_callbacks, left) (v.only_here j other)
      ];
    }
