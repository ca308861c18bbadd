-- ===== src/ServiceNode/Events.antt =====
-- What the methods of src/rpc/service_node.cc make of the entry that they are called for.
use rawdishfs.Base.OrdMap.{lookup, lookup-insert}
use rawdishfs.ServiceNode.{
  or_empty, callbacks_of, members, notify, add_group_callback, Internal, count, add_to_group,
  rpc_add_to_group, remove_from_group, rpc_remove_from_group,
}
use rawdishfs.Base.Keys.{bytes_eqb_iff, bytes_eqb, bytes_key, bytes_eqb_refl}
use rawdishfs.Base.Int.{pos, ℤ}
use rawdishfs.Base.{
  Bool, Bytes, Option, [], arith, false, none, refl, some, true, ◌++◌, ◌≡◌, ℕ, map, suc, ◌∙◌,
  if◌then◌else◌, ◌∷◌, zero, Bool-cases, inl, inr,
}
use rawdishfs.ServiceNode.Groups.{
  is_entry, added, removed, rpc_removed, count-add_to_group, count-remove_from_group,
}

abbrev pub is_member : Option ℤ → Bool
is_member none = false
is_member (some c) = true

module _ (s : Internal) (g n : Bytes) where
  here : is_entry g n g n ≡ true
  here = rw (bytes_eqb_refl g, bytes_eqb_refl n) refl

  pub after_add : count g n (add_to_group s g n).0.groups ≡ added (count g n s.groups)
  after_add = rw here at ((count-add_to_group s g n g n).0)

  pub after_rpc_add : count g n (rpc_add_to_group s g n).0.groups ≡ added (count g n s.groups)
  after_rpc_add = rw here at ((count-add_to_group s g n g n).1)

  pub after_remove : count g n (remove_from_group s g n).0.groups ≡ removed (count g n s.groups)
  after_remove = rw here at ((count-remove_from_group s g n g n).0)

  pub after_rpc_remove :
      count g n (rpc_remove_from_group s g n).0.groups ≡ rpc_removed (count g n s.groups)
  after_rpc_remove = rw here at ((count-remove_from_group s g n g n).1)

-- `removeFromGroup`, called `k` times.
pub remove_again : ℕ → Internal → Bytes → Bytes → Internal
remove_again zero s g n = s
remove_again (suc k) s g n = remove_again k (remove_from_group s g n).0 g n

-- A member whose count is 2 or more is never removed: however often `removeFromGroup` is called,
-- the count stays what it was.
pub count-remove_again :
    (k c : ℕ) (s : Internal) (g n : Bytes)
    → count g n s.groups ≡ some (pos (suc (suc c)))
    → count g n (remove_again k s g n).groups ≡ some (pos (suc (suc c)))
unfolding remove_again
count-remove_again zero c s g n e = e
count-remove_again (suc k) c s g n e =
    count-remove_again k c (remove_from_group s g n).0 g n
      (after_remove s g n ∙ rw e (ground arith))

-- `addGroupCallback` tells the callback of each member so far, once and in the order of the group,
-- puts it behind the callbacks of its group, and changes no count and no other group's callbacks.
pub add_group_callback_lem :
    (s : Internal) (g : Bytes) (cb : ℕ) (g' n' : Bytes)
    → ((add_group_callback s g cb).1 ≡ map (λ m. notify cb m.0 true) (members g s.groups))
      × (callbacks_of (add_group_callback s g cb).0 g'
          ≡ (if bytes_eqb g g' then callbacks_of s g ++ cb ∷ [] else callbacks_of s g'))
      × (count g' n' (add_group_callback s g cb).0.groups ≡ count g' n' s.groups)
unfolding add_group_callback
add_group_callback_lem s g cb g' n' = (
  refl,
  (unfold callbacks_of in
      rw (lookup-insert g g' (or_empty (lookup g s.group_callbacks) ++ cb ∷ []) s.group_callbacks)
        (ground arith)),
  (unfold count members in
      rw (lookup-insert g g' (or_empty (lookup g s.groups)) s.groups)
        (elim (Bool-cases (bytes_eqb g g')) [
          | inl same ↦ rw (same, (bytes_eqb_iff g g').0 same) refl
          | inr other ↦ rw other refl
        ])),
)
