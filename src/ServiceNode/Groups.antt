-- ===== src/ServiceNode/Groups.antt =====
-- The counts of src/rpc/service_node.cc: which entry of the directory each method changes.
use rawdishfs.Base.{
  Bool, Bool-cases, Bytes, Option, Option-cases, ap, arith, if◌then◌else◌, inl, inr, none, refl,
  some, sym, true, ◌&&◌, ◌∙◌, ◌≡◌,
}
use rawdishfs.Base.Keys.{bytes_eqb, bytes_key, bytes_eqb_iff}
use rawdishfs.Base.OrdMap.{OrdMap, lookup, insert, erase, lookup-insert, lookup-erase}
use rawdishfs.Base.Int.{ℤ, pos, negsuc, inc, dec, is_one}
use rawdishfs.ServiceNode.{
  Internal, members, count, set_count, erase_member, or_empty, add_member, add_to_group,
  rpc_add_to_group, drop_member, remove_missing, remove_from_group, rpc_remove_from_group,
}

-- The entry of the directory for a group and a name.
abbrev pub is_entry : Bytes → Bytes → Bytes → Bytes → Bool
is_entry g n g' n' = bytes_eqb g g' && bytes_eqb n n'

pub count-set_count :
    (g n g' n' : Bytes) (c : ℤ) (groups : OrdMap Bytes (OrdMap Bytes ℤ))
    → count g' n' (set_count g n c groups)
      ≡ (if is_entry g n g' n' then some c else count g' n' groups)
unfolding count set_count members
count-set_count g n g' n' c groups =
    rw (lookup-insert g g' (insert n c (or_empty (lookup g groups))) groups)
      (elim (Bool-cases (bytes_eqb g g')) [
        | inl same ↦
            rw (same, ← (bytes_eqb_iff g g').0 same)
              (lookup-insert n n' c (or_empty (lookup g groups)))
        | inr other ↦ rw other refl
      ])

pub count-erase_member :
    (g n g' n' : Bytes) (groups : OrdMap Bytes (OrdMap Bytes ℤ))
    → count g' n' (erase_member g n groups)
      ≡ (if is_entry g n g' n' then none else count g' n' groups)
unfolding count erase_member members
count-erase_member g n g' n' groups =
    rw (lookup-insert g g' (erase n (or_empty (lookup g groups))) groups)
      (elim (Bool-cases (bytes_eqb g g')) [
        | inl same ↦
            rw (same, ← (bytes_eqb_iff g g').0 same)
              (lookup-erase n n' (or_empty (lookup g groups)))
        | inr other ↦ rw other refl
      ])

-- What the methods make of the entry that they are called for.
abbrev pub added : Option ℤ → Option ℤ
added none = some (pos 1)
added (some c) = some (inc c)

abbrev pub removed : Option ℤ → Option ℤ
removed none = some (pos 0)
removed (some c) = if is_one c then none else some c

abbrev pub rpc_removed : Option ℤ → Option ℤ
rpc_removed none = some (negsuc 0)
rpc_removed (some c) = if is_one c then none else some c

module _ (s : Internal) (g n g' n' : Bytes) where
  pub same_entry : is_entry g n g' n' ≡ true → count g n s.groups ≡ count g' n' s.groups
  same_entry h =
      rw ((bytes_eqb_iff g g').0 (ground arith), (bytes_eqb_iff n n').0 (ground arith)) refl

  count-add_member :
      (found : Option ℤ)
      → count g' n' (add_member s g n found).0.groups
        ≡ (if is_entry g n g' n' then added found else count g' n' s.groups)
  unfolding add_member
  count-add_member none = count-set_count g n g' n' (pos 1) s.groups
  count-add_member (some c) = count-set_count g n g' n' (inc c) s.groups

  -- The node that adds a member and a peer that is told of it change their directory alike.
  pub add_to_group-groups : (add_to_group s g n).0.groups ≡ (rpc_add_to_group s g n).0.groups
  unfolding add_to_group rpc_add_to_group
  add_to_group-groups = ground arith

  -- `addToGroup` and `RPCAddToGroup` set the count of a new member to 1 and add 1 to that of
  -- another, and leave every other entry of the directory.
  pub count-add_to_group :
      (count g' n' (add_to_group s g n).0.groups
        ≡ (if is_entry g n g' n' then added (count g n s.groups) else count g' n' s.groups))
      × (count g' n' (rpc_add_to_group s g n).0.groups
          ≡ (if is_entry g n g' n' then added (count g n s.groups) else count g' n' s.groups))
  count-add_to_group =
      let rpc : count g' n' (rpc_add_to_group s g n).0.groups
          ≡ (if is_entry g n g' n' then added (count g n s.groups) else count g' n' s.groups) =
        unfold rpc_add_to_group in count-add_member (count g n s.groups) in
      (ap (count g' n') add_to_group-groups ∙ rpc, rpc)

  count-drop_member :
      (c : ℤ)
      → count g n s.groups ≡ some c
      → count g' n' (drop_member s g n c).0.groups
        ≡ (if is_entry g n g' n' then (if is_one c then none else some c) else count g' n' s.groups)
  unfolding drop_member
  count-drop_member c e = elim (Bool-cases (is_one c)) [
    | inl one ↦ rw one (count-erase_member g n g' n' s.groups)
    | inr more ↦ rw more (elim (Bool-cases (is_entry g n g' n')) [
      | inl here ↦ rw here (sym (same_entry here) ∙ e)
      | inr away ↦ rw away refl
    ])
  ]

  -- `removeFromGroup` and `RPCRemoveFromGroup` remove a member whose count is 1 and leave any other
  -- count as it is. For a name that is not in the group they make an entry, the first with count 0
  -- and the second with count -1. They leave every other entry of the directory.
  pub count-remove_from_group :
      (count g' n' (remove_from_group s g n).0.groups
        ≡ (if is_entry g n g' n' then removed (count g n s.groups) else count g' n' s.groups))
      × (count g' n' (rpc_remove_from_group s g n).0.groups
          ≡ (if is_entry g n g' n' then rpc_removed (count g n s.groups) else count g' n' s.groups))
  unfolding remove_from_group rpc_remove_from_group remove_missing dec
  count-remove_from_group = (
    elim (Option-cases (count g n s.groups)) [
      | inl e ↦ rw (e, remove_from_group) (count-set_count g n g' n' (pos 0) s.groups)
      | inr (c, e) ↦ rw (e, remove_from_group) (count-drop_member c e)
    ],
    elim (Option-cases (count g n s.groups)) [
      | inl e ↦ rw (e, rpc_remove_from_group) (count-set_count g n g' n' (negsuc 0) s.groups)
      | inr (c, e) ↦ rw (e, rpc_remove_from_group) (count-drop_member c e)
    ],
  )
