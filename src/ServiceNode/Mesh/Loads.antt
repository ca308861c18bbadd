-- ===== src/ServiceNode/Mesh/Loads.antt =====
-- How often the calls and the changes of a mesh of src/rpc/service_node.h add a name.
use rawdishfs.Base.{
  All, Bool-cases, Bytes, List, Option, Option-cases, [], ap, arith, if◌then◌else◌, inl, inr, none,
  refl, some, some_inj, suc, zero, ℕ, ◌++◌, ◌+◌, ◌<◌, ◌^◌, ◌∙◌, ◌∷◌, ◌≡◌,
}
use mathlib.Core.Path.{subst}
use rawdishfs.Base.Keys.{bytes_key, nat_key}
use rawdishfs.Base.Sums.{ne→==-false}
use rawdishfs.Base.Int.{ℤ, pos, inc}
use rawdishfs.ServiceNode.{Call, call_add_peer, call_add_to_group, call_remove_from_group}
use rawdishfs.ServiceNode.Groups.{is_entry, added}
use rawdishfs.ServiceNode.Replicas.{call_of}
use rawdishfs.ServiceNode.Mesh.{MeshEvent, changes, joins, delivers, take_at}
use rawdishfs.ServiceNode.Mesh.Entries.{entry_after, IsChange}

-- Whether a call adds a name to a group, as a number, and how many of several do.
abbrev pub weight : Bytes → Bytes → Call → ℕ
weight g n (call_add_to_group h k) = if is_entry h k g n then 1 else 0
weight g n (call_remove_from_group h k) = 0
weight g n (call_add_peer host port) = 0

unfoldable pub load : Bytes → Bytes → List Call → ℕ
load g n [] = 0
load g n (c ∷ cs) = weight g n c + load g n cs

pub load-append :
    (g n : Bytes) (cs ds : List Call) → load g n (cs ++ ds) ≡ load g n cs + load g n ds
unfolding load
load-append g n [] ds = omega arith
load-append g n (c ∷ cs) ds = omega (arith, load-append g n cs ds)

abbrev pub IsAdd : Call → Type 0
IsAdd (call_add_to_group g n) = Unit
IsAdd (call_remove_from_group g n) = ⊥
IsAdd (call_add_peer host port) = ⊥

pub IsAdd-IsChange : (c : Call) → IsAdd c → IsChange c
IsAdd-IsChange (call_add_to_group g n) is = tt
IsAdd-IsChange (call_remove_from_group g n) is = elim is [ ]
IsAdd-IsChange (call_add_peer host port) is = elim is [ ]

-- A call that is taken out.
pub load-take_at :
    (g n : Bytes) (p : ℕ) (cs : List Call) (c : Call) (rest : List Call)
    → take_at p cs ≡ some (c, rest)
    → (load g n cs ≡ weight g n c + load g n rest) × (All IsAdd cs → IsAdd c × All IsAdd rest)
unfolding load take_at
load-take_at g n p [] c rest e = absurd (ground arith)
load-take_at g n zero (d ∷ cs) c rest e =
    let same = some_inj e in
    let head : d ≡ c = ap (λ r. r.0) same in
    let tail : cs ≡ rest = ap (λ r. r.1) same in
    (rw (head, tail) refl, λ all. (rw head at (all.0), rw tail at (all.1)))
load-take_at g n (suc p) (d ∷ cs) c rest e = elim (Option-cases (take_at p cs)) [
  | inl nothing ↦ absurd (ground (arith, rw nothing at e))
  | inr (r, there) ↦
      let same = some_inj (rw there at e) in
      let head : r.0 ≡ c = ap (λ r. r.0) same in
      let tail : d ∷ r.1 ≡ rest = ap (λ r. r.1) same in
      let (sums, alls) = load-take_at g n p cs c r.1 (there ∙ rw head refl) in
      (
        rw (← tail) (omega (arith, sums)),
        λ all.
            let both = alls all.1 in
            let others : All IsAdd (d ∷ r.1) = (all.0, both.1) in
            (both.0, subst (All IsAdd) tail others),
      )
]

-- What as many additions make of an entry that is not there.
unfoldable pub added_times : ℕ → Option ℤ
added_times zero = none
added_times (suc k) = added (added_times k)

-- The entry of a name that was added a number of times.
unfoldable pub entry_of : ℕ → Option ℤ
entry_of zero = none
entry_of (suc k) = some (pos (suc k))

pub added_times-entry_of : (k : ℕ) → k < 2 ^ 31 → added_times k ≡ entry_of k
unfolding added_times entry_of inc
added_times-entry_of zero small = refl
added_times-entry_of (suc zero) small = refl
added_times-entry_of (suc (suc k)) small =
    rw
      (
        added_times-entry_of (suc k) (omega arith),
        ne→==-false (suc k) 2147483647 (λ e. omega (arith, e)),
      )
      refl

pub entry_after-added_times :
    (g n : Bytes) (c : Call) (k : ℕ)
    → IsAdd c
    → entry_after g n c (added_times k) ≡ added_times (weight g n c + k)
unfolding added_times
entry_after-added_times g n (call_add_to_group h m) zero is = elim (Bool-cases (is_entry h m g n)) [
  | inl here ↦ rw here refl
  | inr away ↦ rw away refl
]
entry_after-added_times g n (call_add_to_group h m) (suc k) is =
    let one : 1 + suc k ≡ suc (suc k) = omega arith in
    let nought : 0 + suc k ≡ suc k = omega arith in
    elim (Bool-cases (is_entry h m g n)) [
      | inl here ↦ rw (here, one) refl
      | inr away ↦ rw (away, nought) refl
    ]
entry_after-added_times g n (call_remove_from_group h m) k is = elim is [ ]
entry_after-added_times g n (call_add_peer host port) k is = elim is [ ]

-- How often the nodes add a name to a group.
unfoldable pub adds : Bytes → Bytes → List MeshEvent → ℕ
unfolding call_of
adds g n [] = 0
adds g n (changes i c ∷ es) = weight g n (call_of c) + adds g n es
adds g n (joins i host port socket ∷ es) = adds g n es
adds g n (delivers i j k socket ∷ es) = adds g n es
