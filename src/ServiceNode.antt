-- ===== src/ServiceNode.antt =====
-- `ServiceNode::Internal` of src/rpc/service_node.h and src/rpc/service_node.cc: the directory of
-- groups that a node of the mesh shares with its peers. A method is one step: it returns the new
-- state beside what it did to others, in order. That is what the mutex gives; only `shutdown` and
-- the test of `RPCAddPeer` for a known peer do not take it. A client and a callback are named by a
-- number; a callback does not call the node.
pub mod Groups
pub mod Events
pub mod Replicas
pub mod Introduction
pub mod Peers
pub mod Service
pub mod Methods
pub mod Delivery
pub mod Mesh
pub mod Notices
pub mod Views
mod Tests
use rawdishfs.Base.{
  Bool, Bytes, List, Option, [], false, if◌then◌else◌, map, none, not, some, true, ℕ, ◌++◌, ◌∷◌,
}
use rawdishfs.Base.Keys.{Address, address_eqb, bytes_key, address_key}
use rawdishfs.Base.OrdMap.{OrdMap, lookup, insert, erase}
use rawdishfs.Base.Int.{ℤ, pos, inc, dec, is_one, exceeds_one}

-- The calls that a node makes to its peers.
pub data Call : Type 0 where
  call_add_peer : Bytes → ℕ → Call
  call_add_to_group : Bytes → Bytes → Call
  call_remove_from_group : Bytes → Bytes → Call

-- A call to a client, or a callback that is told of a member that came (`true`) or left.
pub data Effect : Type 0 where
  send : ℕ → Call → Effect
  notify : ℕ → Bytes → Bool → Effect

pub record Internal : Type 0 where
  pub host : Bytes
  pub port : ℕ
  pub peers : OrdMap Address ℕ
  pub groups : OrdMap Bytes (OrdMap Bytes ℤ)
  pub group_callbacks : OrdMap Bytes (List ℕ)

-- The constructor.
unfoldable pub new_internal : Bytes → ℕ → Internal
new_internal host port = record {
  host = host;
  port = port;
  peers = [];
  groups = [];
  group_callbacks = [];
}

abbrev pub or_empty {ℓ} : {A : Type ℓ} → Option (List A) → List A
or_empty none = []
or_empty (some xs) = xs

-- `_groups[group]`: a group that is not there is empty.
pub members : Bytes → OrdMap Bytes (OrdMap Bytes ℤ) → OrdMap Bytes ℤ
members group groups = or_empty (lookup group groups)

-- `_groups[group].find(name)`
pub count : Bytes → Bytes → OrdMap Bytes (OrdMap Bytes ℤ) → Option ℤ
count group name groups = lookup name (members group groups)

-- `_groups[group][name] = c`, and `_groups[group].erase(name)`
pub set_count : Bytes → Bytes → ℤ → OrdMap Bytes (OrdMap Bytes ℤ) → OrdMap Bytes (OrdMap Bytes ℤ)
set_count group name c groups = insert group (insert name c (members group groups)) groups

pub erase_member : Bytes → Bytes → OrdMap Bytes (OrdMap Bytes ℤ) → OrdMap Bytes (OrdMap Bytes ℤ)
erase_member group name groups = insert group (erase name (members group groups)) groups

pub callbacks_of : Internal → Bytes → List ℕ
callbacks_of s group = or_empty (lookup group s.group_callbacks)

-- Each callback of the group is told, in the order of registration.
pub notify_all : Internal → Bytes → Bytes → Bool → List Effect
notify_all s group name came = map (λ cb. notify cb name came) (callbacks_of s group)

-- The same call to each peer, in the order of `_peers`.
pub send_all : Internal → Call → List Effect
send_all s c = map (λ p. send p.1 c) s.peers

-- The membership part of `addToGroup` and `RPCAddToGroup`; the count that was found is given.
pub add_member : Internal → Bytes → Bytes → Option ℤ → Internal × List Effect
add_member s group name (some c) = (record s { groups = set_count group name (inc c) s.groups }, [])
add_member s group name none =
    (record s { groups = set_count group name (pos 1) s.groups }, notify_all s group name true)

-- `addToGroup`. For a new member `_group_callbacks[group]` is made where it was not there.
pub add_to_group : Internal → Bytes → Bytes → Internal × List Effect
add_to_group s group name =
    let sent = send_all s (call_add_to_group group name) in
    let added = add_member s group name (count group name s.groups) in
    (
      elim (count group name s.groups) [
        | some c ↦ added.0
        | none ↦ record added.0 {
          group_callbacks = insert group (callbacks_of s group) s.group_callbacks;
        }
      ],
      sent ++ added.1,
    )

unfoldable pub rpc_add_to_group : Internal → Bytes → Bytes → Internal × List Effect
rpc_add_to_group s group name = add_member s group name (count group name s.groups)

-- A member whose count is 1 leaves; any other count stays as it is.
pub drop_member : Internal → Bytes → Bytes → ℤ → Internal × List Effect
drop_member s group name c =
    if is_one c
    then (record s { groups = erase_member group name s.groups }, notify_all s group name false)
    else (s, [])

-- The branch of `removeFromGroup` for a name that is not in the group: `_groups[group][name]` in
-- its test makes the entry, with count 0.
pub remove_missing : Internal → Bytes → Bytes → Internal
remove_missing s group name =
    let groups = set_count group name (pos 0) s.groups in
    if exceeds_one (pos 0)
    then record s { groups = set_count group name (dec (pos 0)) groups }
    else record s { groups = groups }

-- `removeFromGroup`
pub remove_from_group : Internal → Bytes → Bytes → Internal × List Effect
remove_from_group s group name =
    let sent = send_all s (call_remove_from_group group name) in
    elim (count group name s.groups) [
      | some c ↦ let dropped = drop_member s group name c in (dropped.0, sent ++ dropped.1)
      | none ↦ (remove_missing s group name, sent)
    ]

-- `RPCRemoveFromGroup`: for a name that is not in the group, `_groups[group][value]--`.
unfoldable pub rpc_remove_from_group : Internal → Bytes → Bytes → Internal × List Effect
rpc_remove_from_group s group name = elim (count group name s.groups) [
  | some c ↦ drop_member s group name c
  | none ↦ (record s { groups = set_count group name (dec (pos 0)) s.groups }, [])
]

-- `addGroupCallback`: the callback is told of the members so far.
pub add_group_callback : Internal → Bytes → ℕ → Internal × List Effect
add_group_callback s group cb = (
  record s {
    groups = insert group (members group s.groups) s.groups;
    group_callbacks = insert group (callbacks_of s group ++ cb ∷ []) s.group_callbacks;
  },
  map (λ m. notify cb m.0 true) (members group s.groups),
)

pub remove_group_callback : Internal → Bytes → Internal
remove_group_callback s group = record s { group_callbacks = erase group s.group_callbacks }

-- `RemovePeer`: the call `_peers[addr]` may make an entry, which is erased with the peer.
pub remove_peer : Internal → Address → Internal
remove_peer s addr = record s { peers = erase addr s.peers }

-- What `RPCAddPeer` returns: a result, or the future of the call to the client.
pub data Answer : Type 0 where
  done : Bool → Answer
  pending : ℕ → Answer

-- The calls that introduce the other peers to the client.
pub introduce_peers : ℕ → Address → OrdMap Address ℕ → List Effect
introduce_peers client addr [] = []
introduce_peers client addr ((a, c) ∷ peers) =
    if address_eqb addr a
    then introduce_peers client addr peers
    else send client (call_add_peer a.0 a.1) ∷ introduce_peers client addr peers

-- The calls that tell the client the members of every group.
pub introduce_members : ℕ → Bytes → OrdMap Bytes ℤ → List Effect
introduce_members client group ms = map (λ m. send client (call_add_to_group group m.0)) ms

pub introduce_groups : ℕ → OrdMap Bytes (OrdMap Bytes ℤ) → List Effect
introduce_groups client [] = []
introduce_groups client ((g, ms) ∷ groups) =
    introduce_members client g ms ++ introduce_groups client groups

-- `RPCAddPeer`; `socket` is what `TcpSocket::connect` gives, `none` for the null pointer.
unfoldable pub rpc_add_peer : Internal → Bytes → ℕ → Option ℕ → Internal × List Effect × Answer
rpc_add_peer s host port socket = elim (lookup (host, port) s.peers) [
  | some c ↦ (s, [], done true)
  | none ↦ elim socket [
    | none ↦ (s, [], done false)
    | some client ↦
        let peers = insert (host, port) client s.peers in
        (
          record s { peers = peers },
          send client (call_add_peer s.host s.port) ∷ introduce_peers client (host, port) peers
              ++ introduce_groups client s.groups,
          pending client,
        )
  ]
]

-- `shutdown`
unfoldable pub shutdown : Internal → Internal
shutdown s = record s { peers = [] }
