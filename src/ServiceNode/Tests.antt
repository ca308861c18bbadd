-- ===== src/ServiceNode/Tests.antt =====
-- The node of src/rpc/service_node.cc with one peer and one group.
use rawdishfs.ServiceNode.{
  add_member, Internal, notify, call_add_to_group, new_internal, members, count, callbacks_of,
  notify_all, add_to_group, rpc_add_to_group, remove_from_group, rpc_remove_from_group,
  introduce_groups,
}
use rawdishfs.ServiceNode.Replicas.{handle_all, handle}
use rawdishfs.ServiceNode.Introduction.{IsDirectory, calls_to, once, handle_all-introduce_groups}
use rawdishfs.Base.{Bytes, List, [], none, refl, some, true, ◌∷◌, ◌≡◌}
use rawdishfs.Base.Keys.{bytes_key, address_key}
use rawdishfs.Base.OrdMap.{lookup}
use rawdishfs.Rpc.{RpcClient, write, on_request, run_function}
use rawdishfs.Rpc.Stream.{concat, receive_all}
use rawdishfs.Rpc.Frames.{address, requests, framed, to_request, text_pair, flag}
use rawdishfs.ServiceNode.Service.{
  ServiceNode, NodeCodecs, make_call, func_name, func_of, pack_args, perform, new_service_node,
}
use rawdishfs.ServiceNode.Delivery.{answer_call, make_call-perform}
use rawdishfs.Base.Int.{pos}
use rawdishfs.ServiceNode.Events.{is_member, remove_again, count-remove_again}
use rawdishfs.ServiceNode.Mesh.Entries.{times}
use rawdishfs.ServiceNode.Notices.{
  told, occurrences, add_to_group-notices, remove_from_group_missing,
}

abbrev group : Bytes
group = b'g' ∷ []

abbrev single : Bytes
single = b'm' ∷ []

abbrev double : Bytes
double = b'n' ∷ []

abbrev stranger : Bytes
stranger = b'o' ∷ []

abbrev peer_host : Bytes
peer_host = b'p' ∷ []

-- The group has a member with count 1 and one with count 2, and one callback.
abbrev node : Internal
node = record {
  host = b'h' ∷ [];
  port = 80;
  peers = ((peer_host, 81), 5) ∷ [];
  groups = (group, (single, pos 1) ∷ (double, pos 2) ∷ []) ∷ [];
  group_callbacks = (group, 7 ∷ []) ∷ [];
}

abbrev fresh : Internal
fresh = record { host = b'i' ∷ []; port = 82; peers = []; groups = []; group_callbacks = [] }

has_double : count group double node.groups ≡ some (pos 2)
unfolding count members lookup
has_double = refl

has_no_stranger : count group stranger node.groups ≡ none
unfolding count members lookup
has_no_stranger = refl

directory : IsDirectory node.groups
directory = record { sorted = (tt, tt); sorted_members = (((refl, tt), (tt, tt)), tt) }

-- A callback hears of the first member only.
new_member_is_told : (rpc_add_to_group node group stranger).1 ≡ notify 7 stranger true ∷ []
unfolding rpc_add_to_group add_member count members lookup notify_all callbacks_of
new_member_is_told = refl

known_member_is_not_told : (rpc_add_to_group node group single).1 ≡ []
unfolding rpc_add_to_group add_member count members lookup notify_all callbacks_of
known_member_is_not_told = refl

count-remove_again_example :
    count group double (remove_again 3 node group double).groups ≡ some (pos 2)
count-remove_again_example = count-remove_again 3 0 node group double has_double

handle_all-introduce_groups_example :
    count group double (handle_all fresh (calls_to 9 (introduce_groups 9 node.groups))).groups
    ≡ once (count group double node.groups) none
handle_all-introduce_groups_example =
    handle_all-introduce_groups 9 node fresh group double directory refl

abbrev codecs : NodeCodecs
codecs = record { address = address; names = text_pair; flag = flag }

abbrev a_client : RpcClient
a_client = record {
  pac = [];
  req_id = 0;
  resp_callbacks = [];
  disconnect_callback = none;
  attached = true;
}

abbrev a_call : List Bytes
a_call =
    (15 ∷ 0 ∷ 10 ∷ b'a' ∷ b'd' ∷ b'd' ∷ b'T' ∷ [])
    ∷ (b'o' ∷ b'G' ∷ b'r' ∷ b'o' ∷ b'u' ∷ b'p' ∷ 1 ∷ b'g' ∷ b'm' ∷ [])
    ∷ []

a_call-sends :
    (make_call requests codecs a_client 5 (call_add_to_group group single)).1
    ≡ write (concat a_call) ∷ []
unfolding make_call func_name requests framed to_request text_pair concat
a_call-sends = refl

make_call-perform_example :
    (receive_all requests on_request [] a_call (new_service_node peer_host 80).rpc_server.funcs
      ≡ some (
        [],
        (new_service_node peer_host 80).rpc_server.funcs,
        run_function 0
              (func_of (call_add_to_group group single))
              (pack_args codecs (call_add_to_group group single))
            ∷ [],
      ))
    × (perform codecs none
          (func_of (call_add_to_group group single))
          (new_internal peer_host 80)
          (pack_args codecs (call_add_to_group group single))
        ≡ some (answer_call none (new_internal peer_host 80) (call_add_to_group group single)))
    × ((answer_call none (new_internal peer_host 80) (call_add_to_group group single)).0.groups
        ≡ (handle (new_internal peer_host 80) (call_add_to_group group single)).groups)
make_call-perform_example =
    make_call-perform requests codecs (call_add_to_group group single) a_client 5 peer_host 80
      (new_internal peer_host 80) none a_call a_call-sends

add_to_group-notices_example :
    (calls_to 5 (add_to_group node group stranger).1 ≡ call_add_to_group group stranger ∷ [])
    × (calls_to 5 (rpc_add_to_group node group stranger).1 ≡ [])
    × (told 7 (add_to_group node group stranger).1 ≡ (stranger, true) ∷ [])
    × (told 7 (rpc_add_to_group node group stranger).1 ≡ (stranger, true) ∷ [])
    × (is_member (count group stranger (add_to_group node group stranger).0.groups) ≡ true)
    × (is_member (count group stranger (rpc_add_to_group node group stranger).0.groups) ≡ true)
unfolding count members lookup times occurrences
add_to_group-notices_example = add_to_group-notices node group stranger 5 7

remove_from_group_missing_example :
    (told 7 (remove_from_group node group stranger).1 ≡ [])
    × (told 7 (rpc_remove_from_group fresh group stranger).1 ≡ [])
    × (told 7 (add_to_group (remove_from_group node group stranger).0 group stranger).1 ≡ [])
    × (told 7 (rpc_add_to_group (rpc_remove_from_group fresh group stranger).0 group stranger).1
        ≡ [])
    × (count group stranger
          (add_to_group (remove_from_group node group stranger).0 group stranger).0.groups
        ≡ some (pos 1))
    × (count group stranger
          (rpc_add_to_group (rpc_remove_from_group fresh group stranger).0 group stranger).0.groups
        ≡ some (pos 0))
    × (count group stranger
          (remove_from_group
            (add_to_group (remove_from_group node group stranger).0 group stranger).0
            group
            stranger).0.groups
        ≡ none)
    × (count group stranger
          (rpc_remove_from_group
            (rpc_add_to_group (rpc_remove_from_group fresh group stranger).0 group stranger).0
            group
            stranger).0.groups
        ≡ some (pos 0))
remove_from_group_missing_example =
    remove_from_group_missing node fresh group stranger 7 has_no_stranger
      (unfold count members lookup in refl)
