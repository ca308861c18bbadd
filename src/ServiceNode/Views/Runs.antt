-- ===== src/ServiceNode/Views/Runs.antt =====
-- What a callback of src/rpc/service_node.cc knows whatever happens to the node.
use rawdishfs.Base.Keys.{bytes_key, address_key, nat_key}
