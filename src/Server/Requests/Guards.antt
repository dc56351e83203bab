-- ===== src/Server/Requests/Guards.antt =====
-- When a request is refused because of the network's presence alone.
use netrunner.Prelude.{Bool, true, false, ◌≡◌, arith, is_some, if◌then◌else◌}
use netrunner.Prelude.Action.{err, already_bootstrapped, not_bootstrapped}
use netrunner.Host.{Host}
use netrunner.Server.Runner.{Runner}
use netrunner.Server.State.{Server}
use netrunner.Server.Lifecycle
use netrunner.Server.Nodes
use netrunner.Server.Chains
use netrunner.Server.Queries
use netrunner.Server.Requests.{Request, serve}

-- the requests that bring a network up, and the one that is served whether there is one or not
abbrev pub starts : Request → Bool
starts (Request.start req) = true
starts (Request.load_snapshot req) = true
starts _ = false

abbrev pub is_stop : Request → Bool
is_stop Request.stop = true
is_stop _ = false

-- A server with a network refuses Start and LoadSnapshot, and one without refuses SaveSnapshot,
-- RemoveSnapshot, GetSnapshotNames, Health, URIs and Status, and every request on nodes, peers,
-- blockchains, subnets and validators. Such a refusal changes nothing, the world outside included.
pub serve_refuses :
    (H : Host) (R : Runner H) (r : Request) (s : Server H R)
    → is_stop r ≡ false
    → is_some s.network ≡ starts r
    → serve H R r s ≡ (err (if starts r then already_bootstrapped else not_bootstrapped), s)
unfolding serve Lifecycle.start Lifecycle.load_snapshot Lifecycle.save_snapshot
    Queries.remove_snapshot Queries.get_snapshot_names Queries.health Queries.uris Queries.status
    Chains.create_blockchains Chains.requested_chains Chains.requested_validators
    Chains.check_removal Chains.requested_transforms Chains.requested_subnets
    Chains.add_permissionless_validator Chains.remove_subnet_validator
    Chains.transform_elastic_subnets Chains.create_subnets Nodes.add_node Nodes.remove_node
    Nodes.pause_node Nodes.resume_node Nodes.restart_node Nodes.attach_peer
    Nodes.send_outbound_message
serve_refuses H R (Request.start req) s no_stop h = ground arith
serve_refuses H R (Request.load_snapshot req) s no_stop h = ground arith
serve_refuses H R (Request.save_snapshot name) s no_stop h = ground arith
serve_refuses H R (Request.remove_snapshot name) s no_stop h = ground arith
serve_refuses H R Request.get_snapshot_names s no_stop h = ground arith
serve_refuses H R Request.health s no_stop h = ground arith
serve_refuses H R Request.uris s no_stop h = ground arith
serve_refuses H R Request.status s no_stop h = ground arith
serve_refuses H R (Request.create_blockchains specs) s no_stop h = ground arith
serve_refuses H R (Request.add_permissionless_validator specs) s no_stop h = ground arith
serve_refuses H R (Request.remove_subnet_validator specs) s no_stop h = ground arith
serve_refuses H R (Request.transform_elastic_subnets specs) s no_stop h = ground arith
serve_refuses H R (Request.create_subnets specs) s no_stop h = ground arith
serve_refuses H R (Request.add_node req) s no_stop h = ground arith
serve_refuses H R (Request.remove_node name) s no_stop h = ground arith
serve_refuses H R (Request.pause_node name) s no_stop h = ground arith
serve_refuses H R (Request.resume_node name) s no_stop h = ground arith
serve_refuses H R (Request.restart_node name ch) s no_stop h = ground arith
serve_refuses H R (Request.attach_peer name) s no_stop h = ground arith
serve_refuses H R (Request.send_outbound_message name peer bytes op) s no_stop h = ground arith
serve_refuses H R Request.stop s no_stop h = ground arith
