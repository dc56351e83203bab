-- ===== src/Server/Requests/Invariant.antt =====
-- What holds of the server's state between requests.
use netrunner.Prelude.{List, [], ◌∷◌, arith}
use netrunner.Host.{Host}
use netrunner.Server.Runner.{Runner}
use netrunner.Server.State.{Server}
use netrunner.Server.Lifecycle
use netrunner.Server.Nodes
use netrunner.Server.Chains
use netrunner.Server.Queries
use netrunner.Server.Requests.{Request, serve, serve_all}
use netrunner.Server.Requests.Consistent.{IsConsistent, Keeps, Keeps-bind}
use netrunner.Server.Requests.KeepsChains.{
  Keeps-create_blockchains, Keeps-add_permissionless_validator, Keeps-remove_subnet_validator,
  Keeps-transform_elastic_subnets, Keeps-create_subnets,
}
use netrunner.Server.Requests.KeepsNodes.{
  Keeps-add_node, Keeps-remove_node, Keeps-pause_node, Keeps-resume_node, Keeps-restart_node,
  Keeps-attach_peer,
}
use netrunner.Server.Requests.KeepsNetwork.{
  Keeps-start, Keeps-load_snapshot, Keeps-save_snapshot, Keeps-stop, Keeps-health,
}

serve-IsConsistent : (H : Host) (R : Runner H) (r : Request) → Keeps (serve H R r)
unfolding serve Queries.remove_snapshot Queries.get_snapshot_names Queries.uris Queries.status
    Nodes.send_outbound_message
serve-IsConsistent H R (Request.start req) =
    Keeps-bind (Lifecycle.start H R req) _ (Keeps-start H R req) (λ _ s c. c)
serve-IsConsistent H R (Request.load_snapshot req) =
    Keeps-bind (Lifecycle.load_snapshot H R req) _ (Keeps-load_snapshot H R req) (λ _ s c. c)
serve-IsConsistent H R (Request.save_snapshot name) =
    Keeps-bind (Lifecycle.save_snapshot H R name) _ (Keeps-save_snapshot H R name) (λ _ s c. c)
serve-IsConsistent H R Request.stop =
    Keeps-bind (Lifecycle.stop H R) _ (Keeps-stop H R) (λ _ s c. c)
serve-IsConsistent H R Request.health =
    Keeps-bind (Queries.health H R) _ (Keeps-health H R) (λ _ s c. c)
serve-IsConsistent H R (Request.create_blockchains specs) =
    Keeps-bind (Chains.create_blockchains H R specs) _ (Keeps-create_blockchains H R specs)
      (λ _ s c. c)
serve-IsConsistent H R (Request.add_permissionless_validator specs) =
    Keeps-bind (Chains.add_permissionless_validator H R specs) _
      (Keeps-add_permissionless_validator H R specs) (λ _ s c. c)
serve-IsConsistent H R (Request.remove_subnet_validator specs) =
    Keeps-bind (Chains.remove_subnet_validator H R specs) _
      (Keeps-remove_subnet_validator H R specs) (λ _ s c. c)
serve-IsConsistent H R (Request.transform_elastic_subnets specs) =
    Keeps-bind (Chains.transform_elastic_subnets H R specs) _
      (Keeps-transform_elastic_subnets H R specs) (λ _ s c. c)
serve-IsConsistent H R (Request.create_subnets specs) =
    Keeps-bind (Chains.create_subnets H R specs) _ (Keeps-create_subnets H R specs) (λ _ s c. c)
serve-IsConsistent H R (Request.add_node req) =
    Keeps-bind (Nodes.add_node H R req) _ (Keeps-add_node H R req) (λ _ s c. c)
serve-IsConsistent H R (Request.remove_node name) =
    Keeps-bind (Nodes.remove_node H R name) _ (Keeps-remove_node H R name) (λ _ s c. c)
serve-IsConsistent H R (Request.pause_node name) =
    Keeps-bind (Nodes.pause_node H R name) _ (Keeps-pause_node H R name) (λ _ s c. c)
serve-IsConsistent H R (Request.resume_node name) =
    Keeps-bind (Nodes.resume_node H R name) _ (Keeps-resume_node H R name) (λ _ s c. c)
serve-IsConsistent H R (Request.restart_node name ch) =
    Keeps-bind (Nodes.restart_node H R name ch) _ (Keeps-restart_node H R name ch) (λ _ s c. c)
serve-IsConsistent H R (Request.attach_peer name) =
    Keeps-bind (Nodes.attach_peer H R name) _ (Keeps-attach_peer H R name) (λ _ s c. c)
serve-IsConsistent H R (Request.remove_snapshot name) =
    λ s c. record { described = ground arith; down = ground arith }
serve-IsConsistent H R Request.get_snapshot_names =
    λ s c. record { described = ground arith; down = ground arith }
serve-IsConsistent H R (Request.send_outbound_message name peer bytes op) =
    λ s c. record { described = ground arith; down = ground arith }
serve-IsConsistent H R Request.uris =
    λ s c. record { described = ground arith; down = ground arith }
serve-IsConsistent H R Request.status =
    λ s c. record { described = ground arith; down = ground arith }

-- From a server whose state is consistent, every history of requests, failed ones included, leads to
-- one whose state is: where there is a network there is a cluster info, and where there is none the
-- cluster is not reported as healthy.
pub serve_all-IsConsistent :
    (H : Host) (R : Runner H) (rs : List Request) (s : Server H R)
    → IsConsistent s
    → IsConsistent (serve_all H R rs s)
unfolding serve_all
serve_all-IsConsistent H R [] s c = c
serve_all-IsConsistent H R (r ∷ rs) s c =
    serve_all-IsConsistent H R rs (serve H R r s).1 (serve-IsConsistent H R r s c)
