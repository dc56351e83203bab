-- ===== src/Server/Requests/KeepsNodes.antt =====
-- The handlers on nodes keep the server's state consistent.
use netrunner.Prelude.{String, arith}
use netrunner.Host.{Host}
use netrunner.Local.Ops.{Changes}
use netrunner.Server.Runner.{Runner}
use netrunner.Server.Nodes
use netrunner.Server.Nodes.{AddNodeRequest}
use netrunner.Server.Requests.Consistent.{Keeps}

module _ (H : Host) (R : Runner H) where
  pub Keeps-add_node : (req : AddNodeRequest) → Keeps (Nodes.add_node H R req)
  unfolding Nodes.add_node
  Keeps-add_node req s c = record { described = ground arith; down = ground arith }

  pub Keeps-remove_node : (name : String) → Keeps (Nodes.remove_node H R name)
  unfolding Nodes.remove_node
  Keeps-remove_node name s c = record { described = ground arith; down = ground arith }

  pub Keeps-pause_node : (name : String) → Keeps (Nodes.pause_node H R name)
  unfolding Nodes.pause_node
  Keeps-pause_node name s c = record { described = ground arith; down = ground arith }

  pub Keeps-resume_node : (name : String) → Keeps (Nodes.resume_node H R name)
  unfolding Nodes.resume_node
  Keeps-resume_node name s c = record { described = ground arith; down = ground arith }

  pub Keeps-restart_node :
      (name : String) (changes : Changes) → Keeps (Nodes.restart_node H R name changes)
  unfolding Nodes.restart_node
  Keeps-restart_node name changes s c = record { described = ground arith; down = ground arith }

  pub Keeps-attach_peer : (name : String) → Keeps (Nodes.attach_peer H R name)
  unfolding Nodes.attach_peer Nodes.with_peer
  Keeps-attach_peer name s c = record { described = ground arith; down = ground arith }
