-- ===== src/Server/Requests/KeepsNetwork.antt =====
-- The handlers that start and stop the network keep the server's state consistent.
use netrunner.Prelude.{String, refl, List, arith, Option-cases, Bool-cases, ltb, get_or, inl, inr}
use netrunner.Prelude.Action.{Result-cases}
use netrunner.Host.{Host}
use netrunner.Server.Types.{BlockchainSpec}
use netrunner.Server.Runner.{Runner}
use netrunner.Server.State.{update_cluster_info, stop_and_remove_network}
use netrunner.Server.Lifecycle
use netrunner.Server.Lifecycle.{StartRequest, LoadSnapshotRequest}
use netrunner.Server.Queries
use netrunner.Server.Requests.Consistent.{Keeps}

module _ (H : Host) (R : Runner H) where
  Keeps-bring_up : (specs : List BlockchainSpec) → Keeps (Lifecycle.bring_up H R specs)
  unfolding Lifecycle.bring_up update_cluster_info stop_and_remove_network
  Keeps-bring_up specs s c = record { described = ground arith; down = ground arith }

  pub Keeps-start : (req : StartRequest) → Keeps (Lifecycle.start H R req)
  unfolding Lifecycle.start
  Keeps-start req s c = elim (Option-cases s.network) [
    | inr (n, e) ↦ record { described = ground arith; down = ground arith }
    | inl e ↦
        elim (Bool-cases (ltb (get_or req.num_nodes Lifecycle.default_nodes) Lifecycle.min_nodes)) [
          | inl few ↦ rw (e, few) (record { described = ground arith; down = ground arith })
          | inr many ↦ elim (Result-cases (Lifecycle.prepare H R req s.world).0) [
            | inr (x, failed) ↦
                rw (e, many, failed) (record { described = ground arith; down = ground arith })
            | inl (made, prepared) ↦
                let options =
                  Lifecycle.start_options s.redirect_nodes_output s.snapshots_dir made.1 req in
                elim (Result-cases
                  (R.new_local_network options (Lifecycle.prepare H R req s.world).1).0) [
                    | inr (x, bad) ↦
                        rw (e, many, prepared, bad)
                          (record { described = ground arith; down = ground arith })
                    | inl (n, good) ↦
                        rw (e, many, prepared, good)
                          (Keeps-bring_up made.0 _
                            (record { described = λ h. refl; down = λ h. absurd cc }))
                  ]
          ]
        ]
  ]

  pub Keeps-load_snapshot : (req : LoadSnapshotRequest) → Keeps (Lifecycle.load_snapshot H R req)
  unfolding Lifecycle.load_snapshot update_cluster_info stop_and_remove_network
  Keeps-load_snapshot req s c = record { described = ground arith; down = ground arith }

  pub Keeps-save_snapshot : (name : String) → Keeps (Lifecycle.save_snapshot H R name)
  unfolding Lifecycle.save_snapshot stop_and_remove_network
  Keeps-save_snapshot name s c = record { described = ground arith; down = ground arith }

  pub Keeps-stop : Keeps (Lifecycle.stop H R)
  unfolding Lifecycle.stop stop_and_remove_network
  Keeps-stop s c = record { described = ground arith; down = ground arith }

  -- Only a network that answered counts as healthy.
  pub Keeps-health : Keeps (Queries.health H R)
  unfolding Queries.health
  Keeps-health s c = record { described = ground arith; down = ground arith }
