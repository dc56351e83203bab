-- ===== src/Server/Requests/Consistent.antt =====
-- Consistent states of the server, and the steps that keep a state consistent.
use netrunner.Prelude.{Bool, true, false, ◌||◌, ◌≡◌, Option, none, some, arith, is_some}
use netrunner.Prelude.Action.{
  Action, Result, Error, ok, err, lift, refuse_if, continue, modify, ◌>>=◌,
}
use netrunner.Host.{Host}
use netrunner.Server.Types.{ClusterInfo}
use netrunner.Server.Runner.{Runner, Live}
use netrunner.Server.State.{
  Server, on_network, on_world, on_cluster, copy_cluster, publish_nodes, update_cluster_info,
  stop_and_remove_network, require_network, unhealthy, or_stop, attempt,
}

abbrev pub is_healthy : Option ClusterInfo → Bool
is_healthy none = false
is_healthy (some i) = i.healthy || i.custom_chains_healthy

-- A network has its cluster info, and without a network nothing counts as healthy.
pub record IsConsistent {H : Host} {R : Runner H} (s : Server H R) : Type 0 where
  pub described : is_some s.network ≡ true → is_some s.cluster_info ≡ true
  pub down : is_some s.network ≡ false → is_healthy s.cluster_info ≡ false

abbrev pub Keeps : {H : Host} {R : Runner H} {A : Type 0} → Action (Server H R) A → Type 0
Keeps {H} {R} m = (s : Server H R) → IsConsistent s → IsConsistent (m s).1

module _ {H : Host} {R : Runner H} where
  pub Keeps-continue :
      {A B : Type 0} (r : Result A) (f : A → Action (Server H R) B) (t : Server H R)
      → ((a : A) → Keeps (f a))
      → IsConsistent t
      → IsConsistent (continue r f t).1
  Keeps-continue (ok a) f t k c = k a t c
  Keeps-continue (err e) f t k c = c

  pub Keeps-bind :
      {A B : Type 0} (m : Action (Server H R) A) (f : A → Action (Server H R) B)
      → Keeps m
      → ((a : A) → Keeps (f a))
      → Keeps (m >>= f)
  Keeps-bind m f k next s c = Keeps-continue (m s).0 f (m s).1 next (k s c)

module _ (H : Host) (R : Runner H) where
  pub Keeps-on_world : {A : Type 0} (m : Action H.World A) → Keeps (on_world H R m)
  Keeps-on_world m s c = record { described = c.described; down = c.down }

  pub Keeps-on_network :
      {A : Type 0} (m : Action (Live R.Network H.World) A) → Keeps (on_network H R m)
  Keeps-on_network m s c = record { described = ground arith; down = ground arith }

  pub Keeps-require_network : Keeps (require_network H R)
  Keeps-require_network s c = record { described = ground arith; down = ground arith }

  pub Keeps-unhealthy : Keeps (on_cluster H R (unhealthy H R))
  Keeps-unhealthy s c = record { described = ground arith; down = ground arith }

  pub Keeps-copy_cluster : Keeps (copy_cluster H R)
  Keeps-copy_cluster s c = record { described = ground arith; down = ground arith }

  pub Keeps-publish_nodes : Keeps (publish_nodes H R)
  Keeps-publish_nodes s c = record { described = ground arith; down = ground arith }

  pub Keeps-update_cluster_info : Keeps (update_cluster_info H R)
  unfolding update_cluster_info
  Keeps-update_cluster_info s c = record { described = ground arith; down = ground arith }

  pub Keeps-stop_and_remove_network :
      (e : Option Error) → Keeps (modify (stop_and_remove_network H R e))
  unfolding stop_and_remove_network
  Keeps-stop_and_remove_network e s c = record { described = ground arith; down = ground arith }

  pub Keeps-or_stop :
      {A : Type 0} (keep : Error → Option Error) (m : Action (Server H R) A)
      → Keeps m
      → Keeps (or_stop H R keep m)
  unfolding stop_and_remove_network
  Keeps-or_stop keep m k s c =
      let c' = k s c in record { described = ground arith; down = ground arith }

  pub Keeps-attempt : {A : Type 0} (m : Action (Server H R) A) → Keeps m → Keeps (attempt H R m)
  Keeps-attempt m k s c = k s c

  pub Keeps-lift : {A : Type 0} (r : Result A) → Keeps {H = H} {R = R} (lift r)
  Keeps-lift r s c = c

  pub Keeps-refuse_if : (b : Bool) (e : Error) → Keeps (refuse_if {S = Server H R} b e)
  Keeps-refuse_if b e s c = record { described = ground arith; down = ground arith }
