-- ===== src/Local/Ops/Presence.antt =====
-- An abstract view of a network: which nodes there are and which of them run, and what each method
-- may do to that. Configurations, processes, ports and files are forgotten.
pub mod Views
pub mod Places
pub mod Refines
use netrunner.Prelude.{
  String, Bool, true, false, ◌≡◌, ◌≢◌, List, [], ◌∷◌, Option, none, some, str_eq, if◌then◌else◌,
}
use netrunner.Prelude.Action.{is_ok}
use netrunner.Prelude.Dict.{lookup}
use netrunner.Host.{Host}
use netrunner.Config.{NodeConfig}
use netrunner.Local.Types.{LocalNode, State}
use netrunner.Local.Ops.{Changes}
use netrunner.Local.Ops.Stopped.{Call, add, remove, pause, resume, restart, stop_it, call}

pub data Presence : Type 0 where
  absent running paused : Presence

-- the node of each name
abbrev pub View : Type 0
View = String → Presence

abbrev pub presence : {H : Host} → Option (LocalNode H) → Presence
presence none = absent
presence (some n) = if n.paused then paused else running

abbrev pub view : (H : Host) → State H → View
view H s k = presence (lookup k s.network.nodes)

abbrev pub Same : View → View → Type 0
Same v w = (k : String) → w k ≡ v k

-- `w` is `v` but for the node `k`, which is `p`.
abbrev pub Put : View → String → Presence → View → Type 0
Put v k p w = (j : String) → w j ≡ (if str_eq k j then p else v j)

-- What a call may do to a view, and whether it then succeeds.
pub data Allowed (v : View) : Call → Bool → View → Type 0 where
  refused : (c : Call) (w : View) → Same v w → Allowed v c false w
  added :
      (c : NodeConfig) (k : String) (success : Bool) (w : View)
      → v k ≢ running
      → (c.name ≢ "" → k ≡ c.name)
      → Put v k running w
      → Allowed v (add c) success w
  removed :
      (k : String) (success : Bool) (w : View)
      → v k ≢ absent
      → (v k ≡ paused → success ≡ true)
      → Put v k absent w
      → Allowed v (remove k) success w
  paused_now :
      (k : String) (w : View) → v k ≡ running → Put v k paused w → Allowed v (pause k) true w
  resumed :
      (k : String) (success : Bool) (w : View)
      → v k ≡ paused
      → Put v k running w
      → Allowed v (resume k) success w
  restarted :
      (k : String) (ch : Changes) (success : Bool) (w : View)
      → v k ≢ absent
      → Put v k running w
      → Allowed v (restart k ch) success w
  -- A running node whose restart fails is lost.
  lost :
      (k : String) (ch : Changes) (w : View)
      → v k ≡ running
      → Put v k absent w
      → Allowed v (restart k ch) false w
  stopped :
      (success : Bool) (w : View) → ((k : String) → w k ≡ absent) → Allowed v stop_it success w

module _ (H : Host) where
  -- A history of calls as the view shows it.
  abbrev pub AllowedRun : List Call → State H → Type 0
  AllowedRun [] s = Unit
  AllowedRun (c ∷ cs) s =
      Allowed (view H s) c (is_ok (call H c s).0) (view H (call H c s).1)
      × AllowedRun cs (call H c s).1
