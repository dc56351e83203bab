-- ===== src/Examples/Processes.antt =====
-- The properties of a process, on one that is stopped by a call and then ends.
use netrunner.Prelude.{◌≤◌, ◌==◌, ◌≡◌, refl, All, some}
use netrunner.Local.Process.{Process, started, Step, Reachable}
use netrunner.Local.Process.Invariant.{is_stopped, Reachable-sound}
use netrunner.Local.Process.Progress.{Steps, work, Reachable-drains}

abbrev called : Process
called = record started { entering = 1 }

abbrev ended : Process
ended = record called { exited = some 0 }

ended-Reachable : Reachable ended
ended-Reachable =
    Reachable.there called ended (Reachable.there started called Reachable.here (Step.call started))
      (Step.exit called 0 refl)

Reachable-sound_example :
    (ended.closes ≤ 1)
    × (ended.interrupts ≤ 1)
    × (is_stopped ended.status ≡ (ended.closes == 1))
    × All (λ c. ended.exited ≡ some c) ended.returned
Reachable-sound_example = Reachable-sound ended ended-Reachable

Reachable-drains_example : (q : Process) × Steps ended q × (work q ≡ 0)
Reachable-drains_example = Reachable-drains ended 0 ended-Reachable refl
