-- ===== src/Local/Process/Invariant.antt =====
-- What holds of a process in every state that it may reach.
use netrunner.Prelude.{
  ◌+◌, ◌≤◌, Bool, true, false, not, ◌≡◌, [], some, arith, refl, if◌then◌else◌, is_some, All, ◌==◌,
}
use netrunner.Local.Process.{Status, Process, started, Step, Reachable}

abbrev pub is_running : Status → Bool
is_running Status.running = true
is_running _ = false

abbrev pub is_stopped : Status → Bool
is_stopped Status.stopped = true
is_stopped _ = false

pub record IsSound (p : Process) : Type 0 where
  pub closed : p.closes + (if p.awaited then 1 else 0) ≡ 1
  pub status : is_stopped p.status ≡ not p.awaited
  pub ended : p.awaited ≡ false → is_some p.exited ≡ true
  pub quiet : p.awaited ≡ true → p.returned ≡ []
  pub untouched : is_running p.status ≡ true → p.interrupts + p.signalling ≡ 0
  pub once : p.interrupts + p.signalling ≤ 1
  pub answers : All (λ c. p.exited ≡ some c) p.returned

started-IsSound : IsSound started
started-IsSound = record {
  closed = refl;
  status = refl;
  ended = λ h. ground arith;
  quiet = λ h. refl;
  untouched = λ h. refl;
  once = ground arith;
  answers = tt;
}

step-IsSound : (p q : Process) → IsSound p → Step p q → IsSound q
step-IsSound p q i (Step.exit _ code e) = record {
  closed = i.closed;
  status = i.status;
  ended = λ h. refl;
  quiet = i.quiet;
  untouched = i.untouched;
  once = i.once;
  answers = rw (i.quiet (ground (arith, e, i.ended))) tt;
}
step-IsSound p q i (Step.await_exit _ code a e) = record {
  closed = ground (arith, i.closed);
  status = refl;
  ended = ground (arith, e);
  quiet = ground arith;
  untouched = ground arith;
  once = i.once;
  answers = i.answers;
}
step-IsSound p q i (Step.call _) = record {
  closed = i.closed;
  status = i.status;
  ended = i.ended;
  quiet = i.quiet;
  untouched = i.untouched;
  once = i.once;
  answers = i.answers;
}
step-IsSound p q i (Step.already_stopped _ n code a b c) = record {
  closed = i.closed;
  status = i.status;
  ended = i.ended;
  quiet = ground (arith, i.status);
  untouched = i.untouched;
  once = i.once;
  answers = (c, i.answers);
}
step-IsSound p q i (Step.already_stopping _ n a b) = record {
  closed = i.closed;
  status = i.status;
  ended = i.ended;
  quiet = i.quiet;
  untouched = i.untouched;
  once = i.once;
  answers = i.answers;
}
step-IsSound p q i (Step.begin _ n a b) = record {
  closed = i.closed;
  status = ground (arith, i.status);
  ended = i.ended;
  quiet = i.quiet;
  untouched = ground arith;
  once = ground (arith, i.untouched);
  answers = i.answers;
}
step-IsSound p q i (Step.interrupt _ n a) = record {
  closed = i.closed;
  status = i.status;
  ended = i.ended;
  quiet = i.quiet;
  untouched = ground (arith, i.untouched);
  once = ground (arith, i.once);
  answers = i.answers;
}
step-IsSound p q i (Step.select _ n a) = record {
  closed = i.closed;
  status = i.status;
  ended = i.ended;
  quiet = i.quiet;
  untouched = i.untouched;
  once = i.once;
  answers = i.answers;
}
step-IsSound p q i (Step.finish _ n code a b c) = record {
  closed = i.closed;
  status = i.status;
  ended = i.ended;
  quiet = ground (arith, i.closed);
  untouched = i.untouched;
  once = i.once;
  answers = (c, i.answers);
}

pub Reachable-IsSound : (p : Process) → Reachable p → IsSound p
Reachable-IsSound p Reachable.here = started-IsSound
Reachable-IsSound p (Reachable.there q _ r s) = step-IsSound q p (Reachable-IsSound q r) s

-- However many calls of `Stop` there are, and whenever the process ends: the channel is closed at
-- most once, the process is interrupted at most once, its status is `stopped` exactly when the
-- channel is closed, and every call that is over returned the exit code of the process.
pub Reachable-sound :
    (p : Process)
    → Reachable p
    → (p.closes ≤ 1)
      × (p.interrupts ≤ 1)
      × (is_stopped p.status ≡ (p.closes == 1))
      × All (λ c. p.exited ≡ some c) p.returned
Reachable-sound p r =
    let i = Reachable-IsSound p r in
    (
      ground (arith, i.closed),
      ground (arith, i.once),
      ground (arith, i.closed, i.status),
      i.answers,
    )
