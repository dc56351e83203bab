-- ===== src/Local/Process.antt =====
-- local/node_process.go: a luxd process, the goroutine that waits for it, and the calls of `Stop`.
pub mod Invariant
pub mod Progress
use netrunner.Prelude.{ℕ, zero, suc, ◌<◌, Bool, true, false, ◌≡◌, List, [], ◌∷◌, Option, none, some}

-- network/node/status/status.go
pub data Status : Type 0 where
  running stopping stopped : Status

-- The fields of `nodeProcess`, and where the callers of `Stop` stand. Callers at one place are alike,
-- so that they are counted.
pub record Process : Type 0 where
  pub status : Status
  -- how often `closedOnStop` was closed; Go panics at the second time
  pub closes : ℕ
  -- `awaitExit` has not returned
  pub awaited : Bool
  -- the exit code, once the process has ended: `cmd.ProcessState`
  pub exited : Option ℕ
  -- interrupts that were sent to the process
  pub interrupts : ℕ
  -- before the lock; about to send the interrupt; in the select; before the last receive
  pub entering : ℕ
  pub signalling : ℕ
  pub selecting : ℕ
  pub blocked : ℕ
  -- what the calls that are over returned
  pub returned : List ℕ

-- newNodeProcess, where the process could be started
abbrev pub started : Process
started = record {
  status = running;
  closes = 0;
  awaited = true;
  exited = none;
  interrupts = 0;
  entering = 0;
  signalling = 0;
  selecting = 0;
  blocked = 0;
  returned = [];
}

-- What may happen next. A part of the code that holds the lock is one step.
pub data Step : Process → Process → Type 0 where
  -- the process ends, by itself or by a signal
  exit : (p : Process) (code : ℕ) → p.exited ≡ none → Step p (record p { exited = some code })
  -- `awaitExit` after `cmd.Wait` has returned
  await_exit :
      (p : Process) (code : ℕ)
      → p.awaited ≡ true
      → p.exited ≡ some code
      → Step p (record p { status = stopped; closes = suc p.closes; awaited = false })
  -- a call of `Stop`
  call : (p : Process) → Step p (record p { entering = suc p.entering })
  already_stopped :
      (p : Process) (n code : ℕ)
      → p.entering ≡ suc n
      → p.status ≡ stopped
      → p.exited ≡ some code
      → Step p (record p { entering = n; returned = code ∷ p.returned })
  already_stopping :
      (p : Process) (n : ℕ)
      → p.entering ≡ suc n
      → p.status ≡ stopping
      → Step p (record p { entering = n; blocked = suc p.blocked })
  begin :
      (p : Process) (n : ℕ)
      → p.entering ≡ suc n
      → p.status ≡ running
      → Step p (record p { entering = n; status = stopping; signalling = suc p.signalling })
  interrupt :
      (p : Process) (n : ℕ)
      → p.signalling ≡ suc n
      → Step p
          (record p { signalling = n; interrupts = suc p.interrupts; selecting = suc p.selecting })
  -- the select ends, because the context is done (and the process is killed) or the channel closed
  select :
      (p : Process) (n : ℕ)
      → p.selecting ≡ suc n
      → Step p (record p { selecting = n; blocked = suc p.blocked })
  finish :
      (p : Process) (n code : ℕ)
      → p.blocked ≡ suc n
      → 0 < p.closes
      → p.exited ≡ some code
      → Step p (record p { blocked = n; returned = code ∷ p.returned })

pub data Reachable : Process → Type 0 where
  here : Reachable started
  there : (p q : Process) → Reachable p → Step p q → Reachable q
