-- ===== src/Shell/Process.antt =====
-- `execute_single_sb` and `execute_pipe_sb` (shell.c). What the shell asks of the system and of the
-- program manager is a list of events, last first. What comes from outside may differ at each of them:
-- it is a function of the events so far. The messages are left out, and so is the status that the
-- functions return, which their caller does not read.
use advanced_vm.Common.{ℕ, Bool, ◌||◌, Option, none, some, List, [], ◌∷◌, if◌then◌else◌}
use advanced_vm.Programs.Manager.{ProgramManager, Reply, pm_destroy}
use advanced_vm.Shell.Text.{Bytes, codes, same}
use advanced_vm.Shell.Command.{Command}
use advanced_vm.Shell.Builtins.{Machinery, Builtin, find_builtin, handle_lab6_builtin}

-- what a standard stream of a child is
pub data Stream : Type 0 where
  inherited pipe_end : Stream
  file : Bytes → Stream

-- What a child process comes to: the program that it executes, with its standard input and output;
-- exit with a code; or execvp of NULL.
pub data Child : Type 0 where
  executes : List Bytes → Stream → Stream → Child
  exits : ℕ → Child
  executes_null : Child

pub data Event : Type 0 where
  chdir : Option Bytes → Event
  opens_pipe closes_pipe : Event
  forks : Child → Event
  waits : ℕ → Event
  asks : Builtin → Event

-- `machinery` is what an operation of the manager meets: the files, the memory and the user's lines at
-- that time. `fork` gives the pid that the parent gets, `none` for a negative one; `pipe` is whether the call
-- succeeds; `readable`, `writable` and `executable` are what open and execvp of
-- a child find that is forked after those events. HOME does not change.
pub record System : Type 0 where
  pub machinery : List Event → Machinery
  pub home : Option Bytes
  pub fork : List Event → Option ℕ
  pub pipe : List Event → Bool
  pub readable : List Event → Bytes → Bool
  pub writable : List Event → Bytes → Bool
  pub executable : List Event → List Bytes → Bool

pub record Shell : Type 0 where
  pub pm : ProgramManager
  pub events : List Event

-- `exited` is exit(0), after pm_destroy; `ended` is the end of the process within an operation of the manager, by
-- exit(1) or a trap.
pub data Outcome : Type 0 where
  running : Shell → Outcome
  exited : Shell → Outcome
  ended out_of_fuel : Outcome

abbrev pub log : Event → Shell → Shell
log event sh = record sh { events = event ∷ sh.events }

module _ (sys : System) where
  abbrev redirected : (Bytes → Bool) → Stream → Option Bytes → (Stream → Child) → Child
  redirected opens stream none k = k stream
  redirected opens stream (some name) k = if opens name then k (file name) else exits 1

  abbrev execvp : List Event → List Bytes → Stream → Stream → Child
  execvp es [] input output = executes_null
  execvp es (t ∷ args) input output =
      if sys.executable es (t ∷ args) then executes (t ∷ args) input output else exits 127

  abbrev pub single_child : List Event → Command → Child
  single_child es cmd = redirected (sys.readable es) inherited cmd.infile (λ input.
      redirected (sys.writable es) inherited cmd.outfile
        (λ output. execvp es cmd.argv input output))

  abbrev pub left_child : List Event → Command → Child
  left_child es cmd =
      redirected (sys.readable es) inherited cmd.infile (λ input. execvp es cmd.argv input pipe_end)

  abbrev pub right_child : List Event → Command → Child
  right_child es cmd =
      redirected (sys.writable es) inherited cmd.outfile
        (λ output. execvp es cmd.argv pipe_end output)

  -- a fork, and what the parent does after it
  abbrev pub forked : Child → Shell → (ℕ → Shell → Outcome) → Outcome
  forked child sh k = elim (sys.fork sh.events) [
    | none ↦ running sh
    | some pid ↦ k pid (log (forks child) sh)
  ]

  abbrev pub awaited : Command → ℕ → Shell → Outcome
  awaited cmd pid sh = if cmd.background then running sh else running (log (waits pid) sh)

  unfoldable pub execute_child : Command → Shell → Outcome
  execute_child cmd sh = forked (single_child sh.events cmd) sh (awaited cmd)

  abbrev pub directory : List Bytes → Option Bytes
  directory [] = sys.home
  directory (dir ∷ rest) = some dir

  abbrev pub after_builtin : Builtin → Shell → Reply → Outcome
  after_builtin b sh (Reply.reply r pm) = running (record { pm = pm; events = asks b ∷ sh.events })
  after_builtin b sh Reply.ended = ended
  after_builtin b sh Reply.out_of_fuel = out_of_fuel

  -- a command that is no builtin of the manager
  abbrev pub execute_other : Command → Bytes → List Bytes → Shell → Outcome
  execute_other cmd t args sh =
      if same t (codes "exit")
      then exited (record sh { pm = pm_destroy sh.pm })
      else if same t (codes "cd")
      then running (log (chdir (directory args)) sh)
      else execute_child cmd sh

  abbrev pub execute_named : Command → Bytes → List Bytes → Shell → Outcome
  execute_named cmd t args sh =
      elim (handle_lab6_builtin (sys.machinery sh.events) sh.pm (t ∷ args)) [
        | some r ↦ after_builtin (find_builtin (t ∷ args)) sh r
        | none ↦ execute_other cmd t args sh
      ]

  unfoldable pub execute_single_sb : Command → Shell → Outcome
  execute_single_sb cmd sh = elim cmd.argv [
    | [] ↦ running sh
    | t ∷ args ↦ execute_named cmd t args sh
  ]

  -- the parent, when both children are there
  abbrev pub after_pipe : Command → Command → ℕ → ℕ → Shell → Outcome
  after_pipe left right p1 p2 sh =
      if right.background || left.background
      then running (log closes_pipe sh)
      else running (log (waits p2) (log (waits p1) (log closes_pipe sh)))

  abbrev pub fork_right : Command → Command → ℕ → Shell → Outcome
  fork_right left right p1 sh = forked (right_child sh.events right) sh (after_pipe left right p1)

  unfoldable pub execute_pipe_sb : Command → Command → Shell → Outcome
  execute_pipe_sb left right sh =
      if sys.pipe sh.events
      then forked (left_child (opens_pipe ∷ sh.events) left) (log opens_pipe sh)
          (fork_right left right)
      else running sh
