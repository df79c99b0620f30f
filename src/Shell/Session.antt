-- ===== src/Shell/Session.antt =====
-- The shell (shell.c) keeps what the program manager relies on, whatever is typed.

use advanced_vm.Common.{ℕ, ◌≡◌, ◌⊎◌, some, List, [], ◌∷◌}
use advanced_vm.Shell.Command.{Command}
use advanced_vm.Shell.Process.{System, Shell, Event, forks, waits}
use advanced_vm.Shell.Asked.{Sound}

-- `fork` has given the pid.
abbrev pub HasForked : System → ℕ → List Event → Type 0
HasForked sys pid [] = ⊥
HasForked sys pid (forks child ∷ es) = (sys.fork es ≡ some pid) ⊎ HasForked sys pid es
HasForked sys pid (_ ∷ es) = HasForked sys pid es

-- Every process that has been waited for had been forked.
abbrev pub Waited : System → List Event → Type 0
Waited sys [] = Unit
Waited sys (waits pid ∷ es) = HasForked sys pid es × Waited sys es
Waited sys (_ ∷ es) = Waited sys es

pub record ShellValid (sys : System) (sh : Shell) : Type 0 where
  pub manager : Sound sh.pm
  pub waited : Waited sys sh.events
