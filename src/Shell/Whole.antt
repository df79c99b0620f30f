-- ===== src/Shell/Whole.antt =====
-- The whole program: `main` (main.c) with the loop of the shell (shell.c).
use mathlib.Core.Option
use advanced_vm.Common.{[], arith}
use advanced_vm.Programs.Manager.{pm_create}
use advanced_vm.Shell.Process.{System, Shell}
use advanced_vm.Shell.Asked.{Sound}
use advanced_vm.Shell.Session.{ShellValid}

create-Sound : Sound pm_create
unfolding pm_create
create-Sound = record {
  valid = record { room = omega arith; distinct = tt; numbered = tt; entries = tt };
  untouched = tt;
}

pub start-ShellValid : (sys : System) → ShellValid sys (record { pm = pm_create; events = [] })
start-ShellValid sys = record { manager = create-Sound; waited = tt }
