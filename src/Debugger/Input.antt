-- ===== src/Debugger/Input.antt =====
-- The lines that the user types to the debugger, as `debugger_interactive` (debugger_vm.c) tells them
-- apart: what `fgets` gives, one after the other.
use advanced_vm.Common.{Option, none, some, List, [], ◌∷◌, ◌||◌, ◌==◌, if◌then◌else◌}
use advanced_vm.Shell.Text.{Bytes, codes, same, before_newline, atoi}
use advanced_vm.Debugger.Commands.{Command, break, delete, step, next, continue, show}

-- `strncmp(line, word, strlen(word)) == 0`, with `line + strlen(word)`
unfoldable pub behind : Bytes → Bytes → Option Bytes
behind [] line = some line
behind (c ∷ word) [] = none
behind (c ∷ word) (d ∷ line) = let rest = behind word line in if c == d then rest else none

-- `command show` stands for the commands that only print, and for an unknown command.
pub data Typed : Type 0 where
  command : Command → Typed
  blank quit : Typed

abbrev word_of : Bytes → Typed
word_of line =
    if same line (codes "step") || same line (codes "s")
    then command step
    else if same line (codes "next") || same line (codes "n")
    then command next
    else if same line (codes "continue") || same line (codes "c")
    then command continue
    else if same line (codes "quit") || same line (codes "q")
    then quit
    else command show

abbrev or_delete : Bytes → Option Bytes → Typed
or_delete line none = word_of line
or_delete line (some number) = command (delete (atoi number))

abbrev or_break : Bytes → Option Bytes → Typed
or_break line none = or_delete line (behind (codes "delete ") line)
or_break line (some number) = command (break (atoi number))

unfoldable pub typed : Bytes → Typed
typed [] = blank
typed line = or_break line (behind (codes "break ") line)

abbrev then_commands : Typed → List Command → List Command
then_commands (command c) cs = c ∷ cs
then_commands blank cs = cs
then_commands quit cs = []

-- The commands of the lines up to `quit` or the end of the input.
unfoldable pub typed_commands : List Bytes → List Command
typed_commands [] = []
typed_commands (line ∷ lines) = then_commands (typed (before_newline line)) (typed_commands lines)
