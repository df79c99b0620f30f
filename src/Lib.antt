-- ===== src/Lib.antt =====
-- advanced_VM: a small language with a bytecode compiler, a stack machine, a collector and a shell.
--
-- The program. `codegen_compile` (codegen.c) turns a syntax tree (ast.h, built by the parser) into
-- bytecode with a table of variables and a source map. `vm_load_program` and `vm_run` (vm.c) execute
-- the bytecode; the machine also holds the state of a mark-and-sweep collector (gc.c), with a value
-- stack of its own that no instruction touches. The debugger (debugger_vm.c) drives `vm_step` and
-- finds lines and offsets in the source map. The program manager (program_manager.c) keeps a table of
-- programs, each with its bytecode and its machine, and runs or debugs them. `eval` (ast.c) runs a
-- tree directly. The shell (shell.c) reads lines, runs commands as processes, and hands the commands
-- that concern programs to the program manager; `main` (main.c) starts it.
--
-- The files:
--   Common        Boolean tests on numbers, arrays as lists, and the lemmas the parts share.
--   Word          int32_t as bit patterns; Word.Bytes the four bytes of an operand (`read_int32` of
--                 vm.c, `emit_int32` of codegen.c); Word.Signed the integers the patterns stand for.
--   Vm            vm.h, vm.c, instructions.h. State: `struct VM`, `vm_create`, `vm_load_program`.
--                 Stacks: `stack_push` and its like. Execute: `execute_instruction`, one clause of
--                 `handle` for each case. Run: `vm_run`, `vm_step`. Spec: the abstract machine, on
--                 lists. Valid: the invariant. Refine: the proofs that relate the two. Load, Fuel:
--                 what follows for the runs of programs. Untouched: the collector's state.
--                 Dump: `vm_dump_state`.
--   Gc            gc.h, gc.c. Heap: objects and the collector's fields. Collect: all its functions.
--                 Mark, Sweep, Correct, Linked, Alloc: the proofs.
--   Ast           ast.h, ast.c. Node: the tree and its constructors. Eval: the symbol table, `eval`.
--                 Symtab: what the table holds after an assignment.
--   Codegen       codegen.h, codegen.c. Program: emitters, patches, tables. Node: `codegen_node`.
--                 Layout: the code of a tree in closed form. Bounds: the size of the buffer. The
--                 rest: the proofs.
--   Debugger      debugger_vm.h, debugger_vm.c. Commands: the state, all commands, the command loop.
--                 Breakpoints, Adding, Removing: the table as a set. Drive, Session: what every
--                 session keeps. Stops: where the debugger stops. Continue: that it runs.
--                 Print: the commands that print. Input: the lines that the user types.
--   Programs      program_manager.h, program_manager.c. Manager: the table and the operations. Table,
--                 Valid, Submit, Operations, Change, States, Once: the proofs. Evaluated: what a submitted
--                 program prints. Heaps, Collecting: the collector in a session. Report: the
--                 operations that print.
--   Compile       what the compiled code does on the machine, against `eval`. Steps: runs through
--                 known code. Words: a word written and read. Relate, Memory: variables and memory.
--                 Expr: expressions. Shape: which programs. Jumps, Runs, Condition: the parts of a
--                 statement's run. Stmt, Loop, Branch: the statements. Program, Whole: whole
--                 programs.
--   Parser        parser.y. Grammar: what the grammar derives, with the actions that build the tree.
--                 Shape: which trees they build.
--   Shell         shell.c, main.c. Text: C strings and what the shell uses of the C library. Tokens:
--                 `tokenize_sb`. Command: `parse_command_from_tokens_sb`. Builtins: the dispatch to the
--                 program manager. Process: `execute_single_sb`, `execute_pipe_sb`. Loop: `shell_run`,
--                 `main`. Items, Explain, Parsing: what the parser is to do, and that it does.
--                 Written, Size: the tokenizer. Invariant, Asked, Session, Ends, Sequence, Whole:
--                 the loop. Evaluates: a program from the command line to its output.
--   Tests         concrete machines, heaps and programs.
--
-- Conventions. A 32-bit integer is its bit pattern, a number below 2 ^ 32; signed arithmetic that
-- overflows wraps round, as it does on the machines the program runs on. Counters and offsets that
-- only grow from 0 are numbers. What printf writes to stdout is a list in the state, last first;
-- other messages are left out. A pointer to an object is an address or NULL, and the object list is
-- a list of addresses with what stands there; what malloc returns is an argument.
--
-- Fuel. `run_loop` takes the number of instructions that it may execute: a program need not halt.
-- `gc_mark_object` takes a bound on the depth of its calls, for which one more than the number of
-- objects is enough. `eval` takes a bound on the depth of its calls and rounds. A debugger command
-- that runs the machine takes the number of rounds of its loop: without breakpoints it ends when
-- `vm_run` does.
--
-- The shell's loop takes the number of lines that it may read; one more than the length of the input
-- is enough. The tokenizer takes the room for tokens, which is the number of rounds of its loop.
--
-- The system calls of the shell and its requests to the program manager are events in a list, last
-- first. What comes from outside is an argument that is a function of the events so far: the pid of a
-- fork, whether a file opens, the tree that a file holds, what malloc returns, and the lines that the
-- user types to the debugger. An event of a request is added when it has been answered.
--
-- Not modelled: how bison and flex find the derivation of a text, in tables that the build generates
-- (the program manager takes the tree as an argument), the lexer, the signal handlers of the shell,
-- the functions that only free memory, and the words around what is printed.
pub mod Common
pub mod Word
pub mod Gc
pub mod Ast
pub mod Codegen
pub mod Vm
pub mod Debugger
pub mod Programs
pub mod Compile
pub mod Parser
pub mod Shell
pub mod Tests
