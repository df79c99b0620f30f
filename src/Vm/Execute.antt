-- ===== src/Vm/Execute.antt =====
-- `execute_instruction` (vm.c). A handler is a chain of actions on the state, each of which lets
-- the handler go on, ends it (`return`), or traps, which kills the process.

use advanced_vm.Common.{
  ℕ, ◌+◌, Bool, false, not, ◌||◌, Option, none, some, ◌∷◌, leb, ltb, ◌==◌, if◌then◌else◌, get_or,
  set,
}
use advanced_vm.Word.{add32, sub32, mul32, div32, lt32, bool_word, is_negative}
use advanced_vm.Vm.State.{
  Vm, VmError, is_ok, memory_size, invalid_opcode, division_by_zero, memory_bounds, code_bounds,
}
use advanced_vm.Vm.Stacks.{
  stack_push, stack_pop, stack_peek, return_stack_push, return_stack_pop, read_int32,
}
use advanced_vm.Vm.Opcode.{
  Opcode, op_push, op_pop, op_dup, op_add, op_sub, op_mul, op_div, op_cmp, op_cmp_eq, op_cmp_ne,
  op_cmp_gt, op_cmp_le, op_cmp_ge, op_jmp, op_jz, op_jnz, op_store, op_load, op_call, op_ret,
  op_print, op_halt, decode,
}

pub data Flow {ℓ} (A : Type ℓ) : Type ℓ where
  next : A → Vm → Flow A
  return : Vm → Flow A
  trap : Flow A

abbrev pub Handler {ℓ} : Type ℓ → Type ℓ
Handler A = Vm → Flow A

abbrev pub bind {ℓ κ} : {A : Type ℓ} {B : Type κ} → Flow A → (A → Handler B) → Flow B
bind (next a vm) f = f a vm
bind (return vm) f = return vm
bind trap f = trap

infixl 5 ◌>>=◌ ◌>>◌
abbrev pub ◌>>=◌ {ℓ κ} : {A : Type ℓ} {B : Type κ} → Handler A → (A → Handler B) → Handler B
◌>>=◌ m f vm = bind (m vm) f

abbrev pub ◌>>◌ {ℓ} : {B : Type ℓ} → Handler (Unit {0}) → Handler B → Handler B
m >> k = m >>= λ _. k

-- `vm->error = e; vm->running = false; return;`
abbrev pub fail {ℓ} : {A : Type ℓ} → VmError → Handler A
fail e vm = return (record vm { error = e; running = false })

-- `if (vm->error != VM_OK) { vm->running = false; return; }` after a call
abbrev pub checked {ℓ} : {A : Type ℓ} → (Vm → A × Vm) → Handler A
checked call vm =
    let (a, vm') = call vm in
    if is_ok vm'.error then next a vm' else return (record vm' { running = false })

-- `if (!push(vm, …)) { vm->running = false; }`
abbrev pub or_stop : (Vm → Bool × Vm) → Handler (Unit {0})
or_stop call vm =
    let (done, vm') = call vm in next tt (if done then vm' else record vm' { running = false })

abbrev pub pop : Handler ℕ
pop = checked stack_pop

abbrev pub push : ℕ → Handler (Unit {0})
push v = or_stop (λ vm. stack_push vm v)

abbrev pub operand : Handler ℕ
operand = checked read_int32

-- the handlers of two operands that differ in the value they push
abbrev pub binary : (ℕ → ℕ → ℕ) → Handler (Unit {0})
binary f = do b ← pop; a ← pop; push (f a b)

abbrev pub divide : ℕ → ℕ → Handler (Unit {0})
divide a b vm = elim (div32 a b) [ none ↦ trap | some q ↦ push q vm ]

abbrev pub compare_words : (ℕ → ℕ → Bool) → Handler (Unit {0})
compare_words test = binary (λ a b. bool_word (test a b))

-- `address < 0 || address > vm->code_size`, else the jump
abbrev pub jump : ℕ → Handler (Unit {0})
jump address vm =
    if is_negative address || ltb vm.code_size address
    then fail code_bounds vm
    else next tt (record vm { pc = address })

abbrev pub jump_when : Bool → ℕ → Handler (Unit {0})
jump_when test address vm = if test then jump address vm else next tt vm

-- `index < 0 || index >= MEMORY_SIZE`
abbrev pub in_memory : ℕ → Handler (Unit {0})
in_memory index vm =
    if is_negative index || leb memory_size index then fail memory_bounds vm else next tt vm

abbrev pub write_memory : ℕ → ℕ → Handler (Unit {0})
write_memory index value vm = next tt (record vm { memory = set vm.memory index value })

abbrev pub read_memory : ℕ → Handler ℕ
read_memory index vm = next (get_or vm.memory index 0) vm

-- `address < 0 || address >= vm->code_size`
abbrev pub callable : ℕ → Handler (Unit {0})
callable address vm =
    if is_negative address || leb vm.code_size address then fail code_bounds vm else next tt vm

abbrev pub save_pc : Handler (Unit {0})
save_pc vm =
    let (done, vm') = return_stack_push vm vm.pc in
    if done then next tt vm' else return (record vm' { running = false })

abbrev pub set_pc : ℕ → Handler (Unit {0})
set_pc address vm = next tt (record vm { pc = address })

abbrev pub print : ℕ → Handler (Unit {0})
print value vm = next tt (record vm { out = value ∷ vm.out })

abbrev pub nonzero_divisor : ℕ → Handler (Unit {0})
nonzero_divisor b vm = if b == 0 then fail division_by_zero vm else next tt vm

abbrev pub ignore : ℕ → Handler (Unit {0})
ignore _ vm = next tt vm

abbrev pub halt : Handler (Unit {0})
halt vm = next tt (record vm { running = false })

-- one `case` of the `switch` each
unfoldable pub handle : Opcode → Handler (Unit {0})
handle op_push = do value ← operand; push value
handle op_pop = do value ← pop; ignore value
handle op_dup = do value ← checked stack_peek; push value
handle op_add = binary add32
handle op_sub = binary sub32
handle op_mul = binary mul32
handle op_div = do b ← pop; nonzero_divisor b; a ← pop; divide a b
handle op_cmp = compare_words lt32
handle op_cmp_eq = compare_words ◌==◌
handle op_cmp_ne = compare_words (λ a b. not (a == b))
handle op_cmp_gt = compare_words (λ a b. lt32 b a)
handle op_cmp_le = compare_words (λ a b. not (lt32 b a))
handle op_cmp_ge = compare_words (λ a b. not (lt32 a b))
handle op_jmp = do address ← operand; jump address
handle op_jz = do address ← operand; value ← pop; jump_when (value == 0) address
handle op_jnz = do address ← operand; value ← pop; jump_when (not (value == 0)) address
handle op_store = do index ← operand; in_memory index; value ← pop; write_memory index value
handle op_load = do index ← operand; in_memory index; value ← read_memory index; push value
handle op_call = do address ← operand; callable address; save_pc; set_pc address
handle op_ret = do address ← checked return_stack_pop; set_pc address
handle op_print = do value ← pop; print value
handle op_halt = halt

-- the `switch`
unfoldable pub dispatch : Option Opcode → Handler (Unit {0})
dispatch none vm = fail invalid_opcode vm
dispatch (some op) vm = handle op vm

-- the state in which the call returns; `none` if the process was killed
abbrev pub returned {ℓ} : {A : Type ℓ} → Flow A → Option Vm
returned (next _ vm) = some vm
returned (return vm) = some vm
returned trap = none

unfoldable pub execute_instruction : Vm → Option Vm
unfolding dispatch
execute_instruction vm =
    if leb vm.code_size vm.pc
    then some (record vm { error = code_bounds; running = false })
    else returned (dispatch (decode (get_or vm.code vm.pc 0)) (record vm { pc = vm.pc + 1 }))
