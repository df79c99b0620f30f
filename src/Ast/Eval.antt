-- ===== src/Ast/Eval.antt =====
-- The tree-walking evaluator (ast.c). `eval` recurs on the tree and loops, so it takes fuel, which
-- bounds the depth of its calls, a round of a loop counting as a call.
use Prim.Native.String.{String}
use Prim.Native.String
use text.Mathlib.Text.{◌==◌ as str_eq}
use advanced_vm.Common.{
  ℕ, zero, suc, not, Option, none, some, List, [], ◌∷◌, ◌++◌, leb, ◌==◌, if◌then◌else◌, length,
}
use advanced_vm.Word.{add32, sub32, mul32, div32, lt32, bool_word}
use advanced_vm.Ast.Node.{
  OpType, op_add, op_sub, op_mul, op_div, op_lt, op_gt, op_le, op_ge, op_eq, op_neq, Node, null,
  node_int, node_var, node_op, node_assign, node_decl, node_if, node_while, node_seq, node_print,
}

abbrev pub max_vars : ℕ
max_vars = 128

-- the size of `name` in `Symbol`
abbrev pub name_size : ℕ
name_size = 32

abbrev pub Symtab : Type 0
Symtab = List (String × ℕ)

-- The symbol table, in the order of declaration, and what print has written, last first.
pub record State : Type 0 where
  pub symtab : Symtab
  pub out : List ℕ

-- `exited` is exit(1) after a message; `undefined` is a write outside the symbol table, or the
-- division that traps.
pub data Result {ℓ} (A : Type ℓ) : Type ℓ where
  done : A → State → Result A
  exited : Result A
  undefined : Result A
  out_of_fuel : Result A

abbrev pub Eval {ℓ} : Type ℓ → Type ℓ
Eval A = State → Result A

abbrev pub bind {ℓ κ} : {A : Type ℓ} {B : Type κ} → Result A → (A → Eval B) → Result B
bind (done a st) f = f a st
bind exited f = exited
bind undefined f = undefined
bind out_of_fuel f = out_of_fuel

infixl 5 ◌>>=◌ ◌>>◌
abbrev pub ◌>>=◌ {ℓ κ} : {A : Type ℓ} {B : Type κ} → Eval A → (A → Eval B) → Eval B
◌>>=◌ m f st = bind (m st) f

abbrev pub ◌>>◌ {ℓ κ} : {A : Type ℓ} {B : Type κ} → Eval A → Eval B → Eval B
m >> k = m >>= λ _. k

-- `lookup` and the read of `symtab[i].value`; `none` for -1
unfoldable pub lookup : Symtab → String → Option ℕ
lookup [] name = none
lookup ((key, value) ∷ t) name = if str_eq key name then some value else lookup t name

-- the write to `symtab[i].value`, at the first entry of that name
unfoldable pub update : Symtab → String → ℕ → Symtab
update [] name v = []
update ((key, value) ∷ t) name v =
    if str_eq key name then (key, v) ∷ t else (key, value) ∷ update t name v

-- `symtab[symcount]`, without a test of the bounds
abbrev pub append_symbol : String → ℕ → Eval ℕ
append_symbol name value st =
    if leb max_vars (length st.symtab)
    then undefined
    else if leb name_size (String.len name)
    then undefined
    else done 0 (record st { symtab = st.symtab ++ (name, value) ∷ [] })

unfoldable pub declare_var : String → ℕ → Eval ℕ
declare_var name value st = elim (lookup st.symtab name) [
  | some _ ↦ done 0 st
  | none ↦ append_symbol name value st
]

unfoldable pub get_var : String → Eval ℕ
get_var name st = elim (lookup st.symtab name) [ some value ↦ done value st | none ↦ exited ]

unfoldable pub set_var : String → ℕ → Eval ℕ
set_var name value st = elim (lookup st.symtab name) [
  | some _ ↦ done 0 (record st { symtab = update st.symtab name value })
  | none ↦ exited
]

abbrev pub done_if_some : Option ℕ → Eval ℕ
done_if_some (some q) st = done q st
done_if_some none st = undefined

-- the `switch` on the operator
unfoldable pub apply_op : OpType → ℕ → ℕ → Eval ℕ
apply_op op_add l r st = done (add32 l r) st
apply_op op_sub l r st = done (sub32 l r) st
apply_op op_mul l r st = done (mul32 l r) st
apply_op op_div l r st = if r == 0 then exited else done_if_some (div32 l r) st
apply_op op_lt l r st = done (bool_word (lt32 l r)) st
apply_op op_gt l r st = done (bool_word (lt32 r l)) st
apply_op op_le l r st = done (bool_word (not (lt32 r l))) st
apply_op op_ge l r st = done (bool_word (not (lt32 l r))) st
apply_op op_eq l r st = done (bool_word (l == r)) st
apply_op op_neq l r st = done (bool_word (not (l == r))) st

abbrev pub print : ℕ → Eval ℕ
print v st = done 0 (record st { out = v ∷ st.out })

abbrev pub return_zero : Eval ℕ
return_zero st = done 0 st

-- `if (v) then_b else else_b`
abbrev pub branch : Eval ℕ → Eval ℕ → ℕ → Eval ℕ
branch then_b else_b v st = if v == 0 then else_b st else then_b st

unfoldable pub eval : ℕ → Node → Eval ℕ
eval zero n st = out_of_fuel
eval (suc f) null st = done 0 st
eval (suc f) (node_int _ value) st = done value st
eval (suc f) (node_var _ name) st = get_var name st
eval (suc f) (node_op _ op left right) st =
    bind (eval f left st) (λ l. eval f right >>= λ r. apply_op op l r)
eval (suc f) (node_assign _ name expr) st = bind (eval f expr st) (set_var name)
eval (suc f) (node_decl _ name init) st = bind (eval f init st) (declare_var name)
eval (suc f) (node_if _ cond then_b else_b) st =
    bind (eval f cond st) (branch (eval f then_b >> return_zero) (eval f else_b >> return_zero))
eval (suc f) (node_while l cond body) st =
    bind (eval f cond st) (branch (eval f body >> eval f (node_while l cond body)) return_zero)
eval (suc f) (node_seq _ first second) st =
    bind (eval f first st) (λ _. eval f second >> return_zero)
eval (suc f) (node_print _ expr) st = bind (eval f expr st) print
