-- ===== src/Vm/Valid.antt =====
-- The invariant of the machine: sizes, ranges, and a program counter within the code.
use advanced_vm.Common.{
  ℕ, suc, ◌+◌, ◌≤◌, ◌<◌, ◌^◌, ◌≡◌, List, arith, get_or, set, length, All, ◌∙◌, length-set, All-set,
  All-get_or, get_or-set_self, get_or-set_ne,
}
use native.Mathlib.Decide.{ℕ_discrete}
use advanced_vm.Word.Bytes.{join_bytes-IsWord}
use advanced_vm.Vm.Stacks.{word_at}
use advanced_vm.Word.{IsWord, IsByte}
use advanced_vm.Vm.State.{Vm, memory_size, stack_size, return_stack_size}

abbrev pub IsArray : ℕ → List ℕ → Type 0
IsArray n cells = (length cells ≡ n) × All IsWord cells

pub record Shape (stack : List ℕ) (sp : ℕ) (memory code : List ℕ) (code_size pc : ℕ)
    (return_stack : List ℕ) (rsp : ℕ) : Type 0 where
  pub cells : IsArray stack_size stack
  pub sp_le : sp ≤ stack_size
  pub words : IsArray memory_size memory
  pub bytes : All IsByte code
  pub code_fits : code_size ≤ length code
  pub code_small : code_size < 2 ^ 31
  pub pc_le : pc ≤ code_size
  pub slots : length return_stack ≡ return_stack_size
  pub rsp_le : rsp ≤ return_stack_size
  pub returns_le : (i : ℕ) → i < rsp → get_or return_stack i 0 ≤ code_size

abbrev pub IsValid : Vm → Type 0
IsValid vm = Shape vm.stack vm.sp vm.memory vm.code vm.code_size vm.pc vm.return_stack vm.rsp

module _ (vm : Vm) (h : IsValid vm) where
  open h use {cells, sp_le, words, bytes, code_fits, code_small, pc_le, slots, rsp_le, returns_le}

  pub IsValid-pop : (n : ℕ) → vm.sp ≡ suc n → IsValid (record vm { sp = n })
  IsValid-pop n e = record {
    cells = cells;
    sp_le = omega arith;
    words = words;
    bytes = bytes;
    code_fits = code_fits;
    code_small = code_small;
    pc_le = pc_le;
    slots = slots;
    rsp_le = rsp_le;
    returns_le = returns_le;
  }

  pub IsValid-push :
      (v : ℕ)
      → IsWord v
      → vm.sp < stack_size
      → IsValid (record vm { stack = set vm.stack vm.sp v; sp = vm.sp + 1 })
  IsValid-push v w room = record {
    cells = (length-set vm.stack vm.sp v ∙ cells.0, All-set IsWord vm.stack vm.sp v cells.1 w);
    sp_le = omega arith;
    words = words;
    bytes = bytes;
    code_fits = code_fits;
    code_small = code_small;
    pc_le = pc_le;
    slots = slots;
    rsp_le = rsp_le;
    returns_le = returns_le;
  }

  pub IsValid-pc : (pc : ℕ) → pc ≤ vm.code_size → IsValid (record vm { pc = pc })
  IsValid-pc pc le = record {
    cells = cells;
    sp_le = sp_le;
    words = words;
    bytes = bytes;
    code_fits = code_fits;
    code_small = code_small;
    pc_le = le;
    slots = slots;
    rsp_le = rsp_le;
    returns_le = returns_le;
  }

  pub IsValid-write : (i v : ℕ) → IsWord v → IsValid (record vm { memory = set vm.memory i v })
  IsValid-write i v w = record {
    cells = cells;
    sp_le = sp_le;
    words = (length-set vm.memory i v ∙ words.0, All-set IsWord vm.memory i v words.1 w);
    bytes = bytes;
    code_fits = code_fits;
    code_small = code_small;
    pc_le = pc_le;
    slots = slots;
    rsp_le = rsp_le;
    returns_le = returns_le;
  }

  pub IsValid-save :
      vm.rsp < return_stack_size
      → IsValid (record vm { return_stack = set vm.return_stack vm.rsp vm.pc; rsp = vm.rsp + 1 })
  IsValid-save room = record {
    cells = cells;
    sp_le = sp_le;
    words = words;
    bytes = bytes;
    code_fits = code_fits;
    code_small = code_small;
    pc_le = pc_le;
    slots = length-set vm.return_stack vm.rsp vm.pc ∙ slots;
    rsp_le = omega arith;
    returns_le = λ i lt. elim (ℕ_discrete i vm.rsp) [
      | yes e ↦ rw (e, get_or-set_self vm.return_stack vm.rsp vm.pc 0 (omega arith)) pc_le
      | no ne ↦
          rw (get_or-set_ne vm.return_stack vm.rsp i vm.pc 0 (omega arith))
            (returns_le i (omega arith))
    ];
  }

  pub IsValid-return : (n : ℕ) → vm.rsp ≡ suc n → IsValid (record vm { rsp = n })
  IsValid-return n e = record {
    cells = cells;
    sp_le = sp_le;
    words = words;
    bytes = bytes;
    code_fits = code_fits;
    code_small = code_small;
    pc_le = pc_le;
    slots = slots;
    rsp_le = omega arith;
    returns_le = λ i lt. returns_le i (omega arith);
  }

  pub word_at-IsWord : IsWord (word_at vm.code vm.pc)
  unfolding word_at
  word_at-IsWord =
      let byte = λ (i : ℕ). All-get_or IsByte vm.code i 0 bytes (omega arith) in
      join_bytes-IsWord _ _ _ _ (byte vm.pc) (byte (vm.pc + 1)) (byte (vm.pc + 2))
        (byte (vm.pc + 3))
