-- ===== src/Gc/Collect.antt =====
-- gc.c: allocation, marking, sweeping and the value stack. `gc_mark_object` recurs along pointers,
-- so it takes fuel, which bounds the depth of its calls; a result `none` means that the fuel ran
-- out, or that a pointer was followed to an address where no object stands.
use mathlib.Core.Option
use advanced_vm.Common.{
  ℕ, zero, suc, ◌+◌, ◌-◌, ◌*◌, Bool, true, false, ◌&&◌, Option, none, some, List, [], ◌∷◌, leb, ltb,
  ◌==◌, if◌then◌else◌, get_or, set,
}
use advanced_vm.Gc.Heap.{
  Pointer, ObjectType, obj_pair, obj_function, obj_closure, Payload, pair, function, closure,
  Object, Value, val_int, val_obj, Chain, GcState, vm_stack_max,
}

-- the object at an address: `*obj`
unfoldable pub find : Chain → ℕ → Option Object
find [] a = none
find ((b, o) ∷ h) a = if b == a then some o else find h a

-- `obj->marked = true`
unfoldable pub mark_at : Chain → ℕ → Chain
mark_at [] a = []
mark_at ((b, o) ∷ h) a =
    if b == a then (b, record o { marked = true }) ∷ h else (b, o) ∷ mark_at h a

infixl 5 ◌>>=◌
abbrev pub ◌>>=◌ : Option Chain → (Chain → Option Chain) → Option Chain
none >>= f = none
some h >>= f = f h

-- the `switch` on the object's type, with the recursive call `mark`
abbrev pub mark_children : (Chain → Pointer → Option Chain) → Payload → Chain → Option Chain
mark_children mark (pair left right) h = do h₁ ← mark h left; mark h₁ right
mark_children mark (closure fn env) h = do h₁ ← mark h fn; mark h₁ env
mark_children mark (function _) h = some h

-- the tests and the marking, for the object that the pointer leads to
abbrev pub mark_found : (Chain → Pointer → Option Chain) → Chain → ℕ → Option Object → Option Chain
mark_found mark h a none = none
mark_found mark h a (some o) =
    if o.marked then some h else mark_children mark o.payload (mark_at h a)

unfoldable pub gc_mark_object : ℕ → Chain → Pointer → Option Chain
gc_mark_object zero h p = none
gc_mark_object (suc fuel) h none = some h
gc_mark_object (suc fuel) h (some a) = mark_found (gc_mark_object fuel) h a (find h a)

-- the body of the loop of `gc_mark_roots`
abbrev pub mark_value : ℕ → Chain → Value → Option Chain
mark_value fuel h (val_int _) = some h
mark_value fuel h (val_obj p) = gc_mark_object fuel h p

-- The loop, from index `i` on with `n` rounds left.
unfoldable pub mark_roots_from : ℕ → List Value → ℕ → ℕ → Chain → Option Chain
mark_roots_from fuel cells zero i h = some h
mark_roots_from fuel cells (suc n) i h =
    mark_value fuel h (get_or cells i (val_int 0)) >>= mark_roots_from fuel cells n (i + 1)

unfoldable pub gc_mark_roots : ℕ → GcState → Option Chain
unfolding mark_roots_from
gc_mark_roots fuel vm = mark_roots_from fuel vm.value_stack vm.stack_count 0 vm.first_object

-- The loop of `gc_sweep`: the list it leaves, and the count of objects.
unfoldable pub sweep : Chain → ℕ → Chain × ℕ
sweep [] n = ([], n)
sweep ((a, o) ∷ h) n =
    let kept = sweep h n in
    let freed = sweep h (n - 1) in
    if o.marked then ((a, record o { marked = false }) ∷ kept.0, kept.1) else freed

unfoldable pub gc_sweep : GcState → GcState
unfolding sweep
gc_sweep vm =
    let (first_object, num_objects) = sweep vm.first_object vm.num_objects in
    record vm { first_object = first_object; num_objects = num_objects }

abbrev pub threshold : ℕ → ℕ
threshold n = if ltb (n * 2) 8 then 8 else n * 2

abbrev pub set_threshold : GcState → GcState
set_threshold vm = record vm { max_objects = threshold vm.num_objects }

-- `gc` is another name of it. The line that it prints is left out.
unfoldable pub gc_collect : ℕ → GcState → Option GcState
gc_collect fuel vm =
    Option.map (λ h. set_threshold (gc_sweep (record vm { first_object = h })))
      (gc_mark_roots fuel vm)

abbrev pub empty_payload : ObjectType → Payload
empty_payload obj_pair = pair none none
empty_payload obj_function = function none
empty_payload obj_closure = closure none none

-- `malloc` is what the call of malloc returns: an address, or `none` for NULL.
abbrev pub link_object : Pointer → ObjectType → GcState → Pointer × GcState
link_object none type vm = (none, vm)
link_object (some a) type vm = (
  some a,
  record vm {
    first_object = (a, record { marked = false; payload = empty_payload type }) ∷ vm.first_object;
    num_objects = vm.num_objects + 1;
  },
)

-- `if (vm->auto_gc && vm->num_objects >= vm->max_objects) gc_collect(vm);`
unfoldable pub collect_if_due : ℕ → GcState → Option GcState
collect_if_due fuel vm =
    if vm.auto_gc && leb vm.max_objects vm.num_objects then gc_collect fuel vm else some vm

unfoldable pub gc_alloc_object : ℕ → Pointer → ObjectType → GcState → Option (Pointer × GcState)
gc_alloc_object fuel malloc type vm = Option.map (link_object malloc type) (collect_if_due fuel vm)

-- `obj->pair.left = left; …`: a write to the object at an address
unfoldable pub fill : Chain → ℕ → Payload → Chain
fill [] a q = []
fill ((b, o) ∷ h) a q = if b == a then (b, record o { payload = q }) ∷ h else (b, o) ∷ fill h a q

abbrev pub fill_new : Payload → Pointer × GcState → Pointer × GcState
fill_new q (none, vm) = (none, vm)
fill_new q (some a, vm) = (some a, record vm { first_object = fill vm.first_object a q })

unfoldable pub new_pair : ℕ → Pointer → Pointer → Pointer → GcState → Option (Pointer × GcState)
new_pair fuel malloc left right vm =
    Option.map (fill_new (pair left right)) (gc_alloc_object fuel malloc obj_pair vm)

unfoldable pub new_function : ℕ → Pointer → GcState → Option (Pointer × GcState)
new_function fuel malloc vm = gc_alloc_object fuel malloc obj_function vm

unfoldable pub new_closure : ℕ → Pointer → Pointer → Pointer → GcState → Option (Pointer × GcState)
new_closure fuel malloc fn env vm =
    Option.map (fill_new (closure fn env)) (gc_alloc_object fuel malloc obj_closure vm)

-- A full stack only prints a message.
unfoldable pub push : GcState → Value → GcState
push vm val = if leb vm_stack_max vm.stack_count then vm else record vm {
  value_stack = set vm.value_stack vm.stack_count val;
  stack_count = vm.stack_count + 1;
}

unfoldable pub pop : GcState → Value × GcState
pop vm = if leb vm.stack_count 0 then (val_int 0, vm) else (
  get_or vm.value_stack (vm.stack_count - 1) (val_int 0),
  record vm { stack_count = vm.stack_count - 1 },
)

unfoldable pub gc_set_auto_collect : GcState → Bool → GcState
gc_set_auto_collect vm enabled = record vm { auto_gc = enabled }

-- All objects are freed; the value stack keeps its pointers.
unfoldable pub gc_cleanup : GcState → GcState
gc_cleanup vm = record vm { first_object = []; num_objects = 0 }
