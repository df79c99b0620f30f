-- ===== src/Gc/Heap.antt =====
-- gc.h: objects, values, and the collector's fields of `VM` (vm.h).
-- A pointer is an address or `none` for NULL. The list that starts at `first_object` and follows
-- the `next` fields is a list of addresses with the objects that stand there.
use advanced_vm.Common.{ℕ, Bool, Option, List}

abbrev pub Pointer : Type 0
Pointer = Option ℕ

pub data ObjectType : Type 0 where
  obj_pair obj_function obj_closure : ObjectType

-- the union of `struct Object`
pub data Payload : Type 0 where
  pair : Pointer → Pointer → Payload
  function : Pointer → Payload
  closure : Pointer → Pointer → Payload

pub record Object : Type 0 where
  pub marked : Bool
  pub payload : Payload

pub data Value : Type 0 where
  val_int : ℕ → Value
  val_obj : Pointer → Value

abbrev pub Chain : Type 0
Chain = List (ℕ × Object)

pub record GcState : Type 0 where
  pub first_object : Chain
  pub num_objects : ℕ
  pub max_objects : ℕ
  pub value_stack : List Value
  pub stack_count : ℕ
  pub auto_gc : Bool

abbrev pub vm_stack_max : ℕ
vm_stack_max = 256
