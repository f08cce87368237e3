-- ===== src/Ring.antt =====
-- uthreads/include/list.h: circular doubly linked lists of LIST_ENTRY cells in one memory.
-- An address is a number; `flink` and `blink` give the contents of the two pointers of the cell at
-- each address. Every function makes the loads and stores of its source, in the source's order.
mod Examples
pub mod Chain
pub mod Insert
pub mod Mirror
pub mod Remove
use so_1920v_li41n.Prelude.{ℕ, ◌-◌, Bool, ◌==◌, update}

abbrev pub Addr : Type 0
Addr = ℕ

pub record Links : Type 0 where
  pub flink : Addr → Addr
  pub blink : Addr → Addr

-- `p->flink = q`
abbrev pub set_flink : Links → Addr → Addr → Links
set_flink m p q = record m { flink = update m.flink p q }

-- `p->blink = q`
abbrev pub set_blink : Links → Addr → Addr → Links
set_blink m p q = record m { blink = update m.blink p q }

-- The field's offset replaces the type and the field name of the macro.
unfoldable pub container_of : Addr → ℕ → Addr
container_of address offset = address - offset

unfoldable pub init_list_head : Links → Addr → Links
init_list_head m listhead = set_flink (set_blink m listhead listhead) listhead listhead

unfoldable pub is_list_empty : Links → Addr → Bool
is_list_empty m listhead = m.flink listhead == listhead

unfoldable pub remove_entry_list : Links → Addr → Bool × Links
remove_entry_list m entry =
    let flink = m.flink entry in
    let blink = m.blink entry in
    let m = set_flink m blink flink in let m = set_blink m flink blink in (flink == blink, m)

unfoldable pub remove_head_list : Links → Addr → Addr × Links
remove_head_list m listhead =
    let entry = m.flink listhead in
    let flink = m.flink entry in
    let m = set_flink m listhead flink in let m = set_blink m flink listhead in (entry, m)

unfoldable pub remove_tail_list : Links → Addr → Addr × Links
remove_tail_list m listhead =
    let entry = m.blink listhead in
    let blink = m.blink entry in
    let m = set_blink m listhead blink in let m = set_flink m blink listhead in (entry, m)

unfoldable pub insert_tail_list : Links → Addr → Addr → Links
insert_tail_list m listhead entry =
    let blink = m.blink listhead in
    let m = set_flink m entry listhead in
    let m = set_blink m entry blink in let m = set_flink m blink entry in set_blink m listhead entry

unfoldable pub insert_head_list : Links → Addr → Addr → Links
insert_head_list m listhead entry =
    let flink = m.flink listhead in
    let m = set_flink m entry flink in
    let m = set_blink m entry listhead in
    let m = set_blink m flink entry in set_flink m listhead entry
