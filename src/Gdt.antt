-- ===== src/Gdt.antt =====
-- kernel/src/gdt.rs: the segment table, the task state segment with its two stacks, and the registers that
-- init loads. The table is the x86_64 crate's: a parameter with what the code relies on of it.
pub mod Segments
mod Tests
use mon_os.Base.{
  ℕ, ◌+◌, ◌*◌, ◌≤◌, ◌<◌, ◌≡◌, refl, sym, ap, ◌∙◌, arith, Option, none, some, List, [], ◌∷◌, length,
  set, get_elem?,
}

abbrev pub double_fault_stack_size : ℕ
double_fault_stack_size = 4096

abbrev pub kernel_stack_size : ℕ
kernel_stack_size = 4096 * 4

abbrev pub double_fault_ist_index : ℕ
double_fault_ist_index = 0

-- What the code sets of a TaskStateSegment
pub record Tss : Type 0 where
  pub interrupt_stack_table : List ℕ
  pub privilege_stack_table : List ℕ

pub data Descriptor : Type 0 where
  kernel_code_segment kernel_data_segment user_code_segment user_data_segment : Descriptor
  tss_segment : Tss → Descriptor

-- How many of the table's eight entries a descriptor takes
abbrev pub entries_of : Descriptor → ℕ
entries_of (Descriptor.tss_segment t) = 2
entries_of segment = 1

pub data PrivilegeLevel : Type 0 where
  ring0 ring3 : PrivilegeLevel

-- The crate: a table of eight entries of which the first is taken, selectors, and an empty task state segment.
-- `find` is what the processor finds at an index of a table.
pub record Crate : Type 1 where
  pub Table : Type 0
  pub Selector : Type 0
  pub new : Table
  pub used : Table → ℕ
  pub find : Table → ℕ → Option Descriptor
  pub add_entry : Descriptor → Table → Table × Selector
  pub selector : ℕ → PrivilegeLevel → Selector
  pub index : Selector → ℕ
  pub rpl : Selector → PrivilegeLevel
  pub tss_new : Tss
  pub new_used : used new ≡ 1
  pub add_entry_used :
      (d : Descriptor) (t : Table)
      → used t + entries_of d ≤ 8
      → used (add_entry d t).0 ≡ used t + entries_of d
  pub add_entry_index :
      (d : Descriptor) (t : Table) → used t + entries_of d ≤ 8 → index (add_entry d t).1 ≡ used t
  pub add_entry_found :
      (d : Descriptor) (t : Table)
      → used t + entries_of d ≤ 8
      → find (add_entry d t).0 (used t) ≡ some d
  pub add_entry_kept :
      (d : Descriptor) (t : Table) (i : ℕ)
      → used t + entries_of d ≤ 8
      → i < used t
      → find (add_entry d t).0 i ≡ find t i
  pub index_selector : (i : ℕ) (p : PrivilegeLevel) → index (selector i p) ≡ i
  pub rpl_selector : (i : ℕ) (p : PrivilegeLevel) → rpl (selector i p) ≡ p
  pub stacks : length tss_new.interrupt_stack_table ≡ 7
  pub levels : length tss_new.privilege_stack_table ≡ 3

-- init_tss, from the addresses of DOUBLE_FAULT_STACK and KERNEL_STACK
unfoldable pub init_tss : Tss → ℕ → ℕ → Tss
init_tss blank df_stack_start kernel_stack_start = record {
  interrupt_stack_table =
      set blank.interrupt_stack_table double_fault_ist_index
        (df_stack_start + double_fault_stack_size);
  privilege_stack_table =
      set blank.privilege_stack_table 0 (kernel_stack_start + kernel_stack_size);
}

module _ (c : Crate) where
  open c use {Table, Selector, new, used, find, add_entry, selector, index, rpl}

  pub record Selectors : Type 0 where
    pub code : Selector
    pub data_segment : Selector
    pub user_code : Selector
    pub user_data : Selector
    pub tss : Selector

  -- The calls of add_entry in order
  unfoldable pub added_code : Table × Selector
  added_code = add_entry Descriptor.kernel_code_segment new

  unfoldable pub added_data : Table × Selector
  added_data = add_entry Descriptor.kernel_data_segment added_code.0

  unfoldable pub added_user_code : Table × Selector
  added_user_code = add_entry Descriptor.user_code_segment added_data.0

  unfoldable pub added_user_data : Table × Selector
  added_user_data = add_entry Descriptor.user_data_segment added_user_code.0

  unfoldable pub added_tss : Tss → Table × Selector
  added_tss t = add_entry (Descriptor.tss_segment t) added_user_data.0

  unfoldable pub selectors : Tss → Selectors
  selectors t = record {
    code = added_code.1;
    data_segment = added_data.1;
    user_code = selector (index added_user_code.1) PrivilegeLevel.ring3;
    user_data = selector (index added_user_data.1) PrivilegeLevel.ring3;
    tss = (added_tss t).1;
  }

  -- What init leaves in the processor: the table of `load`, the segment registers and the task register
  pub record Registers : Type 0 where
    pub gdtr : Table
    pub cs : Selector
    pub ss : Selector
    pub ds : Selector
    pub es : Selector
    pub fs : Selector
    pub gs : Selector
    pub tr : Selector

  unfoldable pub load : Table → Selectors → Registers
  load table s = record {
    gdtr = table;
    cs = s.code;
    ss = s.data_segment;
    ds = s.data_segment;
    es = s.data_segment;
    fs = s.data_segment;
    gs = s.data_segment;
    tr = s.tss;
  }

  -- init, with the addresses of the two stacks
  unfoldable pub init : ℕ → ℕ → Registers
  init df_stack_start kernel_stack_start =
      let tss = init_tss c.tss_new df_stack_start kernel_stack_start in
      load (added_tss tss).0 (selectors tss)

  -- kernel_stack_top, from the selectors that GDT holds: where it is not set up yet, the call of `selectors`
  -- panics, which is `none`.
  unfoldable pub kernel_stack_top : Option Selectors → ℕ → Option ℕ
  kernel_stack_top none kernel_stack_start = none
  kernel_stack_top (some held) kernel_stack_start = some (kernel_stack_start + kernel_stack_size)
