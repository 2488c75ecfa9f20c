-- ===== src/Gdt/Tests.antt =====
-- gdt.rs on a concrete table.
use mon_os.Base.{
  ℕ, zero, suc, ◌+◌, ◌<◌, ◌≡◌, refl, arith, Option, none, some, List, [], ◌∷◌, ◌++◌, length,
  replicate, length-append,
}
use mon_os.Gdt.{
  Descriptor, entries_of, PrivilegeLevel, Crate, init, init_tss, selectors, kernel_stack_top,
}
use mon_os.Gdt.Segments.{Loaded, init-Loaded}

abbrev Entries : Type 0
Entries = List (Option Descriptor)

abbrev lookup : Entries → ℕ → Option Descriptor
lookup [] i = none
lookup (e ∷ es) zero = e
lookup (e ∷ es) (suc i) = lookup es i

-- The entries of a descriptor: that of a task state segment takes a second one.
abbrev written : Descriptor → Entries
written (Descriptor.tss_segment t) = some (Descriptor.tss_segment t) ∷ none ∷ []
written Descriptor.kernel_code_segment = some Descriptor.kernel_code_segment ∷ []
written Descriptor.kernel_data_segment = some Descriptor.kernel_data_segment ∷ []
written Descriptor.user_code_segment = some Descriptor.user_code_segment ∷ []
written Descriptor.user_data_segment = some Descriptor.user_data_segment ∷ []

length-written : (d : Descriptor) → length (written d) ≡ entries_of d
length-written (Descriptor.tss_segment t) = refl
length-written Descriptor.kernel_code_segment = refl
length-written Descriptor.kernel_data_segment = refl
length-written Descriptor.user_code_segment = refl
length-written Descriptor.user_data_segment = refl

lookup_found : (es : Entries) (d : Descriptor) → lookup (es ++ written d) (length es) ≡ some d
lookup_found [] (Descriptor.tss_segment t) = refl
lookup_found [] Descriptor.kernel_code_segment = refl
lookup_found [] Descriptor.kernel_data_segment = refl
lookup_found [] Descriptor.user_code_segment = refl
lookup_found [] Descriptor.user_data_segment = refl
lookup_found (e ∷ es) d = lookup_found es d

lookup_kept : (es later : Entries) (i : ℕ) → i < length es → lookup (es ++ later) i ≡ lookup es i
lookup_kept [] later i h = absurd (omega (arith, h))
lookup_kept (e ∷ es) later zero h = refl
lookup_kept (e ∷ es) later (suc i) h = lookup_kept es later i (omega (arith, h))

size_added : (d : Descriptor) (es : Entries) → length (es ++ written d) ≡ length es + entries_of d
size_added d es = omega (arith, length-append es (written d), length-written d)

abbrev crate : Crate
crate = record {
  Table = Entries;
  Selector = ℕ × PrivilegeLevel;
  new = none ∷ [];
  used = λ t. length t;
  find = λ t i. lookup t i;
  add_entry = λ d t. (t ++ written d, (length t, PrivilegeLevel.ring0));
  selector = λ i p. (i, p);
  index = λ s. s.0;
  rpl = λ s. s.1;
  tss_new = record { interrupt_stack_table = replicate 7 0; privilege_stack_table = replicate 3 0 };
  new_used = refl;
  add_entry_used = λ d t h. size_added d t;
  add_entry_index = λ d t h. refl;
  add_entry_found = λ d t h. lookup_found t d;
  add_entry_kept = λ d t i h lt. lookup_kept t (written d) i lt;
  index_selector = λ i p. refl;
  rpl_selector = λ i p. refl;
  stacks = refl;
  levels = refl;
}

init-Loaded_example :
    Loaded crate 0x8000 0xa000
      (init crate 0x8000 0xa000)
      (selectors crate (init_tss crate.tss_new 0x8000 0xa000))
init-Loaded_example = init-Loaded crate 0x8000 0xa000

kernel_stack_top_run :
    kernel_stack_top crate (some (selectors crate (init_tss crate.tss_new 0x8000 0xa000))) 0xa000
    ≡ some 0xe000
unfolding kernel_stack_top
kernel_stack_top_run = refl
