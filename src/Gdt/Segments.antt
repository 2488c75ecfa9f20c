-- ===== src/Gdt/Segments.antt =====
-- What the processor finds behind the registers that init of gdt.rs loads.
use mon_os.Base.{
  ℕ, ◌+◌, ◌≤◌, ◌<◌, ◌≡◌, refl, sym, ap, ◌∙◌, arith, some, List, [], ◌∷◌, length, set, get_elem?,
}
use mon_os.Gdt.{
  Crate, Descriptor, entries_of, PrivilegeLevel, Tss, init_tss, Selectors, Registers, added_code,
  added_data, added_user_code, added_user_data, added_tss, selectors, load, init, kernel_stack_top,
  double_fault_ist_index, double_fault_stack_size,
}

get_elem?-set_first : (xs : List ℕ) (v : ℕ) → 0 < length xs → get_elem? (set xs 0 v) 0 ≡ some v
get_elem?-set_first [] v h = absurd (omega (arith, h))
get_elem?-set_first (x ∷ xs) v h = refl

module _ (c : Crate) where
  open c use {Table, Selector, new, used, find, add_entry, selector, index, rpl}

  -- A descriptor added to a table of `n` entries
  record Adds (n : ℕ) (d : Descriptor) (t : Table) (added : Table × Selector) : Type 0 where
    size : used added.0 ≡ n + entries_of d
    place : index added.1 ≡ n
    found : find added.0 n ≡ some d
    kept : (i : ℕ) → i < n → find added.0 i ≡ find t i

  add_entry-Adds :
      (n : ℕ) (d : Descriptor) (t : Table)
      → used t ≡ n
      → n + entries_of d ≤ 8
      → Adds n d t (add_entry d t)
  add_entry-Adds n d t e room =
      let room' : used t + entries_of d ≤ 8 = omega (arith, e, room) in
      record {
        size = omega (arith, c.add_entry_used d t room', e);
        place = c.add_entry_index d t room' ∙ e;
        found = ap (λ i. find (add_entry d t).0 i) (sym e) ∙ c.add_entry_found d t room';
        kept = λ i h. c.add_entry_kept d t i room' (omega (arith, h, e));
      }

  code-Adds : Adds 1 Descriptor.kernel_code_segment new (added_code c)
  unfolding added_code
  code-Adds = add_entry-Adds 1 _ _ c.new_used (omega arith)

  data-Adds : Adds 2 Descriptor.kernel_data_segment (added_code c).0 (added_data c)
  unfolding added_data
  data-Adds = add_entry-Adds 2 _ _ code-Adds.size (omega arith)

  user_code-Adds : Adds 3 Descriptor.user_code_segment (added_data c).0 (added_user_code c)
  unfolding added_user_code
  user_code-Adds = add_entry-Adds 3 _ _ data-Adds.size (omega arith)

  user_data-Adds : Adds 4 Descriptor.user_data_segment (added_user_code c).0 (added_user_data c)
  unfolding added_user_data
  user_data-Adds = add_entry-Adds 4 _ _ user_code-Adds.size (omega arith)

  tss-Adds : (t : Tss) → Adds 5 (Descriptor.tss_segment t) (added_user_data c).0 (added_tss c t)
  unfolding added_tss
  tss-Adds t = add_entry-Adds 5 _ _ user_data-Adds.size (omega arith)

  -- The entries of the table that is loaded
  record Filled (table : Table) (t : Tss) : Type 0 where
    code : find table 1 ≡ some Descriptor.kernel_code_segment
    data_segment : find table 2 ≡ some Descriptor.kernel_data_segment
    user_code : find table 3 ≡ some Descriptor.user_code_segment
    user_data : find table 4 ≡ some Descriptor.user_data_segment
    tss : find table 5 ≡ some (Descriptor.tss_segment t)

  added_tss-Filled : (t : Tss) → Filled (added_tss c t).0 t
  added_tss-Filled t =
      let a = tss-Adds t in
      record {
        code =
            a.kept 1 (omega arith)
            ∙ (user_data-Adds.kept 1 (omega arith)
                ∙ (user_code-Adds.kept 1 (omega arith)
                    ∙ (data-Adds.kept 1 (omega arith) ∙ code-Adds.found)));
        data_segment =
            a.kept 2 (omega arith)
            ∙ (user_data-Adds.kept 2 (omega arith)
                ∙ (user_code-Adds.kept 2 (omega arith) ∙ data-Adds.found));
        user_code =
            a.kept 3 (omega arith) ∙ (user_data-Adds.kept 3 (omega arith) ∙ user_code-Adds.found);
        user_data = a.kept 4 (omega arith) ∙ user_data-Adds.found;
        tss = a.found;
      }

  -- What the registers reach, with the stacks at two addresses
  pub record Loaded (df_stack_start kernel_stack_start : ℕ) (r : Registers c) (s : Selectors c)
      : Type 0 where
    pub cs : find r.gdtr (index r.cs) ≡ some Descriptor.kernel_code_segment
    pub ss : find r.gdtr (index r.ss) ≡ some Descriptor.kernel_data_segment
    pub ds : find r.gdtr (index r.ds) ≡ some Descriptor.kernel_data_segment
    pub es : find r.gdtr (index r.es) ≡ some Descriptor.kernel_data_segment
    pub fs : find r.gdtr (index r.fs) ≡ some Descriptor.kernel_data_segment
    pub gs : find r.gdtr (index r.gs) ≡ some Descriptor.kernel_data_segment
    pub user_code : find r.gdtr (index s.user_code) ≡ some Descriptor.user_code_segment
    pub user_data : find r.gdtr (index s.user_data) ≡ some Descriptor.user_data_segment
    pub user_rings :
        (rpl s.user_code ≡ PrivilegeLevel.ring3) × (rpl s.user_data ≡ PrivilegeLevel.ring3)
    pub tss : Tss
    pub tr : find r.gdtr (index r.tr) ≡ some (Descriptor.tss_segment tss)
    pub double_fault_stack :
        get_elem? tss.interrupt_stack_table double_fault_ist_index
        ≡ some (df_stack_start + double_fault_stack_size)
    pub kernel_stack :
        get_elem? tss.privilege_stack_table 0 ≡ kernel_stack_top c (some s) kernel_stack_start

  abbrev tss_of : ℕ → ℕ → Tss
  tss_of df ks = init_tss c.tss_new df ks

  -- For a table that keeps what is added to it while its eight entries last: after init the code segment
  -- register reaches the kernel's code segment, the five others its data segment, and the task register a
  -- task state segment whose stack for double faults ends behind the first stack, and whose stack for ring 0 at
  -- kernel_stack_top of the second. The user selectors reach the user segments, with ring 3 in them.
  pub init-Loaded :
      (df_stack_start kernel_stack_start : ℕ)
      → Loaded df_stack_start kernel_stack_start
          (init c df_stack_start kernel_stack_start)
          (selectors c (tss_of df_stack_start kernel_stack_start))
  unfolding init load selectors kernel_stack_top init_tss
  init-Loaded df ks =
      let filled = added_tss-Filled (tss_of df ks) in
      record {
        cs = rw code-Adds.place filled.code;
        ss = rw data-Adds.place filled.data_segment;
        ds = rw data-Adds.place filled.data_segment;
        es = rw data-Adds.place filled.data_segment;
        fs = rw data-Adds.place filled.data_segment;
        gs = rw data-Adds.place filled.data_segment;
        user_code = rw (c.index_selector, user_code-Adds.place) filled.user_code;
        user_data = rw (c.index_selector, user_data-Adds.place) filled.user_data;
        user_rings = (c.rpl_selector _ _, c.rpl_selector _ _);
        tss = tss_of df ks;
        tr = rw (tss-Adds (tss_of df ks)).place filled.tss;
        double_fault_stack = get_elem?-set_first _ _ (omega (arith, c.stacks));
        kernel_stack = get_elem?-set_first _ _ (omega (arith, c.levels));
      }
