-- ===== src/Mm/Installed.antt =====
-- mm/mm.cpp: the table that `gdt_init` leaves, read the way the processor reads it.
use modern.Base.{
  ℕ, ◌+◌, ◌*◌, ◌/◌, ◌%◌, ◌^◌, ◌<◌, ◌≤◌, ◌≡◌, arith, refl, sym, subst, ◌∙◌, ltb, leb, true, some,
  ◌≢◌, ==_of_eq, ==_of_ne, ◌==◌, if◌then◌else◌, ◌⊎◌, ◌∙◌,
}
use modern.Mm.Segments.{
  Gdt, Segments, marked_busy, iomap_offset, tss_selector, gdt_init, set_segments, set_word,
  copy_gdt, segment_word, system_word_lo, system_word_hi, task_desc, tss_size, code_segment,
  data_segment, kernel_code_selector, kernel_data_selector,
}

-- What the processor reads in a word of the table: of a code or data segment, its bits S, P and the
-- privilege level, whether it is code, that data can be written, and L without D for 64-bit code.
pub record IsSegmentWord (code : ℕ) (dpl : ℕ) (w : ℕ) : Type 0 where
  pub present : w / 2 ^ 47 % 2 ≡ 1
  pub code_or_data : w / 2 ^ 44 % 2 ≡ 1
  pub level : w / 2 ^ 45 % 4 ≡ dpl
  pub executable : w / 2 ^ 43 % 2 ≡ code
  pub writable : w / 2 ^ 41 % 2 + code ≡ 1
  pub long : w / 2 ^ 53 % 2 ≡ code
  pub default_size : w / 2 ^ 54 % 2 ≡ 0

-- and in the two words of a system descriptor: P, S, the type, the base in three pieces, the limit
pub record IsTss (base : ℕ) (limit : ℕ) (lo : ℕ) (hi : ℕ) : Type 0 where
  pub present : lo / 2 ^ 47 % 2 ≡ 1
  pub system : lo / 2 ^ 44 % 2 ≡ 0
  pub busy : lo / 2 ^ 40 % 16 ≡ 11
  pub based : lo / 2 ^ 16 % 2 ^ 24 + 2 ^ 24 * (lo / 2 ^ 56 % 2 ^ 8) + 2 ^ 32 * (hi % 2 ^ 32) ≡ base
  pub limited : lo % 2 ^ 16 + 2 ^ 16 * (lo / 2 ^ 48 % 16) ≡ limit
  pub reserved : hi / 2 ^ 32 ≡ 0

busy_word :
    (addr : ℕ)
    → marked_busy (system_word_lo (task_desc addr)) ≡ system_word_lo (task_desc addr) + 2 ^ 41
unfolding task_desc system_word_lo
busy_word addr = ground arith

busy_words-IsTss :
    (addr : ℕ)
    → addr < 2 ^ 64
    → IsTss addr tss_size
        (system_word_lo (task_desc addr) + 2 ^ 41)
        (system_word_hi (task_desc addr))
unfolding task_desc system_word_lo system_word_hi
busy_words-IsTss addr small = record {
  present = omega arith;
  system = omega arith;
  busy = omega arith;
  based = omega arith;
  limited = omega arith;
  reserved = omega arith;
}

task_desc-IsTss :
    (addr : ℕ)
    → addr < 2 ^ 64
    → IsTss addr tss_size
        (marked_busy (system_word_lo (task_desc addr)))
        (system_word_hi (task_desc addr))
task_desc-IsTss addr small =
    subst (λ w. IsTss addr tss_size w (system_word_hi (task_desc addr))) (sym (busy_word addr))
      (busy_words-IsTss addr small)

kernel_code_lem :
    (cs ds : ℕ) (gdt : Gdt)
    → set_segments cs ds gdt 2
      ≡ (if cs == kernel_code_selector then gdt 2 else segment_word (code_segment 0))
unfolding set_segments set_word
kernel_code_lem cs ds gdt = ground arith

kernel_data_lem :
    (cs ds : ℕ) (gdt : Gdt)
    → set_segments cs ds gdt 3
      ≡ (if ds == kernel_data_selector then gdt 3 else segment_word (data_segment 0))
unfolding set_segments set_word
kernel_data_lem cs ds gdt = ground arith

kernel_code_other :
    (cs ds : ℕ) (gdt : Gdt)
    → cs ≢ kernel_code_selector
    → set_segments cs ds gdt 2 ≡ segment_word (code_segment 0)
kernel_code_other cs ds gdt other = kernel_code_lem cs ds gdt ∙ rw (==_of_ne other) refl

kernel_code_same :
    (cs ds : ℕ) (gdt : Gdt) → cs ≡ kernel_code_selector → set_segments cs ds gdt 2 ≡ gdt 2
kernel_code_same cs ds gdt same = kernel_code_lem cs ds gdt ∙ rw (==_of_eq same) refl

kernel_data_other :
    (cs ds : ℕ) (gdt : Gdt)
    → ds ≢ kernel_data_selector
    → set_segments cs ds gdt 3 ≡ segment_word (data_segment 0)
kernel_data_other cs ds gdt other = kernel_data_lem cs ds gdt ∙ rw (==_of_ne other) refl

kernel_data_same :
    (cs ds : ℕ) (gdt : Gdt) → ds ≡ kernel_data_selector → set_segments cs ds gdt 3 ≡ gdt 3
kernel_data_same cs ds gdt same = kernel_data_lem cs ds gdt ∙ rw (==_of_eq same) refl

abbrev firmware_word : Gdt → ℕ → ℕ → ℕ
firmware_word firmware n j = if ltb j n then firmware j else 0

-- what a table holds after `gdt_init`, under the selectors that the kernel uses
pub record IsInstalled (firmware : Gdt) (n cs ds addr stack : ℕ) (s : Segments) : Type 0 where
  pub kernel_code : cs ≢ kernel_code_selector → IsSegmentWord 1 0 (s.gdt 2)
  pub code_kept : cs ≡ kernel_code_selector → s.gdt 2 ≡ firmware_word firmware n 2
  pub kernel_data : ds ≢ kernel_data_selector → IsSegmentWord 0 0 (s.gdt 3)
  pub data_kept : ds ≡ kernel_data_selector → s.gdt 3 ≡ firmware_word firmware n 3
  pub user_code : IsSegmentWord 1 3 (s.gdt 4)
  pub user_data : IsSegmentWord 0 3 (s.gdt 5)
  pub task : IsTss addr tss_size (s.gdt (s.tr / 8)) (s.gdt (s.tr / 8 + 1))
  pub stack_set : s.rsp0 ≡ stack
  pub iomap_inside : s.iomap_base_addr + 8192 ≡ tss_size
  pub code_selector : s.cs ≡ kernel_code_selector
  pub data_selector : s.ds ≡ kernel_data_selector

code-IsSegmentWord : (dpl : ℕ) → dpl < 4 → IsSegmentWord 1 dpl (segment_word (code_segment dpl))
unfolding segment_word
code-IsSegmentWord dpl small = record {
  present = omega arith;
  code_or_data = omega arith;
  level = omega arith;
  executable = omega arith;
  writable = omega arith;
  long = omega arith;
  default_size = omega arith;
}

data-IsSegmentWord : (dpl : ℕ) → dpl < 4 → IsSegmentWord 0 dpl (segment_word (data_segment dpl))
unfolding segment_word
data-IsSegmentWord dpl small = record {
  present = omega arith;
  code_or_data = omega arith;
  level = omega arith;
  executable = omega arith;
  writable = omega arith;
  long = omega arith;
  default_size = omega arith;
}

user_code_at : (cs ds : ℕ) (gdt : Gdt) → set_segments cs ds gdt 4 ≡ segment_word (code_segment 3)
unfolding set_segments set_word
user_code_at cs ds gdt = refl

user_data_at : (cs ds : ℕ) (gdt : Gdt) → set_segments cs ds gdt 5 ≡ segment_word (data_segment 3)
unfolding set_segments set_word
user_data_at cs ds gdt = refl

set_segments-other :
    (cs ds : ℕ) (gdt : Gdt) (j : ℕ) → (j < 2) ⊎ (8 ≤ j) → set_segments cs ds gdt j ≡ gdt j
unfolding set_segments set_word
set_segments-other cs ds gdt j out = ground arith

-- `gdt_init`, on a firmware's table of at most 128 words and whatever the registers were, leaves the
-- user's code and data segments at level 3; the kernel's at level 0 in their entries, or the
-- firmware's where its selector was the same; a task state segment whose descriptor, busy now, reads
-- back as the address and the size of `tss`, its stack and its port map's place; the kernel's
-- selectors in cs and ds. The data segments can be written. Every entry `j` but these six is as the
-- firmware had it, or 0 behind the end of its table.
pub gdt_init-IsInstalled :
    (firmware : Gdt) (n cs ds tss_addr stack j : ℕ)
    → n ≤ 128
    → tss_addr < 2 ^ 64
    → (j < 2) ⊎ (8 ≤ j)
    → (s : Segments) × (gdt_init firmware n cs ds tss_addr stack ≡ some s)
      × IsInstalled firmware n cs ds tss_addr stack s
      × (s.gdt j ≡ firmware_word firmware n j)
unfolding gdt_init set_word copy_gdt
gdt_init-IsInstalled firmware n cs ds tss_addr stack j room small out =
    let fits : leb n 128 ≡ true = ground arith in
    let copy = firmware_word firmware n in
    (
      record {
        gdt =
            set_word
              (set_word (set_segments cs ds copy) 6
                (marked_busy (system_word_lo (task_desc tss_addr))))
              7 (system_word_hi (task_desc tss_addr));
        rsp0 = stack;
        iomap_base_addr = iomap_offset;
        cs = if cs == kernel_code_selector then cs else kernel_code_selector;
        ds = if ds == kernel_data_selector then ds else kernel_data_selector;
        tr = tss_selector;
      },
      rw fits refl,
      record {
        kernel_code = λ other.
            subst (IsSegmentWord 1 0) (sym (kernel_code_other cs ds copy other))
              (code-IsSegmentWord 0 (omega arith));
        code_kept = kernel_code_same cs ds copy;
        kernel_data = λ other.
            subst (IsSegmentWord 0 0) (sym (kernel_data_other cs ds copy other))
              (data-IsSegmentWord 0 (omega arith));
        data_kept = kernel_data_same cs ds copy;
        user_code =
            subst (IsSegmentWord 1 3) (sym (user_code_at cs ds copy))
              (code-IsSegmentWord 3 (omega arith));
        user_data =
            subst (IsSegmentWord 0 3) (sym (user_data_at cs ds copy))
              (data-IsSegmentWord 3 (omega arith));
        task = task_desc-IsTss tss_addr small;
        stack_set = refl;
        iomap_inside = refl;
        code_selector = ground arith;
        data_selector = ground arith;
      },
      ground (arith, set_segments-other cs ds copy j out),
    )
