-- ===== src/Mm/Segments.antt =====
-- mm/mm.cpp: `gdt_init`, on the descriptors of include/cpu_defs.h as words of 64 bits. The
-- firmware's table, the address of the task state segment and the current selectors are parameters.
use modern.Base.{
  ℕ, ◌+◌, ◌*◌, ◌/◌, ◌%◌, ◌^◌, ltb, leb, Option, none, some, ◌>>=◌, ◌==◌, if◌then◌else◌,
}

-- the fields of `SegmentDescriptor` that the kernel sets; the others stay 0
pub record SegmentDescriptor : Type 0 where
  pub wr : ℕ
  pub exec : ℕ
  pub reserved : ℕ
  pub dpl : ℕ
  pub present : ℕ
  pub long_mode : ℕ
  pub default_operand_size : ℕ

-- the bytes of the descriptor as one little-endian word
unfoldable pub segment_word : SegmentDescriptor → ℕ
segment_word d =
    2 ^ 41 * d.wr
    + 2 ^ 43 * d.exec
    + 2 ^ 44 * d.reserved
    + 2 ^ 45 * d.dpl
    + 2 ^ 47 * d.present
    + 2 ^ 53 * d.long_mode
    + 2 ^ 54 * d.default_operand_size

-- `SystemSegmentDescriptor`, less its bits that stay 0
pub record SystemSegmentDescriptor : Type 0 where
  pub segment_limit_lo16 : ℕ
  pub base_addr_lo16 : ℕ
  pub base_addr_mid8 : ℕ
  pub type : ℕ
  pub dpl : ℕ
  pub p : ℕ
  pub segment_limit_hi4 : ℕ
  pub base_addr_midhi8 : ℕ
  pub base_addr_hi32 : ℕ

unfoldable pub system_word_lo : SystemSegmentDescriptor → ℕ
system_word_lo d =
    d.segment_limit_lo16
    + 2 ^ 16 * d.base_addr_lo16
    + 2 ^ 32 * d.base_addr_mid8
    + 2 ^ 40 * d.type
    + 2 ^ 45 * d.dpl
    + 2 ^ 47 * d.p
    + 2 ^ 48 * d.segment_limit_hi4
    + 2 ^ 56 * d.base_addr_midhi8

unfoldable pub system_word_hi : SystemSegmentDescriptor → ℕ
system_word_hi d = d.base_addr_hi32

-- `kernel_gdt`, 128 words
abbrev pub Gdt : Type 0
Gdt = ℕ → ℕ

unfoldable pub set_word : Gdt → ℕ → ℕ → Gdt
set_word gdt i w j = if j == i then w else gdt j

-- `memcpy` of the `n` words of the firmware's table over 128 words of 0; `none` is a table that is
-- longer, whose words go behind `kernel_gdt`.
unfoldable pub copy_gdt : Gdt → ℕ → Option Gdt
copy_gdt firmware n = if leb n 128 then some (λ j. if ltb j n then firmware j else 0) else none

abbrev pub code_segment : ℕ → SegmentDescriptor
code_segment dpl = record {
  wr = 0;
  exec = 1;
  reserved = 1;
  dpl = dpl;
  present = 1;
  long_mode = 1;
  default_operand_size = 0;
}

abbrev pub data_segment : ℕ → SegmentDescriptor
data_segment dpl = record {
  wr = 1;
  exec = 0;
  reserved = 1;
  dpl = dpl;
  present = 1;
  long_mode = 0;
  default_operand_size = 0;
}

abbrev pub kernel_code_selector : ℕ
kernel_code_selector = 2 * 8

abbrev pub kernel_data_selector : ℕ
kernel_data_selector = 3 * 8

abbrev pub tss_selector : ℕ
tss_selector = 6 * 8

-- `TaskStateSegment` is packed: the bytes before `iomap`, and all of it
abbrev pub iomap_offset : ℕ
iomap_offset = 4 + 3 * 8 + 8 + 7 * 8 + 8 + 2 + 2

abbrev pub tss_size : ℕ
tss_size = iomap_offset + 8 * 1024

-- `DescriptorType::LongAvailableTSS`
abbrev pub long_available_tss : ℕ
long_available_tss = 0x9

unfoldable pub task_desc : ℕ → SystemSegmentDescriptor
task_desc tss_addr = record {
  segment_limit_lo16 = tss_size % 2 ^ 16;
  base_addr_lo16 = tss_addr % 2 ^ 16;
  base_addr_mid8 = tss_addr / 2 ^ 16 % 2 ^ 8;
  type = long_available_tss;
  dpl = 0;
  p = 1;
  segment_limit_hi4 = tss_size / 2 ^ 16 % 2 ^ 4;
  base_addr_midhi8 = tss_addr / 2 ^ 24 % 2 ^ 8;
  base_addr_hi32 = tss_addr / 2 ^ 32 % 2 ^ 32;
}

-- the table, the two fields of the task state segment that are set, and the registers
pub record Segments : Type 0 where
  pub gdt : Gdt
  pub rsp0 : ℕ
  pub iomap_base_addr : ℕ
  pub cs : ℕ
  pub ds : ℕ
  pub tr : ℕ

-- the four segments in the order of the source, each of the kernel's only if its register differs
unfoldable pub set_segments : ℕ → ℕ → Gdt → Gdt
set_segments cs ds gdt =
    let with_code =
      if cs == kernel_code_selector then gdt else set_word gdt 2 (segment_word (code_segment 0)) in
    let with_data =
      if ds == kernel_data_selector
      then with_code
      else set_word with_code 3 (segment_word (data_segment 0)) in
    set_word (set_word with_data 4 (segment_word (code_segment 3))) 5
      (segment_word (data_segment 3))

-- `ltr` of the descriptor with this word: the processor marks it as busy.
abbrev pub marked_busy : ℕ → ℕ
marked_busy w = if w / 2 ^ 41 % 2 == 0 then w + 2 ^ 41 else w

unfoldable pub gdt_init : Gdt → ℕ → ℕ → ℕ → ℕ → ℕ → Option Segments
unfolding copy_gdt
gdt_init firmware n cs ds tss_addr interrupt_stack_bottom = do
  copy ← copy_gdt firmware n
  let gdt = set_segments cs ds copy
  some (record {
    gdt =
        set_word (set_word gdt 6 (marked_busy (system_word_lo (task_desc tss_addr)))) 7
          (system_word_hi (task_desc tss_addr));
    rsp0 = interrupt_stack_bottom;
    iomap_base_addr = iomap_offset;
    cs = if cs == kernel_code_selector then cs else kernel_code_selector;
    ds = if ds == kernel_data_selector then ds else kernel_data_selector;
    tr = tss_selector;
  })
