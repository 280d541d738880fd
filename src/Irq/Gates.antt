-- ===== src/Irq/Gates.antt =====
-- irq.cpp: `set_idt_offset` and `setup_idt`, the table that the processor looks handlers up in.
use modern.Base.{ℕ, ◌/◌, ◌%◌, ◌^◌, Bool, true, false, List, [], ◌∷◌, ◌++◌, ◌==◌, if◌then◌else◌}

-- `InterruptDescriptor` of include/cpu_defs.h: the fields that are set; `memset` clears the others.
pub record InterruptDescriptor : Type 0 where
  pub offset_lo16 : ℕ
  pub offset_mid16 : ℕ
  pub offset_hi32 : ℕ
  pub selector : ℕ
  pub type : ℕ
  pub dpl : ℕ
  pub p : ℕ

abbrev pub zero_gate : InterruptDescriptor
zero_gate = record {
  offset_lo16 = 0;
  offset_mid16 = 0;
  offset_hi32 = 0;
  selector = 0;
  type = 0;
  dpl = 0;
  p = 0;
}

-- `DescriptorType::LongInterruptGate`
abbrev pub long_interrupt_gate : ℕ
long_interrupt_gate = 0xe

unfoldable pub set_idt_offset : InterruptDescriptor → ℕ → Bool → InterruptDescriptor
set_idt_offset desc ptr user_mode = record desc {
  offset_lo16 = ptr % 2 ^ 16;
  offset_mid16 = ptr / 2 ^ 16 % 2 ^ 16;
  offset_hi32 = ptr / 2 ^ 32 % 2 ^ 32;
  dpl = if user_mode then 3 else 0;
}

-- The assembly's entry points, by the number in their names: `_50h_irq_handler` is 0x50. The linker
-- places them.
pub record EntryPoints : Type 0 where
  pub default_handler : ℕ
  pub entry : ℕ → ℕ

-- One line of `setup_idt`: the gate, the entry point by its number, and whether user code may call it.
abbrev pub Line : Type 0
Line = ℕ × ℕ × Bool

-- the lines of `setup_idt` in their order
abbrev pub exception_lines : List Line
exception_lines =
    (0, 0, false)
    ∷ (1, 1, false)
    ∷ (2, 2, false)
    ∷ (3, 3, true)
    ∷ (4, 4, false)
    ∷ (5, 5, false)
    ∷ (6, 6, false)
    ∷ (7, 7, false)
    ∷ (8, 8, false)
    ∷ (10, 10, false)
    ∷ (11, 11, false)
    ∷ (12, 12, false)
    ∷ (13, 13, false)
    ∷ (14, 14, false)
    ∷ (32, 32, false)
    ∷ (37, 37, false)
    ∷ (42, 42, true)
    ∷ []

abbrev pub device_lines : List Line
device_lines =
    (0x40, 0x40, false)
    ∷ (0x41, 0x41, false)
    ∷ (0x42, 0x42, false)
    ∷ (0x43, 0x43, false)
    ∷ (0x44, 0x44, false)
    ∷ (0x45, 0x45, false)
    ∷ (0x46, 0x46, false)
    ∷ (0x47, 0x47, false)
    ∷ (0x48, 0x48, false)
    ∷ (0x49, 0x49, false)
    ∷ (0x4a, 0x4a, false)
    ∷ (0x4b, 0x4b, false)
    ∷ (0x4c, 0x4c, false)
    ∷ (0x4d, 0x4d, false)
    ∷ (0x4e, 0x4e, false)
    ∷ (0x4f, 0x4f, false)
    ∷ (0x50, 0x50, false)
    ∷ (0x50, 0x51, false)
    ∷ (0x51, 0x52, false)
    ∷ (0x52, 0x53, false)
    ∷ (0x53, 0x54, false)
    ∷ (0x54, 0x55, false)
    ∷ (0x56, 0x56, false)
    ∷ (0x57, 0x57, false)
    ∷ []

abbrev pub set_gate : (ℕ → InterruptDescriptor) → ℕ → InterruptDescriptor → ℕ → InterruptDescriptor
set_gate idt i gate j = if j == i then gate else idt j

unfoldable pub set_lines :
    EntryPoints → List Line → (ℕ → InterruptDescriptor) → ℕ → InterruptDescriptor
unfolding set_idt_offset
set_lines entries [] idt = idt
set_lines entries ((i, nr, user) ∷ lines) idt =
    set_lines entries lines (set_gate idt i (set_idt_offset (idt i) (entries.entry nr) user))

-- what the loop over the 256 gates leaves in each
unfoldable pub default_gate : EntryPoints → ℕ → InterruptDescriptor
unfolding set_idt_offset
default_gate entries selector =
    let gate = set_idt_offset zero_gate entries.default_handler false in
    record gate { selector = selector; type = long_interrupt_gate; dpl = 0; p = 1 }

unfoldable pub setup_idt : EntryPoints → ℕ → ℕ → InterruptDescriptor
unfolding set_lines default_gate
setup_idt entries selector =
    set_lines entries (exception_lines ++ device_lines) (λ i. default_gate entries selector)
