-- ===== src/Irq/Tests.antt =====
-- The interrupts at small inputs.
use modern.Base.{ℕ, ◌+◌, ◌≡◌, some, List, [], ◌∷◌, ◌++◌, arith}
use modern.SmallVec.{SmallVec}
use modern.Irq.Gates.{EntryPoints, setup_idt}
use modern.Irq.Vectors.{IsGate, setup_idt-IsGate}
use modern.Irq.Handlers.{
  IrqHandlerInfo, register_range, handle_interrupt, handle_interrupt-register_range,
}

abbrev entries : EntryPoints
entries = record {
  default_handler = 0xffff_8000_0001_0000;
  entry = λ nr. 0xffff_8000_0002_0000 + nr;
}

-- the gate of the system calls
setup_idt-IsGate_example : IsGate (setup_idt entries 16 42) 16 0xffff_8000_0002_002a 3
setup_idt-IsGate_example = setup_idt-IsGate entries 16 42 (omega arith)

abbrev no_handlers : ℕ → SmallVec ℕ
no_handlers i = record { buf = λ j. 0; len = 0 }

abbrev info : IrqHandlerInfo
info = record { irq_num = 0x42; error_code = 0; pid = 1 }

-- what the handlers leave: a log of who ran
abbrev log : ℕ → IrqHandlerInfo → List ℕ → List ℕ
log h i s = s ++ (h ∷ [])

handle_interrupt-register_range_example :
    (after : ℕ → SmallVec ℕ) × (register_range no_handlers 0x40 0 16 7 ≡ some after)
    × (handle_interrupt log after info [] ≡ some (7 ∷ []))
handle_interrupt-register_range_example =
    handle_interrupt-register_range log no_handlers 0x40 16 7 info [] (omega arith)
      (λ j lo hi. omega arith) (omega arith) (omega arith)
