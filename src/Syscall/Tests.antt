-- ===== src/Syscall/Tests.antt =====
-- The system calls at one process.
use modern.Base.{ℕ, ◌≡◌, ◌≤◌, ◌↔◌, ◌⊎◌, refl, none}
use modern.Process.Defs.{Process}
use modern.Process.Table.{zero_table}
use modern.Process.Samples.{bump, bump_answers, registers, process_of}
use modern.Syscall.Calls.{
  Effect, handle_syscall, syscall_table, set_rax, sys_write, sign_extend, just_returns,
}
use modern.Syscall.Dispatch.{handle_syscall_panics, handle_syscall_frame}

abbrev memory : ℕ → ℕ
memory a = 65

-- `write(1, 0x2000, 3)`
abbrev writer : Process
writer = process_of 1 (registers 2 1 0x2000 3)

handle_syscall_panics_example :
    (handle_syscall bump writer memory 0 ≡ none) ↔ ((◌≡◌ {A = ℕ} 2 0) ⊎ (8 ≤ 2))
handle_syscall_panics_example = handle_syscall_panics bump_answers writer memory 0 tt

yielder : Process
yielder = process_of 1 (registers 6 0 0 0)

abbrev written : Effect
written = set_rax bump (just_returns 3 writer)

handle_syscall_frame_example :
    (written.process.context ≡ record (writer.context) { rax = sign_extend 3 })
    × (written.process.id ≡ 1)
    × (written.process.state ≡ writer.state)
    × (written.process.pml4t ≡ zero_table)
    × (written.process.pdpt ≡ writer.pdpt)
    × (written.process.pdt ≡ writer.pdt)
    × (written.process.pt ≡ writer.pt)
unfolding handle_syscall syscall_table sys_write
handle_syscall_frame_example = handle_syscall_frame bump writer memory 0 written 0 refl refl

-- `anon_allocate(0x3000, 0x2000)`
abbrev grower : Process
grower = process_of 1 (registers 7 0x3000 0x2000 0)
