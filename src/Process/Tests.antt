-- ===== src/Process/Tests.antt =====
-- The scheduler and the page tables at the samples.
use modern.Base.{◌%◌, true, ℕ, ◌≡◌, ◌<◌, refl, some, arith}
use mathlib.Core.Option
use modern.Buddy.Defs.{Buddy, fresh_block, new_buddy}
use modern.Buddy.Init.{new_buddy_lem, only_root}
use modern.Buddy.Source.{IsReady}
use modern.Process.Defs.{Process, running}
use modern.Process.Table.{ProcessTable, schedule, schedule_loop, next_slot, is_ready, built_process}
use modern.Process.RoundRobin.{IsTable, schedule_lem}
use modern.Process.Fairness.{schedule_fair, Reaches}
use modern.Process.Elf.{Ehdr, Phdr}
use modern.Process.Samples.{bump, layout, registers, two_processes, two_processes-IsTable}

schedule_lem_example :
    (t' : ProcessTable) × (schedule two_processes ≡ some t')
    × (t'.current_pid ≡ 1)
    × (t'.next_pid ≡ 3)
    × IsTable t'
    × ((p : Process) × (t'.processes t'.current_pid ≡ some p) × (p.state ≡ running))
schedule_lem_example = schedule_lem two_processes-IsTable

schedule_fair_example : (n : ℕ) × (0 < n) × (n < 3) × Reaches n two_processes 2
schedule_fair_example = schedule_fair 2 two_processes-IsTable (omega arith) (omega arith)

-- 1 GiB at 64 MiB
abbrev boot : Buddy
boot = new_buddy 0x400_0000 30 (λ i. fresh_block) 65536

boot-IsReady : IsReady boot
boot-IsReady =
    let (t, v) = new_buddy_lem 0x400_0000 30 (λ i. fresh_block) (omega arith) (omega arith) in
    (t, (only_root 30, v))

abbrev third : Process
third = built_process bump layout (registers 0 0 0 0) 3 0 0 0x40_0000 0x80_0000 0x100_0000

-- one call from the second process to the first
schedule-two_processes : Option.map (λ t. t.current_pid) (schedule two_processes) ≡ some 1
unfolding schedule schedule_loop next_slot is_ready
schedule-two_processes = refl

abbrev file_memory : ℕ → ℕ
file_memory a = a % 256

-- a file behind the image, with one segment at its start
abbrev one_segment : ℕ → Phdr
one_segment j = record {
  p_type = 1;
  p_offset = 0x1000;
  p_vaddr = 0x10_0000;
  p_filesz = 4;
  p_memsz = 8;
}

abbrev header : Ehdr
header = record { magic = true; e_phoff = 64; e_phnum = 1; e_entry = 0x10_0000 }
