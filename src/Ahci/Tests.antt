-- ===== src/Ahci/Tests.antt =====
-- The AHCI reads at small inputs.
use modern.Base.{ℕ, ◌+◌, ◌*◌, ◌%◌, ◌≡◌, true, some, inl, refl, arith, length}
use modern.Memory.{Memory}
use modern.Pages.{kmalloc, kernel_start, kernel_page_alloc}
use modern.Utils.{log2_ceil}
use modern.Process.Samples.{bump}
use modern.Bits.{bit_or}
use modern.Ahci.Slots.{find_free, find_cmdslot}
use modern.Ahci.Command.{read_command, Covers, read_command-Covers}
use modern.Ahci.Read.{PortReads, read, device_read, answer_for, device_read_lem}
use modern.Ahci.Samples.{copying, copying-Reads}
use modern.Ahci.Wait.{read_lem}

-- slots 0, 1 and 2 are taken
find_cmdslot-taken : find_cmdslot 5 2 ≡ some 3
unfolding find_cmdslot bit_or find_free
find_cmdslot-taken = refl

read_command-Covers_example :
    Covers 0x500_0000 (40 * 512) (read_command 1 0 40 0x500_0000).prdt_entry
    × (length (read_command 1 0 40 0x500_0000).prdt_entry ≡ (read_command 1 0 40 0x500_0000).prdtl)
read_command-Covers_example =
    read_command-Covers 1 0 40 0x500_0000 (omega arith) (omega arith) (omega arith)

abbrev quiet_port : PortReads
quiet_port = record {
  cmdheader_phy = 0x50_0000;
  cmdtbl_phy = λ slot. 0x50_1000 + 256 * slot;
  sact = 5;
  ci = 2;
  tfd = λ i. 0;
  ci_issued = λ i. 0;
  is_issued = λ i. 0;
  is_last = 0;
}

read_lem_example :
    read 1 quiet_port 1 0 2 0x500_0000 ≡ some (true, some (3, read_command 1 0 2 0x500_0000))
read_lem_example =
    read_lem 1 quiet_port 1 0 2 0x500_0000 3 0 0 find_cmdslot-taken (omega arith) (omega arith)
      (omega arith) refl (omega arith) refl (λ j h. refl) refl

abbrev disk : ℕ → ℕ
disk a = a % 256

bump-kmalloc : kmalloc bump 1000 0x500_0000 ≡ some (kernel_start + 0x500_0000, 0x501_0000)
unfolding kmalloc kernel_page_alloc log2_ceil
bump-kmalloc = refl

device_read_lem_example :
    (mem' : Memory) × (device_read bump (copying disk) 0x1000 700 1000 (λ a. 0) 0x500_0000
      ≡ some (
        answer_for (copying disk) 700 1000 (kernel_start + 0x500_0000) (λ a. 0),
        mem',
        0x501_0000,
      ))
    × (answer_for (copying disk) 700 1000 (kernel_start + 0x500_0000) (λ a. 0) ≡ true
        → mem' 0x1005 ≡ disk 705)
device_read_lem_example =
    device_read_lem bump (copying disk) disk 0x1000 700 1000 (kernel_start + 0x500_0000) 5 (λ a. 0)
      0x500_0000 0x501_0000 (copying-Reads disk) bump-kmalloc (omega arith) (omega arith)
      (omega arith) (omega arith) (inl (omega arith)) (omega arith)
