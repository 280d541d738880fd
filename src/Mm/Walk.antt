-- ===== src/Mm/Walk.antt =====
-- mm/mm.cpp: what an address of the kernel's half is mapped to under the page table that
-- `setup_page_table_in_kernel_space` builds. The walk is the processor's: four levels of 512
-- entries, an entry that is not present ends it.
use modern.Base.{
  ℕ, ◌+◌, ◌-◌, ◌*◌, ◌/◌, ◌%◌, ◌^◌, ◌<◌, ◌≤◌, ◌≡◌, ◌&&◌, arith, ltb, leb, ◌==◌, Bool, if◌then◌else◌,
  Option, some, none, ◌>>=◌, ap,
}
use modern.Base.Bytes.{add64}
use modern.Pages.{kernel_start}
use modern.Mm.Image.{
  Entry, Table, KernelImagePageTable, set_frame, phy_frame, setup_page_table_in_kernel_space,
  new_cr3, kernel_space_pages, kernel_image_pages,
}

unfoldable pub is_kernel : ℕ → Bool
is_kernel vaddr = leb kernel_start vaddr

abbrev pub identity_map_phy_end : ℕ
identity_map_phy_end = kernel_space_pages * 4096

-- The assertion's failure is `none`.
unfoldable pub phy2virt : ℕ → Option ℕ
phy2virt phy = if ltb phy identity_map_phy_end then some (add64 phy kernel_start) else none

-- physical memory as page tables: the entries of each frame
abbrev pub Frames : Type 0
Frames = ℕ → Table

-- the bytes of `t` from frame `b` on, where `mem` is everything else
unfoldable pub place : KernelImagePageTable → ℕ → Frames → Frames
place t b mem f i =
    if f == b
    then t.pml4t i
    else if f == b + 1
    then t.pdpt i
    else if leb (b + 2) f && ltb f (b + 6)
    then t.pdt (512 * (f - (b + 2)) + i)
    else if leb (b + 6) f && ltb f (b + 2054)
    then t.pt (512 * (f - (b + 6)) + i)
    else mem f i

unfoldable pub next : Entry → Option ℕ
next e = if e.p then some e.base_addr else none

unfoldable pub walk : Frames → ℕ → ℕ → Option ℕ
unfolding next
walk mem root v = do
  l3 ← next (mem root (v / 2 ^ 39 % 512))
  l2 ← next (mem l3 (v / 2 ^ 30 % 512))
  l1 ← next (mem l2 (v / 2 ^ 21 % 512))
  frame ← next (mem l1 (v / 2 ^ 12 % 512))
  some (frame * 2 ^ 12 + v % 2 ^ 12)

pub next-phy_frame :
    (q s off k : ℕ) (e : Entry)
    → off ≡ 4096 * k
    → s + q + k < 2 ^ 40
    → next (set_frame (phy_frame (4096 * s) (kernel_start + 4096 * q + off)) e) ≡ some (s + q + k)
unfolding next set_frame
next-phy_frame q s off k e at_k below = ap some (omega arith)

-- which frame the entry `i` of `pt` names when the image is at frame `s`
abbrev pub image_frame : ℕ → ℕ → ℕ
image_frame s i = if ltb i kernel_image_pages then s + i else i

-- the indices of an address of the first 512 GiB of the kernel's half
pub kernel_indices :
    (v : ℕ)
    → v < 2 ^ 39
    → ((kernel_start + v) / 2 ^ 39 % 512 ≡ 256)
      × ((kernel_start + v) / 2 ^ 30 % 512 ≡ v / 2 ^ 30)
      × ((kernel_start + v) / 2 ^ 21 % 512 ≡ v / 2 ^ 21 % 512)
      × ((kernel_start + v) / 2 ^ 12 % 512 ≡ v / 2 ^ 12 % 512)
      × ((kernel_start + v) % 2 ^ 12 ≡ v % 2 ^ 12)
kernel_indices v below = (omega arith, omega arith, omega arith, omega arith, omega arith)

pub above_lem : (v s q : ℕ) → 2 ^ 32 ≤ v → s + q + (2 + v / 2 ^ 30) ≡ s + q + (6 + (v / 2 ^ 30 - 4))
above_lem v s q above = omega arith

pub pt_index_lem :
    (v : ℕ) → 2 ^ 32 ≤ v → 512 * (v / 2 ^ 30 - 4) + v / 2 ^ 21 % 512 ≡ v / 2 ^ 21 - 2048
pt_index_lem v above = omega arith

-- the page table of an image at frame `s` whose page `q` is where `t` begins
abbrev pub built : ℕ → ℕ → KernelImagePageTable
built q s = setup_page_table_in_kernel_space (kernel_start + 4096 * q) (4096 * s)

-- the frame that cr3 names
abbrev pub root_of : ℕ → ℕ → ℕ
root_of q s = new_cr3 (kernel_start + 4096 * q) (4096 * s) / 2 ^ 12
