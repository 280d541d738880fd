-- ===== src/Ahci/Wait.antt =====
-- device/ahci.cpp: the waits of `read` end as the device answers.
use modern.Base.{
  ℕ, zero, suc, ◌+◌, ◌<◌, ◌≡◌, lt→ltb, true, false, some, inl, inr, refl, arith, Bool-cases, ap,
  ◌∙◌,
}
use modern.Bits.{bit}
use modern.Mm.Walk.{identity_map_phy_end}
use modern.Ahci.Slots.{find_cmdslot}
use modern.Ahci.Command.{Command, read_command}
use modern.Ahci.Read.{PortReads, is_busy, is_mapped, issue, wait_ready, wait_done, read}

wait_ready_lem :
    (n : ℕ) (tfd : ℕ → ℕ) (spin k : ℕ)
    → k < n
    → is_busy (tfd (spin + k)) ≡ false
    → wait_ready n tfd spin ≡ true
unfolding wait_ready
wait_ready_lem zero tfd spin k lt idle = absurd (omega arith)
wait_ready_lem (suc n) tfd spin zero lt idle =
    let here : is_busy (tfd spin) ≡ false =
      ap (λ a. is_busy (tfd a)) {y = spin + 0} (omega arith) ∙ idle in
    rw here refl
wait_ready_lem (suc n) tfd spin (suc k) lt idle =
    let later =
      wait_ready_lem n tfd (spin + 1) k (omega arith)
        (ap (λ a. is_busy (tfd a)) {y = spin + suc k} (omega arith) ∙ idle) in
    elim (Bool-cases (is_busy (tfd spin))) [ inl busy ↦ rw busy later | inr here ↦ rw here refl ]

wait_done_lem :
    (fuel : ℕ) (port : PortReads) (slot i n : ℕ)
    → n < fuel
    → bit (port.ci_issued (i + n)) slot ≡ false
    → ((j : ℕ) → j < n → bit (port.is_issued (i + j)) 30 ≡ false)
    → bit port.is_last 30 ≡ false
    → wait_done fuel port slot i ≡ some true
unfolding wait_done
wait_done_lem zero port slot i n lt clear quiet last = absurd (omega arith)
wait_done_lem (suc fuel) port slot i zero lt clear quiet last =
    let here : bit (port.ci_issued i) slot ≡ false =
      ap (λ a. bit (port.ci_issued a) slot) {y = i + 0} (omega arith) ∙ clear in
    rw (here, last) refl
wait_done_lem (suc fuel) port slot i (suc n) lt clear quiet last =
    let quiet_here : bit (port.is_issued i) 30 ≡ false =
      ap (λ a. bit (port.is_issued a) 30) {y = i + 0} (omega arith) ∙ quiet 0 (omega arith) in
    let later =
      wait_done_lem fuel port slot (i + 1) n (omega arith)
        (ap (λ a. bit (port.ci_issued a) slot) {y = i + suc n} (omega arith) ∙ clear)
        (λ j h.
          ap (λ a. bit (port.is_issued a) 30) {y = i + suc j} (omega arith)
          ∙ quiet (suc j) (omega arith))
        last in
    elim (Bool-cases (bit (port.ci_issued i) slot)) [
      | inl busy ↦ rw (busy, quiet_here) later
      | inr here ↦ rw (here, last) refl
    ]

is_mapped_lem :
    (port : PortReads) (slot : ℕ)
    → port.cmdheader_phy < identity_map_phy_end
    → port.cmdtbl_phy slot < identity_map_phy_end
    → is_mapped port slot ≡ true
unfolding is_mapped
is_mapped_lem port slot list table = rw (lt→ltb _ _ list, lt→ltb _ _ table) refl

issue_lem :
    (slot : ℕ) (command : Command)
    → issue true true (some true) slot command ≡ some (true, some (slot, command))
unfolding issue
issue_lem slot command = refl

-- With a free slot, the list of commands and the slot's table in the identity mapping, a device that is ready at round `k` of the first million, that clears the slot's
-- bit at round `n`, and that reports no task file error until then and at the end, `read` returns
-- success and has issued its command in that slot.
pub read_lem :
    (fuel : ℕ) (port : PortReads) (startl starth count buf_phy_addr slot k n : ℕ)
    → find_cmdslot port.sact port.ci ≡ some slot
    → port.cmdheader_phy < identity_map_phy_end
    → port.cmdtbl_phy slot < identity_map_phy_end
    → k < 1000000
    → is_busy (port.tfd k) ≡ false
    → n < fuel
    → bit (port.ci_issued n) slot ≡ false
    → ((j : ℕ) → j < n → bit (port.is_issued j) 30 ≡ false)
    → bit port.is_last 30 ≡ false
    → read fuel port startl starth count buf_phy_addr
      ≡ some (true, some (slot, read_command startl starth count buf_phy_addr))
unfolding read
read_lem fuel port startl starth count buf slot k n free list table in_time idle enough clear quiet
      last =
    let ready =
      wait_ready_lem 1000000 port.tfd 0 k in_time
        (ap (λ a. is_busy (port.tfd a)) {y = k} (omega arith) ∙ idle) in
    let done =
      wait_done_lem fuel port slot 0 n enough
        (ap (λ a. bit (port.ci_issued a) slot) {y = n} (omega arith) ∙ clear)
        (λ j h. ap (λ a. bit (port.is_issued a) 30) {y = j} (omega arith) ∙ quiet j h) last in
    let mapped = is_mapped_lem port slot list table in
    let command = read_command startl starth count buf in
    rw (free, read)
      (ap (λ m. issue m (wait_ready 1000000 port.tfd 0) (wait_done fuel port slot 0) slot command)
          mapped
        ∙ ap (λ r. issue true r (wait_done fuel port slot 0) slot command) ready
        ∙ ap (λ d. issue true true d slot command) done
        ∙ issue_lem slot command)
