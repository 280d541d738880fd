-- ===== src/Rtl8139/Irq.antt =====
-- device/rtl8139.cpp: the interrupt routine over the status register.
use modern.Base.{
  ℕ, Bool, true, false, Option, some, ◌>>=◌, List, [], ◌∷◌, ◌++◌, ◌==◌, if◌then◌else◌,
}
use modern.Memory.{Memory}
use modern.Bits.{bit}
use modern.Rtl8139.Rx.{Receiver, Received, handle_rx}
use modern.Rtl8139.Tx.{Transmitter, handle_tx}

-- what the routine works on, what `handle_rx` made of each packet, and what was written to `isr`
pub record Nic : Type 0 where
  pub receiver : Receiver
  pub transmitter : Transmitter
  pub received : List Received
  pub acks : List ℕ

abbrev pub ack : ℕ → Nic → Nic
ack v n = record n { acks = n.acks ++ (v ∷ []) }

unfoldable pub receive : Memory → Nic → Option Nic
unfolding handle_rx
receive rx_buffer n = do
  (r, receiver) ← handle_rx rx_buffer n.receiver
  some (record n { receiver = receiver; received = n.received ++ (r ∷ []) })

-- `if (regs->isr & bit) { handle_rx(); regs->isr = v; }`
unfoldable pub on_rx : Bool → ℕ → Memory → Nic → Option Nic
unfolding receive
on_rx true v rx_buffer n = do n' ← receive rx_buffer n; some (ack v n')
on_rx false v rx_buffer n = some n

-- `irq`: whether the interrupt was the card's. The register is read anew for every test, `isr k` is
-- what read number `k` gives; the tests that only print are left out. `none` as in `handle_rx`.
unfoldable pub irq : Memory → (ℕ → ℕ) → Nic → Option (Bool × Nic)
unfolding on_rx
irq rx_buffer isr n = if isr 0 == 0 then some (false, n) else (do
  n1 ← on_rx (bit (isr 1) 0) 0x1 rx_buffer n
  let n2 = if bit (isr 2) 1 then ack 0x2 n1 else n1
  let n3 =
      if bit (isr 3) 2 then ack 0x4 (record n2 { transmitter = handle_tx n2.transmitter }) else n2
  let n4 = if bit (isr 4) 3 then ack 0x8 n3 else n3
  n5 ← on_rx (bit (isr 5) 4) 0x10 rx_buffer n4
  some (true, ack 0x51 n5))
