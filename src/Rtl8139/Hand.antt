-- ===== src/Rtl8139/Hand.antt =====
-- The packet in the sending thread's hand, and lists of packets put together.
use modern.Base.{
  ℕ, ◌+◌, ◌*◌, ◌≤◌, ◌≡◌, Bool, true, false, List, [], ◌∷◌, ◌++◌, map, if◌then◌else◌, refl, ap, ◌∙◌,
}
use mathlib.Core.List.{append_assoc, map-append}
use modern.Rtl8139.Sender.{KEthernetPacket, Place, idle, waiting, sending, acking, acked}

-- the packet that the thread has taken off the queue and not yet handed to the card
abbrev pub in_hand : Place → KEthernetPacket → List KEthernetPacket
in_hand idle p = []
in_hand waiting p = p ∷ []
in_hand sending p = p ∷ []
in_hand acking p = []
in_hand acked p = []

abbrev pub packet_of : KEthernetPacket × Bool → KEthernetPacket
packet_of r = r.0

snoc_in {ℓ} : {A : Type ℓ} (l h c xs : List A) → l ++ (h ++ (c ++ xs)) ≡ (l ++ (h ++ c)) ++ xs
snoc_in l h c xs = simp append_assoc

-- how the thread's places hold the packet
pub hand_polled :
    (b : Bool) (p : KEthernetPacket) → in_hand (if b then sending else waiting) p ≡ p ∷ []
hand_polled true p = refl
hand_polled false p = refl

pub hand_taken :
    (b : Bool) (p : KEthernetPacket)
    → in_hand (if b then waiting else idle) p ≡ (if b then p ∷ [] else [])
hand_taken true p = refl
hand_taken false p = refl

pub hand_sent : (b : Bool) (p : KEthernetPacket) → in_hand (if b then acking else idle) p ≡ []
hand_sent true p = refl
hand_sent false p = refl

pub hand_acked : (b : Bool) (p : KEthernetPacket) → in_hand (if b then acked else acking) p ≡ []
hand_acked true p = refl
hand_acked false p = refl

pub cons_if {ℓ} :
    {A : Type ℓ} (b : Bool) (x : A) (xs : List A)
    → (if b then x ∷ [] else []) ++ xs ≡ (if b then x ∷ xs else xs)
cons_if true x xs = refl
cons_if false x xs = refl

pub sent_order :
    (fin : List (KEthernetPacket × Bool)) (p : KEthernetPacket) (ok : Bool)
    (c : List KEthernetPacket)
    → map packet_of (fin ++ ((p, ok) ∷ [])) ++ c ≡ map packet_of fin ++ (p ∷ c)
sent_order fin p ok c = simp (map-append, append_assoc)

pub accepted_if :
    (b : Bool) (l h c acc : List KEthernetPacket) (x : KEthernetPacket)
    → l ++ (h ++ c) ≡ acc
    → l ++ (h ++ (if b then c ++ (x ∷ []) else c)) ≡ (if b then acc ++ (x ∷ []) else acc)
accepted_if true l h c acc x e = snoc_in l h c (x ∷ []) ∙ ap (λ ys. ys ++ (x ∷ [])) e
accepted_if false l h c acc x e = e

-- no packet so short that the store behind its frame's end is less than `end` bytes behind `tx_buffer`
abbrev pub AllLong : ℕ → List KEthernetPacket → Type 0
AllLong end [] = Unit
AllLong end (p ∷ ps) = (end ≤ 8 * (14 + p.size)) × AllLong end ps

long_snoc :
    (end : ℕ) (ps : List KEthernetPacket) (p : KEthernetPacket)
    → AllLong end ps
    → end ≤ 8 * (14 + p.size)
    → AllLong end (ps ++ (p ∷ []))
long_snoc end [] p all one = (one, tt)
long_snoc end (x ∷ ps) p all one = (all.0, long_snoc end ps p all.1 one)

pub long_if :
    (end : ℕ) (b : Bool) (ps : List KEthernetPacket) (p : KEthernetPacket)
    → AllLong end ps
    → end ≤ 8 * (14 + p.size)
    → AllLong end (if b then ps ++ (p ∷ []) else ps)
long_if end true ps p all one = long_snoc end ps p all one
long_if end false ps p all one = all

pub long_middle :
    (end : ℕ) (before : List KEthernetPacket) (p : KEthernetPacket) (after : List KEthernetPacket)
    → AllLong end (before ++ (p ∷ after))
    → end ≤ 8 * (14 + p.size)
long_middle end [] p after all = all.0
long_middle end (x ∷ before) p after all = long_middle end before p after all.1
