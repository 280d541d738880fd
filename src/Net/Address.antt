-- ===== src/Net/Address.antt =====
-- `EthernetAddress` of include/net/ethernet.hpp and `IPv4Address` of include/net/ipv4.hpp, as the
-- lists of their bytes.
use modern.Base.{
  ℕ, zero, suc, ◌+◌, ◌*◌, ◌^◌, ◌≡◌, ◌⊎◌, inl, inr, Bool, true, false, not, List, [], ◌∷◌, ltb, leb,
  ◌==◌, ◌&&◌, if◌then◌else◌, get_or, replicate, sym, arith,
}
use modern.Endian.{be32}
use modern.Memory.{memcmp}
use modern.Memory.Compare.{Agree, Less, memcmp_lem}

abbrev pub EthernetAddress : Type 0
EthernetAddress = List ℕ

abbrev pub byte : List ℕ → ℕ → ℕ
byte xs i = get_or xs i 0

-- `memcmp(…) < 0` on the bit pattern of an `int`
unfoldable pub eth_lt : EthernetAddress → EthernetAddress → Bool
eth_lt a b = leb (2 ^ 31) (memcmp (byte a) (byte b) 6)

unfoldable pub eth_eq : EthernetAddress → EthernetAddress → Bool
eth_eq a b = memcmp (byte a) (byte b) 6 == 0

-- `operator<=>`: the `int` of `memcmp`
unfoldable pub eth_compare : EthernetAddress → EthernetAddress → ℕ
eth_compare a b = memcmp (byte a) (byte b) 6

unfoldable pub eth_ne : EthernetAddress → EthernetAddress → Bool
unfolding eth_eq
eth_ne a b = not (eth_eq a b)

unfoldable pub is_broadcast : EthernetAddress → Bool
is_broadcast [] = true
is_broadcast (v ∷ vs) = if not (v == 0xff) then false else is_broadcast vs

abbrev pub broadcast : EthernetAddress
broadcast = replicate 6 0xff

abbrev pub Ipv4Address : Type 0
Ipv4Address = List ℕ

-- `*(u32*)b` is read on a little-endian machine.
unfoldable pub to_u32 : Ipv4Address → ℕ
to_u32 b = be32 (byte b 0 + byte b 1 * 2 ^ 8 + byte b 2 * 2 ^ 16 + byte b 3 * 2 ^ 24)

-- `operator<`: both sides are the left operand.
unfoldable pub ip_lt : Ipv4Address → Ipv4Address → Bool
ip_lt a b = ltb (to_u32 a) (to_u32 a)

-- The addresses are the same, byte by byte.
abbrev pub SameEth : EthernetAddress → EthernetAddress → Type 0
SameEth a b = Agree (byte a) (byte b) 0 6

-- Two addresses that are no less than one another, in the sense of the map
abbrev pub equivalent {ℓ} : {K : Type ℓ} → (K → K → Bool) → K → K → Bool
equivalent lt a b = not (lt a b) && not (lt b a)

Less-not-Agree : (f g : ℕ → ℕ) (i n : ℕ) → Less f g i n → Agree f g i n → ⊥
Less-not-Agree f g i zero l a = l
Less-not-Agree f g i (suc n) (inl l) a = omega (arith, a.0)
Less-not-Agree f g i (suc n) (inr l) a = Less-not-Agree f g (i + 1) n l.1 a.1

Less-not-Less : (f g : ℕ → ℕ) (i n : ℕ) → Less f g i n → Less g f i n → ⊥
Less-not-Less f g i zero l m = l
Less-not-Less f g i (suc n) (inl l) (inl m) = omega arith
Less-not-Less f g i (suc n) (inl l) (inr m) = omega (arith, m.0)
Less-not-Less f g i (suc n) (inr l) (inl m) = omega (arith, l.0)
Less-not-Less f g i (suc n) (inr l) (inr m) = Less-not-Less f g (i + 1) n l.1 m.1

Agree-sym : (f g : ℕ → ℕ) (i n : ℕ) → Agree f g i n → Agree g f i n
Agree-sym f g i zero a = tt
Agree-sym f g i (suc n) a = (sym a.0, Agree-sym f g (i + 1) n a.1)

-- `operator==` holds exactly for addresses with the same bytes.
pub eth_eq_lem :
    (a b : EthernetAddress)
    → (eth_eq a b ≡ true) × SameEth a b ⊎ (eth_eq a b ≡ false) × (SameEth a b → ⊥)
unfolding eth_eq
eth_eq_lem a b = elim (memcmp_lem (byte a) (byte b) 6) [
  | inl (e, same) ↦ inl (ground arith, same)
  | inr (inl (e, less)) ↦ inr (ground arith, Less-not-Agree (byte a) (byte b) 0 6 less)
  | inr (inr (e, less)) ↦ inr (
    ground arith,
    λ same. Less-not-Agree (byte b) (byte a) 0 6 less (Agree-sym (byte a) (byte b) 0 6 same),
  )
]

-- In the order of `operator<` exactly the addresses with the same bytes are equivalent: it keeps
-- distinct addresses apart.
pub equivalent_eth : (a b : EthernetAddress) → equivalent eth_lt a b ≡ eth_eq a b
unfolding eth_lt eth_eq
equivalent_eth a b = elim (memcmp_lem (byte a) (byte b) 6) [
  | inl (e, same) ↦ elim (memcmp_lem (byte b) (byte a) 6) [
    | inl (e', same') ↦ ground arith
    | inr (inl (e', less')) ↦
        absurd (Less-not-Agree (byte b) (byte a) 0 6 less' (Agree-sym (byte a) (byte b) 0 6 same))
    | inr (inr (e', less')) ↦ absurd (Less-not-Agree (byte a) (byte b) 0 6 less' same)
  ]
  | inr (inl (e, less)) ↦ ground arith
  | inr (inr (e, less)) ↦ elim (memcmp_lem (byte b) (byte a) 6) [
    | inl (e', same') ↦ absurd (Less-not-Agree (byte b) (byte a) 0 6 less same')
    | inr (inl (e', less')) ↦ ground arith
    | inr (inr (e', less')) ↦ absurd (Less-not-Less (byte b) (byte a) 0 6 less less')
  ]
]

-- The order of `IPv4Address` is empty: any two addresses are equivalent.
pub equivalent_ip : (a b : Ipv4Address) → equivalent ip_lt a b ≡ true
unfolding ip_lt
equivalent_ip a b = ground arith
