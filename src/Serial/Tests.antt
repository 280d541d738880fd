-- ===== src/Serial/Tests.antt =====
-- Printing at small inputs.
use modern.Base.{◌≡◌, some, [], ◌∷◌, refl}
use modern.Serial.{dec, radix_of, print_u64, put_number, store_digits, put_back, set_temp, alphabet}

print_u64-2026 : print_u64 dec 2026 ≡ some (0x32 ∷ 0x30 ∷ 0x32 ∷ 0x36 ∷ [])
unfolding print_u64 put_number store_digits put_back set_temp alphabet radix_of
print_u64-2026 = refl
