-- ===== src/Uds/Security.antt =====
-- transport/uds/security.py: the key that answers a seed.
use virtual_automotive_ota_d.Prelude.{
  ℕ, zero, suc, ◌+◌, ◌-◌, ◌/◌, [], ◌∷◌, ◌++◌, bit_xor, take, length, Bytes, Result, ok, err,
  runtime_error, value_error,
}

abbrev pub demo_security_xor_key : Bytes
demo_security_xor_key = 0xA5 ∷ 0x5A ∷ 0x3C ∷ 0xC3 ∷ []

-- key * n
unfoldable pub repeat : ℕ → Bytes → Bytes
repeat zero key = []
repeat (suc n) key = key ++ repeat n key

-- bytes(a ^ b for a, b in zip(xs, ys))
unfoldable pub xor_bytes : Bytes → Bytes → Bytes
xor_bytes [] ys = []
xor_bytes (x ∷ xs) [] = []
xor_bytes (x ∷ xs) (y ∷ ys) = bit_xor x y ∷ xor_bytes xs ys

-- (key * ((len(seed) + len(key) - 1) // len(key)))[: len(seed)], for a key that is not empty
unfoldable pub stretch : Bytes → ℕ → Bytes
unfolding repeat
stretch key n = take n (repeat ((n + length key - 1) / length key) key)

unfoldable pub derive_demo_security_key : Bytes → Bytes
unfolding stretch xor_bytes
derive_demo_security_key [] = []
derive_demo_security_key (b ∷ bs) =
    xor_bytes (b ∷ bs) (stretch demo_security_xor_key (length (b ∷ bs)))

-- OTA_SECURITY_STATIC_KEY_HEX: unset or blank, not hexadecimal, or the bytes that it spells.
pub data StaticKey : Type 0 where
  unset not_hex : StaticKey
  spelled : Bytes → StaticKey

-- OTA_SECURITY_MODE: static, or anything else.
pub data SecurityMode : Type 0 where
  static_key : StaticKey → SecurityMode
  demo_xor : SecurityMode

unfoldable pub derive_security_key : SecurityMode → Bytes → Result Bytes
unfolding derive_demo_security_key
derive_security_key (static_key unset) seed =
    err (runtime_error "OTA_SECURITY_STATIC_KEY_HEX must be set when OTA_SECURITY_MODE=static")
derive_security_key (static_key not_hex) seed =
    err (value_error "non-hexadecimal number found in fromhex() arg")
derive_security_key (static_key (spelled [])) seed =
    err (runtime_error "OTA_SECURITY_STATIC_KEY_HEX must not be empty")
derive_security_key (static_key (spelled (k ∷ ks))) seed = ok (stretch (k ∷ ks) (length seed))
derive_security_key demo_xor seed = ok (derive_demo_security_key seed)
