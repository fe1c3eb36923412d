-- ===== src/Pool/Wire.antt =====
-- qndb/interface/connection_pool.py: `encode_message` and `decode_header`. Bytes are numbers below 256.
use quantum_database.Prelude.{
  ℕ, ◌+◌, ◌*◌, ◌/◌, ◌%◌, ◌<◌, ◌≡◌, refl, ap, true, ◌&&◌, List, [], ◌∷◌, ◌++◌, length, Option, none,
  some, if◌then◌else◌, ltb, arith,
}

abbrev Bytes : Type 0
Bytes = List ℕ

abbrev pub proto_version : ℕ
proto_version = 1

-- `struct.pack('!BBI', ...)`, which raises where a number does not fit
unfoldable pub pack : (version msg_type payload_length : ℕ) → Option Bytes
pack version msg_type n =
    if ltb version 256 && ltb msg_type 256 && ltb n 4294967296
    then some (version ∷ msg_type ∷ n / 16777216 ∷ n / 65536 % 256 ∷ n / 256 % 256 ∷ n % 256 ∷ [])
    else none

-- `struct.unpack('!BBI', ...)` on the first six bytes
unfoldable pub decode_header : Bytes → Option (ℕ × ℕ × ℕ)
decode_header (version ∷ msg_type ∷ a ∷ b ∷ c ∷ d ∷ rest) =
    some (version, msg_type, a * 16777216 + b * 65536 + c * 256 + d)
decode_header _ = none

abbrev after_header : Bytes → Option Bytes → Option Bytes
after_header payload none = none
after_header payload (some header) = some (header ++ payload)

unfoldable pub encode_message : ℕ → Bytes → Option Bytes
unfolding pack
encode_message msg_type payload =
    after_header payload (pack proto_version msg_type (length payload))

base_256 :
    (n : ℕ) → n / 16777216 * 16777216 + n / 65536 % 256 * 65536 + n / 256 % 256 * 256 + n % 256 ≡ n
base_256 n = omega arith

fits : (m n : ℕ) → m < 256 → n < 4294967296 → (ltb 1 256 && ltb m 256 && ltb n 4294967296) ≡ true
fits m n h k = ground (arith, h, k)

-- A message of a type below 256 with a payload of less than 2^32 bytes is encoded. Decoding its header
-- gives the version, the type and the length of the payload, and the payload follows the six bytes of the
-- header.
pub decode_header-encode_message :
    (msg_type : ℕ) (payload : List ℕ)
    → msg_type < 256
    → length payload < 4294967296
    → (header : List ℕ) × (encode_message msg_type payload ≡ some (header ++ payload))
      × (length header ≡ 6)
      × (decode_header (header ++ payload) ≡ some (1, msg_type, length payload))
unfolding encode_message decode_header pack
decode_header-encode_message msg_type payload h k =
    let n = length payload in
    (
      1 ∷ msg_type ∷ n / 16777216 ∷ n / 65536 % 256 ∷ n / 256 % 256 ∷ n % 256 ∷ [],
      rw (fits msg_type n h k) refl,
      refl,
      ap (λ l. some (1, msg_type, l)) (base_256 n),
    )
