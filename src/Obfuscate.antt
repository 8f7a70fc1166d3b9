-- ===== src/Obfuscate.antt =====
-- `snx_obfuscate` and `snx_deobfuscate` of crates/snxcore/src/util.rs. `hex::encode` and
-- `hex::decode` are parameters.
pub mod RoundTrip
use Prim.Native.Nat.{bit_xor}
use mathlib.Core.List.{reverse}
use snx_rs.Prelude.{ℕ, zero, suc, ◌+◌, ◌%◌, List, [], ◌∷◌, length, ◌==◌, if◌then◌else◌}
use snx_rs.Prelude.Result.{Result, ok, ◌>>=◌}
use snx_rs.Prelude.Text.{Text}

abbrev pub Bytes : Type 0
Bytes = List ℕ

unfoldable pub xor_table : Bytes
xor_table =
    45 ∷ 79 ∷ 68 ∷ 73 ∷ 70 ∷ 73 ∷ 69 ∷ 68 ∷ 38 ∷ 87 ∷ 48 ∷ 82 ∷ 79 ∷ 80 ∷ 69 ∷ 82 ∷ 84 ∷ 89 ∷ 51
    ∷ 72 ∷ 69 ∷ 69 ∷ 84 ∷ 55 ∷ 73 ∷ 84 ∷ 72 ∷ 47 ∷ 43 ∷ 52 ∷ 72 ∷ 69 ∷ 51 ∷ 72 ∷ 69 ∷ 69 ∷ 84 ∷ 41
    ∷ 36 ∷ 51 ∷ 63 ∷ 44 ∷ 36 ∷ 33 ∷ 48 ∷ 63 ∷ 33 ∷ 53 ∷ 63 ∷ 48 ∷ 50 ∷ 47 ∷ 48 ∷ 37 ∷ 50 ∷ 52 ∷ 41
    ∷ 37 ∷ 51 ∷ 46 ∷ 53 ∷ 44 ∷ 44 ∷ 16 ∷ 38 ∷ 55 ∷ 63 ∷ 55 ∷ 48 ∷ 63 ∷ 47 ∷ 34 ∷ 42 ∷ 37 ∷ 35 ∷ 52
    ∷ 51 ∷ []

unfoldable pub byte_at : ℕ → Bytes → ℕ
byte_at i [] = 0
byte_at zero (b ∷ bs) = b
byte_at (suc i) (b ∷ bs) = byte_at i bs

-- The byte of the table for a position: the index is in range.
unfoldable pub table_byte : ℕ → ℕ
unfolding xor_table byte_at
table_byte i = byte_at (i % length xor_table) xor_table

unfoldable pub translate_with : ℕ → ℕ → ℕ
translate_with t c = let v = bit_xor (c % 255) t in if v == 0 then 255 else v

unfoldable pub translate_byte : ℕ → ℕ → ℕ
unfolding translate_with table_byte
translate_byte i c = translate_with (table_byte i) c

-- `enumerate().map(..)`, from position `i`.
unfoldable pub translate_from : ℕ → Bytes → Bytes
unfolding translate_byte
translate_from i [] = []
translate_from i (c ∷ cs) = translate_byte i c ∷ translate_from (suc i) cs

unfoldable pub translate : Bytes → Bytes
unfolding translate_from
translate bytes = reverse (translate_from 0 bytes)

module _ (hex_encode : Bytes → Text) (hex_decode : Text → Result Bytes) where
  unfoldable pub snx_obfuscate : Bytes → Text
  snx_obfuscate bytes = hex_encode (translate bytes)

  unfoldable pub snx_deobfuscate : Text → Result Bytes
  snx_deobfuscate s = hex_decode s >>= λ unhexed. ok (reverse (translate (reverse unhexed)))
