-- ===== src/Tests/Obfuscate.antt =====
-- Tests of the obfuscation, with bytes in place of their hexadecimal digits.
use snx_rs.Prelude.{◌≡◌, refl, ◌↔◌, true, [], ◌∷◌, arith}
use snx_rs.Prelude.Result.{Result, ok}
use snx_rs.Prelude.Text.{Text, codes}
use snx_rs.Obfuscate.{Bytes, translate, translate_byte, snx_obfuscate, snx_deobfuscate}
use snx_rs.Obfuscate.RoundTrip.{all_survive, deobfuscate-obfuscate_iff, deobfuscate-obfuscate_ascii}

abbrev hex_encode : Bytes → Text
hex_encode bytes = bytes

abbrev hex_decode : Text → Result Bytes
hex_decode s = ok s

testuser :
    snx_obfuscate hex_encode hex_decode (codes "testuser")
    ≡ 0x36 ∷ 0x20 ∷ 0x3a ∷ 0x33 ∷ 0x3d ∷ 0x37 ∷ 0x2a ∷ 0x59 ∷ []
unfolding snx_obfuscate translate
testuser = refl

-- The bytes of a Cyrillic letter: the first does not survive where the table has 47.
lost_byte : translate_byte 27 (translate_byte 27 0xd0) ≡ 47
unfolding translate_byte
lost_byte = refl

deobfuscate-obfuscate_iff_example :
    (snx_deobfuscate hex_encode hex_decode (snx_obfuscate hex_encode hex_decode (0xd2 ∷ []))
      ≡ ok (0xd2 ∷ []))
    ↔ (all_survive 0 (0xd2 ∷ []) ≡ true)
deobfuscate-obfuscate_iff_example =
    deobfuscate-obfuscate_iff hex_encode hex_decode (0xd2 ∷ []) refl (omega arith)

deobfuscate-obfuscate_ascii_example :
    snx_deobfuscate hex_encode hex_decode (snx_obfuscate hex_encode hex_decode (codes "testuser"))
    ≡ ok (codes "testuser")
deobfuscate-obfuscate_ascii_example =
    deobfuscate-obfuscate_ascii hex_encode hex_decode (codes "testuser") refl (omega arith)
