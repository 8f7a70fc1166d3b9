-- ===== src/Obfuscate/RoundTrip.antt =====
-- Which bytes survive obfuscation.
use Prim.Native.Nat.{bit_xor}
use mathlib.Core.List.{reverse-reverse}
use native.Mathlib.Nat.{mod-lt}
use snx_rs.Prelude.{
  ℕ, zero, suc, ◌%◌, ◌<◌, ◌≡◌, refl, ap, ◌∙◌, ◌↔◌, Bool, true, false, [], ◌∷◌, ◌&&◌, not, arith,
  length, ◌==◌, ==_iff,
}
use snx_rs.Prelude.Result.{Result, ok}
use snx_rs.Prelude.Text.{Text}
use snx_rs.Obfuscate.{
  Bytes, xor_table, byte_at, table_byte, translate_with, translate_byte, translate_from, translate,
  snx_obfuscate, snx_deobfuscate,
}

-- Neither a NUL nor a byte that the table turns into 255.
unfoldable pub survives_with : ℕ → ℕ → Bool
survives_with t c = not (c == 0) && not (bit_xor c t == 255)

unfoldable pub survives : ℕ → ℕ → Bool
unfolding survives_with
survives i c = survives_with (table_byte i) c

unfoldable pub all_survive : ℕ → Bytes → Bool
all_survive i [] = true
all_survive i (c ∷ cs) = survives i c && all_survive (suc i) cs

abbrev pub AllBytes : Bytes → Type 0
AllBytes [] = Unit {0}
AllBytes (c ∷ cs) = (c < 256) × AllBytes cs

abbrev pub AllAscii : Bytes → Type 0
AllAscii [] = Unit {0}
AllAscii (c ∷ cs) = (0 < c) × (c < 128) × AllAscii cs

all_below : ℕ → (ℕ → Bool) → Bool
all_below zero p = true
all_below (suc n) p = let rest = all_below n p in p n && rest

all_below_sound : (n : ℕ) (p : ℕ → Bool) (x : ℕ) → all_below n p ≡ true → x < n → p x ≡ true
unfolding all_below
all_below_sound zero p x h l = absurd (omega arith)
all_below_sound (suc n) p x h l = ground (arith, all_below_sound n p x)

same : Bool → Bool → Bool
same true b = b
same false b = not b

same_eq : (a b : Bool) → same a b ≡ true → a ≡ b
unfolding same
same_eq a b h = ground arith

-- Every byte at every position of the table, by evaluation.
byte_table :
    all_below 77 (λ j.
      let t = byte_at j xor_table in
      all_below 256 (λ c. same (translate_with t (translate_with t c) == c) (survives_with t c)))
    ≡ true
unfolding all_below same byte_at xor_table translate_with survives_with
byte_table = refl

byte_ascii_table :
    all_below 77 (λ j.
      let t = byte_at j xor_table in all_below 128 (λ c. same (survives_with t c) (not (c == 0))))
    ≡ true
unfolding all_below same byte_at xor_table translate_with survives_with
byte_ascii_table = refl

row_of : (i : ℕ) → i % length xor_table < 77
unfolding xor_table
row_of i = mod-lt i (omega arith)

translate_byte-twice :
    (i c : ℕ) → c < 256 → (translate_byte i (translate_byte i c) == c) ≡ survives i c
unfolding translate_byte survives
translate_byte-twice i c h =
    let row = all_below_sound 77 _ (i % length xor_table) byte_table (row_of i) in
    same_eq _ _ (all_below_sound 256 _ c row h)

survives_ascii : (i c : ℕ) → 0 < c → c < 128 → survives i c ≡ true
unfolding survives byte_at table_byte
survives_ascii i c g h =
    let row = all_below_sound 77 _ (i % length xor_table) byte_ascii_table (row_of i) in
    same_eq _ _ (all_below_sound 128 _ c row h) ∙ ground arith

all_survive_ascii : (i : ℕ) (cs : Bytes) → AllAscii cs → all_survive i cs ≡ true
unfolding all_survive
all_survive_ascii i [] h = refl
all_survive_ascii i (c ∷ cs) h = rw (survives_ascii i c h.0 h.1, all_survive_ascii (suc i) cs h.2)

ascii-AllBytes : (cs : Bytes) → AllAscii cs → AllBytes cs
ascii-AllBytes [] h = tt
ascii-AllBytes (c ∷ cs) h = (omega arith, ascii-AllBytes cs h.2)

-- Translating twice gives the bytes back where all of them survive, and only there.
translate_from-twice :
    (i : ℕ) (cs : Bytes)
    → AllBytes cs
    → (translate_from i (translate_from i cs) ≡ cs) ↔ (all_survive i cs ≡ true)
unfolding translate_from all_survive
translate_from-twice i [] h = (λ _. refl, λ _. refl)
translate_from-twice i (c ∷ cs) h =
    let rest = translate_from-twice (suc i) cs h.1 in
    let here = translate_byte-twice i c h.0 in
    let test = ==_iff (translate_byte i (translate_byte i c)) c in
    (λ e. ground (arith, here, test, rest), λ e. ground (arith, here, test, rest))

module _ (hex_encode : Bytes → Text) (hex_decode : Text → Result Bytes) where
  -- Deobfuscating what was obfuscated translates each byte twice at its own position.
  deobfuscate-obfuscate :
      (cs : Bytes)
      → hex_decode (hex_encode (translate cs)) ≡ ok (translate cs)
      → snx_deobfuscate hex_encode hex_decode (snx_obfuscate hex_encode hex_decode cs)
        ≡ ok (translate_from 0 (translate_from 0 cs))
  unfolding snx_obfuscate snx_deobfuscate translate
  deobfuscate-obfuscate cs hex = rw hex (simp (reverse-reverse))

  -- Deobfuscation gives back the bytes that were obfuscated exactly if every byte survives at its
  -- position: it is not 0, and the table does not turn it into 255. `hex::decode` is assumed to undo
  -- `hex::encode` on the translated bytes.
  pub deobfuscate-obfuscate_iff :
      (cs : Bytes)
      → hex_decode (hex_encode (translate cs)) ≡ ok (translate cs)
      → AllBytes cs
      → (snx_deobfuscate hex_encode hex_decode (snx_obfuscate hex_encode hex_decode cs) ≡ ok cs)
        ↔ (all_survive 0 cs ≡ true)
  deobfuscate-obfuscate_iff cs hex h =
      let twice = translate_from-twice 0 cs h in
      rw (deobfuscate-obfuscate cs hex) (λ e. twice.0 (cc e), λ s. ap ok (twice.1 s))

  -- ASCII text without a NUL survives obfuscation, if `hex::decode` undoes `hex::encode` on the
  -- translated bytes.
  pub deobfuscate-obfuscate_ascii :
      (cs : Bytes)
      → hex_decode (hex_encode (translate cs)) ≡ ok (translate cs)
      → AllAscii cs
      → snx_deobfuscate hex_encode hex_decode (snx_obfuscate hex_encode hex_decode cs) ≡ ok cs
  deobfuscate-obfuscate_ascii cs hex h =
      (deobfuscate-obfuscate_iff cs hex (ascii-AllBytes cs h)).1 (all_survive_ascii 0 cs h)
