-- ===== src/Model/Names.antt =====
-- How the enumerations of crates/snxcore/src/model/params.rs are read from text.
use snx_rs.Prelude.{ℕ, ◌+◌, List, [], ◌∷◌, ◌&&◌, leb, ◌==◌, if◌then◌else◌}
use snx_rs.Prelude.Result.{Result, ok}
use snx_rs.Prelude.Text.{Text, text_eq}

lower_byte : ℕ → ℕ
lower_byte c = if leb b'A' c && leb c b'Z' then c + 32 else c

-- `str::to_lowercase`, as far as its result is ASCII: a capital letter, and the Kelvin sign
-- (E2 84 AA in UTF-8), whose small letter is `k`. Other bytes stay.
unfoldable pub to_lowercase : Text → Text
unfolding lower_byte
to_lowercase [] = []
to_lowercase (a ∷ []) = lower_byte a ∷ []
to_lowercase (a ∷ b ∷ []) = lower_byte a ∷ lower_byte b ∷ []
to_lowercase (a ∷ b ∷ c ∷ s) =
    let kelvin = b'k' ∷ to_lowercase s in
    let plain = lower_byte a ∷ to_lowercase (b ∷ c ∷ s) in
    if a == 0xe2 && (b == 0x84 && c == 0xaa) then kelvin else plain

-- A `match` on a text: the value of the first key that is equal to it.
unfoldable pub match_text {ℓ} : {A : Type ℓ} → Text → List (Text × A) → Result A → Result A
match_text s [] other = other
match_text s ((k, a) ∷ arms) other = if text_eq s k then ok a else match_text s arms other
