-- ===== src/Slim.antt =====
-- crates/snxcore/src/tunnel/ssl/codec.rs: the framing of the SSL tunnel. A buffer is its bytes; a
-- call of the decoder returns its result and what is left in the buffer.
-- `from_utf8_lossy` (the standard library's) and `parse_text` (the parser generated from
-- sexpr.pest, which yields a tree of pairs) are parameters.
pub mod Framing
pub mod Stream
use snx_rs.Prelude.{
  ℕ, ◌+◌, ◌*◌, ◌/◌, ◌%◌, ◌^◌, Bool, Option, none, some, List, [], ◌∷◌, ◌++◌, length, take, drop,
  ltb, ◌==◌, if◌then◌else◌,
}
use snx_rs.Prelude.Result.{Result, ok, err, ◌>>=◌}
use snx_rs.Prelude.Text.{Text}
use snx_rs.Sexpr.{SExpression}
use snx_rs.Sexpr.Print.{to_string}
use snx_rs.Sexpr.Tree.{Pairs, parse_sexpr}

abbrev pub Bytes : Type 0
Bytes = List ℕ

abbrev pub pkt_control : ℕ
pkt_control = 1

abbrev pub pkt_data : ℕ
pkt_data = 2

pub data SlimPacketType : Type 0 where
  control : SExpression → SlimPacketType
  payload : Bytes → SlimPacketType

-- `u32::to_be_bytes` and `u32::from_be_bytes`
unfoldable pub to_be_bytes : ℕ → Bytes
to_be_bytes n = n / 2 ^ 24 % 256 ∷ n / 2 ^ 16 % 256 ∷ n / 2 ^ 8 % 256 ∷ n % 256 ∷ []

unfoldable pub from_be_bytes : Bytes → ℕ
from_be_bytes (a ∷ b ∷ c ∷ d ∷ []) = a * 2 ^ 24 + b * 2 ^ 16 + c * 2 ^ 8 + d
from_be_bytes _ = 0

-- What `encode` writes for a packet: `data.len() as u32` keeps the low 32 bits.
unfoldable pub packet_parts : SlimPacketType → Bytes × ℕ
packet_parts (control expr) = (to_string expr ++ 0 ∷ [], pkt_control)
packet_parts (payload bytes) = (bytes, pkt_data)

unfoldable pub encode : SlimPacketType → Bytes → Bytes
encode packet dst =
    let (bytes, packet_type) = packet_parts packet in
    dst ++ (to_be_bytes (length bytes % 2 ^ 32) ++ (to_be_bytes packet_type ++ bytes))

module _ (from_utf8_lossy : Bytes → Text) (parse_text : Text → Result Pairs) where
  -- `str::parse::<SExpression>` of sexpr.rs
  unfoldable pub from_str : Text → Result SExpression
  from_str s = parse_text s >>= λ rules. parse_sexpr rules

  unfoldable pub decode_body : ℕ → Bytes → Bytes → Result (Option SlimPacketType) × Bytes
  decode_body packet_type body src =
      if packet_type == pkt_control
      then (
        from_str (from_utf8_lossy body) >>= λ expr. ok (some (control expr)),
        drop (8 + length body) src,
      )
      else if packet_type == pkt_data
      then (ok (some (payload body)), drop (8 + length body) src)
      else (err "error-unknown-packet-type", src)

  unfoldable pub decode : Bytes → Result (Option SlimPacketType) × Bytes
  decode src =
      if ltb (length src) 4
      then (ok none, src)
      else let len = from_be_bytes (take 4 src) in
        if ltb (length src) (8 + len)
        then (ok none, src)
        else decode_body (from_be_bytes (take 4 (drop 4 src))) (take len (drop 8 src)) src
