-- ===== src/Tests/Slim.antt =====
-- Tests of the framing.
use snx_rs.Prelude.{◌≡◌, refl, none, some, List, [], ◌∷◌, ◌++◌, arith, map, take}
use snx_rs.Prelude.Result.{Result, ok, err}
use snx_rs.Prelude.Text.{Text}
use snx_rs.Sexpr.Tree.{Pairs, no_pairs}
use snx_rs.Slim.{
  Bytes, payload, to_be_bytes, from_be_bytes, packet_parts, encode, decode_body, decode,
}
use snx_rs.Slim.Framing.{frame, decode-frame, decode-partial, decode-append, received}
use snx_rs.Slim.Stream.{encode_all, Decodes, Decodes-encode_all}

abbrev lossy : Bytes → Text
lossy bytes = bytes

-- A parser that accepts nothing but the empty text.
abbrev parser : Text → Result Pairs
parser [] = ok no_pairs
parser (c ∷ s) = err "parse"

abbrev one_byte : Bytes
one_byte = 0 ∷ 0 ∷ 0 ∷ 1 ∷ 0 ∷ 0 ∷ 0 ∷ 2 ∷ 0xaa ∷ []

encode_data_packet :
    encode (payload (1 ∷ 2 ∷ [])) (0xbb ∷ []) ≡ 0xbb ∷ 0 ∷ 0 ∷ 0 ∷ 2 ∷ 0 ∷ 0 ∷ 0 ∷ 2 ∷ 1 ∷ 2 ∷ []
unfolding encode packet_parts to_be_bytes
encode_data_packet = refl

decode-one_byte : decode lossy parser one_byte ≡ (ok (some (payload (0xaa ∷ []))), [])
unfolding decode decode_body from_be_bytes
decode-one_byte = refl

decode_unknown_type :
    (decode lossy parser (0 ∷ 0 ∷ 0 ∷ 1 ∷ 0 ∷ 0 ∷ 0 ∷ 7 ∷ 0xaa ∷ [])).0
    ≡ err "error-unknown-packet-type"
unfolding decode decode_body from_be_bytes
decode_unknown_type = refl

decode-frame_example :
    decode lossy parser (frame (payload (9 ∷ 8 ∷ [])) ++ 0 ∷ 1 ∷ [])
    ≡ (received lossy parser (payload (9 ∷ 8 ∷ [])), 0 ∷ 1 ∷ [])
unfolding packet_parts
decode-frame_example = decode-frame lossy parser (payload (9 ∷ 8 ∷ [])) (0 ∷ 1 ∷ []) (omega arith)

decode-partial_example :
    decode lossy parser (take 5 (frame (payload (9 ∷ 8 ∷ []))))
    ≡ (ok none, take 5 (frame (payload (9 ∷ 8 ∷ []))))
unfolding packet_parts encode to_be_bytes
decode-partial_example =
    decode-partial lossy parser (payload (9 ∷ 8 ∷ [])) 5 (omega arith) (omega arith)

decode-append_example :
    decode lossy parser (one_byte ++ 0 ∷ 0 ∷ [])
    ≡ (ok (some (payload (0xaa ∷ []))), [] ++ 0 ∷ 0 ∷ [])
decode-append_example =
    decode-append lossy parser one_byte (0 ∷ 0 ∷ []) [] (payload (0xaa ∷ [])) decode-one_byte

abbrev packets : List Bytes
packets = (1 ∷ 2 ∷ []) ∷ [] ∷ (3 ∷ []) ∷ []

Decodes-encode_all_example :
    Decodes lossy parser
      (0 ∷ [])
      (encode_all (map payload packets) [] ++ 0 ∷ [])
      (map payload packets)
Decodes-encode_all_example = Decodes-encode_all lossy parser packets (0 ∷ []) (omega arith)
