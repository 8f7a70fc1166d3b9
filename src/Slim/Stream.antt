-- ===== src/Slim/Stream.antt =====
-- A whole stream of packets through `encode` and `decode` of codec.rs.
use snx_rs.Prelude.{◌^◌, ◌<◌, ◌≡◌, List, [], ◌∷◌, ◌++◌, append_assoc, append-nil, length, map, some}
use snx_rs.Prelude.Result.{Result, ok}
use snx_rs.Prelude.Text.{Text}
use snx_rs.Sexpr.Tree.{Pairs}
use snx_rs.Slim.{Bytes, SlimPacketType, payload, packet_parts, encode, decode}
use snx_rs.Slim.Framing.{frame, encode-frame, decode-frame}

-- The packets of a list, encoded one after the other into one buffer.
unfoldable pub encode_all : List SlimPacketType → Bytes → Bytes
encode_all [] dst = dst
encode_all (p ∷ ps) dst = encode_all ps (encode p dst)

abbrev pub AllFit : List Bytes → Type 0
AllFit [] = Unit {0}
AllFit (b ∷ bs) = (length b < 2 ^ 32) × AllFit bs

module _ (from_utf8_lossy : Bytes → Text) (parse_text : Text → Result Pairs) where
  -- Calls of the decoder, each on what the one before left, give these packets and leave `rest`.
  pub data Decodes (rest : Bytes) : Bytes → List SlimPacketType → Type 0 where
    drained : Decodes rest rest []
    next :
        {src mid : Bytes} {p : SlimPacketType} {ps : List SlimPacketType}
        → decode from_utf8_lossy parse_text src ≡ (ok (some p), mid)
        → Decodes rest mid ps
        → Decodes rest src (p ∷ ps)

-- Encoding in front of a buffer or into it comes to the same bytes.
encode_all-append :
    (ps : List SlimPacketType) (dst : Bytes) → encode_all ps dst ≡ dst ++ encode_all ps []
unfolding encode_all
encode_all-append [] dst = rw append-nil
encode_all-append (p ∷ ps) dst =
    rw (encode-frame p dst, encode_all-append ps (dst ++ frame p), encode_all-append ps (frame p))
      (append_assoc dst (frame p) (encode_all ps []))

encode_all-cons :
    (p : SlimPacketType) (ps : List SlimPacketType)
    → encode_all (p ∷ ps) [] ≡ frame p ++ encode_all ps []
unfolding encode_all
encode_all-cons p ps = encode_all-append ps (frame p)

-- Data packets shorter than 2 ^ 32 bytes that were encoded one after the other into one buffer are
-- decoded in their order, each as it was, and the bytes behind them stay in the buffer.
pub Decodes-encode_all :
    (from_utf8_lossy : Bytes → Text) (parse_text : Text → Result Pairs) (bs : List Bytes)
    (rest : Bytes)
    → AllFit bs
    → Decodes from_utf8_lossy parse_text rest
        (encode_all (map payload bs) [] ++ rest)
        (map payload bs)
unfolding encode_all packet_parts
Decodes-encode_all lossy parse [] rest h = drained
Decodes-encode_all lossy parse (b ∷ bs) rest h =
    rw (encode_all-cons (payload b) (map payload bs), append_assoc)
      (next (decode-frame lossy parse (payload b) (encode_all (map payload bs) [] ++ rest) h.0)
        (Decodes-encode_all lossy parse bs rest h.1))
