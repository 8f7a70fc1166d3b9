-- ===== src/Slim/Framing.antt =====
-- One packet through `encode` and `decode` of codec.rs.
use snx_rs.Prelude.{
  ℕ, suc, ◌+◌, ◌^◌, ◌%◌, ◌≤◌, ◌<◌, ◌≡◌, refl, sym, ◌∙◌, Option, none, some, [], ◌∷◌, ◌++◌,
  append_assoc, arith, length, take, drop, length-append, take-append_exact, drop-append_exact,
  take-append_within, drop-append_within, length-drop, ltb-false, lt→ltb, length-take_within,
  take-take, dec_lt,
}
use snx_rs.Prelude.Result.{Result, ok, ◌>>=◌}
use snx_rs.Prelude.Text.{Text}
use snx_rs.Sexpr.Print.{to_string}
use snx_rs.Sexpr.Tree.{Pairs}
use snx_rs.Slim.{
  Bytes, SlimPacketType, control, payload, pkt_control, pkt_data, to_be_bytes, from_be_bytes,
  packet_parts, encode, from_str, decode_body, decode,
}

from_be_bytes-to_be_bytes : (n : ℕ) → n < 2 ^ 32 → from_be_bytes (to_be_bytes n) ≡ n
unfolding from_be_bytes to_be_bytes
from_be_bytes-to_be_bytes n h = omega arith

-- The bytes of one packet on the wire.
abbrev pub frame : SlimPacketType → Bytes
frame p = encode p []

-- Encoding adds the packet's frame behind what the buffer holds.
pub encode-frame : (p : SlimPacketType) (dst : Bytes) → encode p dst ≡ dst ++ frame p
unfolding encode
encode-frame p dst = refl

-- A packet that fits the length field.
abbrev pub Fits : SlimPacketType → Type 0
Fits p = length (packet_parts p).0 < 2 ^ 32

module _ (from_utf8_lossy : Bytes → Text) (parse_text : Text → Result Pairs) where
  -- What the receiver makes of a packet: data arrives as it was sent, and a control packet is parsed
  -- from its text with the final NUL.
  abbrev pub received : SlimPacketType → Result (Option SlimPacketType)
  received (payload bytes) = ok (some (payload bytes))
  received (control expr) =
      from_str from_utf8_lossy parse_text (from_utf8_lossy (to_string expr ++ 0 ∷ [])) >>= λ e.
      ok (some (control e))

length-to_be_bytes : (n : ℕ) (s : Bytes) → length (to_be_bytes n ++ s) ≡ 4 + length s
unfolding to_be_bytes
length-to_be_bytes n s = omega arith

take-to_be_bytes : (n : ℕ) (s : Bytes) → take 4 (to_be_bytes n ++ s) ≡ to_be_bytes n
unfolding to_be_bytes
take-to_be_bytes n s = refl

drop-to_be_bytes : (n : ℕ) (s : Bytes) → drop 4 (to_be_bytes n ++ s) ≡ s
unfolding to_be_bytes
drop-to_be_bytes n s = refl

drop-header : (n t : ℕ) (s : Bytes) → drop 8 (to_be_bytes n ++ (to_be_bytes t ++ s)) ≡ s
unfolding to_be_bytes
drop-header n t s = refl

length-header :
    (n t : ℕ) (s : Bytes) → length (to_be_bytes n ++ (to_be_bytes t ++ s)) ≡ 8 + length s
length-header n t s =
    omega (arith, length-to_be_bytes n (to_be_bytes t ++ s), length-to_be_bytes t s)

drop-packet :
    (n t : ℕ) (b rest : Bytes)
    → drop (8 + length b) (to_be_bytes n ++ (to_be_bytes t ++ (b ++ rest))) ≡ rest
unfolding to_be_bytes
drop-packet n t b rest =
    let e : 8 + length b ≡ suc (suc (suc (suc (suc (suc (suc (suc (length b)))))))) = omega arith in
    rw e (drop-append_exact b rest)

frame_lem :
    (p : SlimPacketType)
    → Fits p
    → frame p
      ≡ to_be_bytes (length (packet_parts p).0)
        ++ (to_be_bytes (packet_parts p).1 ++ (packet_parts p).0)
unfolding encode
frame_lem p h =
    let (bytes, t) = packet_parts p in
    let m : length bytes % 2 ^ 32 ≡ length bytes = omega arith in rw m

frame-append :
    (p : SlimPacketType) (rest : Bytes)
    → Fits p
    → frame p ++ rest
      ≡ to_be_bytes (length (packet_parts p).0)
        ++ (to_be_bytes (packet_parts p).1 ++ ((packet_parts p).0 ++ rest))
frame-append p rest h = rw (frame_lem p h) (simp append_assoc)

-- The length field of a frame, and the length of the whole.
frame_fields :
    (p : SlimPacketType)
    → Fits p
    → (from_be_bytes (take 4 (frame p)) ≡ length (packet_parts p).0)
      × (length (frame p) ≡ 8 + length (packet_parts p).0)
frame_fields p h =
    let (bytes, t) = packet_parts p in
    rw (frame_lem p h) (
      (
        rw take-to_be_bytes (from_be_bytes-to_be_bytes (length bytes) h),
        length-header (length bytes) t bytes,
      ))

module _ (from_utf8_lossy : Bytes → Text) (parse_text : Text → Result Pairs) where
  decode-header :
      (t : ℕ) (b rest : Bytes)
      → length b < 2 ^ 32
      → t < 2 ^ 32
      → let src = to_be_bytes (length b) ++ (to_be_bytes t ++ (b ++ rest)) in
        decode from_utf8_lossy parse_text src ≡ decode_body from_utf8_lossy parse_text t b src
  unfolding decode
  decode-header t b rest h g =
      let src : Bytes = to_be_bytes (length b) ++ (to_be_bytes t ++ (b ++ rest)) in
      let whole = length-header (length b) t (b ++ rest) in
      let cut = length-append b rest in
      simp (
        take-to_be_bytes,
        drop-to_be_bytes,
        drop-header,
        from_be_bytes-to_be_bytes _ h,
        from_be_bytes-to_be_bytes _ g,
        take-append_exact,
        ltb-false (length src) 4 (omega (arith, whole)),
        ltb-false (length src) (8 + length b) (omega (arith, whole, cut)),
      )

  -- Whatever follows it in the buffer, an encoded packet is decoded to what the receiver is meant to
  -- get, and exactly its bytes are taken from the buffer. The packet's body must be shorter than 2 ^ 32.
  pub decode-frame :
      (p : SlimPacketType) (rest : Bytes)
      → Fits p
      → decode from_utf8_lossy parse_text (frame p ++ rest)
        ≡ (received from_utf8_lossy parse_text p, rest)
  unfolding packet_parts decode_body
  decode-frame (control e) rest h =
      rw
        (
          frame-append (control e) rest h,
          decode-header pkt_control (to_string e ++ 0 ∷ []) rest h (omega arith),
        )
        (rw drop-packet)
  decode-frame (payload b) rest h =
      rw (frame-append (payload b) rest h, decode-header pkt_data b rest h (omega arith))
        (rw drop-packet)

  -- The three things a call of the decoder does.
  decode_short :
      (src : Bytes) → length src < 4 → decode from_utf8_lossy parse_text src ≡ (ok none, src)
  unfolding decode
  decode_short src h = rw (lt→ltb _ _ h)

  decode_wait :
      (src : Bytes)
      → 4 ≤ length src
      → length src < 8 + from_be_bytes (take 4 src)
      → decode from_utf8_lossy parse_text src ≡ (ok none, src)
  unfolding decode
  decode_wait src h g =
      rw (ltb-false (length src) 4 h, lt→ltb (length src) (8 + from_be_bytes (take 4 src)) g)

  decode_whole :
      (src : Bytes)
      → 4 ≤ length src
      → 8 + from_be_bytes (take 4 src) ≤ length src
      → decode from_utf8_lossy parse_text src
        ≡ decode_body from_utf8_lossy parse_text
            (from_be_bytes (take 4 (drop 4 src)))
            (take (from_be_bytes (take 4 src)) (drop 8 src))
            src
  unfolding decode
  decode_whole src h g =
      rw (ltb-false (length src) 4 h, ltb-false (length src) (8 + from_be_bytes (take 4 src)) g)

  decode_body-append :
      (t : ℕ) (body src more rest : Bytes) (p : SlimPacketType)
      → 8 + length body ≤ length src
      → decode_body from_utf8_lossy parse_text t body src ≡ (ok (some p), rest)
      → decode_body from_utf8_lossy parse_text t body (src ++ more) ≡ (ok (some p), rest ++ more)
  unfolding decode_body
  decode_body-append t body src more rest p l h =
      rw (drop-append_within (8 + length body) src more l) (ground arith)

  -- A buffer that holds less than the whole of the first packet is left alone and gives nothing yet.
  pub decode-partial :
      (p : SlimPacketType) (n : ℕ)
      → Fits p
      → n < length (frame p)
      → decode from_utf8_lossy parse_text (take n (frame p)) ≡ (ok none, take n (frame p))
  decode-partial p n h l =
      let len : length (take n (frame p)) ≡ n = length-take_within n (frame p) (omega arith) in
      elim (dec_lt n 4) [
        | yes short ↦ decode_short _ (rw len short)
        | no long ↦ decode_wait _ (rw len (omega arith)) (
            rw (len, take-take 4 n (frame p) (omega arith), (frame_fields p h).0)
              (omega (arith, (frame_fields p h).1)))
      ]

  decode_whole-append :
      (src more : Bytes)
      → 4 ≤ length src
      → 8 + from_be_bytes (take 4 src) ≤ length src
      → decode from_utf8_lossy parse_text (src ++ more)
        ≡ decode_body from_utf8_lossy parse_text
            (from_be_bytes (take 4 (drop 4 src)))
            (take (from_be_bytes (take 4 src)) (drop 8 src))
            (src ++ more)
  decode_whole-append src more h g =
      let head = take-append_within 4 src more h in
      let len = from_be_bytes (take 4 src) in
      let total = length-append src more in
      decode_whole (src ++ more) (omega (arith, total)) (rw head (omega (arith, total)))
      ∙ rw (
        head,
        drop-append_within 4 src more h,
        drop-append_within 8 src more (omega arith),
        take-append_within 4 (drop 4 src) more (omega (arith, length-drop 4 src)),
        take-append_within len (drop 8 src) more (omega (arith, length-drop 8 src)),
      )

  -- Bytes that arrive later do not change a packet that is already complete: they stay behind it.
  pub decode-append :
      (src more rest : Bytes) (p : SlimPacketType)
      → decode from_utf8_lossy parse_text src ≡ (ok (some p), rest)
      → decode from_utf8_lossy parse_text (src ++ more) ≡ (ok (some p), rest ++ more)
  decode-append src more rest p h = elim (dec_lt (length src) 4) [
    | yes short ↦ cc (decode_short src short)
    | no long ↦ elim (dec_lt (length src) (8 + from_be_bytes (take 4 src))) [
      | yes part ↦ cc (decode_wait src (omega arith) part)
      | no whole ↦
          decode_whole-append src more (omega arith) (omega arith)
          ∙ decode_body-append _ _ src more rest p
              (omega (
                arith,
                length-drop 8 src,
                length-take_within (from_be_bytes (take 4 src)) (drop 8 src)
                    (omega (arith, length-drop 8 src)),
              ))
              (sym (decode_whole src (omega arith) (omega arith)) ∙ h)
    ]
  ]
