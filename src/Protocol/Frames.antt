-- ===== src/Protocol/Frames.antt =====
-- A frame is read back whole, and no part of it is read as an envelope.
use cosaci.Prelude.{
  ℕ, zero, suc, ◌+◌, ◌^◌, ◌≤◌, ◌<◌, ◌≡◌, refl, ap, sym, ◌∙◌, subst, false, some, List, ◌∷◌, ◌++◌,
  append_assoc, arith, length, length-append, ltb, take, drop, take_whole, drop_whole, take-append,
  length-drop, take-drop, ok, err, Bool-cases, Option-cases, inl, inr,
}
use cosaci.Protocol.{
  read_payload, Envelope, Codec, unexpected_eof, max_envelope_bytes, to_be_bytes, from_be_bytes,
  read_exact, write_envelope, read_envelope,
}

length-to_be_bytes : (width n : ℕ) → length (to_be_bytes width n) ≡ width
length-to_be_bytes zero n = refl
length-to_be_bytes (suc width) n = ap suc (length-to_be_bytes width n)

from_be_bytes-to_be_bytes : (n : ℕ) → n < 2 ^ 32 → from_be_bytes 0 (to_be_bytes 4 n) ≡ n
from_be_bytes-to_be_bytes n h = omega arith

read_exact_whole :
    (n : ℕ) (xs rest : List ℕ) → length xs ≡ n → read_exact n (xs ++ rest) ≡ ok (xs, rest)
unfolding read_exact
read_exact_whole n xs rest h =
    let enough : ltb (length (xs ++ rest)) n ≡ false = ground (arith, length-append xs rest) in
    rw (enough, take_whole xs rest n h, drop_whole xs rest n h) refl

read_exact_short : (n : ℕ) (xs : List ℕ) → length xs < n → read_exact n xs ≡ err unexpected_eof
unfolding read_exact
read_exact_short n xs h = ground arith

-- A written frame is the length of its payload, and the payload.
write_envelope-frame :
    (c : Codec) (env : Envelope) (bytes : List ℕ)
    → write_envelope c env ≡ ok bytes
    → (buf : List ℕ) × (c.encode env ≡ some buf)
      × (length buf ≤ max_envelope_bytes)
      × (bytes ≡ to_be_bytes 4 (length buf) ++ buf)
unfolding write_envelope
write_envelope-frame c env bytes h = elim (Option-cases (c.encode env)) [
  | inl e ↦ absurd (ground arith)
  | inr (buf, e) ↦ elim (Bool-cases (ltb max_envelope_bytes (length buf))) [
    | inl long ↦ absurd (ground arith)
    | inr fits ↦ (buf, e, (ground arith), (ground arith))
  ]
]

-- The decoder reads back what the encoder wrote.
abbrev pub Decodes : Codec → Type 0
Decodes c = (env : Envelope) (buf : List ℕ) → c.encode env ≡ some buf → c.decode buf ≡ some env

read_envelope_header :
    (c : Codec) (n : ℕ) (stream : List ℕ)
    → n < 2 ^ 32
    → read_envelope c (to_be_bytes 4 n ++ stream) ≡ read_payload c n stream
unfolding read_envelope
read_envelope_header c n stream h =
    let header = read_exact_whole 4 (to_be_bytes 4 n) stream (length-to_be_bytes 4 n) in
    rw (header, read_envelope) (ap (λ k. read_payload c k stream) (from_be_bytes-to_be_bytes n h))

read_payload_whole :
    (c : Codec) (env : Envelope) (buf rest : List ℕ)
    → c.decode buf ≡ some env
    → length buf ≤ max_envelope_bytes
    → read_payload c (length buf) (buf ++ rest) ≡ ok (env, rest)
unfolding read_payload
read_payload_whole c env buf rest d fits =
    let short : ltb max_envelope_bytes (length buf) ≡ false = ground arith in
    let body = read_exact_whole (length buf) buf rest refl in rw (short, body, d, read_payload) refl

read_frame :
    (c : Codec) (env : Envelope) (buf rest : List ℕ)
    → c.decode buf ≡ some env
    → length buf ≤ max_envelope_bytes
    → read_envelope c ((to_be_bytes 4 (length buf) ++ buf) ++ rest) ≡ ok (env, rest)
read_frame c env buf rest d fits =
    ap (read_envelope c) (append_assoc (to_be_bytes 4 (length buf)) buf rest)
    ∙ read_envelope_header c (length buf) (buf ++ rest) (omega arith)
    ∙ read_payload_whole c env buf rest d fits

-- With an encoder whose output decodes, whatever `write_envelope` wrote is read back, and the
-- stream then stands at what follows it.
pub read_envelope-write_envelope :
    (c : Codec) (env : Envelope) (bytes rest : List ℕ)
    → Decodes c
    → write_envelope c env ≡ ok bytes
    → read_envelope c (bytes ++ rest) ≡ ok (env, rest)
read_envelope-write_envelope c env bytes rest d h =
    let (buf, e, fits, frame) = write_envelope-frame c env bytes h in
    subst (λ b. read_envelope c (b ++ rest) ≡ ok (env, rest)) (sym frame)
      (read_frame c env buf rest (d env buf e) fits)

-- A stream that is cut anywhere inside a frame gives the end of file, whatever the decoder does
-- with other bytes.
pub read_envelope_truncated :
    (c : Codec) (env : Envelope) (x : ℕ) (front back : List ℕ)
    → write_envelope c env ≡ ok (front ++ (x ∷ back))
    → read_envelope c front ≡ err unexpected_eof
unfolding read_envelope read_payload
read_envelope_truncated c env x front back h =
    let (buf, e, fits, frame) = write_envelope-frame c env _ h in
    let total : length front + suc (length back) ≡ 4 + length buf =
      sym (length-append front (x ∷ back))
      ∙ ap length frame
      ∙ length-append (to_be_bytes 4 (length buf)) buf in
    elim (Bool-cases (ltb (length front) 4)) [
      | inl cut ↦ rw (read_exact_short 4 front (ground arith), read_envelope) refl
      | inr past ↦
          let enough : 4 ≤ length front = ground arith in
          let header : take 4 front ≡ to_be_bytes 4 (length buf) =
            sym (take-append 4 front (x ∷ back) enough)
            ∙ ap (take 4) frame
            ∙ take_whole (to_be_bytes 4 (length buf)) buf 4 (length-to_be_bytes 4 (length buf)) in
          let split : to_be_bytes 4 (length buf) ++ drop 4 front ≡ front =
            ap (λ t. t ++ drop 4 front) (sym header) ∙ take-drop 4 front in
          let left : length (drop 4 front) < length buf = omega (arith, length-drop 4 front) in
          let short : ltb max_envelope_bytes (length buf) ≡ false = ground arith in
          ap (read_envelope c) (sym split)
          ∙ read_envelope_header c (length buf) (drop 4 front) (omega arith)
          ∙ rw (short, read_exact_short (length buf) (drop 4 front) left, read_payload) refl
    ]
