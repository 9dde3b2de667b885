-- ===== src/Protocol/Examples.antt =====
-- The frames at a concrete envelope, which the encoder writes as one byte.
use cosaci.Prelude.{◌≡◌, refl, ℕ, Option, none, some, List, [], ◌∷◌, ◌++◌, ok, err}
use cosaci.Protocol.{Envelope, admin_welcome, Codec, write_envelope, read_envelope, unexpected_eof}
use cosaci.Protocol.Frames.{Decodes, read_envelope-write_envelope, read_envelope_truncated}

abbrev encode : Envelope → Option (List ℕ)
encode admin_welcome = some (7 ∷ [])
encode _ = none

abbrev codec : Codec
codec = record { encode = encode; decode = λ buf. some admin_welcome }

codec-Decodes : Decodes codec
codec-Decodes admin_welcome buf e = refl
codec-Decodes _ buf e = absurd (cc (e))

abbrev frame : List ℕ
frame = 0 ∷ 0 ∷ 0 ∷ 1 ∷ 7 ∷ []

frame_run : write_envelope codec admin_welcome ≡ ok frame
unfolding write_envelope
frame_run = refl

read_envelope-write_envelope_example :
    read_envelope codec (frame ++ (0 ∷ 0 ∷ [])) ≡ ok (admin_welcome, 0 ∷ 0 ∷ [])
read_envelope-write_envelope_example =
    read_envelope-write_envelope codec admin_welcome frame (0 ∷ 0 ∷ []) codec-Decodes frame_run

read_envelope_truncated_example : read_envelope codec (0 ∷ 0 ∷ 0 ∷ 1 ∷ []) ≡ err unexpected_eof
read_envelope_truncated_example =
    read_envelope_truncated codec admin_welcome 7 (0 ∷ 0 ∷ 0 ∷ 1 ∷ []) [] frame_run
