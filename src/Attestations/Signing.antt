-- ===== src/Attestations/Signing.antt =====
-- A signature covers every field but itself.
use cosaci.Prelude.{ℕ, ◌≡◌, ◌↔◌, ap, sym, ◌∙◌, true, List, replicate, some, arith}
use cosaci.Attestations.{
  Attestation, Crates, canonicalize, canonical_signing_input, sign_with, verifying_key,
  verify_signature,
}

-- RFC 8032: the public key of a seed verifies what the seed signed.
abbrev pub Signs : Crates → Type 0
Signs c =
    (seed bytes : List ℕ) → c.verify_strict (c.public_of seed) bytes (c.sign seed bytes) ≡ true

-- The decoder reads back what the encoder wrote.
abbrev pub Decodes : Crates → Type 0
Decodes c = (a : Attestation) → c.decode (c.encode a) ≡ some a

-- Whatever its signature was before, a signed attestation verifies under the signer's key.
pub verify_signature-sign_with :
    (c : Crates) (seed : List ℕ) (a : Attestation)
    → Signs c
    → verify_signature c (verifying_key c seed) (sign_with c seed a) ≡ true
unfolding verify_signature sign_with verifying_key canonical_signing_input canonicalize
verify_signature-sign_with c seed a h = h seed _

-- The attestation with another signature.
abbrev with_signature : List ℕ → Attestation → Attestation
with_signature bytes a = record a { signature = bytes }

-- Two attestations are signed as the same bytes exactly if they differ in the signature only.
pub canonical_signing_input_iff :
    (c : Crates) (a b : Attestation)
    → Decodes c
    → (canonical_signing_input c a ≡ canonical_signing_input c b)
      ↔ (record a { signature = b.signature } ≡ b)
unfolding canonical_signing_input canonicalize
canonical_signing_input_iff c a b d = (
  λ e.
      let zeroed : some (with_signature (replicate 64 0) a)
          ≡ some (with_signature (replicate 64 0) b) =
        sym (d _) ∙ ap c.decode e ∙ d _ in
      ground arith,
  λ e. ap (λ (x : Attestation). c.encode (with_signature (replicate 64 0) x)) e,
)
