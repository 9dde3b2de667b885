-- ===== src/Attestations.antt =====
-- crates/cosaci-core/src/attestation.rs and signing.rs: what a runner signs. The CBOR encoder,
-- SHA-256 and ed25519 are arguments.
pub mod Signing
use cosaci.Prelude.{ℕ, Bool, true, false, Option, none, some, List, replicate}

pub data AttestationResult : Type 0 where
  pass fail : AttestationResult

-- `timestamp_unix_ns` is the 64-bit pattern of an `i64`.
pub record Attestation : Type 0 where
  pub version : ℕ
  pub job_id : List ℕ
  pub commit : List ℕ
  pub runner_id : ℕ
  pub result : AttestationResult
  pub environment_hash : List ℕ
  pub artifact_hash : List ℕ
  pub timestamp_unix_ns : ℕ
  pub signature : List ℕ

abbrev pub version_now : ℕ
version_now = 1

-- The other crates: the encoder and its inverse, SHA-256, and ed25519: the public key and the
-- signature under a seed, and the strict check.
pub record Crates : Type 0 where
  pub encode : Attestation → List ℕ
  pub decode : List ℕ → Option Attestation
  pub sha256 : List ℕ → List ℕ
  pub public_of : List ℕ → List ℕ
  pub sign : List ℕ → List ℕ → List ℕ
  pub verify_strict : List ℕ → List ℕ → List ℕ → Bool

module _ (c : Crates) where
  unfoldable pub canonicalize : Attestation → List ℕ
  canonicalize a = c.encode a

  unfoldable pub hash : Attestation → List ℕ
  unfolding canonicalize
  hash a = c.sha256 (canonicalize a)

  unfoldable pub decanonicalize : List ℕ → Option Attestation
  decanonicalize bytes = c.decode bytes

  unfoldable pub canonical_signing_input : Attestation → List ℕ
  unfolding canonicalize
  canonical_signing_input a = canonicalize (record a { signature = replicate 64 0 })

  -- A keypair is its seed.
  unfoldable pub verifying_key : List ℕ → List ℕ
  verifying_key seed = c.public_of seed

  unfoldable pub sign_with : List ℕ → Attestation → Attestation
  unfolding canonical_signing_input canonicalize
  sign_with seed a = record a { signature = c.sign seed (canonical_signing_input a) }

  unfoldable pub verify_signature : List ℕ → Attestation → Bool
  unfolding canonical_signing_input canonicalize
  verify_signature pk a = c.verify_strict pk (canonical_signing_input a) a.signature
