-- ===== src/Wasm.antt =====
-- crates/cosaci-wasm/src/wasm_runtime.rs: a module run under limits. wasmtime, ciborium and SHA-256
-- are arguments; an `i32` is its 32-bit pattern and a duration its nanoseconds.
pub mod Limits
mod Examples
use cosaci.Prelude.{
  ℕ, Bool, true, false, not, ◌&&◌, ◌||◌, Option, none, some, List, [], ◌∷◌, ◌++◌, if◌then◌else◌,
  ltb, nat_beq, Result, ok, err, ◌>>=◌,
}
use cosaci.Text.{codes, is_empty, strip_prefix}
use cosaci.Submission.{to_le_bytes}

pub record ExecLimits : Type 0 where
  pub fuel : ℕ
  pub memory_bytes : ℕ
  pub wall : ℕ

unfoldable pub unlimited : ExecLimits
unlimited = record { fuel = 0; memory_bytes = 0; wall = 0 }

pub data ExecLimitKind : Type 0 where
  cpu memory wall : ExecLimitKind

pub data ExecOutcome : Type 0 where
  returned : (v : ℕ) → ExecOutcome
  limit_exceeded : (kind : ExecLimitKind) → ExecOutcome

-- `LimitsCtx::memory_growing`: the growth is allowed, or fails with a message.
abbrev pub cap_message : List ℕ
cap_message = codes "cosaci-wasm memory cap exceeded"

unfoldable pub memory_growing : (max_bytes desired : ℕ) → Result Bool (List ℕ)
memory_growing max_bytes desired =
    if ltb 0 max_bytes && ltb max_bytes desired then err cap_message else ok true

pub data Trap : Type 0 where
  out_of_fuel interrupt other_trap : Trap

-- An error of a call: the trap that it is, if it is one, and its text.
pub record CallError : Type 0 where
  pub trap : Option Trap
  pub msg : List ℕ

-- What a store is set up with: metering and its fuel, the epoch deadline and after which time the
-- timer raises the epoch, and the limiter of its memory.
pub record Setup : Type 0 where
  pub consume_fuel : Bool
  pub fuel : ℕ
  pub epoch_interruption : Bool
  pub epoch_after : ℕ
  pub limiter : ℕ → Result Bool (List ℕ)

pub data WasmError : Type 0 where
  decode_args engine compile set_fuel instantiate typed_func : (msg : List ℕ) → WasmError
  call : (msg : List ℕ) → WasmError

-- The other crates. A step of wasmtime succeeds or fails with a text; the call of the export on
-- two arguments returns a value or an error.
pub record Wasmtime : Type 0 where
  pub decode : List ℕ → Result (ℕ × ℕ) (List ℕ)
  pub new_engine : Setup → Result (Unit {0}) (List ℕ)
  pub new_module : Setup → List ℕ → Result (Unit {0}) (List ℕ)
  pub put_fuel : Setup → Result (Unit {0}) (List ℕ)
  pub new_instance : Setup → List ℕ → Result (Unit {0}) (List ℕ)
  pub get_add : Setup → List ℕ → Result (Unit {0}) (List ℕ)
  pub call_add : Setup → List ℕ → ℕ × ℕ → Result ℕ CallError

-- `result.map_err(f)`
abbrev pub map_err {ℓ κ μ} :
    {A : Type ℓ} {E : Type κ} {F : Type μ} → (E → F) → Result A E → Result A F
map_err f (ok a) = ok a
map_err f (err e) = err (f e)

-- `msg.contains(part)`
unfoldable pub contains : List ℕ → List ℕ → Bool
contains part [] = is_empty part
contains part (b ∷ msg) =
    let rest = contains part msg in
    elim (strip_prefix part (b ∷ msg)) [ none ↦ rest | some _ ↦ true ]

unfoldable pub setup_of : ExecLimits → Setup
setup_of limits = record {
  consume_fuel = ltb 0 limits.fuel;
  fuel = limits.fuel;
  epoch_interruption = not (nat_beq limits.wall 0);
  epoch_after = limits.wall;
  limiter = memory_growing limits.memory_bytes;
}

-- The match on the result of the call.
unfoldable pub outcome_of_call : Result ℕ CallError → Result ExecOutcome WasmError
outcome_of_call (ok v) = ok (returned v)
outcome_of_call (err e) =
    let by_text =
      if contains cap_message e.msg then ok (limit_exceeded memory) else err (call e.msg) in
    elim e.trap [
      | some out_of_fuel ↦ ok (limit_exceeded cpu)
      | some interrupt ↦ ok (limit_exceeded wall)
      | _ ↦ by_text
    ]

module _ (w : Wasmtime) where
  unfoldable pub execute_with_limits : List ℕ → List ℕ → ExecLimits → Result ExecOutcome WasmError
  execute_with_limits wasm args_cbor limits = do
    args ← map_err decode_args (w.decode args_cbor)
    let setup = setup_of limits
    _ ← map_err engine (w.new_engine setup)
    _ ← map_err compile (w.new_module setup wasm)
    _ ← if ltb 0 limits.fuel then map_err set_fuel (w.put_fuel setup) else ok tt
    _ ← map_err instantiate (w.new_instance setup wasm)
    _ ← map_err typed_func (w.get_add setup wasm)
    outcome_of_call (w.call_add setup wasm args)

  -- The error of `execute`: one of the run, or a limit that was hit without one.
  unfoldable pub execute : List ℕ → List ℕ → Result ℕ (Option WasmError)
  execute wasm args_cbor = elim (execute_with_limits wasm args_cbor unlimited) [
    | err e ↦ err (some e)
    | ok (returned v) ↦ ok v
    | ok (limit_exceeded kind) ↦ err none
  ]

module _ (sha256 : List ℕ → List ℕ) where
  unfoldable pub module_hash : List ℕ → List ℕ
  module_hash wasm = sha256 wasm

  unfoldable pub output_hash : List ℕ → ℕ → List ℕ
  output_hash hash_of_module result = sha256 (hash_of_module ++ to_le_bytes 4 result)
