-- ===== src/Wasm/Limits.antt =====
-- A limit that a run is said to have exceeded is one that was set.
use cosaci.Prelude.{
  subst, ℕ, ◌<◌, ◌≡◌, ◌≢◌, refl, true, Option, none, some, List, arith, ok, err, ltb, Bool-cases,
  Result-cases, inl, inr, if◌then◌else◌,
}
use cosaci.Wasm.{
  ExecLimits, ExecLimitKind, cpu, memory, wall, ExecOutcome, returned, limit_exceeded, Trap,
  out_of_fuel, interrupt, other_trap, CallError, Setup, Wasmtime, cap_message, memory_growing,
  contains, setup_of, set_fuel, outcome_of_call, execute_with_limits, execute, unlimited, map_err,
}

-- wasmtime: it runs out of fuel only where fuel is metered, is interrupted only under an epoch
-- deadline, and a text with the limiter's message comes from a growth that the limiter refused.
pub record IsHonest (w : Wasmtime) : Type 0 where
  pub metered :
      (s : Setup) (wasm : List ℕ) (args : ℕ × ℕ) (e : CallError)
      → w.call_add s wasm args ≡ err e
      → e.trap ≡ some out_of_fuel
      → s.consume_fuel ≡ true
  pub interrupted :
      (s : Setup) (wasm : List ℕ) (args : ℕ × ℕ) (e : CallError)
      → w.call_add s wasm args ≡ err e
      → e.trap ≡ some interrupt
      → s.epoch_interruption ≡ true
  pub capped :
      (s : Setup) (wasm : List ℕ) (args : ℕ × ℕ) (e : CallError)
      → w.call_add s wasm args ≡ err e
      → contains cap_message e.msg ≡ true
      → (desired : ℕ) × (s.limiter desired ≢ ok true)

-- The limit of a kind; 0 is none.
abbrev pub limit_of : ExecLimitKind → ExecLimits → ℕ
limit_of cpu limits = limits.fuel
limit_of memory limits = limits.memory_bytes
limit_of wall limits = limits.wall

-- The kind that a failed call is given.
pub data IsKindOf (e : CallError) : ExecLimitKind → Type 0 where
  by_fuel : e.trap ≡ some out_of_fuel → IsKindOf e cpu
  by_epoch : e.trap ≡ some interrupt → IsKindOf e wall
  by_limiter : contains cap_message e.msg ≡ true → IsKindOf e memory

kind_of :
    (e : CallError) (kind : ExecLimitKind) (t : Option Trap)
    → e.trap ≡ t
    → outcome_of_call (err e) ≡ ok (limit_exceeded kind)
    → IsKindOf e kind
unfolding outcome_of_call
kind_of e kind (some out_of_fuel) q h =
    let same : cpu ≡ kind = ground arith in subst (IsKindOf e) same (by_fuel q)
kind_of e kind (some interrupt) q h =
    let same : wall ≡ kind = ground arith in subst (IsKindOf e) same (by_epoch q)
kind_of e kind (some other_trap) q h = elim (Bool-cases (contains cap_message e.msg)) [
  | inl c ↦ let same : memory ≡ kind = ground arith in subst (IsKindOf e) same (by_limiter c)
  | inr c ↦ absurd (ground arith)
]
kind_of e kind none q h = elim (Bool-cases (contains cap_message e.msg)) [
  | inl c ↦ let same : memory ≡ kind = ground arith in subst (IsKindOf e) same (by_limiter c)
  | inr c ↦ absurd (ground arith)
]

-- A run that ends reaches the call.
execute_with_limits-reaches :
    (w : Wasmtime) (wasm args_cbor : List ℕ) (limits : ExecLimits) (out : ExecOutcome)
    → execute_with_limits w wasm args_cbor limits ≡ ok out
    → (args : ℕ × ℕ) × (outcome_of_call (w.call_add (setup_of limits) wasm args) ≡ ok out)
unfolding execute_with_limits
execute_with_limits-reaches w wasm args_cbor limits out h =
    let s = setup_of limits in
    elim (Result-cases (w.decode args_cbor)) [
      | inr (m, e) ↦ absurd (ground arith)
      | inl (args, e₀) ↦ elim (Result-cases (w.new_engine s)) [
        | inr (m, e) ↦ absurd (ground arith)
        | inl (_, e₁) ↦ elim (Result-cases (w.new_module s wasm)) [
          | inr (m, e) ↦ absurd (ground arith)
          | inl (_, e₂) ↦
              elim (Result-cases
                (if ltb 0 limits.fuel then map_err set_fuel (w.put_fuel s) else ok tt)) [
                  | inr (m, e) ↦ absurd (ground arith)
                  | inl (_, e₃) ↦ elim (Result-cases (w.new_instance s wasm)) [
                    | inr (m, e) ↦ absurd (ground arith)
                    | inl (_, e₄) ↦ elim (Result-cases (w.get_add s wasm)) [
                      | inr (m, e) ↦ absurd (ground arith)
                      | inl (_, e₅) ↦ (args, rw (e₀, e₁, e₂, e₃, e₄, e₅) at h)
                    ]
                  ]
                ]
        ]
      ]
    ]

IsKindOf-set :
    (w : Wasmtime) (wasm : List ℕ) (limits : ExecLimits)
    → IsHonest w
    → (args : ℕ × ℕ) (e : CallError) → w.call_add (setup_of limits) wasm args ≡ err e
    → {kind : ExecLimitKind} → IsKindOf e kind
    → 0 < limit_of kind limits
unfolding setup_of memory_growing
IsKindOf-set w wasm limits honest args e r (by_fuel q) =
    let metered = honest.metered (setup_of limits) wasm args e r q in ground arith
IsKindOf-set w wasm limits honest args e r (by_epoch q) =
    let timed = honest.interrupted (setup_of limits) wasm args e r q in ground arith
IsKindOf-set w wasm limits honest args e r (by_limiter q) =
    let (desired, refused) = honest.capped (setup_of limits) wasm args e r q in ground arith

-- A run that is said to have exceeded a limit had that limit set, whatever the module does, where
-- wasmtime traps for fuel, for the epoch and for the limiter only as it was set up to.
pub execute_with_limits-limit_set :
    (w : Wasmtime) (wasm args_cbor : List ℕ) (limits : ExecLimits) (kind : ExecLimitKind)
    → IsHonest w
    → execute_with_limits w wasm args_cbor limits ≡ ok (limit_exceeded kind)
    → 0 < limit_of kind limits
unfolding outcome_of_call
execute_with_limits-limit_set w wasm args_cbor limits kind honest h =
    let (args, c) = execute_with_limits-reaches w wasm args_cbor limits _ h in
    elim (Result-cases (w.call_add (setup_of limits) wasm args)) [
      | inl (v, r) ↦ absurd (ground arith)
      | inr (e, r) ↦
          let k : IsKindOf e kind = kind_of e kind e.trap refl (rw r at c) in
          IsKindOf-set w wasm limits honest args e r k
    ]

-- So `execute`, which sets none, never reports one: the error that its comment calls impossible is.
pub execute-possible :
    (w : Wasmtime) (wasm args_cbor : List ℕ) → IsHonest w → execute w wasm args_cbor ≢ err none
unfolding execute unlimited
execute-possible w wasm args_cbor honest h =
    elim (Result-cases (execute_with_limits w wasm args_cbor unlimited)) [
      | inr (e, r) ↦ absurd (ground arith)
      | inl (returned v, r) ↦ absurd (ground arith)
      | inl (limit_exceeded cpu, r) ↦
          ground (arith, execute_with_limits-limit_set w wasm args_cbor unlimited cpu honest r)
      | inl (limit_exceeded memory, r) ↦
          ground (arith, execute_with_limits-limit_set w wasm args_cbor unlimited memory honest r)
      | inl (limit_exceeded wall, r) ↦
          ground (arith, execute_with_limits-limit_set w wasm args_cbor unlimited wall honest r)
    ]
