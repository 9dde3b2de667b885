-- ===== src/Wasm/Examples.antt =====
-- A run under a limit of fuel, and a runtime that is honest.
use cosaci.Prelude.{◌≡◌, refl, some, [], ok, err, if◌then◌else◌, arith}
use cosaci.Wasm.{
  Wasmtime, out_of_fuel, ExecLimits, limit_exceeded, cpu, contains, setup_of, outcome_of_call,
  execute_with_limits,
}
use cosaci.Wasm.Limits.{IsHonest}

-- A module that never returns.
abbrev looping : Wasmtime
looping = record {
  decode = λ args. ok (1, 2);
  new_engine = λ setup. ok tt;
  new_module = λ setup wasm. ok tt;
  put_fuel = λ setup. ok tt;
  new_instance = λ setup wasm. ok tt;
  get_add = λ setup wasm. ok tt;
  call_add = λ setup wasm args.
      if setup.consume_fuel then err (record { trap = some out_of_fuel; msg = [] }) else ok 0;
}

looping-IsHonest : IsHonest looping
unfolding contains
looping-IsHonest = record {
  metered = λ s wasm args e h t. ground arith;
  interrupted = λ s wasm args e h t. ground arith;
  capped = λ s wasm args e h t. absurd (ground arith);
}

abbrev limits : ExecLimits
limits = record { fuel = 5; memory_bytes = 0; wall = 0 }

looping_run : execute_with_limits looping [] [] limits ≡ ok (limit_exceeded cpu)
unfolding execute_with_limits setup_of outcome_of_call
looping_run = refl
