-- ===== src/Capabilities/Examples.antt =====
-- Runs of the selection, and the theorems at concrete inputs.
use cosaci.Prelude.{ℕ, ◌≤◌, ◌<◌, ◌≡◌, ◌⊎◌, refl, none, some, List, [], ◌∷◌, ◌++◌, length, All}
use mathlib.Core.List.{Perm}
use cosaci.Capabilities.{
  Platform, linux_x86_64, darwin_aarch64, wasm, docker, JobRequirements, Candidate, eligible, rank,
  insert_ranked, matches, is_subset, has_runtime, ids, select_capability_aware_committee,
}
use cosaci.Capabilities.Sorting.{IsFirst}
use cosaci.Capabilities.Committee.{CanRun, select_committee}

abbrev requirements : JobRequirements
requirements = record { cpu = 2; memory_mb = 512; platform = linux_x86_64; runtimes = wasm ∷ [] }

abbrev candidate : ℕ → Platform → ℕ → Candidate
candidate id platform draw = record {
  id = id;
  capabilities = record {
    cpu = 4;
    memory_mb = 1024;
    platform = platform;
    runtimes = docker ∷ wasm ∷ [];
  };
  vrf_output = 0 ∷ draw ∷ [];
}

abbrev candidates : List Candidate
candidates =
    candidate 1 linux_x86_64 9
    ∷ candidate 2 linux_x86_64 3
    ∷ candidate 3 darwin_aarch64 1
    ∷ candidate 4 linux_x86_64 5
    ∷ []

selects : select_capability_aware_committee candidates requirements 2 ≡ some (2 ∷ 4 ∷ [])
unfolding select_capability_aware_committee eligible matches is_subset has_runtime rank
    insert_ranked
selects = refl

too_few : select_capability_aware_committee candidates requirements 4 ≡ none
unfolding select_capability_aware_committee eligible matches is_subset has_runtime rank
    insert_ranked
too_few = refl

select_committee_example :
    let selected = select_capability_aware_committee candidates requirements 2 in
    (fit : List Candidate) × (unfit : List Candidate) × Perm (fit ++ unfit) candidates
    × All (λ c. CanRun c.capabilities requirements) fit
    × All (λ c. CanRun c.capabilities requirements → ⊥) unfit
    × (((length fit < 2) × (selected ≡ none))
        ⊎ ((2 ≤ length fit)
            × ((chosen : List Candidate) × (rest : List Candidate) × (selected ≡ some (ids chosen))
                × (length chosen ≡ 2)
                × Perm (chosen ++ rest) fit
                × All (λ c. IsFirst c rest) chosen)))
select_committee_example = select_committee candidates requirements 2
