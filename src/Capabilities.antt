-- ===== src/Capabilities.antt =====
-- crates/cosaci-core/src/capabilities.rs: which runners may run a job, and the committee of them. A
-- runner's id is a number. `sort_by` is stable, as an insertion sort is.
pub mod Sorting
pub mod Committee
mod Examples
use cosaci.Prelude.{
  ℕ, Bool, true, false, not, ◌&&◌, ◌||◌, Option, none, some, List, [], ◌∷◌, if◌then◌else◌, leb, ltb,
  length, take,
}

pub data Platform : Type 0 where
  linux_x86_64 linux_aarch64 darwin_x86_64 darwin_aarch64 : Platform

pub data Runtime : Type 0 where
  wasm firecracker docker : Runtime

abbrev pub platform_beq : Platform → Platform → Bool
platform_beq linux_x86_64 linux_x86_64 = true
platform_beq linux_aarch64 linux_aarch64 = true
platform_beq darwin_x86_64 darwin_x86_64 = true
platform_beq darwin_aarch64 darwin_aarch64 = true
platform_beq _ _ = false

abbrev pub runtime_beq : Runtime → Runtime → Bool
runtime_beq wasm wasm = true
runtime_beq firecracker firecracker = true
runtime_beq docker docker = true
runtime_beq _ _ = false

-- The set of runtimes is the list of its members.
pub record Capabilities : Type 0 where
  pub cpu : ℕ
  pub memory_mb : ℕ
  pub platform : Platform
  pub runtimes : List Runtime

pub record JobRequirements : Type 0 where
  pub cpu : ℕ
  pub memory_mb : ℕ
  pub platform : Platform
  pub runtimes : List Runtime

unfoldable pub has_runtime : Runtime → List Runtime → Bool
has_runtime r [] = false
has_runtime r (s ∷ runtimes) = runtime_beq r s || has_runtime r runtimes

unfoldable pub is_subset : List Runtime → List Runtime → Bool
is_subset [] offered = true
is_subset (r ∷ wanted) offered = has_runtime r offered && is_subset wanted offered

unfoldable pub matches : Capabilities → JobRequirements → Bool
matches runner job =
    leb job.cpu runner.cpu
    && leb job.memory_mb runner.memory_mb
    && platform_beq runner.platform job.platform
    && is_subset job.runtimes runner.runtimes

pub record Candidate : Type 0 where
  pub id : ℕ
  pub capabilities : Capabilities
  pub vrf_output : List ℕ

-- `a <= b` on byte strings.
abbrev pub bytes_leb : List ℕ → List ℕ → Bool
bytes_leb [] ys = true
bytes_leb (x ∷ xs) [] = false
bytes_leb (x ∷ xs) (y ∷ ys) =
    let rest = bytes_leb xs ys in if ltb x y then true else if ltb y x then false else rest

abbrev pub ranks_before : Candidate → Candidate → Bool
ranks_before c d = bytes_leb c.vrf_output d.vrf_output

unfoldable pub eligible : JobRequirements → List Candidate → List Candidate
eligible job [] = []
eligible job (c ∷ candidates) =
    let rest = eligible job candidates in if matches c.capabilities job then c ∷ rest else rest

-- `sort_by` on the VRF outputs.
unfoldable pub insert_ranked : Candidate → List Candidate → List Candidate
insert_ranked c [] = c ∷ []
insert_ranked c (d ∷ ranked) =
    let rest = insert_ranked c ranked in if ranks_before c d then c ∷ d ∷ ranked else d ∷ rest

unfoldable pub rank : List Candidate → List Candidate
rank [] = []
rank (c ∷ candidates) = insert_ranked c (rank candidates)

abbrev pub ids : List Candidate → List ℕ
ids [] = []
ids (c ∷ candidates) = c.id ∷ ids candidates

unfoldable pub select_capability_aware_committee :
    List Candidate → JobRequirements → ℕ → Option (List ℕ)
select_capability_aware_committee candidates job committee_size =
    let fit = eligible job candidates in
    if ltb (length fit) committee_size then none else some (ids (take committee_size (rank fit)))
