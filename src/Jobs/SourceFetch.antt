-- ===== src/Jobs/SourceFetch.antt =====
-- crates/cosaci-jobs/src/source_fetch.rs: the hash of a checkout. A directory is a tree of entries;
-- git and SHA-256 are arguments.
pub mod Listing
pub mod Order
use cosaci.Prelude.{
  ℕ, ◌+◌, ◌*◌, ◌/◌, ◌%◌, Bool, true, false, ◌||◌, Option, none, some, List, [], ◌∷◌, ◌++◌,
  if◌then◌else◌, nat_beq, length, Result, ok, err, ◌>>=◌, ◌==◌, bytes_key,
}
use cosaci.Text.{codes, trim, is_empty}
use cosaci.Capabilities.{bytes_leb}
use cosaci.Sorting.{sort}
use cosaci.Submission.{to_le_bytes}

pub record SourceFetchOutput : Type 0 where
  pub resolved_sha : List ℕ
  pub tree_hash : List ℕ

pub data SourceFetchError : Type 0 where
  git_not_found io_error : SourceFetchError
  clone_failed checkout_failed resolve_failed : (stderr : List ℕ) → SourceFetchError

-- An entry of a directory: with its name, and for a file its mode and what reading it returns.
-- `unreadable` is an entry whose type or metadata cannot be read, `broken` the failure of reading
-- the directory itself at this place.
mutual
  pub data Node : Type 0 where
    dir : (name : List ℕ) → Nodes → Node
    file : (name : List ℕ) (mode : ℕ) (content : Option (List ℕ)) → Node
    symlink unreadable : Node

  pub data Nodes : Type 0 where
    nil broken : Nodes
    cons : Node → Nodes → Nodes

abbrev pub is_excluded : List (List ℕ) → List ℕ → Bool
is_excluded [] name = false
is_excluded (e ∷ exclude_dirs) name = e == name || is_excluded exclude_dirs name

-- `perms & 0o111 != 0`
abbrev pub is_executable : ℕ → Bool
is_executable mode = nat_beq (mode % 2) 1 || nat_beq (mode / 8 % 2) 1 || nat_beq (mode / 64 % 2) 1

-- `0o100_755` and `0o100_644`
unfoldable pub canonical_mode : ℕ → ℕ
canonical_mode mode = if is_executable mode then 33261 else 33188

-- The path, the mode and the hash of a file.
pub record Row : Type 0 where
  pub path : List ℕ
  pub mode : ℕ
  pub blob_sha : List ℕ

-- `path_to_unix` of the directory's path with one more name.
abbrev pub under : List ℕ → List ℕ → List ℕ
under prefix name = if is_empty prefix then name else prefix ++ (47 ∷ name)

module _ (sha256 : List ℕ → List ℕ) (exclude_dirs : List (List ℕ)) where
  -- The argument is the path of the directory from the root.
  unfoldable mutual
    pub walk : List ℕ → Nodes → Result (List Row) (Unit {0})
    walk prefix nil = ok []
    walk prefix broken = err tt
    walk prefix (cons node nodes) = do
      here ← walk_node prefix node
      rest ← walk prefix nodes
      ok (here ++ rest)

    pub walk_node : List ℕ → Node → Result (List Row) (Unit {0})
    walk_node prefix (dir name nodes) =
        let rows = walk (under prefix name) nodes in
        if is_excluded exclude_dirs name then ok [] else rows
    walk_node prefix (file name mode none) = err tt
    walk_node prefix (file name mode (some content)) = ok (
        record { path = under prefix name; mode = canonical_mode mode; blob_sha = sha256 content }
        ∷ [])
    walk_node prefix symlink = ok []
    walk_node prefix unreadable = err tt

abbrev pub path_leb : Row → Row → Bool
path_leb a b = bytes_leb a.path b.path

-- What the hasher is fed for the sorted rows.
unfoldable pub listing : List Row → List ℕ
listing [] = []
listing (row ∷ rows) =
    to_le_bytes 8 (length row.path)
    ++ (row.path ++ (to_le_bytes 4 row.mode ++ (row.blob_sha ++ listing rows)))

module _ (sha256 : List ℕ → List ℕ) where
  unfoldable pub hash_working_tree : Nodes → List (List ℕ) → Result (List ℕ) (Unit {0})
  hash_working_tree root exclude_dirs = do
    entries ← walk sha256 exclude_dirs [] root
    ok (sha256 (listing (sort path_leb entries)))

  unfoldable pub output_hash : SourceFetchOutput → List ℕ
  output_hash out =
      sha256 (to_le_bytes 8 (length out.resolved_sha) ++ (out.resolved_sha ++ out.tree_hash))

pub data GitInvocationError : Type 0 where
  not_found io : GitInvocationError
  non_zero : (stderr : List ℕ) → GitInvocationError

-- `Command::output` of git: it is not there, cannot be run, or ends with a code and its pipes.
pub data GitRun : Type 0 where
  no_git failed_to_run : GitRun
  ran : (is_success : Bool) (stdout stderr : List ℕ) → GitRun

unfoldable pub run_git : GitRun → Result (List ℕ) GitInvocationError
run_git no_git = err not_found
run_git failed_to_run = err io
run_git (ran true stdout stderr) = ok stdout
run_git (ran false stdout stderr) = err (non_zero stderr)

unfoldable pub classify :
    {A : Type 0}
    → (List ℕ → SourceFetchError)
    → Result A GitInvocationError
    → Result A SourceFetchError
classify nonzero (ok a) = ok a
classify nonzero (err not_found) = err git_not_found
classify nonzero (err io) = err io_error
classify nonzero (err (non_zero s)) = err (nonzero s)

-- A fetch as it is observed: the directory for it, what the three commands do, and the checkout.
pub record Fetch : Type 0 where
  pub has_tempdir : Bool
  pub clone : GitRun
  pub checkout : GitRun
  pub rev_parse : GitRun
  pub workdir : Nodes

module _ (sha256 : List ℕ → List ℕ) where
  unfoldable pub execute_source_fetch : Fetch → Result SourceFetchOutput SourceFetchError
  execute_source_fetch f = do
    _ ← if f.has_tempdir then ok (tt {0}) else err io_error
    _ ← classify clone_failed (run_git f.clone)
    _ ← classify checkout_failed (run_git f.checkout)
    head ← classify resolve_failed (run_git f.rev_parse)
    elim (hash_working_tree sha256 f.workdir (codes ".git" ∷ [])) [
      | err _ ↦ err io_error
      | ok tree_hash ↦ ok record { resolved_sha = trim head; tree_hash = tree_hash }
    ]
