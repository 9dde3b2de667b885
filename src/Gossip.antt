-- ===== src/Gossip.antt =====
-- crates/cosaci-core/src/gossip.rs: a last-writer-wins register for each key, and the merge of two
-- nodes.
pub mod Lattice
pub mod Convergence
mod Examples
use cosaci.Prelude.{
  ℕ, Bool, true, false, not, Option, none, some, List, [], ◌∷◌, ltb, leb, nat_beq, if◌then◌else◌,
  nat_key,
}
use cosaci.Map.{Map, get as lookup, insert, len}

pub record Entry : Type 0 where
  pub value : ℕ
  pub timestamp : ℕ

pub record NodeState : Type 0 where
  pub entries : Map ℕ Entry

unfoldable pub new : NodeState
new = record { entries = [] }

abbrev pub entry_dominates : Entry → Entry → Bool
entry_dominates a b =
    if nat_beq a.timestamp b.timestamp then leb b.value a.value else ltb b.timestamp a.timestamp

-- Does `write` keep what it finds?
abbrev pub keep_existing : Option Entry → Entry → Bool
keep_existing none incoming = false
keep_existing (some existing) incoming = entry_dominates existing incoming

unfoldable pub write : ℕ → ℕ → ℕ → NodeState → NodeState
write key value timestamp s =
    let incoming : Entry = record { value = value; timestamp = timestamp } in
    if not (keep_existing (lookup key s.entries) incoming)
    then record s { entries = insert key incoming s.entries }
    else s

unfoldable pub get : ℕ → NodeState → Option Entry
get key s = lookup key s.entries

unfoldable pub node_len : NodeState → ℕ
node_len s = len s.entries

-- The `winner` of an entry of the other node.
abbrev pub winner : Option Entry → Entry → Entry
winner none entry_b = entry_b
winner (some entry_a) entry_b = if entry_dominates entry_a entry_b then entry_a else entry_b

-- The loop of `merge`, over the entries of the other node.
unfoldable pub merge_from : Map ℕ Entry → Map ℕ Entry → Map ℕ Entry
merge_from out [] = out
merge_from out ((k, entry_b) ∷ rest) =
    merge_from (insert k (winner (lookup k out) entry_b) out) rest

unfoldable pub merge : NodeState → NodeState → NodeState
merge a b = record a { entries = merge_from a.entries b.entries }
