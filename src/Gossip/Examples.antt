-- ===== src/Gossip/Examples.antt =====
-- Runs of gossip, and the theorems at concrete inputs.
use cosaci.Prelude.{◌≡◌, refl, some, inl, inr, nat_key}
use cosaci.Map.{get as lookup, insert}
use cosaci.Gossip.{NodeState, new, write, get, merge, merge_from}
use cosaci.Gossip.Lattice.{Agree}
use cosaci.Gossip.Convergence.{Write, starts, writes, merges, convergence}

abbrev first : Write
first = record { key = 1; value = 10; timestamp = 5 }

abbrev second : Write
second = record { key = 1; value = 20; timestamp = 6 }

abbrev left : NodeState
left = write 1 10 5 new

abbrev right : NodeState
right = write 1 20 6 new

later_wins : get 1 (merge right left) ≡ some (record { value = 20; timestamp = 6 })
unfolding write new get merge merge_from lookup insert
later_wins = refl

tie_takes_larger : get 1 (write 1 7 5 left) ≡ some (record { value = 10; timestamp = 5 })
unfolding write new get lookup insert
tie_takes_larger = refl

-- A node that hears of the first write twice agrees with one that makes both.
convergence_example : Agree (merge left (merge right left)) (write 1 20 6 left)
convergence_example =
    convergence (merges (writes first starts) (merges (writes second starts) (writes first starts)))
      (writes second (writes first starts))
      λ w. (
        λ has. elim has [
          | inl e ↦ inr (inl e)
          | inr rest ↦ elim rest [ inl e ↦ inl e | inr last ↦ inr last ]
        ],
        λ has. elim has [ inl e ↦ inr (inl e) | inr last ↦ inr (inr last) ],
      )
