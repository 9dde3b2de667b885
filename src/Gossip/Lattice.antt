-- ===== src/Gossip/Lattice.antt =====
-- The merge of two entries is a least upper bound, and the merge of two nodes is one for each key.
use cosaci.Prelude.{
  nat_beq, ℕ, ◌≡◌, refl, sym, ◌∙◌, Option, none, some, [], ◌∷◌, arith, nat_key, nat_beq_iff,
  if◌then◌else◌,
}
use cosaci.Map.{Map, get as lookup, insert, get-insert, HasDistinctKeys, insert-HasDistinctKeys}
use cosaci.Gossip.{Entry, NodeState, winner, merge_from, merge, write, get}

-- The entry that is kept of two that may be absent.
abbrev pub join : Option Entry → Option Entry → Option Entry
join a none = a
join a (some e) = some (winner a e)

pub join_comm : (a b : Option Entry) → join a b ≡ join b a
join_comm none none = refl
join_comm none (some e) = refl
join_comm (some d) none = refl
join_comm (some d) (some e) = ground arith

pub join_assoc : (a b c : Option Entry) → join a (join b c) ≡ join (join a b) c
join_assoc a b none = refl
join_assoc a none (some e) = refl
join_assoc none (some d) (some e) = ground arith
join_assoc (some c) (some d) (some e) = ground arith

pub join_idem : (a : Option Entry) → join a a ≡ a
join_idem none = refl
join_idem (some e) = ground arith

-- A node holds a key once.
abbrev pub IsValid : NodeState → Type 0
IsValid s = HasDistinctKeys s.entries

lookup-merge_from :
    (k : ℕ) (out other : Map ℕ Entry)
    → HasDistinctKeys other
    → lookup k (merge_from out other) ≡ join (lookup k out) (lookup k other)
unfolding merge_from lookup
lookup-merge_from k out [] d = refl
lookup-merge_from k out ((j, e) ∷ other) d = ground (
  arith,
  lookup-merge_from k (insert j (winner (lookup j out) e) out) other d.1,
  get-insert j k (winner (lookup j out) e) out,
  nat_beq_iff j k,
)

pub get-merge : (k : ℕ) (a b : NodeState) → IsValid b → get k (merge a b) ≡ join (get k a) (get k b)
unfolding merge get
get-merge k a b v = lookup-merge_from k a.entries b.entries v

pub get-write :
    (k key value timestamp : ℕ) (s : NodeState)
    → get k (write key value timestamp s) ≡ (
        if nat_beq key k
        then join (get k s) (some (record { value = value; timestamp = timestamp }))
        else get k s)
unfolding write get
get-write k key value timestamp s = ground (
  arith,
  get-insert key k (record { value = value; timestamp = timestamp }) s.entries,
  nat_beq_iff key k,
)

merge_from-HasDistinctKeys :
    (out other : Map ℕ Entry) → HasDistinctKeys out → HasDistinctKeys (merge_from out other)
unfolding merge_from
merge_from-HasDistinctKeys out [] d = d
merge_from-HasDistinctKeys out ((j, e) ∷ other) d =
    merge_from-HasDistinctKeys (insert j (winner (lookup j out) e) out) other
      (insert-HasDistinctKeys j (winner (lookup j out) e) out d)

pub merge-IsValid : (a b : NodeState) → IsValid a → IsValid (merge a b)
unfolding merge
merge-IsValid a b v = merge_from-HasDistinctKeys a.entries b.entries v

pub write-IsValid :
    (key value timestamp : ℕ) (s : NodeState) → IsValid s → IsValid (write key value timestamp s)
unfolding write
write-IsValid key value timestamp s v = ground (
  arith,
  insert-HasDistinctKeys key (record { value = value; timestamp = timestamp }) s.entries v,
)

-- Nodes that read alike.
abbrev pub Agree : NodeState → NodeState → Type 0
Agree s t = (k : ℕ) → get k s ≡ get k t

-- On nodes that hold each key once, `merge` is commutative, associative and idempotent, up to the
-- order of the entries.
pub merge_semilattice :
    (a b c : NodeState)
    → IsValid a
    → IsValid b
    → IsValid c
    → Agree (merge a b) (merge b a)
      × Agree (merge a (merge b c)) (merge (merge a b) c)
      × Agree (merge a a) a
merge_semilattice a b c va vb vc = (
  λ k. get-merge k a b vb ∙ join_comm (get k a) (get k b) ∙ sym (get-merge k b a va),
  λ k. ground (
    arith,
    get-merge k a (merge b c) (merge-IsValid b c vb),
    get-merge k b c vc,
    get-merge k (merge a b) c vc,
    get-merge k a b vb,
    join_assoc (get k a) (get k b) (get k c),
  ),
  λ k. get-merge k a a va ∙ join_idem (get k a),
)
