-- ===== src/Jobs/SourceFetch/Order.antt =====
-- The order in which the file system lists a directory does not matter.
use cosaci.Prelude.{
  ℕ, ◌≡◌, refl, ap, sym, ◌∙◌, subst, true, false, List, [], ◌++◌, append_assoc, arith, Has, Result,
  ok, Result-cases, Bool-cases, inl, inr,
}
use mathlib.Core.List.{Perm, perm_append_comm}
use mathlib.Core.List.Perm
use cosaci.Capabilities.Sorting.{bytes_leb_total, bytes_leb_trans, bytes_leb_antisym}
use cosaci.Sorting.{sort}
use cosaci.Sorting.Orders.{sort-Perm}
use cosaci.Jobs.SourceFetch.{
  under, Row, Node, Nodes, dir, cons, is_excluded, walk, walk_node, path_leb, hash_working_tree,
}

-- One directory lists what the other lists, in another order, and so do the directories inside.
pub data Shuffled : Nodes → Nodes → Type 0 where
  same : {ns : Nodes} → Shuffled ns ns
  swapped : {a b : Node} {ns : Nodes} → Shuffled (cons a (cons b ns)) (cons b (cons a ns))
  after : {a : Node} {ns ms : Nodes} → Shuffled ns ms → Shuffled (cons a ns) (cons a ms)
  inside :
      {name : List ℕ} {ns ms rest : Nodes}
      → Shuffled ns ms
      → Shuffled (cons (dir name ns) rest) (cons (dir name ms) rest)
  chained : {ns ms ks : Nodes} → Shuffled ns ms → Shuffled ms ks → Shuffled ns ks

-- No two rows of the list have one path.
abbrev pub HavePaths : List Row → Type 0
HavePaths rows = (a b : Row) → Has a rows → Has b rows → a.path ≡ b.path → a ≡ b

sort_path-Perm :
    {rows others : List Row}
    → HavePaths rows
    → Perm rows others
    → sort path_leb rows ≡ sort path_leb others
sort_path-Perm h =
    sort-Perm path_leb (λ a b. bytes_leb_total a.path b.path)
      (λ a b c. bytes_leb_trans a.path b.path c.path) (hlevel)
      (λ a b x y p q. h a b x y (bytes_leb_antisym a.path b.path p q))

ok_injective :
    {a b : List Row} {r s : Result (List Row) (Unit {0})} → r ≡ ok a → s ≡ ok b → r ≡ s → a ≡ b
ok_injective p q e = ground arith

module _ (sha256 : List ℕ → List ℕ) (exclude_dirs : List (List ℕ)) where
  walk_cons :
      (prefix : List ℕ) (node : Node) (nodes : Nodes) (rows : List Row)
      → walk sha256 exclude_dirs prefix (cons node nodes) ≡ ok rows
      → (here rest : List Row) × (walk_node sha256 exclude_dirs prefix node ≡ ok here)
        × (walk sha256 exclude_dirs prefix nodes ≡ ok rest)
        × (here ++ rest ≡ rows)
  unfolding walk
  walk_cons prefix node nodes rows e =
      elim (Result-cases (walk_node sha256 exclude_dirs prefix node)) [
        | inr (_, h) ↦ absurd (ground arith)
        | inl (here, h) ↦ elim (Result-cases (walk sha256 exclude_dirs prefix nodes)) [
          | inr (_, r) ↦ absurd (ground arith)
          | inl (rest, r) ↦ (here, rest, h, r, (ground arith))
        ]
      ]

  walk_both :
      (prefix : List ℕ) (node : Node) (nodes : Nodes) (here rest : List Row)
      → walk_node sha256 exclude_dirs prefix node ≡ ok here
      → walk sha256 exclude_dirs prefix nodes ≡ ok rest
      → walk sha256 exclude_dirs prefix (cons node nodes) ≡ ok (here ++ rest)
  unfolding walk
  walk_both prefix node nodes here rest h r = ground arith

  walk_excluded :
      (prefix name : List ℕ) (nodes : Nodes)
      → is_excluded exclude_dirs name ≡ true
      → walk_node sha256 exclude_dirs prefix (dir name nodes) ≡ ok []
  unfolding walk
  walk_excluded prefix name nodes h = rw h refl

  walk_inside :
      (prefix name : List ℕ) (nodes : Nodes)
      → is_excluded exclude_dirs name ≡ false
      → walk_node sha256 exclude_dirs prefix (dir name nodes)
        ≡ walk sha256 exclude_dirs (under prefix name) nodes
  unfolding walk
  walk_inside prefix name nodes h = rw h refl

  exchange : (xs ys zs : List Row) → Perm (xs ++ (ys ++ zs)) (ys ++ (xs ++ zs))
  exchange xs ys zs =
      subst (λ t. Perm t (ys ++ (xs ++ zs))) (append_assoc xs ys zs)
        (subst (Perm ((xs ++ ys) ++ zs)) (append_assoc ys xs zs)
          (Perm.append_right zs (perm_append_comm xs ys)))

  -- A shuffled directory has the same rows, in another order.
  pub walk-Shuffled :
      {ns ms : Nodes}
      → Shuffled ns ms
      → (prefix : List ℕ) (rows : List Row) → walk sha256 exclude_dirs prefix ns ≡ ok rows
      → (others : List Row) × (walk sha256 exclude_dirs prefix ms ≡ ok others) × Perm rows others
  walk-Shuffled same prefix rows e = (rows, e, Perm.refl rows)
  walk-Shuffled (swapped {a} {b} {ns}) prefix rows e =
      let (first, more, h, r, split) = walk_cons prefix a (cons b ns) rows e in
      let (second, rest, h', r', split') = walk_cons prefix b ns more r in
      (
        second ++ (first ++ rest),
        walk_both prefix b (cons a ns) second (first ++ rest) h'
            (walk_both prefix a ns first rest h r'),
        subst (λ t. Perm t (second ++ (first ++ rest))) (ap (λ t. first ++ t) split' ∙ split)
            (exchange first second rest),
      )
  walk-Shuffled (after {a} {ns} {ms} s) prefix rows e =
      let (here, rest, h, r, split) = walk_cons prefix a ns rows e in
      let (others, w, p) = walk-Shuffled s prefix rest r in
      (
        here ++ others,
        walk_both prefix a ms here others h w,
        subst (λ t. Perm t (here ++ others)) split (Perm.append_left here p),
      )
  walk-Shuffled (inside {name} {ns} {ms} {rest} s) prefix rows e =
      let (here, tail, h, r, split) = walk_cons prefix (dir name ns) rest rows e in
      elim (Bool-cases (is_excluded exclude_dirs name)) [
        | inl out ↦
            let nothing : [] ≡ here = ok_injective (walk_excluded prefix name ns out) h refl in
            (
              rows,
              walk_both prefix (dir name ms) rest [] tail (walk_excluded prefix name ms out) r
                  ∙ ap ok (ap (λ t. t ++ tail) nothing ∙ split),
              Perm.refl rows,
            )
        | inr within ↦
            let (others, w, p) =
              walk-Shuffled s (under prefix name) here
                (sym (walk_inside prefix name ns within) ∙ h) in
            (
              others ++ tail,
              walk_both prefix (dir name ms) rest others tail
                  (walk_inside prefix name ms within ∙ w) r,
              subst (λ t. Perm t (others ++ tail)) split (Perm.append_right tail p),
            )
      ]
  walk-Shuffled (chained s t) prefix rows e =
      let (middle, w, p) = walk-Shuffled s prefix rows e in
      let (others, w', q) = walk-Shuffled t prefix middle w in (others, w', Perm.trans p q)

-- The hash of a checkout does not depend on the order in which its directories are listed, at any
-- depth, where no two files have one path.
pub hash_working_tree-Shuffled :
    (sha256 : List ℕ → List ℕ) (exclude_dirs : List (List ℕ)) (root other : Nodes) (rows : List Row)
    → Shuffled root other
    → walk sha256 exclude_dirs [] root ≡ ok rows
    → HavePaths rows
    → hash_working_tree sha256 root exclude_dirs ≡ hash_working_tree sha256 other exclude_dirs
unfolding hash_working_tree
hash_working_tree-Shuffled sha256 exclude_dirs root other rows s e h =
    let (others, w, p) = walk-Shuffled sha256 exclude_dirs s [] rows e in
    rw (e, w, sort_path-Perm h p) refl
