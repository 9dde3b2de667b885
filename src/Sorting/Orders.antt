-- ===== src/Sorting/Orders.antt =====
-- A sort does not depend on the order that it is given, where ties are equal.
use cosaci.Prelude.{◌≡◌, refl, ap, sym, ◌∙◌, inl, inr, Bool, true, false, List, [], ◌∷◌, arith, Has}
use mathlib.Core.Logic.{∥∥₁_elim}
use mathlib.Core.List.{Perm, Permᴰ}
use mathlib.Core.List.Permᴰ.{nil, cons, swap, trans}
use cosaci.Sorting.{insert, sort}

module _ {ℓ} {A : Type ℓ} (before : A → A → Bool)
    (total : (a b : A) → before a b ≡ false → before b a ≡ true)
    (transitive : (a b c : A) → before a b ≡ true → before b c ≡ true → before a c ≡ true) where
  -- Elements that stand before each other are equal.
  abbrev pub AreStrict : List A → Type ℓ
  AreStrict xs = (a b : A) → Has a xs → Has b xs → before a b ≡ true → before b a ≡ true → a ≡ b

  insert_swap :
      (a b : A) (xs : List A)
      → (before a b ≡ true → before b a ≡ true → a ≡ b)
      → insert before a (insert before b xs) ≡ insert before b (insert before a xs)
  unfolding insert
  insert_swap a b [] tie = ground (arith, total a b, total b a)
  insert_swap a b (c ∷ xs) tie = ground (
    arith,
    total a b,
    total b a,
    total a c,
    total b c,
    transitive a b c,
    transitive b a c,
    transitive a c b,
    transitive b c a,
    insert_swap a b xs tie,
  )

  Has-Permᴰ : {xs ys : List A} (a : A) → Permᴰ xs ys → Has a ys → Has a xs
  Has-Permᴰ a nil h = h
  Has-Permᴰ a (cons e d) (inl h) = inl (h ∙ sym e)
  Has-Permᴰ a (cons e d) (inr h) = inr (Has-Permᴰ a d h)
  Has-Permᴰ a (swap e f) (inl h) = inr (inl (h ∙ sym f))
  Has-Permᴰ a (swap e f) (inr (inl h)) = inl (h ∙ sym e)
  Has-Permᴰ a (swap e f) (inr (inr h)) = inr (inr h)
  Has-Permᴰ a (trans d d') h = Has-Permᴰ a d (Has-Permᴰ a d' h)

  sort-Permᴰ : {xs ys : List A} → AreStrict xs → Permᴰ xs ys → sort before xs ≡ sort before ys
  unfolding sort
  sort-Permᴰ s nil = refl
  sort-Permᴰ s (cons {a} {b} {l₁} {l₂} e d) =
      ap (insert before a) (sort-Permᴰ (λ c c' h h'. s c c' (inr h) (inr h')) d)
      ∙ ap (λ c. insert before c (sort before l₂)) e
  sort-Permᴰ s (swap {a} {b} {a'} {b'} {l} e f) =
      insert_swap a b (sort before l) (s a b (inl refl) (inr (inl refl)))
      ∙ ap (λ c. insert before c (insert before a (sort before l))) f
      ∙ ap (λ c. insert before a' (insert before c (sort before l))) e
  sort-Permᴰ s (trans d d') =
      sort-Permᴰ s d ∙ sort-Permᴰ (λ a b h h'. s a b (Has-Permᴰ a d h) (Has-Permᴰ b d h')) d'

  -- Two orders of the same elements are sorted alike.
  pub sort-Perm :
      {xs ys : List A}
      → IsSet (List A)
      → AreStrict xs
      → Perm xs ys
      → sort before xs ≡ sort before ys
  sort-Perm {xs} {ys} set s p = ∥∥₁_elim p (set (sort before xs) (sort before ys)) (sort-Permᴰ s)
