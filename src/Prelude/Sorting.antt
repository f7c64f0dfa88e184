-- ===== src/Prelude/Sorting.antt =====
-- `Array.prototype.sort`, which is stable: `le x y` says that the comparator of `x` and `y` is not
-- positive.
use mathlib.Core.List.Perm
use mathlib.Core.List.{Perm}
use motis.Prelude.{
  ◌≡◌, refl, Bool, true, false, List, [], ◌∷◌, arith, if◌then◌else◌, All, keep, ap, ◌∙◌, inl, inr,
  Bool-cases,
}

module _ {ℓ} {A : Type ℓ} (le : A → A → Bool) where
  pub insert_by : A → List A → List A
  insert_by x [] = x ∷ []
  insert_by x (y ∷ ys) = if le x y then x ∷ y ∷ ys else y ∷ insert_by x ys

  unfoldable pub sort_by : List A → List A
  unfolding insert_by
  sort_by [] = []
  sort_by (x ∷ xs) = insert_by x (sort_by xs)

  abbrev pub IsSorted : List A → Type ℓ
  IsSorted [] = Unit
  IsSorted (x ∷ xs) = All (λ y. le x y ≡ true) xs × IsSorted xs

  insert_by-perm : (x : A) (ys : List A) → Perm (insert_by x ys) (x ∷ ys)
  unfolding insert_by
  insert_by-perm x [] = Perm.refl (x ∷ [])
  insert_by-perm x (y ∷ ys) = elim (Bool-cases (le x y)) [
    | inl e ↦ rw e (Perm.refl (x ∷ y ∷ ys))
    | inr e ↦ rw e (Perm.trans (Perm.cons y (insert_by-perm x ys)) (Perm.swap x y ys))
  ]

  pub sort_by-perm : (xs : List A) → Perm (sort_by xs) xs
  unfolding sort_by
  sort_by-perm [] = Perm.refl []
  sort_by-perm (x ∷ xs) = Perm.trans (insert_by-perm x (sort_by xs)) (Perm.cons x (sort_by-perm xs))

  All-insert_by {κ} :
      (P : A → Type κ) (x : A) (ys : List A) → P x → All P ys → All P (insert_by x ys)
  unfolding insert_by
  All-insert_by P x [] p a = (p, tt)
  All-insert_by P x (y ∷ ys) p (q, a) = elim (Bool-cases (le x y)) [
    | inl e ↦ rw e (p, (q, a))
    | inr e ↦ rw e (q, All-insert_by P x ys p a)
  ]

  pub All-sort_by {κ} : (P : A → Type κ) (xs : List A) → All P xs → All P (sort_by xs)
  unfolding sort_by
  All-sort_by P [] a = tt
  All-sort_by P (x ∷ xs) (p, a) = All-insert_by P x (sort_by xs) p (All-sort_by P xs a)

  module _ (total : (x y : A) → le x y ≡ false → le y x ≡ true)
      (trans : (x y z : A) → le x y ≡ true → le y z ≡ true → le x z ≡ true) where
    All-le :
        (x y : A) (ys : List A)
        → le x y ≡ true
        → All (λ z. le y z ≡ true) ys
        → All (λ z. le x z ≡ true) ys
    All-le x y [] h a = tt
    All-le x y (z ∷ zs) h (q, a) = (trans x y z h q, All-le x y zs h a)

    insert_by-IsSorted : (x : A) (ys : List A) → IsSorted ys → IsSorted (insert_by x ys)
    unfolding insert_by
    insert_by-IsSorted x [] s = (tt, tt)
    insert_by-IsSorted x (y ∷ ys) (a, s) = elim (Bool-cases (le x y)) [
      | inl e ↦ rw e ((e, All-le x y ys e a), (a, s))
      | inr e ↦
          rw e (All-insert_by (λ z. le y z ≡ true) x ys (total x y e) a, insert_by-IsSorted x ys s)
    ]

    pub sort_by-IsSorted : (xs : List A) → IsSorted (sort_by xs)
    unfolding sort_by
    sort_by-IsSorted [] = tt
    sort_by-IsSorted (x ∷ xs) = insert_by-IsSorted x (sort_by xs) (sort_by-IsSorted xs)

  -- Elements that the comparator does not tell apart keep their order.
  module _ (p : A → Bool) (Q : A → Type ℓ)
      (equal : (x y : A) → Q x → Q y → p x ≡ true → p y ≡ true → le x y ≡ true) where
    keep-insert_by :
        (x : A) (ys : List A) → Q x → All Q ys → keep p (insert_by x ys) ≡ keep p (x ∷ ys)
    unfolding insert_by
    keep-insert_by x [] q a = refl
    keep-insert_by x (y ∷ ys) q (r, a) = ground (arith, equal x y q r, keep-insert_by x ys q a)

    pub keep-sort_by : (xs : List A) → All Q xs → keep p (sort_by xs) ≡ keep p xs
    unfolding sort_by
    keep-sort_by [] a = refl
    keep-sort_by (x ∷ xs) (q, a) =
        keep-insert_by x (sort_by xs) q (All-sort_by Q xs a)
        ∙ ap (λ r. if p x then x ∷ r else r) (keep-sort_by xs a)

  -- The first element after the sort is below all others in a coarser order `R`.
  module _ {κ} (R : A → A → Type κ) (R-refl : (x : A) → R x x)
      (R-trans : (x y z : A) → R x y → R y z → R x z) (below : (x y : A) → le x y ≡ true → R x y)
      (above : (x y : A) → le x y ≡ false → R y x) where
    All-trans : (x b : A) (ys : List A) → R x b → All (R b) ys → All (R x) ys
    All-trans x b [] h a = tt
    All-trans x b (y ∷ ys) h (q, a) = (R-trans x b y h q, All-trans x b ys h a)

    pub sort_by-first :
        (x : A) (xs : List A)
        → (best : A) × (rest : List A) × (sort_by (x ∷ xs) ≡ best ∷ rest) × All (R best) (x ∷ xs)
    unfolding sort_by insert_by
    sort_by-first x [] = (x, [], refl, (R-refl x, tt))
    sort_by-first x (y ∷ ys) =
        let (b, rest, e, (by, all)) = sort_by-first y ys in
        elim (Bool-cases (le x b)) [
          | inl h ↦
              (x, b ∷ rest, rw (e, h), (R-refl x, All-trans x b (y ∷ ys) (below x b h) (by, all)))
          | inr h ↦ (b, insert_by x rest, rw (e, h), (above x b h, (by, all)))
        ]
