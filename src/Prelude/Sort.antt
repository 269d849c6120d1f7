-- ===== src/Prelude/Sort.antt =====
-- Insertion sort by a number, and sums of weights, which no order changes.
use wanctl.Prelude.{
  zero, suc, All, All-map, All-drop, take, drop, ℕ, ◌+◌, ◌≤◌, ◌≡◌, refl, arith, Bool, List, [], ◌∷◌,
  ltb, if◌then◌else◌, length, filter, Bool-cases, inl, inr, ap, ◌∙◌,
}

module _ {A : Type 0} where
  unfoldable pub insert_by : (A → ℕ) → A → List A → List A
  insert_by key x [] = x ∷ []
  insert_by key x (y ∷ ys) =
      let later = insert_by key x ys in if ltb (key y) (key x) then y ∷ later else x ∷ y ∷ ys

  unfoldable pub sort_by : (A → ℕ) → List A → List A
  unfolding insert_by
  sort_by key [] = []
  sort_by key (x ∷ xs) = insert_by key x (sort_by key xs)

  unfoldable pub weigh : (A → ℕ) → List A → ℕ
  weigh w [] = 0
  weigh w (x ∷ xs) = w x + weigh w xs

  weigh-insert_by :
      (w key : A → ℕ) (x : A) (ys : List A) → weigh w (insert_by key x ys) ≡ w x + weigh w ys
  unfolding weigh insert_by
  weigh-insert_by w key x [] = refl
  weigh-insert_by w key x (y ∷ ys) = elim (Bool-cases (ltb (key y) (key x))) [
    | inl e ↦ rw e (omega (arith, weigh-insert_by w key x ys))
    | inr e ↦ rw e refl
  ]

  pub weigh-sort_by : (w key : A → ℕ) (xs : List A) → weigh w (sort_by key xs) ≡ weigh w xs
  unfolding weigh sort_by
  weigh-sort_by w key [] = refl
  weigh-sort_by w key (x ∷ xs) =
      weigh-insert_by w key x (sort_by key xs) ∙ ap (λ n. w x + n) (weigh-sort_by w key xs)

  pub weigh-filter :
      (w : A → ℕ) (p : A → Bool) (xs : List A)
      → weigh w (filter p xs) ≡ weigh (λ x. if p x then w x else 0) xs
  unfolding weigh filter
  weigh-filter w p [] = refl
  weigh-filter w p (x ∷ xs) = elim (Bool-cases (p x)) [
    | inl e ↦ rw e (ap (λ n. w x + n) (weigh-filter w p xs))
    | inr e ↦ rw e (weigh-filter w p xs ∙ omega arith)
  ]

  pub weigh_mono : (v w : A → ℕ) (xs : List A) → ((x : A) → v x ≤ w x) → weigh v xs ≤ weigh w xs
  unfolding weigh
  weigh_mono v w [] h = omega arith
  weigh_mono v w (x ∷ xs) h = omega (arith, h x, weigh_mono v w xs h)

  pub weigh-one : (xs : List A) → weigh (λ x. 1) xs ≡ length xs
  unfolding weigh
  weigh-one [] = refl
  weigh-one (x ∷ xs) = omega (arith, weigh-one xs)

  -- Every later key is at least as large.
  abbrev pub Sorted : (A → ℕ) → List A → Type 0
  Sorted key [] = Unit
  Sorted key (x ∷ xs) = All (λ y. key x ≤ key y) xs × Sorted key xs

  All-insert_by {κ} :
      (P : A → Type κ) (key : A → ℕ) (x : A) (ys : List A)
      → P x
      → All P ys
      → All P (insert_by key x ys)
  unfolding insert_by
  All-insert_by P key x [] p h = (p, tt)
  All-insert_by P key x (y ∷ ys) p h = elim (Bool-cases (ltb (key y) (key x))) [
    | inl e ↦ rw e (h.0, All-insert_by P key x ys p h.1)
    | inr e ↦ rw e (p, (h.0, h.1))
  ]

  pub All-sort_by {κ} :
      (P : A → Type κ) (key : A → ℕ) (xs : List A) → All P xs → All P (sort_by key xs)
  unfolding sort_by
  All-sort_by P key [] h = tt
  All-sort_by P key (x ∷ xs) h =
      All-insert_by P key x (sort_by key xs) h.0 (All-sort_by P key xs h.1)

  insert_by-Sorted :
      (key : A → ℕ) (x : A) (ys : List A) → Sorted key ys → Sorted key (insert_by key x ys)
  unfolding insert_by
  insert_by-Sorted key x [] h = (tt, tt)
  insert_by-Sorted key x (y ∷ ys) h = elim (Bool-cases (ltb (key y) (key x))) [
    | inl e ↦ rw e (
      All-insert_by (λ z. key y ≤ key z) key x ys (ground (arith, e)) h.0,
      insert_by-Sorted key x ys h.1,
    )
    | inr e ↦
        let l : key x ≤ key y = ground (arith, e) in
        rw e (
          (
            l,
            All-map (λ z. key y ≤ key z) (λ z. key x ≤ key z) (λ z m. omega (arith, l, m)) ys h.0,
          ),
          (h.0, h.1),
        )
  ]

  pub sort_by-Sorted : (key : A → ℕ) (xs : List A) → Sorted key (sort_by key xs)
  unfolding sort_by
  sort_by-Sorted key [] = tt
  sort_by-Sorted key (x ∷ xs) = insert_by-Sorted key x (sort_by key xs) (sort_by-Sorted key xs)

  -- What comes first has no larger key than what comes after it.
  pub take-drop-Sorted :
      (key : A → ℕ) (n : ℕ) (xs : List A)
      → Sorted key xs
      → All (λ x. All (λ y. key x ≤ key y) (drop n xs)) (take n xs)
  take-drop-Sorted key zero xs h = tt
  take-drop-Sorted key (suc n) [] h = tt
  take-drop-Sorted key (suc n) (x ∷ xs) h =
      (All-drop (λ y. key x ≤ key y) n xs h.0, take-drop-Sorted key n xs h.1)
