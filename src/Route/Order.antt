-- ===== src/Route/Order.antt =====
-- The order of the routes, and what sort.Slice is relied on for: a permutation that is in order, if
-- the function it is given is one that orders.
use go_load_balancer.Prelude.{
  ℕ, zero, suc, ◌≡◌, refl, sym, ap, ◌∙◌, Bool, true, false, some, List, [], ◌∷◌, arith, All,
  get_elem?, Bool-cases, inl, inr, if◌then◌else◌,
}
use go_load_balancer.Route.{before}

module _ {ℓ} {A : Type ℓ} where
  -- The second list holds the elements of the first, in some order.
  pub data Reorders : List A → List A → Type ℓ where
    nil : Reorders [] []
    cons : {a b : A} {l₁ l₂ : List A} → a ≡ b → Reorders l₁ l₂ → Reorders (a ∷ l₁) (b ∷ l₂)
    swap : {a b c d : A} {l : List A} → a ≡ d → b ≡ c → Reorders (a ∷ b ∷ l) (c ∷ d ∷ l)
    chain : {l₁ l₂ l₃ : List A} → Reorders l₁ l₂ → Reorders l₂ l₃ → Reorders l₁ l₃

  Reorders-refl : (l : List A) → Reorders l l
  Reorders-refl [] = nil
  Reorders-refl (x ∷ l) = cons refl (Reorders-refl l)

  pub Reorders-sym : {l₁ l₂ : List A} → Reorders l₁ l₂ → Reorders l₂ l₁
  Reorders-sym nil = nil
  Reorders-sym (cons e d) = cons (sym e) (Reorders-sym d)
  Reorders-sym (swap e f) = swap (sym f) (sym e)
  Reorders-sym (chain d e) = chain (Reorders-sym e) (Reorders-sym d)

  -- A strict weak order, as a Boolean test.
  pub record IsOrder (lt : A → A → Bool) : Type ℓ where
    pub irrefl : (a : A) → lt a a ≡ false
    pub trans : (a b c : A) → lt a b ≡ true → lt b c ≡ true → lt a c ≡ true
    pub cotrans : (a b c : A) → lt a b ≡ false → lt b c ≡ false → lt a c ≡ false

  -- No element is before one that stands ahead of it.
  abbrev pub Sorted : (A → A → Bool) → List A → Type ℓ
  Sorted lt [] = Unit
  Sorted lt (x ∷ xs) = All (λ y. lt y x ≡ false) xs × Sorted lt xs

  -- The documented behaviour of sort.Slice.
  pub record IsSort (sort : (A → A → Bool) → List A → List A) : Type ℓ where
    pub sorts :
        (lt : A → A → Bool)
        → IsOrder lt
        → (xs : List A) → Reorders xs (sort lt xs) × Sorted lt (sort lt xs)

  -- An element of a list is one of its permutations.
  pub Reorders-get_elem? :
      {xs ys : List A}
      → Reorders xs ys
      → (i : ℕ) (a : A) → get_elem? xs i ≡ some a
      → (j : ℕ) × (get_elem? ys j ≡ some a)
  Reorders-get_elem? nil i a h = absurd (cc h)
  Reorders-get_elem? (cons e d) zero a h = (0, ap some (sym e) ∙ h)
  Reorders-get_elem? (cons e d) (suc i) a h =
      let (j, there) = Reorders-get_elem? d i a h in (suc j, there)
  Reorders-get_elem? (swap e f) zero a h = (1, ap some (sym e) ∙ h)
  Reorders-get_elem? (swap e f) (suc zero) a h = (0, ap some (sym f) ∙ h)
  Reorders-get_elem? (swap e f) (suc (suc i)) a h = (suc (suc i), h)
  Reorders-get_elem? (chain d e) i a h =
      let (j, there) = Reorders-get_elem? d i a h in Reorders-get_elem? e j a there

  -- An insertion sort, which shows that there is such a function.
  abbrev insert : (A → A → Bool) → A → List A → List A
  insert lt x [] = x ∷ []
  insert lt x (y ∷ ys) = let rest = insert lt x ys in if lt y x then y ∷ rest else x ∷ y ∷ ys

  abbrev pub insertion_sort : (A → A → Bool) → List A → List A
  insertion_sort lt [] = []
  insertion_sort lt (x ∷ xs) = insert lt x (insertion_sort lt xs)

  insert-Reorders : (lt : A → A → Bool) (x : A) (xs : List A) → Reorders (x ∷ xs) (insert lt x xs)
  insert-Reorders lt x [] = Reorders-refl (x ∷ [])
  insert-Reorders lt x (y ∷ ys) = elim (Bool-cases (lt y x)) [
    | inl before ↦ rw before (chain (swap refl refl) (cons refl (insert-Reorders lt x ys)))
    | inr behind ↦ rw behind (Reorders-refl (x ∷ y ∷ ys))
  ]

  All-insert {κ} :
      (lt : A → A → Bool) (P : A → Type κ) (x : A) (xs : List A)
      → P x
      → All P xs
      → All P (insert lt x xs)
  All-insert lt P x [] p h = (p, tt)
  All-insert lt P x (y ∷ ys) p h = elim (Bool-cases (lt y x)) [
    | inl before ↦ rw before (h.0, All-insert lt P x ys p h.1)
    | inr behind ↦ rw behind (p, h)
  ]

  module _ (lt : A → A → Bool) (o : IsOrder lt) where
    behind-All :
        (x y : A) (ys : List A)
        → lt y x ≡ false
        → All (λ z. lt z y ≡ false) ys
        → All (λ z. lt z x ≡ false) ys
    behind-All x y [] h k = tt
    behind-All x y (z ∷ ys) h k = (o.cotrans z y x k.0 h, behind-All x y ys h k.1)

    asym : (x y : A) → lt y x ≡ true → lt x y ≡ false
    asym x y h = elim (Bool-cases (lt x y)) [
      | inl both ↦ absurd (cc (o.irrefl x, o.trans x y x both h))
      | inr only ↦ only
    ]

    insert-Sorted : (x : A) (xs : List A) → Sorted lt xs → Sorted lt (insert lt x xs)
    insert-Sorted x [] s = (tt, tt)
    insert-Sorted x (y ∷ ys) s = elim (Bool-cases (lt y x)) [
      | inl before ↦
          rw before
            (All-insert lt (λ z. lt z y ≡ false) x ys (asym x y before) s.0, insert-Sorted x ys s.1)
      | inr behind ↦ rw behind ((behind, behind-All x y ys behind s.0), s)
    ]

    insertion_sort-Sorted : (xs : List A) → Sorted lt (insertion_sort lt xs)
    insertion_sort-Sorted [] = tt
    insertion_sort-Sorted (x ∷ xs) = insert-Sorted x _ (insertion_sort-Sorted xs)

  insertion_sort-Reorders : (lt : A → A → Bool) (xs : List A) → Reorders xs (insertion_sort lt xs)
  insertion_sort-Reorders lt [] = nil
  insertion_sort-Reorders lt (x ∷ xs) =
      chain (cons refl (insertion_sort-Reorders lt xs))
        (insert-Reorders lt x (insertion_sort lt xs))

  pub insertion_sort-IsSort : IsSort insertion_sort
  insertion_sort-IsSort = record {
    sorts = λ lt o xs. (insertion_sort-Reorders lt xs, insertion_sort-Sorted lt o xs);
  }

-- The function that compares two routes is a strict weak order, which sort.Slice requires of it.
pub before-IsOrder : IsOrder before
unfolding before
before-IsOrder = record {
  irrefl = λ a. ground arith;
  trans = λ a b c h k. ground arith;
  cotrans = λ a b c h k. ground arith;
}
