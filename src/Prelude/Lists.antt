-- ===== src/Prelude/Lists.antt =====
-- Lists measured and indexed by native numbers, under the library's names.
use Prim.Native.Nat.{ℕ, zero, suc, ◌+◌, ◌<◌, ◌≤◌}
use mathlib.Core.Path.{◌≡◌, refl, ap, subst, sym}
use mathlib.Core.Logic.{◌≢◌, ◌⊎◌, inl, inr}
use mathlib.Core.List.{List, [], ◌∷◌, ◌++◌, map}
use mathlib.Core.Option.{Option, none, some, some-injective}
use native.Mathlib.Omega.{arith}

-- A predicate at every entry, by recursion.
abbrev pub All {ℓ κ} : {A : Type ℓ} → (A → Type κ) → List A → Type κ
All P [] = Unit
All P (x ∷ xs) = P x × All P xs

module _ {ℓ} {A : Type ℓ} where
  abbrev pub length : List A → ℕ
  length [] = 0
  length (x ∷ xs) = suc (length xs)

  abbrev pub get_elem? : List A → ℕ → Option A
  get_elem? [] i = none
  get_elem? (x ∷ xs) zero = some x
  get_elem? (x ∷ xs) (suc i) = get_elem? xs i

  -- A write out of bounds changes nothing.
  abbrev pub modify : List A → ℕ → (A → A) → List A
  modify [] i f = []
  modify (x ∷ xs) zero f = f x ∷ xs
  modify (x ∷ xs) (suc i) f = x ∷ modify xs i f

  abbrev pub take : ℕ → List A → List A
  take zero xs = []
  take (suc n) [] = []
  take (suc n) (x ∷ xs) = x ∷ take n xs

  abbrev pub drop : ℕ → List A → List A
  drop zero xs = xs
  drop (suc n) [] = []
  drop (suc n) (x ∷ xs) = drop n xs

  pub length-append : (xs ys : List A) → length (xs ++ ys) ≡ length xs + length ys
  length-append [] ys = omega arith
  length-append (x ∷ xs) ys = omega (arith, length-append xs ys)

  pub get_elem?-lt : (xs : List A) (i : ℕ) {a : A} → get_elem? xs i ≡ some a → i < length xs
  get_elem?-lt [] i h = ground arith
  get_elem?-lt (x ∷ xs) zero h = omega arith
  get_elem?-lt (x ∷ xs) (suc i) h = omega (arith, get_elem?-lt xs i h)

  pub lt-get_elem? : (xs : List A) (i : ℕ) → i < length xs → (a : A) × (get_elem? xs i ≡ some a)
  lt-get_elem? [] i h = absurd (omega arith)
  lt-get_elem? (x ∷ xs) zero h = (x, refl)
  lt-get_elem? (x ∷ xs) (suc i) h = lt-get_elem? xs i (omega arith)

  pub length-modify : (xs : List A) (i : ℕ) (f : A → A) → length (modify xs i f) ≡ length xs
  length-modify [] i f = refl
  length-modify (x ∷ xs) zero f = refl
  length-modify (x ∷ xs) (suc i) f = ap suc (length-modify xs i f)

module _ {ℓ} {A : Type ℓ} where
  pub get_elem?-modify_self :
      (xs : List A) (i : ℕ) (f : A → A) {a : A}
      → get_elem? xs i ≡ some a
      → get_elem? (modify xs i f) i ≡ some (f a)
  get_elem?-modify_self [] i f h = ground arith
  get_elem?-modify_self (x ∷ xs) zero f h = ground arith
  get_elem?-modify_self (x ∷ xs) (suc i) f h = get_elem?-modify_self xs i f h

  pub get_elem?-modify-none :
      (xs : List A) (i : ℕ) (f : A → A) → get_elem? xs i ≡ none → get_elem? (modify xs i f) i ≡ none
  get_elem?-modify-none [] i f h = refl
  get_elem?-modify-none (x ∷ xs) zero f h = cc
  get_elem?-modify-none (x ∷ xs) (suc i) f h = get_elem?-modify-none xs i f h

  pub get_elem?-modify_ne :
      (xs : List A) (i j : ℕ) (f : A → A) → i ≢ j → get_elem? (modify xs i f) j ≡ get_elem? xs j
  get_elem?-modify_ne [] i j f h = refl
  get_elem?-modify_ne (x ∷ xs) zero zero f h = absurd (h refl)
  get_elem?-modify_ne (x ∷ xs) zero (suc j) f h = refl
  get_elem?-modify_ne (x ∷ xs) (suc i) zero f h = refl
  get_elem?-modify_ne (x ∷ xs) (suc i) (suc j) f h =
      get_elem?-modify_ne xs i j f (λ e. h (ap suc e))

  pub All-get_elem? {κ} :
      (P : A → Type κ) (xs : List A) (i : ℕ) {a : A} → All P xs → get_elem? xs i ≡ some a → P a
  All-get_elem? P [] i h e = cc
  All-get_elem? P (x ∷ xs) zero {a} h e = subst P (some-injective x a e) h.0
  All-get_elem? P (x ∷ xs) (suc i) h e = All-get_elem? P xs i h.1 e

  pub All-append {κ} : (P : A → Type κ) (xs ys : List A) → All P xs → All P ys → All P (xs ++ ys)
  All-append P [] ys hx hy = hy
  All-append P (x ∷ xs) ys hx hy = (hx.0, All-append P xs ys hx.1 hy)

pub get_elem?-map {ℓ κ} :
    {A : Type ℓ} {B : Type κ} (f : A → B) (xs : List A) (i : ℕ) {a : A}
    → get_elem? xs i ≡ some a
    → get_elem? (map f xs) i ≡ some (f a)
get_elem?-map f [] i e = cc
get_elem?-map f (x ∷ xs) zero e = cc
get_elem?-map f (x ∷ xs) (suc i) e = get_elem?-map f xs i e

pub length-map {ℓ κ} :
    {A : Type ℓ} {B : Type κ} (f : A → B) (xs : List A) → length (map f xs) ≡ length xs
length-map f [] = refl
length-map f (x ∷ xs) = ap suc (length-map f xs)

abbrev pub sum : List ℕ → ℕ
sum [] = 0
sum (n ∷ ns) = n + sum ns

pub sum-modify-suc :
    (ns : List ℕ) (j : ℕ) {n : ℕ} → get_elem? ns j ≡ some n → sum (modify ns j suc) ≡ suc (sum ns)
sum-modify-suc [] j e = cc
sum-modify-suc (m ∷ ns) zero e = omega arith
sum-modify-suc (m ∷ ns) (suc j) e = omega (arith, sum-modify-suc ns j e)

pub sum-zeros {ℓ} : {A : Type ℓ} (xs : List A) → sum (map (λ _. 0) xs) ≡ 0
sum-zeros [] = refl
sum-zeros (x ∷ xs) = omega (arith, sum-zeros xs)

-- The entry of a list after a write, and after a map.
pub modify_entry {ℓ} :
    {A : Type ℓ} (xs : List A) (i : ℕ) (g : A → A) (j : ℕ) (y : A)
    → get_elem? (modify xs i g) j ≡ some y
    → (x : A) × (get_elem? xs j ≡ some x) × ((y ≡ x) ⊎ (y ≡ g x))
modify_entry [] i g j y h = cc
modify_entry (x ∷ xs) zero g zero y h = (x, refl, inr (sym (some-injective (g x) y h)))
modify_entry (x ∷ xs) zero g (suc j) y h = (y, h, inl refl)
modify_entry (x ∷ xs) (suc i) g zero y h = (x, refl, inl (sym (some-injective x y h)))
modify_entry (x ∷ xs) (suc i) g (suc j) y h = modify_entry xs i g j y h

pub map_entry {ℓ κ} :
    {A : Type ℓ} {B : Type κ} (xs : List A) (g : A → B) (j : ℕ) (y : B)
    → get_elem? (map g xs) j ≡ some y
    → (x : A) × (get_elem? xs j ≡ some x) × (y ≡ g x)
map_entry [] g j y h = cc
map_entry (x ∷ xs) g zero y h = (x, refl, sym (some-injective (g x) y h))
map_entry (x ∷ xs) g (suc j) y h = map_entry xs g j y h

pub none-length {ℓ} : {A : Type ℓ} (xs : List A) (i : ℕ) → get_elem? xs i ≡ none → length xs ≤ i
none-length [] i h = omega arith
none-length (x ∷ xs) zero h = cc
none-length (x ∷ xs) (suc i) h = omega (arith, none-length xs i h)
