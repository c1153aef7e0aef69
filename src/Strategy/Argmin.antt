-- ===== src/Strategy/Argmin.antt =====
-- The loop that keeps the least key among the entries that are not skipped, as both of the
-- least-connections strategies run it.
use go_load_balancer.Prelude.{
  ℕ, suc, ◌+◌, ◌≡◌, refl, ◌∙◌, ◌⊎◌, inl, inr, Bool, true, false, not, ◌&&◌, Option, none, some,
  List, [], ◌∷◌, arith, Bool-cases, if◌then◌else◌, get_elem?, All,
}

module _ {B K : Type 0} (skip : B → Bool) (key : B → K) (lt : K → K → Bool) where
  unfoldable pub better : B → K → Bool
  better b m = not (skip b) && lt (key b) m

  better_parts : (b : B) (m : K) → better b m ≡ true → (skip b ≡ false) × (lt (key b) m ≡ true)
  unfolding better
  better_parts b m h = ground arith

  not_better : (b : B) (m : K) → better b m ≡ false → skip b ≡ false → lt (key b) m ≡ false
  unfolding better
  not_better b m h u = ground arith

  unfoldable pub argmin : ℕ → Option ℕ → K → List B → Option ℕ
  unfolding better
  argmin i best m [] = best
  argmin i best m (b ∷ bs) =
      argmin (suc i) (if better b m then some i else best) (if better b m then key b else m) bs

  -- No entry in use has a lesser key.
  abbrev pub IsLeast : K → List B → Type 0
  IsLeast k bs = All (λ c. skip c ≡ false → lt (key c) k ≡ false) bs

  abbrev pub Picks : ℕ → K → List B → Option ℕ → Type 0
  Picks i m bs r =
      (j : ℕ) × (b : B) × (r ≡ some (i + j))
      × (get_elem? bs j ≡ some b)
      × (skip b ≡ false)
      × (lt (key b) m ≡ true)
      × IsLeast (key b) bs

  -- Whatever the order, the loop keeps what it had or picks an entry in use.
  pub argmin-used :
      (i : ℕ) (best : Option ℕ) (m : K) (bs : List B)
      → (argmin i best m bs ≡ best)
        ⊎ ((j : ℕ) × (b : B) × (argmin i best m bs ≡ some (i + j))
            × (get_elem? bs j ≡ some b)
            × (skip b ≡ false))
  unfolding argmin
  argmin-used i best m [] = inl refl
  argmin-used i best m (b ∷ bs) = elim (Bool-cases (better b m)) [
    | inl yes_better ↦ rw yes_better (took yes_better (argmin-used (suc i) (some i) (key b) bs))
    | inr no_better ↦ rw no_better (elim (argmin-used (suc i) best m bs) [
      | inl e ↦ inl e
      | inr (j, c, e, found, used) ↦ inr (suc j, c, e ∙ ground arith, found, used)
    ])
  ]
    where
      took :
          better b m ≡ true
          → (argmin (suc i) (some i) (key b) bs ≡ some i)
            ⊎ ((j : ℕ) × (c : B) × (argmin (suc i) (some i) (key b) bs ≡ some (suc i + j))
                × (get_elem? bs j ≡ some c)
                × (skip c ≡ false))
          → (argmin (suc i) (some i) (key b) bs ≡ best)
            ⊎ ((j : ℕ) × (c : B) × (argmin (suc i) (some i) (key b) bs ≡ some (i + j))
                × (get_elem? (b ∷ bs) j ≡ some c)
                × (skip c ≡ false))
      took h (inl e) = inr (0, b, e ∙ ground arith, refl, (better_parts b m h).0)
      took h (inr (j, c, e, found, used)) = inr (suc j, c, e ∙ ground arith, found, used)

  pub argmin-picked :
      (m : K) (bs : List B) (i : ℕ)
      → argmin 0 none m bs ≡ some i
      → (b : B) × (get_elem? bs i ≡ some b) × (skip b ≡ false)
  argmin-picked m bs i e = elim (argmin-used 0 none m bs) [
    | inl nothing ↦ absurd (cc)
    | inr (j, b, e', found, used) ↦ let at : j ≡ i = ground arith in (b, rw (← at) found, used)
  ]

  module _ (irrefl : (a : K) → lt a a ≡ false)
      (trans : (a b c : K) → lt a b ≡ true → lt b c ≡ true → lt a c ≡ true) where
    asym : (a b : K) → lt a b ≡ true → lt b a ≡ false
    asym a b h = elim (Bool-cases (lt b a)) [
      | inl back ↦ absurd (cc (trans a b a h back, irrefl a))
      | inr e ↦ e
    ]

    not_below : (a b m : K) → lt a m ≡ false → lt b m ≡ true → lt a b ≡ false
    not_below a b m h k = elim (Bool-cases (lt a b)) [
      | inl less ↦ absurd (cc (trans a b m less k))
      | inr e ↦ e
    ]

    extend :
        (i : ℕ) (b : B) (bs : List B) (m k : K) (r : Option ℕ)
        → ((c : B) → lt (key c) k ≡ true → lt (key c) m ≡ true)
        → ((c : B) → lt (key c) k ≡ true → skip b ≡ false → lt (key b) (key c) ≡ false)
        → Picks (suc i) k bs r
        → Picks i m (b ∷ bs) r
    extend i b bs m k r weaken head (j, c, e, found, used, less, least) =
        (suc j, c, e ∙ rw (shift i j), found, used, weaken c less, (head c less, least))
      where
        shift : (i j : ℕ) → suc i + j ≡ i + suc j
        shift i j = omega arith

    -- The loop keeps what it had, if no entry in use is below it, or picks a least entry.
    pub argmin_lem :
        (i : ℕ) (best : Option ℕ) (m : K) (bs : List B)
        → ((argmin i best m bs ≡ best) × IsLeast m bs) ⊎ Picks i m bs (argmin i best m bs)
    unfolding argmin
    argmin_lem i best m [] = inl (refl, tt)
    argmin_lem i best m (b ∷ bs) = elim (Bool-cases (better b m)) [
      | inl yes_better ↦ rw yes_better (took yes_better (argmin_lem (suc i) (some i) (key b) bs))
      | inr no_better ↦ rw no_better (kept no_better (argmin_lem (suc i) best m bs))
    ]
      where
        took :
            better b m ≡ true
            → ((argmin (suc i) (some i) (key b) bs ≡ some i) × IsLeast (key b) bs)
              ⊎ Picks (suc i) (key b) bs (argmin (suc i) (some i) (key b) bs)
            → ((argmin (suc i) (some i) (key b) bs ≡ best) × IsLeast m (b ∷ bs))
              ⊎ Picks i m (b ∷ bs) (argmin (suc i) (some i) (key b) bs)
        took h (inl (e, least)) = inr (
          0,
          b,
          e ∙ ground arith,
          refl,
          (better_parts b m h).0,
          (better_parts b m h).1,
          (λ _. irrefl (key b), least),
        )
        took h (inr p) = inr (
            extend i b bs m (key b) _ (λ c l. trans (key c) (key b) m l (better_parts b m h).1)
              (λ c l _. asym (key c) (key b) l) p)

        kept :
            better b m ≡ false
            → ((argmin (suc i) best m bs ≡ best) × IsLeast m bs)
              ⊎ Picks (suc i) m bs (argmin (suc i) best m bs)
            → ((argmin (suc i) best m bs ≡ best) × IsLeast m (b ∷ bs))
              ⊎ Picks i m (b ∷ bs) (argmin (suc i) best m bs)
        kept h (inl (e, least)) = inl (e, (not_better b m h, least))
        kept h (inr p) = inr (
            extend i b bs m m _ (λ c l. l)
              (λ c l u. not_below (key b) (key c) m (not_better b m h u) l) p)
