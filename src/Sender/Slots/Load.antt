-- ===== src/Sender/Slots/Load.antt =====
-- Reading and writing the slots of a manager, as lemmas on lists.
use qlaster_public.Base.{
  List, Option, [], ap, arith, inl, inr, length, refl, set, some, suc, zero, ℕ, ◌++◌, ◌<◌, ◌∷◌, ◌≡◌,
  ◌≢◌, ◌⊎◌,
}
use qlaster_public.Sender.Slots.{ManagedConnection, load}

module _ {K B Q : Type 0} where
  pub load-set :
      (slots : List (Option (ManagedConnection K B Q))) (i : ℕ)
      (v : Option (ManagedConnection K B Q))
      → i < length slots
      → load (set slots i v) i ≡ v
  unfolding load
  load-set [] i v h = absurd (omega (arith, h))
  load-set (s ∷ slots) zero v h = refl
  load-set (s ∷ slots) (suc i) v h = load-set slots i v (omega (arith, h))

  pub load_in_range :
      (slots : List (Option (ManagedConnection K B Q))) (i : ℕ) (entry : ManagedConnection K B Q)
      → load slots i ≡ some entry
      → i < length slots
  unfolding load
  load_in_range [] i entry h = cc
  load_in_range (s ∷ slots) zero entry h = omega arith
  load_in_range (s ∷ slots) (suc i) entry h = omega (arith, load_in_range slots i entry h)

  pub load-append :
      (front : List (Option (ManagedConnection K B Q))) (slot : Option (ManagedConnection K B Q))
      (slots : List (Option (ManagedConnection K B Q)))
      → load (front ++ (slot ∷ slots)) (length front) ≡ slot
  unfolding load
  load-append [] slot slots = refl
  load-append (s ∷ front) slot slots = load-append front slot slots

  pub set-append :
      (front : List (Option (ManagedConnection K B Q))) (slot v : Option (ManagedConnection K B Q))
      (slots : List (Option (ManagedConnection K B Q)))
      → set (front ++ (slot ∷ slots)) (length front) v ≡ front ++ (v ∷ slots)
  set-append [] slot v slots = refl
  set-append (s ∷ front) slot v slots = ap (◌∷◌ s) (set-append front slot v slots)

  pub set-set :
      (slots : List (Option (ManagedConnection K B Q))) (i : ℕ)
      (v w : Option (ManagedConnection K B Q))
      → set (set slots i v) i w ≡ set slots i w
  set-set [] i v w = refl
  set-set (s ∷ slots) zero v w = refl
  set-set (s ∷ slots) (suc i) v w = ap (◌∷◌ s) (set-set slots i v w)

  pub set-load :
      (slots : List (Option (ManagedConnection K B Q))) (i : ℕ) → set slots i (load slots i) ≡ slots
  unfolding load
  set-load [] i = refl
  set-load (s ∷ slots) zero = refl
  set-load (s ∷ slots) (suc i) = ap (◌∷◌ s) (set-load slots i)

  pub load-set_cases :
      (slots : List (Option (ManagedConnection K B Q))) (i j : ℕ)
      (v : Option (ManagedConnection K B Q)) (entry : ManagedConnection K B Q)
      → load (set slots i v) j ≡ some entry
      → ((i ≡ j) × (v ≡ some entry)) ⊎ ((i ≢ j) × (load slots j ≡ some entry))
  unfolding load
  load-set_cases [] i j v entry h = cc
  load-set_cases (s ∷ slots) zero zero v entry h = inl (refl, h)
  load-set_cases (s ∷ slots) zero (suc j) v entry h = inr (λ e. omega (arith, e), h)
  load-set_cases (s ∷ slots) (suc i) zero v entry h = inr (λ e. omega (arith, e), h)
  load-set_cases (s ∷ slots) (suc i) (suc j) v entry h = elim (load-set_cases slots i j v entry h) [
    | inl (same, e) ↦ inl (ap suc same, e)
    | inr (other, e) ↦ inr (λ p. other (omega (arith, p)), e)
  ]

  pub length-set :
      (slots : List (Option (ManagedConnection K B Q))) (i : ℕ)
      (v : Option (ManagedConnection K B Q))
      → length (set slots i v) ≡ length slots
  length-set [] i v = refl
  length-set (s ∷ slots) zero v = refl
  length-set (s ∷ slots) (suc i) v = ap suc (length-set slots i v)
