-- ===== src/Ring/Capacity.antt =====
-- The capacity that `ShmRingProducer::create` settles on.
use native.Mathlib.Nat.{pow-suc}
use qlaster_public.Base.{
  String, Bool-cases, ap, arith, dec_le, inl, inr, leb, ltb, refl, suc, zero, ℕ, ◌*◌, ◌<◌, ◌^◌, ◌≡◌,
  ◌≤◌,
}
use qlaster_public.Error.{
  create_parent_dir, ok, ok-injective, open_file, reject, reject-ltb_inv, shaq_create, with_ok,
}
use qlaster_public.Ring.{
  CreateOutcomes, ShmRingProducer, create, double_until, next_power_of_two, succeeds,
}

double_until_bounds :
    (fuel p n : ℕ)
    → n ≤ p * 2 ^ fuel
    → 1 ≤ n
    → p < 2 * n
    → (n ≤ double_until fuel p n) × (double_until fuel p n < 2 * n)
unfolding double_until
double_until_bounds zero p n h one low = (omega arith, low)
double_until_bounds (suc fuel) p n h one low = elim (dec_le n p) [
  | yes reached ↦ ground (arith, low)
  | no short ↦
      let h' : n ≤ 2 * p * 2 ^ fuel = omega (arith, ap (λ (t : ℕ). p * t) (pow-suc 2 fuel)) in
      ground (arith, double_until_bounds fuel (2 * p) n h' one (omega arith))
]

double_until_power : (fuel k n : ℕ) → (j : ℕ) × (double_until fuel (2 ^ k) n ≡ 2 ^ j)
unfolding double_until
double_until_power zero k n = (k, refl)
double_until_power (suc fuel) k n =
    let (j, e) = double_until_power fuel (suc k) n in
    let twice : 2 * 2 ^ k ≡ 2 ^ suc k = omega (arith, pow-suc 2 k) in
    elim (Bool-cases (leb n (2 ^ k))) [
      | inl stop ↦ (k, rw stop)
      | inr more ↦ (j, rw (more, twice) e)
    ]

-- A ring that was created for at most 2^63 bytes was asked for at least 64, and its capacity is a
-- power of two that is at least the capacity asked for and less than twice as much.
pub create_capacity :
    (path : String) (os : CreateOutcomes) (capacity : ℕ) (p : ShmRingProducer)
    → capacity ≤ 2 ^ 63
    → create path os capacity ≡ ok p
    → (64 ≤ capacity)
      × (capacity ≤ p.capacity)
      × (p.capacity < 2 * capacity)
      × ((k : ℕ) × (p.capacity ≡ 2 ^ k))
unfolding create next_power_of_two
create_capacity path os capacity p h e = with_ok (reject (ltb capacity 64) _) _ e λ _ e0 k0.
    with_ok (succeeds os.create_dir_all create_parent_dir) _ k0 λ _ _ k1.
      with_ok (succeeds os.open_new (open_file path)) _ k1 λ _ _ k2.
        with_ok (succeeds os.shaq_create_error shaq_create) _ k2 λ _ _ k3.
          let large : 64 ≤ capacity = reject-ltb_inv _ _ _ e0 in
          let size : next_power_of_two capacity ≡ p.capacity =
            ap (λ (r : ShmRingProducer). r.capacity) (ok-injective k3) in
          let (low, high) =
            double_until_bounds 63 1 capacity (omega arith) (omega arith) (omega arith) in
          let (j, power) = double_until_power 63 0 capacity in
          rw (← size) (large, low, high, (j, power))
