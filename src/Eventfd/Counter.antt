-- ===== src/Eventfd/Counter.antt =====
-- src/shm/eventfd.rs with the native eventfd: no wake-up is lost, and each call ends.

use qlaster_public.Extern.System.{Descriptor, IsEventfd}
use qlaster_public.Base.{
  List, [], ap, arith, dec_lt, false, from_le_bytes, from_le_bytes-to_le_bytes, inr,
  length-to_le_bytes, map, min, none, refl, some, suc, sym, to_le_bytes, u64_max, zero, ℕ, ◌++◌,
  ◌+◌, ◌-◌, ◌<◌, ◌==◌, ◌∙◌, ◌∷◌, ◌≡◌, ◌≤◌,
}
use qlaster_public.Eventfd.{
  Readiness, after_drain, drain, drain_turn, notify, notify_loop, notify_turn, turned, wait,
  wait_turn,
}

-- The highest value of the counter.
abbrev pub counter_max : ℕ
counter_max = u64_max - 1

module _ {F : Type 0} (fd : Descriptor F) (count signals : F → ℕ)
    (laws : IsEventfd fd count signals) where
  notify_loop-count :
      (fuel : ℕ) (f : F)
      → signals f < fuel
      → count f ≤ counter_max
      → (f' : F) × (notify_loop fd (to_le_bytes 8 1) fuel f ≡ (some (inr tt), f'))
        × (count f' ≡ min (count f + 1) counter_max)
        × (signals f' ≡ 0)
  unfolding notify_loop notify_turn
  notify_loop-count zero f enough small = absurd (omega (arith, enough))
  notify_loop-count (suc fuel) f enough small =
      let one : from_le_bytes (to_le_bytes 8 1) ≡ 1 = from_le_bytes-to_le_bytes 8 1 (omega arith) in
      elim (dec_lt 0 (signals f)) [
        | yes some_left ↦
            let (f1, answer, kept, fewer) = laws.write_interrupted f (to_le_bytes 8 1) some_left in
            let (f2, on, raised, quiet) =
              notify_loop-count fuel f1 (omega (arith, enough, fewer))
                (omega (arith, small, kept)) in
            (
              f2,
              ap (λ w. turned (notify_turn w.0) w.1 (notify_loop fd (to_le_bytes 8 1) fuel)) answer
                  ∙ on,
              raised ∙ ap (λ n. min (n + 1) counter_max) kept,
              quiet,
            )
        | no quiet ↦ elim (dec_lt (count f + 1) u64_max) [
          | yes room ↦
              let (f1, answer, raised, quiet') =
                laws.raises f (to_le_bytes 8 1) (omega (arith, quiet)) (length-to_le_bytes 8 1)
                  (omega (arith, one, room)) in
              (
                f1,
                ap (λ w. turned (notify_turn w.0) w.1 (notify_loop fd (to_le_bytes 8 1) fuel))
                    answer,
                omega (arith, raised, one, room),
                quiet',
              )
          | no full ↦
              let answer =
                laws.saturated f (to_le_bytes 8 1) (omega (arith, quiet)) (length-to_le_bytes 8 1)
                  (omega (arith, one, full)) in
              (
                f,
                ap (λ w. turned (notify_turn w.0) w.1 (notify_loop fd (to_le_bytes 8 1) fuel))
                    answer,
                omega (arith, full, small),
                omega (arith, quiet),
              )
        ]
      ]

  notify-count :
      (fuel : ℕ) (f : F)
      → signals f < fuel
      → count f ≤ counter_max
      → (f' : F) × (notify fd fuel f ≡ (some (inr tt), f'))
        × (count f' ≡ min (count f + 1) counter_max)
        × (signals f' ≡ 0)
  unfolding notify
  notify-count fuel f enough small = notify_loop-count fuel f enough small

  drain-count :
      (fuel : ℕ) (f : F)
      → signals f < fuel
      → count f ≤ counter_max
      → (f' : F) × (drain fd fuel f ≡ (some (inr (count f)), f'))
        × (count f' ≡ 0)
        × (signals f' ≡ 0)
  unfolding drain drain_turn
  drain-count zero f enough small = absurd (omega (arith, enough))
  drain-count (suc fuel) f enough small = elim (dec_lt 0 (signals f)) [
    | yes some_left ↦
        let (f1, answer, kept, fewer) = laws.read_interrupted f 8 some_left in
        let (f2, on, taken, quiet) =
          drain-count fuel f1 (omega (arith, enough, fewer)) (omega (arith, small, kept)) in
        (
          f2,
          ap (λ w. turned (drain_turn w.0) w.1 (drain fd fuel)) answer
              ∙ (on ∙ ap (λ n. (some (inr n), f2)) kept),
          taken,
          quiet,
        )
    | no quiet ↦ elim (dec_lt 0 (count f)) [
      | yes raised ↦
          let (f1, answer, taken, quiet') =
            laws.takes f 8 (omega (arith, quiet)) (omega arith) raised in
          let word : from_le_bytes (to_le_bytes 8 (count f)) ≡ count f =
            from_le_bytes-to_le_bytes 8 (count f) (omega (arith, small)) in
          (
            f1,
            ap (λ w. turned (drain_turn w.0) w.1 (drain fd fuel)) answer
                ∙ ap (λ n. (some (inr n), f1)) word,
            taken,
            quiet',
          )
      | no zeroed ↦
          let none_yet : count f ≡ 0 = omega (arith, zeroed) in
          let answer = laws.nothing f 8 (omega (arith, quiet)) none_yet in
          (
            f,
            ap (λ w. turned (drain_turn w.0) w.1 (drain fd fuel)) answer
                ∙ ap (λ n. (some (inr n), f)) (sym none_yet),
            none_yet,
            omega (arith, quiet),
          )
    ]
  ]

  -- One notify after the other, each with this fuel.
  unfoldable pub notify_times : ℕ → ℕ → F → F
  notify_times fuel zero f = f
  notify_times fuel (suc k) f = notify_times fuel k (notify fd fuel f).1

  notify_times-count :
      (fuel k : ℕ) (f : F)
      → signals f < fuel
      → count f ≤ counter_max
      → (count (notify_times fuel k f) ≡ min (count f + k) counter_max)
        × (signals (notify_times fuel k f) < fuel)
  unfolding notify_times
  notify_times-count fuel zero f enough small = (omega (arith, small), enough)
  notify_times-count fuel (suc k) f enough small =
      let (f', step, raised, quiet) = notify-count fuel f enough small in
      let (total, still) =
        notify_times-count fuel k f' (omega (arith, quiet, enough)) (omega (arith, raised)) in
      rw step (omega (arith, total, raised), still)

  pub drain-notify_times :
      (fuel k : ℕ) (f : F)
      → signals f < fuel
      → count f ≤ counter_max
      → (f' : F) × (drain fd fuel (notify_times fuel k f)
          ≡ (some (inr (min (count f + k) counter_max)), f'))
        × (count f' ≡ 0)
  drain-notify_times fuel k f enough small =
      let (total, still) = notify_times-count fuel k f enough small in
      let (f', drained, taken, _) =
        drain-count fuel (notify_times fuel k f) still (omega (arith, total)) in
      (f', drained ∙ ap (λ n. (some (inr n), f')) total, taken)

  -- A wait on an eventfd that keeps its laws and whose counter is 0 passes over the wake-ups
  -- without a notify and resolves at the first one with some, with their number, at most 2^64 - 2,
  -- and leaves the counter at 0, where the fuel exceeds the number of signals to come.
  pub wait-notify_times :
      (fuel k : ℕ) (idle : List ℕ) (later : List (Readiness F)) (f : F)
      → signals f < fuel
      → count f ≡ 0
      → 0 < k
      → (f' : F) × (wait fd fuel
            (map (λ n. record { readable = none; meanwhile = λ g. g }) idle
              ++ (record { readable = none; meanwhile = notify_times fuel k } ∷ later))
            f
          ≡ (some (inr (min k counter_max)), f'))
        × (count f' ≡ 0)
  unfolding wait after_drain wait_turn
  wait-notify_times fuel k [] later f enough empty some_notify =
      let (f', drained, taken) = drain-notify_times fuel k f enough (omega (arith, empty)) in
      let total : min (count f + k) counter_max ≡ min k counter_max = omega (arith, empty) in
      let positive : (min k counter_max == 0) ≡ false = ground (arith, some_notify) in
      (f', rw (drained, total, positive) refl, taken)
  wait-notify_times fuel k (i ∷ idle) later f enough empty some_notify =
      let (f1, drained, taken, quiet) = drain-count fuel f enough (omega (arith, empty)) in
      let (f2, on, taken2) =
        wait-notify_times fuel k idle later f1 (omega (arith, quiet, enough)) taken some_notify in
      (f2, rw (drained, empty) on, taken2)
