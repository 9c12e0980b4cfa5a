-- ===== src/Eventfd/Pipe.antt =====
-- src/shm/eventfd.rs with the self-pipe: a drain takes every wake-up, and each call ends.
use qlaster_public.Extern.System.{Descriptor, IsPipe}
use qlaster_public.Base.{
  Bytes, [], ap, arith, dec_lt, false, inl, inr, length, ltb, min, refl, some, suc, true, zero, ℕ,
  ◌+◌, ◌<◌, ◌==◌, ◌∙◌, ◌∷◌, ◌≡◌, ◌≤◌, ◌⊎◌,
}
use qlaster_public.Error.{IoError, interrupted, would_block}
use qlaster_public.Eventfd.{
  PipeTurn, drain_pipe, ends, goes_on, notify_loop, notify_pipe, notify_turn, pipe_buffer,
  pipe_turn, pipe_turned, turned,
}

pipe_turn_short :
    (total : ℕ) (bytes : Bytes)
    → 0 < length bytes
    → length bytes < pipe_buffer
    → pipe_turn total (inr bytes) ≡ ends (inr (total + length bytes))
unfolding pipe_turn
pipe_turn_short total bytes some_bytes short =
    let positive : (length bytes == 0) ≡ false = ground (arith, some_bytes) in
    let below : ltb (length bytes) pipe_buffer ≡ true = ground (arith, short) in
    rw (positive, below) refl

pipe_turn_full :
    (total : ℕ) (bytes : Bytes)
    → pipe_buffer ≤ length bytes
    → pipe_turn total (inr bytes) ≡ goes_on (total + length bytes)
unfolding pipe_turn
pipe_turn_full total bytes full =
    let positive : (length bytes == 0) ≡ false = ground (arith, full) in
    let above : ltb (length bytes) pipe_buffer ≡ false = ground (arith, full) in
    rw (positive, above) refl

module _ {F : Type 0} (fd : Descriptor F) (pending signals : F → ℕ) (room : ℕ)
    (laws : IsPipe fd pending signals room) where
  drain_round :
      (fuel total : ℕ) (f f' : F) (answer : IoError ⊎ Bytes) (turn : PipeTurn)
      → fd.read f pipe_buffer ≡ (answer, f')
      → pipe_turn total answer ≡ turn
      → drain_pipe fd (suc fuel) total f ≡ pipe_turned turn f' (drain_pipe fd fuel)
  unfolding drain_pipe
  drain_round fuel total f f' answer turn read is_turn =
      ap (λ w. pipe_turned (pipe_turn total w.0) w.1 (drain_pipe fd fuel)) read
      ∙ ap (λ t. pipe_turned t f' (drain_pipe fd fuel)) is_turn

  drain_pipe-pending :
      (fuel total : ℕ) (f : F)
      → signals f + pending f < fuel
      → (f' : F) × (drain_pipe fd fuel total f ≡ (some (inr (total + pending f)), f'))
        × (pending f' ≡ 0)
        × (signals f' ≡ 0)
  unfolding pipe_turn
  drain_pipe-pending zero total f enough = absurd (omega (arith, enough))
  drain_pipe-pending (suc fuel) total f enough = elim (dec_lt 0 (signals f)) [
    | yes some_left ↦
        let (f1, answer, kept, fewer) = laws.read_interrupted f pipe_buffer some_left in
        let (f2, on, taken, quiet) =
          drain_pipe-pending fuel total f1 (omega (arith, enough, fewer, kept)) in
        (
          f2,
          drain_round fuel total f f1 (inl interrupted) (goes_on total) answer refl
              ∙ on
              ∙ ap (λ n. (some (inr (total + n)), f2)) kept,
          taken,
          quiet,
        )
    | no quiet ↦
        let still : signals f ≡ 0 = omega (arith, quiet) in
        elim (dec_lt 0 (pending f)) [
          | no drained ↦
              let left : pending f ≡ 0 = omega (arith, drained) in
              (
                f,
                drain_round fuel total f f (inl would_block) (ends (inr total))
                      (laws.empty f pipe_buffer still left) refl
                    ∙ ap (λ n. (some (inr n), f)) (omega (arith, left)),
                left,
                still,
              )
          | yes some_bytes ↦
              let (f1, bytes, answer, size, left, quiet') =
                laws.takes f pipe_buffer still some_bytes (omega arith) in
              elim (dec_lt (length bytes) pipe_buffer) [
                | yes short ↦ (
                  f1,
                  drain_round fuel total f f1 (inr bytes) _ answer
                        (pipe_turn_short total bytes (omega (arith, size, some_bytes)) short)
                      ∙ ap (λ n. (some (inr (total + n)), f1)) (omega (arith, size, short)),
                  omega (arith, size, left, short),
                  quiet',
                )
                | no full ↦
                    let (f2, on, taken, quiet2) =
                      drain_pipe-pending fuel (total + length bytes) f1
                        (omega (arith, enough, left, quiet', still, full)) in
                    (
                      f2,
                      drain_round fuel total f f1 (inr bytes) _ answer
                            (pipe_turn_full total bytes (omega (arith, full)))
                          ∙ on
                          ∙ ap (λ n. (some (inr n), f2)) (omega (arith, left)),
                      taken,
                      quiet2,
                    )
              ]
        ]
  ]

  -- The loop that writes the byte.
  byte-pending :
      (fuel : ℕ) (f : F)
      → signals f < fuel
      → pending f ≤ room
      → (f' : F) × (notify_loop fd (1 ∷ []) fuel f ≡ (some (inr tt), f'))
        × (pending f' ≡ min (pending f + 1) room)
        × (signals f' ≡ 0)
  unfolding notify_loop notify_turn
  byte-pending zero f enough small = absurd (omega (arith, enough))
  byte-pending (suc fuel) f enough small = elim (dec_lt 0 (signals f)) [
    | yes some_left ↦
        let (f1, answer, kept, fewer) = laws.write_interrupted f (1 ∷ []) some_left in
        let (f2, on, raised, quiet) =
          byte-pending fuel f1 (omega (arith, enough, fewer)) (omega (arith, small, kept)) in
        (
          f2,
          ap (λ w. turned (notify_turn w.0) w.1 (notify_loop fd (1 ∷ []) fuel)) answer ∙ on,
          omega (arith, raised, kept),
          quiet,
        )
    | no quiet ↦
        let still : signals f ≡ 0 = omega (arith, quiet) in
        elim (dec_lt (pending f) room) [
          | yes free ↦
              let (f1, answer, raised, quiet') = laws.writes f 1 still free in
              (
                f1,
                ap (λ w. turned (notify_turn w.0) w.1 (notify_loop fd (1 ∷ []) fuel)) answer,
                omega (arith, raised, free),
                quiet',
              )
          | no taken ↦ (
            f,
            ap (λ w. turned (notify_turn w.0) w.1 (notify_loop fd (1 ∷ []) fuel))
                (laws.full f 1 still (omega (arith, taken))),
            omega (arith, small, taken),
            still,
          )
        ]
  ]

  notify_pipe-pending :
      (fuel : ℕ) (f : F)
      → signals f < fuel
      → pending f ≤ room
      → (f' : F) × (notify_pipe fd fuel (some f) ≡ (some (inr tt), some f'))
        × (pending f' ≡ min (pending f + 1) room)
        × (signals f' ≡ 0)
  unfolding notify_pipe
  notify_pipe-pending fuel f enough small =
      let (f', notified, raised, quiet) = byte-pending fuel f enough small in
      (f', ap (λ w. (w.0, some w.1)) notified, raised, quiet)

  -- On a pipe that keeps its laws and holds no more than its room, a notify with more fuel than
  -- signals to come succeeds, and a drain with more fuel than the room ends with the number of
  -- bytes in the pipe, at most the room, and leaves it empty.
  pub drain_pipe-notify_pipe :
      (fuel more : ℕ) (f : F)
      → signals f < fuel
      → pending f ≤ room
      → room < more
      → (f1 f2 : F) × (notify_pipe fd fuel (some f) ≡ (some (inr tt), some f1))
        × (drain_pipe fd more 0 f1 ≡ (some (inr (min (pending f + 1) room)), f2))
        × (pending f2 ≡ 0)
  drain_pipe-notify_pipe fuel more f enough small fits =
      let (f1, notified, raised, quiet) = notify_pipe-pending fuel f enough small in
      let (f2, drained, left, quiet') =
        drain_pipe-pending more 0 f1 (omega (arith, raised, quiet, fits)) in
      (f1, f2, notified, drained ∙ ap (λ n. (some (inr n), f2)) (omega (arith, raised)), left)
