-- ===== src/Eventfd.antt =====
-- src/shm/eventfd.rs: the wake-up of a consumer, with both backends. The loops that a signal makes
-- go round again run on fuel. A number is written in the order of a little-endian machine. Eventfd/Make has
-- the making of the handles.
pub mod Make
pub mod Counter
pub mod Pipe
use qlaster_public.Extern.System.{Descriptor}
use qlaster_public.Base.{
  Bytes, List, Option, [], from_le_bytes, if◌then◌else◌, inl, inr, length, ltb, none, some, suc,
  to_le_bytes, zero, ℕ, ◌+◌, ◌==◌, ◌∷◌, ◌⊎◌,
}
use qlaster_public.Error.{
  IoError, interrupted, other_io, unexpected_eof, unsupported, would_block, write_zero,
}

-- What a call gives with the fuel that it has: a result, or none where the fuel is used up.
abbrev pub Fueled : Type 0 → Type 0
Fueled A = Option (IoError ⊎ A)

-- How the loop of a call treats an answer of the system: it ends, or goes round again.
pub data Turn (A : Type 0) : Type 0 where
  done : IoError ⊎ A → Turn A
  again : Turn A

abbrev pub turned : {A F : Type 0} → Turn A → F → (F → Fueled A × F) → Fueled A × F
turned (done r) f rest = (some r, f)
turned again f rest = rest f

-- A notify: a counter or a pipe that is full counts as notified.
unfoldable pub notify_turn : IoError ⊎ ℕ → Turn (Unit {0})
notify_turn (inr n) = done (inr tt)
notify_turn (inl would_block) = done (inr tt)
notify_turn (inl interrupted) = again
notify_turn (inl unexpected_eof) = done (inl unexpected_eof)
notify_turn (inl write_zero) = done (inl write_zero)
notify_turn (inl unsupported) = done (inl unsupported)
notify_turn (inl (other_io n)) = done (inl (other_io n))

-- A drain of the counter; a read gives its 8 bytes.
unfoldable pub drain_turn : IoError ⊎ Bytes → Turn ℕ
drain_turn (inr bytes) = done (inr (from_le_bytes bytes))
drain_turn (inl would_block) = done (inr 0)
drain_turn (inl interrupted) = again
drain_turn (inl unexpected_eof) = done (inl unexpected_eof)
drain_turn (inl write_zero) = done (inl write_zero)
drain_turn (inl unsupported) = done (inl unsupported)
drain_turn (inl (other_io n)) = done (inl (other_io n))

-- A round of the pipe's drain with the total so far: it ends, or goes on with a total.
pub data PipeTurn : Type 0 where
  ends : IoError ⊎ ℕ → PipeTurn
  goes_on : ℕ → PipeTurn

abbrev pub pipe_turned : {F : Type 0} → PipeTurn → F → (ℕ → F → Fueled ℕ × F) → Fueled ℕ × F
pipe_turned (ends r) f rest = (some r, f)
pipe_turned (goes_on total) f rest = rest total f

abbrev pub pipe_buffer : ℕ
pipe_buffer = 64

unfoldable pub pipe_turn : ℕ → IoError ⊎ Bytes → PipeTurn
pipe_turn total (inr bytes) =
    let n = length bytes in
    if n == 0
    then ends (inr total)
    else if ltb n pipe_buffer
    then ends (inr (total + n))
    else goes_on (total + n)
pipe_turn total (inl would_block) = ends (inr total)
pipe_turn total (inl interrupted) = goes_on total
pipe_turn total (inl unexpected_eof) = ends (inl unexpected_eof)
pipe_turn total (inl write_zero) = ends (inl write_zero)
pipe_turn total (inl unsupported) = ends (inl unsupported)
pipe_turn total (inl (other_io n)) = ends (inl (other_io n))

-- A wake-up of `AsyncFd::readable`: its error if it has one, and what others did to the descriptor
-- before it came.
pub record Readiness (F : Type 0) : Type 0 where
  pub readable : Option IoError
  pub meanwhile : F → F

-- How the loop of `wait` treats what `drain` gave.
unfoldable pub wait_turn : IoError ⊎ ℕ → Turn ℕ
wait_turn (inr n) = if n == 0 then again else done (inr n)
wait_turn (inl would_block) = again
wait_turn (inl interrupted) = done (inl interrupted)
wait_turn (inl unexpected_eof) = done (inl unexpected_eof)
wait_turn (inl write_zero) = done (inl write_zero)
wait_turn (inl unsupported) = done (inl unsupported)
wait_turn (inl (other_io n)) = done (inl (other_io n))

module _ {F : Type 0} (fd : Descriptor F) where
  -- The loop of `notify` that writes these bytes.
  unfoldable pub notify_loop : Bytes → ℕ → F → Fueled (Unit {0}) × F
  notify_loop bytes zero f = (none, f)
  notify_loop bytes (suc fuel) f =
      let (answer, f') = fd.write f bytes in turned (notify_turn answer) f' (notify_loop bytes fuel)

  -- `notify` with the native eventfd.
  unfoldable pub notify : ℕ → F → Fueled (Unit {0}) × F
  notify fuel f = notify_loop (to_le_bytes 8 1) fuel f

  unfoldable pub drain : ℕ → F → Fueled ℕ × F
  drain zero f = (none, f)
  drain (suc fuel) f = let (answer, f') = fd.read f 8 in turned (drain_turn answer) f' (drain fuel)

  -- `notify` with the self-pipe, on its write end if the handle has one.
  unfoldable pub notify_pipe : ℕ → Option F → Fueled (Unit {0}) × Option F
  notify_pipe fuel none = (some (inl unsupported), none)
  notify_pipe fuel (some f) = let (r, f') = notify_loop (1 ∷ []) fuel f in (r, some f')

  unfoldable pub drain_pipe : ℕ → ℕ → F → Fueled ℕ × F
  drain_pipe zero total f = (none, f)
  drain_pipe (suc fuel) total f =
      let (answer, f') = fd.read f pipe_buffer in
      pipe_turned (pipe_turn total answer) f' (drain_pipe fuel)

  -- What `wait` does with the drain's result, where `rest` is the next round.
  unfoldable pub after_drain : Fueled ℕ × F → (F → Fueled ℕ × F) → Fueled ℕ × F
  after_drain (none, f) rest = (none, f)
  after_drain (some r, f) rest = turned (wait_turn r) f rest

  -- `wait` over the wake-ups that come, none where it still waits after them.
  unfoldable pub wait : ℕ → List (Readiness F) → F → Fueled ℕ × F
  wait fuel [] f = (none, f)
  wait fuel (ready ∷ later) f = elim ready.readable [
    | some e ↦ (some (inl e), ready.meanwhile f)
    | none ↦ after_drain (drain fuel (ready.meanwhile f)) (λ f'. wait fuel later f')
  ]
