-- ===== src/Eventfd/Make.antt =====
-- src/shm/eventfd.rs: how the handles are made. A descriptor is a number here, and the answers of the
-- system calls are arguments; what is closed is returned.
use qlaster_public.Base.{List, Option, [], inl, inr, none, refl, some, ℕ, ◌++◌, ◌∷◌, ◌≡◌, ◌⊎◌}
use qlaster_public.Error.{IoError}

-- The handle of the native eventfd.
unfoldable pub new_eventfd : IoError ⊎ ℕ → IoError ⊎ ℕ
new_eventfd (inl e) = inl e
new_eventfd (inr raw) = inr raw

-- The handle of the self-pipe: a received one has no write end.
pub record PipeEnds : Type 0 where
  pub read_end : ℕ
  pub write_end : Option ℕ

-- What the three calls of `fcntl` answer.
pub record FcntlOutcomes : Type 0 where
  pub set_cloexec : Option IoError
  pub get_flags : Option IoError
  pub set_nonblock : Option IoError

unfoldable pub first_error : List (Option IoError) → IoError ⊎ Unit {0}
first_error [] = inr tt
first_error (none ∷ outcomes) = first_error outcomes
first_error (some e ∷ outcomes) = inl e

unfoldable pub configure_pipe_fd : FcntlOutcomes → IoError ⊎ Unit {0}
configure_pipe_fd os = first_error (os.set_cloexec ∷ os.get_flags ∷ os.set_nonblock ∷ [])

-- What is left of the two ends when both were configured, or one was not: a return before the end
-- drops both, the write end first.
unfoldable pub keep_or_close :
    ℕ → ℕ → IoError ⊎ Unit {0} → IoError ⊎ Unit {0} → (IoError ⊎ PipeEnds) × List ℕ
keep_or_close read write (inl e) other = (inl e, write ∷ read ∷ [])
keep_or_close read write (inr done) (inl e) = (inl e, write ∷ read ∷ [])
keep_or_close read write (inr done) (inr both) =
    (inr (record { read_end = read; write_end = some write }), [])

unfoldable pub new_pipe :
    IoError ⊎ (ℕ × ℕ) → FcntlOutcomes → FcntlOutcomes → (IoError ⊎ PipeEnds) × List ℕ
new_pipe (inl e) read_os write_os = (inl e, [])
new_pipe (inr (read, write)) read_os write_os =
    keep_or_close read write (configure_pipe_fd read_os) (configure_pipe_fd write_os)

-- A failure to configure the end is only logged.
unfoldable pub from_owned_fd : ℕ → FcntlOutcomes → PipeEnds
from_owned_fd fd os = record { read_end = fd; write_end = none }

abbrev pub pass_fd : PipeEnds → ℕ
pass_fd ends = ends.read_end

unfoldable pub end_list : Option ℕ → List ℕ
end_list none = []
end_list (some fd) = fd ∷ []

-- The descriptors that a handle owns, the write end first.
unfoldable pub owned : IoError ⊎ PipeEnds → List ℕ
owned (inl e) = []
owned (inr ends) = end_list ends.write_end ++ (ends.read_end ∷ [])

-- Of the two descriptors of a pipe none is lost: the handle owns both, or both were closed.
new_pipe_lem :
    (read write : ℕ) (read_os write_os : FcntlOutcomes)
    → owned (new_pipe (inr (read, write)) read_os write_os).0
        ++ (new_pipe (inr (read, write)) read_os write_os).1
      ≡ write ∷ read ∷ []
unfolding new_pipe
new_pipe_lem read write read_os write_os =
    kept read write (configure_pipe_fd read_os) (configure_pipe_fd write_os)
  where
    kept :
        (read write : ℕ) (r w : IoError ⊎ Unit {0})
        → owned (keep_or_close read write r w).0 ++ (keep_or_close read write r w).1
          ≡ write ∷ read ∷ []
    kept read write (inl e) w = unfold keep_or_close owned end_list in refl
    kept read write (inr done) (inl e) = unfold keep_or_close owned end_list in refl
    kept read write (inr done) (inr both) = unfold keep_or_close owned end_list in refl
