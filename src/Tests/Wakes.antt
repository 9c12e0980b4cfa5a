-- ===== src/Tests/Wakes.antt =====
-- Wake-ups and messages with descriptors, at concrete inputs.

use qlaster_public.Uds.RoundTrip.{recv_frame_with_fd-send_frame_with_fd}
use qlaster_public.Uds.{ancillary_recv_buf, recv_frame_with_fd, send_frame_with_fd}
use qlaster_public.Eventfd.Pipe.{drain_pipe-notify_pipe}
use qlaster_public.Eventfd.Counter.{counter_max, notify_times, wait-notify_times}
use qlaster_public.Eventfd.{drain_pipe, notify_pipe, wait}
use qlaster_public.Tests.Peers.{
  Peer, Wakeups, eventfd, eventfd-IsEventfd, peer_socket, peer_socket-IsMessageSocket, pipe_of,
  pipe_of-IsPipe,
}
use qlaster_public.Error.{err, larger_than_buffer, ok, uds_error}
use qlaster_public.Base.{
  Bytes, List, [], arith, if◌then◌else◌, inr, leb, length, map, min, none, refl, replicate, some, ℕ,
  ◌++◌, ◌+◌, ◌∷◌, ◌≡◌,
}

abbrev interrupted_twice : Wakeups
interrupted_twice = record { count = 0; signals = 2 }

-- A wake-up without a notify.
abbrev one_idle : List ℕ
one_idle = 7 ∷ []

wait-notify_times_example :
    (f' : Wakeups) × (wait eventfd 3
        (map (λ n. record { readable = none; meanwhile = λ g. g }) one_idle
          ++ (record {
            readable = none;
            meanwhile = notify_times eventfd (λ f. f.count) (λ f. f.signals) eventfd-IsEventfd 3 4;
          }
              ∷ []))
        interrupted_twice
      ≡ (some (inr (min 4 counter_max)), f'))
    × (f'.count ≡ 0)
wait-notify_times_example =
    wait-notify_times eventfd (λ f. f.count) (λ f. f.signals) eventfd-IsEventfd 3 4 one_idle []
      interrupted_twice (omega arith) refl (omega arith)

drain_pipe-notify_pipe_example :
    (f1 f2 : Wakeups) × (notify_pipe (pipe_of 100) 3 (some (record { count = 70; signals = 2 }))
      ≡ (some (inr tt), some f1))
    × (drain_pipe (pipe_of 100) 101 0 f1 ≡ (some (inr (min (70 + 1) 100)), f2))
    × (f2.count ≡ 0)
drain_pipe-notify_pipe_example =
    drain_pipe-notify_pipe (pipe_of 100) (λ f. f.count) (λ f. f.signals) 100 (pipe_of-IsPipe 100) 3
      101 (record { count = 70; signals = 2 }) (omega arith) (omega arith) (omega arith)

abbrev quiet_peer : Peer
quiet_peer = record { incoming = []; outgoing = []; messages = [] }

abbrev too_long : Bytes
too_long = replicate 1021 7

recv_frame_with_fd-send_frame_with_fd_example :
    (s1 s2 : Peer) × (send_frame_with_fd peer_socket quiet_peer too_long 5 ≡ (ok tt, s1))
    × (recv_frame_with_fd peer_socket s1 ≡ (
      if leb (4 + length too_long) ancillary_recv_buf
          then ok (too_long, some 5)
          else err (uds_error (larger_than_buffer (4 + length too_long) ancillary_recv_buf)),
      s2,
    ))
recv_frame_with_fd-send_frame_with_fd_example =
    recv_frame_with_fd-send_frame_with_fd peer_socket (λ s. s.messages) peer_socket-IsMessageSocket
      quiet_peer too_long 5 refl (omega arith)
