-- ===== src/Sender/Connection/Refine.antt =====
-- src/sender/shm.rs: a connection serves the frames of its client in their order, whatever their bytes,
-- returns when the client has closed it, and answers each subscription.
use qlaster_public.Extern.System.{MessageSocket, PassesNone, SendsWhole}
use qlaster_public.Sender.Connection.Serve.{
  Decodes, Outcome, reply_bytes, reply_descriptor, reply_descriptors, reply_payload, serve, served,
  wire_bytes,
}
use qlaster_public.Sender.Connection.{
  RoundEnv, Session, forward, forwarded, goes_on, handle_frame, handle_uds_connection, on_read,
  reply, stream_of, turned,
}
use qlaster_public.Sender.Upsert.{ShmSlotProvision, created, existing, upsert_shm}
use qlaster_public.Sender.Slots.{touch_ping}
use qlaster_public.Wire.Duplex.{
  read_framed-incoming, read_framed-passed, read_framed_end, write_framed-outgoing,
  write_framed-passed,
}
use qlaster_public.Wire.Framing.{frame}
use qlaster_public.Wire.{read_framed}
use qlaster_public.Uds.{send_frame_with_fd, sendmsg_with_fd, sent_whole, uds_result}
use qlaster_public.Types.Frames.{ClientFrame, Codecs, decode_client_frame, ping, subscription}
use qlaster_public.Types.Subscription.{SubscriptionRequest}
use qlaster_public.Extern.{Bloom, IsDuplex, PubkeyApi, Shaq, Stream}
use qlaster_public.Error.{Result, err, ok, panicked}
use qlaster_public.Base.{
  ==_refl, All, Bytes, List, String, [], ap, append-nil, append_assoc, arith, false, length, ltb,
  refl, some, suc, sym, to_le_bytes, true, u32_max, zero, ℕ, ◌++◌, ◌<◌, ◌==◌, ◌∙◌, ◌∷◌, ◌≡◌, ◌≤◌,
}

module _ {S K B Q : Type 0} (keys : PubkeyApi K) (codecs : Codecs) (bloom : Bloom B) (shaq : Shaq Q)
    (stream : Stream S) (socket : MessageSocket S) (ring_path : ℕ → ℕ → String) (ring_capacity : ℕ)
    (incoming outgoing : S → Bytes) (passed : S → List (Bytes × ℕ))
    (laws : IsDuplex stream incoming outgoing) (whole : SendsWhole socket incoming outgoing passed)
    (alone : PassesNone stream passed) where
  -- A stream from which nothing was taken, and onto which these replies were written.
  abbrev Replied : S → S → Bytes → List (Bytes × ℕ) → Type 0
  Replied s s' bytes descriptors =
      (incoming s' ≡ incoming s)
      × (outgoing s' ≡ outgoing s ++ bytes)
      × (passed s' ≡ passed s ++ descriptors)

  send_frame-Replied :
      (s : S) (payload : Bytes) (fd : ℕ)
      → length payload ≤ u32_max
      → (s' : S) × (send_frame_with_fd socket s payload fd ≡ (ok tt, s'))
        × Replied s s' (frame payload) ((frame payload, fd) ∷ [])
  unfolding send_frame_with_fd sendmsg_with_fd sent_whole uds_result frame
  send_frame-Replied s payload fd bound =
      let message = to_le_bytes 4 (length payload) ++ payload in
      let (s', answer, same, out, descriptor) = whole.sends_whole s message fd in
      let small : ltb u32_max (length payload) ≡ false = ground (arith, bound) in
      let all_sent : (length message == length message) ≡ true = ==_refl (length message) in
      (s', rw (small, answer, all_sent) refl, (same, out, descriptor))

  -- A reply is sent, and the request is forwarded.
  reply-goes_on :
      (env : RoundEnv Q) (request : SubscriptionRequest K) (s : Session S K B Q)
      (provision : ShmSlotProvision)
      → length (reply_payload codecs provision) ≤ u32_max
      → (s' : S) × (reply keys codecs bloom shaq stream socket ring_path ring_capacity env request s
            (ok provision)
          ≡ goes_on (record s {
            stream = s';
            bloom_updates = forward s.bloom_updates request env.received_at;
          }))
        × Replied s.stream s'
            (frame (reply_payload codecs provision))
            (reply_descriptor codecs provision)
  unfolding reply forwarded stream_of
  reply-goes_on env request s (created token path capacity fd) fits =
      let (s', sent, replied) = send_frame-Replied s.stream _ fd fits in (s', rw sent refl, replied)
  reply-goes_on env request s (existing token) fits =
      let (s', sent, same, out) =
        write_framed-outgoing stream incoming outgoing laws s.stream _ fits in
      let kept = write_framed-passed stream passed alone s.stream s' _ sent in
      (s', rw sent refl, (same, out, kept ∙ sym (append-nil (passed s.stream))))

  -- A round of the loop, by what was read and what it decodes to.
  round_of :
      (env : ℕ → RoundEnv Q) (fuel i : ℕ) (s : Session S K B Q) (payload : Bytes) (rest : S)
      (f : ClientFrame K)
      → read_framed stream s.stream ≡ ok (payload, rest)
      → decode_client_frame keys codecs payload ≡ ok f
      → handle_uds_connection keys codecs bloom shaq stream socket ring_path ring_capacity env
          (suc fuel)
          i
          s
        ≡ turned keys codecs bloom shaq stream socket ring_path ring_capacity
            (handle_frame keys codecs bloom shaq stream socket ring_path ring_capacity
              (env i)
              (record s { stream = rest })
              (ok f))
            (handle_uds_connection keys codecs bloom shaq stream socket ring_path ring_capacity env
              fuel
              (suc i))
  unfolding handle_uds_connection on_read
  round_of env fuel i s payload rest f read decoded =
      ap
        (λ r.
          turned keys codecs bloom shaq stream socket ring_path ring_capacity
            (on_read keys codecs bloom shaq stream socket ring_path ring_capacity (env i) s r)
            (handle_uds_connection keys codecs bloom shaq stream socket ring_path ring_capacity env
              fuel (suc i)))
        read
      ∙ ap
          (λ d.
            turned keys codecs bloom shaq stream socket ring_path ring_capacity
              (handle_frame keys codecs bloom shaq stream socket ring_path ring_capacity (env i)
                (record s { stream = rest }) d)
              (handle_uds_connection keys codecs bloom shaq stream socket ring_path ring_capacity
                env fuel (suc i)))
          decoded

  -- What a served session leaves, where it began as `s`.
  abbrev pub Leaves : Session S K B Q → Session S K B Q → Outcome K B Q → Type 0
  Leaves s s' o =
      (s'.manager ≡ o.manager)
      × (s'.bloom_updates ≡ o.bloom_updates)
      × (outgoing s'.stream ≡ outgoing s.stream ++ reply_bytes codecs o.replies)
      × (passed s'.stream ≡ passed s.stream ++ reply_descriptors codecs o.replies)

  -- What a session leaves that another one goes on with, behind a reply.
  after_reply :
      {A : Type 0} (before between after first rest : List A)
      → between ≡ before ++ first
      → after ≡ between ++ rest
      → after ≡ before ++ (first ++ rest)
  after_reply before between after first rest e e' =
      e' ∙ ap (λ xs. xs ++ rest) e ∙ append_assoc before first rest

  onto :
      {A : Type 0} (before between after rest : List A)
      → between ≡ before
      → after ≡ between ++ rest
      → after ≡ before ++ rest
  onto before between after rest e e' = e' ∙ ap (λ xs. xs ++ rest) e

  -- After a subscription, where the rest of the loop serves the rest of the frames.
  subscription-Leaves :
      (env : ℕ → RoundEnv Q) (fuel i : ℕ) (s : Session S K B Q) (request : SubscriptionRequest K)
      (provision : Result ShmSlotProvision) (rest : Outcome K B Q)
      → All
          (λ p. length (reply_payload codecs p) ≤ u32_max)
          (served provision s.manager s.bloom_updates rest).replies
      → ((sent : S)
          → incoming sent ≡ incoming s.stream
          → All (λ p. length (reply_payload codecs p) ≤ u32_max) rest.replies
          → (s' : Session S K B Q) × (handle_uds_connection keys codecs bloom shaq stream socket
                ring_path ring_capacity env fuel
                (suc i)
                (record s {
                  stream = sent;
                  bloom_updates = forward s.bloom_updates request (env i).received_at;
                })
              ≡ some (rest.result, s'))
            × Leaves (record s { stream = sent }) s' rest)
      → (s' : Session S K B Q) × (turned keys codecs bloom shaq stream socket ring_path
            ring_capacity
            (reply keys codecs bloom shaq stream socket ring_path ring_capacity
              (env i)
              request
              s
              provision)
            (handle_uds_connection keys codecs bloom shaq stream socket ring_path ring_capacity env
              fuel
              (suc i))
          ≡ some ((served provision s.manager s.bloom_updates rest).result, s'))
        × Leaves s s' (served provision s.manager s.bloom_updates rest)
  unfolding reply reply_bytes reply_descriptors
  subscription-Leaves env fuel i s request (ok provision) rest fits on =
      let (sent, replied, (same, out, descriptors)) =
        reply-goes_on (env i) request s provision fits.0 in
      let (s', done, (m, u, b, d)) = on sent same fits.1 in
      (
        s',
        ap
              (λ t. turned keys codecs bloom shaq stream socket ring_path ring_capacity t (
                handle_uds_connection keys codecs bloom shaq stream socket ring_path ring_capacity
                  env fuel (suc i)))
              replied
            ∙ done,
        (m, u, after_reply _ _ _ _ _ out b, after_reply _ _ _ _ _ descriptors d),
      )
  subscription-Leaves env fuel i s request (err e) rest fits on =
      (s, refl, (refl, refl, sym (append-nil _), sym (append-nil _)))
  subscription-Leaves env fuel i s request panicked rest fits on =
      (s, refl, (refl, refl, sym (append-nil _), sym (append-nil _)))

  -- Where the bytes that come in are frames of at most MAX_FRAME_SIZE that decode to these client
  -- frames, and then the end, a connection with more fuel than frames ends with the result, the
  -- manager and the forwarded requests of serving the frames one by one: without an error, once
  -- the client has closed it, or with the first error of upsert_shm; behind what had gone out
  -- before stand the replies to the subscriptions in their order, each in a frame, and the
  -- descriptor of each new connection in one message with its reply; stream and socket keep their
  -- laws, and the replies of this session each fit 32 bits.
  pub handle_uds_connection-serve :
      (env : ℕ → RoundEnv Q) (fuel i : ℕ) (payloads : List Bytes) (frames : List (ClientFrame K))
      (s : Session S K B Q)
      → length payloads < fuel
      → Decodes keys codecs payloads frames
      → incoming s.stream ≡ wire_bytes payloads
      → All
          (λ p. length (reply_payload codecs p) ≤ u32_max)
          (serve keys bloom shaq ring_path ring_capacity env i frames s.manager
            s.bloom_updates).replies
      → (s' : Session S K B Q) × (handle_uds_connection keys codecs bloom shaq stream socket
            ring_path ring_capacity env fuel i s
          ≡ some (
            (serve keys bloom shaq ring_path ring_capacity env i frames s.manager
                s.bloom_updates).result,
            s',
          ))
        × Leaves s s'
            (serve keys bloom shaq ring_path ring_capacity env i frames s.manager s.bloom_updates)
  unfolding handle_uds_connection serve wire_bytes on_read handle_frame reply_bytes
      reply_descriptors
  handle_uds_connection-serve env zero i payloads frames s enough decodes held fits =
      absurd (omega (arith, enough))
  handle_uds_connection-serve env (suc fuel) i [] [] s enough decodes held fits =
      let ended = read_framed_end stream incoming outgoing laws s.stream held in
      (
        s,
        ap
            (λ r.
              turned keys codecs bloom shaq stream socket ring_path ring_capacity
                (on_read keys codecs bloom shaq stream socket ring_path ring_capacity (env i) s r)
                (handle_uds_connection keys codecs bloom shaq stream socket ring_path ring_capacity
                  env fuel (suc i)))
            ended,
        (refl, refl, sym (append-nil (outgoing s.stream)), sym (append-nil (passed s.stream))),
      )
  handle_uds_connection-serve env (suc fuel) i [] (f ∷ frames) s enough decodes held fits =
      absurd decodes
  handle_uds_connection-serve env (suc fuel) i (payload ∷ payloads) [] s enough decodes held fits =
      absurd decodes
  handle_uds_connection-serve env (suc fuel) i (payload ∷ payloads) (ping f ∷ frames) s enough
        decodes held fits =
      let (rest, read, left, out) =
        read_framed-incoming stream incoming outgoing laws s.stream payload (wire_bytes payloads)
          decodes.0 held in
      let kept = read_framed-passed stream passed alone s.stream rest payload read in
      let m' = (touch_ping shaq (env i).now_ms s.manager f).1 in
      let (s', on, (m, u, b, d)) =
        handle_uds_connection-serve env fuel (suc i) payloads frames
          (record s { stream = rest; manager = m' }) (omega (arith, enough)) decodes.2 left fits in
      (
        s',
        round_of env fuel i s payload rest (ping f) read decodes.1 ∙ on,
        (m, u, onto _ _ _ _ out b, onto _ _ _ _ kept d),
      )
  handle_uds_connection-serve env (suc fuel) i (payload ∷ payloads) (subscription request ∷ frames)
        s enough decodes held fits =
      let (rest, read, left, out) =
        read_framed-incoming stream incoming outgoing laws s.stream payload (wire_bytes payloads)
          decodes.0 held in
      let kept = read_framed-passed stream passed alone s.stream rest payload read in
      let upserted =
        upsert_shm keys bloom shaq ring_path ring_capacity (env i).now_ms request
          (env i).provisioning s.manager in
      let s1 : Session S K B Q = record s { stream = rest; manager = upserted.1 } in
      let (s', on, (m, u, b, d)) =
        subscription-Leaves env fuel i s1 request upserted.0
          (serve keys bloom shaq ring_path ring_capacity env (suc i) frames upserted.1
            (forward s.bloom_updates request (env i).received_at))
          fits
          (λ sent same more.
            handle_uds_connection-serve env fuel (suc i) payloads frames
              (record s1 {
                stream = sent;
                bloom_updates = forward s.bloom_updates request (env i).received_at;
              })
              (omega (arith, enough)) decodes.2 (same ∙ left) more) in
      (
        s',
        round_of env fuel i s payload rest (subscription request) read decodes.1 ∙ on,
        (m, u, onto _ _ _ _ out b, onto _ _ _ _ kept d),
      )
