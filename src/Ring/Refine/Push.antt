-- ===== src/Ring/Refine/Push.antt =====
-- A push and a close behave as on the bounded queue.
use qlaster_public.Base.{
  All-append, Bool, Bool-cases, Bytes, List, [], ap, ap₂, arith, dec_le, false, fetch_add,
  if◌then◌else◌, inl, inr, leb, length, length-append, length-to_le_bytes, ltb, refl, sym,
  to_le_bytes, true, u32_max, ℕ, ◌++◌, ◌+◌, ◌<◌, ◌^◌, ◌∙◌, ◌∷◌, ◌≡◌, ◌≤◌,
}
use qlaster_public.Error.{err, frame_exceeds_capacity, ok, shm_error, shm_full}
use qlaster_public.Extern.{IsShaq, Shaq}
use qlaster_public.Ring.{close, close_sentinel, concat_parts, try_push, write_frame}
use qlaster_public.Ring.Spec.{Item, Out, Queue, close_mark, cost, frame, push, pushed, shut, step}
use qlaster_public.Ring.Refine.{
  Ends, Holds, IsSendable, bytes_of, bytes_of-append, call, item_bytes, length-bytes_of,
  length-concat_parts,
}

module _ {Q : Type 0} (shaq : Shaq Q) (contents : Q → Bytes) (cap : ℕ)
    (laws : IsShaq shaq contents cap) (cap_small : cap < 2 ^ 32 + 3) where
  -- A push that finds room appends the item, and one that does not changes nothing.
  write_item :
      (e : Ends Q) (s : Queue) (i : Item) (bytes : Bytes)
      → Holds contents cap e s
      → IsSendable i
      → bytes ≡ item_bytes i
      → cost s.items + length bytes ≤ cap
      → (q' : Q) × (shaq.try_write_slice e.queue bytes ≡ (true, q'))
        × (contents q' ≡ bytes_of (s.items ++ (i ∷ [])))
  write_item e s i bytes h fine same room =
      let used : length (contents e.queue) ≡ cost s.items =
        ap length h.held ∙ length-bytes_of s.items in
      let (q', w, p) = laws.writes e.queue bytes (omega (arith, used, room)) in
      (q', w, p ∙ ap₂ ◌++◌ h.held same ∙ sym (bytes_of-append s.items i))

  no_room :
      (e : Ends Q) (s : Queue) (bytes : Bytes)
      → Holds contents cap e s
      → cap < cost s.items + length bytes
      → shaq.try_write_slice e.queue bytes ≡ (false, e.queue)
  no_room e s bytes h over =
      let used : length (contents e.queue) ≡ cost s.items =
        ap length h.held ∙ length-bytes_of s.items in
      laws.full e.queue bytes (omega (arith, used, over))

  close_of :
      (q q' : Q) (written : Bool)
      → shaq.try_write_slice q (to_le_bytes 4 close_sentinel) ≡ (written, q')
      → close shaq q ≡ q'
  unfolding close
  close_of q q' written w = ap (λ r. r.1) w

  pub shut_refines :
      (e : Ends Q) (s : Queue)
      → Holds contents cap e s
      → ((call shaq e shut).0 ≡ (step cap s shut).0)
        × Holds contents cap (call shaq e shut).1 (step cap s shut).1
  unfolding call step item_bytes
  shut_refines e s h =
      let mark = to_le_bytes 4 close_sentinel in
      let size : length mark ≡ 4 = length-to_le_bytes 4 close_sentinel in
      elim (dec_le (cost s.items + 4) cap) [
        | yes room ↦
            let (q', w, p) = write_item e s close_mark mark h tt refl (omega (arith, size, room)) in
            let fits : leb (cost s.items + 4) cap ≡ true = ground (arith, room) in
            rw (close_of e.queue q' true w, fits)
              (
                refl,
                record {
                  held = p;
                  sendable = All-append IsSendable s.items (close_mark ∷ []) h.sendable (tt, tt);
                  sized = h.sized;
                  same_closed = h.same_closed;
                  same_dropped = h.same_dropped;
                },
              )
        | no over ↦
            let fits : leb (cost s.items + 4) cap ≡ false = ground (arith, over) in
            let w = no_room e s mark h (omega (arith, size, over)) in
            rw (close_of e.queue e.queue false w, fits) (refl, h)
      ]

  -- A push of a frame that is not too large.
  push_fitting :
      (e : Ends Q) (s : Queue) (body : Bytes)
      → Holds contents cap e s
      → 4 + length body ≤ cap
      → let (r, p, q) = write_frame shaq e.producer e.queue (to_le_bytes 4 (length body) ++ body) in
        let room = leb (cost s.items + (4 + length body)) cap in
        (pushed r ≡ (if room then pushed (ok tt) else pushed (err shm_full)))
        × Holds contents cap
            (record e { producer = p; queue = q })
            (if room
              then record s { items = s.items ++ (frame body ∷ []) }
              else record s { dropped = fetch_add s.dropped 1 })
  unfolding write_frame item_bytes
  push_fitting e s body h small =
      let bytes = to_le_bytes 4 (length body) ++ body in
      let size : length bytes ≡ 4 + length body = omega (
        arith,
        length-append (to_le_bytes 4 (length body)) body,
        length-to_le_bytes 4 (length body),
      ) in
      elim (dec_le (cost s.items + (4 + length body)) cap) [
        | yes room ↦
            let sendable : length body < u32_max = omega (arith, cap_small, small) in
            let (q', w, p) =
              write_item e s (frame body) bytes h sendable refl (omega (arith, size, room)) in
            let fits : leb (cost s.items + (4 + length body)) cap ≡ true = ground (arith, room) in
            rw (w, fits)
              (
                refl,
                record {
                  held = p;
                  sendable =
                      All-append IsSendable s.items (frame body ∷ []) h.sendable (sendable, tt);
                  sized = h.sized;
                  same_closed = h.same_closed;
                  same_dropped = h.same_dropped;
                },
              )
        | no over ↦
            let fits : leb (cost s.items + (4 + length body)) cap ≡ false = ground (arith, over) in
            let w = no_room e s bytes h (omega (arith, size, over)) in
            rw (w, fits)
              (
                refl,
                record {
                  held = h.held;
                  sendable = h.sendable;
                  sized = h.sized;
                  same_closed = h.same_closed;
                  same_dropped = ap (λ (n : ℕ). fetch_add n 1) h.same_dropped;
                },
              )
      ]

  -- `step` on a push, its two results split.
  step_push :
      (s : Queue) (body : Bytes) (room : Bool)
      → ((if room
            then (pushed (ok tt), record s { items = s.items ++ (frame body ∷ []) })
            else (pushed (err shm_full), record s { dropped = fetch_add s.dropped 1 }))
          ≡ (let r : Out × Queue = (
            (if room then pushed (ok tt) else pushed (err shm_full)),
            (if room
                then record s { items = s.items ++ (frame body ∷ []) }
                else record s { dropped = fetch_add s.dropped 1 }),
          ) in
              r))
  step_push s body true = refl
  step_push s body false = refl

  too_large_error :
      (e : Ends Q) (s : Queue) (size : ℕ)
      → Holds contents cap e s
      → pushed (err (shm_error (frame_exceeds_capacity size e.producer.capacity)))
        ≡ pushed (err (shm_error (frame_exceeds_capacity size cap)))
  too_large_error e s size h =
      ap (λ (c : ℕ). pushed (err (shm_error (frame_exceeds_capacity size c)))) h.sized

  pub push_refines :
      (e : Ends Q) (s : Queue) (parts : List Bytes)
      → Holds contents cap e s
      → ((call shaq e (push parts)).0 ≡ (step cap s (push parts)).0)
        × Holds contents cap (call shaq e (push parts)).1 (step cap s (push parts)).1
  unfolding call step try_push write_frame item_bytes
  push_refines e s parts h =
      let body = concat_parts parts in
      let size : length (to_le_bytes 4 (length body) ++ body) ≡ 4 + length body = omega (
        arith,
        length-append (to_le_bytes 4 (length body)) body,
        length-to_le_bytes 4 (length body),
      ) in
      rw (length-concat_parts parts) (elim (Bool-cases (ltb u32_max (length body))) [
        | inl huge ↦ rw huge (refl, h)
        | inr ordinary ↦ rw ordinary (elim (Bool-cases (ltb cap (4 + length body))) [
          | inl large ↦
              let same : ltb e.producer.capacity (4 + length body) ≡ true =
                ap (λ c. ltb c (4 + length body)) h.sized ∙ large in
              rw (same, large) (too_large_error e s (4 + length body) h, h)
          | inr small ↦
              let bounded : 4 + length body ≤ cap = ground (arith, small) in
              let same : ltb e.producer.capacity (4 + length body) ≡ false =
                ap (λ c. ltb c (4 + length body)) h.sized ∙ small in
              rw (same, small, step_push s body (leb (cost s.items + (4 + length body)) cap))
                (push_fitting e s body h bounded)
        ])
      ])
