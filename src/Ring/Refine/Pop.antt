-- ===== src/Ring/Refine/Pop.antt =====
-- A pop behaves as on the bounded queue.
use qlaster_public.Base.{
  ==_iff, All, Bytes, List, [], ap, append_assoc, arith, false, from_le_bytes,
  from_le_bytes-to_le_bytes, length, length-to_le_bytes, none, refl, some, subst, suc, sym,
  to_le_bytes, true, u32_max, ℕ, ◌++◌, ◌+◌, ◌<◌, ◌==◌, ◌^◌, ◌∙◌, ◌∷◌, ◌≡◌, ◌≢◌,
}
use qlaster_public.Extern.{IsShaq, Shaq}
use qlaster_public.Ring.{
  ShmRingConsumer, close_sentinel, pop_body, read_exact, try_pop, whole_batch,
}
use qlaster_public.Ring.Spec.{Item, Queue, close_mark, frame, pop, pop_item, popped, step}
use qlaster_public.Ring.Refine.{Ends, Holds, IsSendable, bytes_of, call, item_bytes}

module _ {Q : Type 0} (shaq : Shaq Q) (contents : Q → Bytes) (cap : ℕ)
    (laws : IsShaq shaq contents cap) (cap_small : cap < 2 ^ 32 + 3) where
  read_front :
      (q : Q) (front rest : Bytes) (n : ℕ)
      → length front ≡ suc n
      → contents q ≡ front ++ rest
      → (q' : Q) × (read_exact shaq q (suc n) ≡ (some front, q')) × (contents q' ≡ rest)
  unfolding read_exact whole_batch
  read_front q front rest n size e =
      let full : front ≢ [] = λ z. absurd (omega (arith, ap length z, size)) in
      let (q', r, p) = laws.reads q front rest full e in
      let r' : shaq.read_batch q (suc n) ≡ (some front, q') =
        ap (shaq.read_batch q) (sym size) ∙ r in
      let whole : (length front == suc n) ≡ true = (==_iff _ _).1 size in (q', rw (r', whole), p)

  -- Reading the length that stands in front.
  read_len :
      (q : Q) (n : ℕ) (rest : Bytes)
      → contents q ≡ to_le_bytes 4 n ++ rest
      → (q' : Q) × (read_exact shaq q 4 ≡ (some (to_le_bytes 4 n), q')) × (contents q' ≡ rest)
  read_len q n rest e = read_front q (to_le_bytes 4 n) rest 3 (length-to_le_bytes 4 n) e

  pub pop_nothing :
      (c : ShmRingConsumer) (q : Q) → contents q ≡ [] → try_pop shaq c q ≡ (none, c, q)
  unfolding try_pop read_exact whole_batch pop_body
  pop_nothing c q e = rw (laws.empty q 4 e)

  pub pop_close :
      (c : ShmRingConsumer) (q : Q) (rest : Bytes)
      → contents q ≡ to_le_bytes 4 close_sentinel ++ rest
      → (q' : Q) × (try_pop shaq c q ≡ (none, record c { closed = true }, q'))
        × (contents q' ≡ rest)
  unfolding try_pop pop_body
  pop_close c q rest e =
      let (q', r, p) = read_len q close_sentinel rest e in
      let word : from_le_bytes (to_le_bytes 4 close_sentinel) ≡ close_sentinel =
        from_le_bytes-to_le_bytes 4 close_sentinel (omega arith) in
      (q', rw (r, word, length-to_le_bytes 4 close_sentinel), p)

  pub pop_frame :
      (c : ShmRingConsumer) (q : Q) (body rest : Bytes)
      → length body < u32_max
      → contents q ≡ to_le_bytes 4 (length body) ++ (body ++ rest)
      → (q' : Q) × (try_pop shaq c q ≡ (some body, c, q')) × (contents q' ≡ rest)
  unfolding try_pop pop_body
  pop_frame c q [] rest small e =
      let (q', r, p) = read_len q 0 rest e in
      let word : from_le_bytes (to_le_bytes 4 0) ≡ 0 =
        from_le_bytes-to_le_bytes 4 0 (omega arith) in
      (q', rw (r, word, length-to_le_bytes 4 0), p)
  pop_frame c q (b ∷ bs) rest small e =
      let (q1, r1, p1) = read_len q (length (b ∷ bs)) ((b ∷ bs) ++ rest) e in
      let (q2, r2, p2) = read_front q1 (b ∷ bs) rest (length bs) refl p1 in
      let word : from_le_bytes (to_le_bytes 4 (length (b ∷ bs))) ≡ length (b ∷ bs) =
        from_le_bytes-to_le_bytes 4 (length (b ∷ bs)) (omega arith) in
      let other : (length (b ∷ bs) == close_sentinel) ≡ false = ground arith in
      let some_bytes : (length (b ∷ bs) == 0) ≡ false = ground arith in
      (q2, rw (r1, word, length-to_le_bytes 4 (length (b ∷ bs)), other, some_bytes, r2), p2)

  pub pop_refines :
      (items : List Item) (e : Ends Q) (s : Queue)
      → s.items ≡ items
      → Holds contents cap e s
      → ((call shaq e pop).0 ≡ (step cap s pop).0)
        × Holds contents cap (call shaq e pop).1 (step cap s pop).1
  unfolding call step pop_item bytes_of item_bytes
  pop_refines [] e s same h =
      let r = pop_nothing e.consumer e.queue (h.held ∙ ap bytes_of same) in
      rw (r, same)
        (
          ap (popped none) h.same_closed,
          record {
            held = h.held ∙ ap bytes_of same;
            sendable = tt;
            sized = h.sized;
            same_closed = h.same_closed;
            same_dropped = h.same_dropped;
          },
        )
  pop_refines (frame body ∷ items) e s same h =
      let ok_items : All IsSendable (frame body ∷ items) = subst (All IsSendable) same h.sendable in
      let (q', r, p) = pop_frame e.consumer e.queue body (bytes_of items) ok_items.0 (
        h.held
        ∙ ap bytes_of same
        ∙ append_assoc (to_le_bytes 4 (length body)) body (bytes_of items)) in
      rw (r, same)
        (
          ap (popped (some body)) h.same_closed,
          record {
            held = p;
            sendable = ok_items.1;
            sized = h.sized;
            same_closed = h.same_closed;
            same_dropped = h.same_dropped;
          },
        )
  pop_refines (close_mark ∷ items) e s same h =
      let ok_items : All IsSendable (close_mark ∷ items) = subst (All IsSendable) same h.sendable in
      let (q', r, p) = pop_close e.consumer e.queue (bytes_of items) (h.held ∙ ap bytes_of same) in
      rw (r, same)
        (
          refl,
          record {
            held = p;
            sendable = ok_items.1;
            sized = h.sized;
            same_closed = refl;
            same_dropped = h.same_dropped;
          },
        )
