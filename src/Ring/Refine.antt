-- ===== src/Ring/Refine.antt =====
-- The two ends of the ring and the bounded queue of Ring/Spec: what a call is, and when both agree.
pub mod Pop
pub mod Push
pub mod Run
use qlaster_public.Base.{
  All, Bytes, List, [], ap, append-nil, append_assoc, arith, length, length-append,
  length-to_le_bytes, refl, sym, to_le_bytes, u32_max, ℕ, ◌++◌, ◌<◌, ◌∙◌, ◌∷◌, ◌≡◌,
}
use qlaster_public.Extern.{Shaq}
use qlaster_public.Ring.{
  ShmRingConsumer, ShmRingProducer, close, close_sentinel, concat_parts, total_len, try_pop,
  try_push,
}
use qlaster_public.Ring.Spec
use qlaster_public.Ring.Spec.{
  Item, Op, Out, Queue, close_mark, cost, frame, pop, popped, push, pushed, shut, shut_down,
}

-- Both ends and the shared queue.
pub record Ends (Q : Type 0) : Type 0 where
  pub producer : ShmRingProducer
  pub consumer : ShmRingConsumer
  pub queue : Q

module _ {Q : Type 0} (shaq : Shaq Q) where
  -- One call of a method.
  unfoldable pub call : Ends Q → Op → Out × Ends Q
  call e (push parts) =
      let (r, p, q) = try_push shaq e.producer e.queue parts in
      (pushed r, record e { producer = p; queue = q })
  call e pop =
      let (r, c, q) = try_pop shaq e.consumer e.queue in
      (popped r c.closed, record e { consumer = c; queue = q })
  call e shut = (shut_down, record e { queue = close shaq e.queue })

  unfoldable pub calls : Ends Q → List Op → List Out
  calls e [] = []
  calls e (op ∷ ops) = (call e op).0 ∷ calls (call e op).1 ops

-- What the queue's bytes say.
unfoldable pub item_bytes : Item → Bytes
item_bytes (frame body) = to_le_bytes 4 (length body) ++ body
item_bytes close_mark = to_le_bytes 4 close_sentinel

unfoldable pub bytes_of : List Item → Bytes
bytes_of [] = []
bytes_of (i ∷ items) = item_bytes i ++ bytes_of items

-- A length that is not taken for the close mark.
abbrev pub IsSendable : Item → Type 0
IsSendable (frame body) = length body < u32_max
IsSendable close_mark = Unit {0}

pub record Holds {Q : Type 0} (contents : Q → Bytes) (cap : ℕ) (e : Ends Q) (s : Queue)
    : Type 0 where
  pub held : contents e.queue ≡ bytes_of s.items
  pub sendable : All IsSendable s.items
  pub sized : e.producer.capacity ≡ cap
  pub same_closed : e.consumer.closed ≡ s.closed
  pub same_dropped : e.producer.dropped_frames ≡ s.dropped

pub length-concat_parts : (parts : List Bytes) → total_len parts ≡ length (concat_parts parts)
unfolding total_len concat_parts
length-concat_parts [] = refl
length-concat_parts (part ∷ parts) =
    omega (arith, length-append part (concat_parts parts), length-concat_parts parts)

pub length-bytes_of : (items : List Item) → length (bytes_of items) ≡ cost items
unfolding bytes_of item_bytes cost
length-bytes_of [] = refl
length-bytes_of (frame body ∷ items) =
    omega (arith, length-append {0}, length-to_le_bytes, length-bytes_of items)
length-bytes_of (close_mark ∷ items) =
    omega (arith, length-append {0}, length-to_le_bytes, length-bytes_of items)

pub bytes_of-append :
    (items : List Item) (i : Item) → bytes_of (items ++ (i ∷ [])) ≡ bytes_of items ++ item_bytes i
unfolding bytes_of
bytes_of-append [] i = append-nil (item_bytes i)
bytes_of-append (j ∷ items) i =
    ap (λ r. item_bytes j ++ r) (bytes_of-append items i)
    ∙ sym (append_assoc (item_bytes j) (bytes_of items) (item_bytes i))
