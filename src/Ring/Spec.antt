-- ===== src/Ring/Spec.antt =====
-- What the ring promises: a bounded first-in first-out queue of frames and close marks.
use qlaster_public.Base.{
  Bool, Bytes, List, Option, [], false, fetch_add, if◌then◌else◌, leb, length, ltb, none, some,
  true, u32_max, ℕ, ◌++◌, ◌+◌, ◌∷◌,
}
use qlaster_public.Error.{
  Result, err, frame_exceeds_capacity, ok, payload_too_large, shm_error, shm_full,
}
use qlaster_public.Ring.{concat_parts}

pub data Item : Type 0 where
  frame : Bytes → Item
  close_mark : Item

pub data Op : Type 0 where
  push : List Bytes → Op
  pop : Op
  shut : Op

pub data Out : Type 0 where
  pushed : Result (Unit {0}) → Out
  popped : Option Bytes → Bool → Out
  shut_down : Out

-- The bytes that an item takes.
unfoldable pub cost : List Item → ℕ
cost [] = 0
cost (frame body ∷ items) = 4 + length body + cost items
cost (close_mark ∷ items) = 4 + cost items

-- The items, oldest first, whether the consumer has met a close mark, and the pushes refused for
-- want of room.
pub record Queue : Type 0 where
  pub items : List Item
  pub closed : Bool
  pub dropped : ℕ

unfoldable pub pop_item : List Item → Bool → ℕ → Out × Queue
pop_item [] closed dropped =
    (popped none closed, record { items = []; closed = closed; dropped = dropped })
pop_item (frame body ∷ items) closed dropped =
    (popped (some body) closed, record { items = items; closed = closed; dropped = dropped })
pop_item (close_mark ∷ items) closed dropped =
    (popped none true, record { items = items; closed = true; dropped = dropped })

-- One call on a queue of `cap` bytes.
unfoldable pub step : ℕ → Queue → Op → Out × Queue
step cap s (push parts) =
    let body = concat_parts parts in
    let size = 4 + length body in
    if ltb u32_max (length body)
    then (pushed (err (payload_too_large (length body) u32_max)), s)
    else if ltb cap size
    then (pushed (err (shm_error (frame_exceeds_capacity size cap))), s)
    else if leb (cost s.items + size) cap
    then (pushed (ok tt), record s { items = s.items ++ (frame body ∷ []) })
    else (pushed (err shm_full), record s { dropped = fetch_add s.dropped 1 })
step cap s pop = pop_item s.items s.closed s.dropped
step cap s shut = (
  shut_down,
  if leb (cost s.items + 4) cap then record s { items = s.items ++ (close_mark ∷ []) } else s,
)

unfoldable pub run : ℕ → Queue → List Op → List Out
run cap s [] = []
run cap s (op ∷ ops) = (step cap s op).0 ∷ run cap (step cap s op).1 ops

abbrev pub fresh : Queue
fresh = record { items = []; closed = false; dropped = 0 }
