-- ===== src/Sender/Dispatch/Slotwise.antt =====
-- A dispatch treats each slot by itself: what it leaves in a slot depends on that slot only.
use qlaster_public.Sender.Slots.Load.{
  load-append, load-set, load_in_range, set-append, set-load, set-set,
}
use qlaster_public.Types.Account.{AccountUpdate}
use qlaster_public.Error.{ok}
use qlaster_public.Base.{
  ==_refl, Bool, Bool-cases, List, Option, [], ap, append_assoc, arith, if◌then◌else◌, inl, inr,
  length, length-append, map, none, refl, set, some, subst, suc, sym, true, ℕ, ◌++◌, ◌+◌, ◌==◌, ◌∙◌,
  ◌∷◌, ◌≡◌,
}
use qlaster_public.Extern.{Bloom, Lz4, PubkeyApi, Shaq}
use qlaster_public.Metrics.{QlasterSenderMetrics}
use qlaster_public.Transport.{OutboundFrame, Outcome, SlotSink, returned, sent, sink_push}
use qlaster_public.Sender.Filter.{SubscriptionFilter, matches_account}
use qlaster_public.Sender.Slots.{
  ConnectionManager, ManagedConnection, cleanup_if_same, evict, is_stale, load,
  max_connection_slots, maybe_cleanup_stale_slot,
}
use qlaster_public.Sender.Slots.Tokens.{IsPlaced}
use qlaster_public.Sender.Dispatch.{
  Round, Timing, dispatch_account_update, dispatch_update, encode_account_frame, frame_of, next,
  push_frame, push_to_entry, settle, visit, visit_slots,
}

module _ {K B Q : Type 0} where
  -- The entries stand in the slots that they name, the first being slot `i`.
  abbrev pub PlacedFrom : ℕ → List (Option (ManagedConnection K B Q)) → Type 0
  PlacedFrom i [] = Unit {0}
  PlacedFrom i (none ∷ slots) = PlacedFrom (suc i) slots
  PlacedFrom i (some entry ∷ slots) = (entry.slot_index ≡ i) × PlacedFrom (suc i) slots

  first_placed :
      (i : ℕ) (slots : List (Option (ManagedConnection K B Q)))
      (slot : Option (ManagedConnection K B Q))
      → PlacedFrom i (slot ∷ slots)
      → PlacedFrom i (slot ∷ [])
  first_placed i slots none h = tt
  first_placed i slots (some entry) h = (h.0, tt)

  rest_placed :
      (i : ℕ) (slots : List (Option (ManagedConnection K B Q)))
      (slot : Option (ManagedConnection K B Q))
      → PlacedFrom i (slot ∷ slots)
      → PlacedFrom (suc i) slots
  rest_placed i slots none h = h
  rest_placed i slots (some entry) h = h.1

module _ {K B Q : Type 0} (shaq : Shaq Q) (now : ℕ) (wants : SubscriptionFilter K B → Bool)
    (frame : OutboundFrame) where
  -- The entry of a slot after a push.
  unfoldable pub after_push :
      ManagedConnection K B Q → Outcome × SlotSink Q → Option (ManagedConnection K B Q)
  after_push entry (sent, sink) = some (record entry { sink = sink })
  after_push entry (returned back, sink) = none

  -- What a slot holds after the dispatch of a frame.
  unfoldable pub deliver : Option (ManagedConnection K B Q) → Option (ManagedConnection K B Q)
  deliver none = none
  deliver (some entry) =
      if is_stale now entry
      then none
      else if wants entry.filter
      then after_push entry (sink_push shaq entry.sink frame)
      else some entry

module _ {K B Q : Type 0} (shaq : Shaq Q) (now : ℕ) (send_us : ℕ → ℕ)
    (wants : SubscriptionFilter K B → Bool) (frame : OutboundFrame) where
  cleanup_pushed :
      (m : ConnectionManager K B Q) (idx : ℕ) (entry : ManagedConnection K B Q)
      → load m.connections idx ≡ some entry
      → (cleanup_if_same shaq m idx entry.connection_id).connections ≡ set m.connections idx none
  unfolding evict cleanup_if_same
  cleanup_pushed m idx entry e =
      let same : (entry.connection_id == entry.connection_id) ≡ true =
        ==_refl entry.connection_id in
      rw (e, same, cleanup_if_same)

  settle_connections :
      (m : ConnectionManager K B Q) (metrics : QlasterSenderMetrics) (idx : ℕ)
      (entry : ManagedConnection K B Q) (r : Outcome × SlotSink Q)
      → load m.connections idx ≡ some entry
      → entry.slot_index ≡ idx
      → (settle shaq now send_us m metrics idx entry r).0.connections
        ≡ set m.connections idx (after_push shaq now wants frame entry r)
  unfolding settle after_push
  settle_connections m metrics idx entry (sent, sink) here placed = refl
  settle_connections m metrics idx entry (returned back, sink) here placed =
      let entry' = record entry { sink = sink } in
      let m' = record m { connections = set m.connections idx (some entry') } in
      let held : load m'.connections idx ≡ some entry' =
        load-set m.connections idx (some entry') (load_in_range m.connections idx entry here) in
      ap (λ i. (cleanup_if_same shaq m' i entry.connection_id).connections) placed
      ∙ cleanup_pushed m' idx entry' held
      ∙ set-set m.connections idx (some entry') none

  -- The frame that the loop shares is the one that the encoder gives, at any time.
  visit_next :
      (idx : ℕ) (r : Round K B Q) (slot : Option (ManagedConnection K B Q))
      → load r.manager.connections idx ≡ slot
      → PlacedFrom idx (slot ∷ [])
      → frame_of (ok frame) r.shared_frame ≡ ok frame
      → (r' : Round K B Q) × (visit shaq now send_us wants (ok frame) idx r ≡ next r')
        × (r'.manager.connections
            ≡ set r.manager.connections idx (deliver shaq now wants frame slot))
        × (frame_of (ok frame) r'.shared_frame ≡ ok frame)
  unfolding visit deliver push_to_entry maybe_cleanup_stale_slot evict push_frame frame_of
  visit_next idx r none e placed same = (
    r,
    rw (e, visit),
    sym (set-load r.manager.connections idx) ∙ ap (set r.manager.connections idx) e,
    same,
  )
  visit_next idx r (some entry) e placed same = elim (Bool-cases (is_stale now entry)) [
    | inl stale ↦ (
      record r { manager = evict shaq r.manager idx entry },
      rw (e, stale, visit),
      rw stale,
      same,
    )
    | inr fresh ↦ elim (Bool-cases (wants entry.filter)) [
      | inl wanted ↦
          let (m', metrics') = push_to_entry shaq now send_us r.manager r.metrics idx entry frame in
          (
            record { manager = m'; metrics = metrics'; shared_frame = some frame },
            rw (e, fresh, wanted, same, visit),
            rw (fresh, wanted)
                (settle_connections r.manager r.metrics idx entry (sink_push shaq entry.sink frame)
                  e placed.0),
            refl,
          )
      | inr other ↦ (
        r,
        rw (e, fresh, other, visit),
        rw (fresh, other)
            (sym (set-load r.manager.connections idx) ∙ ap (set r.manager.connections idx) e),
        same,
      )
    ]
  ]

  visit_slots-deliver :
      (front slots : List (Option (ManagedConnection K B Q))) (r : Round K B Q)
      → r.manager.connections ≡ front ++ slots
      → PlacedFrom (length front) slots
      → frame_of (ok frame) r.shared_frame ≡ ok frame
      → (visit_slots shaq now send_us wants
          (ok frame)
          (length slots)
          (length front)
          r).manager.connections
        ≡ front ++ map (deliver shaq now wants frame) slots
  unfolding visit_slots
  visit_slots-deliver front [] r e placed same = e
  visit_slots-deliver front (slot ∷ slots) r e placed same =
      let here : load r.manager.connections (length front) ≡ slot =
        ap (λ s. load s (length front)) e ∙ load-append front slot slots in
      let (r', step, after, same') =
        visit_next (length front) r slot here (first_placed (length front) slots slot placed)
          same in
      let now_slot = deliver shaq now wants frame slot in
      let front' = front ++ (now_slot ∷ []) in
      let size : length front' ≡ suc (length front) =
        omega (arith, length-append front (now_slot ∷ [])) in
      let rest =
        visit_slots-deliver front' slots r'
          (after
            ∙ ap (λ s. set s (length front) now_slot) e
            ∙ set-append front slot now_slot slots
            ∙ sym (append_assoc front (now_slot ∷ []) slots))
          (subst (λ n. PlacedFrom n slots) (sym size)
            (rest_placed (length front) slots slot placed))
          same' in
      rw (step, visit_slots)
        (ap
            (λ n.
              (visit_slots shaq now send_us wants (ok frame) (length slots) n
                r').manager.connections)
            (sym size)
          ∙ rest
          ∙ append_assoc front (now_slot ∷ []) (map (deliver shaq now wants frame) slots))

  -- `IsPlaced`, from a slot on.
  IsPlaced-PlacedFrom :
      (i : ℕ) (slots : List (Option (ManagedConnection K B Q)))
      → ((j : ℕ) (entry : ManagedConnection K B Q)
          → load slots j ≡ some entry
          → entry.slot_index ≡ i + j)
      → PlacedFrom i slots
  unfolding load
  IsPlaced-PlacedFrom i [] h = tt
  IsPlaced-PlacedFrom i (none ∷ slots) h =
      IsPlaced-PlacedFrom (suc i) slots (λ j entry e. omega (arith, h (suc j) entry e))
  IsPlaced-PlacedFrom i (some entry ∷ slots) h = (
    omega (arith, h 0 entry refl),
    IsPlaced-PlacedFrom (suc i) slots (λ j entry' e. omega (arith, h (suc j) entry' e)),
  )

  pub dispatch_update-deliver :
      (dispatch_us : ℕ) (m : ConnectionManager K B Q) (metrics : QlasterSenderMetrics)
      → IsPlaced m
      → length m.connections ≡ max_connection_slots
      → (dispatch_update shaq now send_us wants (ok frame) dispatch_us m metrics).0.connections
        ≡ map (deliver shaq now wants frame) m.connections
  unfolding dispatch_update frame_of
  dispatch_update-deliver dispatch_us m metrics placed size =
      let start : Round K B Q = record { manager = m; metrics = metrics; shared_frame = none } in
      ap (λ n. (visit_slots shaq now send_us wants (ok frame) n 0 start).manager.connections)
        (sym size)
      ∙ visit_slots-deliver [] m.connections start refl
          (IsPlaced-PlacedFrom 0 m.connections (λ j entry e. omega (arith, (placed j entry e).0)))
          refl

-- `frame` is what the encoder gives for the update.
module _ {K B Q : Type 0} (shaq : Shaq Q) (frame : OutboundFrame) where
  -- Where every entry stands in the slot that it names and the update is encoded as a frame, a
  -- dispatch leaves in each of the ten slots what that slot alone decides: a stale entry is gone,
  -- one whose filter matches has had the frame pushed, and is gone if its sink refused it, and any
  -- other is unchanged.
  pub dispatch_account_update-deliver :
      (keys : PubkeyApi K) (lz4 : Lz4) (bloom : Bloom B) (t : Timing) (update : AccountUpdate K)
      (m : ConnectionManager K B Q) (metrics : QlasterSenderMetrics)
      → IsPlaced m
      → length m.connections ≡ max_connection_slots
      → encode_account_frame keys lz4 t.frame_start t.created_at update ≡ ok frame
      → (dispatch_account_update keys lz4 bloom shaq t update m metrics).0.connections
        ≡ map
            (deliver shaq t.now_ms (λ filter. matches_account keys bloom filter update) frame)
            m.connections
  unfolding dispatch_account_update
  dispatch_account_update-deliver keys lz4 bloom t update m metrics placed size encoded =
      ap
        (λ e.
          (dispatch_update shaq t.now_ms t.send_us
            (λ filter. matches_account keys bloom filter update) e t.dispatch_us m
            metrics).0.connections)
        encoded
      ∙ dispatch_update-deliver shaq t.now_ms t.send_us
          (λ filter. matches_account keys bloom filter update) frame t.dispatch_us m metrics placed
          size
