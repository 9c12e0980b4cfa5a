-- ===== src/Sender/Slots/Free.antt =====
-- The search for a free slot: it finds one if there is one, or if an entry is stale.
use qlaster_public.Sender.Slots.Load.{load-set, load_in_range}
use qlaster_public.Base.{
  Bool-cases, Option, Option-cases, ap, arith, dec_le, false, inl, inr, none, refl, some, subst,
  suc, sym, true, zero, ℕ, ◌+◌, ◌<◌, ◌∙◌, ◌≡◌, ◌≤◌,
}
use qlaster_public.Extern.{Shaq}
use qlaster_public.Sender.Slots.{
  ConnectionManager, ManagedConnection, evict, find_free_slot, find_from, is_free, is_stale, load,
  max_connection_slots, maybe_cleanup_stale_slot,
}

module _ {K B Q : Type 0} (shaq : Shaq Q) where
  -- The slot that the loop meets next, and what it does there.
  evicted_free :
      (m : ConnectionManager K B Q) (idx : ℕ) (entry : ManagedConnection K B Q)
      → load m.connections idx ≡ some entry
      → load (evict shaq m idx entry).connections idx ≡ none
  unfolding evict
  evicted_free m idx entry e =
      load-set m.connections idx none (load_in_range m.connections idx entry e)

  -- What the loop gives from a slot on: a slot that is free afterwards, or none, where every slot
  -- that it passed holds an entry that is not stale.
  unfoldable pub Found :
      ℕ → ℕ → ℕ → ConnectionManager K B Q → Option ℕ × ConnectionManager K B Q → Type 0
  Found now left idx m (some i, m') = (idx ≤ i) × (i < idx + left) × (load m'.connections i ≡ none)
  Found now left idx m (none, m') =
      (m' ≡ m)
      × ((j : ℕ)
          → idx ≤ j
          → j < idx + left
          → (entry : ManagedConnection K B Q) × (load m.connections j ≡ some entry)
            × (is_stale now entry ≡ false))

  Found-next :
      (now left idx : ℕ) (m : ConnectionManager K B Q) (r : Option ℕ × ConnectionManager K B Q)
      (entry : ManagedConnection K B Q)
      → load m.connections idx ≡ some entry
      → is_stale now entry ≡ false
      → Found now left (suc idx) m r
      → Found now (suc left) idx m r
  unfolding Found
  Found-next now left idx m (some i, m') entry e fresh h =
      (omega (arith, h.0), omega (arith, h.1), h.2)
  Found-next now left idx m (none, m') entry e fresh h = (
    h.0,
    λ j low high. elim (dec_le (suc idx) j) [
      | yes above ↦ h.1 j above (omega (arith, high))
      | no here ↦
          let same : idx ≡ j = omega (arith, low, here) in
          (entry, sym (ap (load m.connections) same) ∙ e, fresh)
    ],
  )

  is_free_of_none :
      (m : ConnectionManager K B Q) (idx : ℕ)
      → load m.connections idx ≡ none
      → is_free shaq m idx ≡ true
  unfolding is_free
  is_free_of_none m idx e = rw (e, is_free)

  find_from-Found :
      (now left idx : ℕ) (m : ConnectionManager K B Q)
      → Found now left idx m (find_from shaq now left idx m)
  unfolding find_from maybe_cleanup_stale_slot Found
  find_from-Found now zero idx m = (refl, λ j low high. absurd (omega (arith, low, high)))
  find_from-Found now (suc left) idx m = elim (Option-cases (load m.connections idx)) [
    | inl free ↦
        let stop : find_from shaq now (suc left) idx m ≡ (some idx, m) = rw (free, find_from) in
        subst (Found now (suc left) idx m) (sym stop) (omega arith, omega arith, free)
    | inr (entry, e) ↦ elim (Bool-cases (is_stale now entry)) [
      | inl stale ↦
          let free = evicted_free m idx entry e in
          let stop : find_from shaq now (suc left) idx m ≡ (some idx, evict shaq m idx entry) =
            rw (e, stale, is_free_of_none (evict shaq m idx entry) idx free, find_from) in
          subst (Found now (suc left) idx m) (sym stop) (omega arith, omega arith, free)
      | inr fresh ↦
          let rest = find_from shaq now left (suc idx) m in
          let on : find_from shaq now (suc left) idx m ≡ rest = rw (e, fresh, find_from) in
          subst (Found now (suc left) idx m) (sym on)
            (Found-next now left idx m rest entry e fresh (find_from-Found now left (suc idx) m))
    ]
  ]

  Found-some :
      (now left idx i : ℕ) (m : ConnectionManager K B Q) (r : Option ℕ × ConnectionManager K B Q)
      → Found now left idx m r
      → r.0 ≡ some i
      → (i < idx + left) × (load r.1.connections i ≡ none)
  unfolding Found
  Found-some now left idx i m (some j, m') h e =
      let same : j ≡ i = cc in
      (subst (λ k. k < idx + left) same h.1, subst (λ k. load m'.connections k ≡ none) same h.2)
  Found-some now left idx i m (none, m') h e = cc

  Found-none :
      (now left idx j : ℕ) (m : ConnectionManager K B Q) (r : Option ℕ × ConnectionManager K B Q)
      → Found now left idx m r
      → r.0 ≡ none
      → idx ≤ j
      → j < idx + left
      → (r.1 ≡ m)
        × ((entry : ManagedConnection K B Q) × (load m.connections j ≡ some entry)
            × (is_stale now entry ≡ false))
  unfolding Found
  Found-none now left idx j m (some k, m') h e low high = cc
  Found-none now left idx j m (none, m') h e low high = (h.0, h.1 j low high)

  -- A slot that the search for a free one gives is one of the ten and is free afterwards.
  pub find_free_slot_found :
      (now i : ℕ) (m : ConnectionManager K B Q)
      → (find_free_slot shaq now m).0 ≡ some i
      → (i < max_connection_slots) × (load (find_free_slot shaq now m).1.connections i ≡ none)
  unfolding find_free_slot
  find_free_slot_found now i m h =
      Found-some now max_connection_slots 0 i m _ (find_from-Found now max_connection_slots 0 m) h

  -- Where the search finds no free slot, it has changed nothing, and each of the ten slots holds
  -- an entry that is not stale.
  pub find_free_slot_exhausted :
      (now j : ℕ) (m : ConnectionManager K B Q)
      → (find_free_slot shaq now m).0 ≡ none
      → j < max_connection_slots
      → ((find_free_slot shaq now m).1 ≡ m)
        × ((entry : ManagedConnection K B Q) × (load m.connections j ≡ some entry)
            × (is_stale now entry ≡ false))
  unfolding find_free_slot
  find_free_slot_exhausted now j m h small =
      Found-none now max_connection_slots 0 j m _ (find_from-Found now max_connection_slots 0 m) h
        (omega arith) small
