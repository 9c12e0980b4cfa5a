-- ===== src/Sender/Invariant.antt =====
-- src/sender/mod.rs: what holds of a `ConnectionManager` between two calls. Every entry stands in the
-- slot that it names, no two live connections have the same id, and none has the id of a removed one.
-- The ids given so far are below `bound`, the counter stands at `next`, and `dead` is an id that no
-- entry has any more.
pub mod Calls
pub mod Provision
pub mod Run
use qlaster_public.Sender.Slots.Load.{length-set, load-set_cases}
use qlaster_public.Extern.{Shaq}
use qlaster_public.Base.{
  All, List, [], ap, arith, inl, inr, length, none, refl, set, some, subst, suc, sym, ℕ, ◌<◌, ◌∙◌,
  ◌∷◌, ◌≡◌, ◌≢◌, ◌⊎◌,
}
use qlaster_public.Sender.Slots
use qlaster_public.Sender.Slots.{
  ConnectionManager, ManagedConnection, evict, load, max_connection_slots,
}

pub record IsValidAt {K B Q : Type 0} (next bound dead : ℕ) (m : ConnectionManager K B Q)
    : Type 0 where
  pub counter : m.next_connection_id ≡ next
  pub size : length m.connections ≡ max_connection_slots
  pub placed :
      (i : ℕ) (entry : ManagedConnection K B Q)
      → load m.connections i ≡ some entry
      → (entry.slot_index ≡ i) × (i < max_connection_slots)
  pub live :
      (i : ℕ) (entry : ManagedConnection K B Q)
      → load m.connections i ≡ some entry
      → (entry.connection_id < bound) × (entry.connection_id ≢ dead)
  pub distinct :
      (i j : ℕ) (entry other : ManagedConnection K B Q)
      → load m.connections i ≡ some entry
      → load m.connections j ≡ some other
      → entry.connection_id ≡ other.connection_id
      → i ≡ j
  pub gone : All (λ old. old.connection_id < bound) m.removed
  pub not_back :
      (i : ℕ) (entry : ManagedConnection K B Q)
      → load m.connections i ≡ some entry
      → All (λ old. old.connection_id ≢ entry.connection_id) m.removed
  pub dead_low : dead < bound

module _ {K B Q : Type 0} where
  -- A live id is below the next one, and so differs from it.
  fresh_gone :
      (old : List (ManagedConnection K B Q)) (id : ℕ)
      → All (λ o. o.connection_id < id) old
      → All (λ o. o.connection_id ≢ id) old
  fresh_gone [] id h = tt
  fresh_gone (o ∷ old) id h = (λ e. omega (arith, e, h.0), fresh_gone old id h.1)

  pub gone_later :
      (old : List (ManagedConnection K B Q)) (id : ℕ)
      → All (λ o. o.connection_id < id) old
      → All (λ o. o.connection_id < suc id) old
  gone_later [] id h = tt
  gone_later (o ∷ old) id h = (omega (arith, h.0), gone_later old id h.1)

  -- The counter alone is set.
  pub counted-IsValidAt :
      (next next' bound dead : ℕ) (m : ConnectionManager K B Q)
      → IsValidAt next bound dead m
      → IsValidAt next' bound dead (record m { next_connection_id = next' })
  counted-IsValidAt next next' bound dead m v = record {
    counter = refl;
    size = v.size;
    placed = v.placed;
    live = v.live;
    distinct = v.distinct;
    gone = v.gone;
    not_back = v.not_back;
    dead_low = v.dead_low;
  }

  -- Another id is seen to be dead.
  pub dead-IsValidAt :
      (next bound dead dead' : ℕ) (m : ConnectionManager K B Q)
      → IsValidAt next bound dead m
      → dead' < bound
      → ((i : ℕ) (entry : ManagedConnection K B Q)
          → load m.connections i ≡ some entry
          → entry.connection_id ≢ dead')
      → IsValidAt next bound dead' m
  dead-IsValidAt next bound dead dead' m v low off = record {
    counter = v.counter;
    size = v.size;
    placed = v.placed;
    live = λ i entry e. ((v.live i entry e).0, off i entry e);
    distinct = v.distinct;
    gone = v.gone;
    not_back = v.not_back;
    dead_low = low;
  }

  -- The entry that a slot had before another one with its slot and its id came.
  entry_before :
      (m : ConnectionManager K B Q) (idx i : ℕ) (entry entry' x : ManagedConnection K B Q)
      → load m.connections idx ≡ some entry
      → entry'.slot_index ≡ entry.slot_index
      → entry'.connection_id ≡ entry.connection_id
      → load (set m.connections idx (some entry')) i ≡ some x
      → (y : ManagedConnection K B Q) × (load m.connections i ≡ some y)
        × (x.slot_index ≡ y.slot_index)
        × (x.connection_id ≡ y.connection_id)
  entry_before m idx i entry entry' x held same_slot same_id e =
      elim (load-set_cases m.connections idx i (some entry') x e) [
        | inl (here, same) ↦
            let x_is : entry' ≡ x = cc in
            (
              entry,
              sym (ap (load m.connections) here) ∙ held,
              sym (ap (λ (c : ManagedConnection K B Q). c.slot_index) x_is) ∙ same_slot,
              sym (ap (λ (c : ManagedConnection K B Q). c.connection_id) x_is) ∙ same_id,
            )
        | inr (there, e') ↦ (x, e', refl, refl)
      ]

  -- An entry is replaced by one with its slot and its id.
  pub replaced-IsValidAt :
      (next bound dead : ℕ) (m : ConnectionManager K B Q) (idx : ℕ)
      (entry entry' : ManagedConnection K B Q)
      → IsValidAt next bound dead m
      → load m.connections idx ≡ some entry
      → entry'.slot_index ≡ entry.slot_index
      → entry'.connection_id ≡ entry.connection_id
      → IsValidAt next bound dead (record m { connections = set m.connections idx (some entry') })
  replaced-IsValidAt next bound dead m idx entry entry' v held same_slot same_id = record {
    counter = v.counter;
    size = length-set m.connections idx (some entry') ∙ v.size;
    placed = λ i x e.
        let (y, e', s, c) = entry_before m idx i entry entry' x held same_slot same_id e in
        (s ∙ (v.placed i y e').0, (v.placed i y e').1);
    live = λ i x e.
        let (y, e', s, c) = entry_before m idx i entry entry' x held same_slot same_id e in
        (omega (arith, c, (v.live i y e').0), λ p. (v.live i y e').1 (sym c ∙ p));
    distinct = λ i j x z e f same.
        let (y, e', s, c) = entry_before m idx i entry entry' x held same_slot same_id e in
        let (w, f', t, d) = entry_before m idx j entry entry' z held same_slot same_id f in
        v.distinct i j y w e' f' (sym c ∙ same ∙ d);
    gone = v.gone;
    not_back = λ i x e.
        let (y, e', s, c) = entry_before m idx i entry entry' x held same_slot same_id e in
        subst (λ id. All (λ old. old.connection_id ≢ id) m.removed) (sym c) (v.not_back i y e');
    dead_low = v.dead_low;
  }

  -- A connection with the next id is put into a slot.
  entry_installed :
      (m : ConnectionManager K B Q) (idx i : ℕ) (entry x : ManagedConnection K B Q)
      → load (set m.connections idx (some entry)) i ≡ some x
      → ((idx ≡ i) × (entry ≡ x)) ⊎ (load m.connections i ≡ some x)
  entry_installed m idx i entry x e = elim (load-set_cases m.connections idx i (some entry) x e) [
    | inl (here, same) ↦ inl (here, cc)
    | inr (there, e') ↦ inr e'
  ]

  pub installed-IsValidAt :
      (next bound dead : ℕ) (m : ConnectionManager K B Q) (idx : ℕ)
      (entry : ManagedConnection K B Q)
      → IsValidAt next bound dead m
      → idx < max_connection_slots
      → entry.slot_index ≡ idx
      → entry.connection_id ≡ bound
      → IsValidAt next
          (suc bound)
          dead
          (record m { connections = set m.connections idx (some entry) })
  installed-IsValidAt next bound dead m idx entry v small slot fresh = record {
    counter = v.counter;
    size = length-set m.connections idx (some entry) ∙ v.size;
    placed = λ i x e. elim (entry_installed m idx i entry x e) [
      | inl (here, x_is) ↦ (
        sym (ap (λ (c : ManagedConnection K B Q). c.slot_index) x_is) ∙ slot ∙ here,
        omega (arith, here, small),
      )
      | inr e' ↦ v.placed i x e'
    ];
    live = λ i x e. elim (entry_installed m idx i entry x e) [
      | inl (here, x_is) ↦
          let its : entry.connection_id ≡ x.connection_id =
            ap (λ (c : ManagedConnection K B Q). c.connection_id) x_is in
          (omega (arith, its, fresh), λ p. omega (arith, its, fresh, p, v.dead_low))
      | inr e' ↦ (omega (arith, (v.live i x e').0), (v.live i x e').1)
    ];
    distinct = λ i j x z e f same. elim (entry_installed m idx i entry x e) [
      | inl (here, x_is) ↦
          let its : entry.connection_id ≡ x.connection_id =
            ap (λ (c : ManagedConnection K B Q). c.connection_id) x_is in
          elim (entry_installed m idx j entry z f) [
            | inl (there, z_is) ↦ omega (arith, here, there)
            | inr f' ↦ omega (arith, its, same, fresh, (v.live j z f').0)
          ]
      | inr e' ↦ elim (entry_installed m idx j entry z f) [
        | inl (there, z_is) ↦
            let its : entry.connection_id ≡ z.connection_id =
              ap (λ (c : ManagedConnection K B Q). c.connection_id) z_is in
            omega (arith, its, same, fresh, (v.live i x e').0)
        | inr f' ↦ v.distinct i j x z e' f' same
      ]
    ];
    gone = gone_later m.removed bound v.gone;
    not_back = λ i x e. elim (entry_installed m idx i entry x e) [
      | inl (here, x_is) ↦
          subst (λ id. All (λ old. old.connection_id ≢ id) m.removed)
            (sym fresh ∙ ap (λ (c : ManagedConnection K B Q). c.connection_id) x_is)
            (fresh_gone m.removed bound v.gone)
      | inr e' ↦ v.not_back i x e'
    ];
    dead_low = omega (arith, v.dead_low);
  }

  -- An entry that leaves its slot.
  entry_kept :
      (m : ConnectionManager K B Q) (idx i : ℕ) (x : ManagedConnection K B Q)
      → load (set m.connections idx none) i ≡ some x
      → (idx ≢ i) × (load m.connections i ≡ some x)
  entry_kept m idx i x e = elim (load-set_cases m.connections idx i none x e) [
    | inl (here, same) ↦ cc
    | inr kept ↦ kept
  ]

  pub evict-IsValidAt :
      (shaq : Shaq Q) (next bound dead : ℕ) (m : ConnectionManager K B Q) (idx : ℕ)
      (entry : ManagedConnection K B Q)
      → IsValidAt next bound dead m
      → load m.connections idx ≡ some entry
      → IsValidAt next bound dead (evict shaq m idx entry)
  unfolding evict
  evict-IsValidAt shaq next bound dead m idx entry v held = record {
    counter = v.counter;
    size = length-set m.connections idx none ∙ v.size;
    placed = λ i x e. v.placed i x (entry_kept m idx i x e).1;
    live = λ i x e. v.live i x (entry_kept m idx i x e).1;
    distinct = λ i j x z e f same.
        v.distinct i j x z (entry_kept m idx i x e).1 (entry_kept m idx j z f).1 same;
    gone = ((v.live idx entry held).0, v.gone);
    not_back = λ i x e.
        let (other, e') = entry_kept m idx i x e in
        (λ same. other (v.distinct idx i entry x held e' same), v.not_back i x e');
    dead_low = v.dead_low;
  }
