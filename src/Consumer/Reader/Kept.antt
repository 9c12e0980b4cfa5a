-- ===== src/Consumer/Reader/Kept.antt =====
-- What a queue of the consumer keeps: the last elements that were put into it, in their order.
use qlaster_public.Base.{
  List, [], ap, append-nil, append_assoc, arith, dec_lt, drop, drop-drop, length, length-append,
  length-drop, refl, suc, sym, zero, ℕ, ◌++◌, ◌+◌, ◌-◌, ◌<◌, ◌∙◌, ◌∷◌, ◌≡◌, ◌≤◌,
}
use qlaster_public.Extern.{ArrayQueue, IsArrayQueue}
use qlaster_public.Consumer.Reader.{consumer_update_queue_capacity}

-- The last elements of a list, in their order.
unfoldable pub keep_last : {A : Type 0} → ℕ → List A → List A
keep_last n xs = drop (length xs - n) xs

module _ {A : Type 0} where
  drop_front : (k : ℕ) (xs ys : List A) → k ≤ length xs → drop k (xs ++ ys) ≡ drop k xs ++ ys
  drop_front zero xs ys h = refl
  drop_front (suc k) [] ys h = absurd (omega (arith, h))
  drop_front (suc k) (x ∷ xs) ys h = drop_front k xs ys (omega (arith, h))

  length-keep_last : (n : ℕ) (xs : List A) → length (keep_last n xs) ≤ n
  unfolding keep_last
  length-keep_last n xs = omega (arith, length-drop (length xs - n) xs)

  -- One more element, where there was room and where there was none.
  keep_last_room :
      (n : ℕ) (xs : List A) (a : A)
      → length (keep_last n xs) < n
      → keep_last n (xs ++ (a ∷ [])) ≡ keep_last n xs ++ (a ∷ [])
  unfolding keep_last
  keep_last_room n xs a h =
      let small : length xs - n ≡ 0 = omega (arith, h, length-drop (length xs - n) xs) in
      let still : length (xs ++ (a ∷ [])) - n ≡ 0 =
        omega (arith, h, length-drop (length xs - n) xs, length-append xs (a ∷ [])) in
      ap (λ k. drop k (xs ++ (a ∷ []))) still ∙ ap (λ k. drop k xs ++ (a ∷ [])) (sym small)

  keep_last_full :
      (n : ℕ) (xs rest : List A) (oldest a : A)
      → length (keep_last n xs) ≡ n
      → keep_last n xs ≡ oldest ∷ rest
      → keep_last n (xs ++ (a ∷ [])) ≡ rest ++ (a ∷ [])
  unfolding keep_last
  keep_last_full n xs rest oldest a size e =
      let k = length xs - n in
      let some_kept : 0 < n = omega (arith, size, ap length e) in
      let more : length (xs ++ (a ∷ [])) - n ≡ k + 1 =
        omega (arith, size, some_kept, length-drop k xs, length-append xs (a ∷ [])) in
      ap (λ j. drop j (xs ++ (a ∷ []))) more
      ∙ sym (drop-drop k 1 (xs ++ (a ∷ [])))
      ∙ ap (drop 1) (drop_front k xs (a ∷ []) (omega arith) ∙ ap (λ ys. ys ++ (a ∷ [])) e)

-- The elements of a queue are the last that were put into it, as many as it can hold.
abbrev pub Keeps : {A E : Type 0} → (E → List A) → (E → ℕ) → List A → E → Type 0
Keeps elements capacity pushed c =
    (elements c ≡ keep_last consumer_update_queue_capacity pushed)
    × (capacity c ≡ consumer_update_queue_capacity)

module _ {C : Type 0 → Type 0} (array_queue : ArrayQueue C) (elements : (A : Type 0) → C A → List A)
    (capacity : (A : Type 0) → C A → ℕ)
    (queue_laws : IsArrayQueue array_queue elements capacity) where
  push_full :
      (A : Type 0) (pushed : List A) (c : C A) (a : A) (held : List A)
      → Keeps (elements A) (capacity A) pushed c
      → elements A c ≡ held
      → length held ≡ consumer_update_queue_capacity
      → elements A (array_queue.force_push c a)
        ≡ keep_last consumer_update_queue_capacity (pushed ++ (a ∷ []))
  push_full A pushed c a [] h e size = absurd (omega (arith, size))
  push_full A pushed c a (oldest ∷ rest) h e size =
      queue_laws.replaces A c a oldest rest (ap length e ∙ size ∙ sym h.1) e
      ∙ sym (
          keep_last_full consumer_update_queue_capacity pushed rest oldest a
            (ap length (sym h.0 ∙ e) ∙ size) (sym h.0 ∙ e))

  pub force_push-Keeps :
      (A : Type 0) (pushed : List A) (c : C A) (a : A)
      → Keeps (elements A) (capacity A) pushed c
      → Keeps (elements A) (capacity A) (pushed ++ (a ∷ [])) (array_queue.force_push c a)
  force_push-Keeps A pushed c a h =
      let cap = consumer_update_queue_capacity in
      let size : length (keep_last cap pushed) ≤ cap = length-keep_last cap pushed in
      (
        elim (dec_lt (length (elements A c)) (capacity A c)) [
          | yes room ↦
              queue_laws.appends A c a room
              ∙ ap (λ xs. xs ++ (a ∷ [])) h.0
              ∙ sym (keep_last_room cap pushed a (omega (arith, room, ap length h.0, h.1)))
          | no full ↦
              let all : length (elements A c) ≡ cap =
                omega (arith, full, ap length h.0, h.1, size) in
              push_full A pushed c a (elements A c) h refl all
        ],
        queue_laws.same_capacity A c a ∙ h.1,
      )

module _ {A E : Type 0} (elements : E → List A) (capacity : E → ℕ) where
  pub Keeps-nil :
      (pushed : List A) (c : E)
      → Keeps elements capacity pushed c
      → Keeps elements capacity (pushed ++ []) c
  Keeps-nil pushed c h =
      (h.0 ∙ ap (keep_last consumer_update_queue_capacity) (sym (append-nil pushed)), h.1)

  pub Keeps-assoc :
      (xs ys zs : List A) (c : E)
      → Keeps elements capacity ((xs ++ ys) ++ zs) c
      → Keeps elements capacity (xs ++ (ys ++ zs)) c
  Keeps-assoc xs ys zs c h =
      (h.0 ∙ ap (keep_last consumer_update_queue_capacity) (append_assoc xs ys zs), h.1)
