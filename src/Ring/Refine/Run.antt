-- ===== src/Ring/Refine/Run.antt =====
-- The two ends of the ring, used in any order, behave as the bounded queue.
use qlaster_public.Base.{Bytes, List, [], ap₂, refl, ℕ, ◌+◌, ◌<◌, ◌^◌, ◌∷◌, ◌≡◌}
use qlaster_public.Extern.{IsShaq, Shaq}
use qlaster_public.Ring.Spec.{Op, Queue, pop, push, run, shut, step}
use qlaster_public.Ring.Refine.{Ends, Holds, call, calls}
use qlaster_public.Ring.Refine.Pop.{pop_refines}
use qlaster_public.Ring.Refine.Push.{push_refines, shut_refines}

module _ {Q : Type 0} (shaq : Shaq Q) (contents : Q → Bytes) (cap : ℕ)
    (laws : IsShaq shaq contents cap) (cap_small : cap < 2 ^ 32 + 3) where
  call_refines :
      (op : Op) (e : Ends Q) (s : Queue)
      → Holds contents cap e s
      → ((call shaq e op).0 ≡ (step cap s op).0)
        × Holds contents cap (call shaq e op).1 (step cap s op).1
  call_refines (push parts) e s h = push_refines shaq contents cap laws cap_small e s parts h
  call_refines pop e s h = pop_refines shaq contents cap laws cap_small s.items e s refl h
  call_refines shut e s h = shut_refines shaq contents cap laws cap_small e s h

  -- On a byte queue that keeps the laws of IsShaq for a capacity below 2^32 + 3, any sequence of
  -- pushes, pops and closes gives, call by call, the results of the bounded first-in first-out
  -- queue of Ring/Spec, when it starts from ends that agree with that queue.
  pub calls-run :
      (ops : List Op) (e : Ends Q) (s : Queue)
      → Holds contents cap e s
      → calls shaq e ops ≡ run cap s ops
  unfolding calls run
  calls-run [] e s h = refl
  calls-run (op ∷ ops) e s h =
      let (out, h') = call_refines op e s h in
      ap₂ ◌∷◌ out (calls-run ops (call shaq e op).1 (step cap s op).1 h')
