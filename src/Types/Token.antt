-- ===== src/Types/Token.antt =====
-- src/types.rs: `SlotToken`, which names a connection slot and its generation.
use qlaster_public.Base.{String, inl, inr, ℕ, ◌⊎◌}
use qlaster_public.Error.{Result, decode_error, err, in_context, ok}

pub record SlotToken : Type 0 where
  pub slot_index : ℕ
  pub generation : ℕ

abbrev pub new : ℕ → ℕ → SlotToken
new slot_index generation = record { slot_index = slot_index; generation = generation }

-- What `wincode::deserialize` gives, its failure as a `DecodeError` that names the frame.
abbrev pub deserialized : {A : Type 0} → String ⊎ A → String → Result A
deserialized (inl e) what = err (decode_error (in_context what e))
deserialized (inr a) what = ok a
