-- ===== src/Transport/Delivery.antt =====
-- From the sink of a slot to its consumer: what is pushed wakes the consumer and is popped, and an
-- account update comes out as it went in.
use qlaster_public.Error.{>>=-eq-ok, ok, ok-injective}
use qlaster_public.Types.{sent_at}
use qlaster_public.Types.Compression.{choose_payload, choose_payload_cases}
use qlaster_public.Types.Account.RoundTrip.{account_decode_with_meta-encode, encode-layout, layout}
use qlaster_public.Types.Account.{
  AccountUpdate, IsAccountUpdate, decode_with_meta, encode, encode_parts,
}
use qlaster_public.Base.{
  Bytes, [], ap, append-nil, ap₂, arith, false, inl, inr, length, length-append, length-to_le_bytes,
  ltb, refl, some, sym, to_le_bytes, u32_max, ℕ, ◌++◌, ◌+◌, ◌<◌, ◌^◌, ◌∙◌, ◌≡◌, ◌≤◌,
}
use qlaster_public.Extern.{IsLz4, IsPubkeyApi, IsShaq, Lz4, PubkeyApi, Shaq}
use qlaster_public.Ring
use qlaster_public.Ring.{ShmRingConsumer, concat_parts, total_len, try_pop, try_push, write_frame}
use qlaster_public.Ring.Refine.Pop.{pop_frame}
use qlaster_public.Transport
use qlaster_public.Transport.{OutboundFrame, SlotSink, notified, sent, sink_push}
use qlaster_public.Types.Account

module _ {Q : Type 0} (shaq : Shaq Q) (contents : Q → Bytes) (cap : ℕ)
    (laws : IsShaq shaq contents cap) (cap_small : cap < 2 ^ 32 + 3) where
  -- A frame pushed to the sink of a drained ring that has room for it is sent with one wake-up,
  -- and the consumer pops its header followed by its payload, where the byte queue keeps its laws
  -- and the capacity is below 2^32 + 3.
  pub try_pop-sink_push :
      (s : SlotSink Q) (c : ShmRingConsumer) (f : OutboundFrame)
      → s.ring.capacity ≡ cap
      → contents s.queue ≡ []
      → 4 + Transport.total_len f ≤ cap
      → ((sink_push shaq s f).0 ≡ sent)
        × ((sink_push shaq s f).1.wakeups ≡ s.wakeups + 1)
        × ((Ring.try_pop shaq c (sink_push shaq s f).1.queue).0 ≡ some (f.header ++ f.payload))
  unfolding sink_push notified Ring.try_push write_frame Ring.total_len concat_parts
  try_pop-sink_push s c f sized drained room =
      let body = f.header ++ (f.payload ++ []) in
      let same : body ≡ f.header ++ f.payload = ap (λ r. f.header ++ r) (append-nil f.payload) in
      let size : length body ≡ length f.header + (length f.payload + 0) =
        omega (arith, ap length same, length-append f.header f.payload) in
      let bytes = to_le_bytes 4 (length f.header + (length f.payload + 0)) ++ body in
      let whole : length bytes ≡ 4 + length body =
        omega (arith, length-append {0}, length-to_le_bytes) in
      let ordinary : ltb u32_max (length f.header + (length f.payload + 0)) ≡ false =
        ground arith in
      let fits : ltb s.ring.capacity (4 + (length f.header + (length f.payload + 0))) ≡ false =
        ap (λ n. ltb n (4 + (length f.header + (length f.payload + 0)))) sized ∙ ground arith in
      let empty : length (contents s.queue) ≡ 0 = ap length drained in
      let (q', w, p) = laws.writes s.queue bytes (omega (arith, empty, whole, size, room)) in
      let (q2, r, _) =
        pop_frame shaq contents cap laws cap_small c q' body []
          (omega (arith, size, room, cap_small))
          (p
            ∙ ap (λ r. r ++ bytes) drained
            ∙ ap₂ (λ n r. to_le_bytes 4 n ++ r) (sym size) (sym (append-nil body))) in
      rw (ordinary, fits, w, r) (refl, refl, ap some same)

length-layout :
    {K : Type 0} (keys : PubkeyApi K) (u : AccountUpdate K) (ts flags raw_len : ℕ) (wire : Bytes)
    → IsPubkeyApi keys
    → length (layout keys u ts flags raw_len wire) ≡ 116 + length wire
unfolding layout
length-layout keys u ts flags raw_len wire kl = omega (
  arith,
  length-append {0},
  length-to_le_bytes,
  kl.to_bytes_size u.account_pubkey,
  kl.to_bytes_size u.account_owner,
)

length-choose_payload : (lz4 : Lz4) (raw : Bytes) → length (choose_payload lz4 raw).1 ≤ length raw
length-choose_payload lz4 raw = elim (choose_payload_cases lz4 raw) [
  | inl ((_, shorter, _), e) ↦ omega (arith, ap (λ (r : ℕ × Bytes). length r.1) e, shorter)
  | inr (_, e) ↦ omega (arith, ap (λ (r : ℕ × Bytes). length r.1) e)
]

-- The two parts of an encoded account update.
account_parts :
    {K : Type 0} (keys : PubkeyApi K) (lz4 : Lz4) (u : AccountUpdate K) (ts : ℕ)
    → IsPubkeyApi keys
    → IsLz4 lz4
    → IsAccountUpdate u
    → ts < 2 ^ 64
    → (parts : Bytes × Bytes) × (Account.encode_parts keys lz4 u ts ≡ ok parts)
      × (Account.decode_with_meta keys lz4 (parts.0 ++ parts.1) ≡ ok (u, sent_at ts))
      × (length (parts.0 ++ parts.1) ≤ 116 + length u.payload.bytes)
unfolding Account.encode
account_parts keys lz4 u ts kl ll v h =
    let short = length-choose_payload lz4 u.payload.bytes in
    let (whole, e, back) =
      >>=-eq-ok (Account.encode keys lz4 u ts) (Account.decode_with_meta keys lz4)
        (account_decode_with_meta-encode keys lz4 u ts kl ll v h) in
    let (parts, e', joined) = >>=-eq-ok (Account.encode_parts keys lz4 u ts) _ e in
    let same : parts.0 ++ parts.1 ≡ whole = ok-injective joined in
    let laid = encode-layout keys lz4 u ts v.payload_size (omega (arith, short, v.payload_size)) in
    let shape = ok-injective (sym e ∙ laid) in
    let size =
      length-layout keys u ts (choose_payload lz4 u.payload.bytes).0 (length u.payload.bytes)
        (choose_payload lz4 u.payload.bytes).1 kl in
    (parts, e', rw same back, omega (arith, ap length same, ap length shape, size, short))

module _ {Q : Type 0} (shaq : Shaq Q) (contents : Q → Bytes) (cap : ℕ)
    (laws : IsShaq shaq contents cap) (cap_small : cap < 2 ^ 32 + 3) where
  -- An account update whose fields fit their widths is encoded, and its frame, pushed to the sink
  -- of a drained ring that has room for the payload and 120 bytes, is sent with one wake-up and
  -- popped by the consumer as bytes that decode to the update with its timestamp, where keys,
  -- compressor and byte queue keep their laws and the capacity is below 2^32 + 3.
  pub account_delivered :
      {K : Type 0} (keys : PubkeyApi K) (lz4 : Lz4) (u : AccountUpdate K) (ts start : ℕ)
      (s : SlotSink Q) (c : ShmRingConsumer)
      → IsPubkeyApi keys
      → IsLz4 lz4
      → IsAccountUpdate u
      → ts < 2 ^ 64
      → s.ring.capacity ≡ cap
      → contents s.queue ≡ []
      → 120 + length u.payload.bytes ≤ cap
      → (parts : Bytes × Bytes) × (Account.encode_parts keys lz4 u ts ≡ ok parts)
        × (let f : OutboundFrame = record {
          header = parts.0;
          payload = parts.1;
          frame_start = start;
        } in
            let (out, s') = sink_push shaq s f in
            (out ≡ sent)
            × (s'.wakeups ≡ s.wakeups + 1)
            × ((body : Bytes) × ((Ring.try_pop shaq c s'.queue).0 ≡ some body)
                × (Account.decode_with_meta keys lz4 body ≡ ok (u, sent_at ts))))
  account_delivered keys lz4 u ts start s c kl ll v h sized drained room =
      let (parts, e, back, size) = account_parts keys lz4 u ts kl ll v h in
      let f : OutboundFrame = record { header = parts.0; payload = parts.1; frame_start = start } in
      let (out, woken, popped) =
        try_pop-sink_push shaq contents cap laws cap_small s c f sized drained
          (omega (arith, length-append parts.0 parts.1, size, room)) in
      (parts, e, (out, woken, (parts.0 ++ parts.1, popped, back)))
