-- ===== src/Types/Subscription.antt =====
-- src/types.rs: `SubscriptionRequest` and its frame, over the serializer of its wire struct.
use qlaster_public.Base.{
  Bool, Bytes, List, Option, [], ap₂, arith, false, if◌then◌else◌, map, none, not, refl, some, true,
  ℕ, ◌==◌, ◌∷◌, ◌≡◌,
}
use qlaster_public.Error.{Result, Returns, ok, ◌>>=◌, ◌>>◌}
use qlaster_public.Extern.{IsPubkeyApi, IsWincode, PubkeyApi, Wincode}
use qlaster_public.Types.{ensure_wire, request_subscribe_tag, unset_slot_index, wire_version}
use qlaster_public.Types.Token
use qlaster_public.Types.Token.{SlotToken, deserialized}

pub record SubscriptionRequest (K : Type 0) : Type 0 where
  pub slot_token : Option SlotToken
  pub account_pubkeys : List K
  pub account_owners : List K
  pub include_transactions : Bool

pub record WireSubscriptionRequest : Type 0 where
  pub wire_version : ℕ
  pub message_tag : ℕ
  pub slot_index : ℕ
  pub slot_generation : ℕ
  pub account_pubkeys : List Bytes
  pub account_owners : List Bytes
  pub include_transactions : Bool

module _ {K : Type 0} where
  unfoldable pub new : List K → List K → SubscriptionRequest K
  new account_pubkeys account_owners = record {
    slot_token = none;
    account_pubkeys = account_pubkeys;
    account_owners = account_owners;
    include_transactions = false;
  }

  unfoldable pub with_slot_token : SubscriptionRequest K → Option SlotToken → SubscriptionRequest K
  with_slot_token r slot_token = record r { slot_token = slot_token }

  unfoldable pub with_transactions : SubscriptionRequest K → SubscriptionRequest K
  with_transactions r = record r { include_transactions = true }

unfoldable pub transactions : (K : Type 0) → SubscriptionRequest K
transactions K = record {
  slot_token = none;
  account_pubkeys = [];
  account_owners = [];
  include_transactions = true;
}

-- `.map(|token| …).unwrap_or((UNSET_SLOT_INDEX, 0))`.
unfoldable pub token_fields : Option SlotToken → ℕ × ℕ
token_fields none = (unset_slot_index, 0)
token_fields (some token) = (token.slot_index, token.generation)

-- `(slot_index != UNSET_SLOT_INDEX).then_some(…)`.
unfoldable pub token_of_fields : ℕ → ℕ → Option SlotToken
token_of_fields slot_index slot_generation =
    if not (slot_index == unset_slot_index)
    then some (Token.new slot_index slot_generation)
    else none

module _ {K : Type 0} (keys : PubkeyApi K) (codec : Wincode WireSubscriptionRequest) where
  unfoldable pub to_wire : SubscriptionRequest K → WireSubscriptionRequest
  to_wire r =
      let (slot_index, slot_generation) = token_fields r.slot_token in
      record {
        wire_version = wire_version;
        message_tag = request_subscribe_tag;
        slot_index = slot_index;
        slot_generation = slot_generation;
        account_pubkeys = map keys.to_bytes r.account_pubkeys;
        account_owners = map keys.to_bytes r.account_owners;
        include_transactions = r.include_transactions;
      }

  unfoldable pub encode : SubscriptionRequest K → Bytes
  encode r = codec.serialize (to_wire r)

  unfoldable pub decode : Bytes → Result (SubscriptionRequest K)
  decode bytes = do
    wire ← deserialized (codec.deserialize bytes) "subscription request"
    ensure_wire wire.wire_version wire.message_tag request_subscribe_tag
    ok (record {
      slot_token = token_of_fields wire.slot_index wire.slot_generation;
      account_pubkeys = map keys.new_from_array wire.account_pubkeys;
      account_owners = map keys.new_from_array wire.account_owners;
      include_transactions = wire.include_transactions;
    })

map_inverse :
    {K : Type 0} (keys : PubkeyApi K)
    → IsPubkeyApi keys
    → (ks : List K) → map keys.new_from_array (map keys.to_bytes ks) ≡ ks
map_inverse keys laws [] = refl
map_inverse keys laws (k ∷ ks) = ap₂ ◌∷◌ (laws.of_to_bytes k) (map_inverse keys laws ks)

-- What becomes of a token that goes over the wire: one with the index `UNSET_SLOT_INDEX` is lost.
unfoldable pub sent_token : Option SlotToken → Option SlotToken
sent_token none = none
sent_token (some token) = if token.slot_index == unset_slot_index then none else some token

token_of_fields-token_fields :
    (t : Option SlotToken) → token_of_fields (token_fields t).0 (token_fields t).1 ≡ sent_token t
unfolding token_of_fields token_fields sent_token
token_of_fields-token_fields none = refl
token_of_fields-token_fields (some token) = ground arith

-- Decoding an encoded request gives the request, its token as `sent_token` says.
pub subscription_decode-encode :
    {K : Type 0} (keys : PubkeyApi K) (codec : Wincode WireSubscriptionRequest)
    (Fits : WireSubscriptionRequest → Type 0) (r : SubscriptionRequest K)
    → IsPubkeyApi keys
    → Fits (to_wire keys codec r)
    → IsWincode Fits (λ w. w.wire_version) (λ w. w.message_tag) codec
    → decode keys codec (encode keys codec r)
      ≡ ok (record r { slot_token = sent_token r.slot_token })
unfolding decode encode to_wire ensure_wire
subscription_decode-encode keys codec Fits r laws fits inverse = rw (
  inverse.deserialize_serialize (to_wire keys codec r) fits,
  token_of_fields-token_fields r.slot_token,
  map_inverse keys laws r.account_pubkeys,
  map_inverse keys laws r.account_owners,
)

pub decode-Returns :
    {K : Type 0} (keys : PubkeyApi K) (codec : Wincode WireSubscriptionRequest) (bytes : Bytes)
    → Returns (decode keys codec bytes)
unfolding decode ensure_wire
decode-Returns keys codec bytes = ground arith
