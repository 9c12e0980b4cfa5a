-- ===== src/Sender/Filter.antt =====
-- src/sender/mod.rs: `SubscriptionFilter`. A `HashSet` of keys is a list of its elements, in which
-- `insert` puts a key that is not there yet; the order, which the code does not rely on, is that of
-- the insertions.
pub mod Exact
use qlaster_public.Base.{
  Bool, List, Option, [], false, if◌then◌else◌, length, ltb, max, none, not, set, some, true, ◌&&◌,
  ◌++◌, ◌+◌, ◌==◌, ◌||◌, ◌∷◌,
}
use qlaster_public.Extern.{Bloom, PubkeyApi}
use qlaster_public.Types.Subscription.{SubscriptionRequest}
use qlaster_public.Types.Account.{AccountUpdate}

pub record SubscriptionFilter (K B : Type 0) : Type 0 where
  pub account_pubkeys : List K
  pub account_owners : List K
  pub bloom : B
  pub include_transactions : Bool
  pub single_pubkey : Option K
  pub single_owner : Option K
  pub use_bloom_fast_reject : Bool

-- `(set.len() == 1).then(|| *set.iter().next()…)`.
unfoldable pub single : {K : Type 0} → List K → Option K
single [] = none
single (k ∷ []) = some k
single (k ∷ l ∷ ks) = none

unfoldable pub set_is_empty : {K : Type 0} → List K → Bool
set_is_empty [] = true
set_is_empty (k ∷ ks) = false

module _ {K : Type 0} (keys : PubkeyApi K) where
  -- `HashSet::contains`, `insert` and `extend`.
  unfoldable pub set_contains : List K → K → Bool
  set_contains [] k = false
  set_contains (j ∷ js) k = keys.eq j k || set_contains js k

  unfoldable pub set_insert : List K → K → List K
  set_insert set k = if set_contains set k then set else set ++ (k ∷ [])

  unfoldable pub set_extend : List K → List K → List K
  set_extend set [] = set
  set_extend set (k ∷ ks) = set_extend (set_insert set k) ks

module _ {K B : Type 0} (keys : PubkeyApi K) (bloom : Bloom B) where
  -- The loop of `bloom.add`.
  unfoldable pub add_all : B → List K → B
  add_all b [] = b
  add_all b (k ∷ ks) = add_all (bloom.add b (keys.to_bytes k)) ks

  unfoldable pub from_sets : List K → List K → Bool → SubscriptionFilter K B
  from_sets account_pubkeys account_owners include_transactions =
      let requested_items = length account_pubkeys + length account_owners in
      record {
        account_pubkeys = account_pubkeys;
        account_owners = account_owners;
        bloom =
            add_all (add_all (bloom.random (max requested_items 1)) account_pubkeys) account_owners;
        include_transactions = include_transactions;
        single_pubkey = single account_pubkeys;
        single_owner = single account_owners;
        use_bloom_fast_reject = ltb 16 requested_items;
      }

  unfoldable pub from_request : SubscriptionRequest K → SubscriptionFilter K B
  from_request req =
      from_sets (set_extend keys [] req.account_pubkeys) (set_extend keys [] req.account_owners)
        req.include_transactions

  unfoldable pub with_request :
      SubscriptionFilter K B → SubscriptionRequest K → SubscriptionFilter K B
  with_request f req =
      from_sets (set_extend keys f.account_pubkeys req.account_pubkeys)
        (set_extend keys f.account_owners req.account_owners)
        (f.include_transactions || req.include_transactions)

  -- The arms of the match that return: the answer, or none where the code goes on.
  unfoldable pub match_singles :
      SubscriptionFilter K B → AccountUpdate K → Option K → Option K → Option Bool
  match_singles f update (some pubkey) none =
      if set_is_empty f.account_owners then some (keys.eq pubkey update.account_pubkey) else none
  match_singles f update none (some owner) =
      if set_is_empty f.account_pubkeys then some (keys.eq owner update.account_owner) else none
  match_singles f update (some pubkey) (some owner) =
      if length f.account_pubkeys == 1 && length f.account_owners == 1
      then some (keys.eq pubkey update.account_pubkey || keys.eq owner update.account_owner)
      else none
  match_singles f update none none = none

  -- The code behind the match.
  unfoldable pub match_sets : SubscriptionFilter K B → AccountUpdate K → Bool
  match_sets f update =
      let maybe_pubkey = bloom.contains f.bloom (keys.to_bytes update.account_pubkey) in
      let maybe_owner = bloom.contains f.bloom (keys.to_bytes update.account_owner) in
      if f.use_bloom_fast_reject && (not maybe_pubkey && not maybe_owner)
      then false
      else set_contains keys f.account_pubkeys update.account_pubkey
        || set_contains keys f.account_owners update.account_owner

  unfoldable pub or_else : Option Bool → Bool → Bool
  or_else (some answer) rest = answer
  or_else none rest = rest

  unfoldable pub matches_account : SubscriptionFilter K B → AccountUpdate K → Bool
  matches_account f update =
      or_else (match_singles f update f.single_pubkey f.single_owner) (match_sets f update)

  abbrev pub matches_transaction : SubscriptionFilter K B → Bool
  matches_transaction f = f.include_transactions
