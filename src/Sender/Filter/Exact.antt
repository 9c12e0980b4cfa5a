-- ===== src/Sender/Filter/Exact.antt =====
-- The filter matches exactly the accounts that were subscribed to: neither the shortcut for single
-- keys nor the bloom filter changes an answer.
use qlaster_public.Types.Account.{AccountUpdate, new}
use qlaster_public.Types.Subscription.{SubscriptionRequest}
use qlaster_public.Base.{
  Bool, Bool-cases, Bytes, List, [], ap, ap₂, arith, false, false≢true, inl, inr, length, max, refl,
  subst, true, ◌++◌, ◌+◌, ◌||◌, ◌∙◌, ◌∷◌, ◌≡◌,
}
use qlaster_public.Extern.{Bloom, IsBloom, IsPubkeyApi, PubkeyApi}
use qlaster_public.Sender.Filter.{
  SubscriptionFilter, add_all, from_request, from_sets, match_sets, match_singles, matches_account,
  matches_transaction, or_else, set_contains, set_extend, set_insert, set_is_empty, single,
  with_request,
}

module _ {K B : Type 0} (keys : PubkeyApi K) (bloom : Bloom B) where
  add_all_kept :
      (ks : List K) (b : B) (x : Bytes)
      → IsBloom bloom
      → bloom.contains b x ≡ true
      → bloom.contains (add_all keys bloom b ks) x ≡ true
  unfolding add_all
  add_all_kept [] b x laws h = h
  add_all_kept (k ∷ ks) b x laws h =
      add_all_kept ks (bloom.add b (keys.to_bytes k)) x laws
        (laws.contains_kept b x (keys.to_bytes k) h)

  add_all_added :
      (ks : List K) (b : B) (k : K)
      → IsBloom bloom
      → IsPubkeyApi keys
      → set_contains keys ks k ≡ true
      → bloom.contains (add_all keys bloom b ks) (keys.to_bytes k) ≡ true
  unfolding add_all set_contains
  add_all_added [] b k laws kl h = absurd (false≢true h)
  add_all_added (j ∷ ks) b k laws kl h = elim (Bool-cases (keys.eq j k)) [
    | inl same ↦
        let e : j ≡ k = (kl.eq_iff j k).1 same in
        add_all_kept ks (bloom.add b (keys.to_bytes j)) (keys.to_bytes k) laws (
          subst (λ q. bloom.contains (bloom.add b (keys.to_bytes j)) (keys.to_bytes q) ≡ true) e
            (laws.contains_added b (keys.to_bytes j)))
    | inr other ↦ add_all_added ks (bloom.add b (keys.to_bytes j)) k laws kl (rw other at h)
  ]

  -- What was subscribed to, tested on the sets alone.
  abbrev pub wanted : List K → List K → AccountUpdate K → Bool
  wanted pubkeys owners update =
      set_contains keys pubkeys update.account_pubkey
      || set_contains keys owners update.account_owner

  match_sets-wanted :
      (pubkeys owners : List K) (tx : Bool) (update : AccountUpdate K)
      → IsBloom bloom
      → IsPubkeyApi keys
      → match_sets keys bloom (from_sets keys bloom pubkeys owners tx) update
        ≡ wanted pubkeys owners update
  unfolding match_sets from_sets
  match_sets-wanted pubkeys owners tx update laws kl =
      let b0 = bloom.random (max (length pubkeys + length owners) 1) in
      let b1 = add_all keys bloom b0 pubkeys in
      let b2 = add_all keys bloom b1 owners in
      let by_pubkey : set_contains keys pubkeys update.account_pubkey ≡ true
          → bloom.contains b2 (keys.to_bytes update.account_pubkey) ≡ true =
        λ h.
          add_all_kept owners b1 (keys.to_bytes update.account_pubkey) laws
            (add_all_added pubkeys b0 update.account_pubkey laws kl h) in
      let by_owner : set_contains keys owners update.account_owner ≡ true
          → bloom.contains b2 (keys.to_bytes update.account_owner) ≡ true =
        λ h. add_all_added owners b1 update.account_owner laws kl h in
      ground (arith, by_pubkey, by_owner)

  matches_account-wanted :
      (pubkeys owners : List K) (tx : Bool) (update : AccountUpdate K)
      → IsBloom bloom
      → IsPubkeyApi keys
      → matches_account keys bloom (from_sets keys bloom pubkeys owners tx) update
        ≡ wanted pubkeys owners update
  unfolding matches_account match_singles or_else single set_is_empty set_contains from_sets
  matches_account-wanted [] [] tx u laws kl = match_sets-wanted [] [] tx u laws kl
  matches_account-wanted [] (o ∷ []) tx u laws kl = ground arith
  matches_account-wanted [] (o ∷ p ∷ os) tx u laws kl =
      match_sets-wanted [] (o ∷ p ∷ os) tx u laws kl
  matches_account-wanted (k ∷ []) [] tx u laws kl = ground arith
  matches_account-wanted (k ∷ []) (o ∷ []) tx u laws kl = ground arith
  matches_account-wanted (k ∷ []) (o ∷ p ∷ os) tx u laws kl =
      match_sets-wanted (k ∷ []) (o ∷ p ∷ os) tx u laws kl
  matches_account-wanted (k ∷ l ∷ ks) [] tx u laws kl =
      match_sets-wanted (k ∷ l ∷ ks) [] tx u laws kl
  matches_account-wanted (k ∷ l ∷ ks) (o ∷ []) tx u laws kl =
      match_sets-wanted (k ∷ l ∷ ks) (o ∷ []) tx u laws kl
  matches_account-wanted (k ∷ l ∷ ks) (o ∷ p ∷ os) tx u laws kl =
      match_sets-wanted (k ∷ l ∷ ks) (o ∷ p ∷ os) tx u laws kl

  set_contains-append :
      (ks : List K) (k x : K)
      → set_contains keys (ks ++ (k ∷ [])) x ≡ (set_contains keys ks x || keys.eq k x)
  unfolding set_contains
  set_contains-append [] k x = ground arith
  set_contains-append (j ∷ ks) k x = ground (arith, set_contains-append ks k x)

  set_contains-set_insert :
      (ks : List K) (k x : K)
      → IsPubkeyApi keys
      → set_contains keys (set_insert keys ks k) x ≡ (set_contains keys ks x || keys.eq k x)
  unfolding set_insert
  set_contains-set_insert ks k x kl = elim (Bool-cases (set_contains keys ks k)) [
    | inl known ↦ elim (Bool-cases (keys.eq k x)) [
      | inl same ↦
          let e : set_contains keys ks x ≡ true =
            subst (λ q. set_contains keys ks q ≡ true) ((kl.eq_iff k x).1 same) known in
          rw (known, e)
      | inr other ↦ ground (arith, known, other)
    ]
    | inr new ↦ rw new (set_contains-append ks k x)
  ]

  set_contains-set_extend :
      (more ks : List K) (x : K)
      → IsPubkeyApi keys
      → set_contains keys (set_extend keys ks more) x
        ≡ (set_contains keys ks x || set_contains keys more x)
  unfolding set_extend set_contains
  set_contains-set_extend [] ks x kl = ground arith
  set_contains-set_extend (k ∷ more) ks x kl =
      let first = set_contains-set_insert ks k x kl in
      let others = set_contains-set_extend more (set_insert keys ks k) x kl in
      ground (arith, first, others)

  -- A filter that the constructors made.
  abbrev pub IsFilter : SubscriptionFilter K B → Type 0
  IsFilter f = f ≡ from_sets keys bloom f.account_pubkeys f.account_owners f.include_transactions

  -- Does a request name the account or its owner?
  abbrev pub names : SubscriptionRequest K → AccountUpdate K → Bool
  names req update = wanted req.account_pubkeys req.account_owners update

  pub from_request-names :
      (req : SubscriptionRequest K) (update : AccountUpdate K)
      → IsBloom bloom
      → IsPubkeyApi keys
      → matches_account keys bloom (from_request keys bloom req) update ≡ names req update
  unfolding from_request set_contains
  from_request-names req update laws kl =
      matches_account-wanted _ _ req.include_transactions update laws kl
      ∙ ap₂ ◌||◌ (set_contains-set_extend req.account_pubkeys [] update.account_pubkey kl)
          (set_contains-set_extend req.account_owners [] update.account_owner kl)

  pub with_request-names :
      (f : SubscriptionFilter K B) (req : SubscriptionRequest K) (update : AccountUpdate K)
      → IsBloom bloom
      → IsPubkeyApi keys
      → IsFilter f
      → matches_account keys bloom (with_request keys bloom f req) update
        ≡ (matches_account keys bloom f update || names req update)
  unfolding with_request
  with_request-names f req update laws kl made =
      let before : matches_account keys bloom f update
          ≡ wanted f.account_pubkeys f.account_owners update =
        ap (λ g. matches_account keys bloom g update) made
        ∙ matches_account-wanted f.account_pubkeys f.account_owners f.include_transactions update
            laws kl in
      let after =
        matches_account-wanted (set_extend keys f.account_pubkeys req.account_pubkeys)
          (set_extend keys f.account_owners req.account_owners)
          (f.include_transactions || req.include_transactions) update laws kl in
      let pubkeys =
        set_contains-set_extend req.account_pubkeys f.account_pubkeys update.account_pubkey kl in
      let owners =
        set_contains-set_extend req.account_owners f.account_owners update.account_owner kl in
      ground (arith, before, after, pubkeys, owners)

  -- A filter after any number of requests.
  unfoldable pub after_requests :
      SubscriptionFilter K B → List (SubscriptionRequest K) → SubscriptionFilter K B
  after_requests f [] = f
  after_requests f (req ∷ reqs) = after_requests (with_request keys bloom f req) reqs

  unfoldable pub some_names : List (SubscriptionRequest K) → AccountUpdate K → Bool
  some_names [] update = false
  some_names (req ∷ reqs) update = names req update || some_names reqs update

  with_request-IsFilter :
      (f : SubscriptionFilter K B) (req : SubscriptionRequest K)
      → IsFilter (with_request keys bloom f req)
  unfolding with_request from_sets
  with_request-IsFilter f req = refl

  from_request-IsFilter : (req : SubscriptionRequest K) → IsFilter (from_request keys bloom req)
  unfolding from_request from_sets
  from_request-IsFilter req = refl

  after_requests_lem :
      (reqs : List (SubscriptionRequest K)) (f : SubscriptionFilter K B) (update : AccountUpdate K)
      → IsBloom bloom
      → IsPubkeyApi keys
      → IsFilter f
      → matches_account keys bloom (after_requests f reqs) update
        ≡ (matches_account keys bloom f update || some_names reqs update)
  unfolding after_requests some_names
  after_requests_lem [] f update laws kl made = ground arith
  after_requests_lem (req ∷ reqs) f update laws kl made =
      let rest =
        after_requests_lem reqs (with_request keys bloom f req) update laws kl
          (with_request-IsFilter f req) in
      let step = with_request-names f req update laws kl made in ground (arith, rest, step)

  -- A filter made from a request and extended by any further requests matches an account exactly
  -- if one of the requests names its key or its owner: neither the shortcuts for single keys nor
  -- the bloom filter changes an answer, where the keys keep their laws and the bloom filter
  -- contains what was added to it.
  pub after_requests-some_names :
      (req : SubscriptionRequest K) (reqs : List (SubscriptionRequest K)) (update : AccountUpdate K)
      → IsBloom bloom
      → IsPubkeyApi keys
      → matches_account keys bloom (after_requests (from_request keys bloom req) reqs) update
        ≡ some_names (req ∷ reqs) update
  unfolding some_names
  after_requests-some_names req reqs update laws kl =
      after_requests_lem reqs (from_request keys bloom req) update laws kl
        (from_request-IsFilter req)
      ∙ ap (λ b. b || some_names reqs update) (from_request-names req update laws kl)

  unfoldable pub some_transactions : List (SubscriptionRequest K) → Bool
  some_transactions [] = false
  some_transactions (req ∷ reqs) = req.include_transactions || some_transactions reqs

  after_requests-transactions :
      (reqs : List (SubscriptionRequest K)) (f : SubscriptionFilter K B)
      → matches_transaction keys bloom (after_requests f reqs)
        ≡ (f.include_transactions || some_transactions reqs)
  unfolding after_requests some_transactions
  after_requests-transactions [] f = ground arith
  after_requests-transactions (req ∷ reqs) f =
      let rest = after_requests-transactions reqs (with_request keys bloom f req) in
      let step : (with_request keys bloom f req).include_transactions
          ≡ (f.include_transactions || req.include_transactions) =
        unfold with_request from_sets in refl in
      ground (arith, rest, step)

  -- A filter made from a request and extended by any further requests takes transactions exactly
  -- if one of the requests asked for them.
  pub after_requests-some_transactions :
      (req : SubscriptionRequest K) (reqs : List (SubscriptionRequest K))
      → matches_transaction keys bloom (after_requests (from_request keys bloom req) reqs)
        ≡ some_transactions (req ∷ reqs)
  unfolding some_transactions from_request from_sets
  after_requests-some_transactions req reqs =
      after_requests-transactions reqs (from_request keys bloom req)
