-- ===== src/Tests/Caches.antt =====
-- The vote cache of the small network.
use vocdoni.Base.{
  Bool, Option, [], ap, arith, eq_of_bytes_eq, false, if◌then◌else◌, inl, inr, refl, some, sym,
  true, ◌∷◌, ◌≡◌, ◌⊎◌,
}
use vocdoni.Action.{some_inj}
use vocdoni.Crypto.{CacheKey, VoteCache, nullifier_key, tx_key}
use vocdoni.Models.{Vote}
use vocdoni.Tests.{find_entry, pid, same_key, signed_by, test_env}
use vocdoni.Tests.Voting.{cast, message, voting}
use vocdoni.VoteCheck.{vote_envelope_check}
use vocdoni.VoteCheck.Cached.{IsFitting, IsLru, vote_envelope_check-IsFitting}
use vocdoni.VoteCheck.Fresh.{IsCachedFor}

same_key_eq : (a b : CacheKey) → same_key a b ≡ true → a ≡ b
same_key_eq (tx_key a) (tx_key b) h = ap tx_key (eq_of_bytes_eq a b h)
same_key_eq (nullifier_key a) (nullifier_key b) h = ap nullifier_key (eq_of_bytes_eq a b h)
same_key_eq (tx_key a) (nullifier_key b) h = absurd (ground arith)
same_key_eq (nullifier_key a) (tx_key b) h = absurd (ground arith)

-- The cache of the small network only finds what was added.
find_entry_added :
    (key j : CacheKey) (vote : Option Vote) (cache : VoteCache) {x : Option Vote}
    → find_entry j ((key, vote) ∷ cache) ≡ some x
    → ((j ≡ key) × (x ≡ vote)) ⊎ (find_entry j cache ≡ some x)
find_entry_added key j vote cache {x} h = by_test (same_key j key) refl h
  where
    by_test :
        (b : Bool)
        → same_key j key ≡ b
        → (if b then some vote else find_entry j cache) ≡ some x
        → ((j ≡ key) × (x ≡ vote)) ⊎ (find_entry j cache ≡ some x)
    by_test true same found = inl (same_key_eq j key same, sym (some_inj found))
    by_test false other found = inr found

test-IsLru : IsLru test_env
test-IsLru = record {
  get-get = λ key j cache h. h;
  get-add = λ key j vote cache h. find_entry_added key j vote cache h;
  get-remove = λ key j cache h. h;
}

voting-IsFitting : IsFitting test_env (λ id. pid) voting
unfolding IsFitting IsCachedFor
voting-IsFitting id c h = absurd (ground arith)

vote_envelope_check-IsFitting_example :
    IsFitting test_env
      (λ id. pid)
      (vote_envelope_check test_env cast message (signed_by 1) (7 ∷ []) false voting).1
vote_envelope_check-IsFitting_example =
    vote_envelope_check-IsFitting test_env test-IsLru (λ id. pid) cast (7 ∷ []) refl message
      (signed_by 1) false voting voting-IsFitting
