-- ===== src/Client/Retry.antt =====
-- rpcWithRetry of client/client.go ends, and returns what it should.
use go_ldlm.Client.{answers, fails, rpc_with_retry, RpcResult, unavailable, retry_loop}
use go_ldlm.Common.{
  refl, inl, inr, leb, Bool-cases, ℕ, zero, suc, ◌+◌, ◌≤◌, ◌<◌, ◌≡◌, ◌⊎◌, Bool, true, false, Option,
  some, arith, ℤ, pos_part,
}

split_at : (m n : ℕ) → m ≤ n → (n ≡ m) ⊎ (m < n)
split_at m n h = omega arith

module _ {ℓ} {A : Type ℓ} where
  abbrev pub is_unavailable : RpcResult A → Bool
  is_unavailable unavailable = true
  is_unavailable _ = false

  -- How the loop ends from `retries` on, having made no more than the attempts allowed.
  pub record Ends (max_retries : ℤ) (f : ℕ → RpcResult A) (from : ℕ) (o : Option (RpcResult A × ℕ))
      : Type ℓ where
    pub last : ℕ
    pub result : o ≡ some (f last, last + 1)
    pub in_bounds : (from ≤ last) × (last ≤ pos_part max_retries)
    pub before : (i : ℕ) → from ≤ i → i < last → is_unavailable (f i) ≡ true
    pub at_last : (is_unavailable (f last) ≡ false) ⊎ (last ≡ pos_part max_retries)

  result-cases : (r : RpcResult A) → ((a : A) × (r ≡ answers a)) ⊎ ((r ≡ unavailable) ⊎ (r ≡ fails))
  result-cases (answers a) = inl (a, refl)
  result-cases unavailable = inr (inl refl)
  result-cases fails = inr (inr refl)

  -- The loop stops at this attempt.
  stops :
      (max_retries : ℤ) (f : ℕ → RpcResult A) (retries : ℕ) {r : RpcResult A}
      → retries ≤ pos_part max_retries
      → f retries ≡ r
      → (is_unavailable r ≡ false) ⊎ (retries ≡ pos_part max_retries)
      → Ends max_retries f retries (some (r, retries + 1))
  stops max_retries f retries low e why = record {
    last = retries;
    result = rw e refl;
    in_bounds = (omega arith, low);
    before = λ i a b. absurd (omega (arith, a, b));
    at_last = rw e why;
  }

  -- The loop goes on to the next attempt.
  goes_on :
      (max_retries : ℤ) (f : ℕ → RpcResult A) (retries : ℕ) {o : Option (RpcResult A × ℕ)}
      → f retries ≡ unavailable
      → Ends max_retries f (retries + 1) o
      → Ends max_retries f retries o
  goes_on max_retries f retries e rest = record {
    last = rest.last;
    result = rest.result;
    in_bounds = (omega (arith, rest.in_bounds), rest.in_bounds.1);
    before = λ i a b. elim (split_at retries i a) [
      | inl same ↦ rw (same, e) refl
      | inr more ↦ rest.before i (omega arith) b
    ];
    at_last = rest.at_last;
  }

  retry_loop_lem :
      (fuel : ℕ) (max_retries : ℤ) (f : ℕ → RpcResult A) (retries : ℕ)
      → retries ≤ pos_part max_retries
      → pos_part max_retries < retries + fuel
      → Ends max_retries f retries (retry_loop fuel max_retries f retries)
  unfolding retry_loop
  retry_loop_lem zero max_retries f retries low high = absurd (omega arith)
  retry_loop_lem (suc fuel) max_retries f retries low high = elim (result-cases (f retries)) [
    | inl (a, e) ↦ rw (e, retry_loop) (stops max_retries f retries low e (inl refl))
    | inr (inl e) ↦ elim (Bool-cases (leb (pos_part max_retries) retries)) [
      | inl h ↦ rw (e, h, retry_loop) (stops max_retries f retries low e (inr (ground (arith, h))))
      | inr h ↦
          rw (e, retry_loop)
            (rw h (
              goes_on max_retries f retries e (
                retry_loop_lem fuel max_retries f (retries + 1) (ground (arith, h)) (omega arith))))
    ]
    | inr (inr e) ↦ rw (e, retry_loop) (stops max_retries f retries low e (inl refl))
  ]

  -- With enough fuel rpcWithRetry ends: it returns the result of its last attempt and made one more
  -- attempt than it retried; it retried at most max_retries times (none where that is negative),
  -- only after an attempt that found the service unavailable, and gave up on an unavailable service
  -- only when the retries were used up.
  pub rpc_with_retry-Ends :
      (fuel : ℕ) (max_retries : ℤ) (f : ℕ → RpcResult A)
      → pos_part max_retries < fuel
      → Ends max_retries f 0 (rpc_with_retry fuel max_retries f)
  unfolding rpc_with_retry
  rpc_with_retry-Ends fuel max_retries f enough =
      retry_loop_lem fuel max_retries f 0 (omega arith) (omega (arith, enough))
