-- ===== src/Query/Retry.antt =====
-- query/index.ts: `withRetry`.
use cosmad.Prelude.{
  ℕ, zero, suc, ◌+◌, ◌<◌, ◌≡◌, refl, String, true, false, some, arith, ap, sym, ◌∙◌, subst,
}
use cosmad.Outcome.{Response, fail, is_ok}

-- One call of the function that is retried: it resolves to a response, or throws.
pub data Attempt {ℓ} (A : Type ℓ) : Type ℓ where
  returned : Response A → Attempt A
  thrown : String → Attempt A

module _ {ℓ} {A : Type ℓ} where
  -- The `try` and its `catch`.
  abbrev pub response_of : Attempt A → Response A
  response_of (returned r) = r
  response_of (thrown message) = fail (some message)

  -- The loop with `left` attempts to go; `call n` is the n-th call.
  unfoldable pub retry_from : (ℕ → Attempt A) → ℕ → ℕ → Response A → Response A
  retry_from call zero n last = last
  retry_from call (suc left) n last =
      let result = response_of (call n) in
      let rest = retry_from call left (suc n) result in
      elim (is_ok result) [ true ↦ result | false ↦ rest ]

  unfoldable pub with_retry : ℕ → (ℕ → Attempt A) → Response A
  with_retry attempts call = retry_from call attempts 0 (fail (some "No attempts made"))

  stops :
      (call : ℕ → Attempt A) (left n : ℕ) (last : Response A)
      → is_ok (response_of (call n)) ≡ true
      → retry_from call (suc left) n last ≡ response_of (call n)
  unfolding retry_from
  stops call left n last o = rw (o, retry_from)

  goes_on :
      (call : ℕ → Attempt A) (left n : ℕ) (last : Response A)
      → is_ok (response_of (call n)) ≡ false
      → retry_from call (suc left) n last ≡ retry_from call left (suc n) (response_of (call n))
  unfolding retry_from
  goes_on call left n last o = rw (o, retry_from)

  retry_from-first :
      (call : ℕ → Attempt A) (left n k : ℕ) (last : Response A)
      → k < left
      → is_ok (response_of (call (n + k))) ≡ true
      → ((j : ℕ) → j < k → is_ok (response_of (call (n + j))) ≡ false)
      → retry_from call left n last ≡ response_of (call (n + k))
  retry_from-first call zero n k last h o b = absurd (omega arith)
  retry_from-first call (suc left) n zero last h o b =
      let e : n + 0 ≡ n = omega arith in
      let o' : is_ok (response_of (call n)) ≡ true = rw e at o in rw e (stops call left n last o')
  retry_from-first call (suc left) n (suc k) last h o b =
      let e : n + 0 ≡ n = omega arith in
      let s : (j : ℕ) → n + suc j ≡ suc n + j = λ j. omega arith in
      let b0 : is_ok (response_of (call n)) ≡ false =
        subst (λ m. is_ok (response_of (call m)) ≡ false) e (b 0 (omega arith)) in
      let ih =
        retry_from-first call left (suc n) k (response_of (call n)) (omega arith)
          (subst (λ m. is_ok (response_of (call m)) ≡ true) (s k) o)
          (λ j l.
            subst (λ m. is_ok (response_of (call m)) ≡ false) (s j) (b (suc j) (omega arith))) in
      goes_on call left n last b0 ∙ ih ∙ ap (λ m. response_of (call m)) (sym (s k))

  retry_from-last :
      (call : ℕ → Attempt A) (k n : ℕ) (last : Response A)
      → ((j : ℕ) → j < suc k → is_ok (response_of (call (n + j))) ≡ false)
      → retry_from call (suc k) n last ≡ response_of (call (n + k))
  retry_from-last call zero n last b =
      let e : n + 0 ≡ n = omega arith in
      let b0 : is_ok (response_of (call n)) ≡ false =
        subst (λ m. is_ok (response_of (call m)) ≡ false) e (b 0 (omega arith)) in
      rw e (goes_on call 0 n last b0 ∙ unfold retry_from in refl)
  retry_from-last call (suc k) n last b =
      let e : n + 0 ≡ n = omega arith in
      let s : (j : ℕ) → n + suc j ≡ suc n + j = λ j. omega arith in
      let b0 : is_ok (response_of (call n)) ≡ false =
        subst (λ m. is_ok (response_of (call m)) ≡ false) e (b 0 (omega arith)) in
      let ih = retry_from-last call k (suc n) (response_of (call n)) (λ j l.
        subst (λ m. is_ok (response_of (call m)) ≡ false) (s j) (b (suc j) (omega arith))) in
      goes_on call (suc k) n last b0 ∙ ih ∙ ap (λ m. response_of (call m)) (sym (s k))

  -- For a call that succeeds for the first time at its k-th attempt, counted from 0, and more
  -- attempts allowed than k, `with_retry` returns that attempt's response.
  pub with_retry-first :
      (attempts k : ℕ) (call : ℕ → Attempt A)
      → k < attempts
      → is_ok (response_of (call k)) ≡ true
      → ((j : ℕ) → j < k → is_ok (response_of (call j)) ≡ false)
      → with_retry attempts call ≡ response_of (call k)
  unfolding with_retry
  with_retry-first attempts k call h o b =
      let z : (j : ℕ) → 0 + j ≡ j = λ j. omega arith in
      retry_from-first call attempts 0 k (fail (some "No attempts made")) h (rw (z k) o)
        (λ j l. rw (z j) (b j l))
      ∙ ap (λ m. response_of (call m)) (z k)

  -- When each of the n + 1 attempts that are made fails or throws, `with_retry` returns the
  -- failure of the last one.
  pub with_retry-last :
      (n : ℕ) (call : ℕ → Attempt A)
      → ((j : ℕ) → j < suc n → is_ok (response_of (call j)) ≡ false)
      → with_retry (suc n) call ≡ response_of (call n)
  unfolding with_retry
  with_retry-last n call b =
      let z : (j : ℕ) → 0 + j ≡ j = λ j. omega arith in
      retry_from-last call n 0 (fail (some "No attempts made")) (λ j l. rw (z j) (b j l))
      ∙ ap (λ m. response_of (call m)) (z n)
