-- ===== src/Settings/Queue.antt =====
-- The depth of the frame queues.
use l2tvpp.Common.{
  ℕ, zero, suc, ◌+◌, ◌%◌, ◌^◌, ◌≤◌, ◌<◌, ◌≡◌, refl, Bool, true, false, some, ltb, arith, Returns,
  Returns-some, Returns-if, Returns-weaken,
}
use native.Mathlib.Nat.{pow-suc, one-le-pow}
use l2tvpp.Settings.{round_up, handoff_queue_nelts}

-- Of the numbers above 0, `is_pow2` knows the powers of two, and `max_log2 n` is the exponent of the
-- first from `n` on.
pub record IsLog (is_pow2 : ℕ → Bool) (max_log2 : ℕ → ℕ) : Type 0 where
  pub is_pow2_only : (n : ℕ) → 0 < n → is_pow2 n ≡ true → (k : ℕ) × (n ≡ 2 ^ k)
  pub is_pow2_all : (k : ℕ) → is_pow2 (2 ^ k) ≡ true
  pub max_log2_above : (n : ℕ) → 0 < n → n ≤ 2 ^ max_log2 n
  pub max_log2_least : (n k : ℕ) → 0 < n → n ≤ 2 ^ k → max_log2 n ≤ k

-- The first power of two from `n` on.
abbrev pub IsCeiling : ℕ → ℕ → Type 0
IsCeiling n r = ((k : ℕ) × (r ≡ 2 ^ k)) × (n ≤ r) × ((k : ℕ) → n ≤ 2 ^ k → r ≤ 2 ^ k)

pub pow_mono : (j k : ℕ) → j ≤ k → 2 ^ j ≤ 2 ^ k
pow_mono zero k h = one-le-pow k 2 (omega arith)
pow_mono (suc j) zero h = absurd (omega arith)
pow_mono (suc j) (suc k) h = omega (arith, pow-suc 2 j, pow-suc 2 k, pow_mono j k (omega arith))

module _ (is_pow2 : ℕ → Bool) (max_log2 : ℕ → ℕ) (log : IsLog is_pow2 max_log2) where
  round_up-IsCeiling :
      (n : ℕ) → 0 < n → n ≤ 2 ^ 31 → Returns (round_up is_pow2 max_log2 n) (IsCeiling n)
  unfolding round_up
  round_up-IsCeiling n pos small =
      Returns-if (is_pow2 n) (λ e. Returns-some (log.is_pow2_only n pos e, omega arith, λ k h. h))
        λ _.
          Returns-if (ltb (max_log2 n) 32)
            (λ _. Returns-some (
              (max_log2 n, refl),
              log.max_log2_above n pos,
              λ k h. pow_mono (max_log2 n) k (log.max_log2_least n k pos h),
            ))
            λ big. absurd (ground (arith, log.max_log2_least n 31 pos small))

  -- What a depth for a number of threads and a configured depth is.
  abbrev pub IsDepth : ℕ → ℕ → ℕ → Type 0
  IsDepth n_threads n r =
      ((k : ℕ) × (r ≡ 2 ^ k))
      × (9 + n_threads ≤ r)
      × (n ≤ r)
      × ((k : ℕ) → 9 + n_threads ≤ 2 ^ k → n ≤ 2 ^ k → r ≤ 2 ^ k)
      × (handoff_queue_nelts is_pow2 max_log2 n_threads r ≡ some r)

  handoff_queue_nelts_kept :
      (n_threads k r : ℕ)
      → r ≡ 2 ^ k
      → 9 + n_threads ≤ r
      → 9 + n_threads ≤ 2 ^ 31
      → handoff_queue_nelts is_pow2 max_log2 n_threads r ≡ some r
  unfolding handoff_queue_nelts round_up
  handoff_queue_nelts_kept n_threads k r e enough few =
      let not_less : ltb r ((9 + n_threads) % 2 ^ 32) ≡ false = ground arith in
      let pow2 : is_pow2 r ≡ true = rw e (log.is_pow2_all k) in rw (not_less, pow2) refl

  round_up-IsDepth :
      (n_threads n x : ℕ)
      → 9 + n_threads ≤ 2 ^ 31
      → 9 + n_threads ≤ x
      → n ≤ x
      → x ≤ 2 ^ 31
      → ((k : ℕ) → 9 + n_threads ≤ 2 ^ k → n ≤ 2 ^ k → x ≤ 2 ^ k)
      → Returns (round_up is_pow2 max_log2 x) (IsDepth n_threads n)
  round_up-IsDepth n_threads n x few a b small below =
      Returns-weaken (round_up-IsCeiling x (omega arith) small) λ r ((k, e), above, least). (
        (k, e),
        omega (arith, above),
        omega (arith, above),
        (λ j c d. least j (below j c d)),
        handoff_queue_nelts_kept n_threads k r e (omega (arith, above)) few,
      )

  -- The depth is the least power of two that is at least the configured depth and at least 9 plus
  -- the number of threads, and the next call keeps it. Neither of the two is above 2 ^ 31.
  pub handoff_queue_nelts-IsDepth :
      (n_threads n : ℕ)
      → 9 + n_threads ≤ 2 ^ 31
      → n ≤ 2 ^ 31
      → Returns (handoff_queue_nelts is_pow2 max_log2 n_threads n) (IsDepth n_threads n)
  unfolding handoff_queue_nelts
  handoff_queue_nelts-IsDepth n_threads n few small =
      Returns-if (ltb n ((8 + 1 + n_threads) % 2 ^ 32))
        (λ e.
          round_up-IsDepth n_threads n ((8 + 1 + n_threads) % 2 ^ 32) few (omega arith)
            (ground arith) (omega arith) (λ k a b. omega arith))
        (λ e. round_up-IsDepth n_threads n n few (ground arith) (omega arith) small (λ k a b. b))
