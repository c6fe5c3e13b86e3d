-- ===== src/Examples/Settings.antt =====
-- The depth of the frame queue and the hand-off's switch for four threads.
use l2tvpp.Common.{
  ℕ, zero, suc, ◌+◌, ◌≤◌, ◌^◌, ◌≡◌, sym, ap, subst, Bool, true, false, Bool-cases, inl, inr, [],
  ◌∷◌, leb, ◌==◌, ==_iff, if◌then◌else◌, arith, Returns,
}
use native.Mathlib.Nat.{pow-suc, one-le-pow}
use l2tvpp.Settings.{init, handoff_queue_nelts, handoff_default}
use l2tvpp.Settings.Queue.{IsLog, IsDepth, pow_mono, handoff_queue_nelts-IsDepth}
use l2tvpp.Settings.Switch.{set_all, IsAt, set_all-handoff_default}

-- The first exponent from `k` on whose power reaches `n`.
search_log : ℕ → ℕ → ℕ → ℕ
search_log n zero k = k
search_log n (suc fuel) k =
    let rest = search_log n fuel (suc k) in if leb n (2 ^ k) then k else rest

search_log_above : (n fuel k : ℕ) → n ≤ 2 ^ (fuel + k) → n ≤ 2 ^ search_log n fuel k
unfolding search_log
search_log_above n zero k h = let e : 0 + k ≡ k = omega arith in subst (λ x. n ≤ 2 ^ x) e h
search_log_above n (suc fuel) k h =
    let e : fuel + suc k ≡ suc fuel + k = omega arith in
    let ih = search_log_above n fuel (suc k) (rw e h) in
    elim (Bool-cases (leb n (2 ^ k))) [ inl here ↦ rw here (ground arith) | inr on ↦ rw on ih ]

search_log_least : (n fuel k j : ℕ) → k ≤ j → n ≤ 2 ^ j → search_log n fuel k ≤ j
unfolding search_log
search_log_least n zero k j h e = h
search_log_least n (suc fuel) k j h e = elim (Bool-cases (leb n (2 ^ k))) [
  | inl here ↦ rw here h
  | inr on ↦ rw on (
      search_log_least n fuel (suc k) j
        (elim (Bool-cases (k == j)) [
          | inl same ↦
              let is : k ≡ j = ground arith in absurd (ground (arith, ap (λ (x : ℕ). 2 ^ x) is))
          | inr other ↦ ground arith
        ])
        e)
]

below_pow : (n : ℕ) → n ≤ 2 ^ n
below_pow zero = omega arith
below_pow (suc n) = omega (arith, below_pow n, pow-suc 2 n, one-le-pow n 2)

below_pow_at : (n : ℕ) → n ≤ 2 ^ (n + 0)
below_pow_at n = let e : n ≡ n + 0 = omega arith in subst (λ x. n ≤ 2 ^ x) e (below_pow n)

pub ceiling_log : ℕ → ℕ
ceiling_log n = search_log n n 0

pub is_power : ℕ → Bool
is_power n = 2 ^ ceiling_log n == n

pub is_power-IsLog : IsLog is_power ceiling_log
unfolding is_power ceiling_log
is_power-IsLog = record {
  is_pow2_only = λ n pos e. (search_log n n 0, sym ((==_iff _ n).0 e));
  is_pow2_all = λ k. (==_iff (2 ^ search_log (2 ^ k) (2 ^ k) 0) (2 ^ k)).1 (
      omega (
        arith,
        search_log_above (2 ^ k) (2 ^ k) 0 (below_pow_at (2 ^ k)),
        pow_mono (search_log (2 ^ k) (2 ^ k) 0) k
            (search_log_least (2 ^ k) (2 ^ k) 0 k (omega arith) (omega arith)),
      ));
  max_log2_above = λ n pos. search_log_above n n 0 (below_pow_at n);
  max_log2_least = λ n k pos h. search_log_least n n 0 k (omega arith) h;
}

handoff_queue_nelts-IsDepth_example :
    Returns
      (handoff_queue_nelts is_power ceiling_log 4 100)
      (IsDepth is_power ceiling_log is_power-IsLog 4 100)
handoff_queue_nelts-IsDepth_example =
    handoff_queue_nelts-IsDepth is_power ceiling_log is_power-IsLog 4 100 (omega arith)
      (omega arith)

set_all-handoff_default_example : Returns (handoff_default is_power ceiling_log 4 3 (init 64)) λ h.
    (n : ℕ) × IsAt true n (set_all h (false ∷ true ∷ []))
    × IsDepth is_power ceiling_log is_power-IsLog 4 64 n
set_all-handoff_default_example =
    set_all-handoff_default is_power ceiling_log is_power-IsLog 64 4 3 (false ∷ true ∷ [])
      (omega arith) (omega arith)
