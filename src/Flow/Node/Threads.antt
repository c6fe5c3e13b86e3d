-- ===== src/Flow/Node/Threads.antt =====
-- The threads that `l2tvpp-flow-handoff` picks.
use l2tvpp.Common.{
  ℕ, zero, suc, ◌+◌, ◌%◌, ◌^◌, ◌<◌, ◌≡◌, ◌≢◌, ◌⊎◌, refl, Bool, true, false, Option, List, [], ◌∷◌,
  length, get_elem?, set, ◌==◌, arith, Bool-cases, inl, inr,
}
use mathlib.Core.Option
use l2tvpp.Common.Bits.{bit_and_mask}
use l2tvpp.Flow.{Kind, Classified}
use l2tvpp.Flow.Node.{
  FlowIf, FlowNext, next_ethernet_input, next_l2tpp_input, Sent, Split, is_local, is_fast_kind,
  advance_of, worker_index, choose,
}

-- Every element of a list.
abbrev pub Each : {A : Type 0} → (A → Type 0) → List A → Type 0
Each P [] = Unit {0}
Each P (x ∷ xs) = P x × Each P xs

module _ {A : Type 0} (P : A → Type 0) where
  pub Each-set : (xs : List A) (i : ℕ) (a : A) → Each P xs → P a → Each P (set xs i a)
  Each-set [] i a h p = tt
  Each-set (x ∷ xs) zero a h p = (p, h.1)
  Each-set (x ∷ xs) (suc i) a h p = (h.0, Each-set xs i a h.1 p)

-- Of the numbers above 0, `is_pow2` says so of powers of two only.
abbrev pub IsPow2 : (ℕ → Bool) → Type 0
IsPow2 is_pow2 = (n : ℕ) → 0 < n → is_pow2 n ≡ true → (k : ℕ) × (n ≡ 2 ^ k)

module _ (is_pow2 : ℕ → Bool) (pow2 : IsPow2 is_pow2) where
  -- The mask and the remainder pick the same worker.
  worker_index-mod : (nw hash : ℕ) → 0 < nw → worker_index is_pow2 nw hash ≡ hash % nw
  unfolding worker_index
  worker_index-mod nw hash some_worker = elim (Bool-cases (is_pow2 nw)) [
    | inl e ↦ let (k, n2k) = pow2 nw some_worker e in rw (e, n2k) (bit_and_mask k hash)
    | inr e ↦ rw e refl
  ]

  -- Without spraying, a frame that is hashed goes to the worker that its hash modulo the number of
  -- workers picks, whether that is computed by mask, by division or not at all for one worker; the
  -- interface is unchanged.
  pub choose-mod :
      (ifd : FlowIf) (this_thread : ℕ) (kind : Kind) (hash : ℕ)
      → is_local kind ≡ false
      → ifd.spray ≡ false
      → 0 < length ifd.workers
      → choose is_pow2 ifd this_thread kind hash
        ≡ Option.map (λ w. (w, ifd)) (get_elem? ifd.workers (hash % length ifd.workers))
  unfolding choose
  choose-mod ifd this_thread kind hash remote still some_worker =
      elim (Bool-cases (length ifd.workers == 1)) [
        | inl one ↦
            let first : hash % length ifd.workers ≡ 0 = ground arith in
            rw (remote, still, first, one) (ground arith)
        | inr more ↦
            rw (remote, still, more, worker_index-mod (length ifd.workers) hash some_worker)
              (ground arith)
      ]

  module _ (P : ℕ → Type 0) (this_thread : ℕ) where
    -- The interfaces have workers that satisfy `P`.
    abbrev pub HasWorkers : List FlowIf → Type 0
    HasWorkers = Each (λ ifd. Each P ifd.workers)

    abbrev IsChoice : ℕ × FlowIf → Type 0
    IsChoice (w, ifd) = ((w ≡ this_thread) ⊎ P w) × Each P ifd.workers

    -- A frame for `l2tvpp-input` starts at its L2TP header and has no transmit interface, one for
    -- `ethernet-input` is as received.
    abbrev pub Fits : Sent → Type 0
    Fits s =
        ((s.next ≡ next_l2tpp_input) × (s.advance ≡ 42) × (s.resets_tx ≡ true))
        ⊎ ((s.next ≡ next_ethernet_input) × (s.advance ≡ 0) × (s.resets_tx ≡ false))

    abbrev pub Remote : FlowNext → Sent → Type 0
    Remote next s = (s.thread ≢ this_thread) × P s.thread × (s.next ≡ next) × Fits s

    abbrev pub Local : Sent → Type 0
    Local s = (s.thread ≡ this_thread) × Fits s

    -- Each frame is in one of the sets: this thread's, or a worker's by way of one queue.
    abbrev pub Splits : ℕ → Split → Type 0
    Splits n s =
        (length s.local + length s.eth + length s.l2tp ≡ n)
        × Each Local s.local
        × Each (Remote next_ethernet_input) s.eth
        × Each (Remote next_l2tpp_input) s.l2tp

    -- The 42 bytes of a fast frame, as the classification promises them.
    abbrev Advances : Classified → Type 0
    Advances c = is_fast_kind c.kind ≡ true → advance_of c.offsets ≡ 42
