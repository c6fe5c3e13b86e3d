-- ===== src/Flow/Enable/Workers.antt =====
-- The workers that the interfaces have.
use l2tvpp.Common.{
  ℕ, zero, suc, ◌+◌, ◌%◌, ◌^◌, ◌≤◌, ◌<◌, ◌≡◌, ◌⊎◌, inl, inr, refl, Bool, true, false, not, ◌&&◌,
  Option, some, none, List, [], ◌∷◌, map, length, get_elem?-in_range, arith, if◌then◌else◌, Returns,
  Returns-some, Returns-if, Returns-bind,
}
use l2tvpp.Registry.{Result, ok, err, invalid_sw_if_index, invalid_worker}
use l2tvpp.Settings.{Handoff, set_handoff, same, node_for}
use l2tvpp.Settings.Queue.{IsLog, handoff_queue_nelts-IsDepth}
use l2tvpp.Flow.Node.{FlowIf}
use l2tvpp.Flow.Node.Threads.{Each, Each-set}
use l2tvpp.Flow.Enable.{
  FlowMain, validate, workers_of, is_past, with_queue, switch, enable_on, flow_enable_disable,
}

-- `last_set` is no less than any bit.
abbrev pub IsLast : (List ℕ → ℕ) → Type 0
IsLast last_set = (bits : List ℕ) → Each (λ i. i ≤ last_set bits) bits

abbrev pub IsWorker : ℕ → ℕ → Type 0
IsWorker n w = (1 ≤ w) × (w ≤ n)

-- Every worker of every interface is one of `n`.
abbrev pub HaveWorkers : ℕ → List FlowIf → Type 0
HaveWorkers n = Each (λ ifd. Each (IsWorker n) ifd.workers)

validate-HaveWorkers :
    (n : ℕ) (xs : List FlowIf) (i : ℕ) → HaveWorkers n xs → HaveWorkers n (validate xs i)
unfolding validate
validate-HaveWorkers n [] zero h = (tt, tt)
validate-HaveWorkers n [] (suc i) h = (tt, validate-HaveWorkers n [] i tt)
validate-HaveWorkers n (x ∷ xs) zero h = h
validate-HaveWorkers n (x ∷ xs) (suc i) h = (h.0, validate-HaveWorkers n xs i h.1)

length-validate : (xs : List FlowIf) (i : ℕ) → i < length (validate xs i)
unfolding validate
length-validate [] zero = omega arith
length-validate [] (suc i) = omega (arith, length-validate [] i)
length-validate (x ∷ xs) zero = omega arith
length-validate (x ∷ xs) (suc i) = omega (arith, length-validate xs i)

map-IsWorker :
    (n top : ℕ) (bits : List ℕ)
    → n < 65536
    → top < n
    → Each (λ i. i ≤ top) bits
    → Each (IsWorker n) (map (λ i. (1 + i) % 2 ^ 16) bits)
map-IsWorker n top [] small h all = tt
map-IsWorker n top (b ∷ bits) small h all =
    ((omega (arith, all.0), omega (arith, all.0)), map-IsWorker n top bits small h all.1)

module _ (is_pow2 : ℕ → Bool) (max_log2 : ℕ → ℕ) (log : IsLog is_pow2 max_log2)
    (last_set : List ℕ → ℕ) (is_last : IsLast last_set) (n_threads n : ℕ) where
  -- What the call answers: an error, or workers in range and, after an enabling, no session hand-off.
  abbrev pub IsEnabled : Bool → Result FlowMain → Type 0
  IsEnabled enable (err e) = (e ≡ invalid_sw_if_index) ⊎ ((e ≡ invalid_worker) × (enable ≡ true))
  IsEnabled enable (ok fm) =
      HaveWorkers n fm.if_data × (enable ≡ true → fm.handoff.handoff_enabled ≡ false)

  with_queue-HaveWorkers :
      (fm : FlowMain) (q : Option ℕ)
      → 9 + n_threads ≤ 2 ^ 31
      → fm.handoff.handoff_queue_nelts ≤ 2 ^ 31
      → HaveWorkers n fm.if_data
      → Returns
          (with_queue is_pow2 max_log2 last_set n_threads n fm q)
          (λ x. HaveWorkers n x.if_data)
  unfolding with_queue
  with_queue-HaveWorkers fm (some d) few small h = Returns-some h
  with_queue-HaveWorkers fm none few small h =
      Returns-bind (handoff_queue_nelts-IsDepth is_pow2 max_log2 log n_threads _ few small)
        λ d _ _. Returns-some h

  set_handoff_off : (h : Handoff) → (set_handoff h false).handoff_enabled ≡ false
  unfolding set_handoff
  set_handoff_off h = go h.handoff_enabled refl
    where
      go :
          (b : Bool)
          → h.handoff_enabled ≡ b
          → (if same false b then h else record h {
            udp_port_node = node_for false;
            handoff_enabled = false;
          }).handoff_enabled
            ≡ false
      go true e = refl
      go false e = e

  module _ (sw_if_index : ℕ) (bitmap : Option (List ℕ)) (fastpath spray enable : Bool) where
    switch-IsEnabled :
        (fm : FlowMain) (ifd : FlowIf)
        → HaveWorkers n fm.if_data
        → (enable ≡ true → Each (IsWorker n) (workers_of bitmap))
        → IsEnabled enable (
            ok (
              switch is_pow2 max_log2 last_set n_threads n sw_if_index bitmap fastpath spray enable
                fm ifd))
    unfolding switch
    switch-IsEnabled fm ifd h ws = (
      Each-set (λ i. Each (IsWorker n) i.workers) fm.if_data sw_if_index _ h (chosen enable ws),
      λ e. rw e (set_handoff_off fm.handoff),
    )
      where
        chosen :
            (b : Bool)
            → (b ≡ true → Each (IsWorker n) (workers_of bitmap))
            → Each (IsWorker n) (if b then workers_of bitmap else [])
        chosen true w = w refl
        chosen false w = tt

    workers_of-IsWorker :
        n < 65536 → is_past last_set n bitmap ≡ false → Each (IsWorker n) (workers_of bitmap)
    unfolding is_past
    workers_of-IsWorker small inside = go bitmap inside
      where
        go : (b : Option (List ℕ)) → is_past last_set n b ≡ false → Each (IsWorker n) (workers_of b)
        go none e = tt
        go (some bits) e = map-IsWorker n (last_set bits) bits small (ground arith) (is_last bits)

    -- The call fails with INVALID_SW_IF_INDEX, or with INVALID_WORKER when it enables, or it returns
    -- with every worker of every interface among the threads 1 .. n, if they were before; after an
    -- enabling the session hand-off is off. It stores inside the interface vector. There are fewer
    -- than 65536 workers, and no depth above 2 ^ 31.
    pub flow_enable_disable-IsEnabled :
        (hardware : Option Bool) (fm : FlowMain)
        → n < 65536
        → 9 + n_threads ≤ 2 ^ 31
        → fm.handoff.handoff_queue_nelts ≤ 2 ^ 31
        → HaveWorkers n fm.if_data
        → Returns
            (flow_enable_disable is_pow2 max_log2 last_set n_threads n sw_if_index bitmap fastpath
              spray enable hardware fm)
            (IsEnabled enable)
    unfolding flow_enable_disable enable_on
    flow_enable_disable-IsEnabled none fm small few depth h = Returns-some (inl refl)
    flow_enable_disable-IsEnabled (some hardware) fm small few depth h =
        Returns-if (not hardware) (λ _. Returns-some (inl refl))
          λ _.
            Returns-if (enable && is_past last_set n bitmap)
              (λ e. Returns-some (inr (refl, ground arith)))
              λ inside.
                let ws : enable ≡ true → Each (IsWorker n) (workers_of bitmap) =
                  λ on. workers_of-IsWorker small (ground arith) in
                Returns-bind {Q = λ x. IsEnabled enable (ok x)}
                  (Returns-bind (with_queue-HaveWorkers fm fm.frame_queue few depth h)
                    λ queued _ hq.
                      let hv = validate-HaveWorkers n queued.if_data sw_if_index hq in
                      Returns-bind
                        (get_elem?-in_range (validate queued.if_data sw_if_index) sw_if_index
                          (length-validate queued.if_data sw_if_index))
                        λ ifd _ _.
                          Returns-if (not ifd.enabled && not enable)
                            (λ off. Returns-some (hv, λ on. absurd (ground arith)))
                            (λ _. Returns-some (switch-IsEnabled _ ifd hv ws)))
                  λ after _ r. Returns-some r
