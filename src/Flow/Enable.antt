-- ===== src/Flow/Enable.antt =====
-- plugin/l2tvpp/flow_handoff.c: `l2tvpp_flow_handoff_enable_disable`.
pub mod Workers
use l2tvpp.Common.{
  ℕ, zero, suc, ◌+◌, ◌%◌, ◌^◌, Bool, true, false, not, ◌&&◌, Option, some, none, List, [], ◌∷◌, map,
  get_elem?, set, leb, if◌then◌else◌, ◌>>=◌,
}
use l2tvpp.Registry.{Result, ok, err, invalid_sw_if_index, invalid_worker}
use l2tvpp.Settings.{Handoff, set_handoff, handoff_queue_nelts}
use l2tvpp.Flow.Node.{FlowIf}

-- The interfaces, the depth of the frame queue to `ethernet-input`, `none` before it is made, the
-- session hand-off, and the calls that switched the feature, latest first.
pub record FlowMain : Type 0 where
  pub if_data : List FlowIf
  pub frame_queue : Option ℕ
  pub handoff : Handoff
  pub features : List (ℕ × Bool)

abbrev pub no_if : FlowIf
no_if = record { workers = []; rr = 0; enabled = false; fastpath = false; spray = false }

-- `vec_validate`.
unfoldable pub validate : List FlowIf → ℕ → List FlowIf
validate [] zero = no_if ∷ []
validate [] (suc i) = no_if ∷ validate [] i
validate (x ∷ xs) zero = x ∷ xs
validate (x ∷ xs) (suc i) = x ∷ validate xs i

-- A bitmap is the list of its set bits; workers are threads from 1 on.
abbrev pub workers_of : Option (List ℕ) → List ℕ
workers_of none = []
workers_of (some bits) = map (λ i. (1 + i) % 2 ^ 16) bits

-- The bitmap reaches past the workers; `last_set` is `clib_bitmap_last_set`.
unfoldable pub is_past : (List ℕ → ℕ) → ℕ → Option (List ℕ) → Bool
is_past last_set n_workers none = false
is_past last_set n_workers (some bits) = leb n_workers (last_set bits)

module _ (is_pow2 : ℕ → Bool) (max_log2 : ℕ → ℕ) (last_set : List ℕ → ℕ)
    (n_threads n_workers : ℕ) where
  -- The frame queue, made at the first call.
  unfoldable pub with_queue : FlowMain → Option ℕ → Option FlowMain
  with_queue fm (some depth) = some fm
  with_queue fm none = do
    n ← handoff_queue_nelts is_pow2 max_log2 n_threads fm.handoff.handoff_queue_nelts
    some (record fm {
      frame_queue = some n;
      handoff = record fm.handoff { handoff_queue_nelts = n };
    })

  module _ (sw_if_index : ℕ) (bitmap : Option (List ℕ)) (fastpath spray enable : Bool) where
    -- The change under the barrier, with the end of the call.
    unfoldable pub switch : FlowMain → FlowIf → FlowMain
    switch fm ifd = record fm {
      if_data = set fm.if_data sw_if_index (record {
        workers = if enable then workers_of bitmap else [];
        rr = 0;
        enabled = enable;
        fastpath = enable && fastpath;
        spray = enable && spray;
      });
      features =
          if (if ifd.enabled then enable else not enable)
          then fm.features
          else (sw_if_index, enable) ∷ fm.features;
      handoff = if enable then set_handoff fm.handoff false else fm.handoff;
    }

    -- Past the checks.
    unfoldable pub enable_on : FlowMain → Option FlowMain
    enable_on fm0 = do
      fm ← with_queue fm0 fm0.frame_queue
      let if_data = validate fm.if_data sw_if_index
      ifd ← get_elem? if_data sw_if_index
      if not ifd.enabled && not enable
          then some (record fm { if_data = if_data })
          else some (switch (record fm { if_data = if_data }) ifd)

    -- `hardware` says of an interface in the pool whether it is of type HARDWARE.
    unfoldable pub flow_enable_disable : Option Bool → FlowMain → Option (Result FlowMain)
    flow_enable_disable none fm = some (err invalid_sw_if_index)
    flow_enable_disable (some hardware) fm =
        if not hardware
        then some (err invalid_sw_if_index)
        else if enable && is_past last_set n_workers bitmap
        then some (err invalid_worker)
        else do after ← enable_on fm; some (ok after)
