-- ===== src/Settings.antt =====
-- plugin/l2tvpp/l2tvpp.c: the session hand-off's switch and the depth of its frame queue.
pub mod Queue
pub mod Switch
use l2tvpp.Common.{
  ℕ, ◌+◌, ◌%◌, ◌^◌, Bool, true, false, Option, some, none, List, [], ◌∷◌, ltb, ◌==◌, if◌then◌else◌,
  ◌>>=◌,
}

-- The node that UDP port 1701 is registered to.
pub data UdpNode : Type 0 where
  l2tvpp_input_node l2tvpp_handoff_node : UdpNode

-- The hand-off's part of `l2tvpp_main_t`, with the registration, and the frame queue, `none` for ~0,
-- as the depth it was made with.
pub record Handoff : Type 0 where
  pub handoff_enabled : Bool
  pub handoff_queue_nelts : ℕ
  pub udp_port_node : UdpNode
  pub frame_queue : Option ℕ

abbrev pub node_for : Bool → UdpNode
node_for true = l2tvpp_handoff_node
node_for false = l2tvpp_input_node

abbrev pub same : Bool → Bool → Bool
same true b = b
same false true = false
same false false = true

-- L2TVPP_HANDOFF_QUEUE_NELTS_DEFAULT and the registration, by `l2tvpp_init`.
unfoldable pub init : ℕ → Handoff
init default_nelts = record {
  handoff_enabled = false;
  handoff_queue_nelts = default_nelts;
  udp_port_node = l2tvpp_input_node;
  frame_queue = none;
}

-- `l2tvpp_set_handoff`.
unfoldable pub set_handoff : Handoff → Bool → Handoff
set_handoff h enable =
    if same enable h.handoff_enabled
    then h
    else record h { udp_port_node = node_for enable; handoff_enabled = enable }

-- `is_pow2` and `max_log2` are vppinfra's.
module _ (is_pow2 : ℕ → Bool) (max_log2 : ℕ → ℕ) where
  -- The depth from the configured one; a shift by 32 bits or more is a fault, `none`.
  unfoldable pub round_up : ℕ → Option ℕ
  round_up n =
      if is_pow2 n then some n else if ltb (max_log2 n) 32 then some (2 ^ max_log2 n) else none

  -- `l2tvpp_handoff_queue_nelts`: the depth, which the state keeps.
  unfoldable pub handoff_queue_nelts : ℕ → ℕ → Option ℕ
  handoff_queue_nelts n_threads n =
      let min_nelts = (8 + 1 + n_threads) % 2 ^ 32 in
      if ltb n min_nelts then round_up min_nelts else round_up n

  -- `l2tvpp_handoff_default`.
  unfoldable pub handoff_default : ℕ → ℕ → Handoff → Option Handoff
  handoff_default n_threads n_workers h = do
    n ← handoff_queue_nelts n_threads h.handoff_queue_nelts
    some (
        if ltb 1 n_workers
        then record {
          handoff_enabled = true;
          handoff_queue_nelts = n;
          udp_port_node = l2tvpp_handoff_node;
          frame_queue = some n;
        }
        else record h { handoff_queue_nelts = n; frame_queue = some n })
