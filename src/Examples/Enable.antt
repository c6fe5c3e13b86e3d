-- ===== src/Examples/Enable.antt =====
-- The flow hand-off enabled on an interface for two of four workers.
use l2tvpp.Common.{ℕ, ◌+◌, ◌≤◌, true, false, some, none, List, [], ◌∷◌, arith, Returns}
use l2tvpp.Settings.{l2tvpp_handoff_node}
use l2tvpp.Flow.Enable.{FlowMain, flow_enable_disable}
use l2tvpp.Flow.Enable.Workers.{IsLast, IsEnabled, flow_enable_disable-IsEnabled}
use l2tvpp.Flow.Node.Threads.{Each}
use l2tvpp.Examples.Settings.{is_power, ceiling_log, is_power-IsLog}

abbrev sum : List ℕ → ℕ
sum [] = 0
sum (b ∷ bits) = b + sum bits

sum_above : (bits : List ℕ) (top : ℕ) → sum bits ≤ top → Each (λ i. i ≤ top) bits
sum_above [] top h = tt
sum_above (b ∷ bits) top h = (omega arith, sum_above bits top (omega arith))

sum-IsLast : IsLast sum
sum-IsLast bits = sum_above bits (sum bits) (omega arith)

abbrev started : FlowMain
started = record {
  if_data = [];
  frame_queue = none;
  handoff = record {
    handoff_enabled = true;
    handoff_queue_nelts = 64;
    udp_port_node = l2tvpp_handoff_node;
    frame_queue = some 64;
  };
  features = [];
}

flow_enable_disable-IsEnabled_example :
    Returns
      (flow_enable_disable is_power ceiling_log sum 5 4 1
        (some (0 ∷ 2 ∷ []))
        true
        false
        true
        (some true)
        started)
      (IsEnabled is_power ceiling_log is_power-IsLog sum sum-IsLast 5 4 true)
flow_enable_disable-IsEnabled_example =
    flow_enable_disable-IsEnabled is_power ceiling_log is_power-IsLog sum sum-IsLast 5 4 1
      (some (0 ∷ 2 ∷ [])) true false true (some true) started (omega arith) (omega arith)
      (omega arith) tt
