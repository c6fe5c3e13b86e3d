-- ===== src/Input/Node.antt =====
-- plugin/l2tvpp/node.c: the loop of `l2tvpp_input_node` over a frame, with its batched counters.
pub mod Counters
use l2tvpp.Common.{
  ℕ, ◌+◌, ◌-◌, ◌%◌, ◌^◌, Bool, true, false, Option, some, none, List, [], ◌∷◌, ◌++◌, ltb, ◌==◌,
  if◌then◌else◌, ◌>>=◌,
}
use l2tvpp.Input.{
  Next, ip4_input, ip4_input_ncs, ip6_input, punt, drop, Error, decap, decap_seq, decap_off,
  punt_control, punt_no_session, punt_ppp_proto, punt_unsupported, too_short, Action, keep,
  rewind_to_ip, deliver, Outcome, Tables, input_packet,
}

-- A buffer of the frame: its index and the bytes from `current_data` on.
pub record Packet : Type 0 where
  pub buffer : ℕ
  pub bytes : List ℕ

-- A call of `vlib_increment_combined_counter` on the receive counters.
pub record Increment : Type 0 where
  pub interface : ℕ
  pub packets : ℕ
  pub octets : ℕ

-- `stats_sw_if_index`, `stats_n_packets`, `stats_n_bytes`, and the calls made so far, latest first.
pub record Rx : Type 0 where
  pub stats_sw_if_index : ℕ
  pub stats_n_packets : ℕ
  pub stats_n_bytes : ℕ
  pub calls : List Increment

abbrev pub no_rx : Rx
no_rx = record {
  stats_sw_if_index = 2 ^ 32 - 1;
  stats_n_packets = 0;
  stats_n_bytes = 0;
  calls = [];
}

-- `if (stats_n_packets) vlib_increment_combined_counter (...)`.
unfoldable pub flush : Rx → List Increment
flush rx =
    if rx.stats_n_packets == 0
    then rx.calls
    else record {
      interface = rx.stats_sw_if_index;
      packets = rx.stats_n_packets;
      octets = rx.stats_n_bytes;
    }
      ∷ rx.calls

-- A delivery of `len0` bytes on a session's interface.
unfoldable pub count_rx : Rx → ℕ → ℕ → Rx
count_rx rx sw_if_index len0 =
    if sw_if_index == rx.stats_sw_if_index
    then record rx {
      stats_n_packets = (rx.stats_n_packets + 1) % 2 ^ 32;
      stats_n_bytes = (rx.stats_n_bytes + len0) % 2 ^ 32;
    }
    else record {
      stats_sw_if_index = sw_if_index;
      stats_n_packets = 1;
      stats_n_bytes = len0;
      calls = flush rx;
    }

-- The value of an error in the C enumeration.
abbrev pub error_code : Error → ℕ
error_code decap = 0
error_code decap_seq = 1
error_code decap_off = 2
error_code punt_control = 3
error_code punt_no_session = 4
error_code punt_ppp_proto = 5
error_code punt_unsupported = 6
error_code too_short = 7

abbrev pub is_drop : Next → Bool
is_drop drop = true
is_drop _ = false

-- A drop is counted by `error-drop`, anything else in `counts`.
unfoldable pub count_error : (ℕ → ℕ) → Outcome → ℕ → ℕ
count_error counts o code =
    if is_drop o.next
    then counts code
    else if error_code o.error == code
    then (counts code + 1) % 2 ^ 32
    else counts code

pub record Tally : Type 0 where
  pub outcomes : List Outcome
  pub rx : Rx
  pub counts : ℕ → ℕ

module _ (length_in_chain : ℕ → ℕ → ℕ) (t : Tables) where
  -- `length_in_chain b n` is what `vlib_buffer_length_in_chain` answers for buffer `b` after an
  -- advance by `n`.
  unfoldable pub rx_after : Rx → Packet → Action → Rx
  rx_after rx p (deliver advance sw_if_index) =
      count_rx rx sw_if_index (length_in_chain p.buffer advance)
  rx_after rx p _ = rx

  unfoldable pub input_loop : Rx → (ℕ → ℕ) → List Packet → Option Tally
  input_loop rx counts [] = some (record { outcomes = []; rx = rx; counts = counts })
  input_loop rx counts (p ∷ ps) = do
    o ← input_packet t p.bytes
    rest ← input_loop (rx_after rx p o.action) (count_error counts o) ps
    some (record { outcomes = o ∷ rest.outcomes; rx = rest.rx; counts = rest.counts })

  -- The outcomes in order, all the receive counter calls, and the node's error counters.
  unfoldable pub input_node : List Packet → Option (List Outcome × List Increment × (ℕ → ℕ))
  input_node frame = do f ← input_loop no_rx (λ _. 0) frame; some (f.outcomes, flush f.rx, f.counts)
