-- ===== src/Input/Node/Counters.antt =====
-- The batched receive counters and the error counters of `l2tvpp-input` miss and double nothing.
use l2tvpp.Common.{
  ℕ, suc, ◌+◌, ◌*◌, ◌^◌, ◌≤◌, ◌<◌, ◌≡◌, refl, ap, ◌∙◌, List, [], ◌∷◌, length, arith, ◌==◌,
  if◌then◌else◌, Returns, Returns-some, Returns-bind,
}
use native.Mathlib.Nat.{add-zero}
use l2tvpp.Input.{Action, keep, rewind_to_ip, deliver, Outcome, Tables}
use l2tvpp.Input.Safety.{IsConsistent, input_packet-IsHandled}
use l2tvpp.Input.Node.{
  Packet, Increment, Rx, no_rx, flush, count_rx, error_code, is_drop, count_error, Tally, rx_after,
  input_loop, input_node,
}

-- What calls add up to on one interface.
abbrev pub packets_on : ℕ → List Increment → ℕ
packets_on sw [] = 0
packets_on sw (c ∷ cs) = (if c.interface == sw then c.packets else 0) + packets_on sw cs

abbrev pub octets_on : ℕ → List Increment → ℕ
octets_on sw [] = 0
octets_on sw (c ∷ cs) = (if c.interface == sw then c.octets else 0) + octets_on sw cs

-- The reference: one increment for each delivered packet.
abbrev pub delivery : (ℕ → ℕ → ℕ) → Packet → Action → List Increment → List Increment
delivery len p (deliver advance sw) is =
    record { interface = sw; packets = 1; octets = len p.buffer advance } ∷ is
delivery len p _ is = is

abbrev pub deliveries : (ℕ → ℕ → ℕ) → List Packet → List Outcome → List Increment
deliveries len [] os = []
deliveries len (p ∷ ps) [] = []
deliveries len (p ∷ ps) (o ∷ os) = delivery len p o.action (deliveries len ps os)

-- What the error counters should hold: the packets that were not dropped, by error.
abbrev pub errors_of : ℕ → List Outcome → ℕ
errors_of code [] = 0
errors_of code (o ∷ os) =
    (if is_drop o.next then 0 else if error_code o.error == code then 1 else 0) + errors_of code os

module _ (sw : ℕ) where
  packets_on-count_rx :
      (rx : Rx) (s len : ℕ)
      → rx.stats_n_packets + 1 < 2 ^ 32
      → packets_on sw (flush (count_rx rx s len))
        ≡ (if s == sw then 1 else 0) + packets_on sw (flush rx)
  unfolding count_rx flush
  packets_on-count_rx rx s len h = ground arith

  octets_on-count_rx :
      (rx : Rx) (s len : ℕ)
      → rx.stats_n_packets + 1 < 2 ^ 32
      → rx.stats_n_bytes + len < 2 ^ 32
      → (rx.stats_n_packets ≡ 0 → rx.stats_n_bytes ≡ 0)
      → octets_on sw (flush (count_rx rx s len))
        ≡ (if s == sw then len else 0) + octets_on sw (flush rx)
  unfolding count_rx flush
  octets_on-count_rx rx s len h k z = ground arith

-- The batch has room for `n` more packets of at most `bound` bytes.
pub record HasRoom (bound n : ℕ) (rx : Rx) : Type 0 where
  pub packets_fit : rx.stats_n_packets + n < 2 ^ 32
  pub octets_fit : rx.stats_n_bytes + n * bound < 2 ^ 32
  pub empty_batch : rx.stats_n_packets ≡ 0 → rx.stats_n_bytes ≡ 0

count_rx-HasRoom :
    (bound n : ℕ) (rx : Rx) (s len : ℕ)
    → len ≤ bound
    → HasRoom bound (suc n) rx
    → HasRoom bound n (count_rx rx s len)
unfolding count_rx
count_rx-HasRoom bound n rx s len small h = record {
  packets_fit = ground (arith, h.packets_fit);
  octets_fit = ground (arith, h.octets_fit, h.packets_fit);
  empty_batch = ground (arith, h.packets_fit);
}

module _ (len : ℕ → ℕ → ℕ) (t : Tables) (bound : ℕ) (small : (b n : ℕ) → len b n ≤ bound) where
  rx_after-HasRoom :
      (n : ℕ) (rx : Rx) (p : Packet) (a : Action)
      → HasRoom bound (suc n) rx
      → HasRoom bound n (rx_after len t rx p a)
  unfolding rx_after
  rx_after-HasRoom n rx p keep h = record {
    packets_fit = omega arith;
    octets_fit = omega arith;
    empty_batch = h.empty_batch;
  }
  rx_after-HasRoom n rx p rewind_to_ip h = record {
    packets_fit = omega arith;
    octets_fit = omega arith;
    empty_batch = h.empty_batch;
  }
  rx_after-HasRoom n rx p (deliver advance s) h = count_rx-HasRoom bound n rx s _ (small _ _) h

  module _ (sw : ℕ) (rx : Rx) (p : Packet) (n : ℕ) (room : HasRoom bound (suc n) rx) where
    packets_on-rx_after :
        (a : Action) (is : List Increment)
        → packets_on sw is + packets_on sw (flush (rx_after len t rx p a))
          ≡ packets_on sw (delivery len p a is) + packets_on sw (flush rx)
    unfolding rx_after
    packets_on-rx_after keep is = refl
    packets_on-rx_after rewind_to_ip is = refl
    packets_on-rx_after (deliver advance s) is =
        omega (arith, packets_on-count_rx sw rx s (len p.buffer advance) (omega arith))

    octets_on-rx_after :
        (a : Action) (is : List Increment)
        → octets_on sw is + octets_on sw (flush (rx_after len t rx p a))
          ≡ octets_on sw (delivery len p a is) + octets_on sw (flush rx)
    unfolding rx_after
    octets_on-rx_after keep is = refl
    octets_on-rx_after rewind_to_ip is = refl
    octets_on-rx_after (deliver advance s) is =
        let fits : rx.stats_n_bytes + len p.buffer advance < 2 ^ 32 =
          omega (arith, small p.buffer advance) in
        omega (
          arith,
          octets_on-count_rx sw rx s (len p.buffer advance) (omega arith) fits room.empty_batch,
        )

  count_error-sum :
      (counts : ℕ → ℕ) (o : Outcome) (code : ℕ)
      → counts code + 1 < 2 ^ 32
      → count_error counts o code ≡ errors_of code (o ∷ []) + counts code
  unfolding count_error
  count_error-sum counts o code h = ground arith

  -- The loop's state `rx` and counts lead to the totals of the rest of the frame added on.
  abbrev Totals : Rx → (ℕ → ℕ) → List Packet → Tally → Type 0
  Totals rx counts ps r =
      (length r.outcomes ≡ length ps)
      × ((sw : ℕ)
          → packets_on sw (flush r.rx)
            ≡ packets_on sw (deliveries len ps r.outcomes) + packets_on sw (flush rx))
      × ((sw : ℕ)
          → octets_on sw (flush r.rx)
            ≡ octets_on sw (deliveries len ps r.outcomes) + octets_on sw (flush rx))
      × ((code : ℕ) → r.counts code ≡ errors_of code r.outcomes + counts code)

  step-Totals :
      (rx : Rx) (counts : ℕ → ℕ) (p : Packet) (ps : List Packet) (o : Outcome) (r : Tally)
      → HasRoom bound (suc (length ps)) rx
      → ((code : ℕ) → counts code + suc (length ps) < 2 ^ 32)
      → Totals (rx_after len t rx p o.action) (count_error counts o) ps r
      → Totals rx counts
          (p ∷ ps)
          (record { outcomes = o ∷ r.outcomes; rx = r.rx; counts = r.counts })
  step-Totals rx counts p ps o r h c (size, np, nb, ne) = (
    ap suc size,
    λ sw. np sw ∙ packets_on-rx_after sw rx p (length ps) h o.action (deliveries len ps r.outcomes),
    λ sw. nb sw ∙ octets_on-rx_after sw rx p (length ps) h o.action (deliveries len ps r.outcomes),
    λ code. omega (arith, ne code, c code, count_error-sum counts o code),
  )

  count_error-room :
      (counts : ℕ → ℕ) (o : Outcome) (n code : ℕ)
      → counts code + suc n < 2 ^ 32
      → count_error counts o code + n < 2 ^ 32
  count_error-room counts o n code h = ground (arith, count_error-sum counts o code)

  input_loop-Totals :
      (rx : Rx) (counts : ℕ → ℕ) (ps : List Packet)
      → IsConsistent t
      → HasRoom bound (length ps) rx
      → ((code : ℕ) → counts code + length ps < 2 ^ 32)
      → Returns (input_loop len t rx counts ps) (Totals rx counts ps)
  unfolding input_loop
  input_loop-Totals rx counts [] consistent h c =
      Returns-some (refl, (λ sw. omega arith), (λ sw. omega arith), λ code. omega arith)
  input_loop-Totals rx counts (p ∷ ps) consistent h c =
      Returns-bind (input_packet-IsHandled t p.bytes consistent) λ o _ _.
        Returns-bind
          (input_loop-Totals (rx_after len t rx p o.action) (count_error counts o) ps consistent
            (rx_after-HasRoom (length ps) rx p o.action h)
            (λ code. count_error-room counts o (length ps) code (c code)))
          λ r _ rest. Returns-some (step-Totals rx counts p ps o r h c rest)

-- For every frame and consistent tables the node returns an outcome for each packet, and its batched
-- calls add up, for each interface, to one packet and its length for each delivery; each error is
-- counted once for each packet that met it and was not dropped. No packet is longer than a bound
-- which, times the size of the frame, stays below 2 ^ 32, as the frame's size does.
pub input_node-totals :
    (len : ℕ → ℕ → ℕ) (t : Tables) (bound : ℕ) (frame : List Packet)
    → ((b n : ℕ) → len b n ≤ bound)
    → IsConsistent t
    → length frame * bound < 2 ^ 32
    → length frame < 2 ^ 32
    → Returns (input_node len t frame) λ r.
      (length r.0 ≡ length frame)
      × ((sw : ℕ) → packets_on sw r.1 ≡ packets_on sw (deliveries len frame r.0))
      × ((sw : ℕ) → octets_on sw r.1 ≡ octets_on sw (deliveries len frame r.0))
      × ((code : ℕ) → r.2 code ≡ errors_of code r.0)
unfolding input_node flush
input_node-totals len t bound frame small consistent octets_fit frame_fits =
    Returns-bind
      (input_loop-Totals len t bound small no_rx (λ _. 0) frame consistent room (λ _. omega arith))
      λ r _ (size, np, nb, ne). Returns-some (
        size,
        (λ sw. np sw ∙ add-zero _),
        (λ sw. nb sw ∙ add-zero _),
        λ code. omega (arith, ne code),
      )
  where
    room : HasRoom bound (length frame) no_rx
    room = record { packets_fit = omega arith; octets_fit = omega arith; empty_batch = λ e. e }
