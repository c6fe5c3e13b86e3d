-- ===== src/Flow/Node.antt =====
-- plugin/l2tvpp/flow_handoff.c: `l2tvpp-flow-handoff`, which picks a thread for each frame.
pub mod Threads
use l2tvpp.Common.{
  ℕ, ◌+◌, ◌-◌, ◌%◌, ◌^◌, bit_and, Bool, true, false, not, ◌&&◌, Option, some, none, List, [], ◌∷◌,
  length, get_elem?, set, ltb, ◌==◌, if◌then◌else◌, ◌>>=◌,
}
use l2tvpp.Flow.{
  Ip4, Kind, kind_local, kind_outer, kind_inner, kind_fast, Offsets, Classified, classify,
}

-- `l2tvpp_flow_handoff_if_t`.
pub record FlowIf : Type 0 where
  pub workers : List ℕ
  pub rr : ℕ
  pub enabled : Bool
  pub fastpath : Bool
  pub spray : Bool

-- A buffer: its index, its receive interface and its bytes.
pub record Buffer : Type 0 where
  pub index : ℕ
  pub sw_if_index : ℕ
  pub bytes : List ℕ

pub data FlowNext : Type 0 where
  next_ethernet_input next_l2tpp_input : FlowNext

-- A buffer on its way to a node on a thread, advanced by a number of bytes; `resets_tx` says whether
-- `sw_if_index[VLIB_TX]` is set to ~0.
pub record Sent : Type 0 where
  pub buffer : ℕ
  pub thread : ℕ
  pub next : FlowNext
  pub advance : ℕ
  pub resets_tx : Bool

-- The three output sets, and the interfaces with their cursors moved.
pub record Split : Type 0 where
  pub interfaces : List FlowIf
  pub local : List Sent
  pub eth : List Sent
  pub l2tp : List Sent

abbrev pub is_local : Kind → Bool
is_local kind_local = true
is_local _ = false

abbrev pub is_fast_kind : Kind → Bool
is_fast_kind kind_fast = true
is_fast_kind _ = false

-- `l2tp_offset`, 0 where the classification did not set it.
abbrev pub advance_of : Option Offsets → ℕ
advance_of none = 0
advance_of (some o) = o.l2tp_offset

-- `is_pow2` is vppinfra's.
module _ (is_pow2 : ℕ → Bool) where
  unfoldable pub worker_index : ℕ → ℕ → ℕ
  worker_index nw hash = if is_pow2 nw then bit_and hash (nw - 1) else hash % nw

  -- The thread of a frame, and the interface with its cursor, which wraps at 32 bits.
  unfoldable pub choose : FlowIf → ℕ → Kind → ℕ → Option (ℕ × FlowIf)
  choose ifd this_thread kind hash =
      let nw = length ifd.workers in
      if is_local kind
      then some (this_thread, ifd)
      else if nw == 0
      then some (this_thread, ifd)
      else if ifd.spray
      then (do
        w ← get_elem? ifd.workers (ifd.rr % nw)
        some (w, record ifd { rr = (ifd.rr + 1) % 2 ^ 32 }))
      else if nw == 1
      then (do w ← get_elem? ifd.workers 0; some (w, ifd))
      else do w ← get_elem? ifd.workers (worker_index nw hash); some (w, ifd)

  -- Where one frame goes, before those that follow it.
  unfoldable pub place : ℕ → ℕ → Classified → ℕ → Split → Split
  place this_thread buffer c thread rest =
      let l2tp_in : Sent = record {
        buffer = buffer;
        thread = thread;
        next = next_l2tpp_input;
        advance = advance_of c.offsets;
        resets_tx = true;
      } in
      let eth_in : Sent = record {
        buffer = buffer;
        thread = thread;
        next = next_ethernet_input;
        advance = 0;
        resets_tx = false;
      } in
      if is_fast_kind c.kind
      then (if thread == this_thread
          then record rest { local = l2tp_in ∷ rest.local }
          else record rest { l2tp = l2tp_in ∷ rest.l2tp })
      else if thread == this_thread
      then record rest { local = eth_in ∷ rest.local }
      else record rest { eth = eth_in ∷ rest.eth }

  module _ (ip : Ip4) (local_ip4s : List ℕ) (this_thread : ℕ) where
    -- The classification of a frame, whose hash is asked for only where it decides.
    unfoldable pub classify_on : FlowIf → List ℕ → Option Classified
    classify_on ifd bytes =
        classify ip local_ip4s bytes ifd.fastpath (not ifd.spray && ltb 1 (length ifd.workers))

    -- The loop over the frames; `none` is an interface index or a worker index out of range.
    unfoldable pub flow_loop : List FlowIf → List Buffer → Option Split
    flow_loop ifs [] = some (record { interfaces = ifs; local = []; eth = []; l2tp = [] })
    flow_loop ifs (b ∷ bs) = do
      ifd ← get_elem? ifs b.sw_if_index
      c ← classify_on ifd b.bytes
      chosen ← choose ifd this_thread c.kind c.hash
      rest ← flow_loop (set ifs b.sw_if_index chosen.1) bs
      some (place this_thread b.index c chosen.0 rest)

    -- The drops that the two hand-offs to other threads count, where they took `eth_n_enq` and
    -- `l2tp_n_enq` buffers.
    unfoldable pub congestion : Split → ℕ → ℕ → ℕ
    congestion s eth_n_enq l2tp_n_enq =
        (if ltb eth_n_enq (length s.eth) then length s.eth - eth_n_enq else 0)
        + (if ltb l2tp_n_enq (length s.l2tp) then length s.l2tp - l2tp_n_enq else 0)
