-- ===== src/Handoff.antt =====
-- plugin/l2tvpp/handoff.c: `l2tvpp-handoff`, which sends data packets to a worker by session.
pub mod Affinity
use l2tvpp.Common.{
  ℕ, ◌+◌, ◌-◌, Option, some, none, List, [], ◌∷◌, length, ltb, if◌then◌else◌, ◌>>=◌,
}
use l2tvpp.Header.{HdrRc, hdr_data, parse_hdr, handoff_worker}

pick : ℕ → ℕ → HdrRc → ℕ
pick n_workers this_thread (hdr_data flags tid sid off) = handoff_worker tid sid n_workers
pick n_workers this_thread _ = this_thread

-- The thread of one packet: with no workers the header is not read.
unfoldable pub thread_of : ℕ → ℕ → List ℕ → Option ℕ
unfolding pick
thread_of n_workers this_thread p =
    if ltb 0 n_workers
    then (do rc ← parse_hdr p 0 (length p); some (pick n_workers this_thread rc))
    else some this_thread

-- The loop over the frame: the thread indices, in the order of the packets.
unfoldable pub threads_of : ℕ → ℕ → List (List ℕ) → Option (List ℕ)
threads_of n_workers this_thread [] = some []
threads_of n_workers this_thread (p ∷ ps) = do
  thread ← thread_of n_workers this_thread p
  rest ← threads_of n_workers this_thread ps
  some (thread ∷ rest)

-- What the node hands to `vlib_buffer_enqueue_to_thread`, and the congestion drops that it counts
-- when that call took `n_enq` buffers.
pub record Handed : Type 0 where
  pub threads : List ℕ
  pub congestion : ℕ

module _ (enqueue_to_thread : List ℕ → ℕ) where
  unfoldable pub handoff_node : ℕ → ℕ → List (List ℕ) → Option Handed
  handoff_node n_workers this_thread frame = do
    threads ← threads_of n_workers this_thread frame
    let n_enq = enqueue_to_thread threads
    some (record {
      threads = threads;
      congestion = if ltb n_enq (length frame) then length frame - n_enq else 0;
    })
