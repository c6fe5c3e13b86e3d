-- ===== src/Settings/Switch.antt =====
-- The hand-off's switch and the registration of UDP port 1701.
use l2tvpp.Common.{
  ℕ, ◌≤◌, ◌≡◌, refl, Bool, true, false, some, List, [], ◌∷◌, ltb, arith, if◌then◌else◌, Returns,
  Returns-some, Returns-bind, ◌^◌, ◌+◌,
}
use l2tvpp.Settings.{
  Handoff, l2tvpp_input_node, l2tvpp_handoff_node, node_for, same, init, set_handoff,
  handoff_default,
}
use l2tvpp.Settings.Queue.{IsLog, IsDepth, handoff_queue_nelts-IsDepth}

-- The calls of the CLI, the API and the flow hand-off that set the switch, one after another.
abbrev pub set_all : Handoff → List Bool → Handoff
set_all h [] = h
set_all h (b ∷ bs) = set_all (set_handoff h b) bs

abbrev pub last : Bool → List Bool → Bool
last b [] = b
last b (c ∷ bs) = last c bs

-- The switch is at `b`, the port is registered to its node, and the queue has a depth.
abbrev pub IsAt : Bool → ℕ → Handoff → Type 0
IsAt b n h =
    (h.handoff_enabled ≡ b)
    × (h.udp_port_node ≡ node_for b)
    × (h.frame_queue ≡ some n)
    × (h.handoff_queue_nelts ≡ n)

set_handoff-IsAt : (h : Handoff) (b c : Bool) (n : ℕ) → IsAt b n h → IsAt c n (set_handoff h c)
unfolding set_handoff
set_handoff-IsAt h b c n (e, u, q, d) = go h.handoff_enabled c b refl e u
  where
    go :
        (x y z : Bool)
        → h.handoff_enabled ≡ x
        → x ≡ z
        → h.udp_port_node ≡ node_for z
        → IsAt y n
            (if same y x then h else record h { udp_port_node = node_for y; handoff_enabled = y })
    go true true true ex xz uz = (ex, uz, q, d)
    go false false false ex xz uz = (ex, uz, q, d)
    go true false z ex xz uz = (refl, refl, q, d)
    go false true z ex xz uz = (refl, refl, q, d)
    go true true false ex xz uz = absurd (ground arith)
    go false false true ex xz uz = absurd (ground arith)

set_all-IsAt :
    (bs : List Bool) (h : Handoff) (b : Bool) (n : ℕ)
    → IsAt b n h
    → IsAt (last b bs) n (set_all h bs)
set_all-IsAt [] h b n at = at
set_all-IsAt (c ∷ bs) h b n at = set_all-IsAt bs (set_handoff h c) c n (set_handoff-IsAt h b c n at)

module _ (is_pow2 : ℕ → Bool) (max_log2 : ℕ → ℕ) (log : IsLog is_pow2 max_log2) where
  -- After the start, whatever calls set the switch, it is as the last call says, on at the start with
  -- more than one worker; UDP port 1701 is registered to the node that the switch says; and the
  -- frame queue is there, with the depth that the default and the number of threads give. Neither is
  -- above 2 ^ 31.
  pub set_all-handoff_default :
      (default_nelts n_threads n_workers : ℕ) (bs : List Bool)
      → 9 + n_threads ≤ 2 ^ 31
      → default_nelts ≤ 2 ^ 31
      → Returns (handoff_default is_pow2 max_log2 n_threads n_workers (init default_nelts)) λ h.
        (n : ℕ) × IsAt (last (ltb 1 n_workers) bs) n (set_all h bs)
        × IsDepth is_pow2 max_log2 log n_threads default_nelts n
  unfolding handoff_default init
  set_all-handoff_default default_nelts n_threads n_workers bs few small =
      Returns-bind
        (handoff_queue_nelts-IsDepth is_pow2 max_log2 log n_threads default_nelts few small)
        λ n _ depth.
          Returns-some (n, set_all-IsAt bs _ (ltb 1 n_workers) n (start n (ltb 1 n_workers)), depth)
    where
      start :
          (n : ℕ) (b : Bool)
          → IsAt b n (
              if b
              then record {
                handoff_enabled = true;
                handoff_queue_nelts = n;
                udp_port_node = l2tvpp_handoff_node;
                frame_queue = some n;
              }
              else record {
                handoff_enabled = false;
                handoff_queue_nelts = n;
                udp_port_node = l2tvpp_input_node;
                frame_queue = some n;
              })
      start n true = (refl, refl, refl, refl)
      start n false = (refl, refl, refl, refl)
