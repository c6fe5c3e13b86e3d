-- ===== src/Examples/Handoff.antt =====
-- The hand-off by session of two packets.
use l2tvpp.Common.{ℕ, ◌≤◌, ◌≡◌, ◌+◌, refl, some, [], ◌∷◌, length, arith, Returns, read_u16}
use l2tvpp.Header.{parse_hdr, session_key}
use l2tvpp.Input.{
  delivered, input_packet, ip4_input, decap_seq, decap, after_parse, skip_options, decapsulate,
  forward, ppp_header, skip_acfc,
}
use l2tvpp.Handoff.{thread_of, handoff_node}
use l2tvpp.Handoff.Affinity.{IsInjective, Threads, thread_of-session, handoff_node_lem}
use l2tvpp.Examples.Data.{one_session, session_three, plain_packet, sequenced_packet}

one_session-IsInjective : IsInjective one_session
one_session-IsInjective k k' si e e' = ground arith

plain_run :
    input_packet one_session plain_packet
    ≡ some (delivered 7 9 3 decap 0x21 10 ip4_input session_three)
unfolding input_packet parse_hdr after_parse skip_options decapsulate forward ppp_header skip_acfc
    read_u16 session_key
plain_run = refl

sequenced_run :
    input_packet one_session sequenced_packet
    ≡ some (delivered 7 9 3 decap_seq 0x21 11 ip4_input session_three)
unfolding input_packet parse_hdr after_parse skip_options decapsulate forward ppp_header skip_acfc
    read_u16 session_key
sequenced_run = refl

thread_of-session_example :
    (w : ℕ) × (thread_of 4 0 plain_packet ≡ some w)
    × (thread_of 4 2 sequenced_packet ≡ some w)
    × (1 ≤ w)
    × (w ≤ 4)
thread_of-session_example =
    thread_of-session one_session 4 0 2 plain_packet sequenced_packet _ _ 3 (omega arith)
      (omega arith) one_session-IsInjective plain_run sequenced_run refl refl

handoff_node_lem_example :
    Returns
      (handoff_node length 4 0 (plain_packet ∷ []))
      λ h. Threads 4 0 h.threads × (length h.threads ≡ 1) × (h.congestion + length h.threads ≡ 1)
handoff_node_lem_example =
    handoff_node_lem length 4 0 (plain_packet ∷ []) (omega arith) (λ ws. omega arith)
