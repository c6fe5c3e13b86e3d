-- ===== src/Examples/Input.antt =====
-- The input node at concrete packets.
use l2tvpp.Common.{ℕ, ◌≡◌, refl, true, some, none, [], ◌∷◌, length, arith, Returns, read_u16}
use l2tvpp.Header.{parse_hdr, session_key}
use l2tvpp.Input.{
  delivered, input_packet, ip4_input, decap_off, decap_seq, after_parse, skip_options, decapsulate,
  forward, ppp_header, skip_acfc, dropped, punted, punt_control,
}
use l2tvpp.Input.Safety.{IsConsistent, IsHandled, input_packet-IsHandled}
use l2tvpp.Input.Decap.{packet_bytes, ip4, input_packet-packet_bytes}
use l2tvpp.Input.Node.{input_node}
use l2tvpp.Input.Node.Counters.{packets_on, octets_on, deliveries, errors_of, input_node-totals}
use l2tvpp.Examples.Data.{
  one_session, session_three, full_frame, payload, plain_packet, sequenced_packet,
}

one_session-IsConsistent : IsConsistent one_session
one_session-IsConsistent k si e = (session_three, ground arith)

input_packet-IsHandled_example :
    Returns (input_packet one_session plain_packet) (IsHandled one_session plain_packet)
input_packet-IsHandled_example =
    input_packet-IsHandled one_session plain_packet one_session-IsConsistent

key_seven_nine : one_session.session_by_key (session_key 7 9) ≡ some 3
unfolding session_key
key_seven_nine = refl

input_packet-packet_bytes_example :
    input_packet one_session (packet_bytes full_frame true true 0x21 payload)
    ≡ some (delivered 7 9 3 decap_off 0x21 19 ip4_input session_three)
input_packet-packet_bytes_example =
    input_packet-packet_bytes one_session full_frame true true 0x21 ip4_input payload 3
      session_three
      (record { tid_fits = omega arith; sid_fits = omega arith; pad_fits = omega arith }) ip4
      (omega arith) key_seven_nine refl

input_node-totals_example :
    Returns
      (input_node
        (λ b n. 4)
        one_session
        (record { buffer = 0; bytes = plain_packet }
          ∷ record { buffer = 1; bytes = sequenced_packet }
          ∷ []))
      λ r.
        (length r.0 ≡ 2)
        × ((sw : ℕ)
            → packets_on sw r.1
              ≡ packets_on sw (
                  deliveries
                    (λ b n. 4)
                    (record { buffer = 0; bytes = plain_packet }
                      ∷ record { buffer = 1; bytes = sequenced_packet }
                      ∷ [])
                    r.0))
        × ((sw : ℕ)
            → octets_on sw r.1
              ≡ octets_on sw (
                  deliveries
                    (λ b n. 4)
                    (record { buffer = 0; bytes = plain_packet }
                      ∷ record { buffer = 1; bytes = sequenced_packet }
                      ∷ [])
                    r.0))
        × ((code : ℕ) → r.2 code ≡ errors_of code r.0)
input_node-totals_example =
    input_node-totals (λ b n. 4) one_session 4 _ (λ b n. omega arith) one_session-IsConsistent
      (omega arith) (omega arith)

-- A sequenced packet runs through, a control message is punted, a short packet is dropped.
three_outcomes :
    (input_packet one_session sequenced_packet
      ≡ some (delivered 7 9 3 decap_seq 0x21 11 ip4_input session_three))
    × (input_packet one_session (0xc8 ∷ 2 ∷ 0 ∷ 12 ∷ 0 ∷ 7 ∷ [])
        ≡ some (punted punt_control none 0 0 0))
    × (input_packet one_session (0 ∷ 2 ∷ 0 ∷ []) ≡ some (dropped 0 0))
unfolding input_packet parse_hdr after_parse skip_options decapsulate forward ppp_header skip_acfc
    read_u16 session_key
three_outcomes = (refl, refl, refl)
