-- ===== src/Examples/System.antt =====
-- A tunnel and a session are added to the empty plugin, and packets arrive.
use l2tvpp.Common.{
  ℕ, ◌≤◌, ◌≡◌, refl, true, false, some, none, List, [], ◌∷◌, ◌==◌, if◌then◌else◌, arith, Returns,
  read_u16,
}
use l2tvpp.Objects.{Tunnel, Session}
use l2tvpp.Header.{session_key, parse_hdr}
use l2tvpp.Registry.{
  Main, HwInterface, VnetCall, ok, vec_store, new_tunnel, new_session, is_tunnel, visit, find_in,
  tunnel_find, tunnel_add, tunnel_add_del, session_add_at, session_add, session_on, session_add_del,
  session_del, session_del_found, session_del_at, register_interface, set_link_up,
  set_l3_output_node, set_admin_up, ip4_enable_disable, ip6_enable_disable, clear_sw_flags,
  remove_ip4_delegates, remove_ip6_delegates, reset_l3_output_node, delete_hw_interface,
}
use l2tvpp.Registry.Ghost.{Sessions}
use l2tvpp.System.Counts.{IsCounted, Reach-n_sessions}
use l2tvpp.Input.{
  input_packet, delivered, punted, punt_no_session, ip4_input, decap, decap_seq, decap_off,
  after_parse, skip_options, decapsulate, forward, ppp_header, skip_acfc,
}
use l2tvpp.Input.Safety.{IsHandled}
use l2tvpp.Input.Decap.{packet_bytes, ip4}
use l2tvpp.Handoff.{thread_of}
use l2tvpp.System.{tables_of, IsInitial, tunnel_call, session_call, Reach, start, next}
use l2tvpp.System.Good.{IsGood}
use l2tvpp.System.Invariant.{Reach-IsGood}
use l2tvpp.System.Packets.{
  Reach-IsHandled, Reach-thread_of, added-packet_bytes, deleted-packet_bytes,
}
use l2tvpp.Examples.Data.{plain_packet, sequenced_packet, full_frame, payload}
use l2tvpp.Examples.Registry.{some_vpp}
use l2tvpp.Examples.Rewrite.{ones_complement, ten_net}

abbrev pub empty : Main some_vpp
empty = record {
  tunnels = [];
  sessions = [];
  session_by_key = λ k. none;
  session_index_by_sw_if_index = [];
  local_ip4s = [];
}

pub empty-IsInitial : IsInitial some_vpp empty
empty-IsInitial = record {
  no_tunnels = λ i. refl;
  no_sessions = λ i. refl;
  no_keys = λ k. refl;
  no_interfaces = λ sw. refl;
}

abbrev tunnel_zero : Tunnel ℕ
tunnel_zero = new_tunnel some_vpp 1 2 1701 1701 7 8

abbrev pub with_tunnel : Main some_vpp
with_tunnel = record empty { tunnels = (0, some tunnel_zero) ∷ []; local_ip4s = 1 ∷ [] }

tunnel_added : tunnel_add_del some_vpp empty 1 2 1701 1701 7 8 true ≡ ok (with_tunnel, some 0)
unfolding tunnel_add_del tunnel_find find_in visit is_tunnel tunnel_add
tunnel_added = refl

pub tunnel_reached : Reach some_vpp ones_complement ten_net empty with_tunnel
tunnel_reached = next start (
    tunnel_call 1 2 1701 1701 7 8 true (some 0) (omega arith) (λ _ i t e. absurd (ground arith))
      tunnel_added)

abbrev interface_five : HwInterface
interface_five = record { hw_if_index = 4; sw_if_index = 5 }

abbrev pub with_session : Main some_vpp
with_session = record {
  tunnels = (0, some (record tunnel_zero { n_sessions = 1 })) ∷ (0, some tunnel_zero) ∷ [];
  sessions = (0, some (new_session some_vpp 0 tunnel_zero 9 21 0 0 interface_five)) ∷ [];
  session_by_key = λ k. if session_key 7 9 == k then some 0 else none;
  session_index_by_sw_if_index = none ∷ none ∷ none ∷ none ∷ none ∷ some 0 ∷ [];
  local_ip4s = 1 ∷ [];
}

abbrev six_calls : List VnetCall
six_calls =
    register_interface 0
    ∷ set_link_up 4
    ∷ set_l3_output_node 5
    ∷ set_admin_up 5
    ∷ ip4_enable_disable 5 true
    ∷ ip6_enable_disable 5 true
    ∷ []

session_added :
    session_add_del some_vpp with_tunnel 0 9 21 0 0 true interface_five
    ≡ some (ok (with_session, six_calls))
unfolding session_add_del session_on session_add session_add_at vec_store
session_added = refl

pub session_reached : Reach some_vpp ones_complement ten_net empty with_session
session_reached =
    next tunnel_reached
      (session_call 0 9 21 0 0 true interface_five six_calls (omega arith) refl session_added)

Reach-IsGood_example : (es : Sessions) × IsGood some_vpp with_session es
Reach-IsGood_example = Reach-IsGood some_vpp ones_complement ten_net empty-IsInitial session_reached

Reach-IsHandled_example :
    Returns
      (input_packet (tables_of some_vpp with_session false) plain_packet)
      (IsHandled (tables_of some_vpp with_session false) plain_packet)
Reach-IsHandled_example =
    Reach-IsHandled some_vpp ones_complement ten_net empty-IsInitial session_reached false
      plain_packet

abbrev session_zero : Session
session_zero = new_session some_vpp 0 tunnel_zero 9 21 0 0 interface_five

plain_run :
    input_packet (tables_of some_vpp with_session false) plain_packet
    ≡ some (delivered 7 9 0 decap 0x21 10 ip4_input session_zero)
unfolding input_packet parse_hdr after_parse skip_options decapsulate forward ppp_header skip_acfc
    read_u16 session_key
plain_run = refl

sequenced_run :
    input_packet (tables_of some_vpp with_session false) sequenced_packet
    ≡ some (delivered 7 9 0 decap_seq 0x21 11 ip4_input session_zero)
unfolding input_packet parse_hdr after_parse skip_options decapsulate forward ppp_header skip_acfc
    read_u16 session_key
sequenced_run = refl

Reach-thread_of_example :
    (w : ℕ) × (thread_of 4 0 plain_packet ≡ some w)
    × (thread_of 4 2 sequenced_packet ≡ some w)
    × (1 ≤ w)
    × (w ≤ 4)
Reach-thread_of_example =
    Reach-thread_of some_vpp ones_complement ten_net empty-IsInitial session_reached false 4 0 2
      plain_packet sequenced_packet _ _ 0 (omega arith) (omega arith) plain_run sequenced_run refl
      refl

added-packet_bytes_example :
    input_packet
      (tables_of some_vpp with_session false)
      (packet_bytes full_frame true true 0x21 payload)
    ≡ some (delivered 7 9 0 decap_off 0x21 19 ip4_input session_zero)
added-packet_bytes_example =
    added-packet_bytes some_vpp ones_complement ten_net empty-IsInitial tunnel_reached false
      with_session 0 9 21 0 0 interface_five tunnel_zero six_calls refl (omega arith) refl
      full_frame true true 0x21 payload
      (record { tid_fits = omega arith; sid_fits = omega arith; pad_fits = omega arith }) refl refl
      (omega arith) ip4_input ip4 session_added

abbrev reached : (es : Sessions) × IsGood some_vpp with_session es
reached = Reach-IsGood some_vpp ones_complement ten_net empty-IsInitial session_reached

Reach-n_sessions_example : (es : Sessions) × IsCounted some_vpp with_session es
Reach-n_sessions_example =
    Reach-n_sessions some_vpp ones_complement ten_net empty-IsInitial session_reached

abbrev without_session : Main some_vpp
without_session = record {
  tunnels = (0, some tunnel_zero) ∷ with_session.tunnels;
  sessions = (0, none) ∷ with_session.sessions;
  session_by_key = λ k. if session_key 7 9 == k then none else with_session.session_by_key k;
  session_index_by_sw_if_index = none ∷ none ∷ none ∷ none ∷ none ∷ none ∷ [];
  local_ip4s = 1 ∷ [];
}

abbrev seven_calls : List VnetCall
seven_calls =
    ip4_enable_disable 5 false
    ∷ ip6_enable_disable 5 false
    ∷ clear_sw_flags 5
    ∷ remove_ip4_delegates 5
    ∷ remove_ip6_delegates 5
    ∷ reset_l3_output_node 5
    ∷ delete_hw_interface 4
    ∷ []

-- The interface argument of a deletion is not read.
abbrev interface_none : HwInterface
interface_none = record { hw_if_index = 0; sw_if_index = 0 }

session_deleted :
    session_add_del some_vpp with_session 0 9 0 0 0 false interface_none
    ≡ some (ok (without_session, seven_calls))
unfolding session_add_del session_on session_del session_del_found session_del_at session_key
session_deleted = refl

deleted-packet_bytes_example :
    input_packet
      (tables_of some_vpp without_session false)
      (packet_bytes full_frame true true 0x21 payload)
    ≡ some (punted punt_no_session none 7 9 0)
deleted-packet_bytes_example =
    deleted-packet_bytes some_vpp ones_complement ten_net empty-IsInitial session_reached false
      without_session 0 9 0 0 0 interface_none (record tunnel_zero { n_sessions = 1 }) seven_calls
      refl (omega arith) refl full_frame true true 0x21 payload
      (record { tid_fits = omega arith; sid_fits = omega arith; pad_fits = omega arith }) refl refl
      (omega arith) session_deleted
