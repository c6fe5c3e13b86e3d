-- ===== src/Examples/Rewrite.antt =====
-- A packet that leaves session three, and the update of its adjacency.
use l2tvpp.Common.{
  ℕ, ◌+◌, ◌-◌, ◌%◌, ◌<◌, ◌≡◌, refl, false, true, some, none, List, [], ◌∷◌, ◌++◌, ◌==◌,
  if◌then◌else◌, arith,
}
use l2tvpp.Objects.{Session}
use l2tvpp.Header.{session_key}
use l2tvpp.Input.{Tables, Next, decap, delivered, input_packet}
use l2tvpp.Input.Decap.{Carries}
use l2tvpp.Rewrite.{
  link_ip4, link_proto, Checksum, sum16, ip_header, inner_headers, template, template_checksum,
  build_rewrite_i, fixup,
}
use l2tvpp.Rewrite.Fixup.{outgoing, outer_packet, fixup-outer_packet}
use l2tvpp.Rewrite.Peer.{drop, fixup-input_packet}
use l2tvpp.Examples.Data.{session_three, payload}
use l2tvpp.Examples.Registry.{some_vpp, tunnel_seven}

abbrev pub ones_complement : Checksum
ones_complement = record {
  header_checksum = λ h. 65535 - sum16 h % 65535;
  fold_update = λ c old new. (c + old + 65535 - new % 65535) % 65535;
  header_checksum_word = λ h. omega arith;
  header_checksum_sum = λ h e z z'. omega arith;
  fold_update_word = λ c old new. omega arith;
  fold_update_sum = λ c old new a b d. omega arith;
}

abbrev pub ten_net : ℕ → List ℕ
ten_net a = 10 ∷ 0 ∷ 0 ∷ a % 256 ∷ []

abbrev rewrite_three : List ℕ
rewrite_three =
    template some_vpp ones_complement ten_net tunnel_seven ++ inner_headers 1701 1701 0 8 21 0x21

abbrev cached_three : Session
cached_three = record session_three {
  encap_ip_csum0 = template_checksum some_vpp ones_complement ten_net tunnel_seven;
}

rewrite_three_is :
    build_rewrite_i some_vpp ones_complement ten_net tunnel_seven session_three link_ip4
    ≡ some (rewrite_three, cached_three)
unfolding build_rewrite_i
rewrite_three_is = refl

fixup-outer_packet_example :
    (proto : ℕ) × (checksum : ℕ) × (link_proto link_ip4 ≡ some proto)
    × (fixup some_vpp ones_complement ten_net cached_three 42
          (outgoing false (rewrite_three ++ payload))
        ≡ outgoing true (
            outer_packet some_vpp ones_complement ten_net
              (λ a. refl)
              tunnel_seven
              42
              checksum
              21
              proto
              payload))
    × (sum16 (ip_header 42 checksum (ten_net 1) (ten_net 2)) % 65535 ≡ 0)
    × (checksum < 65536)
fixup-outer_packet_example =
    fixup-outer_packet some_vpp ones_complement ten_net (λ a. refl) tunnel_seven false session_three
      cached_three link_ip4 rewrite_three payload rewrite_three_is (omega arith)

-- The peer has the session under tunnel 8 and session 21.
abbrev peer_tables : Tables
peer_tables = record {
  session_by_key = λ k. if k == session_key 8 21 then some 3 else none;
  sessions = λ i. if i == 3 then some session_three else none;
  inner_ip4_no_checksum = false;
}

known_to_peer : peer_tables.session_by_key (session_key 8 21) ≡ some 3
unfolding session_key
known_to_peer = refl

fixup-input_packet_example :
    let sent =
      (fixup some_vpp ones_complement ten_net cached_three 42
        (outgoing false (rewrite_three ++ payload))).bytes in
    (proto : ℕ) × (n : Next) × (link_proto link_ip4 ≡ some proto)
    × Carries peer_tables proto n
    × (input_packet peer_tables (drop 28 sent)
        ≡ some (delivered 8 21 3 decap proto 10 n session_three))
    × (drop 38 sent ≡ payload)
fixup-input_packet_example =
    fixup-input_packet some_vpp ones_complement ten_net (λ a. refl) tunnel_seven peer_tables false 3
      session_three session_three cached_three link_ip4 rewrite_three payload rewrite_three_is
      (omega arith) (omega arith) (omega arith) (omega arith) known_to_peer refl
