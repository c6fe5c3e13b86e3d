-- ===== src/Rewrite/Peer.antt =====
-- What the peer makes of a packet that leaves a session.
use l2tvpp.Common.{
  ℕ, zero, suc, ◌≤◌, ◌<◌, ◌≡◌, refl, ◌∙◌, ap, subst, Bool, true, false, some, none, List, [], ◌∷◌,
  ◌++◌, length, arith,
}
use l2tvpp.Objects.{Tunnel, Session}
use l2tvpp.Vpp.{Vpp}
use l2tvpp.Header.{session_key, ppp_proto_ip4, ppp_proto_ip6}
use l2tvpp.Header.Frame.{Frame}
use l2tvpp.Input.{Tables, Next, ip6_input, next_ip4, decap, delivered, input_packet}
use l2tvpp.Input.Decap.{Carries, ip4, ip6, packet_bytes, input_packet-packet_bytes}
use l2tvpp.Rewrite.{
  Link, link_ip4, link_ip6, link_other, link_proto, Checksum, build_rewrite_i, fixup,
}
use l2tvpp.Rewrite.Fixup.{outgoing, outer_packet, fixup-outer_packet, four_bytes}

-- The bytes behind a prefix.
abbrev pub drop : ℕ → List ℕ → List ℕ
drop zero xs = xs
drop (suc n) [] = []
drop (suc n) (x ∷ xs) = drop n xs

-- A header with no optional field.
abbrev pub plain : ℕ → ℕ → Frame
plain tid sid = record {
  tid = tid;
  sid = sid;
  total = none;
  sequence = none;
  pad = none;
  priority = false;
}

module _ (V : Vpp) (C : Checksum) (ip4_bytes : V.Address → List ℕ)
    (four : (a : V.Address) → length (ip4_bytes a) ≡ 4) (t : Tunnel V.Address) where
  module _ (len checksum peer_sid proto : ℕ) (payload : List ℕ) where
    drop-outer_packet :
        drop 28 (outer_packet V C ip4_bytes four t len checksum peer_sid proto payload)
        ≡ packet_bytes (plain t.peer_tid peer_sid) true false proto payload
    drop-outer_packet =
        let s = four_bytes (ip4_bytes t.local_ip) (four t.local_ip) in
        let d = four_bytes (ip4_bytes t.peer_ip) (four t.peer_ip) in
        rw (s.bytes_are, d.bytes_are) refl

    drop-payload :
        drop 38 (outer_packet V C ip4_bytes four t len checksum peer_sid proto payload) ≡ payload
    drop-payload =
        let s = four_bytes (ip4_bytes t.local_ip) (four t.local_ip) in
        let d = four_bytes (ip4_bytes t.peer_ip) (four t.peer_ip) in
        rw (s.bytes_are, d.bytes_are) refl

  link-Carried :
      (T : Tables) (link : Link) (proto : ℕ)
      → link_proto link ≡ some proto
      → (n : Next) × Carries T proto n
  link-Carried T link_ip4 proto e =
      let same : ppp_proto_ip4 ≡ proto = cc in
      (next_ip4 T, subst (λ x. Carries T x (next_ip4 T)) same ip4)
  link-Carried T link_ip6 proto e =
      let same : ppp_proto_ip6 ≡ proto = cc in
      (ip6_input, subst (λ x. Carries T x ip6_input) same ip6)
  link-Carried T link_other proto e = absurd (ground arith)

  -- A packet that leaves a session reaches its peer: from the UDP payload, which starts at 28, a peer
  -- that has the session under the tunnel's and the session's peer ids decapsulates 10 bytes, finds
  -- the protocol of the link type, and is left with exactly the packet that was sent. They are ten for
  -- each session, whatever its flags acfc and pfc. The ids are
  -- 16-bit numbers, the packet has three bytes or more, and with its headers fewer than 65536.
  pub fixup-input_packet :
      (T : Tables) (flag : Bool) (si : ℕ) (s sess sess' : Session) (link : Link)
      (rewrite payload : List ℕ)
      → build_rewrite_i V C ip4_bytes t sess link ≡ some (rewrite, sess')
      → length (rewrite ++ payload) < 65536
      → t.peer_tid < 65536
      → sess.peer_sid < 65536
      → 3 ≤ length payload
      → T.session_by_key (session_key t.peer_tid sess.peer_sid) ≡ some si
      → T.sessions si ≡ some s
      → let b = outgoing flag (rewrite ++ payload) in
        let sent = (fixup V C ip4_bytes sess' (length (rewrite ++ payload)) b).bytes in
        (proto : ℕ) × (n : Next) × (link_proto link ≡ some proto)
        × Carries T proto n
        × (input_packet T (drop 28 sent)
            ≡ some (delivered t.peer_tid sess.peer_sid si decap proto 10 n s))
        × (drop 38 sent ≡ payload)
  fixup-input_packet T flag si s sess sess' link rewrite payload e small tid sid long found at =
      let (proto, checksum, of_link, after, _, _) =
        fixup-outer_packet V C ip4_bytes four t flag sess sess' link rewrite payload e small in
      let (n, c) = link-Carried T link proto of_link in
      let len = length (rewrite ++ payload) in
      let sent = ap (λ b. b.bytes) after in
      let seen = ap (drop 28) sent ∙ drop-outer_packet len checksum sess.peer_sid proto payload in
      let arrives =
        input_packet-packet_bytes T (plain t.peer_tid sess.peer_sid) true false proto n payload si s
          (record { tid_fits = tid; sid_fits = sid; pad_fits = omega arith }) c long found at in
      (
        proto,
        n,
        of_link,
        c,
        ap (input_packet T) seen ∙ arrives,
        ap (drop 38) sent ∙ drop-payload len checksum sess.peer_sid proto payload,
      )
