-- ===== src/Rewrite/Fixup.antt =====
-- What a packet looks like after the rewrite and the fixup.
use l2tvpp.Common.{
  ℕ, ◌+◌, ◌-◌, ◌%◌, ◌^◌, ◌≤◌, ◌<◌, ◌≡◌, refl, subst, ap, Bool, true, Option, some, none, List, [],
  ◌∷◌, ◌++◌, length, length-append, arith,
}
use l2tvpp.Objects.{Tunnel, Session}
use l2tvpp.Vpp.{Vpp}
use l2tvpp.Rewrite.{
  Link, link_ip4, link_ip6, link_other, link_proto, Checksum, sum16, ip_header, inner_headers,
  write_u16, Outgoing, template, template_checksum, build_rewrite_i, fixup,
}

-- Four bytes, by name.
pub record Quad (xs : List ℕ) : Type 0 where
  pub a : ℕ
  pub b : ℕ
  pub c : ℕ
  pub d : ℕ
  pub bytes_are : xs ≡ a ∷ b ∷ c ∷ d ∷ []

pub four_bytes : (xs : List ℕ) → length xs ≡ 4 → Quad xs
four_bytes [] e = absurd (omega arith)
four_bytes (a ∷ []) e = absurd (omega arith)
four_bytes (a ∷ b ∷ []) e = absurd (omega arith)
four_bytes (a ∷ b ∷ c ∷ []) e = absurd (omega arith)
four_bytes (a ∷ b ∷ c ∷ d ∷ []) e = record { a = a; b = b; c = c; d = d; bytes_are = refl }
four_bytes (a ∷ b ∷ c ∷ d ∷ x ∷ xs) e = absurd (omega arith)

abbrev pub outgoing : Bool → List ℕ → Outgoing
outgoing flag bs = record { locally_originated = flag; bytes = bs }

module _ (src dst : List ℕ) (four : length src ≡ 4) (four' : length dst ≡ 4) where
  -- The words of the header add up to those of the template, the length and the checksum.
  sum16-ip_header :
      (len checksum : ℕ)
      → len < 65536
      → checksum < 65536
      → sum16 (ip_header len checksum src dst) ≡ sum16 (ip_header 0 0 src dst) + len + checksum
  sum16-ip_header len checksum h h' =
      let s = four_bytes src four in
      let d = four_bytes dst four' in rw (s.bytes_are, d.bytes_are) (omega arith)

  length-ip_header : (len checksum : ℕ) → length (ip_header len checksum src dst) ≡ 20
  length-ip_header len checksum = omega (arith, four, four', length-append src dst)

  -- The three stores, on a packet that starts with the template.
  stored :
      (lp pp tid sid proto len checksum udp_length : ℕ) (payload : List ℕ)
      → write_u16
          (write_u16
            (write_u16
              ((ip_header 0 0 src dst ++ inner_headers lp pp 0 tid sid proto) ++ payload)
              2
              len)
            10
            checksum)
          24
          udp_length
        ≡ (ip_header len checksum src dst ++ inner_headers lp pp udp_length tid sid proto)
          ++ payload
  stored lp pp tid sid proto len checksum udp_length payload =
      let s = four_bytes src four in
      let d = four_bytes dst four' in rw (s.bytes_are, d.bytes_are) refl

module _ (V : Vpp) (C : Checksum) (ip4_bytes : V.Address → List ℕ)
    (four : (a : V.Address) → length (ip4_bytes a) ≡ 4) (t : Tunnel V.Address) where
  -- The packet that leaves: a length, a checksum and the headers of the tunnel and the session.
  abbrev pub outer_packet : ℕ → ℕ → ℕ → ℕ → List ℕ → List ℕ
  outer_packet len checksum peer_sid proto payload =
      (ip_header len checksum (ip4_bytes t.local_ip) (ip4_bytes t.peer_ip)
        ++ inner_headers t.local_port t.peer_port (len - 20) t.peer_tid peer_sid proto)
      ++ payload

  module _ (sess : Session) (proto : ℕ) (payload : List ℕ) where
    -- The packet before the fixup.
    abbrev before : List ℕ
    before =
        (template V C ip4_bytes t
          ++ inner_headers t.local_port t.peer_port 0 t.peer_tid sess.peer_sid proto)
        ++ payload

    fixup-before :
        (flag : Bool) (n : ℕ)
        → n < 65536
        → 20 ≤ n
        → fixup V C ip4_bytes
            (record sess { encap_ip_csum0 = template_checksum V C ip4_bytes t })
            n
            (outgoing flag before)
          ≡ outgoing true (
              outer_packet n
                (C.fold_update (template_checksum V C ip4_bytes t) 0 n)
                sess.peer_sid
                proto
                payload)
    unfolding fixup
    fixup-before flag n small enough =
        let len : n % 2 ^ 16 ≡ n = omega arith in
        let udp : (n + 2 ^ 16 - 20) % 2 ^ 16 ≡ n - 20 = omega arith in
        rw (len, udp)
          (ap (outgoing true) (
            stored (ip4_bytes t.local_ip) (ip4_bytes t.peer_ip) (four t.local_ip) (four t.peer_ip)
              t.local_port t.peer_port t.peer_tid sess.peer_sid proto n _ (n - 20) payload))

    IsSummed :
        (n : ℕ)
        → n < 65536
        → sum16 (
              ip_header n
                (C.fold_update (template_checksum V C ip4_bytes t) 0 n)
                (ip4_bytes t.local_ip)
                (ip4_bytes t.peer_ip))
            % 65535
          ≡ 0
    IsSummed n small =
        let src = ip4_bytes t.local_ip in
        let dst = ip4_bytes t.peer_ip in
        let c0 = template_checksum V C ip4_bytes t in
        let whole = length-ip_header src dst (four t.local_ip) (four t.peer_ip) 0 0 in
        omega (
          arith,
          sum16-ip_header src dst (four t.local_ip) (four t.peer_ip) n (C.fold_update c0 0 n) small
              (C.fold_update_word c0 0 n),
          C.header_checksum_sum (ip_header 0 0 src dst) whole refl refl,
          C.fold_update_sum c0 0 n (C.header_checksum_word (ip_header 0 0 src dst)) (omega arith)
              small,
        )

    length-before : 38 ≤ length before
    length-before =
        let s = four_bytes (ip4_bytes t.local_ip) (four t.local_ip) in
        let d = four_bytes (ip4_bytes t.peer_ip) (four t.peer_ip) in
        rw (s.bytes_are, d.bytes_are) (omega arith)

  -- What the fixup makes of a payload behind a rewrite.
  abbrev pub Leaves : Bool → Session → Link → List ℕ → List ℕ → Session → Type 0
  Leaves flag sess link payload rewrite sess' =
      length (rewrite ++ payload) < 65536
      → (proto : ℕ) × (checksum : ℕ) × (link_proto link ≡ some proto)
        × (fixup V C ip4_bytes sess' (length (rewrite ++ payload))
              (outgoing flag (rewrite ++ payload))
            ≡ outgoing true
                (outer_packet (length (rewrite ++ payload)) checksum sess.peer_sid proto payload))
        × (sum16 (
                ip_header (length (rewrite ++ payload)) checksum (ip4_bytes t.local_ip)
                  (ip4_bytes t.peer_ip))
              % 65535
            ≡ 0)
        × (checksum < 65536)

  abbrev LeavesIf : Bool → Session → Link → List ℕ → Option (List ℕ × Session) → Type 0
  LeavesIf flag sess link payload none = Unit {0}
  LeavesIf flag sess link payload (some (rewrite, sess')) =
      Leaves flag sess link payload rewrite sess'

  template-Leaves :
      (flag : Bool) (sess : Session) (link : Link) (proto : ℕ) (payload : List ℕ)
      → link_proto link ≡ some proto
      → Leaves flag sess link payload
          (template V C ip4_bytes t
            ++ inner_headers t.local_port t.peer_port 0 t.peer_tid sess.peer_sid proto)
          (record sess { encap_ip_csum0 = template_checksum V C ip4_bytes t })
  template-Leaves flag sess link proto payload e small =
      let n = length (before sess proto payload) in
      let c0 = template_checksum V C ip4_bytes t in
      (
        proto,
        C.fold_update c0 0 n,
        e,
        fixup-before sess proto payload flag n small
            (omega (arith, length-before sess proto payload)),
        IsSummed sess proto payload n small,
        C.fold_update_word c0 0 n,
      )

  -- A packet that leaves a session after the rewrite and the fixup of `l2tvpp_fixup`: its outer IPv4
  -- header has the packet's length and a checksum that makes it valid, although only the length was
  -- folded into the cached checksum; its UDP length is 20 less; and ports, ids, PPP protocol and
  -- payload are those of the tunnel, the session, the link type and the packet. The PPP header is FF 03
  -- and two bytes of protocol, whatever the flags acfc and pfc of the session, and the buffer is marked
  -- as locally originated, whether it was or not. The whole packet has fewer than 65536 bytes.
  pub fixup-outer_packet :
      (flag : Bool) (sess sess' : Session) (link : Link) (rewrite payload : List ℕ)
      → build_rewrite_i V C ip4_bytes t sess link ≡ some (rewrite, sess')
      → length (rewrite ++ payload) < 65536
      → (proto : ℕ) × (checksum : ℕ) × (link_proto link ≡ some proto)
        × (fixup V C ip4_bytes sess'
              (length (rewrite ++ payload))
              (outgoing flag (rewrite ++ payload))
            ≡ outgoing true
                (outer_packet (length (rewrite ++ payload)) checksum sess.peer_sid proto payload))
        × (sum16 (
                ip_header
                  (length (rewrite ++ payload))
                  checksum
                  (ip4_bytes t.local_ip)
                  (ip4_bytes t.peer_ip))
              % 65535
            ≡ 0)
        × (checksum < 65536)
  unfolding build_rewrite_i
  fixup-outer_packet flag sess sess' link rewrite payload e =
      subst (LeavesIf flag sess link payload) e (of link)
    where
      of : (l : Link) → LeavesIf flag sess l payload (build_rewrite_i V C ip4_bytes t sess l)
      of link_ip4 = template-Leaves flag sess link_ip4 _ payload refl
      of link_ip6 = template-Leaves flag sess link_ip6 _ payload refl
      of link_other = tt
