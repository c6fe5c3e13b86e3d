-- ===== src/Flow/Safety.antt =====
-- `l2tvpp_flow_classify` on any frame.
use l2tvpp.Common.{
  ℕ, ◌+◌, ◌-◌, ◌≤◌, ◌≡◌, refl, ap, subst, bit_and, Bool, true, false, not, ◌&&◌, ◌||◌, Option, some,
  none, List, length, get_elem?, get_elem?-in_range, read_u16, read_u16-in_range, arith, ltb, leb,
  ◌==◌, if◌then◌else◌, Returns, Returns-some, Returns-if, Returns-bind,
}
use l2tvpp.Header.{
  HdrRc, hdr_data, hdr_too_short, hdr_not_v2, hdr_control, parse_hdr, has_bit, hdr_s, hdr_o,
  udp_port, ppp_proto_ip4, ppp_proto_ip6,
}
use l2tvpp.Header.Parse.{parse_hdr_lem}
use l2tvpp.Flow.{
  Ip4, Kind, kind_fast, Offsets, Classified, classified, ethernet_type_ip4, ethernet_type_vlan,
  ethernet_type_ip6, protocol_udp, read_bytes, is_local_ip4, on_outer_hash, outer, is_fast,
  fast_or_inner, on_inner_hash, inner_at, walk_ppp, walk, after_parse, classify_ip4, classify_type,
  classify,
}
use l2tvpp.Flow.Reads.{read_bytes-in_range, hash_ip_returns}

module _ (ip : Ip4) (local_ip4s : List ℕ) (m : List ℕ) where
  -- The IP header at `p` is 20 bytes with a valid checksum, its length fits the frame and holds a
  -- UDP and an L2TP header, and its destination is a local endpoint.
  abbrev pub IsPlain : ℕ → Type 0
  IsPlain p =
      (get_elem? m p ≡ some 0x45)
      × ((len : ℕ) × (read_u16 m (p + 2) ≡ some len) × (len ≤ length m - p) × (34 ≤ len))
      × (ip.checksum_is_valid m p ≡ some true)
      × ((dst : List ℕ) × (read_bytes m (p + 16) 4 ≡ some dst)
          × (is_local_ip4 local_ip4s (ip.as_u32 dst) ≡ true))

  module _ (fastpath want_hash : Bool) where
    -- What the fast path takes: an untagged frame, where it is on, with a plain unfragmented IP header
    -- and a UDP header for port 1701, and an L2TP data header at 42.
    abbrev pub IsSoundKind : Kind → Option Offsets → Type 0
    IsSoundKind kind_fast (some o) =
        (fastpath ≡ true)
        × (read_u16 m 12 ≡ some ethernet_type_ip4)
        × IsPlain 14
        × (get_elem? m 23 ≡ some protocol_udp)
        × ((frag : ℕ) × (read_u16 m 20 ≡ some frag)
            × (ip.fragment_offset frag ≡ 0)
            × (ip.fragment_more frag ≡ false))
        × (read_u16 m 36 ≡ some udp_port)
        × ((flags : ℕ) × (tid : ℕ) × (sid : ℕ) × (off : ℕ) × (parse_hdr m 42 (length m - 42)
              ≡ some (hdr_data flags tid sid off)))
        × (o ≡ record { l2tp_offset = 42; l3_hdr_offset = 14; l4_hdr_offset = 34 })
    IsSoundKind kind_fast none = ⊥
    IsSoundKind _ o = Unit {0}

    abbrev pub IsSound : Classified → Type 0
    IsSound c = IsSoundKind c.kind c.offsets

    outer-IsSound :
        (p : ℕ) (o : Option Offsets)
        → Returns (outer ip local_ip4s m fastpath want_hash p o) IsSound
    unfolding outer on_outer_hash
    outer-IsSound p o =
        Returns-if (not want_hash) (λ _. Returns-some tt)
          λ _. Returns-bind (hash_ip_returns ip local_ip4s m p) λ h _ _. either h
      where
        either :
            (h : Option ℕ)
            → Returns (some (on_outer_hash ip local_ip4s m fastpath want_hash o h)) IsSound
        either none = Returns-some tt
        either (some h) = Returns-some tt

    abbrev FastIf : Bool → ℕ → Bool → Type 0
    FastIf tagged p false = Unit {0}
    FastIf tagged p true = (fastpath ≡ true) × (tagged ≡ false) × IsPlain p

    is_fast_lem :
        (tagged : Bool) (p : ℕ)
        → p + 20 ≤ length m
        → Returns (is_fast ip local_ip4s m fastpath want_hash tagged p) (FastIf tagged p)
    unfolding is_fast
    is_fast_lem tagged p fits =
        Returns-if (not (fastpath && not tagged)) (λ _. Returns-some tt)
          λ on. Returns-bind (get_elem?-in_range m p (omega arith)) λ b eb _.
            Returns-if (not (b == 0x45)) (λ _. Returns-some tt)
              λ plain. Returns-bind (read_u16-in_range m (p + 2) (omega arith)) λ len el _.
                Returns-if (not (leb len (length m - p) && leb 34 len)) (λ _. Returns-some tt)
                  λ room.
                    Returns-bind (ip.checksum_is_valid-in_range m p fits (ground arith))
                      λ valid ev _.
                        Returns-if (not valid) (λ _. Returns-some tt)
                          λ good.
                            Returns-bind (read_bytes-in_range m (p + 16) 4 (omega arith))
                              λ dst ed _.
                                Returns-some
                                  (found b len valid dst on eb plain el room ev good ed _ refl)
      where
        found :
            (b len : ℕ) (valid : Bool) (dst : List ℕ)
            → not (fastpath && not tagged) ≡ false
            → get_elem? m p ≡ some b
            → not (b == 0x45) ≡ false
            → read_u16 m (p + 2) ≡ some len
            → not (leb len (length m - p) && leb 34 len) ≡ false
            → ip.checksum_is_valid m p ≡ some valid
            → not valid ≡ false
            → read_bytes m (p + 16) 4 ≡ some dst
            → (r : Bool) → is_local_ip4 local_ip4s (ip.as_u32 dst) ≡ r
            → FastIf tagged p r
        found b len valid dst on eb plain el room ev good ed false er = tt
        found b len valid dst on eb plain el room ev good ed true er = (
          ground arith,
          ground arith,
          (ground arith, (len, el, ground arith, ground arith), ground arith, (dst, ed, er)),
        )

    module _ (p : ℕ) (offsets : Option Offsets) where
      on_inner_hash-IsSound :
          (fast : Bool)
          → IsSoundKind (fast_or_inner ip local_ip4s m fastpath want_hash fast) offsets
          → (h : Option ℕ)
          → Returns (on_inner_hash ip local_ip4s m fastpath want_hash p offsets fast h) IsSound
      unfolding on_inner_hash
      on_inner_hash-IsSound fast sound (some h) = Returns-some sound
      on_inner_hash-IsSound true sound none = Returns-some sound
      on_inner_hash-IsSound false sound none = outer-IsSound p offsets

      module _ (fast : Bool)
          (sound : IsSoundKind
            (fast_or_inner ip local_ip4s m fastpath want_hash fast)
            offsets) where
        inner_at-IsSound :
            (cur : ℕ)
            → Returns (inner_at ip local_ip4s m fastpath want_hash p offsets fast cur) IsSound
        unfolding inner_at
        inner_at-IsSound cur =
            Returns-bind (hash_ip_returns ip local_ip4s m cur)
              λ h _ _. on_inner_hash-IsSound fast sound h

        walk_ppp-IsSound :
            (cur : ℕ)
            → Returns (walk_ppp ip local_ip4s m fastpath want_hash p offsets fast cur) IsSound
        unfolding walk_ppp
        walk_ppp-IsSound cur =
            Returns-if (ltb (length m) (cur + 4)) (λ _. outer-IsSound p offsets)
              λ fits. Returns-bind (get_elem?-in_range m cur (ground arith)) λ a _ _.
                Returns-bind (get_elem?-in_range m (cur + 1) (ground arith)) λ c _ _.
                  Returns-bind (get_elem?-in_range m (at a c) (ground arith)) λ b _ _.
                    Returns-if (not (bit_and b 1 == 0))
                      (λ _.
                        Returns-if
                          (not (b == bit_and ppp_proto_ip4 0xff)
                            && not (b == bit_and ppp_proto_ip6 0xff))
                          (λ _. outer-IsSound p offsets) (λ _. inner_at-IsSound (at a c + 1)))
                      (λ _. Returns-bind (read_u16-in_range m (at a c) (ground arith)) λ pp _ _.
                        Returns-if (not (pp == ppp_proto_ip4) && not (pp == ppp_proto_ip6))
                          (λ _. outer-IsSound p offsets) (λ _. inner_at-IsSound (at a c + 2)))
          where
            at : ℕ → ℕ → ℕ
            at a c = if a == 0xff && c == 0x03 then cur + 2 else cur

        walk-IsSound :
            (flags start : ℕ)
            → Returns (walk ip local_ip4s m fastpath want_hash p offsets fast flags start) IsSound
        unfolding walk
        walk-IsSound flags start =
            Returns-if (not (has_bit flags hdr_o)) (λ _. walk_ppp-IsSound cur)
              λ _.
                Returns-if (ltb (length m) (cur + 2)) (λ _. outer-IsSound p offsets)
                  λ fits.
                    Returns-bind (read_u16-in_range m cur (ground arith))
                      λ n _ _. walk_ppp-IsSound (cur + 2 + n)
          where
            cur : ℕ
            cur = if has_bit flags hdr_s then start + 4 else start

    -- The outer IP header at 14 or 18, past an ethertype for IPv4.
    module _ (tagged : Bool) (p : ℕ)
        (untagged : tagged ≡ false → (p ≡ 14) × (read_u16 m 12 ≡ some ethernet_type_ip4)) where
      after_parse-IsSound :
          (b frag : ℕ) (rc : HdrRc)
          → p + 20 ≤ length m
          → get_elem? m p ≡ some b
          → get_elem? m (p + 9) ≡ some protocol_udp
          → read_u16 m (p + 6) ≡ some frag
          → ip.fragment_offset frag ≡ 0
          → ip.fragment_more frag ≡ false
          → read_u16 m (p + ip.header_bytes b + 2) ≡ some udp_port
          → parse_hdr m (p + ip.header_bytes b + 8) (length m - (p + ip.header_bytes b + 8))
            ≡ some rc
          → Returns
              (after_parse ip local_ip4s m fastpath want_hash tagged p
                (p + ip.header_bytes b + 8)
                rc)
              IsSound
      unfolding after_parse
      after_parse-IsSound b frag hdr_too_short fits eb ep ef e0 em eu er = outer-IsSound p none
      after_parse-IsSound b frag hdr_not_v2 fits eb ep ef e0 em eu er = Returns-some tt
      after_parse-IsSound b frag hdr_control fits eb ep ef e0 em eu er = Returns-some tt
      after_parse-IsSound b frag (hdr_data flags tid sid off) fits eb ep ef e0 em eu er =
          Returns-bind (is_fast_lem tagged p fits) next
        where
          l2tp : ℕ
          l2tp = p + ip.header_bytes b + 8

          offsets : Bool → Option Offsets
          offsets fast =
              if fast
              then some (record { l2tp_offset = l2tp; l3_hdr_offset = p; l4_hdr_offset = l2tp - 8 })
              else none

          sound :
              (fast : Bool)
              → FastIf tagged p fast
              → IsSoundKind (fast_or_inner ip local_ip4s m fastpath want_hash fast) (offsets fast)
          sound false _ = tt
          sound true (on, no_tag, plain) =
              let (p14, e12) = untagged no_tag in
              let b45 : b ≡ 0x45 = ground (arith, plain.0) in
              let q34 : p + ip.header_bytes b ≡ 34 =
                omega (arith, p14, ap ip.header_bytes b45, ip.header_bytes-plain) in
              (
                on,
                e12,
                subst IsPlain p14 plain,
                subst (λ q. get_elem? m (q + 9) ≡ some protocol_udp) p14 ep,
                (frag, subst (λ q. read_u16 m (q + 6) ≡ some frag) p14 ef, e0, em),
                subst (λ q. read_u16 m (q + 2) ≡ some udp_port) q34 eu,
                (
                  flags,
                  tid,
                  sid,
                  off,
                  subst
                      (λ q.
                        parse_hdr m (q + 8) (length m - (q + 8))
                        ≡ some (hdr_data flags tid sid off))
                      q34 er,
                ),
                rw (q34, p14) refl,
              )

          next :
              (fast : Bool)
              → is_fast ip local_ip4s m fastpath want_hash tagged p ≡ some fast
              → FastIf tagged p fast
              → Returns
                  (if not want_hash
                    then some (
                        classified
                          (fast_or_inner ip local_ip4s m fastpath want_hash fast)
                          0
                          (offsets fast))
                    else walk ip local_ip4s m fastpath want_hash p
                        (offsets fast)
                        fast
                        flags
                        (l2tp + off))
                  IsSound
          next fast _ f =
              Returns-if (not want_hash) (λ _. Returns-some (sound fast f))
                λ _. walk-IsSound p (offsets fast) fast (sound fast f) flags (l2tp + off)

      classify_ip4-IsSound :
          Returns (classify_ip4 ip local_ip4s m fastpath want_hash tagged p) IsSound
      unfolding classify_ip4
      classify_ip4-IsSound =
          Returns-if (ltb (length m) (p + 20)) (λ _. Returns-some tt)
            λ fits. Returns-bind (get_elem?-in_range m (p + 9) (ground arith)) λ proto ep _.
              Returns-bind (read_u16-in_range m (p + 6) (ground arith)) λ frag ef _.
                Returns-if
                  (not (proto == protocol_udp)
                    || (not (ip.fragment_offset frag == 0) || ip.fragment_more frag))
                  (λ _. outer-IsSound p none)
                  λ whole. Returns-bind (get_elem?-in_range m p (ground arith)) λ b eb _.
                    Returns-if (ltb (length m) (p + ip.header_bytes b + 8))
                      (λ _. outer-IsSound p none)
                      λ udp.
                        Returns-bind
                          (read_u16-in_range m (p + ip.header_bytes b + 2) (ground arith))
                          λ port eu _.
                            Returns-if (not (port == udp_port)) (λ _. outer-IsSound p none)
                              λ ours.
                                Returns-if (ltb (length m) (p + ip.header_bytes b + 8 + 6))
                                  (λ _. outer-IsSound p none)
                                  λ room.
                                    Returns-bind
                                      (parse_hdr_lem m (p + ip.header_bytes b + 8)
                                        (length m - (p + ip.header_bytes b + 8)) (ground arith))
                                      λ rc er _.
                                        after_parse-IsSound b frag rc (ground arith) eb
                                          (ground arith) ef (ground arith) (ground arith)
                                          (ground arith) er

    classify_type-IsSound :
        (type : ℕ) (tagged : Bool) (p : ℕ)
        → (tagged ≡ false → (p ≡ 14) × (read_u16 m 12 ≡ some type))
        → Returns (classify_type ip local_ip4s m fastpath want_hash type tagged p) IsSound
    unfolding classify_type
    classify_type-IsSound type tagged p untagged =
        Returns-if (not (type == ethernet_type_ip4))
          (λ _.
            Returns-if (type == ethernet_type_ip6) (λ _. outer-IsSound p none)
              (λ _. Returns-some tt))
          (λ ip4.
            classify_ip4-IsSound tagged p
              λ no_tag. let (p14, e) = untagged no_tag in (p14, ground arith))

    -- The classification reads only inside the frame, whatever its bytes, and returns. It answers FAST
    -- only where the fast path is on, for an untagged frame whose IPv4 header has no options, a valid
    -- checksum, no fragmentation and a length that fits the frame and holds UDP and L2TP, whose
    -- destination is a local endpoint, with UDP port 1701 and a header that parses as L2TP data; the
    -- offsets that it then sets are 42, 14 and 34.
    pub classify-IsSound : Returns (classify ip local_ip4s m fastpath want_hash) IsSound
    unfolding classify
    classify-IsSound =
        Returns-if (ltb (length m) 14) (λ _. Returns-some tt)
          λ ethernet. Returns-bind (read_u16-in_range m 12 (ground arith)) λ type e _.
            Returns-if (not (type == ethernet_type_vlan))
              (λ _. classify_type-IsSound type false 14 (λ _. (refl, e)))
              λ _.
                Returns-if (ltb (length m) 18) (λ _. Returns-some tt)
                  λ tag.
                    Returns-bind (read_u16-in_range m 16 (ground arith))
                      λ inner f _. classify_type-IsSound inner true 18 (λ no. absurd (ground arith))
