-- ===== src/Flow.antt =====
-- plugin/l2tvpp/flow_handoff.c: the flow hash and the classification of a received frame.
pub mod Reads
pub mod Safety
pub mod Node
pub mod Enable
use l2tvpp.Common.{
  ℕ, zero, suc, ◌+◌, ◌-◌, ◌*◌, ◌/◌, ◌≤◌, ◌≡◌, bit_and, Bool, true, false, not, ◌&&◌, ◌||◌, Option,
  some, none, List, [], ◌∷◌, ◌++◌, length, get_elem?, read_u16, ltb, leb, ◌==◌, if◌then◌else◌,
  ◌>>=◌, Returns,
}
use l2tvpp.Header.{
  HdrRc, hdr_data, hdr_too_short, parse_hdr, has_bit, hdr_s, hdr_o, udp_port, ppp_proto_ip4,
  ppp_proto_ip6,
}

-- `l2tvpp_flow_key_t`, its addresses and ports as bytes.
pub record FlowKey : Type 0 where
  pub src : List ℕ
  pub dst : List ℕ
  pub ports : List ℕ
  pub proto : ℕ

-- VPP's helpers: `clib_crc32c` of the key, an address's bytes as the machine loads them into a u32,
-- `ip4_header_bytes` of the first byte, `ip4_get_fragment_offset` and `ip4_get_fragment_more` of the
-- field they read, and `ip4_header_checksum_is_valid`, which reads the header it is given.
pub record Ip4 : Type 0 where
  pub crc32c : FlowKey → ℕ
  pub as_u32 : List ℕ → ℕ
  pub header_bytes : ℕ → ℕ
  pub fragment_offset : ℕ → ℕ
  pub fragment_more : ℕ → Bool
  pub checksum_is_valid : List ℕ → ℕ → Option Bool
  pub header_bytes-plain : header_bytes 0x45 ≡ 20
  pub checksum_is_valid-in_range :
      (m : List ℕ) (p : ℕ)
      → p + 20 ≤ length m
      → get_elem? m p ≡ some 0x45
      → Returns (checksum_is_valid m p) (λ b. checksum_is_valid m p ≡ some b)

abbrev pub ethernet_type_vlan : ℕ
ethernet_type_vlan = 0x8100

abbrev pub ethernet_type_ip4 : ℕ
ethernet_type_ip4 = 0x0800

abbrev pub ethernet_type_ip6 : ℕ
ethernet_type_ip6 = 0x86dd

abbrev pub protocol_udp : ℕ
protocol_udp = 17

abbrev pub protocol_tcp : ℕ
protocol_tcp = 6

-- A copy of `n` bytes.
unfoldable pub read_bytes : List ℕ → ℕ → ℕ → Option (List ℕ)
read_bytes m i zero = some []
read_bytes m i (suc n) = do b ← get_elem? m i; rest ← read_bytes m (i + 1) n; some (b ∷ rest)

abbrev pub zeros : ℕ → List ℕ
zeros zero = []
zeros (suc n) = 0 ∷ zeros n

-- The loop of `l2tvpp_is_local_ip4`.
unfoldable pub is_local_ip4 : List ℕ → ℕ → Bool
is_local_ip4 [] addr = false
is_local_ip4 (a ∷ local_ip4s) addr = a == addr || is_local_ip4 local_ip4s addr

-- L2TVPP_FLOW_KIND_LOCAL, OUTER, INNER and FAST.
pub data Kind : Type 0 where
  kind_local kind_outer kind_inner kind_fast : Kind

-- Where the L2TP, IP and UDP headers start, counted from the ethernet header: `*l2tp_offset` and
-- what the buffer's `l3_hdr_offset` and `l4_hdr_offset` are set to.
pub record Offsets : Type 0 where
  pub l2tp_offset : ℕ
  pub l3_hdr_offset : ℕ
  pub l4_hdr_offset : ℕ

-- The result, the hash (0 as the caller set it, where none is written), and the offsets if written.
pub record Classified : Type 0 where
  pub kind : Kind
  pub hash : ℕ
  pub offsets : Option Offsets

abbrev pub classified : Kind → ℕ → Option Offsets → Classified
classified kind hash offsets = record { kind = kind; hash = hash; offsets = offsets }

module _ (ip : Ip4) (local_ip4s : List ℕ) (m : List ℕ) where
  -- The end of the hash: the ports where they are there, and the checksum of the key.
  unfoldable pub hash_key : List ℕ → List ℕ → ℕ → ℕ → Option (Option ℕ)
  hash_key src dst proto l4 = do
    ports ←
        (if (proto == protocol_udp || proto == protocol_tcp) && leb (l4 + 4) (length m)
          then read_bytes m l4 4
          else some (zeros 4))
    some (some (ip.crc32c (record { src = src; dst = dst; ports = ports; proto = proto })))

  -- `l2tvpp_hash_ip` at offset `p`: the inner `none` is its result 0.
  unfoldable pub hash_ip : ℕ → Option (Option ℕ)
  hash_ip p = if ltb (length m) (p + 1) then some none else do
    b ← get_elem? m p
    if b / 16 == 4
        then (if ltb (length m) (p + 20) then some none else do
          src ← read_bytes m (p + 12) 4
          dst ← read_bytes m (p + 16) 4
          proto ← get_elem? m (p + 9)
          frag ← read_u16 m (p + 6)
          hash_key (src ++ zeros 12) (dst ++ zeros 12) proto
              (if ip.fragment_offset frag == 0 then p + ip.header_bytes b else length m))
        else if b / 16 == 6
        then (if ltb (length m) (p + 40) then some none else do
          src ← read_bytes m (p + 8) 16
          dst ← read_bytes m (p + 24) 16
          proto ← get_elem? m (p + 6)
          hash_key src dst proto (p + 40))
        else some none

  module _ (fastpath want_hash : Bool) where
    unfoldable pub on_outer_hash : Option Offsets → Option ℕ → Classified
    on_outer_hash offsets none = classified kind_local 0 offsets
    on_outer_hash offsets (some h) = classified kind_outer h offsets

    -- The label `outer`, at the outer IP header.
    unfoldable pub outer : ℕ → Option Offsets → Option Classified
    outer p offsets =
        if not want_hash
        then some (classified kind_outer 0 offsets)
        else do h ← hash_ip p; some (on_outer_hash offsets h)

    -- Every check that decides the fast path.
    unfoldable pub is_fast : Bool → ℕ → Option Bool
    is_fast tagged p = if not (fastpath && not tagged) then some false else do
      b ← get_elem? m p
      if not (b == 0x45) then some false else do
        len ← read_u16 m (p + 2)
        if not (leb len (length m - p) && leb 34 len) then some false else do
          valid ← ip.checksum_is_valid m p
          if not valid
              then some false
              else do dst ← read_bytes m (p + 16) 4; some (is_local_ip4 local_ip4s (ip.as_u32 dst))

    abbrev pub fast_or_inner : Bool → Kind
    fast_or_inner fast = if fast then kind_fast else kind_inner

    -- The hash of the inner packet.
    unfoldable pub on_inner_hash : ℕ → Option Offsets → Bool → Option ℕ → Option Classified
    on_inner_hash p offsets fast (some h) = some (classified (fast_or_inner fast) h offsets)
    on_inner_hash p offsets fast none =
        if fast then some (classified kind_fast 0 offsets) else outer p offsets

    unfoldable pub inner_at : ℕ → Option Offsets → Bool → ℕ → Option Classified
    inner_at p offsets fast cur = do h ← hash_ip cur; on_inner_hash p offsets fast h

    -- The PPP header at `cur`.
    unfoldable pub walk_ppp : ℕ → Option Offsets → Bool → ℕ → Option Classified
    walk_ppp p offsets fast cur = if ltb (length m) (cur + 4) then outer p offsets else do
      a ← get_elem? m cur
      c ← get_elem? m (cur + 1)
      let at = if a == 0xff && c == 0x03 then cur + 2 else cur
      b ← get_elem? m at
      if not (bit_and b 1 == 0)
          then (if not (b == bit_and ppp_proto_ip4 0xff) && not (b == bit_and ppp_proto_ip6 0xff)
              then outer p offsets
              else inner_at p offsets fast (at + 1))
          else do
            pp ← read_u16 m at
            if not (pp == ppp_proto_ip4) && not (pp == ppp_proto_ip6)
                then outer p offsets
                else inner_at p offsets fast (at + 2)

    -- From the end of the ids: [Ns Nr], then [offset size, padding].
    unfoldable pub walk : ℕ → Option Offsets → Bool → ℕ → ℕ → Option Classified
    walk p offsets fast flags start =
        let cur = if has_bit flags hdr_s then start + 4 else start in
        if not (has_bit flags hdr_o)
        then walk_ppp p offsets fast cur
        else if ltb (length m) (cur + 2)
        then outer p offsets
        else do n ← read_u16 m cur; walk_ppp p offsets fast (cur + 2 + n)

    -- What follows the parse of the L2TP header at `l2tp`.
    unfoldable pub after_parse : Bool → ℕ → ℕ → HdrRc → Option Classified
    after_parse tagged p l2tp (hdr_data flags tid sid off) = do
      fast ← is_fast tagged p
      let offsets =
          if fast
          then some (record { l2tp_offset = l2tp; l3_hdr_offset = p; l4_hdr_offset = l2tp - 8 })
          else none
      if not want_hash
          then some (classified (fast_or_inner fast) 0 offsets)
          else walk p offsets fast flags (l2tp + off)
    after_parse tagged p l2tp hdr_too_short = outer p none
    after_parse tagged p l2tp _ = some (classified kind_local 0 none)

    -- The outer IPv4 header at `p`.
    unfoldable pub classify_ip4 : Bool → ℕ → Option Classified
    classify_ip4 tagged p =
        if ltb (length m) (p + 20) then some (classified kind_local 0 none) else do
          proto ← get_elem? m (p + 9)
          frag ← read_u16 m (p + 6)
          if not (proto == protocol_udp)
                || (not (ip.fragment_offset frag == 0) || ip.fragment_more frag)
              then outer p none
              else do
                b ← get_elem? m p
                let udp = p + ip.header_bytes b
                if ltb (length m) (udp + 8) then outer p none else do
                  port ← read_u16 m (udp + 2)
                  if not (port == udp_port)
                      then outer p none
                      else if ltb (length m) (udp + 8 + 6)
                      then outer p none
                      else do
                        rc ← parse_hdr m (udp + 8) (length m - (udp + 8))
                        after_parse tagged p (udp + 8) rc

    -- What follows the ethertype.
    unfoldable pub classify_type : ℕ → Bool → ℕ → Option Classified
    classify_type type tagged p =
        if not (type == ethernet_type_ip4)
        then (if type == ethernet_type_ip6
            then outer p none
            else some (classified kind_local 0 none))
        else classify_ip4 tagged p

    -- `l2tvpp_flow_classify` on the bytes of the buffer, which start at the ethernet header.
    unfoldable pub classify : Option Classified
    classify = if ltb (length m) 14 then some (classified kind_local 0 none) else do
      type ← read_u16 m 12
      if not (type == ethernet_type_vlan)
          then classify_type type false 14
          else if ltb (length m) 18
          then some (classified kind_local 0 none)
          else do inner ← read_u16 m 16; classify_type inner true 18
