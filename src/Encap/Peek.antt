-- ===== src/Encap/Peek.antt =====
-- `l2tvpp-encap-fastpath` on any frame.
use l2tvpp.Common.{
  ℕ, ◌+◌, ◌%◌, ◌^◌, ◌≤◌, ◌≡◌, refl, true, false, not, ◌||◌, Option, some, none, List, length,
  get_elem?, get_elem?-in_range, read_u16, read_u16-in_range, arith, ltb, ◌==◌, Returns,
  Returns-some, Returns-if, Returns-bind,
}
use l2tvpp.Vpp.{Bihash}
use l2tvpp.Flow.{Ip4, ethernet_type_vlan, ethernet_type_ip4, read_bytes}
use l2tvpp.Flow.Reads.{read_bytes-in_range}
use l2tvpp.Encap.{
  EncapCache, EncapNext, to_ethernet_input, to_ip4_midchain, peek_dst, hit, look_up, encap_packet,
}

module _ (ip : Ip4) (m : List ℕ) where
  -- What a shortcut may be taken for: an untagged IPv4 header of 20 bytes, unfragmented, to `dst`.
  abbrev pub IsPlainTo : ℕ → Type 0
  IsPlainTo dst =
      (34 ≤ length m)
      × (read_u16 m 12 ≡ some ethernet_type_ip4)
      × (get_elem? m 14 ≡ some 0x45)
      × ((frag : ℕ) × (read_u16 m 20 ≡ some frag)
          × (ip.fragment_offset frag ≡ 0)
          × (ip.fragment_more frag ≡ false))
      × ((bytes : List ℕ) × (read_bytes m 30 4 ≡ some bytes) × (ip.as_u32 bytes ≡ dst))

  abbrev IsPeeked : Option (ℕ × ℕ) → Type 0
  IsPeeked none = Unit {0}
  IsPeeked (some (dst, l2_len)) = (l2_len ≡ 14) × IsPlainTo dst

  peek_dst-IsPeeked : Returns (peek_dst ip m) IsPeeked
  unfolding peek_dst
  peek_dst-IsPeeked =
      Returns-if (ltb (length m) 14) (λ _. Returns-some tt)
        λ ethernet. Returns-bind (read_u16-in_range m 12 (ground arith)) λ type et _.
          Returns-if (type == ethernet_type_vlan) (λ _. Returns-some tt)
            λ _.
              Returns-if (not (type == ethernet_type_ip4)) (λ _. Returns-some tt)
                λ ip4.
                  Returns-if (ltb (length m) (14 + 20)) (λ _. Returns-some tt)
                    λ fits. Returns-bind (get_elem?-in_range m 14 (ground arith)) λ b eb _.
                      Returns-if (not (b == 0x45)) (λ _. Returns-some tt)
                        λ plain. Returns-bind (read_u16-in_range m 20 (ground arith)) λ frag ef _.
                          Returns-if (not (ip.fragment_offset frag == 0) || ip.fragment_more frag)
                            (λ _. Returns-some tt)
                            λ whole.
                              Returns-bind (read_bytes-in_range m 30 4 (ground arith)) λ dst ed _.
                                Returns-some (
                                  refl,
                                  (
                                    ground arith,
                                    ground arith,
                                    ground arith,
                                    (frag, ef, ground arith, ground arith),
                                    (dst, ed, refl),
                                  ),
                                )

  module _ (H : Bihash) (c : EncapCache H) where
    abbrev pub IsShortcut : EncapNext → Type 0
    IsShortcut to_ethernet_input = Unit {0}
    IsShortcut (to_ip4_midchain l2_len adj_index) =
        (c.encap_adj_init ≡ true)
        × (l2_len ≡ 14)
        × ((dst : ℕ) × (ai : ℕ) × IsPlainTo dst
            × (H.search c.encap_adj_by_ip4 dst ≡ some ai)
            × (adj_index ≡ ai % 2 ^ 32))

    -- The node reads only inside the frame, whatever its bytes, and returns. It takes the shortcut to
    -- `ip4-midchain` only once the cache is initialised, for an untagged, unfragmented IPv4 frame
    -- without options, with the 14 bytes of Ethernet stripped and the adjacency that the cache has
    -- for the destination.
    pub encap_packet-IsShortcut : Returns (encap_packet ip m H c) IsShortcut
    unfolding encap_packet look_up hit
    encap_packet-IsShortcut =
        Returns-if (not c.encap_adj_init) (λ _. Returns-some tt)
          λ ready.
            Returns-bind peek_dst-IsPeeked
              λ peeked _ ok. Returns-some (found peeked (ground arith) ok)
      where
        cached :
            (dst l2_len : ℕ) (o : Option ℕ)
            → c.encap_adj_init ≡ true
            → l2_len ≡ 14
            → IsPlainTo dst
            → H.search c.encap_adj_by_ip4 dst ≡ o
            → IsShortcut (hit ip m H c l2_len o)
        cached dst l2_len none ready e14 plain e = tt
        cached dst l2_len (some ai) ready e14 plain e = (ready, e14, (dst, ai, plain, e, refl))

        found :
            (peeked : Option (ℕ × ℕ))
            → c.encap_adj_init ≡ true
            → IsPeeked peeked
            → IsShortcut (look_up ip m H c peeked)
        found none ready ok = tt
        found (some (dst, l2_len)) ready (e14, plain) = cached dst l2_len _ ready e14 plain refl
