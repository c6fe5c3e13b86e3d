-- ===== src/Encap.antt =====
-- plugin/l2tvpp/l2tvpp.c and encap_fastpath.c: the cache of encapsulation adjacencies, the routes of
-- subscribers that fill it, and `l2tvpp-encap-fastpath`, which reads it.
pub mod Entries
pub mod Cache
pub mod Peek
use l2tvpp.Common.{
  ℕ, ◌+◌, ◌-◌, ◌%◌, ◌^◌, Bool, true, false, not, ◌||◌, Option, some, none, List, [], ◌∷◌, length,
  get_elem?, read_u16, ltb, ◌==◌, if◌then◌else◌, ◌>>=◌,
}
use l2tvpp.Vpp.{Bihash}
use l2tvpp.Registry.{Result, ok, err, invalid_sw_if_index, vec_at}
use l2tvpp.Flow.{Ip4, ethernet_type_vlan, ethernet_type_ip4, read_bytes}

-- `fib_prefix_t`: whether it is IPv4, the length, and the address, `word` as `ip4.as_u32`.
pub record Prefix : Type 0 where
  pub is_ip4 : Bool
  pub len : ℕ
  pub word : ℕ

-- The calls into the FIB, in order. A lock is taken by `adj_nbr_add_or_lock` for a prefix and an
-- interface, and released by `adj_unlock`.
pub data FibCall : Type 0 where
  path_add path_remove : (prefix : Prefix) (sw_if_index : ℕ) → FibCall
  adj_lock adj_unlock : (adj_index : ℕ) → FibCall

module _ (H : Bihash) where
  open H use {Table, search, add, remove}

  -- `encap_adj_by_ip4`, its count, and whether it is initialised; `empty` is the table that
  -- `clib_bihash_init_8_8` makes.
  pub record EncapCache : Type 0 where
    pub encap_adj_init : Bool
    pub encap_adj_by_ip4 : Table
    pub encap_adj_count : ℕ

  module _ (empty : Table) (adj_nbr_add_or_lock : Prefix → ℕ → ℕ) where
    unfoldable pub init_cache : EncapCache → EncapCache
    init_cache c =
        if c.encap_adj_init then c else record c { encap_adj_init = true; encap_adj_by_ip4 = empty }

    -- The removal, on what the search answers.
    unfoldable pub forget : EncapCache → ℕ → Option ℕ → EncapCache × List FibCall
    forget c key none = (c, [])
    forget c key (some ai) = (
      record c {
        encap_adj_by_ip4 = remove c.encap_adj_by_ip4 key;
        encap_adj_count = if c.encap_adj_count == 0 then 0 else c.encap_adj_count - 1;
      },
      adj_unlock ai ∷ [],
    )

    -- `l2tvpp_encap_adj_add_del`.
    unfoldable pub encap_adj_add_del : EncapCache → Prefix → ℕ → Bool → EncapCache × List FibCall
    encap_adj_add_del c0 pfx sw_if_index is_add =
        if not pfx.is_ip4 || not (pfx.len == 32)
        then (c0, [])
        else (let c = init_cache c0 in
            if is_add
            then (let ai = adj_nbr_add_or_lock pfx sw_if_index in
                (
                  record c {
                    encap_adj_by_ip4 = add c.encap_adj_by_ip4 pfx.word ai;
                    encap_adj_count = (c.encap_adj_count + 1) % 2 ^ 32;
                  },
                  adj_lock ai ∷ [],
                ))
            else forget c pfx.word (search c.encap_adj_by_ip4 pfx.word))

    -- `l2tvpp_route_add_del`, past its check of the interface.
    unfoldable pub route_on :
        EncapCache → Prefix → ℕ → Bool → Option ℕ → Result (EncapCache × List FibCall)
    route_on c pfx sw_if_index is_add none = err invalid_sw_if_index
    route_on c pfx sw_if_index is_add (some _) =
        let cached = encap_adj_add_del c pfx sw_if_index is_add in
        ok (
          cached.0,
          (if is_add then path_add pfx sw_if_index else path_remove pfx sw_if_index) ∷ cached.1,
        )

    -- The interfaces are `session_index_by_sw_if_index`.
    unfoldable pub route_add_del :
        List (Option ℕ) → EncapCache → Prefix → ℕ → Bool → Result (EncapCache × List FibCall)
    route_add_del interfaces c pfx sw_if_index is_add =
        route_on c pfx sw_if_index is_add (vec_at interfaces sw_if_index)

-- Where a frame goes: as received, or with `l2_len` bytes stripped and an adjacency.
pub data EncapNext : Type 0 where
  to_ethernet_input : EncapNext
  to_ip4_midchain : (l2_len adj_index : ℕ) → EncapNext

module _ (ip : Ip4) (m : List ℕ) where
  -- `l2tvpp_encap_peek_dst`: the destination and the bytes to strip.
  unfoldable pub peek_dst : Option (Option (ℕ × ℕ))
  peek_dst = if ltb (length m) 14 then some none else do
    type ← read_u16 m 12
    if type == ethernet_type_vlan
        then some none
        else if not (type == ethernet_type_ip4)
        then some none
        else if ltb (length m) (14 + 20)
        then some none
        else do
          b ← get_elem? m 14
          if not (b == 0x45) then some none else do
            frag ← read_u16 m 20
            if not (ip.fragment_offset frag == 0) || ip.fragment_more frag
                then some none
                else do dst ← read_bytes m 30 4; some (some (ip.as_u32 dst, 14))

  module _ (H : Bihash) (c : EncapCache H) where
    unfoldable pub hit : ℕ → Option ℕ → EncapNext
    hit l2_len none = to_ethernet_input
    hit l2_len (some ai) = to_ip4_midchain l2_len (ai % 2 ^ 32)

    unfoldable pub look_up : Option (ℕ × ℕ) → EncapNext
    look_up none = to_ethernet_input
    look_up (some (dst, l2_len)) = hit l2_len (H.search c.encap_adj_by_ip4 dst)

    -- One round of the loop of `l2tvpp_encap_fastpath_node`.
    unfoldable pub encap_packet : Option EncapNext
    encap_packet =
        if not c.encap_adj_init
        then some to_ethernet_input
        else do peeked ← peek_dst; some (look_up peeked)
