-- ===== src/Rewrite.antt =====
-- plugin/l2tvpp/l2tvpp.c: the rewrite that encapsulates a session's packets, the fixup of each packet
-- and the update of an adjacency.
pub mod Fixup
pub mod Peer
pub mod Update
use l2tvpp.Common.{
  ℕ, ◌+◌, ◌-◌, ◌*◌, ◌/◌, ◌%◌, ◌^◌, ◌≤◌, ◌<◌, ◌≡◌, Bool, Option, some, none, List, [], ◌∷◌, ◌++◌,
  length, set, get_elem?, true, ◌>>=◌,
}
use l2tvpp.Objects.{Tunnel, Session}
use l2tvpp.Vpp.{Vpp, Pool}
use l2tvpp.Header.{ppp_proto_ip4, ppp_proto_ip6}
use l2tvpp.Header.Frame.{word16}
use l2tvpp.Registry.{Main, vec_at}

-- `vnet_link_t`, as far as the code tells its values apart.
pub data Link : Type 0 where
  link_ip4 link_ip6 link_other : Link

-- The 16-bit words of a header, added up.
abbrev pub sum16 : List ℕ → ℕ
sum16 [] = 0
sum16 (a ∷ []) = a * 256
sum16 (a ∷ b ∷ rest) = a * 256 + b + sum16 rest

-- VPP's checksums: `ip4_header_checksum`, which passes over the checksum field, and
-- `ip_csum_fold (ip_csum_update (sum, old, new, ip4_header_t, length))`, on values in network order.
-- The checksum of a header in which the field is zero makes the sum of the header's words a multiple
-- of 65535, and the update of a field keeps such a sum.
pub record Checksum : Type 0 where
  pub header_checksum : List ℕ → ℕ
  pub fold_update : ℕ → ℕ → ℕ → ℕ
  pub header_checksum_word : (h : List ℕ) → header_checksum h < 65536
  pub header_checksum_sum :
      (h : List ℕ)
      → length h ≡ 20
      → get_elem? h 10 ≡ some 0
      → get_elem? h 11 ≡ some 0
      → (sum16 h + header_checksum h) % 65535 ≡ 0
  pub fold_update_word : (c old new : ℕ) → fold_update c old new < 65536
  pub fold_update_sum :
      (c old new : ℕ)
      → c < 65536
      → old < 65536
      → new < 65536
      → (fold_update c old new + new) % 65535 ≡ (c + old) % 65535

-- The outer IPv4 header with a length and a checksum.
abbrev pub ip_header : ℕ → ℕ → List ℕ → List ℕ → List ℕ
ip_header len checksum src dst =
    (0x45 ∷ 0 ∷ [])
    ++ (word16 len ++ ((0 ∷ 0 ∷ 0 ∷ 0 ∷ 64 ∷ 17 ∷ []) ++ (word16 checksum ++ (src ++ dst))))

-- UDP with a length, L2TP and PPP.
abbrev pub inner_headers : ℕ → ℕ → ℕ → ℕ → ℕ → ℕ → List ℕ
inner_headers local_port peer_port udp_length peer_tid peer_sid proto =
    word16 local_port
    ++ (word16 peer_port
        ++ (word16 udp_length
            ++ ((0 ∷ 0 ∷ [])
                ++ (word16 2
                    ++ (word16 peer_tid
                        ++ (word16 peer_sid ++ ((0xff ∷ 0x03 ∷ []) ++ word16 proto)))))))

-- The PPP protocol of a link type.
abbrev pub link_proto : Link → Option ℕ
link_proto link_ip4 = some ppp_proto_ip4
link_proto link_ip6 = some ppp_proto_ip6
link_proto link_other = none

-- A store of a 16-bit field in network order.
abbrev pub write_u16 : List ℕ → ℕ → ℕ → List ℕ
write_u16 m i v = set (set m i (v / 256 % 256)) (i + 1) (v % 256)

-- A buffer on its way out: VNET_BUFFER_F_LOCALLY_ORIGINATED of its flags, and its bytes.
pub record Outgoing : Type 0 where
  pub locally_originated : Bool
  pub bytes : List ℕ

module _ (V : Vpp) (C : Checksum) (ip4_bytes : V.Address → List ℕ) where
  -- The header that the rewrite starts with, and its checksum.
  abbrev pub template : Tunnel V.Address → List ℕ
  template t = ip_header 0 0 (ip4_bytes t.local_ip) (ip4_bytes t.peer_ip)

  abbrev pub template_checksum : Tunnel V.Address → ℕ
  template_checksum t = C.header_checksum (template t)

  -- `l2tvpp_build_rewrite_i`: the rewrite, and the session with the cached checksum.
  unfoldable pub build_rewrite_i : Tunnel V.Address → Session → Link → Option (List ℕ × Session)
  build_rewrite_i t sess link = do
    proto ← link_proto link
    some (
      template t ++ inner_headers t.local_port t.peer_port 0 t.peer_tid sess.peer_sid proto,
      record sess { encap_ip_csum0 = template_checksum t },
    )

  -- `l2tvpp_fixup` on a buffer whose chain has `len0` bytes, with what the fixup data points to.
  unfoldable pub fixup : Session → ℕ → Outgoing → Outgoing
  fixup sess len0 b =
      let len = len0 % 2 ^ 16 in
      record b {
        locally_originated = true;
        bytes =
            write_u16
              (write_u16 (write_u16 b.bytes 2 len) 10 (C.fold_update sess.encap_ip_csum0 0 len)) 24
              ((len + 2 ^ 16 - 20) % 2 ^ 16);
      }

  -- `adj_nbr_midchain_update_rewrite` and `adj_midchain_delegate_stack`, in order. The data of the
  -- fixup is the address of the session in its pool at that time.
  pub data AdjCall : Type 0 where
    update_rewrite : (adj_index fixup_data : ℕ) (rewrite : List ℕ) → AdjCall
    delegate_stack : (adj_index fib_index : ℕ) (peer_ip : V.Address) → AdjCall

  -- The end of `l2tvpp_update_adj`, on the rewrite that was built.
  unfoldable pub install :
      Main V → ℕ → ℕ → Tunnel V.Address → Option (List ℕ × Session) → Main V × List AdjCall
  install m ai si t none = (m, [])
  install m ai si t (some (rewrite, sess)) = (
    record m { sessions = V.session_pool.write m.sessions si sess },
    update_rewrite ai (V.session_pool.address m.sessions si) rewrite
        ∷ delegate_stack ai t.encap_fib_index t.peer_ip
        ∷ [],
  )

  -- On the session at an index of the pool; a free tunnel index is a fault.
  unfoldable pub update_session :
      Main V → ℕ → Link → ℕ → Option Session → Option (Main V × List AdjCall)
  update_session m ai link si none = some (m, [])
  update_session m ai link si (some sess) = do
    t ← V.tunnel_pool.elt m.tunnels sess.tunnel_index
    some (install m ai si t (build_rewrite_i t sess link))

  unfoldable pub update_interface : Main V → ℕ → Link → Option ℕ → Option (Main V × List AdjCall)
  update_interface m ai link none = some (m, [])
  update_interface m ai link (some si) =
      update_session m ai link si (V.session_pool.elt m.sessions si)

  -- `l2tvpp_update_adj` of an adjacency with a link type on an interface.
  unfoldable pub update_adj : Main V → ℕ → ℕ → Link → Option (Main V × List AdjCall)
  update_adj m sw_if_index ai link =
      update_interface m ai link (vec_at m.session_index_by_sw_if_index sw_if_index)
