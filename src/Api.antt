-- ===== src/Api.antt =====
-- plugin/l2tvpp/l2tvpp_api.c: the handlers of the binary API's messages.
pub mod Dump
use l2tvpp.Common.{
  ℕ, ◌+◌, ◌-◌, ◌^◌, ◌<◌, ◌≡◌, Bool, true, false, not, ◌||◌, Option, some, none, List, [], ◌∷◌, ◌==◌,
  if◌then◌else◌, ◌>>=◌,
}
use l2tvpp.Objects.{Tunnel, Session}
use l2tvpp.Vpp.{Vpp, Pool, Bihash}
use l2tvpp.Registry.{
  Main, Result, ok, err, ApiError, HwInterface, VnetCall, tunnel_add_del, session_add_del,
}
use l2tvpp.Encap.{Prefix, EncapCache, FibCall, route_add_del}
use l2tvpp.Settings.{Handoff, set_handoff}

-- VPP's byte-order conversions: words, and back to the same word.
pub record Endian : Type 0 where
  pub net_to_host_u16 : ℕ → ℕ
  pub host_to_net_u16 : ℕ → ℕ
  pub net_to_host_u32 : ℕ → ℕ
  pub host_to_net_u32 : ℕ → ℕ
  pub net_to_host_u16_word : (x : ℕ) → net_to_host_u16 x < 2 ^ 16
  pub net_to_host_u32_word : (x : ℕ) → net_to_host_u32 x < 2 ^ 32
  pub net_to_host_u16_inverse : (x : ℕ) → x < 2 ^ 16 → net_to_host_u16 (host_to_net_u16 x) ≡ x
  pub net_to_host_u32_inverse : (x : ℕ) → x < 2 ^ 32 → net_to_host_u32 (host_to_net_u32 x) ≡ x

-- VPP's addresses and prefixes in messages: `ip_address_decode` and `ip_address_encode`, which
-- `ip_address_decode` takes back, and `ip_prefix_decode`.
pub record Wire (Address : Type 0) : Type 1 where
  pub ApiAddress : Type 0
  pub ApiPrefix : Type 0
  pub ip_address_decode : ApiAddress → Address
  pub ip_address_encode : Address → ApiAddress
  pub ip_prefix_decode : ApiPrefix → Prefix
  pub ip_address_decode_inverse : (a : Address) → ip_address_decode (ip_address_encode a) ≡ a

-- ~0 of 32 bits.
abbrev pub all_ones : ℕ
all_ones = 2 ^ 32 - 1

-- The index that a call set, or the ~0 that the handler started with.
abbrev pub index_or_ones : Option ℕ → ℕ
index_or_ones none = all_ones
index_or_ones (some i) = i

-- A reply: the return value, `none` for 0, and an index in network order.
pub record Reply : Type 0 where
  pub retval : Option ApiError
  pub index : ℕ

module _ (V : Vpp) (W : Wire V.Address) (E : Endian) where
  open E use {net_to_host_u16, net_to_host_u32, host_to_net_u16, host_to_net_u32}
  open W use {ApiAddress, ApiPrefix, ip_address_decode, ip_address_encode, ip_prefix_decode}

  -- The messages, with numbers in network order.
  pub record TunnelAddDel : Type 0 where
    pub is_add : Bool
    pub local_ip : ApiAddress
    pub peer_ip : ApiAddress
    pub local_port : ℕ
    pub peer_port : ℕ
    pub local_tid : ℕ
    pub peer_tid : ℕ

  pub record SessionAddDel : Type 0 where
    pub is_add : Bool
    pub tunnel_index : ℕ
    pub local_sid : ℕ
    pub peer_sid : ℕ
    pub acfc : ℕ
    pub pfc : ℕ

  pub record RouteAddDel : Type 0 where
    pub is_add : Bool
    pub prefix : ApiPrefix
    pub sw_if_index : ℕ

  -- The state and the reply, from what a call answers.
  unfoldable pub tunnel_reply : Main V → Result (Main V × Option ℕ) → Main V × Reply
  tunnel_reply m (err e) = (m, record { retval = some e; index = host_to_net_u32 all_ones })
  tunnel_reply m (ok (m', i)) =
      (m', record { retval = none; index = host_to_net_u32 (index_or_ones i) })

  -- `vl_api_l2tvpp_tunnel_add_del_t_handler`.
  unfoldable pub tunnel_handler : Main V → TunnelAddDel → Main V × Reply
  tunnel_handler m mp = tunnel_reply m (
      tunnel_add_del V m (ip_address_decode mp.local_ip) (ip_address_decode mp.peer_ip)
        (net_to_host_u16 mp.local_port) (net_to_host_u16 mp.peer_port)
        (net_to_host_u16 mp.local_tid) (net_to_host_u16 mp.peer_tid) mp.is_add)

  -- The interface index is set by an addition.
  unfoldable pub session_reply :
      Main V → Bool → HwInterface → Result (Main V × List VnetCall) → Main V × Reply
  session_reply m is_add hi (err e) =
      (m, record { retval = some e; index = host_to_net_u32 all_ones })
  session_reply m is_add hi (ok (m', calls)) = (
    m',
    record { retval = none; index = host_to_net_u32 (if is_add then hi.sw_if_index else all_ones) },
  )

  -- `vl_api_l2tvpp_session_add_del_t_handler`; `hi` is vnet's answer to the registration.
  unfoldable pub session_handler : Main V → SessionAddDel → HwInterface → Option (Main V × Reply)
  session_handler m mp hi = do
    result ←
        session_add_del V m (net_to_host_u32 mp.tunnel_index) (net_to_host_u16 mp.local_sid)
          (net_to_host_u16 mp.peer_sid) mp.acfc mp.pfc mp.is_add hi
    some (session_reply m mp.is_add hi result)

  module _ (empty : V.bihash.Table) (adj_nbr_add_or_lock : Prefix → ℕ → ℕ) where
    unfoldable pub route_reply :
        EncapCache V.bihash
        → Result (EncapCache V.bihash × List FibCall)
        → EncapCache V.bihash × Option ApiError
    route_reply c (err e) = (c, some e)
    route_reply c (ok (c', calls)) = (c', none)

    -- `vl_api_l2tvpp_route_add_del_t_handler`.
    unfoldable pub route_handler :
        Main V → EncapCache V.bihash → RouteAddDel → EncapCache V.bihash × Option ApiError
    route_handler m c mp = route_reply c (
        route_add_del V.bihash empty adj_nbr_add_or_lock m.session_index_by_sw_if_index c
          (ip_prefix_decode mp.prefix) (net_to_host_u32 mp.sw_if_index) mp.is_add)

  -- `vl_api_l2tvpp_set_handoff_t_handler`: the return value is always 0.
  unfoldable pub set_handoff_handler : Handoff → Bool → Handoff
  set_handoff_handler h enable = set_handoff h enable

  -- The messages of the dumps. The counters of an interface are vnet's.
  pub record TunnelDetails : Type 0 where
    pub tunnel_index : ℕ
    pub local_ip : ApiAddress
    pub peer_ip : ApiAddress
    pub local_port : ℕ
    pub peer_port : ℕ
    pub local_tid : ℕ
    pub peer_tid : ℕ
    pub n_sessions : ℕ

  unfoldable pub tunnel_details : ℕ → Tunnel V.Address → TunnelDetails
  tunnel_details i t = record {
    tunnel_index = host_to_net_u32 i;
    local_ip = ip_address_encode t.local_ip;
    peer_ip = ip_address_encode t.peer_ip;
    local_port = host_to_net_u16 t.local_port;
    peer_port = host_to_net_u16 t.peer_port;
    local_tid = host_to_net_u16 t.local_tid;
    peer_tid = host_to_net_u16 t.peer_tid;
    n_sessions = host_to_net_u32 t.n_sessions;
  }

  -- The element of a pool at an index, if it is in use.
  abbrev pub sent_tunnel : ℕ → Option (Tunnel V.Address) → List TunnelDetails → List TunnelDetails
  sent_tunnel i none rest = rest
  sent_tunnel i (some t) rest = tunnel_details i t ∷ rest

  unfoldable pub send_tunnels : Main V → List ℕ → List TunnelDetails
  send_tunnels m [] = []
  send_tunnels m (i ∷ is) = sent_tunnel i (V.tunnel_pool.elt m.tunnels i) (send_tunnels m is)

  -- `vl_api_l2tvpp_tunnel_dump_t_handler`: what it sends to a client that is registered.
  unfoldable pub tunnel_dump :
      Main V → (is_registered : Bool) (tunnel_index : ℕ) → List TunnelDetails
  tunnel_dump m is_registered tunnel_index =
      let ti = net_to_host_u32 tunnel_index in
      if not is_registered
      then []
      else if ti == all_ones
      then send_tunnels m (V.tunnel_pool.indices m.tunnels)
      else send_tunnels m (ti ∷ [])

  module _ {Counter : Type 0} (rx tx : ℕ → Counter) where
    pub record SessionDetails : Type 0 where
      pub sw_if_index : ℕ
      pub tunnel_index : ℕ
      pub local_sid : ℕ
      pub peer_sid : ℕ
      pub acfc : ℕ
      pub pfc : ℕ
      pub rx_counter : Counter
      pub tx_counter : Counter

    unfoldable pub session_details : Session → SessionDetails
    session_details s = record {
      sw_if_index = host_to_net_u32 s.sw_if_index;
      tunnel_index = host_to_net_u32 s.tunnel_index;
      local_sid = host_to_net_u16 s.local_sid;
      peer_sid = host_to_net_u16 s.peer_sid;
      acfc = s.acfc;
      pfc = s.pfc;
      rx_counter = rx s.sw_if_index;
      tx_counter = tx s.sw_if_index;
    }

    abbrev pub sent_session : ℕ → Option Session → List SessionDetails → List SessionDetails
    sent_session sw none rest = rest
    sent_session sw (some s) rest =
        if sw == all_ones || s.sw_if_index == sw then session_details s ∷ rest else rest

    unfoldable pub send_sessions : Main V → ℕ → List ℕ → List SessionDetails
    send_sessions m sw [] = []
    send_sessions m sw (i ∷ is) =
        sent_session sw (V.session_pool.elt m.sessions i) (send_sessions m sw is)

    -- `vl_api_l2tvpp_session_dump_t_handler`.
    unfoldable pub session_dump :
        Main V → (is_registered : Bool) (sw_if_index : ℕ) → List SessionDetails
    session_dump m is_registered sw_if_index =
        if not is_registered
        then []
        else send_sessions m (net_to_host_u32 sw_if_index) (V.session_pool.indices m.sessions)
