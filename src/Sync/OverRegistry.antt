-- ===== src/Sync/OverRegistry.antt =====
-- The plugin that syncd/l2tvppd.py calls: the functions of plugin/l2tvpp/l2tvpp.c behind the messages of
-- plugin/l2tvpp/l2tvpp_api.c.
pub mod Dump
pub mod TunnelCalls
pub mod SessionCalls
pub mod Instance
pub mod Pass
pub mod Packets
use l2tvpp.Common.{ℕ, Bool, true, false, ◌&&◌, Option, some, none, List, [], ◌∷◌, ltb}
use l2tvpp.Objects.{Tunnel, Session}
use l2tvpp.Header.{session_key}
use l2tvpp.Vpp.{Vpp}
use l2tvpp.Registry.{Main, HwInterface, Result, ok, err, VnetCall, tunnel_add_del, session_add_del}
use l2tvpp.Encap.{Prefix, EncapCache, FibCall, route_add_del}
use l2tvpp.Registry.Ghost.{Sessions}
use l2tvpp.System.Good.{IsGood}
use l2tvpp.Sync.Dictionary.{is_some}
use l2tvpp.Sync.{Host, Plugin, session_keys, tunnel_keys}

module _ (V : Vpp) where
  open V.tunnel_pool use {elt as tunnel_at}
  open V.session_pool use {elt as session_at}

  abbrev pub State : Type 0
  State = Main V × EncapCache V.bihash

  -- The index of a reply that has none.
  abbrev pub no_index : ℕ
  no_index = 0xffffffff

  abbrev pub list_session : Option Session → List ℕ → List ℕ
  list_session none rest = rest
  list_session (some s) rest = s.tunnel_index ∷ rest

  -- The tunnels of the sessions that the dump of all sessions has.
  unfoldable pub list_sessions : Main V → List ℕ → List ℕ
  list_sessions m [] = []
  list_sessions m (i ∷ is) = list_session (session_at m.sessions i) (list_sessions m is)

  abbrev pub added_tunnel : State → Result (Main V × Option ℕ) → State × ℕ
  added_tunnel (m, c) (err e) = ((m, c), no_index)
  added_tunnel (m, c) (ok (m', none)) = ((m', c), no_index)
  added_tunnel (m, c) (ok (m', some i)) = ((m', c), i)

  abbrev pub deleted_tunnel : State → Result (Main V × Option ℕ) → State
  deleted_tunnel st (err e) = st
  deleted_tunnel (m, c) (ok (m', index)) = (m', c)

  -- A fault of the plugin leaves the state here.
  abbrev pub after_session : State → Option (Result (Main V × List VnetCall)) → State
  after_session st none = st
  after_session st (some (err e)) = st
  after_session (m, c) (some (ok (m', calls))) = (m', c)

  abbrev pub index_of_session : ℕ → Option (Result (Main V × List VnetCall)) → ℕ
  index_of_session sw none = no_index
  index_of_session sw (some (err e)) = no_index
  index_of_session sw (some (ok done)) = sw

  abbrev pub after_route : State → Result (EncapCache V.bihash × List FibCall) → State
  after_route st (err e) = st
  after_route (m, c) (ok (c', calls)) = (m, c')

  -- The key table has the session of these ids, which have 16 bits.
  abbrev pub carries : State → session_keys.Key → Bool
  carries st k =
      ltb (k.0) 65536
      && (ltb (k.1) 65536
          && is_some (V.bihash.search (st.0).session_by_key (session_key (k.0) (k.1))))

  abbrev pub tid_of : Option (Tunnel V.Address) → Option ℕ
  tid_of none = none
  tid_of (some t) = some t.local_tid

  abbrev pub tid_at : State → ℕ → Option ℕ
  tid_at st i = tid_of (tunnel_at (st.0).tunnels i)

  -- The registry stands for a list of sessions.
  abbrev pub IsOk : State → Type 0
  IsOk st = (es : Sessions) × IsGood V (st.0) es

  module _ (H : Host V.Address Prefix) where
    abbrev pub key_of_tunnel : Tunnel V.Address → (tunnel_keys H).Key
    key_of_tunnel t = (t.peer_ip, (t.peer_port, t.local_tid))

    abbrev pub list_tunnel :
        ℕ
        → Option (Tunnel V.Address)
        → List ((tunnel_keys H).Key × ℕ)
        → List ((tunnel_keys H).Key × ℕ)
    list_tunnel i none rest = rest
    list_tunnel i (some t) rest = (key_of_tunnel t, i) ∷ rest

    -- What the dump of all tunnels has.
    unfoldable pub list_tunnels : Main V → List ℕ → List ((tunnel_keys H).Key × ℕ)
    list_tunnels m [] = []
    list_tunnels m (i ∷ is) = list_tunnel i (tunnel_at m.tunnels i) (list_tunnels m is)

-- `empty` and `adj_nbr_add_or_lock` are as in Encap, `no_address` is what a message has for no local
-- address, and `new_interface` is vnet's answer to the registration of an interface in a state.
module _ (V : Vpp) (H : Host V.Address Prefix) (empty : V.bihash.Table)
    (adj_nbr_add_or_lock : Prefix → ℕ → ℕ) (no_address : V.Address)
    (new_interface : Main V → HwInterface) where
  open V.tunnel_pool use {indices}
  open V.session_pool use {indices as session_indices}

  abbrev pub or_no_address : Option V.Address → V.Address
  or_no_address none = no_address
  or_no_address (some ip) = ip

  abbrev pub registry : Plugin H
  registry = record {
    State = State V;
    tunnel_dump = λ st. list_tunnels V H (st.0) (indices (st.0).tunnels);
    session_tunnels = λ st. list_sessions V (st.0) (session_indices (st.0).sessions);
    tunnel_add = λ st local_ip peer_ip local_port peer_port local_tid peer_tid.
        added_tunnel V st
          (tunnel_add_del V (st.0) local_ip peer_ip local_port peer_port local_tid peer_tid true);
    tunnel_del = λ st local_ip local_port key. deleted_tunnel V st (
        tunnel_add_del V (st.0) (or_no_address local_ip) (key.0) local_port (key.1.0) (key.1.1) 0
          false);
    session_add = λ st tunnel_index local_sid peer_sid.
        let hi = new_interface (st.0) in
        let answer = session_add_del V (st.0) tunnel_index local_sid peer_sid 0 0 true hi in
        (after_session V st answer, index_of_session V hi.sw_if_index answer);
    session_del = λ st tunnel_index local_sid peer_sid.
        after_session V st (
          session_add_del V (st.0) tunnel_index local_sid peer_sid 0 0 false
            (new_interface (st.0)));
    route_add_del = λ st is_add prefix sw. after_route V st (
        route_add_del V.bihash empty adj_nbr_add_or_lock (st.0).session_index_by_sw_if_index (st.1)
          prefix sw is_add);
  }
