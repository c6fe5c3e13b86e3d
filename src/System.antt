-- ===== src/System.antt =====
-- The plugin under a sequence of control calls: the states that `l2tvpp_tunnel_add_del`,
-- `l2tvpp_session_add_del` and `l2tvpp_update_adj` of plugin/l2tvpp/l2tvpp.c reach, and the tables
-- that the nodes then read.
pub mod Good
pub mod SessionCalls
pub mod TunnelCalls
pub mod Invariant
pub mod Counts
pub mod Packets
use l2tvpp.Common.{ℕ, ◌<◌, ◌≡◌, ◌≢◌, Bool, true, false, Option, some, none, List, []}
use l2tvpp.Objects.{Tunnel, Session}
use l2tvpp.Vpp.{Vpp, Pool, Bihash}
use l2tvpp.Registry.{
  Main, Result, ok, HwInterface, VnetCall, vec_at, tunnel_add_del, session_add_del,
}
use l2tvpp.Input.{Tables}
use l2tvpp.Rewrite.{Link, Checksum, AdjCall, update_adj}

module _ (V : Vpp) where
  open V.tunnel_pool use {elt as tunnel_at}
  open V.session_pool use {elt as session_at}

  -- What `l2tvpp-input` reads.
  abbrev pub tables_of : Main V → Bool → Tables
  tables_of m no_checksum = record {
    session_by_key = V.bihash.search m.session_by_key;
    sessions = session_at m.sessions;
    inner_ip4_no_checksum = no_checksum;
  }

  -- Nothing is in the pools and tables, as after `l2tvpp_init`.
  pub record IsInitial (m : Main V) : Type 0 where
    pub no_tunnels : (i : ℕ) → tunnel_at m.tunnels i ≡ none
    pub no_sessions : (i : ℕ) → session_at m.sessions i ≡ none
    pub no_keys : (k : ℕ) → V.bihash.search m.session_by_key k ≡ none
    pub no_interfaces : (sw : ℕ) → vec_at m.session_index_by_sw_if_index sw ≡ none

  -- A tunnel id that no tunnel has.
  abbrev pub IsFreshTid : Main V → ℕ → Type 0
  IsFreshTid m tid =
      (i : ℕ) (t : Tunnel V.Address) → tunnel_at m.tunnels i ≡ some t → t.local_tid ≢ tid

module _ (V : Vpp) (C : Checksum) (ip4_bytes : V.Address → List ℕ) where
  -- A control call that succeeds; one that fails leaves the state as it is. Ids are 16-bit numbers,
  -- a new tunnel's local id is fresh, as RFC 2661 wants it, and vnet's new interface has no session.
  -- vnet calls for the update of an adjacency on any interface.
  pub data Step (m m' : Main V) : Type 0 where
    tunnel_call :
        (local_ip peer_ip : V.Address) (local_port peer_port local_tid peer_tid : ℕ) (is_add : Bool)
        (index : Option ℕ)
        → local_tid < 65536
        → (is_add ≡ true → IsFreshTid V m local_tid)
        → tunnel_add_del V m local_ip peer_ip local_port peer_port local_tid peer_tid is_add
          ≡ ok (m', index)
        → Step m m'
    session_call :
        (tunnel_index local_sid peer_sid acfc pfc : ℕ) (is_add : Bool) (hi : HwInterface)
        (calls : List VnetCall)
        → local_sid < 65536
        → vec_at m.session_index_by_sw_if_index hi.sw_if_index ≡ none
        → session_add_del V m tunnel_index local_sid peer_sid acfc pfc is_add hi
          ≡ some (ok (m', calls))
        → Step m m'
    adjacency_call :
        (sw_if_index adj_index : ℕ) (link : Link) (calls : List (AdjCall V C ip4_bytes))
        → update_adj V C ip4_bytes m sw_if_index adj_index link ≡ some (m', calls)
        → Step m m'

  pub data Reach (m0 : Main V) : Main V → Type 0 where
    start : Reach m0 m0
    next : {m m' : Main V} → Reach m0 m → Step m m' → Reach m0 m'
