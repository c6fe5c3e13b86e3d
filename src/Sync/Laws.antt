-- ===== src/Sync/Laws.antt =====
-- What the daemon relies on in the plugin: the sessions that the plugin carries, and its tunnels.
use l2tvpp.Common.{
  ℕ, ◌<◌, ◌≡◌, ◌≢◌, Bool, true, not, ◌&&◌, ◌||◌, Option, some, none, [], ◌==◌, if◌then◌else◌,
}
use l2tvpp.Sync.Dictionary.{lookup}
use l2tvpp.Sync.{Host, Plugin, session_keys, tunnel_keys, vpp_tunnels}

-- `carries` says whether the plugin carries a session with the local ids of its tunnel and its own, and
-- `tid_at` which local id the tunnel at an index has. `IsOk` holds in every state that the calls reach:
-- an addition for ids and addresses that the plugin takes adds, and a tunnel that carries a session
-- stays. The dump lists the tunnels under their ids.
pub record Laws {Ip Prefix : Type 0} (H : Host Ip Prefix) (P : Plugin H) : Type 1 where
  pub IsOk : P.State → Type 0
  pub IsUsable : Ip → Type 0
  pub carries : P.State → session_keys.Key → Bool
  pub tid_at : P.State → ℕ → Option ℕ
  pub dump_names :
      (st : P.State) (ip : Ip) (port tid i : ℕ)
      → IsOk st
      → lookup (tunnel_keys H) (ip, (port, tid)) (vpp_tunnels H (P.tunnel_dump st) []) ≡ some i
      → tid_at st i ≡ some tid
  pub dump_all :
      (st : P.State) (i tid : ℕ)
      → IsOk st
      → tid_at st i ≡ some tid
      → (ip : Ip) × (port : ℕ) × (j : ℕ) × (lookup
            (tunnel_keys H)
            (ip, (port, tid))
            (vpp_tunnels H (P.tunnel_dump st) [])
          ≡ some j)
  pub tunnel_add_ok :
      (st : P.State) (local_ip peer_ip : Ip) (local_port peer_port tid peer_tid : ℕ)
      → IsOk st
      → IsUsable local_ip
      → IsUsable peer_ip
      → tid < 65536
      → ((i : ℕ) → tid_at st i ≢ some tid)
      → let made = P.tunnel_add st local_ip peer_ip local_port peer_port tid peer_tid in
        IsOk (made.0)
        × ((i : ℕ) → tid_at (made.0) i ≡ (if made.1 == i then some tid else tid_at st i))
        × (tid_at st (made.1) ≡ none)
        × ((k : session_keys.Key) → carries (made.0) k ≡ carries st k)
  pub tunnel_del_ok :
      (st : P.State) (local_ip : Option Ip) (local_port : ℕ) (key : (tunnel_keys H).Key)
      → IsOk st
      → let st' = P.tunnel_del st local_ip local_port key in
        IsOk st'
        × ((i : ℕ) (k : session_keys.Key)
            → tid_at st i ≡ some (k.0)
            → carries st k ≡ true
            → tid_at st' i ≡ some (k.0))
        × ((k : session_keys.Key) → carries st' k ≡ carries st k)
  pub session_add_ok :
      (st : P.State) (i tid sid peer_sid : ℕ)
      → IsOk st
      → tid_at st i ≡ some tid
      → sid < 65536
      → let made = P.session_add st i sid peer_sid in
        IsOk (made.0)
        × ((j : ℕ) → tid_at (made.0) j ≡ tid_at st j)
        × ((k : session_keys.Key)
            → carries (made.0) k ≡ session_keys.is_key (tid, sid) k || carries st k)
  pub session_del_ok :
      (st : P.State) (i tid sid peer_sid : ℕ)
      → IsOk st
      → tid_at st i ≡ some tid
      → sid < 65536
      → let st' = P.session_del st i sid peer_sid in
        IsOk st'
        × ((j : ℕ) → tid_at st' j ≡ tid_at st j)
        × ((k : session_keys.Key)
            → carries st' k ≡ not (session_keys.is_key (tid, sid) k) && carries st k)
  pub route_ok :
      (st : P.State) (is_add : Bool) (prefix : Prefix) (sw : ℕ)
      → IsOk st
      → let st' = P.route_add_del st is_add prefix sw in
        IsOk st'
        × ((j : ℕ) → tid_at st' j ≡ tid_at st j)
        × ((k : session_keys.Key) → carries st' k ≡ carries st k)
