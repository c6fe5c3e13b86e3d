-- ===== src/Sync/OverRegistry/Instance.antt =====
-- The registry is a plugin as syncd/l2tvppd.py relies on it.
use l2tvpp.Common.{ℕ, ◌≡◌, refl, true, none, List}
use l2tvpp.Vpp.{Vpp}
use l2tvpp.Registry.{Main, HwInterface, Result, ok, err, vec_at}
use l2tvpp.Encap.{Prefix, EncapCache, FibCall}
use l2tvpp.Sync.{Host, session_keys}
use l2tvpp.Sync.Laws.{Laws}
use l2tvpp.Sync.OverRegistry.{State, IsOk, carries, tid_at, after_route, or_no_address, registry}
use l2tvpp.Sync.OverRegistry.Dump.{dump-Names, dump-all}
use l2tvpp.Sync.OverRegistry.TunnelCalls.{added_tunnel-Kept, deleted_tunnel-Kept}
use l2tvpp.Sync.OverRegistry.SessionCalls.{session_add-Carries, session_del-Carries}

-- vnet's new interface has no session yet.
module _ (V : Vpp) (H : Host V.Address Prefix) (empty : V.bihash.Table)
    (adj_nbr_add_or_lock : Prefix → ℕ → ℕ) (no_address : V.Address)
    (new_interface : Main V → HwInterface)
    (is_new : (m : Main V)
      → vec_at m.session_index_by_sw_if_index (new_interface m).sw_if_index ≡ none) where
  pub routed :
      (st : State V) (r : Result (EncapCache V.bihash × List FibCall))
      → IsOk V st
      → let st' = after_route V st r in
        IsOk V st'
        × ((j : ℕ) → tid_at V st' j ≡ tid_at V st j)
        × ((k : session_keys.Key) → carries V st' k ≡ carries V st k)
  routed (m, c) (err e) good = (good, (λ j. refl), λ k. refl)
  routed (m, c) (ok (c', calls)) good = (good, (λ j. refl), λ k. refl)

  abbrev pub registry_laws :
      Laws H (registry V H empty adj_nbr_add_or_lock no_address new_interface)
  registry_laws = record {
    IsOk = IsOk V;
    IsUsable = λ ip. V.is_ip4 ip ≡ true;
    carries = carries V;
    tid_at = tid_at V;
    dump_names = λ st ip port tid i good e. dump-Names V H (st.0) (ip, (port, tid)) i e;
    dump_all = λ st i tid good e. dump-all V H (st.0) i tid e;
    tunnel_add_ok = λ st local_ip peer_ip local_port peer_port tid peer_tid good near far tid16 new.
        added_tunnel-Kept V (st.0) (st.1) (good.0) (good.1) local_ip peer_ip local_port peer_port
          tid peer_tid near far tid16 new;
    tunnel_del_ok = λ st local_ip local_port key good.
        deleted_tunnel-Kept V (st.0) (st.1) (good.0) (good.1)
          (or_no_address V H empty adj_nbr_add_or_lock no_address new_interface local_ip) (key.0)
          local_port (key.1.0) (key.1.1);
    session_add_ok = λ st i tid sid peer_sid good here sid16.
        session_add-Carries V (st.0) (st.1) (good.0) (good.1) i tid sid peer_sid
          (new_interface (st.0)) here sid16 (is_new (st.0));
    session_del_ok = λ st i tid sid peer_sid good here sid16.
        session_del-Carries V (st.0) (st.1) (good.0) (good.1) i tid sid peer_sid
          (new_interface (st.0)) here sid16 (is_new (st.0));
    route_ok = λ st is_add prefix sw good. routed st _ good;
  }
