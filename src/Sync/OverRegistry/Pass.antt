-- ===== src/Sync/OverRegistry/Pass.antt =====
-- A pass of syncd/l2tvppd.py over the registry.
use l2tvpp.Common.{ℕ, ◌≡◌, Bool, Option, none, List}
use l2tvpp.Vpp.{Vpp}
use l2tvpp.Registry.{Main, HwInterface, vec_at}
use l2tvpp.Encap.{Prefix}
use l2tvpp.Sync.Dictionary.{Dict, Once}
use l2tvpp.Sync.{Host, KernelSession, Installed, session_keys, reconcile}
use l2tvpp.Sync.Mirror.{Ends}
use l2tvpp.Sync.Reconcile.{is_listed}
use l2tvpp.Sync.Carried.{InSync}
use l2tvpp.Sync.Carried.Pass.{AllReady, OnePeer, reconcile-carries}
use l2tvpp.Sync.OverRegistry.{State, carries, registry}
use l2tvpp.Sync.OverRegistry.Instance.{registry_laws}

module _ (V : Vpp) (H : Host V.Address Prefix) (empty : V.bihash.Table)
    (adj_nbr_add_or_lock : Prefix → ℕ → ℕ) (no_address : V.Address)
    (new_interface : Main V → HwInterface)
    (is_new : (m : Main V)
      → vec_at m.session_index_by_sw_if_index (new_interface m).sw_if_index ≡ none)
    (fallback_ip : Option V.Address) (fallback_port : ℕ) where
  -- A pass of the daemon over the plugin ends, and the key table then has exactly the kernel's sessions
  -- with a netdev. Before it the table had the sessions of the daemon's record, and so it is again after
  -- it. Each session with a netdev has ids of 16 bits and two IPv4 addresses, and one peer goes with
  -- each local tunnel id, in the kernel and in the plugin.
  pub reconcile-registry :
      (peer : ℕ → V.Address × ℕ) (sessions : List (KernelSession H)) (sync : Bool) (st : State V)
      (installed : Dict session_keys (Installed H))
      → let P = registry V H empty adj_nbr_add_or_lock no_address new_interface in
        let L = registry_laws V H empty adj_nbr_add_or_lock no_address new_interface is_new in
        AllReady H P L fallback_ip fallback_port peer sessions
        → OnePeer H P L fallback_ip fallback_port peer st
        → Once session_keys installed
        → InSync H P L st installed
        → Ends H P fallback_ip fallback_port
            (reconcile H P fallback_ip fallback_port sessions sync st installed)
            λ u p.
              InSync H P L p.plugin p.installed
              × Once session_keys p.installed
              × ((k : session_keys.Key)
                  → carries V p.plugin k ≡ is_listed H P fallback_ip fallback_port k sessions)
  reconcile-registry peer sessions sync st installed ready one once held =
      reconcile-carries H (registry V H empty adj_nbr_add_or_lock no_address new_interface)
        (registry_laws V H empty adj_nbr_add_or_lock no_address new_interface is_new) fallback_ip
        fallback_port peer sessions ready st installed once sync one held
