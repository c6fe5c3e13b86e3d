-- ===== src/Sync/Again.antt =====
-- A pass of syncd/l2tvppd.py makes the record that of the kernel's sessions, and a second one changes
-- nothing.
use l2tvpp.Common.{ℕ, ◌≡◌, refl, Bool, true, Option, List, [], ◌∷◌, arith}
use l2tvpp.Sync.Dictionary.{Dict, has, keys, Once, AllOf, AllOf-lookup, is_in-keys}
use l2tvpp.Sync.{
  Host, session_keys, KernelSession, Plugin, Installed, minus, is_same_set, routes_of, ended,
  route_all, sync_routes, mirror, mirror_all, wanted, prune_tunnels, reconcile,
}
use l2tvpp.Sync.Mirror.{Passes, Ends, Ends-weaken, IsSynced, set_order_empty, empty_list}
use l2tvpp.Sync.Reconcile.{
  HaveEndpoints, is_listed, wanted-has, remove_all_none, Leaves, begin_at, reconcile-Leaves,
}

module _ {Ip Prefix : Type 0} (H : Host Ip Prefix) (P : Plugin H) (fallback_ip : Option Ip)
    (fallback_port : ℕ) where
  sync_routes_none :
      (s : KernelSession H) (rec : Installed H) (p : Passes H P fallback_ip fallback_port)
      → is_same_set H rec.installed_routes (routes_of H s) ≡ true
      → sync_routes H P fallback_ip fallback_port s rec p ≡ p
  unfolding sync_routes route_all
  sync_routes_none s rec p same =
      let gained : minus H (routes_of H s) rec.installed_routes ≡ [] =
        empty_list H _ (ground (arith, same)) in
      let lost : minus H rec.installed_routes (routes_of H s) ≡ [] =
        empty_list H _ (ground (arith, same)) in
      rw (same, gained, lost, set_order_empty H) refl

  mirror_all_none :
      (want : Dict session_keys (KernelSession H)) (p : Passes H P fallback_ip fallback_port)
      → AllOf session_keys (IsSynced H P fallback_ip fallback_port p.installed) want
      → mirror_all H P fallback_ip fallback_port true want p ≡ ended tt p
  unfolding mirror_all mirror
  mirror_all_none [] p all = refl
  mirror_all_none ((key, s) ∷ want) p ((rec, found, same), all) =
      rw (mirror_all, found, sync_routes_none s rec p same) (mirror_all_none want p all)

  -- The pass ends without an error if each session with a netdev has a local address for its tunnel,
  -- and its record then has exactly the ids of the kernel's sessions that have a netdev, each once,
  -- whatever the record had and whatever the plugin answers.
  pub reconcile-is_listed :
      (sessions : List (KernelSession H)) (sync : Bool) (st : P.State)
      (installed : Dict session_keys (Installed H))
      → HaveEndpoints H P fallback_ip fallback_port sessions
      → Once session_keys installed
      → Ends H P fallback_ip fallback_port
          (reconcile H P fallback_ip fallback_port sessions sync st installed)
          λ u p.
            Once session_keys p.installed
            × ((k : session_keys.Key)
                → has session_keys k p.installed
                  ≡ is_listed H P fallback_ip fallback_port k sessions)
  reconcile-is_listed sessions sync st installed endpoints once =
      Ends-weaken H P fallback_ip fallback_port
        (reconcile H P fallback_ip fallback_port sessions sync st installed)
        (reconcile-Leaves H P fallback_ip fallback_port sessions endpoints st installed once sync)
        λ u p (o, at, _). (o, at)

  module _ (sessions : List (KernelSession H))
      (endpoints : HaveEndpoints H P fallback_ip fallback_port sessions) where
    second_pass :
        (st : P.State) (d : Dict session_keys (Installed H))
        → Leaves H P fallback_ip fallback_port sessions endpoints true d
        → Ends H P fallback_ip fallback_port
            (reconcile H P fallback_ip fallback_port sessions true st d)
            λ u p. (p.plugin ≡ st) × (p.installed ≡ d) × (p.added ≡ 0) × (p.removed ≡ 0)
    unfolding reconcile prune_tunnels
    second_pass st d (once, at, synced) =
        let (_, once_wanted, is_wanted) =
          wanted-has H P fallback_ip fallback_port sessions [] endpoints tt tt in
        let want = wanted H P fallback_ip fallback_port sessions [] in
        let all : AllOf session_keys (IsSynced H P fallback_ip fallback_port d) want =
          AllOf-lookup session_keys (IsSynced H P fallback_ip fallback_port d) want once_wanted
            λ k s e. let (rec, found, same) = synced k s e in (rec, found, same refl) in
        rw
          (
            mirror_all_none want
                (begin_at H P fallback_ip fallback_port sessions endpoints st d once) all,
            remove_all_none H P fallback_ip fallback_port want (keys session_keys d)
                (begin_at H P fallback_ip fallback_port sessions endpoints st d once)
                λ k e. ground (arith, at k, is_wanted k, is_in-keys session_keys d k, e),
          )
          (refl, refl, refl, refl)

    -- A second pass on the same sessions, right after one that synchronised the routes, calls nothing that
    -- changes the plugin, leaves the record as it is, and counts no session added or removed.
    pub reconcile-reconcile :
        (st : P.State) (installed : Dict session_keys (Installed H))
        → Once session_keys installed
        → Ends H P fallback_ip fallback_port
            (reconcile H P fallback_ip fallback_port sessions true st installed)
            λ u p.
              Ends H P fallback_ip fallback_port
                (reconcile H P fallback_ip fallback_port sessions true p.plugin p.installed)
                λ v p'.
                  (p'.plugin ≡ p.plugin)
                  × (p'.installed ≡ p.installed)
                  × (p'.added ≡ 0)
                  × (p'.removed ≡ 0)
    reconcile-reconcile st installed once =
        Ends-weaken H P fallback_ip fallback_port _
          (reconcile-Leaves H P fallback_ip fallback_port sessions endpoints st installed once true)
          λ u p left. second_pass p.plugin p.installed left
