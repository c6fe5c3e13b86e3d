-- ===== src/Sync/Endpoints.antt =====
-- `merge_tunnel_endpoints` of syncd/l2tvppd.py: the sessions of the kernel get the endpoints of their
-- tunnels.
use l2tvpp.Common.{
  ℕ, ◌<◌, ◌≡◌, ◌⊎◌, refl, sym, ap, ◌∙◌, inl, inr, false, ◌&&◌, ◌||◌, Option, some, none, List, [],
  ◌∷◌, ◌==◌, ==_iff,
}
use l2tvpp.Sync.Dictionary.{Keys, Dict, lookup, is_some}
use l2tvpp.Sync.{Host, session_keys, KernelSession, session_key, Plugin}
use l2tvpp.Sync.Reconcile.{is_listed}
use l2tvpp.Sync.Laws.{Laws}
use l2tvpp.Sync.Carried.Steps.{IsReady}
use l2tvpp.Sync.Carried.Pass.{AllReady}

abbrev pub tid_keys : Keys
tid_keys = record { Key = ℕ; is_key = λ a b. a == b; is_key_iff = λ a b. ==_iff a b }

module _ {Ip Prefix : Type 0} (H : Host Ip Prefix) where
  -- A tunnel as `ip l2tp show tunnel` lists it.
  pub record KernelTunnel : Type 0 where
    pub from_ip : Option Ip
    pub to_ip : Option Ip
    pub from_port : ℕ
    pub to_port : ℕ

  abbrev pub merge_local : KernelTunnel → Option Ip → KernelSession H → KernelSession H
  merge_local t none s = s
  merge_local t (some ip) s = record s { local_ip = some ip; local_port = some t.from_port }

  abbrev pub merge_peer : KernelTunnel → Option Ip → KernelSession H → KernelSession H
  merge_peer t none s = s
  merge_peer t (some ip) s = record s { peer_ip = ip; peer_port = t.to_port }

  -- One round of the loop.
  abbrev pub merge_tunnel : Option KernelTunnel → KernelSession H → KernelSession H
  merge_tunnel none s = s
  merge_tunnel (some t) s = merge_peer t t.to_ip (merge_local t t.from_ip s)

  abbrev pub merge_tunnel_endpoints :
      List (KernelSession H) → Dict tid_keys KernelTunnel → List (KernelSession H)
  merge_tunnel_endpoints [] tunnels = []
  merge_tunnel_endpoints (s ∷ rest) tunnels =
      merge_tunnel (lookup tid_keys s.local_tid tunnels) s ∷ merge_tunnel_endpoints rest tunnels

  -- The ids and the netdev of a session stay.
  merge_tunnel_ids :
      (o : Option KernelTunnel) (s : KernelSession H)
      → let merged = merge_tunnel o s in
        (merged.ifname ≡ s.ifname) × (session_key H merged ≡ session_key H s)
  merge_tunnel_ids none s = (refl, refl)
  merge_tunnel_ids (some t) s = go t.to_ip t.from_ip
    where
      go :
          (to from : Option Ip)
          → let merged = merge_peer t to (merge_local t from s) in
            (merged.ifname ≡ s.ifname) × (session_key H merged ≡ session_key H s)
      go none none = (refl, refl)
      go none (some near) = (refl, refl)
      go (some far) none = (refl, refl)
      go (some far) (some near) = (refl, refl)

  module _ (P : Plugin H) (L : Laws H P) (fallback_ip : Option Ip) (fallback_port : ℕ)
      (tunnels : Dict tid_keys KernelTunnel) where
    -- The tunnel of a session is listed with two addresses that the plugin takes.
    abbrev pub HasTunnel : KernelSession H → Type 0
    HasTunnel s =
        (s.local_tid < 65536)
        × (s.local_sid < 65536)
        × (t : KernelTunnel) × (lookup tid_keys s.local_tid tunnels ≡ some t)
        × (near : Ip) × (t.from_ip ≡ some near)
        × L.IsUsable near
        × (far : Ip) × (t.to_ip ≡ some far)
        × L.IsUsable far

    abbrev pub AllHaveTunnels : List (KernelSession H) → Type 0
    AllHaveTunnels [] = Unit {0}
    AllHaveTunnels (s ∷ rest) = ((is_some s.ifname ≡ false) ⊎ HasTunnel s) × AllHaveTunnels rest

    pub merge_tunnel_endpoints-is_listed :
        (sessions : List (KernelSession H)) (k : session_keys.Key)
        → is_listed H P fallback_ip fallback_port k (merge_tunnel_endpoints sessions tunnels)
          ≡ is_listed H P fallback_ip fallback_port k sessions
    merge_tunnel_endpoints-is_listed [] k = refl
    merge_tunnel_endpoints-is_listed (s ∷ rest) k =
        let (ifname, ids) = merge_tunnel_ids (lookup tid_keys s.local_tid tunnels) s in
        let later = merge_tunnel_endpoints-is_listed rest k in
        λ i. (is_some (ifname i) && session_keys.is_key (ids i) k) || later i

    -- The peers of the listed tunnels.
    abbrev pub ArePeers : (ℕ → Ip × ℕ) → Type 0
    ArePeers peer =
        (tid : ℕ) (t : KernelTunnel) (ip : Ip)
        → lookup tid_keys tid tunnels ≡ some t
        → t.to_ip ≡ some ip
        → peer tid ≡ (ip, t.to_port)

    module _ (peer : ℕ → Ip × ℕ) (are : ArePeers peer) where
      merge_tunnel-IsReady :
          (s : KernelSession H)
          → HasTunnel s
          → let merged = merge_tunnel (lookup tid_keys s.local_tid tunnels) s in
            IsReady H P L fallback_ip fallback_port peer (session_key H merged) merged
      merge_tunnel-IsReady s (tid16, sid16, t, found, near, from, near_ok, far, to, far_ok) =
          rw (found, from, to)
            (
              refl,
              tid16,
              sid16,
              ap (λ (x : Ip × ℕ). (x.0, (x.1, s.local_tid))) (sym (are s.local_tid t far found to)),
              far_ok,
              near,
              refl,
              near_ok,
            )

      pub merge_tunnel_endpoints-AllReady :
          (sessions : List (KernelSession H))
          → AllHaveTunnels sessions
          → AllReady H P L fallback_ip fallback_port peer (merge_tunnel_endpoints sessions tunnels)
      merge_tunnel_endpoints-AllReady [] have = tt
      merge_tunnel_endpoints-AllReady (s ∷ rest) (inl without, have) =
          let (ifname, _) = merge_tunnel_ids (lookup tid_keys s.local_tid tunnels) s in
          (inl (ap is_some ifname ∙ without), merge_tunnel_endpoints-AllReady rest have)
      merge_tunnel_endpoints-AllReady (s ∷ rest) (inr tunnel, have) =
          (inr (merge_tunnel-IsReady s tunnel), merge_tunnel_endpoints-AllReady rest have)
