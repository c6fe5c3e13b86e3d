-- ===== src/Sync/Carried/Pass.antt =====
-- After a pass of syncd/l2tvppd.py the plugin carries the sessions of the kernel.
use l2tvpp.Common.{
  ℕ, ◌≡◌, ◌⊎◌, ap, ◌∙◌, inl, inr, Bool, Bool-cases, false, Option, some, List, [], ◌∷◌, arith,
}
use l2tvpp.Sync.Dictionary.{Dict, lookup, put, keys, is_some, Once, AllOf, AllOf-put}
use l2tvpp.Sync.{
  Host, session_keys, tunnel_keys, KernelSession, session_key, Plugin, Installed, Ran, ended,
  raised, mirror_all, vpp_tunnels, wanted, reconcile,
}
use l2tvpp.Sync.Mirror.{Passes, Ends, Ends-after, Ends-weaken, Mirrors, mirror_all-Mirrors}
use l2tvpp.Sync.Reconcile.{HaveEndpoints, is_listed, begin_at, Leaves, reconcile-Leaves, wanted-has}
use l2tvpp.Sync.Laws.{Laws}
use l2tvpp.Sync.Carried.{InSync}
use l2tvpp.Sync.Carried.Steps.{
  IsKnown, IsReady, IsGood, key_at, mirror_all-IsGood, remove_all-IsMirrored, prune_tunnels-InSync,
}

module _ {Ip Prefix : Type 0} (H : Host Ip Prefix) (P : Plugin H) (L : Laws H P)
    (fallback_ip : Option Ip) (fallback_port : ℕ) where
  -- Both hold of what a run leaves.
  Ends-both :
      {A : Type 0} (Q R : A → Passes H P fallback_ip fallback_port → Type 0)
      (r : Ran H P fallback_ip fallback_port A)
      → Ends H P fallback_ip fallback_port r Q
      → Ends H P fallback_ip fallback_port r R
      → Ends H P fallback_ip fallback_port r (λ a p. Q a p × R a p)
  Ends-both Q R (ended a p) q r = (q, r)
  Ends-both Q R (raised p) q r = q

  module _ (peer : ℕ → Ip × ℕ) where
    -- Each session with a netdev has ids of 16 bits, a tunnel to the peer of its tunnel id, and two
    -- addresses that the plugin takes.
    abbrev pub AllReady : List (KernelSession H) → Type 0
    AllReady [] = Unit {0}
    AllReady (s ∷ rest) =
        ((is_some s.ifname ≡ false)
          ⊎ IsReady H P L fallback_ip fallback_port peer (session_key H s) s)
        × AllReady rest

    -- The tunnels of the plugin end at the peer of their id.
    abbrev pub OnePeer : P.State → Type 0
    OnePeer st =
        (ip : Ip) (port tid i : ℕ)
        → lookup (tunnel_keys H) (ip, (port, tid)) (vpp_tunnels H (P.tunnel_dump st) []) ≡ some i
        → (ip, port) ≡ peer tid

    AllReady-HaveEndpoints :
        (sessions : List (KernelSession H))
        → AllReady sessions
        → HaveEndpoints H P fallback_ip fallback_port sessions
    AllReady-HaveEndpoints [] ready = tt
    AllReady-HaveEndpoints (s ∷ rest) (inl without, ready) =
        (inl without, AllReady-HaveEndpoints rest ready)
    AllReady-HaveEndpoints (s ∷ rest) (inr (_, _, _, _, _, ip, e, _), ready) =
        (inr (ip, e), AllReady-HaveEndpoints rest ready)

    wanted-AllReady :
        (sessions : List (KernelSession H)) (d : Dict session_keys (KernelSession H))
        → AllReady sessions
        → AllOf session_keys (IsReady H P L fallback_ip fallback_port peer) d
        → AllOf session_keys
            (IsReady H P L fallback_ip fallback_port peer)
            (wanted H P fallback_ip fallback_port sessions d)
    unfolding wanted
    wanted-AllReady [] d ready all = all
    wanted-AllReady (s ∷ rest) d (inl without, ready) all =
        rw (wanted, without) (wanted-AllReady rest d ready all)
    wanted-AllReady (s ∷ rest) d (inr here, ready) all = elim (Bool-cases (is_some s.ifname)) [
      | inl netdev ↦
          rw (wanted, netdev)
            (wanted-AllReady rest (put session_keys (session_key H s) s d) ready (
              AllOf-put session_keys (IsReady H P L fallback_ip fallback_port peer) d
                (session_key H s) s here all))
      | inr without ↦ rw (wanted, without) (wanted-AllReady rest d ready all)
    ]

    dump-IsKnown :
        (st : P.State)
        → L.IsOk st
        → OnePeer st
        → IsKnown H P L fallback_ip fallback_port peer st (vpp_tunnels H (P.tunnel_dump st) [])
    dump-IsKnown st ok one = (
      (λ tid i e. L.dump_names st ((peer tid).0) ((peer tid).1) tid i ok e),
      λ tid i e.
          let (ip, port, j, found) = L.dump_all st i tid ok e in
          let at : (ip, (port, tid)) ≡ key_at H P L fallback_ip fallback_port peer tid =
            ap (λ (x : Ip × ℕ). (x.0, (x.1, tid))) (one ip port tid j found) in
          rw (← at) (ground (arith, found)),
    )

    module _ (sessions : List (KernelSession H)) (ready : AllReady sessions) (st : P.State)
        (installed : Dict session_keys (Installed H)) (once : Once session_keys installed)
        (sync : Bool) where
      reconcile-InSync :
          OnePeer st
          → InSync H P L st installed
          → Ends H P fallback_ip fallback_port
              (reconcile H P fallback_ip fallback_port sessions sync st installed)
              λ u p. InSync H P L p.plugin p.installed
      unfolding reconcile
      reconcile-InSync one held =
          let endpoints = AllReady-HaveEndpoints sessions ready in
          let want = wanted H P fallback_ip fallback_port sessions [] in
          let begin = begin_at H P fallback_ip fallback_port sessions endpoints st installed once in
          let (all, once_wanted, _) =
            wanted-has H P fallback_ip fallback_port sessions [] endpoints tt tt in
          Ends-after H P fallback_ip fallback_port (λ u p. InSync H P L p.plugin p.installed)
            (mirror_all H P fallback_ip fallback_port sync want begin) _
            (Ends-both (λ u. IsGood H P L fallback_ip fallback_port peer)
              (λ u. Mirrors H P fallback_ip fallback_port sync want begin) _
              (mirror_all-IsGood H P L fallback_ip fallback_port peer sync want begin
                (wanted-AllReady sessions [] ready tt) (held, dump-IsKnown st (held.0) one))
              (mirror_all-Mirrors H P fallback_ip fallback_port sync want begin all once_wanted
                once))
            λ u p (good, mirrors). prune_tunnels-InSync H P L fallback_ip fallback_port _ (
              (remove_all-IsMirrored H P L fallback_ip fallback_port want
                (keys session_keys p.installed) p (good.0, mirrors.0)).0)

      pub reconcile-carries :
          OnePeer st
          → InSync H P L st installed
          → Ends H P fallback_ip fallback_port
              (reconcile H P fallback_ip fallback_port sessions sync st installed)
              λ u p.
                InSync H P L p.plugin p.installed
                × Once session_keys p.installed
                × ((k : session_keys.Key)
                    → L.carries p.plugin k ≡ is_listed H P fallback_ip fallback_port k sessions)
      reconcile-carries one held =
          let endpoints = AllReady-HaveEndpoints sessions ready in
          let Both : Passes H P fallback_ip fallback_port → Type 0 = λ p.
            InSync H P L p.plugin p.installed
            × Leaves H P fallback_ip fallback_port sessions endpoints sync p.installed in
          Ends-weaken H P fallback_ip fallback_port {Q = λ u p. Both p}
            (reconcile H P fallback_ip fallback_port sessions sync st installed)
            (Ends-both (λ u p. InSync H P L p.plugin p.installed)
              (λ u p. Leaves H P fallback_ip fallback_port sessions endpoints sync p.installed) _
              (reconcile-InSync one held)
              (reconcile-Leaves H P fallback_ip fallback_port sessions endpoints st installed once
                sync))
            λ u p (held', left). (held', left.0, λ k. held'.1 k ∙ left.1 k)
