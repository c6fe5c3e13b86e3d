-- ===== src/Sync/OverRegistry/Dump.antt =====
-- The dump of the tunnels of the registry, as syncd/l2tvppd.py reads it.
use l2tvpp.Common.{
  ℕ, ◌≡◌, ◌⊎◌, refl, ap, inl, inr, Bool-cases, true, Option, some, none, Option-cases, List, [],
  ◌∷◌, arith,
}
use l2tvpp.Objects.{Tunnel}
use l2tvpp.Vpp.{Vpp, Has}
use l2tvpp.Registry.{Main}
use l2tvpp.Encap.{Prefix}
use l2tvpp.Sync.Dictionary.{Keys, Dict, lookup, has, put, AllOf, AllOf-put, lookup-put}
use l2tvpp.Sync.{Host, tunnel_keys, vpp_tunnels}
use l2tvpp.Sync.OverRegistry.{tid_of, key_of_tunnel, list_tunnel, list_tunnels}

module _ (V : Vpp) (H : Host V.Address Prefix) (m : Main V) where
  open V.tunnel_pool use {elt as tunnel_at, indices, indices_all}

  abbrev K : Keys
  K = tunnel_keys H

  abbrev Names : K.Key → ℕ → Type 0
  Names key i = tid_of V (tunnel_at m.tunnels i) ≡ some (key.1.1)

  list_tunnels-Names :
      (is : List ℕ) (d : Dict K ℕ)
      → AllOf K Names d
      → AllOf K Names (vpp_tunnels H (list_tunnels V H m is) d)
  unfolding list_tunnels vpp_tunnels
  list_tunnels-Names [] d all = all
  list_tunnels-Names (i ∷ is) d all = go (tunnel_at m.tunnels i) refl (list_tunnels-Names is)
    where
      go :
          (o : Option (Tunnel V.Address))
          → tunnel_at m.tunnels i ≡ o
          → ((d' : Dict K ℕ)
              → AllOf K Names d'
              → AllOf K Names (vpp_tunnels H (list_tunnels V H m is) d'))
          → AllOf K Names (vpp_tunnels H (list_tunnel V H i o (list_tunnels V H m is)) d)
      go none e later = later d all
      go (some t) e later =
          later (put K (key_of_tunnel V H t) i d)
            (AllOf-put K Names d (key_of_tunnel V H t) i (rw e refl) all)

  AllOf-lookup_of :
      (d : Dict K ℕ) (key : K.Key) (i : ℕ) → AllOf K Names d → lookup K key d ≡ some i → Names key i
  AllOf-lookup_of [] key i all e = absurd (ground arith)
  AllOf-lookup_of ((j, x) ∷ d) key i (here, all) e = elim (Bool-cases (K.is_key j key)) [
    | inl same ↦
        let j_key : j ≡ key = (K.is_key_iff j key).0 same in
        let x_i : x ≡ i = ground (arith, e) in rw (← j_key, ← x_i) here
    | inr other ↦ AllOf-lookup_of d key i all (ground (arith, e))
  ]

  pub dump-Names :
      (key : K.Key) (i : ℕ)
      → lookup K key (vpp_tunnels H (list_tunnels V H m (indices m.tunnels)) []) ≡ some i
      → Names key i
  dump-Names key i e = AllOf-lookup_of _ key i (list_tunnels-Names (indices m.tunnels) [] tt) e

  list_tunnels-has :
      (is : List ℕ) (d : Dict K ℕ) (j : ℕ) (t : Tunnel V.Address)
      → tunnel_at m.tunnels j ≡ some t
      → (has K (key_of_tunnel V H t) d ≡ true) ⊎ Has j is
      → has K (key_of_tunnel V H t) (vpp_tunnels H (list_tunnels V H m is) d) ≡ true
  unfolding list_tunnels vpp_tunnels
  list_tunnels-has [] d j t at (inl there) = there
  list_tunnels-has [] d j t at (inr nowhere) = absurd nowhere
  list_tunnels-has (i ∷ is) d j t at there =
      go (tunnel_at m.tunnels i) refl there (λ d'. list_tunnels-has is d' j t at)
    where
      go :
          (o : Option (Tunnel V.Address))
          → tunnel_at m.tunnels i ≡ o
          → (has K (key_of_tunnel V H t) d ≡ true) ⊎ Has j (i ∷ is)
          → ((d' : Dict K ℕ)
              → (has K (key_of_tunnel V H t) d' ≡ true) ⊎ Has j is
              → has K (key_of_tunnel V H t) (vpp_tunnels H (list_tunnels V H m is) d') ≡ true)
          → has K
              (key_of_tunnel V H t)
              (vpp_tunnels H (list_tunnel V H i o (list_tunnels V H m is)) d)
            ≡ true
      go none e (inl old) later = later d (inl old)
      go none e (inr (inl here)) later =
          let at_i : tunnel_at m.tunnels i ≡ some t = rw (← here) at in
          absurd (ground (arith, e, at_i))
      go none e (inr (inr rest)) later = later d (inr rest)
      go (some u) e (inl old) later =
          later (put K (key_of_tunnel V H u) i d) (
            inl (ground (arith, old, lookup-put K d (key_of_tunnel V H u) (key_of_tunnel V H t) i)))
      go (some u) e (inr (inl here)) later =
          let at_i : tunnel_at m.tunnels i ≡ some t = rw (← here) at in
          let u_t : u ≡ t = ground (arith, e, at_i) in
          later (put K (key_of_tunnel V H u) i d) (
            inl (
              ground (
                arith,
                lookup-put K d (key_of_tunnel V H u) (key_of_tunnel V H t) i,
                (K.is_key_iff (key_of_tunnel V H u) (key_of_tunnel V H t)).1
                    (ap (key_of_tunnel V H) u_t),
              )))
      go (some u) e (inr (inr rest)) later = later _ (inr rest)

  pub dump-all :
      (i tid : ℕ)
      → tid_of V (tunnel_at m.tunnels i) ≡ some tid
      → (ip : V.Address) × (port : ℕ) × (j : ℕ) × (lookup K
            (ip, (port, tid))
            (vpp_tunnels H (list_tunnels V H m (indices m.tunnels)) [])
          ≡ some j)
  dump-all i tid e = go (tunnel_at m.tunnels i) refl e
    where
      go :
          (o : Option (Tunnel V.Address))
          → tunnel_at m.tunnels i ≡ o
          → tid_of V o ≡ some tid
          → (ip : V.Address) × (port : ℕ) × (j : ℕ) × (lookup K
                (ip, (port, tid))
                (vpp_tunnels H (list_tunnels V H m (indices m.tunnels)) [])
              ≡ some j)
      go none at is = absurd (ground arith)
      go (some t) at is =
          let found =
            list_tunnels-has (indices m.tunnels) [] i t at
              (inr (indices_all m.tunnels i (λ free. cc at))) in
          let t_tid : t.local_tid ≡ tid = ground arith in
          elim (Option-cases (
            lookup K (key_of_tunnel V H t)
              (vpp_tunnels H (list_tunnels V H m (indices m.tunnels)) []))) [
                | inl nothing ↦ absurd (ground (arith, found))
                | inr (j, here) ↦ (t.peer_ip, t.peer_port, j, rw (← t_tid) here)
              ]
