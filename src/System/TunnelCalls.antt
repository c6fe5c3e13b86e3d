-- ===== src/System/TunnelCalls.antt =====
-- `l2tvpp_tunnel_add_del` keeps what holds in every state.
use l2tvpp.Common.{
  ℕ, ◌<◌, ◌≡◌, ◌⊎◌, refl, subst, Bool, true, false, Option, some, none, Bool-cases, inl, inr, ◌==◌,
  if◌then◌else◌, arith,
}
use l2tvpp.Objects.{Tunnel}
use l2tvpp.Vpp.{Vpp}
use l2tvpp.Registry.{Main, ok, new_tunnel, tunnel_add_del}
use l2tvpp.Registry.Ghost.{Sessions}
use l2tvpp.Registry.Represents.{Represents}
use l2tvpp.Registry.Tunnels.{Outcome, tunnel_add_del-Outcome}
use l2tvpp.Registry.Counts.{count_of-le}
use l2tvpp.System.{IsFreshTid}
use l2tvpp.System.Good.{IsGood, UniqueTids-kept, tids_kept}

module _ (V : Vpp) where
  open V.tunnel_pool use {elt as tunnel_at, elt-write as tunnel_at-write}

  module _ (m m' : Main V) (es : Sessions) (g : IsGood V m es) (local_ip peer_ip : V.Address)
      (local_port peer_port local_tid peer_tid : ℕ) (small : local_tid < 65536) where
    added_tunnel-IsGood :
        (i : ℕ)
        → ((j : ℕ)
            → tunnel_at m'.tunnels j ≡ (
                if i == j
                then some (new_tunnel V local_ip peer_ip local_port peer_port local_tid peer_tid)
                else tunnel_at m.tunnels j))
        → IsFreshTid V m local_tid
        → Represents V m' es
        → IsGood V m' es
    added_tunnel-IsGood i after fresh r = record {
      represents = r;
      unique = λ j k t u a b e. unique j k t u a b e (Bool-cases (i == j)) (Bool-cases (i == k));
      words = g.words;
      tids = λ j t a. ground (arith, after j, g.tids j t);
    }
      where
        unique :
            (j k : ℕ) (t u : Tunnel V.Address)
            → tunnel_at m'.tunnels j ≡ some t
            → tunnel_at m'.tunnels k ≡ some u
            → t.local_tid ≡ u.local_tid
            → ((i == j) ≡ true) ⊎ ((i == j) ≡ false)
            → ((i == k) ≡ true) ⊎ ((i == k) ≡ false)
            → j ≡ k
        unique j k t u a b e (inl p) (inl q) = ground arith
        unique j k t u a b e (inl p) (inr q) =
            absurd (fresh k u (ground (arith, after k)) (ground (arith, after j)))
        unique j k t u a b e (inr p) (inl q) =
            absurd (fresh j t (ground (arith, after j)) (ground (arith, after k)))
        unique j k t u a b e (inr p) (inr q) =
            g.unique j k t u (ground (arith, after j)) (ground (arith, after k)) e

    removed_tunnel-IsGood :
        (i : ℕ)
        → ((j : ℕ) → tunnel_at m'.tunnels j ≡ (if i == j then none else tunnel_at m.tunnels j))
        → Represents V m' es
        → IsGood V m' es
    removed_tunnel-IsGood i after r =
        let kept = λ (j : ℕ) (u : Tunnel V.Address) (a : tunnel_at m'.tunnels j ≡ some u).
          there j u a (Bool-cases (i == j)) in
        record {
          represents = r;
          unique = UniqueTids-kept V m m' kept g.unique;
          words = g.words;
          tids = tids_kept V m m' kept g.tids;
        }
      where
        there :
            (j : ℕ) (u : Tunnel V.Address)
            → tunnel_at m'.tunnels j ≡ some u
            → ((i == j) ≡ true) ⊎ ((i == j) ≡ false)
            → (t : Tunnel V.Address) × (tunnel_at m.tunnels j ≡ some t)
              × (t.local_tid ≡ u.local_tid)
        there j u a (inl gone) = absurd (ground (arith, after j))
        there j u a (inr other) = (u, ground (arith, after j), refl)

    Outcome-IsGood :
        (is_add : Bool) (index : Option ℕ)
        → (is_add ≡ true → IsFreshTid V m local_tid)
        → Outcome V m es g.represents local_ip peer_ip local_port peer_port local_tid peer_tid
            is_add
            (ok (m', index))
        → IsGood V m' es
    Outcome-IsGood true (some i) fresh (_, _, after, _, r) =
        added_tunnel-IsGood i after (fresh refl) r
    Outcome-IsGood true none fresh o = absurd o
    Outcome-IsGood false (some i) fresh o = absurd o
    Outcome-IsGood false none fresh (i, t, _, _, after, r) = removed_tunnel-IsGood i after r

    pub tunnel_call-IsGood :
        (is_add : Bool) (index : Option ℕ)
        → (is_add ≡ true → IsFreshTid V m local_tid)
        → tunnel_add_del V m local_ip peer_ip local_port peer_port local_tid peer_tid is_add
          ≡ ok (m', index)
        → IsGood V m' es
    tunnel_call-IsGood is_add index fresh e =
        elim (tunnel_add_del-Outcome V m es g.represents local_ip peer_ip local_port peer_port
          local_tid peer_tid is_add
          (λ i. omega (arith, count_of-le V m es g.represents g.words i))) [
            | inl (_, o) ↦ Outcome-IsGood is_add index fresh (
                subst
                  (Outcome V m es g.represents local_ip peer_ip local_port peer_port local_tid
                    peer_tid is_add)
                  e o)
            | inr (_, failed) ↦ absurd (ground arith)
          ]
