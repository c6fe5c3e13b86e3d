-- ===== src/System/Invariant.antt =====
-- The control calls and the updates of adjacencies keep what holds in every state.
use l2tvpp.Common.{ℕ, ◌≡◌, sym, subst, Option, some, none, Option-cases, inl, inr, List, [], arith}
use l2tvpp.Objects.{Tunnel, Session}
use l2tvpp.Vpp.{Vpp}
use l2tvpp.Registry.{Main}
use l2tvpp.Registry.Ghost.{Sessions, by_index}
use l2tvpp.Registry.Represents.{HasWords}
use l2tvpp.System.{IsInitial, Step, tunnel_call, session_call, adjacency_call, Reach, start, next}
use l2tvpp.Rewrite.{Link, Checksum, AdjCall, template_checksum, update_adj}
use l2tvpp.Rewrite.Update.{caching, by_index-caching, Installs, Updates, update_adj-Updates}
use l2tvpp.System.Good.{IsGood, IsInitial-IsGood}
use l2tvpp.System.SessionCalls.{session_call-IsGood}
use l2tvpp.System.TunnelCalls.{tunnel_call-IsGood}

module _ (V : Vpp) (C : Checksum) (ip4_bytes : V.Address → List ℕ) where
  module _ (m : Main V) (es : Sessions) (g : IsGood V m es) where
    caching-HasWords : (si c : ℕ) → HasWords V (caching si c es)
    caching-HasWords si c j u e = elim (Option-cases (by_index j es)) [
      | inl missing ↦ absurd (ground (arith, by_index-caching si c es j))
      | inr (w, was) ↦ ground (arith, by_index-caching si c es j, g.words j w was)
    ]

    Installs-IsGood :
        (m' : Main V) (ai si : ℕ) (link : Link) (calls : List (AdjCall V C ip4_bytes)) (s : Session)
        (t : Tunnel V.Address) (o : Option ℕ)
        → Installs V C ip4_bytes m es g.represents ai link si s t o (m', calls)
        → (es' : Sessions) × IsGood V m' es'
    Installs-IsGood m' ai si link calls s t none (same, _) =
        (es, subst (λ x. IsGood V x es) (sym same) g)
    Installs-IsGood m' ai si link calls s t (some proto) (r, tunnels, _) = (
      caching si (template_checksum V C ip4_bytes t) es,
      record {
        represents = r;
        unique = rw tunnels g.unique;
        words = caching-HasWords si (template_checksum V C ip4_bytes t);
        tids = rw tunnels g.tids;
      },
    )

    Updates-IsGood :
        (m' : Main V) (sw ai : ℕ) (link : Link) (calls : List (AdjCall V C ip4_bytes))
        (o : Option ℕ)
        → Updates V C ip4_bytes m es g.represents ai link sw o (m', calls)
        → (es' : Sessions) × IsGood V m' es'
    Updates-IsGood m' sw ai link calls none (same, _) =
        (es, subst (λ x. IsGood V x es) (sym same) g)
    Updates-IsGood m' sw ai link calls (some si) (s, t, _, _, _, installs) =
        Installs-IsGood m' ai si link calls s t _ installs

    adjacency_call-IsGood :
        (m' : Main V) (sw ai : ℕ) (link : Link) (calls : List (AdjCall V C ip4_bytes))
        → update_adj V C ip4_bytes m sw ai link ≡ some (m', calls)
        → (es' : Sessions) × IsGood V m' es'
    adjacency_call-IsGood m' sw ai link calls e =
        let done = update_adj-Updates V C ip4_bytes m es g.represents ai link sw in
        let same : done.value ≡ (m', calls) = cc (done.returns) in
        Updates-IsGood m' sw ai link calls _
          (subst (Updates V C ip4_bytes m es g.represents ai link sw _) same done.holds)

  Step-IsGood :
      {m m' : Main V} (es : Sessions)
      → Step V C ip4_bytes m m'
      → IsGood V m es
      → (es' : Sessions) × IsGood V m' es'
  Step-IsGood {m} {m'} es
        (tunnel_call local_ip peer_ip lport pport ltid ptid is_add index small fresh e) g =
      (
        es,
        tunnel_call-IsGood V m m' es g local_ip peer_ip lport pport ltid ptid small is_add index
            fresh e,
      )
  Step-IsGood {m} {m'} es (session_call ti sid peer_sid acfc pfc is_add hi calls small unused e) g =
      session_call-IsGood V m m' es ti sid peer_sid acfc pfc is_add hi calls g small unused e
  Step-IsGood {m} {m'} es (adjacency_call sw ai link calls e) g =
      adjacency_call-IsGood m es g m' sw ai link calls e

  -- Every state that control calls and adjacency updates reach from the empty one stands for some
  -- list of sessions: pool, key table, interface vector and counts agree, ids are 16-bit numbers, and
  -- tunnel ids differ.
  pub Reach-IsGood :
      {m0 m : Main V} → IsInitial V m0 → Reach V C ip4_bytes m0 m → (es : Sessions) × IsGood V m es
  Reach-IsGood z start = ([], IsInitial-IsGood V _ z)
  Reach-IsGood z (next r s) = let (es, g) = Reach-IsGood z r in Step-IsGood es s g
