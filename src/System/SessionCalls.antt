-- ===== src/System/SessionCalls.antt =====
-- `l2tvpp_session_add_del` keeps what holds in every state.
use l2tvpp.Common.{
  ℕ, ◌<◌, ◌≡◌, refl, subst, Bool, true, false, Option, some, none, Bool-cases, inl, inr, List, ◌∷◌,
  ◌==◌, if◌then◌else◌, arith,
}
use l2tvpp.Objects.{Tunnel, Session}
use l2tvpp.Vpp.{Vpp}
use l2tvpp.Registry.{
  Main, Result, ok, err, HwInterface, VnetCall, vec_at, new_session, session_add_del, session_on,
  session_add, session_add_at, session_del, session_del_found, session_del_at,
}
use l2tvpp.Registry.Ghost.{Sessions, without, by_index-without, by_index_of_key}
use l2tvpp.Registry.Represents.{Represents, HasWords}
use l2tvpp.Registry.Sessions.{Refines, session_add_del-Refines}
use l2tvpp.System.Good.{IsGood, TidsKept, UniqueTids-kept, tids_kept}

module _ (V : Vpp) where
  open V.tunnel_pool use {elt as tunnel_at, elt-write as tunnel_at-write}

  -- One tunnel's count is written.
  written-TidsKept :
      (c c' : V.tunnel_pool.Carrier) (ti n : ℕ) (t : Tunnel V.Address)
      → tunnel_at c ti ≡ some t
      → ((j : ℕ)
          → tunnel_at c' j
            ≡ (if ti == j then some (record t { n_sessions = n }) else tunnel_at c j))
      → TidsKept V c c'
  written-TidsKept c c' ti n t here after j u e = elim (Bool-cases (ti == j)) [
    | inl same ↦ (t, ground (arith, after j), ground (arith, after j))
    | inr other ↦ (u, ground (arith, after j), refl)
  ]

  -- The same of what a session call answers.
  abbrev KeptBy : Main V → Result (Main V × List VnetCall) → Type 0
  KeptBy m (err e) = Unit {0}
  KeptBy m (ok (m', calls)) = TidsKept V m.tunnels m'.tunnels

  abbrev KeptIf : Main V → Option (Result (Main V × List VnetCall)) → Type 0
  KeptIf m none = Unit {0}
  KeptIf m (some r) = KeptBy m r

  module _ (m : Main V) (ti sid peer_sid acfc pfc : ℕ) (hi : HwInterface) (t : Tunnel V.Address)
      (here : tunnel_at m.tunnels ti ≡ some t) where
    session_add_at-KeptBy :
        (o : Option ℕ) → KeptBy m (session_add_at V m ti t sid peer_sid acfc pfc hi o)
    unfolding session_add_at
    session_add_at-KeptBy (some i) = tt
    session_add_at-KeptBy none =
        written-TidsKept m.tunnels _ ti _ t here (λ j. tunnel_at-write m.tunnels ti j _)

    session_del_at-KeptIf :
        (i : ℕ) (o : Option Session) → KeptIf m (session_del_at V m ti t sid i o)
    unfolding session_del_at
    session_del_at-KeptIf i none = tt
    session_del_at-KeptIf i (some s) =
        written-TidsKept m.tunnels _ ti _ t here (λ j. tunnel_at-write m.tunnels ti j _)

    session_del_found-KeptIf : (o : Option ℕ) → KeptIf m (session_del_found V m ti t sid o)
    unfolding session_del_found
    session_del_found-KeptIf none = tt
    session_del_found-KeptIf (some i) = session_del_at-KeptIf i _

  session_on-KeptIf :
      (m : Main V) (ti sid peer_sid acfc pfc : ℕ) (hi : HwInterface) (is_add : Bool)
      (o : Option (Tunnel V.Address))
      → tunnel_at m.tunnels ti ≡ o
      → KeptIf m (session_on V m ti sid peer_sid acfc pfc is_add hi o)
  unfolding session_on session_add session_del
  session_on-KeptIf m ti sid peer_sid acfc pfc hi is_add none here = tt
  session_on-KeptIf m ti sid peer_sid acfc pfc hi true (some t) here =
      session_add_at-KeptBy m ti sid peer_sid acfc pfc hi t here _
  session_on-KeptIf m ti sid peer_sid acfc pfc hi false (some t) here =
      session_del_found-KeptIf m ti sid peer_sid acfc pfc hi t here _

  -- What a session call leaves: the words of the list with the new session, or without one.
  module _ (m : Main V) (es : Sessions) (g : IsGood V m es) (ti sid peer_sid acfc pfc : ℕ)
      (hi : HwInterface) (small : sid < 65536) where
    cons-HasWords :
        (i : ℕ) (t : Tunnel V.Address)
        → tunnel_at m.tunnels ti ≡ some t
        → HasWords V ((i, new_session V ti t sid peer_sid acfc pfc hi) ∷ es)
    cons-HasWords i t here j u e = elim (Bool-cases (i == j)) [
      | inl new ↦ ground (arith, g.tids ti t here)
      | inr old ↦ g.words j u (ground arith)
    ]

    Refines-words :
        (o : Option (Tunnel V.Address)) (b : Bool) (m' : Main V) (calls : List VnetCall)
        → tunnel_at m.tunnels ti ≡ o
        → Refines V m es ti sid peer_sid acfc pfc hi o b (ok (m', calls))
        → (es' : Sessions) × Represents V m' es' × HasWords V es'
    Refines-words none b m' calls here e = absurd (ground arith)
    Refines-words (some t) true m' calls here (free, r) = (_, r, cons-HasWords _ t here)
    Refines-words (some t) false m' calls here (i, found, r) =
        let (s, at, keyed) = by_index_of_key _ i es g.represents.distinct found in
        (
          without i es,
          r,
          λ j u e. g.words j u (ground (arith, by_index-without i s es j g.represents.distinct at)),
        )

  pub session_call-IsGood :
      (m m' : Main V) (es : Sessions) (ti sid peer_sid acfc pfc : ℕ) (is_add : Bool)
      (hi : HwInterface) (calls : List VnetCall)
      → IsGood V m es
      → sid < 65536
      → vec_at m.session_index_by_sw_if_index hi.sw_if_index ≡ none
      → session_add_del V m ti sid peer_sid acfc pfc is_add hi ≡ some (ok (m', calls))
      → (es' : Sessions) × IsGood V m' es'
  unfolding session_add_del
  session_call-IsGood m m' es ti sid peer_sid acfc pfc is_add hi calls g small unused e =
      let done =
        session_add_del-Refines V m es ti sid peer_sid acfc pfc is_add hi g.represents g.unique
          g.words g.tids small unused in
      let same : done.value ≡ ok (m', calls) = cc (done.returns) in
      let refined =
        subst (Refines V m es ti sid peer_sid acfc pfc hi (tunnel_at m.tunnels ti) is_add) same
          done.holds in
      let kept =
        subst (KeptIf m) e (session_on-KeptIf m ti sid peer_sid acfc pfc hi is_add _ refl) in
      let (es', r, w) =
        Refines-words m es g ti sid peer_sid acfc pfc hi small _ is_add m' calls refl refined in
      (
        es',
        record {
          represents = r;
          unique = UniqueTids-kept V m m' kept g.unique;
          words = w;
          tids = tids_kept V m m' kept g.tids;
        },
      )
