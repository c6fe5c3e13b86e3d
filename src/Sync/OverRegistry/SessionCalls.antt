-- ===== src/Sync/OverRegistry/SessionCalls.antt =====
-- The session calls of syncd/l2tvppd.py on the registry.
use l2tvpp.Common.{
  ℕ, ◌<◌, ◌≡◌, refl, sym, ap, ◌∙◌, subst, inl, inr, Bool, Bool-cases, true, false, not, ◌&&◌, ◌||◌,
  Option, some, none, Option-cases, List, ltb, ◌==◌, arith,
}
use l2tvpp.Objects.{Tunnel, Session}
use l2tvpp.Header.{session_key}
use l2tvpp.Header.Worker.{session_key-injective}
use l2tvpp.Vpp.{Vpp}
use l2tvpp.Registry.{
  Main, HwInterface, VnetCall, Result, ok, err, vec_at, session_add_del, session_on, session_add,
  session_add_at, session_del, session_del_found, session_del_at,
}
use l2tvpp.Registry.Ghost.{Sessions, by_key, by_index_of_key, by_key-without}
use l2tvpp.Registry.Represents.{Represents}
use l2tvpp.Registry.Sessions.{Refines, session_add_del-Refines}
use l2tvpp.System.Good.{IsGood}
use l2tvpp.System.SessionCalls.{session_call-IsGood}
use l2tvpp.Encap.{EncapCache}
use l2tvpp.Sync.Dictionary.{is_some}
use l2tvpp.Sync.{session_keys}
use l2tvpp.Sync.OverRegistry.{State, IsOk, carries, tid_of, tid_at, after_session}
use l2tvpp.Sync.OverRegistry.TunnelCalls.{carries_by, tid_of_at}

-- The key of 16-bit ids is that of two other numbers of 16 bits exactly if the ids are.
key_test :
    (tid sid : ℕ) (k : session_keys.Key)
    → tid < 65536
    → sid < 65536
    → (ltb (k.0) 65536 && (ltb (k.1) 65536 && (session_key tid sid == session_key (k.0) (k.1))))
      ≡ session_keys.is_key (tid, sid) k
key_test tid sid k tid16 sid16 = elim (Bool-cases (session_keys.is_key (tid, sid) k)) [
  | inl here ↦
      let is : (tid, sid) ≡ k = (session_keys.is_key_iff (tid, sid) k).0 here in
      let key : session_key tid sid ≡ session_key (k.0) (k.1) =
        ap (λ (x : ℕ × ℕ). session_key (x.0) (x.1)) is in
      let p : tid ≡ k.0 = ap (λ (x : ℕ × ℕ). x.0) is in
      let q : sid ≡ k.1 = ap (λ (x : ℕ × ℕ). x.1) is in
      ground (arith, here, key, p, q, tid16, sid16)
  | inr other ↦
      elim (Bool-cases (
        ltb (k.0) 65536 && (ltb (k.1) 65536 && (session_key tid sid == session_key (k.0) (k.1))))) [
          | inr differs ↦ rw (differs, other) refl
          | inl same ↦
              let (p, q, _) =
                session_key-injective tid sid (k.0) (k.1) tid16 sid16 (ground (arith, same))
                  (ground (arith, same)) (ground (arith, same)) in
              absurd (ground (arith, other, p, q))
        ]
]

module _ (V : Vpp) where
  open V.tunnel_pool use {elt as tunnel_at, elt-write as tunnel_at-write}

  -- A session call leaves the local ids of all tunnels.
  abbrev HasTids : Main V → Option (Result (Main V × List VnetCall)) → Type 0
  HasTids m none = Unit {0}
  HasTids m (some (err e)) = Unit {0}
  HasTids m (some (ok (m', calls))) =
      (j : ℕ) → tid_of V (tunnel_at m'.tunnels j) ≡ tid_of V (tunnel_at m.tunnels j)

  written_tid :
      (m : Main V) (ti n : ℕ) (t : Tunnel V.Address)
      → tunnel_at m.tunnels ti ≡ some t
      → (j : ℕ)
      → tid_of V (tunnel_at (V.tunnel_pool.write m.tunnels ti (record t { n_sessions = n })) j)
        ≡ tid_of V (tunnel_at m.tunnels j)
  written_tid m ti n t here j = elim (Bool-cases (ti == j)) [
    | inl same ↦
        let at_j : tunnel_at m.tunnels j ≡ some t =
          (let is : ti ≡ j = ground arith in rw (← is) here) in
        rw (tunnel_at-write m.tunnels ti j (record t { n_sessions = n }), same, at_j) refl
    | inr other ↦ rw (tunnel_at-write m.tunnels ti j (record t { n_sessions = n }), other) refl
  ]

  session_on-HasTids :
      (m : Main V) (ti sid peer_sid : ℕ) (is_add : Bool) (hi : HwInterface)
      (o : Option (Tunnel V.Address))
      → tunnel_at m.tunnels ti ≡ o
      → HasTids m (session_on V m ti sid peer_sid 0 0 is_add hi o)
  unfolding session_on session_add session_del session_add_at session_del_found session_del_at
  session_on-HasTids m ti sid peer_sid is_add hi none here = tt
  session_on-HasTids m ti sid peer_sid true hi (some t) here =
      go (V.bihash.search m.session_by_key (session_key t.local_tid sid))
    where
      go : (o : Option ℕ) → HasTids m (some (session_add_at V m ti t sid peer_sid 0 0 hi o))
      go (some i) = tt
      go none = written_tid m ti _ t here
  session_on-HasTids m ti sid peer_sid false hi (some t) here =
      go (V.bihash.search m.session_by_key (session_key t.local_tid sid))
    where
      at : (i : ℕ) (o : Option Session) → HasTids m (session_del_at V m ti t sid i o)
      at i none = tt
      at i (some s) = written_tid m ti _ t here

      go : (o : Option ℕ) → HasTids m (session_del_found V m ti t sid o)
      go none = tt
      go (some i) = at i _

  module _ (m : Main V) (c : EncapCache V.bihash) (es : Sessions) (g : IsGood V m es)
      (ti tid sid peer_sid : ℕ) (hi : HwInterface) (here : tid_at V (m, c) ti ≡ some tid)
      (sid16 : sid < 65536)
      (unused : vec_at m.session_index_by_sw_if_index hi.sw_if_index ≡ none) where
    -- What the call changes of what the registry carries.
    abbrev Carries : (Bool → Bool → Bool) → State V → Type 0
    Carries change st' =
        IsOk V st'
        × ((j : ℕ) → tid_at V st' j ≡ tid_at V (m, c) j)
        × ((k : session_keys.Key)
            → carries V st' k ≡ change (session_keys.is_key (tid, sid) k) (carries V (m, c) k))

    tid16 : tid < 65536
    tid16 =
        let (t, at, is) = tid_of_at V m ti tid here in subst (λ x. x < 65536) is (g.tids ti t at)

    -- An answer that adds or deletes leaves the tunnels' ids and a list of sessions.
    done-Carries :
        (change : Bool → Bool → Bool) (is_add : Bool) (m' : Main V) (calls : List VnetCall)
        (es' : Sessions)
        → session_add_del V m ti sid peer_sid 0 0 is_add hi ≡ some (ok (m', calls))
        → Represents V m' es'
        → ((k : session_keys.Key)
            → (ltb (k.0) 65536
                && (ltb (k.1) 65536 && is_some (by_key (session_key (k.0) (k.1)) es')))
              ≡ change (session_keys.is_key (tid, sid) k) (
                  ltb (k.0) 65536
                  && (ltb (k.1) 65536 && is_some (by_key (session_key (k.0) (k.1)) es))))
        → Carries change (m', c)
    unfolding session_add_del
    done-Carries change is_add m' calls es' e r by = (
      session_call-IsGood V m m' es ti sid peer_sid 0 0 is_add hi calls g sid16 unused e,
      subst (HasTids m) e (session_on-HasTids m ti sid peer_sid is_add hi _ refl),
      λ k.
          carries_by V m' c es' k r
          ∙ by k
          ∙ ap (change (session_keys.is_key (tid, sid) k))
              (sym (carries_by V m c es k g.represents)),
    )

    -- Whether a session of these ids is there.
    carries_here :
        (o : Option ℕ)
        → by_key (session_key tid sid) es ≡ o
        → (k : session_keys.Key) → session_keys.is_key (tid, sid) k ≡ true
        → carries V (m, c) k ≡ is_some o
    carries_here o e k same =
        let is : (tid, sid) ≡ k = (session_keys.is_key_iff (tid, sid) k).0 same in
        let at : carries V (m, c) (tid, sid) ≡ is_some o =
          carries_by V m c es (tid, sid) g.represents ∙ ground (arith, e, tid16, sid16) in
        subst (λ j. carries V (m, c) j ≡ is_some o) is at

    pub session_add-Carries :
        Carries
          (λ same old. same || old)
          (after_session V (m, c) (session_add_del V m ti sid peer_sid 0 0 true hi))
    session_add-Carries =
        let done =
          session_add_del-Refines V m es ti sid peer_sid 0 0 true hi g.represents g.unique g.words
            g.tids sid16 unused in
        let (t, at, is) = tid_of_at V m ti tid here in
        let refined =
          subst (λ o. Refines V m es ti sid peer_sid 0 0 hi o true done.value) at done.holds in
        rw done.returns (go t is done.value done.returns refined)
      where
        go :
            (t : Tunnel V.Address)
            → t.local_tid ≡ tid
            → (r : Result (Main V × List VnetCall))
            → session_add_del V m ti sid peer_sid 0 0 true hi ≡ some r
            → Refines V m es ti sid peer_sid 0 0 hi (some t) true r
            → Carries (λ same old. same || old) (after_session V (m, c) (some r))
        go t is (err x) e (_, taken) = (
          (es, g),
          (λ j. refl),
          λ k. elim (Bool-cases (session_keys.is_key (tid, sid) k)) [
            | inr other ↦ rw other refl
            | inl same ↦ elim (Option-cases (by_key (session_key tid sid) es)) [
              | inl nothing ↦ absurd (taken (rw is nothing))
              | inr (i, found) ↦ ground (arith, same, carries_here (some i) found k same)
            ]
          ],
        )
        go t is (ok (m', calls)) e (free, r) =
            done-Carries (λ same old. same || old) true m' calls _ e r
              (λ k. rw is (ground (arith, key_test tid sid k tid16 sid16)))

    pub session_del-Carries :
        Carries
          (λ same old. not same && old)
          (after_session V (m, c) (session_add_del V m ti sid peer_sid 0 0 false hi))
    session_del-Carries =
        let done =
          session_add_del-Refines V m es ti sid peer_sid 0 0 false hi g.represents g.unique g.words
            g.tids sid16 unused in
        let (t, at, is) = tid_of_at V m ti tid here in
        let refined =
          subst (λ o. Refines V m es ti sid peer_sid 0 0 hi o false done.value) at done.holds in
        rw done.returns (go t is done.value done.returns refined)
      where
        go :
            (t : Tunnel V.Address)
            → t.local_tid ≡ tid
            → (r : Result (Main V × List VnetCall))
            → session_add_del V m ti sid peer_sid 0 0 false hi ≡ some r
            → Refines V m es ti sid peer_sid 0 0 hi (some t) false r
            → Carries (λ same old. not same && old) (after_session V (m, c) (some r))
        go t is (err x) e (_, gone) = (
          (es, g),
          (λ j. refl),
          λ k. elim (Bool-cases (session_keys.is_key (tid, sid) k)) [
            | inr other ↦ rw other refl
            | inl same ↦ ground (arith, same, carries_here none (rw (← is) gone) k same)
          ],
        )
        go t is (ok (m', calls)) e (i, found, r) =
            let (s, at, keyed) = by_index_of_key _ i es g.represents.distinct found in
            let keyed' : session_key s.local_tid s.local_sid ≡ session_key tid sid =
              rw (← is) keyed in
            done-Carries (λ same old. not same && old) false m' calls _ e r
              (λ k. ground (
                arith,
                key_test tid sid k tid16 sid16,
                by_key-without i s es (session_key (k.0) (k.1)) g.represents.distinct at,
                keyed',
              ))
