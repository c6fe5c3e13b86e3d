-- ===== src/Sync/OverRegistry/TunnelCalls.antt =====
-- The tunnel calls of syncd/l2tvppd.py on the registry.
use l2tvpp.Common.{
  ℕ, ◌<◌, ◌≡◌, ◌≢◌, refl, sym, ◌∙◌, subst, inl, inr, Bool-cases, true, false, ◌&&◌, Option, some,
  none, Option-cases, ltb, ◌==◌, if◌then◌else◌, arith,
}
use l2tvpp.Objects.{Tunnel, Session}
use l2tvpp.Header.{session_key}
use l2tvpp.Header.Worker.{session_key-injective}
use l2tvpp.Vpp.{Vpp}
use l2tvpp.Registry.{Main, Result, ok, err, tunnel_add_del}
use l2tvpp.Registry.Ghost.{Sessions, by_index, by_key, by_index_of_key}
use l2tvpp.Registry.Represents.{Represents}
use l2tvpp.Registry.Tunnels.{Outcome, tunnel_add_del-Outcome, count_of_none}
use l2tvpp.Registry.Counts.{count_of-le}
use l2tvpp.System.{IsFreshTid}
use l2tvpp.System.Good.{IsGood}
use l2tvpp.System.TunnelCalls.{tunnel_call-IsGood}
use l2tvpp.Encap.{EncapCache}
use l2tvpp.Sync.Dictionary.{is_some}
use l2tvpp.Sync.{session_keys}
use l2tvpp.Sync.OverRegistry.{IsOk, carries, tid_of, tid_at, added_tunnel, deleted_tunnel}

module _ (V : Vpp) where
  open V.tunnel_pool use {elt as tunnel_at}

  -- What the registry carries is in the list of sessions that it stands for.
  pub carries_by :
      (m : Main V) (c : EncapCache V.bihash) (es : Sessions) (k : session_keys.Key)
      → Represents V m es
      → carries V (m, c) k
        ≡ (ltb (k.0) 65536 && (ltb (k.1) 65536 && is_some (by_key (session_key (k.0) (k.1)) es)))
  carries_by m c es k r = rw (r.keys_are (session_key (k.0) (k.1))) refl

  pub tid_of_at :
      (m : Main V) (i tid : ℕ)
      → tid_of V (tunnel_at m.tunnels i) ≡ some tid
      → (t : Tunnel V.Address) × (tunnel_at m.tunnels i ≡ some t) × (t.local_tid ≡ tid)
  tid_of_at m i tid e = elim (Option-cases (tunnel_at m.tunnels i)) [
    | inl free ↦ absurd (ground (arith, free, e))
    | inr (t, at) ↦ (t, at, ground (arith, at, e))
  ]

  module _ (m : Main V) (c : EncapCache V.bihash) (es : Sessions) (g : IsGood V m es) where
    -- The tunnel of a session that the registry carries.
    carried_at :
        (i : ℕ) (k : session_keys.Key)
        → tid_at V (m, c) i ≡ some (k.0)
        → carries V (m, c) k ≡ true
        → (j : ℕ) × (s : Session) × (by_index j es ≡ some s) × (s.tunnel_index ≡ i)
    carried_at i k here carried = elim (Option-cases (by_key (session_key (k.0) (k.1)) es)) [
      | inl nothing ↦ absurd (ground (arith, carries_by m c es k g.represents, carried, nothing))
      | inr (j, found) ↦
          let (s, at, keyed) = by_index_of_key _ j es g.represents.distinct found in
          let (tid16, sid16) = g.words j s at in
          let ids : (ltb (k.0) 65536 ≡ true) × (ltb (k.1) 65536 ≡ true) = ground (arith, carried) in
          let (same, _, _) =
            session_key-injective s.local_tid s.local_sid (k.0) (k.1) tid16 sid16
              (ground (arith, ids.0)) (ground (arith, ids.1)) keyed in
          let (u, at_u, tid_u) = g.represents.tunnels_are j s at in
          let (t, at_t, tid_t) = tid_of_at m i (k.0) here in
          (j, s, at, g.unique s.tunnel_index i u t at_u at_t (tid_u ∙ same ∙ sym tid_t))
    ]

    pub added_tunnel-Kept :
        (local_ip peer_ip : V.Address) (local_port peer_port tid peer_tid : ℕ)
        → V.is_ip4 local_ip ≡ true
        → V.is_ip4 peer_ip ≡ true
        → tid < 65536
        → ((i : ℕ) → tid_at V (m, c) i ≢ some tid)
        → let made =
            added_tunnel V
              (m, c)
              (tunnel_add_del V m local_ip peer_ip local_port peer_port tid peer_tid true) in
          IsOk V (made.0)
          × ((i : ℕ) → tid_at V (made.0) i ≡ (if made.1 == i then some tid else tid_at V (m, c) i))
          × (tid_at V (m, c) (made.1) ≡ none)
          × ((k : session_keys.Key) → carries V (made.0) k ≡ carries V (m, c) k)
    added_tunnel-Kept local_ip peer_ip local_port peer_port tid peer_tid near far tid16 new =
        elim (tunnel_add_del-Outcome V m es g.represents local_ip peer_ip local_port peer_port tid
          peer_tid true (λ i. omega (arith, count_of-le V m es g.represents g.words i))) [
            | inr (other, _) ↦ absurd (ground (arith, near, far))
            | inl (_, o) ↦ go _ refl o
          ]
      where
        fresh : IsFreshTid V m tid
        fresh i t at same = new i (ground (arith, at, same))

        go :
            (r : Result (Main V × Option ℕ))
            → tunnel_add_del V m local_ip peer_ip local_port peer_port tid peer_tid true ≡ r
            → Outcome V m es g.represents local_ip peer_ip local_port peer_port tid peer_tid true r
            → let made = added_tunnel V (m, c) r in
              IsOk V (made.0)
              × ((i : ℕ)
                  → tid_at V (made.0) i ≡ (if made.1 == i then some tid else tid_at V (m, c) i))
              × (tid_at V (m, c) (made.1) ≡ none)
              × ((k : session_keys.Key) → carries V (made.0) k ≡ carries V (m, c) k)
        go (err x) e (_, (i, t, named)) = absurd (fresh i t (named.0) (named.1))
        go (ok (m', none)) e o = absurd o
        go (ok (m', some i)) e (absent, free, after, _, r) = (
          (
            es,
            tunnel_call-IsGood V m m' es g local_ip peer_ip local_port peer_port tid peer_tid tid16
                true (some i) (λ _. fresh) e,
          ),
          (λ j. elim (Bool-cases (i == j)) [
            | inl here ↦ ground (arith, after j)
            | inr other ↦ ground (arith, after j)
          ]),
          rw free refl,
          λ k. carries_by m' c es k r ∙ sym (carries_by m c es k g.represents),
        )

    pub deleted_tunnel-Kept :
        (local_ip peer_ip : V.Address) (local_port peer_port tid : ℕ)
        → let st' =
            deleted_tunnel V
              (m, c)
              (tunnel_add_del V m local_ip peer_ip local_port peer_port tid 0 false) in
          IsOk V st'
          × ((i : ℕ) (k : session_keys.Key)
              → tid_at V (m, c) i ≡ some (k.0)
              → carries V (m, c) k ≡ true
              → tid_at V st' i ≡ some (k.0))
          × ((k : session_keys.Key) → carries V st' k ≡ carries V (m, c) k)
    deleted_tunnel-Kept local_ip peer_ip local_port peer_port tid =
        elim (tunnel_add_del-Outcome V m es g.represents local_ip peer_ip local_port peer_port tid 0
          false (λ i. omega (arith, count_of-le V m es g.represents g.words i))) [
            | inr (_, failed) ↦ rw failed ((es, g), (λ i k here carried. here), λ k. refl)
            | inl (_, o) ↦ go _ refl o
          ]
      where
        go :
            (r : Result (Main V × Option ℕ))
            → tunnel_add_del V m local_ip peer_ip local_port peer_port tid 0 false ≡ r
            → Outcome V m es g.represents local_ip peer_ip local_port peer_port tid 0 false r
            → let st' = deleted_tunnel V (m, c) r in
              IsOk V st'
              × ((i : ℕ) (k : session_keys.Key)
                  → tid_at V (m, c) i ≡ some (k.0)
                  → carries V (m, c) k ≡ true
                  → tid_at V st' i ≡ some (k.0))
              × ((k : session_keys.Key) → carries V st' k ≡ carries V (m, c) k)
        go (err x) e o = ((es, g), (λ i k here carried. here), λ k. refl)
        go (ok (m', some i)) e o = absurd o
        go (ok (m', none)) e (i, t, named, none_in, after, r) =
            let small : tid < 65536 = subst (λ x. x < 65536) (named.1) (g.tids i t (named.0)) in
            (
              (
                es,
                tunnel_call-IsGood V m m' es g local_ip peer_ip local_port peer_port tid 0 small
                    false none (λ no_add. absurd (ground arith)) e,
              ),
              (λ j k here carried.
                  let (l, s, at, on) = carried_at j k here carried in
                  elim (Bool-cases (i == j)) [
                    | inl gone ↦
                        absurd (count_of_none i l s es none_in at (ground (arith, on, gone)))
                    | inr stays ↦ ground (arith, after j, here)
                  ]),
              λ k. carries_by m' c es k r ∙ sym (carries_by m c es k g.represents),
            )
