-- ===== src/Sync/Carried/Steps.antt =====
-- The steps of a pass of syncd/l2tvppd.py keep the record and the plugin in step.
use l2tvpp.Common.{
  ℕ, ◌<◌, ◌≡◌, ◌≢◌, refl, sym, ap, ◌∙◌, subst, inl, inr, Bool, Bool-cases, true, false, ◌||◌,
  Option, some, none, List, [], ◌∷◌, ◌==◌, if◌then◌else◌, if_cases, arith,
}
use l2tvpp.Sync.Dictionary.{Dict, lookup, has, put, Once, AllOf, lookup-put, drop_key-Once}
use l2tvpp.Sync.{
  Host, session_keys, tunnel_keys, KernelSession, tunnel_key, session_key, Plugin, Installed,
  is_same_set, minus, routes_of, record_of, ip_or, port_or, make_tunnel, ensure_tunnel, route_all,
  add_on, add_session, sync_routes, mirror, mirror_all, del_session, remove_all, prune,
  prune_tunnels, is_number,
}
use l2tvpp.Sync.Mirror.{Passes, Ends, Ends-after}
use l2tvpp.Sync.Laws.{Laws}
use l2tvpp.Sync.Carried.{InSync, IsSame, keep-InSync, put-InSync, drop_key-InSync}

module _ {Ip Prefix : Type 0} (H : Host Ip Prefix) (P : Plugin H) (L : Laws H P)
    (fallback_ip : Option Ip) (fallback_port : ℕ) where
  open L use {IsOk, carries, tid_at}

  route_all-IsSame :
      (ps : List Prefix) (st : P.State) (is_add : Bool) (sw : ℕ)
      → IsOk st
      → IsSame H P L st (route_all H P fallback_ip fallback_port st is_add sw ps)
  unfolding route_all
  route_all-IsSame [] st is_add sw ok = (ok, (λ j. refl), λ k. refl)
  route_all-IsSame (p ∷ ps) st is_add sw ok =
      let (ok1, at1, carries1) = L.route_ok st is_add p sw ok in
      let (ok2, at2, carries2) = route_all-IsSame ps _ is_add sw ok1 in
      (ok2, (λ j. at2 j ∙ at1 j), λ k. carries2 k ∙ carries1 k)

  module _ (peer : ℕ → Ip × ℕ) where
    -- The key of a tunnel by its local id.
    abbrev pub key_at : ℕ → (tunnel_keys H).Key
    key_at tid = ((peer tid).0, ((peer tid).1, tid))

    -- The tunnels that a pass knows are those of the plugin.
    abbrev pub IsKnown : P.State → Dict (tunnel_keys H) ℕ → Type 0
    IsKnown st cache =
        ((tid i : ℕ) → lookup (tunnel_keys H) (key_at tid) cache ≡ some i → tid_at st i ≡ some tid)
        × ((tid i : ℕ) → tid_at st i ≡ some tid → has (tunnel_keys H) (key_at tid) cache ≡ true)

    -- A wanted session is under its own key, its ids have 16 bits, its tunnel ends at the peer of its id,
    -- and the plugin takes both addresses.
    abbrev pub IsReady : session_keys.Key → KernelSession H → Type 0
    IsReady key s =
        (key ≡ session_key H s)
        × (s.local_tid < 65536)
        × (s.local_sid < 65536)
        × (tunnel_key H s ≡ key_at s.local_tid)
        × L.IsUsable s.peer_ip
        × (ip : Ip) × (ip_or H P fallback_ip fallback_port s.local_ip fallback_ip ≡ some ip)
        × L.IsUsable ip

    abbrev pub IsGood : Passes H P fallback_ip fallback_port → Type 0
    IsGood p = InSync H P L p.plugin p.installed × IsKnown p.plugin p.cache

    same-IsKnown :
        (st st' : P.State) (cache : Dict (tunnel_keys H) ℕ)
        → ((j : ℕ) → tid_at st' j ≡ tid_at st j)
        → IsKnown st cache
        → IsKnown st' cache
    same-IsKnown st st' cache same (names, all) =
        ((λ tid i e. same i ∙ names tid i e), λ tid i e. all tid i (sym (same i) ∙ e))

    -- A new tunnel at a free index leaves the others.
    stays_at :
        (st st' : P.State) (tid i : ℕ)
        → ((j : ℕ) → tid_at st' j ≡ (if i == j then some tid else tid_at st j))
        → tid_at st i ≡ none
        → (j t : ℕ) → tid_at st j ≡ some t
        → tid_at st' j ≡ some t
    stays_at st st' tid i at free j t old = elim (Bool-cases (i == j)) [
      | inl here ↦
          let i_j : i ≡ j = ground arith in
          let taken : tid_at st i ≡ some t = rw i_j old in absurd (ground (arith, free, taken))
      | inr other ↦ ground (arith, at j, old)
    ]

    -- A new tunnel, under the key of its id.
    put-IsKnown :
        (st st' : P.State) (cache : Dict (tunnel_keys H) ℕ) (tid i : ℕ)
        → ((j : ℕ) → tid_at st' j ≡ (if i == j then some tid else tid_at st j))
        → tid_at st i ≡ none
        → IsKnown st cache
        → IsKnown st' (put (tunnel_keys H) (key_at tid) i cache)
    put-IsKnown st st' cache tid i at free (names, all) = (
      (λ t j found. elim (Bool-cases ((tunnel_keys H).is_key (key_at tid) (key_at t))) [
        | inl here ↦
            let tid_t : tid ≡ t =
              ap (λ x. x.1.1) (((tunnel_keys H).is_key_iff (key_at tid) (key_at t)).0 here) in
            let i_j : i ≡ j =
              ground
                (arith, lookup-put (tunnel_keys H) cache (key_at tid) (key_at t) i, found, here) in
            ground (arith, at j)
        | inr other ↦
            let old : tid_at st j ≡ some t = names t j (
              ground (
                arith,
                lookup-put (tunnel_keys H) cache (key_at tid) (key_at t) i,
                found,
                other,
              )) in
            stays_at st st' tid i at free j t old
      ]),
      λ t j found. elim (Bool-cases (i == j)) [
        | inl here ↦
            let tid_t : tid ≡ t = ground (arith, at j, found) in
            let is : (tunnel_keys H).is_key (key_at tid) (key_at t) ≡ true =
              ((tunnel_keys H).is_key_iff (key_at tid) (key_at t)).1 (ap key_at tid_t) in
            ground (arith, lookup-put (tunnel_keys H) cache (key_at tid) (key_at t) i, is)
        | inr other ↦
            let old : has (tunnel_keys H) (key_at t) cache ≡ true =
              all t j (ground (arith, at j, found)) in
            ground (arith, lookup-put (tunnel_keys H) cache (key_at tid) (key_at t) i, old)
      ],
    )

    make_tunnel-IsGood :
        (key : session_keys.Key) (s : KernelSession H) (p : Passes H P fallback_ip fallback_port)
        → IsReady key s
        → IsGood p
        → lookup (tunnel_keys H) (tunnel_key H s) p.cache ≡ none
        → Ends H P fallback_ip fallback_port
            (make_tunnel H P fallback_ip fallback_port s p
              (ip_or H P fallback_ip fallback_port s.local_ip fallback_ip))
            λ i p'. IsGood p' × (tid_at p'.plugin i ≡ some s.local_tid)
    unfolding make_tunnel
    make_tunnel-IsGood key s p (_, tid16, sid16, own, far, ip, e, near) (sync, known) missing =
        let none_at : lookup (tunnel_keys H) (key_at s.local_tid) p.cache ≡ none =
          rw (← own) missing in
        let new : (i : ℕ) → tid_at p.plugin i ≢ some s.local_tid =
          λ i there. ground (arith, (known.1) s.local_tid i there, none_at) in
        let port = port_or H P fallback_ip fallback_port s.local_port fallback_port in
        let (ok, at, free, same) =
          L.tunnel_add_ok p.plugin ip s.peer_ip port s.peer_port s.local_tid s.peer_tid (sync.0)
            near far tid16 new in
        let made : P.State × ℕ =
          P.tunnel_add p.plugin ip s.peer_ip port s.peer_port s.local_tid s.peer_tid in
        let known' = put-IsKnown p.plugin (made.0) p.cache s.local_tid (made.1) at free known in
        rw (make_tunnel, e)
          (
            (
              keep-InSync H P L p.plugin _ p.installed ok same
                  (λ j k here carried.
                    stays_at p.plugin (made.0) s.local_tid (made.1) at free j (k.0) here)
                  sync,
              subst (λ c. IsKnown (made.0) (put (tunnel_keys H) c (made.1) p.cache)) (sym own)
                  known',
            ),
            ground (arith, at (made.1)),
          )

    ensure_tunnel-IsGood :
        (key : session_keys.Key) (s : KernelSession H) (p : Passes H P fallback_ip fallback_port)
        (found : Option ℕ)
        → lookup (tunnel_keys H) (tunnel_key H s) p.cache ≡ found
        → IsReady key s
        → IsGood p
        → Ends H P fallback_ip fallback_port
            (ensure_tunnel H P fallback_ip fallback_port s p)
            λ i p'. IsGood p' × (tid_at p'.plugin i ≡ some s.local_tid)
    unfolding ensure_tunnel
    ensure_tunnel-IsGood key s p none missing ready good =
        rw (ensure_tunnel, missing) (make_tunnel-IsGood key s p ready good missing)
    ensure_tunnel-IsGood key s p (some i) there ready good =
        rw (ensure_tunnel, there) (good, (good.1.0) s.local_tid i (rw (← ready.3) there))

    add_on-IsGood :
        (key : session_keys.Key) (s : KernelSession H) (i : ℕ)
        (p : Passes H P fallback_ip fallback_port)
        → IsReady key s
        → IsGood p
        → tid_at p.plugin i ≡ some s.local_tid
        → Ends H P fallback_ip fallback_port
            (add_on H P fallback_ip fallback_port s i p)
            (λ u. IsGood)
    unfolding add_on
    add_on-IsGood key s i p ready (sync, known) here =
        let sid16 : s.local_sid < 65536 = ready.2 in
        let (ok, at, gains) =
          L.session_add_ok p.plugin i s.local_tid s.local_sid s.peer_sid (sync.0) here sid16 in
        let made : P.State × ℕ = P.session_add p.plugin i s.local_sid s.peer_sid in
        let (ok', at', same) = route_all-IsSame (routes_of H s) (made.0) true (made.1) ok in
        let st' : P.State =
          route_all H P fallback_ip fallback_port (made.0) true (made.1) (routes_of H s) in
        (
          put-InSync H P L p.plugin st' p.installed (session_key H s) (record_of H s (made.1) i) ok'
              (λ j. at' j ∙ at j) (λ k. same k ∙ gains k) (here, refl, sid16) sync,
          same-IsKnown p.plugin st' p.cache (λ j. at' j ∙ at j) known,
        )

    again_InSync :
        (st : P.State) (d : Dict session_keys (Installed H)) (key : session_keys.Key)
        (rec : Installed H) (k : session_keys.Key)
        → InSync H P L st d
        → lookup session_keys key d ≡ some rec
        → carries st k ≡ session_keys.is_key key k || carries st k
    again_InSync st d key rec k (_, all, _) there = elim (Bool-cases (session_keys.is_key key k)) [
      | inl here ↦
          let key_k : key ≡ k = (session_keys.is_key_iff key k).0 here in
          let there_k : lookup session_keys k d ≡ some rec = rw (← key_k) there in
          rw here (ground (arith, all k, there_k))
      | inr other ↦ rw other refl
    ]

    sync_routes-IsGood :
        (key : session_keys.Key) (s : KernelSession H) (rec : Installed H)
        (p : Passes H P fallback_ip fallback_port)
        → IsReady key s
        → IsGood p
        → lookup session_keys key p.installed ≡ some rec
        → IsGood (sync_routes H P fallback_ip fallback_port s rec p)
    unfolding sync_routes
    sync_routes-IsGood key s rec p ready (sync, known) there =
        let gained = H.set_order (minus H (routes_of H s) rec.installed_routes) in
        let lost = H.set_order (minus H rec.installed_routes (routes_of H s)) in
        let (ok, at, same) = route_all-IsSame gained p.plugin true rec.sw_if_index (sync.0) in
        let (ok', at', same') = route_all-IsSame lost _ false rec.sw_if_index ok in
        let there_s : lookup session_keys (session_key H s) p.installed ≡ some rec =
          rw (← ready.0) there in
        (
          if_cases (InSync H P L _) (is_same_set H rec.installed_routes (routes_of H s))
              (λ _.
                keep-InSync H P L p.plugin _ p.installed ok' (λ k. same' k ∙ same k)
                  (λ j k here _. at' j ∙ at j ∙ here) sync)
              (λ _.
                put-InSync H P L p.plugin _ p.installed (session_key H s)
                  (record rec { installed_routes = H.sorted (routes_of H s) }) ok'
                  (λ j. at' j ∙ at j)
                  (λ k.
                    same' k
                    ∙ same k
                    ∙ again_InSync p.plugin p.installed (session_key H s) rec k sync there_s)
                  ((sync.2) (session_key H s) rec there_s) sync),
          same-IsKnown p.plugin _ p.cache (λ j. at' j ∙ at j) known,
        )

    mirror-IsGood :
        (sync : Bool) (key : session_keys.Key) (s : KernelSession H)
        (p : Passes H P fallback_ip fallback_port) (found : Option (Installed H))
        → lookup session_keys key p.installed ≡ found
        → IsReady key s
        → IsGood p
        → Ends H P fallback_ip fallback_port
            (mirror H P fallback_ip fallback_port sync s p found)
            (λ u. IsGood)
    unfolding mirror add_session
    mirror-IsGood sync key s p none e ready good =
        Ends-after H P fallback_ip fallback_port (λ u. IsGood)
          (ensure_tunnel H P fallback_ip fallback_port s p) _
          (ensure_tunnel-IsGood key s p _ refl ready good)
          λ i p1 (good1, at). add_on-IsGood key s i p1 ready good1 at
    mirror-IsGood true key s p (some rec) e ready good = sync_routes-IsGood key s rec p ready good e
    mirror-IsGood false key s p (some rec) e ready good = good

    pub mirror_all-IsGood :
        (sync : Bool) (want : Dict session_keys (KernelSession H))
        (p : Passes H P fallback_ip fallback_port)
        → AllOf session_keys IsReady want
        → IsGood p
        → Ends H P fallback_ip fallback_port
            (mirror_all H P fallback_ip fallback_port sync want p)
            (λ u. IsGood)
    unfolding mirror_all
    mirror_all-IsGood sync [] p all good = good
    mirror_all-IsGood sync ((key, s) ∷ want) p (ready, all) good =
        Ends-after H P fallback_ip fallback_port (λ u. IsGood)
          (mirror H P fallback_ip fallback_port sync s p (lookup session_keys key p.installed)) _
          (mirror-IsGood sync key s p _ refl ready good)
          λ u p1 good1. mirror_all-IsGood sync want p1 all good1

  module _ (want : Dict session_keys (KernelSession H)) where
    abbrev pub IsMirrored : Passes H P fallback_ip fallback_port → Type 0
    IsMirrored p = InSync H P L p.plugin p.installed × Once session_keys p.installed

    del_session-IsMirrored :
        (key : session_keys.Key) (p : Passes H P fallback_ip fallback_port)
        (found : Option (Installed H))
        → lookup session_keys key p.installed ≡ found
        → IsMirrored p
        → IsMirrored (del_session H P fallback_ip fallback_port key p found)
    unfolding del_session
    del_session-IsMirrored key p none e mirrored = mirrored
    del_session-IsMirrored key p (some rec) e (sync, once) =
        let (at, is, fits) = (sync.2) key rec e in
        let (ok, at', same) =
          route_all-IsSame rec.installed_routes p.plugin false rec.sw_if_index (sync.0) in
        let fits' : rec.local_sid < 65536 = rw is fits in
        let (ok', at'', loses) =
          L.session_del_ok _ rec.tunnel_index (key.0) rec.local_sid rec.peer_sid ok
            (at' rec.tunnel_index ∙ at) fits' in
        (
          drop_key-InSync H P L p.plugin _ p.installed key ok' (λ j. at'' j ∙ at' j)
              (λ k. loses k ∙ ground (arith, same k, is)) once sync,
          drop_key-Once session_keys p.installed key once,
        )

    pub remove_all-IsMirrored :
        (ks : List session_keys.Key) (p : Passes H P fallback_ip fallback_port)
        → IsMirrored p
        → IsMirrored (remove_all H P fallback_ip fallback_port want ks p)
    unfolding remove_all
    remove_all-IsMirrored [] p mirrored = mirrored
    remove_all-IsMirrored (key ∷ ks) p mirrored = remove_all-IsMirrored ks _ (
        if_cases IsMirrored (has session_keys key want) (λ _. mirrored)
          (λ _. del_session-IsMirrored key p _ refl mirrored))

  prune-InSync :
      (cache : Dict (tunnel_keys H) ℕ) (st : P.State) (live : List ℕ)
      (d : Dict session_keys (Installed H))
      → InSync H P L st d
      → InSync H P L (prune H P fallback_ip fallback_port st live cache) d
  unfolding prune
  prune-InSync [] st live d sync = sync
  prune-InSync ((key, i) ∷ cache) st live d sync =
      let (ok, stay, same) = L.tunnel_del_ok st fallback_ip fallback_port key (sync.0) in
      prune-InSync cache _ live d (
        if_cases (λ x. InSync H P L x d) (is_number i live) (λ _. sync)
          (λ _. keep-InSync H P L st _ d ok same stay sync))

  pub prune_tunnels-InSync :
      (p : Passes H P fallback_ip fallback_port)
      → InSync H P L p.plugin p.installed
      → let p' = prune_tunnels H P fallback_ip fallback_port p in
        InSync H P L p'.plugin p'.installed
  unfolding prune_tunnels
  prune_tunnels-InSync p sync =
      if_cases (λ (q : Passes H P fallback_ip fallback_port). InSync H P L q.plugin q.installed)
        (p.removed == 0) (λ _. sync) (λ _. prune-InSync _ p.plugin _ p.installed sync)
