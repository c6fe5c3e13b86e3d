-- ===== src/Sync/Reconcile.antt =====
-- What `reconcile` of syncd/l2tvppd.py leaves, and what a second pass does.
use l2tvpp.Common.{
  ℕ, ◌≡◌, ◌⊎◌, refl, sym, ap, ◌∙◌, inl, inr, Bool, Bool-cases, true, false, not, ◌&&◌, ◌||◌, Option,
  some, none, Option-cases, List, [], ◌∷◌, ◌==◌, if◌then◌else◌, if_cases, arith,
}
use l2tvpp.Sync.Dictionary.{
  Dict, lookup, has, put, keys, is_in, is_some, Once, AllOf, AllOf-put, lookup-put, lookup-drop_key,
  put-Once, drop_key-Once, is_in-keys, is_key_refl,
}
use l2tvpp.Sync.{
  Host, session_keys, KernelSession, session_key, Plugin, Installed, is_same_set, routes_of, ip_or,
  mirror_all, del_session, remove_all, vpp_tunnels, wanted, prune_tunnels, reconcile,
}
use l2tvpp.Sync.Mirror.{Passes, Ends, Ends-after, IsWanted, Mirrors, mirror_all-Mirrors}

or_true : {A : Type 0} (b : Bool) (x : Option A) → (if b || true then x else none) ≡ x
or_true true x = refl
or_true false x = refl

module _ {Ip Prefix : Type 0} (H : Host Ip Prefix) (P : Plugin H) (fallback_ip : Option Ip)
    (fallback_port : ℕ) where
  module _ (want : Dict session_keys (KernelSession H)) where
    del_session-lookup :
        (key : session_keys.Key) (p : Passes H P fallback_ip fallback_port)
        (found : Option (Installed H))
        → lookup session_keys key p.installed ≡ found
        → Once session_keys p.installed
        → let p' = del_session H P fallback_ip fallback_port key p found in
          Once session_keys p'.installed
          × ((k : session_keys.Key)
              → lookup session_keys k p'.installed
                ≡ (if session_keys.is_key key k then none else lookup session_keys k p.installed))
    unfolding del_session
    del_session-lookup key p none e o = (
      o,
      λ k. elim (Bool-cases (session_keys.is_key key k)) [
        | inl same ↦
            let key_k : key ≡ k = (session_keys.is_key_iff key k).0 same in rw same (rw (← key_k) e)
        | inr other ↦ rw other refl
      ],
    )
    del_session-lookup key p (some rec) e o = (
      drop_key-Once session_keys p.installed key o,
      λ k. lookup-drop_key session_keys p.installed key k o,
    )

    has_same :
        (key k : session_keys.Key)
        → session_keys.is_key key k ≡ true
        → has session_keys key want ≡ has session_keys k want
    has_same key k same = ap (λ j. has session_keys j want) ((session_keys.is_key_iff key k).0 same)

    -- The loop over the keys of the record deletes those that are not wanted.
    remove_all-lookup :
        (ks : List session_keys.Key) (p : Passes H P fallback_ip fallback_port)
        → Once session_keys p.installed
        → let p' = remove_all H P fallback_ip fallback_port want ks p in
          Once session_keys p'.installed
          × ((k : session_keys.Key)
              → lookup session_keys k p'.installed ≡ (
                  if has session_keys k want || not (is_in session_keys k ks)
                  then lookup session_keys k p.installed
                  else none))
    unfolding remove_all del_session
    remove_all-lookup [] p o =
        (o, λ k. sym (or_true (has session_keys k want) (lookup session_keys k p.installed)))
    remove_all-lookup (key ∷ ks) p o =
        step (has session_keys key want) refl (λ q. remove_all-lookup ks q)
      where
        Later : Type 0
        Later =
            (q : Passes H P fallback_ip fallback_port)
            → Once session_keys q.installed
            → let q' = remove_all H P fallback_ip fallback_port want ks q in
              Once session_keys q'.installed
              × ((k : session_keys.Key)
                  → lookup session_keys k q'.installed ≡ (
                      if has session_keys k want || not (is_in session_keys k ks)
                      then lookup session_keys k q.installed
                      else none))

        step :
            (b : Bool)
            → has session_keys key want ≡ b
            → Later
            → let p' = remove_all H P fallback_ip fallback_port want (key ∷ ks) p in
              Once session_keys p'.installed
              × ((k : session_keys.Key)
                  → lookup session_keys k p'.installed ≡ (
                      if has session_keys k want || not (is_in session_keys k (key ∷ ks))
                      then lookup session_keys k p.installed
                      else none))
        step true is later =
            let (once, at) = later p o in
            rw (remove_all, is) (once, λ k. at k ∙ ground (arith, is, has_same key k))
        step false is later =
            let (o1, at1) = del_session-lookup key p (lookup session_keys key p.installed) refl o in
            let (once, at) = later _ o1 in
            rw (remove_all, is) (once, λ k. at k ∙ ground (arith, is, at1 k, has_same key k))

    -- With every key wanted it does nothing.
    pub remove_all_none :
        (ks : List session_keys.Key) (p : Passes H P fallback_ip fallback_port)
        → ((k : session_keys.Key) → is_in session_keys k ks ≡ true → has session_keys k want ≡ true)
        → remove_all H P fallback_ip fallback_port want ks p ≡ p
    unfolding remove_all
    remove_all_none [] p h = refl
    remove_all_none (key ∷ ks) p h =
        let here : has session_keys key want ≡ true =
          h key (rw (is_key_refl session_keys key) refl) in
        rw (remove_all, here) (remove_all_none ks p λ k e. h k (ground (arith, e)))

  -- A session with a netdev has a local address for its tunnel, its own or the fallback.
  abbrev pub HaveEndpoints : List (KernelSession H) → Type 0
  HaveEndpoints [] = Unit {0}
  HaveEndpoints (s ∷ rest) =
      ((is_some s.ifname ≡ false)
        ⊎ ((ip : Ip) × (ip_or H P fallback_ip fallback_port s.local_ip fallback_ip ≡ some ip)))
      × HaveEndpoints rest

  -- A session of the kernel with these ids has a netdev.
  abbrev pub is_listed : session_keys.Key → List (KernelSession H) → Bool
  is_listed k [] = false
  is_listed k (s ∷ rest) =
      (is_some s.ifname && session_keys.is_key (session_key H s) k) || is_listed k rest

  abbrev pub Wanted : session_keys.Key → KernelSession H → Type 0
  Wanted = IsWanted H P fallback_ip fallback_port

  local_ip_of :
      (s : KernelSession H)
      → is_some s.ifname ≡ true
      → (is_some s.ifname ≡ false)
        ⊎ ((ip : Ip) × (ip_or H P fallback_ip fallback_port s.local_ip fallback_ip ≡ some ip))
      → (ip : Ip) × (ip_or H P fallback_ip fallback_port s.local_ip fallback_ip ≡ some ip)
  local_ip_of s netdev (inl without) = absurd (ground arith)
  local_ip_of s netdev (inr found) = found

  pub wanted-has :
      (sessions : List (KernelSession H)) (d : Dict session_keys (KernelSession H))
      → HaveEndpoints sessions
      → AllOf session_keys Wanted d
      → Once session_keys d
      → let want = wanted H P fallback_ip fallback_port sessions d in
        AllOf session_keys Wanted want
        × Once session_keys want
        × ((k : session_keys.Key)
            → has session_keys k want ≡ is_listed k sessions || has session_keys k d)
  unfolding wanted
  wanted-has [] d e all once = (all, once, λ k. refl)
  wanted-has (s ∷ rest) d (e, es) all once = elim (Bool-cases (is_some s.ifname)) [
    | inl netdev ↦
        let (ip, at) = local_ip_of s netdev e in
        let (all', once', at') =
          wanted-has rest (put session_keys (session_key H s) s d) es
            (AllOf-put session_keys Wanted d (session_key H s) s (refl, ip, at) all)
            (put-Once session_keys d (session_key H s) s once) in
        rw (wanted, netdev)
          (
            all',
            once',
            λ k. at' k ∙ ground (arith, lookup-put session_keys d (session_key H s) k s),
          )
    | inr without ↦
        let (all', once', at') = wanted-has rest d es all once in
        rw (wanted, without) (all', once', λ k. at' k)
  ]

  module _ (sessions : List (KernelSession H)) (endpoints : HaveEndpoints sessions) where
    abbrev pub want_all : Dict session_keys (KernelSession H)
    want_all = wanted H P fallback_ip fallback_port sessions []

    -- What a pass leaves in the record.
    abbrev pub Leaves : Bool → Dict session_keys (Installed H) → Type 0
    Leaves sync d =
        Once session_keys d
        × ((k : session_keys.Key) → has session_keys k d ≡ is_listed k sessions)
        × ((k : session_keys.Key) (s : KernelSession H)
            → lookup session_keys k want_all ≡ some s
            → (rec : Installed H) × (lookup session_keys k d ≡ some rec)
              × (sync ≡ true → is_same_set H rec.installed_routes (routes_of H s) ≡ true))

    module _ (st : P.State) (installed : Dict session_keys (Installed H))
        (once : Once session_keys installed) where
      abbrev pub begin_at : Passes H P fallback_ip fallback_port
      begin_at = record {
        plugin = st;
        cache = vpp_tunnels H (P.tunnel_dump st) [];
        installed = installed;
        added = 0;
        removed = 0;
      }

      -- The end of the pass, after the loop over the wanted sessions.
      abbrev finished : Passes H P fallback_ip fallback_port → Passes H P fallback_ip fallback_port
      finished p =
          prune_tunnels H P fallback_ip fallback_port
            (remove_all H P fallback_ip fallback_port want_all (keys session_keys p.installed) p)

      prune_tunnels_installed :
          (p : Passes H P fallback_ip fallback_port)
          → (prune_tunnels H P fallback_ip fallback_port p).installed ≡ p.installed
      unfolding prune_tunnels
      prune_tunnels_installed p =
          if_cases (λ (q : Passes H P fallback_ip fallback_port). q.installed ≡ p.installed)
            (p.removed == 0) (λ _. refl) (λ _. refl)

      finished-Leaves :
          (sync : Bool) (p : Passes H P fallback_ip fallback_port)
          → Mirrors H P fallback_ip fallback_port sync want_all begin_at p
          → Leaves sync ((finished p).installed)
      finished-Leaves sync p (o, _, gone, there) =
          let (_, _, is_wanted) = wanted-has sessions [] endpoints tt tt in
          let (o', at) = remove_all-lookup want_all (keys session_keys p.installed) p o in
          rw
            (prune_tunnels_installed
              (remove_all H P fallback_ip fallback_port want_all (keys session_keys p.installed) p))
            (
              o',
              (λ k. elim (Option-cases (lookup session_keys k want_all)) [
                | inl no_one ↦
                    ground (arith, at k, is_in-keys session_keys p.installed k, is_wanted k, no_one)
                | inr (s, e) ↦
                    let (rec, found, _) = there k s e in ground (arith, at k, is_wanted k, e, found)
              ]),
              λ k s e.
                  let (rec, found, synced) = there k s e in
                  (rec, ground (arith, at k, e, found), synced),
            )

      pub reconcile-Leaves :
          (sync : Bool)
          → Ends H P fallback_ip fallback_port
              (reconcile H P fallback_ip fallback_port sessions sync st installed)
              λ u p. Leaves sync p.installed
      unfolding reconcile
      reconcile-Leaves sync =
          let (all, once', _) = wanted-has sessions [] endpoints tt tt in
          Ends-after H P fallback_ip fallback_port _
            (mirror_all H P fallback_ip fallback_port sync want_all begin_at) _
            (mirror_all-Mirrors H P fallback_ip fallback_port sync want_all begin_at all once' once)
            λ u p m. finished-Leaves sync p m
