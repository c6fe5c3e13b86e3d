-- ===== src/Sync/Mirror.antt =====
-- What a pass of the daemon leaves in its record.
use l2tvpp.Common.{
  ℕ, ◌≡◌, refl, sym, ap, ◌∙◌, inl, inr, Bool, Bool-cases, true, false, Option, some, none, List, [],
  ◌∷◌, arith,
}
use l2tvpp.Sync.Dictionary.{Dict, lookup, put, Once, AllOf, lookup-put, put-Once, is_key_refl}
use l2tvpp.Sync.{
  Host, session_keys, tunnel_keys, KernelSession, tunnel_key, session_key, Plugin, Installed,
  is_among, minus, is_empty, is_same_set, routes_of, record_of, Pass, Ran, ended, raised, after,
  ip_or, make_tunnel, ensure_tunnel, add_on, add_session, sync_routes, mirror, mirror_all,
}

module _ {Ip Prefix : Type 0} (H : Host Ip Prefix) where
  open H use {is_prefix, is_prefix_iff}

  is_among-minus :
      (a b : List Prefix)
      → ((p : Prefix) → is_among H p a ≡ true → is_among H p b ≡ true)
      → minus H a b ≡ []
  is_among-minus [] b h = refl
  is_among-minus (p ∷ a) b h =
      let here : is_among H p b ≡ true = h p (rw ((is_prefix_iff p p).1 refl) refl) in
      rw here (is_among-minus a b (λ q e. h q (ground (arith, e))))

  -- Two lists with the same members.
  is_same_set_members :
      (a b : List Prefix)
      → ((p : Prefix) → is_among H p a ≡ is_among H p b)
      → is_same_set H a b ≡ true
  is_same_set_members a b h =
      rw (is_among-minus a b (λ p e. sym (h p) ∙ e), is_among-minus b a (λ p e. h p ∙ e)) refl

  pub empty_list : (a : List Prefix) → is_empty H a ≡ true → a ≡ []
  empty_list [] e = refl
  empty_list (p ∷ a) e = absurd (ground arith)

  -- A set without members is iterated over nothing.
  pub set_order_empty : H.set_order [] ≡ []
  set_order_empty = none_in (H.set_order []) (λ p. H.set_order_members p [])
    where
      none_in : (a : List Prefix) → ((p : Prefix) → is_among H p a ≡ false) → a ≡ []
      none_in [] h = refl
      none_in (p ∷ a) h =
          let self : is_prefix p p ≡ true = (is_prefix_iff p p).1 refl in
          absurd (ground (arith, h p))

  module _ (P : Plugin H) (fallback_ip : Option Ip) (fallback_port : ℕ) where
    abbrev pub Passes : Type 0
    Passes = Pass H P fallback_ip fallback_port

    -- The step ends, and its result satisfies `Q`.
    abbrev pub Ends :
        {A : Type 0} → Ran H P fallback_ip fallback_port A → (A → Passes → Type 0) → Type 0
    Ends (ended a p) Q = Q a p
    Ends (raised p) Q = ⊥

    pub Ends-after :
        {A B : Type 0} {Q : A → Passes → Type 0} (R : B → Passes → Type 0)
        (r : Ran H P fallback_ip fallback_port A)
        (k : A → Passes → Ran H P fallback_ip fallback_port B)
        → Ends r Q
        → ((a : A) (p : Passes) → Q a p → Ends (k a p) R)
        → Ends (after H P fallback_ip fallback_port r k) R
    Ends-after R (ended a p) k h next = next a p h
    Ends-after R (raised p) k h next = absurd h

    pub Ends-weaken :
        {A : Type 0} {Q R : A → Passes → Type 0} (r : Ran H P fallback_ip fallback_port A)
        → Ends r Q
        → ((a : A) (p : Passes) → Q a p → R a p)
        → Ends r R
    Ends-weaken (ended a p) h next = next a p h
    Ends-weaken (raised p) h next = h

    -- An entry of the wanted sessions: under its own key, with a local address for its tunnel.
    abbrev pub IsWanted : session_keys.Key → KernelSession H → Type 0
    IsWanted key s =
        (key ≡ session_key H s)
        × (ip : Ip) × (ip_or H P fallback_ip fallback_port s.local_ip fallback_ip ≡ some ip)

    -- What the record has for a session is of the same prefixes.
    abbrev pub IsSynced :
        Dict session_keys (Installed H) → session_keys.Key → KernelSession H → Type 0
    IsSynced d key s =
        (rec : Installed H) × (lookup session_keys key d ≡ some rec)
        × (is_same_set H rec.installed_routes (routes_of H s) ≡ true)

    ensure_tunnel-Ends :
        (key : session_keys.Key) (s : KernelSession H) (p : Passes)
        → IsWanted key s
        → Ends
            (ensure_tunnel H P fallback_ip fallback_port s p)
            λ i p'. (p'.installed ≡ p.installed) × (p'.removed ≡ p.removed)
    unfolding ensure_tunnel make_tunnel
    ensure_tunnel-Ends key s p (_, ip, e) =
        go (lookup (tunnel_keys H) (tunnel_key H s) p.cache) refl
      where
        go :
            (o : Option ℕ)
            → lookup (tunnel_keys H) (tunnel_key H s) p.cache ≡ o
            → Ends
                (ensure_tunnel H P fallback_ip fallback_port s p)
                λ i p'. (p'.installed ≡ p.installed) × (p'.removed ≡ p.removed)
        go none missing = rw (ensure_tunnel, missing, e) (refl, refl)
        go (some i) there = rw (ensure_tunnel, there) (refl, refl)

    -- What the mirroring of a session under a key leaves in the record.
    abbrev KeepsIn :
        Bool
        → session_keys.Key
        → KernelSession H
        → Passes
        → Dict session_keys (Installed H)
        → ℕ
        → Type 0
    KeepsIn sync key s p d r =
        Once session_keys d
        × (r ≡ p.removed)
        × ((k : session_keys.Key)
            → session_keys.is_key key k ≡ false
            → lookup session_keys k d ≡ lookup session_keys k p.installed)
        × ((rec : Installed H) × (lookup session_keys key d ≡ some rec)
            × (sync ≡ true → is_same_set H rec.installed_routes (routes_of H s) ≡ true))

    abbrev Keeps : Bool → session_keys.Key → KernelSession H → Passes → Passes → Type 0
    Keeps sync key s p p' = KeepsIn sync key s p p'.installed p'.removed

    put-Keeps :
        (sync : Bool) (key : session_keys.Key) (s : KernelSession H) (p : Passes)
        (rec : Installed H) (d : Dict session_keys (Installed H)) (r : ℕ)
        → Once session_keys p.installed
        → d ≡ put session_keys key rec p.installed
        → r ≡ p.removed
        → is_same_set H rec.installed_routes (routes_of H s) ≡ true
        → KeepsIn sync key s p d r
    put-Keeps sync key s p rec d r o is kept same = (
      rw is (put-Once session_keys p.installed key rec o),
      kept,
      (λ k other.
          ap (lookup session_keys k) is
          ∙ lookup-put session_keys p.installed key k rec
          ∙ rw other refl),
      (
        rec,
        ap (lookup session_keys key) is
            ∙ lookup-put session_keys p.installed key key rec
            ∙ rw (is_key_refl session_keys key) refl,
        λ _. same,
      ),
    )

    add_session-Keeps :
        (sync : Bool) (key : session_keys.Key) (s : KernelSession H) (p : Passes)
        → IsWanted key s
        → Once session_keys p.installed
        → Ends (add_session H P fallback_ip fallback_port s p) (λ u. Keeps sync key s p)
    unfolding add_session add_on
    add_session-Keeps sync key s p w o =
        Ends-after (λ u. Keeps sync key s p) (ensure_tunnel H P fallback_ip fallback_port s p) _
          (ensure_tunnel-Ends key s p w)
          λ i p1 (same, kept).
            put-Keeps sync key s p
              (record_of H s ((P.session_add p1.plugin i s.local_sid s.peer_sid).1) i) _ _ o
              (rw (same, w.0) refl) kept
              (is_same_set_members (routes_of H s) (routes_of H s) (λ q. refl))

    sync_routes-Keeps :
        (key : session_keys.Key) (s : KernelSession H) (p : Passes) (rec : Installed H)
        → key ≡ session_key H s
        → Once session_keys p.installed
        → lookup session_keys key p.installed ≡ some rec
        → Keeps true key s p (sync_routes H P fallback_ip fallback_port s rec p)
    unfolding sync_routes
    sync_routes-Keeps key s p rec is o there =
        elim (Bool-cases (is_same_set H rec.installed_routes (routes_of H s))) [
          | inl same ↦ rw same (o, refl, (λ k other. refl), (rec, there, λ _. same))
          | inr differs ↦ rw differs (
              put-Keeps true key s p (record rec { installed_routes = H.sorted (routes_of H s) }) _
                _ o (rw is refl) refl
                (is_same_set_members (H.sorted (routes_of H s)) (routes_of H s)
                  (λ q. H.sorted_members q (routes_of H s))))
        ]

    mirror-Keeps :
        (sync : Bool) (key : session_keys.Key) (s : KernelSession H) (p : Passes)
        (found : Option (Installed H))
        → IsWanted key s
        → Once session_keys p.installed
        → lookup session_keys key p.installed ≡ found
        → Ends (mirror H P fallback_ip fallback_port sync s p found) (λ u. Keeps sync key s p)
    unfolding mirror
    mirror-Keeps sync key s p none w o e = add_session-Keeps sync key s p w o
    mirror-Keeps true key s p (some rec) w o e = sync_routes-Keeps key s p rec (w.0) o e
    mirror-Keeps false key s p (some rec) w o e =
        (o, refl, (λ k other. refl), (rec, e, λ no_sync. absurd (ground arith)))

    -- What the loop over the wanted sessions leaves.
    abbrev pub Mirrors : Bool → Dict session_keys (KernelSession H) → Passes → Passes → Type 0
    Mirrors sync want p p' =
        Once session_keys p'.installed
        × (p'.removed ≡ p.removed)
        × ((k : session_keys.Key)
            → lookup session_keys k want ≡ none
            → lookup session_keys k p'.installed ≡ lookup session_keys k p.installed)
        × ((k : session_keys.Key) (s : KernelSession H)
            → lookup session_keys k want ≡ some s
            → (rec : Installed H) × (lookup session_keys k p'.installed ≡ some rec)
              × (sync ≡ true → is_same_set H rec.installed_routes (routes_of H s) ≡ true))

    Mirrors-cons :
        (sync : Bool) (key : session_keys.Key) (s : KernelSession H)
        (want : Dict session_keys (KernelSession H)) (p p1 p2 : Passes)
        → lookup session_keys key want ≡ none
        → Keeps sync key s p p1
        → Mirrors sync want p1 p2
        → Mirrors sync ((key, s) ∷ want) p p2
    Mirrors-cons sync key s want p p1 p2 new (_, r, other, mine) (o, r', gone, there) = (
      o,
      r' ∙ r,
      (λ k e. elim (Bool-cases (session_keys.is_key key k)) [
        | inl same ↦ absurd (ground (arith, e))
        | inr differs ↦ gone k (ground (arith, e)) ∙ other k differs
      ]),
      λ k t e. elim (Bool-cases (session_keys.is_key key k)) [
        | inl same ↦
            let key_k : key ≡ k = (session_keys.is_key_iff key k).0 same in
            let s_t : s ≡ t = ground (arith, e) in
            let (rec, at, synced) = mine in
            (rec, rw (← key_k) (gone key new ∙ at), rw (← s_t) synced)
        | inr differs ↦ there k t (ground (arith, e))
      ],
    )

    pub mirror_all-Mirrors :
        (sync : Bool) (want : Dict session_keys (KernelSession H)) (p : Passes)
        → AllOf session_keys IsWanted want
        → Once session_keys want
        → Once session_keys p.installed
        → Ends (mirror_all H P fallback_ip fallback_port sync want p) (λ u. Mirrors sync want p)
    unfolding mirror_all
    mirror_all-Mirrors sync [] p w once o = (o, refl, (λ k e. refl), λ k s e. absurd (ground arith))
    mirror_all-Mirrors sync ((key, s) ∷ want) p (here, w) (new, once) o =
        Ends-after (λ u. Mirrors sync ((key, s) ∷ want) p)
          (mirror H P fallback_ip fallback_port sync s p (lookup session_keys key p.installed)) _
          (mirror-Keeps sync key s p (lookup session_keys key p.installed) here o refl)
          λ u p1 kept.
            Ends-weaken (mirror_all H P fallback_ip fallback_port sync want p1)
              (mirror_all-Mirrors sync want p1 w once (kept.0))
              λ v p2 rest. Mirrors-cons sync key s want p p1 p2 new kept rest
