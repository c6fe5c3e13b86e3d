-- ===== src/Rewrite/Update.antt =====
-- `l2tvpp_update_adj` on the list of sessions that the state stands for.
use l2tvpp.Common.{
  ℕ, ◌≡◌, ◌⊎◌, refl, sym, ◌∙◌, subst, true, false, Option, some, none, Option-cases, Bool-cases,
  inl, inr, List, [], ◌∷◌, ◌++◌, ◌==◌, if◌then◌else◌, arith, Returns, Returns-some,
}
use mathlib.Core.Option
use l2tvpp.Objects.{Tunnel, Session}
use l2tvpp.Vpp.{Vpp}
use l2tvpp.Registry.{Main, vec_at}
use l2tvpp.Registry.Ghost.{Sessions, key_of, by_index, by_key, by_interface, count_of, Distinct}
use l2tvpp.Registry.Represents.{Represents}
use l2tvpp.Rewrite.{
  Link, link_ip4, link_ip6, link_other, link_proto, Checksum, inner_headers, template,
  template_checksum, build_rewrite_i, AdjCall, update_rewrite, delegate_stack, install,
  update_session, update_interface, update_adj,
}

abbrev pub cached : ℕ → Session → Session
cached c s = record s { encap_ip_csum0 = c }

-- The list with a checksum cached in the session at an index.
abbrev pub caching : ℕ → ℕ → Sessions → Sessions
caching i c [] = []
caching i c ((j, s) ∷ es) = (j, if j == i then cached c s else s) ∷ caching i c es

module _ (i c : ℕ) where
  pub by_index-caching :
      (es : Sessions) (j : ℕ)
      → by_index j (caching i c es)
        ≡ (if i == j then Option.map (cached c) (by_index j es) else by_index j es)
  by_index-caching [] j = ground arith
  by_index-caching ((l, s) ∷ es) j = ground (arith, by_index-caching es j)

  by_key-caching : (es : Sessions) (k : ℕ) → by_key k (caching i c es) ≡ by_key k es
  by_key-caching [] k = refl
  by_key-caching ((l, s) ∷ es) k = ground (arith, by_key-caching es k)

  by_interface-caching :
      (es : Sessions) (sw : ℕ) → by_interface sw (caching i c es) ≡ by_interface sw es
  by_interface-caching [] sw = refl
  by_interface-caching ((l, s) ∷ es) sw = ground (arith, by_interface-caching es sw)

  count_of-caching : (es : Sessions) (ti : ℕ) → count_of ti (caching i c es) ≡ count_of ti es
  count_of-caching [] ti = refl
  count_of-caching ((l, s) ∷ es) ti = ground (arith, count_of-caching es ti)

  caching-Distinct : (es : Sessions) → Distinct es → Distinct (caching i c es)
  caching-Distinct [] d = tt
  caching-Distinct ((l, s) ∷ es) d = ground (
    arith,
    caching-Distinct es d.3,
    by_index-caching es l,
    by_key-caching es (key_of s),
    by_interface-caching es s.sw_if_index,
  )

module _ (V : Vpp) (C : Checksum) (ip4_bytes : V.Address → List ℕ) where
  open V.tunnel_pool use {elt as tunnel_at}
  open V.session_pool use {elt as session_at, elt-write as session_at-write}

  caching-Represents :
      (m : Main V) (es : Sessions) (i c : ℕ) (s : Session)
      → Represents V m es
      → by_index i es ≡ some s
      → Represents V
          (record m { sessions = V.session_pool.write m.sessions i (cached c s) })
          (caching i c es)
  caching-Represents m es i c s r at = record {
    sessions_are = λ j.
        session_at-write m.sessions i j (cached c s)
        ∙ ground (arith, r.sessions_are j, by_index-caching i c es j);
    keys_are = λ k. r.keys_are k ∙ sym (by_key-caching i c es k);
    interfaces_are = λ sw. r.interfaces_are sw ∙ sym (by_interface-caching i c es sw);
    counts_are = λ ti t e. ground (arith, r.counts_are ti t e, count_of-caching i c es ti);
    tunnels_are = λ j u e. tunnels_after j u e (Bool-cases (i == j)) (Option-cases (by_index j es));
    distinct = caching-Distinct i c es r.distinct;
  }
    where
      tunnels_after :
          (j : ℕ) (u : Session)
          → by_index j (caching i c es) ≡ some u
          → ((i == j) ≡ true) ⊎ ((i == j) ≡ false)
          → (by_index j es ≡ none) ⊎ ((w : Session) × (by_index j es ≡ some w))
          → (t : Tunnel V.Address) × (tunnel_at m.tunnels u.tunnel_index ≡ some t)
            × (t.local_tid ≡ u.local_tid)
      tunnels_after j u e b (inl missing) = absurd (ground (arith, by_index-caching i c es j))
      tunnels_after j u e (inl same) (inr (w, was)) =
          let (t, p, q) = r.tunnels_are j w was in
          let is : cached c w ≡ u = ground (arith, by_index-caching i c es j) in
          (t, ground (arith), ground (arith))
      tunnels_after j u e (inr other) (inr (w, was)) =
          r.tunnels_are j u (ground (arith, by_index-caching i c es j))

  by_index_of_interface :
      (sw i : ℕ) (es : Sessions)
      → Distinct es
      → by_interface sw es ≡ some i
      → (s : Session) × (by_index i es ≡ some s) × (s.sw_if_index ≡ sw)
  by_index_of_interface sw i [] d e = absurd (ground arith)
  by_index_of_interface sw i ((j, s) ∷ es) d e = elim (Bool-cases (s.sw_if_index == sw)) [
    | inl here ↦ (s, ground arith, ground arith)
    | inr there ↦
        let (u, p, q) = by_index_of_interface sw i es d.3 (ground arith) in
        (u, ground (arith, d.0), q)
  ]

  module _ (m : Main V) (es : Sessions) (r : Represents V m es) (ai : ℕ) (link : Link) where
    -- What the update of an adjacency leaves for a PPP protocol of the link type.
    abbrev pub Installs :
        ℕ → Session → Tunnel V.Address → Option ℕ → Main V × List (AdjCall V C ip4_bytes) → Type 0
    Installs si s t none (m', calls) = (m' ≡ m) × (calls ≡ [])
    Installs si s t (some proto) (m', calls) =
        Represents V m' (caching si (template_checksum V C ip4_bytes t) es)
        × (m'.tunnels ≡ m.tunnels)
        × (calls
            ≡ update_rewrite ai (V.session_pool.address m.sessions si) (
                template V C ip4_bytes t
                ++ inner_headers t.local_port t.peer_port 0 t.peer_tid s.peer_sid proto)
              ∷ delegate_stack ai t.encap_fib_index t.peer_ip
              ∷ [])

    -- The same on the session, if any, of an interface.
    abbrev pub Updates : ℕ → Option ℕ → Main V × List (AdjCall V C ip4_bytes) → Type 0
    Updates sw none (m', calls) = (m' ≡ m) × (calls ≡ [])
    Updates sw (some si) result =
        (s : Session) × (t : Tunnel V.Address) × (by_index si es ≡ some s)
        × (s.sw_if_index ≡ sw)
        × (tunnel_at m.tunnels s.tunnel_index ≡ some t)
        × Installs si s t (link_proto link) result

    install-Installs :
        (si : ℕ) (s : Session) (t : Tunnel V.Address) (l : Link)
        → by_index si es ≡ some s
        → Installs si s t
            (link_proto l)
            (install V C ip4_bytes m ai si t (build_rewrite_i V C ip4_bytes t s l))
    unfolding install build_rewrite_i
    install-Installs si s t link_ip4 at =
        (caching-Represents m es si (template_checksum V C ip4_bytes t) s r at, refl, refl)
    install-Installs si s t link_ip6 at =
        (caching-Represents m es si (template_checksum V C ip4_bytes t) s r at, refl, refl)
    install-Installs si s t link_other at = (refl, refl)

    pub update_adj-Updates :
        (sw : ℕ) → Returns (update_adj V C ip4_bytes m sw ai link) (Updates sw (by_interface sw es))
    unfolding update_adj update_interface update_session
    update_adj-Updates sw =
        subst (λ o. Returns (update_adj V C ip4_bytes m sw ai link) (Updates sw o))
          (r.interfaces_are sw) (on_interface (vec_at m.session_index_by_sw_if_index sw) refl)
      where
        on_session :
            (si : ℕ) (o : Option Session) (s : Session)
            → o ≡ some s
            → by_index si es ≡ some s
            → s.sw_if_index ≡ sw
            → Returns (update_session V C ip4_bytes m ai link si o) (Updates sw (some si))
        on_session si none s e at of = absurd (ground arith)
        on_session si (some s') s e at of =
            let same : s' ≡ s = cc in
            let (t, here, _) = r.tunnels_are si s' (rw same at) in
            rw here (
              Returns-some
                (s', t, rw same at, rw same of, here, install-Installs si s' t link (rw same at)))

        on_interface :
            (o : Option ℕ)
            → vec_at m.session_index_by_sw_if_index sw ≡ o
            → Returns (update_interface V C ip4_bytes m ai link o) (Updates sw o)
        on_interface none e = Returns-some (refl, refl)
        on_interface (some si) e =
            let (s, at, of) =
              by_index_of_interface sw si es r.distinct (sym (r.interfaces_are sw) ∙ e) in
            on_session si _ s (r.sessions_are si ∙ at) at of
