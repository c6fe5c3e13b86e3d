-- ===== src/Registry/Additions.antt =====
-- The addition of a session by `l2tvpp_session_add_del`, on the list of sessions.
use l2tvpp.Common.{
  ℕ, ◌+◌, ◌%◌, ◌^◌, ◌≡◌, refl, sym, ◌∙◌, Option, some, none, Bool-cases, inl, inr, ◌∷◌, ◌==◌,
  if◌then◌else◌, arith,
}
use l2tvpp.Objects.{Tunnel, Session}
use l2tvpp.Header.{session_key}
use l2tvpp.Vpp.{Vpp}
use l2tvpp.Registry.{Main, HwInterface, vec_at, new_session, session_add, session_add_at}
use l2tvpp.Registry.Ghost.{Sessions, key_of, by_index, by_key, by_interface, count_of}
use l2tvpp.Registry.Represents.{Represents, Adds, vec_at-vec_store, kept_tunnel}

module _ (V : Vpp) where
  open V.tunnel_pool use {elt as tunnel_at, elt-write as tunnel_at-write}
  open V.session_pool use {
    elt as session_at, elt-write as session_at-write, elt-free as session_at-free,
  }
  open V.session_pool use {next_index as next_session, next_index_free as next_session_free}
  open V.bihash use {search, search-add, search-remove}

  module _ (m : Main V) (es : Sessions) (r : Represents V m es) (ti : ℕ) (t : Tunnel V.Address)
      (here : tunnel_at m.tunnels ti ≡ some t) where
    -- The list with a session of the tunnel in front, in the state that an addition leaves.
    module _ (key i : ℕ) (s : Session) (m' : Main V) (of_tunnel : s.tunnel_index ≡ ti)
        (tid : s.local_tid ≡ t.local_tid) (keyed : key_of s ≡ key) (key_free : by_key key es ≡ none)
        (index_free : by_index i es ≡ none) (interface_free : by_interface s.sw_if_index es ≡ none)
        (sessions_after : (j : ℕ)
          → session_at m'.sessions j ≡ (if i == j then some s else session_at m.sessions j))
        (keys_after : (k : ℕ)
          → search m'.session_by_key k ≡ (if key == k then some i else search m.session_by_key k))
        (interfaces_after : (sw : ℕ)
          → vec_at m'.session_index_by_sw_if_index sw
            ≡ (if s.sw_if_index == sw then some i else vec_at m.session_index_by_sw_if_index sw))
        (tunnels_after : (j : ℕ)
          → tunnel_at m'.tunnels j ≡ (
              if ti == j
              then some (record t { n_sessions = (t.n_sessions + 1) % 2 ^ 32 })
              else tunnel_at m.tunnels j)) where
      added_counts :
          (tj : ℕ) (u : Tunnel V.Address)
          → tunnel_at m'.tunnels tj ≡ some u
          → u.n_sessions ≡ count_of tj ((i, s) ∷ es) % 2 ^ 32
      added_counts tj u e =
          ground (arith, tunnels_after tj, r.counts_are ti t here, r.counts_are tj u)

      added_tunnels :
          (j : ℕ) (u : Session)
          → by_index j ((i, s) ∷ es) ≡ some u
          → (w : Tunnel V.Address) × (tunnel_at m'.tunnels u.tunnel_index ≡ some w)
            × (w.local_tid ≡ u.local_tid)
      added_tunnels j u e = elim (Bool-cases (i == j)) [
        | inl new ↦ kept_tunnel V m ti t here m' _ u t tunnels_after (ground arith) (ground arith)
        | inr old ↦
            let (w, p, q) = r.tunnels_are j u (ground arith) in
            kept_tunnel V m ti t here m' _ u w tunnels_after p q
      ]

      added : Represents V m' ((i, s) ∷ es)
      added = record {
        sessions_are = λ j. ground (arith, sessions_after j, r.sessions_are j);
        keys_are = λ k. ground (arith, keys_after k, r.keys_are k);
        interfaces_are = λ sw. ground (arith, interfaces_after sw, r.interfaces_are sw);
        counts_are = added_counts;
        tunnels_are = added_tunnels;
        distinct = (index_free, ground arith, interface_free, r.distinct);
      }

    -- Adding a session to a tunnel fails if its key is taken, and otherwise puts the session, with
    -- the fields of the call, before the others, under a free index. The interface is one that no
    -- session has.
    pub session_add-Adds :
        (local_sid peer_sid acfc pfc : ℕ) (hi : HwInterface)
        → vec_at m.session_index_by_sw_if_index hi.sw_if_index ≡ none
        → Adds V m es
            (session_key t.local_tid local_sid)
            (new_session V ti t local_sid peer_sid acfc pfc hi)
            (session_add V m ti t local_sid peer_sid acfc pfc hi)
    unfolding session_add session_add_at
    session_add-Adds local_sid peer_sid acfc pfc hi unused = go (search m.session_by_key key) refl
      where
        key : ℕ
        key = session_key t.local_tid local_sid

        s : Session
        s = new_session V ti t local_sid peer_sid acfc pfc hi

        go :
            (o : Option ℕ)
            → search m.session_by_key key ≡ o
            → Adds V m es key s (session_add_at V m ti t local_sid peer_sid acfc pfc hi o)
        go (some j) taken = (refl, ground (arith, r.keys_are key))
        go none key_free = (
          sym (r.keys_are key) ∙ key_free,
          added key (next_session m.sessions) s _ refl refl refl (sym (r.keys_are key) ∙ key_free)
              (sym (r.sessions_are _) ∙ next_session_free m.sessions)
              (sym (r.interfaces_are _) ∙ unused)
              (λ j. session_at-write m.sessions (next_session m.sessions) j s)
              (λ k. search-add m.session_by_key key k (next_session m.sessions))
              (λ sw. vec_at-vec_store m.session_index_by_sw_if_index hi.sw_if_index sw _)
              (λ j. tunnel_at-write m.tunnels ti j _),
        )
