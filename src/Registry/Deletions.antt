-- ===== src/Registry/Deletions.antt =====
-- The deletion of a session by `l2tvpp_session_add_del`, on the list of sessions.
use l2tvpp.Common.{
  ℕ, ◌+◌, ◌-◌, ◌%◌, ◌^◌, ◌<◌, ◌≡◌, ◌≢◌, refl, sym, ◌∙◌, Option, some, none, ◌==◌, if◌then◌else◌,
  arith, Returns, Returns-some,
}
use l2tvpp.Objects.{Tunnel, Session}
use l2tvpp.Header.{session_key}
use l2tvpp.Header.Worker.{session_key-injective}
use l2tvpp.Vpp.{Vpp}
use l2tvpp.Registry.{Main, vec_at, session_del, session_del_found, session_del_at}
use l2tvpp.Registry.Ghost.{
  Sessions, key_of, by_index, by_key, count_of, without, by_index_of_key, by_index-without,
  by_key-without, by_interface-without, count_of-without, without-Distinct,
}
use l2tvpp.Registry.Represents.{Represents, UniqueTids, Deletes, vec_at-clear, kept_tunnel}

module _ (V : Vpp) where
  open V.tunnel_pool use {elt as tunnel_at, elt-write as tunnel_at-write}
  open V.session_pool use {
    elt as session_at, elt-write as session_at-write, elt-free as session_at-free,
  }
  open V.session_pool use {next_index as next_session, next_index_free as next_session_free}
  open V.bihash use {search, search-add, search-remove}

  module _ (m : Main V) (es : Sessions) (r : Represents V m es) (ti : ℕ) (t : Tunnel V.Address)
      (here : tunnel_at m.tunnels ti ≡ some t) where
    -- The list without a session of the tunnel, in the state that a deletion leaves.
    module _ (i : ℕ) (s : Session) (m' : Main V) (found : by_index i es ≡ some s)
        (of_tunnel : s.tunnel_index ≡ ti)
        (sessions_after : (j : ℕ)
          → session_at m'.sessions j ≡ (if i == j then none else session_at m.sessions j))
        (keys_after : (k : ℕ)
          → search m'.session_by_key k
            ≡ (if key_of s == k then none else search m.session_by_key k))
        (interfaces_after : (sw : ℕ)
          → vec_at m'.session_index_by_sw_if_index sw
            ≡ (if s.sw_if_index == sw then none else vec_at m.session_index_by_sw_if_index sw))
        (tunnels_after : (j : ℕ)
          → tunnel_at m'.tunnels j ≡ (
              if ti == j
              then some (record t { n_sessions = (t.n_sessions + 2 ^ 32 - 1) % 2 ^ 32 })
              else tunnel_at m.tunnels j)) where
      removed_counts :
          (tj : ℕ) (u : Tunnel V.Address)
          → tunnel_at m'.tunnels tj ≡ some u
          → u.n_sessions ≡ count_of tj (without i es) % 2 ^ 32
      removed_counts tj u e = ground (
        arith,
        tunnels_after tj,
        r.counts_are ti t here,
        r.counts_are tj u,
        count_of-without i s es tj found,
      )

      removed_tunnels :
          (j : ℕ) (u : Session)
          → by_index j (without i es) ≡ some u
          → (w : Tunnel V.Address) × (tunnel_at m'.tunnels u.tunnel_index ≡ some w)
            × (w.local_tid ≡ u.local_tid)
      removed_tunnels j u e =
          let (w, p, q) =
            r.tunnels_are j u (ground (arith, by_index-without i s es j r.distinct found)) in
          kept_tunnel V m ti t here m' _ u w tunnels_after p q

      removed : Represents V m' (without i es)
      removed = record {
        sessions_are = λ j.
            ground (
              arith,
              sessions_after j,
              r.sessions_are j,
              by_index-without i s es j r.distinct found,
            );
        keys_are = λ k.
            ground (arith, keys_after k, r.keys_are k, by_key-without i s es k r.distinct found);
        interfaces_are = λ sw. ground (
          arith,
          interfaces_after sw,
          r.interfaces_are sw,
          by_interface-without i s es sw r.distinct found,
        );
        counts_are = removed_counts;
        tunnels_are = removed_tunnels;
        distinct = without-Distinct i s es r.distinct found;
      }

    -- Deleting by a tunnel and a session id returns an error if the key is unknown, and otherwise
    -- removes the session with that key from all three indexes and from its tunnel's count, and
    -- nothing else, if no two tunnels have one local tunnel id.
    pub session_del-Deletes :
        (local_sid : ℕ)
        → UniqueTids V m
        → t.local_tid < 65536
        → local_sid < 65536
        → ((j : ℕ) (u : Session)
            → by_index j es ≡ some u
            → (u.local_tid < 65536) × (u.local_sid < 65536))
        → Returns
            (session_del V m ti t local_sid)
            (Deletes V m es (session_key t.local_tid local_sid))
    unfolding session_del session_del_found session_del_at
    session_del-Deletes local_sid unique ht hs words = go (search m.session_by_key key) refl
      where
        key : ℕ
        key = session_key t.local_tid local_sid

        gone :
            (i : ℕ)
            → by_key key es ≡ some i
            → ((s : Session) → by_index i es ≡ some s → key_of s ≡ key)
            → by_index i es ≢ none
            → (o : Option Session) → session_at m.sessions i ≡ o
            → Returns (session_del_at V m ti t local_sid i o) (Deletes V m es key)
        gone i known keyed used none e = absurd (used (sym (r.sessions_are i) ∙ e))
        gone i known keyed used (some s) e =
            let found = sym (r.sessions_are i) ∙ e in
            let same_key = keyed s found in
            let (w, at, tid) = r.tunnels_are i s found in
            let (a, b) = words i s found in
            let (ids, _, _) =
              session_key-injective s.local_tid s.local_sid t.local_tid local_sid a b ht hs
                same_key in
            Returns-some (
              i,
              known,
              removed i s _ found (unique _ _ w t at here (tid ∙ ids))
                  (λ j. session_at-free m.sessions i j)
                  (λ k. rw same_key (search-remove m.session_by_key key k))
                  (λ sw. vec_at-clear m.session_index_by_sw_if_index s.sw_if_index sw)
                  (λ j. tunnel_at-write m.tunnels ti j _),
            )

        go :
            (o : Option ℕ)
            → search m.session_by_key key ≡ o
            → Returns (session_del_found V m ti t local_sid o) (Deletes V m es key)
        go none e = Returns-some (refl, sym (r.keys_are key) ∙ e)
        go (some i) e =
            let known = sym (r.keys_are key) ∙ e in
            let (s, found, keyed) = by_index_of_key key i es r.distinct known in
            gone i known (λ u h. cc) (λ h. cc) (session_at m.sessions i) refl
