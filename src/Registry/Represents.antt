-- ===== src/Registry/Represents.antt =====
-- The list of sessions that the pool, the key table, the interface vector and the tunnel counts of
-- plugin/l2tvpp/l2tvpp.c stand for.
use l2tvpp.Common.{
  ℕ, zero, suc, ◌%◌, ◌^◌, ◌<◌, ◌≡◌, ◌≢◌, refl, Option, some, none, Bool-cases, inl, inr, List, [],
  ◌∷◌, set, ◌==◌, if◌then◌else◌, arith,
}
use l2tvpp.Objects.{Tunnel, Session}
use l2tvpp.Vpp.{Vpp}
use l2tvpp.Registry.{
  Main, Result, ok, err, no_such_entry, entry_already_exists, VnetCall, vec_at, vec_store,
}
use l2tvpp.Registry.Ghost.{Sessions, by_index, by_key, by_interface, count_of, without, Distinct}

pub vec_at-vec_store :
    (v : List (Option ℕ)) (i j x : ℕ)
    → vec_at (vec_store v i x) j ≡ (if i == j then some x else vec_at v j)
unfolding vec_store
vec_at-vec_store [] zero zero x = refl
vec_at-vec_store [] zero (suc j) x = ground arith
vec_at-vec_store [] (suc i) zero x = ground arith
vec_at-vec_store [] (suc i) (suc j) x = ground (arith, vec_at-vec_store [] i j x)
vec_at-vec_store (y ∷ ys) zero zero x = refl
vec_at-vec_store (y ∷ ys) zero (suc j) x = ground arith
vec_at-vec_store (y ∷ ys) (suc i) zero x = ground arith
vec_at-vec_store (y ∷ ys) (suc i) (suc j) x = ground (arith, vec_at-vec_store ys i j x)

pub vec_at-clear :
    (v : List (Option ℕ)) (i j : ℕ)
    → vec_at (set v i none) j ≡ (if i == j then none else vec_at v j)
vec_at-clear [] i j = ground arith
vec_at-clear (y ∷ ys) zero zero = refl
vec_at-clear (y ∷ ys) zero (suc j) = ground arith
vec_at-clear (y ∷ ys) (suc i) zero = ground arith
vec_at-clear (y ∷ ys) (suc i) (suc j) = ground (arith, vec_at-clear ys i j)

module _ (V : Vpp) where
  open V.tunnel_pool use {elt as tunnel_at, elt-write as tunnel_at-write}
  open V.session_pool use {
    elt as session_at, elt-write as session_at-write, elt-free as session_at-free,
  }
  open V.session_pool use {next_index as next_session, next_index_free as next_session_free}
  open V.bihash use {search, search-add, search-remove}

  -- The state stands for the list of sessions `es`: the pool, the key table and the interface vector
  -- hold them and nothing else, each tunnel counts its own, and each has the tunnel id of its tunnel.
  pub record Represents (m : Main V) (es : Sessions) : Type 0 where
    pub sessions_are : (i : ℕ) → session_at m.sessions i ≡ by_index i es
    pub keys_are : (k : ℕ) → search m.session_by_key k ≡ by_key k es
    pub interfaces_are : (sw : ℕ) → vec_at m.session_index_by_sw_if_index sw ≡ by_interface sw es
    pub counts_are :
        (ti : ℕ) (t : Tunnel V.Address)
        → tunnel_at m.tunnels ti ≡ some t
        → t.n_sessions ≡ count_of ti es % 2 ^ 32
    pub tunnels_are :
        (i : ℕ) (s : Session)
        → by_index i es ≡ some s
        → (t : Tunnel V.Address) × (tunnel_at m.tunnels s.tunnel_index ≡ some t)
          × (t.local_tid ≡ s.local_tid)
    pub distinct : Distinct es

  -- No two tunnels have one local tunnel id.
  abbrev pub UniqueTids : Main V → Type 0
  UniqueTids m =
      (i j : ℕ) (t u : Tunnel V.Address)
      → tunnel_at m.tunnels i ≡ some t
      → tunnel_at m.tunnels j ≡ some u
      → t.local_tid ≡ u.local_tid
      → i ≡ j

  -- The outcome of an addition: the key is taken, or the session stands before the others.
  abbrev pub Adds : Main V → Sessions → ℕ → Session → Result (Main V × List VnetCall) → Type 0
  Adds m es key s (err e) = (e ≡ entry_already_exists) × (by_key key es ≢ none)
  Adds m es key s (ok (m', calls)) =
      (by_key key es ≡ none) × Represents m' ((next_session m.sessions, s) ∷ es)

  -- The outcome of a deletion: the key is unknown, or the session with the key is gone.
  abbrev pub Deletes : Main V → Sessions → ℕ → Result (Main V × List VnetCall) → Type 0
  Deletes m es key (err e) = (e ≡ no_such_entry) × (by_key key es ≡ none)
  Deletes m es key (ok (m', calls)) =
      (i : ℕ) × (by_key key es ≡ some i) × Represents m' (without i es)

  -- The ids of the sessions are 16-bit numbers.
  abbrev pub HasWords : Sessions → Type 0
  HasWords es =
      (j : ℕ) (u : Session) → by_index j es ≡ some u → (u.local_tid < 65536) × (u.local_sid < 65536)

  module _ (m : Main V) (ti : ℕ) (t : Tunnel V.Address)
      (here : tunnel_at m.tunnels ti ≡ some t) where
    -- Only the tunnel's count changes, so sessions keep their tunnels.
    pub kept_tunnel :
        (m' : Main V) (n : ℕ) (u : Session) (w : Tunnel V.Address)
        → ((j : ℕ)
            → tunnel_at m'.tunnels j
              ≡ (if ti == j then some (record t { n_sessions = n }) else tunnel_at m.tunnels j))
        → tunnel_at m.tunnels u.tunnel_index ≡ some w
        → w.local_tid ≡ u.local_tid
        → (x : Tunnel V.Address) × (tunnel_at m'.tunnels u.tunnel_index ≡ some x)
          × (x.local_tid ≡ u.local_tid)
    kept_tunnel m' n u w after at tid = elim (Bool-cases (ti == u.tunnel_index)) [
      | inl same ↦ (record t { n_sessions = n }, ground (arith, after u.tunnel_index), ground arith)
      | inr other ↦ (w, ground (arith, after u.tunnel_index), tid)
    ]
