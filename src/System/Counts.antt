-- ===== src/System/Counts.antt =====
-- The counters of the tunnels in the states that control calls reach.
use l2tvpp.Common.{ℕ, ◌≤◌, ◌≡◌, some, List, arith}
use l2tvpp.Objects.{Tunnel}
use l2tvpp.Vpp.{Vpp}
use l2tvpp.Registry.{Main}
use l2tvpp.Registry.Ghost.{Sessions, by_index, count_of, Distinct}
use l2tvpp.Registry.Counts.{count_of-le, n_sessions-count_of}
use l2tvpp.Rewrite.{Checksum}
use l2tvpp.System.{IsInitial, Reach}
use l2tvpp.System.Invariant.{Reach-IsGood}

module _ (V : Vpp) where
  open V.tunnel_pool use {elt as tunnel_at}
  open V.session_pool use {elt as session_at}

  -- The list has the sessions of the pool, each once, and each tunnel counts exactly its own.
  abbrev pub IsCounted : Main V → Sessions → Type 0
  IsCounted m es =
      ((i : ℕ) → session_at m.sessions i ≡ by_index i es)
      × Distinct es
      × ((ti : ℕ) (t : Tunnel V.Address)
          → tunnel_at m.tunnels ti ≡ some t
          → (t.n_sessions ≡ count_of ti es) × (t.n_sessions ≤ 65536))

module _ (V : Vpp) (C : Checksum) (ip4_bytes : V.Address → List ℕ) where
  -- In every state that tunnel calls with fresh ids, session calls and adjacency updates reach from the
  -- empty one, the counter of each tunnel is exactly the number of the sessions in the pool that are
  -- on it, although it wraps at 2^32: a tunnel never has more than 65536.
  pub Reach-n_sessions :
      {m0 m : Main V}
      → IsInitial V m0
      → Reach V C ip4_bytes m0 m
      → (es : Sessions) × IsCounted V m es
  Reach-n_sessions {m} z r =
      let (es, g) = Reach-IsGood V C ip4_bytes z r in
      let counted = n_sessions-count_of V m es g.represents g.words in
      let bounded = count_of-le V m es g.represents g.words in
      (
        es,
        (
          g.represents.sessions_are,
          g.represents.distinct,
          λ ti t here. (counted ti t here, omega (arith, counted ti t here, bounded ti)),
        ),
      )
