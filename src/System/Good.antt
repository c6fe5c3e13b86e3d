-- ===== src/System/Good.antt =====
-- What holds in every state that control calls reach.
use l2tvpp.Common.{ℕ, ◌<◌, ◌≡◌, sym, ◌∙◌, some, [], arith}
use l2tvpp.Objects.{Tunnel}
use l2tvpp.Vpp.{Vpp}
use l2tvpp.Registry.{Main}
use l2tvpp.Registry.Ghost.{Sessions}
use l2tvpp.Registry.Represents.{Represents, UniqueTids, HasWords}
use l2tvpp.System.{IsInitial}

module _ (V : Vpp) where
  open V.tunnel_pool use {elt as tunnel_at, elt-write as tunnel_at-write}

  -- The state stands for the sessions `es`; tunnel ids differ, and ids are 16-bit numbers.
  pub record IsGood (m : Main V) (es : Sessions) : Type 0 where
    pub represents : Represents V m es
    pub unique : UniqueTids V m
    pub words : HasWords V es
    pub tids : (j : ℕ) (t : Tunnel V.Address) → tunnel_at m.tunnels j ≡ some t → t.local_tid < 65536

  pub IsInitial-IsGood : (m : Main V) → IsInitial V m → IsGood m []
  IsInitial-IsGood m z = record {
    represents = record {
      sessions_are = z.no_sessions;
      keys_are = z.no_keys;
      interfaces_are = z.no_interfaces;
      counts_are = λ ti t e. cc (z.no_tunnels ti);
      tunnels_are = λ i s e. absurd (ground arith);
      distinct = tt;
    };
    unique = λ i j t u a b e. cc (z.no_tunnels i);
    words = λ j u e. absurd (ground arith);
    tids = λ j t e. cc (z.no_tunnels j);
  }

  -- Every tunnel was there, with its local id.
  abbrev pub TidsKept : V.tunnel_pool.Carrier → V.tunnel_pool.Carrier → Type 0
  TidsKept c c' =
      (j : ℕ) (u : Tunnel V.Address)
      → tunnel_at c' j ≡ some u
      → (t : Tunnel V.Address) × (tunnel_at c j ≡ some t) × (t.local_tid ≡ u.local_tid)

  module _ (m m' : Main V) (kept : TidsKept m.tunnels m'.tunnels) where
    pub UniqueTids-kept : UniqueTids V m → UniqueTids V m'
    UniqueTids-kept h i j t u a b e =
        let (t', p, q) = kept i t a in
        let (u', p', q') = kept j u b in h i j t' u' p p' (q ∙ e ∙ sym q')

    pub tids_kept :
        ((j : ℕ) (t : Tunnel V.Address) → tunnel_at m.tunnels j ≡ some t → t.local_tid < 65536)
        → (j : ℕ) (t : Tunnel V.Address) → tunnel_at m'.tunnels j ≡ some t
        → t.local_tid < 65536
    tids_kept h j t a = let (t', p, q) = kept j t a in omega (arith, h j t' p)
