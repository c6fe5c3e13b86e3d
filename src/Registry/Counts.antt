-- ===== src/Registry/Counts.antt =====
-- How many sessions a tunnel can carry.
use l2tvpp.Common.{
  ℕ, zero, suc, ◌+◌, ◌≤◌, ◌<◌, ◌≡◌, refl, ◌&&◌, some, none, Option-cases, Bool-cases, inl, inr, [],
  ◌∷◌, ltb, ◌==◌, if◌then◌else◌, arith,
}
use l2tvpp.Objects.{Tunnel, Session}
use l2tvpp.Header.{session_key}
use l2tvpp.Vpp.{Vpp}
use l2tvpp.Registry.{Main}
use l2tvpp.Registry.Ghost.{Sessions, key_of, by_index, by_key, count_of, Distinct}
use l2tvpp.Registry.Represents.{Represents, HasWords}
use l2tvpp.Registry.Tunnels.{none_count_of}

-- The sessions of a tunnel with an id below a bound, and with one id.
abbrev count_below : ℕ → ℕ → Sessions → ℕ
count_below ti n [] = 0
count_below ti n ((i, s) ∷ es) =
    (if s.tunnel_index == ti && ltb s.local_sid n then 1 else 0) + count_below ti n es

abbrev count_at : ℕ → ℕ → Sessions → ℕ
count_at ti n [] = 0
count_at ti n ((i, s) ∷ es) =
    (if s.tunnel_index == ti && s.local_sid == n then 1 else 0) + count_at ti n es

count_below-zero : (ti : ℕ) (es : Sessions) → count_below ti 0 es ≡ 0
count_below-zero ti [] = refl
count_below-zero ti ((i, s) ∷ es) = ground (arith, count_below-zero ti es)

count_below-suc :
    (ti n : ℕ) (es : Sessions) → count_below ti (suc n) es ≡ count_below ti n es + count_at ti n es
count_below-suc ti n [] = refl
count_below-suc ti n ((i, s) ∷ es) = ground (arith, count_below-suc ti n es)

module _ (ti tid : ℕ) where
  -- The sessions of the tunnel have its local id.
  abbrev HasTid : Sessions → Type 0
  HasTid es =
      (j : ℕ) (u : Session) → by_index j es ≡ some u → u.tunnel_index ≡ ti → u.local_tid ≡ tid

  HasTid-tail :
      (i : ℕ) (s : Session) (es : Sessions)
      → Distinct ((i, s) ∷ es)
      → HasTid ((i, s) ∷ es)
      → HasTid es
  HasTid-tail i s es d h j u e same = h j u (ground (arith, d.0)) same

  none_at :
      (n : ℕ) (es : Sessions)
      → Distinct es
      → HasTid es
      → by_key (session_key tid n) es ≡ none
      → count_at ti n es ≡ 0
  none_at n [] d h e = refl
  none_at n ((i, s) ∷ es) d h e =
      let ih = none_at n es d.3 (HasTid-tail i s es d h) (ground arith) in
      let head = h i s (ground arith) in ground (arith, ih, head)

  count_at-le : (n : ℕ) (es : Sessions) → Distinct es → HasTid es → count_at ti n es ≤ 1
  count_at-le n [] d h = omega arith
  count_at-le n ((i, s) ∷ es) d h =
      let tail = HasTid-tail i s es d h in
      let head = h i s (ground arith) in
      elim (Bool-cases (s.tunnel_index == ti && s.local_sid == n)) [
        | inl here ↦
            let same : key_of s ≡ session_key tid n = ground (arith, head) in
            let z = none_at n es d.3 tail (rw same at d.1) in rw here (omega (arith, z))
        | inr there ↦ rw there (omega (arith, count_at-le n es d.3 tail))
      ]

  count_below-le : (n : ℕ) (es : Sessions) → Distinct es → HasTid es → count_below ti n es ≤ n
  count_below-le zero es d h = omega (arith, count_below-zero ti es)
  count_below-le (suc n) es d h =
      omega (arith, count_below-suc ti n es, count_below-le n es d h, count_at-le n es d h)

-- Every id is below a bound that holds for all.
count_below-all :
    (ti n : ℕ) (es : Sessions)
    → Distinct es
    → ((j : ℕ) (u : Session) → by_index j es ≡ some u → u.local_sid < n)
    → count_below ti n es ≡ count_of ti es
count_below-all ti n [] d h = refl
count_below-all ti n ((i, s) ∷ es) d h =
    let head = h i s (ground arith) in
    let rest = count_below-all ti n es d.3 (λ j u e. h j u (ground (arith, d.0))) in
    ground (arith, head, rest)

module _ (V : Vpp) (m : Main V) (es : Sessions) (r : Represents V m es)
    (words : HasWords V es) where
  open V.tunnel_pool use {elt as tunnel_at}

  -- A tunnel carries at most 65536 sessions, since their ids differ.
  pub count_of-le : (ti : ℕ) → count_of ti es ≤ 65536
  count_of-le ti = elim (Option-cases (tunnel_at m.tunnels ti)) [
    | inl free ↦
        let z : count_of ti es ≡ 0 =
          none_count_of ti es r.distinct λ j u e same. let (w, p, q) = r.tunnels_are j u e in cc in
        omega (arith, z)
    | inr (t, here) ↦
        let all = count_below-all ti 65536 es r.distinct (λ j u e. (words j u e).1) in
        let bound =
          count_below-le ti t.local_tid 65536 es r.distinct
            λ j u e same. let (w, p, q) = r.tunnels_are j u e in cc in
        omega (arith, all, bound)
  ]

  -- So the counter of a tunnel does not wrap.
  pub n_sessions-count_of :
      (ti : ℕ) (t : Tunnel V.Address)
      → tunnel_at m.tunnels ti ≡ some t
      → t.n_sessions ≡ count_of ti es
  n_sessions-count_of ti t here = omega (arith, r.counts_are ti t here, count_of-le ti)
