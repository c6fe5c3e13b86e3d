-- ===== src/Registry/Tunnels.antt =====
-- `l2tvpp_tunnel_add_del`: which tunnels there are, and that sessions keep theirs.
use l2tvpp.Common.{
  ℕ, ◌^◌, ◌<◌, ◌≡◌, ◌≢◌, refl, ap, ◌∙◌, subst, ◌⊎◌, inl, inr, Bool, true, false, not, ◌&&◌, ◌||◌,
  Option, some, none, Bool-cases, List, [], ◌∷◌, ◌++◌, ◌==◌, ==_iff, if◌then◌else◌, arith,
}
use l2tvpp.Objects.{Tunnel, Session}
use l2tvpp.Vpp.{Vpp, Has}
use l2tvpp.Registry.{
  Main, Result, ok, err, unimplemented, tunnel_exist, no_such_entry, instance_in_use, is_tunnel,
  visit, find_in, tunnel_find, new_tunnel, contains, tunnel_add, tunnel_del, tunnel_add_del,
}
use l2tvpp.Registry.Ghost.{Sessions, by_index, count_of, Distinct}
use l2tvpp.Registry.Represents.{Represents}

pub count_of_none :
    (ti j : ℕ) (u : Session) (es : Sessions)
    → count_of ti es ≡ 0
    → by_index j es ≡ some u
    → u.tunnel_index ≢ ti
count_of_none ti j u [] z e = ground arith
count_of_none ti j u ((i, s) ∷ es) z e = ground (arith, count_of_none ti j u es)

pub none_count_of :
    (ti : ℕ) (es : Sessions)
    → Distinct es
    → ((j : ℕ) (u : Session) → by_index j es ≡ some u → u.tunnel_index ≢ ti)
    → count_of ti es ≡ 0
none_count_of ti [] d h = refl
none_count_of ti ((i, s) ∷ es) d h =
    let head = h i s (ground arith) in
    let rest = none_count_of ti es d.3 (λ j u e. h j u (ground (arith, d.0))) in
    ground (arith, head, rest)

contains-append : (xs : List ℕ) (a : ℕ) → contains (xs ++ (a ∷ [])) a ≡ true
contains-append [] a = ground arith
contains-append (x ∷ xs) a = ground (arith, contains-append xs a)

module _ (V : Vpp) (m : Main V) where
  open V.tunnel_pool use {elt as tunnel_at, indices, indices_all, elt-write, elt-free}
  open V.tunnel_pool use {next_index as next_tunnel, next_index_free}

  -- The tunnel at an index is the one that a peer's address and port and a local id name.
  abbrev pub Named : V.Address → ℕ → ℕ → ℕ → Tunnel V.Address → Type 0
  Named peer_ip peer_port local_tid i t =
      (tunnel_at m.tunnels i ≡ some t)
      × (t.local_tid ≡ local_tid)
      × (t.peer_port ≡ peer_port)
      × (t.peer_ip ≡ peer_ip)

  abbrev Finds : V.Address → ℕ → ℕ → List ℕ → Option (ℕ × Tunnel V.Address) → Type 0
  Finds peer_ip peer_port local_tid is none =
      (i : ℕ) (t : Tunnel V.Address) → Has i is → ¬ Named peer_ip peer_port local_tid i t
  Finds peer_ip peer_port local_tid is (some (i, t)) = Named peer_ip peer_port local_tid i t

  module _ (peer_ip : V.Address) (peer_port local_tid : ℕ) where
    is_tunnel_iff :
        (t : Tunnel V.Address)
        → is_tunnel V t peer_ip peer_port local_tid ≡ true
        → (t.local_tid ≡ local_tid) × (t.peer_port ≡ peer_port) × (t.peer_ip ≡ peer_ip)
    unfolding is_tunnel
    is_tunnel_iff t e =
        (ground arith, ground arith, (V.is_equal_iff t.peer_ip peer_ip).0 (ground arith))

    Named-is_tunnel :
        (i : ℕ) (t : Tunnel V.Address)
        → Named peer_ip peer_port local_tid i t
        → is_tunnel V t peer_ip peer_port local_tid ≡ true
    unfolding is_tunnel
    Named-is_tunnel i t (_, a, b, c) =
        rw
          (
            (==_iff t.local_tid local_tid).1 a,
            (==_iff t.peer_port peer_port).1 b,
            (V.is_equal_iff t.peer_ip peer_ip).1 c,
          )
          refl

    Finds-skip :
        (i : ℕ) (is : List ℕ) (rest : Option (ℕ × Tunnel V.Address))
        → ((t : Tunnel V.Address) → ¬ Named peer_ip peer_port local_tid i t)
        → Finds peer_ip peer_port local_tid is rest
        → Finds peer_ip peer_port local_tid (i ∷ is) rest
    Finds-skip i is none miss h = λ j t has named. skipped j t has named
      where
        skipped :
            (j : ℕ) (t : Tunnel V.Address)
            → Has j (i ∷ is)
            → ¬ Named peer_ip peer_port local_tid j t
        skipped j t (inl e) named =
            miss t (subst (λ k. Named peer_ip peer_port local_tid k t) e named)
        skipped j t (inr has) named = h j t has named
    Finds-skip i is (some (j, t)) miss h = h

    find_in-Finds :
        (is : List ℕ)
        → Finds peer_ip peer_port local_tid is (find_in V m peer_ip peer_port local_tid is)
    unfolding find_in visit
    find_in-Finds [] = λ i t h. absurd h
    find_in-Finds (i ∷ is) = go (tunnel_at m.tunnels i) refl (find_in-Finds is)
      where
        rest : Option (ℕ × Tunnel V.Address)
        rest = find_in V m peer_ip peer_port local_tid is

        go :
            (o : Option (Tunnel V.Address))
            → tunnel_at m.tunnels i ≡ o
            → Finds peer_ip peer_port local_tid is rest
            → Finds peer_ip peer_port local_tid
                (i ∷ is)
                (visit V peer_ip peer_port local_tid i rest o)
        go none e h = Finds-skip i is rest (λ t named. cc) h
        go (some t) e h = elim (Bool-cases (is_tunnel V t peer_ip peer_port local_tid)) [
          | inl hit ↦ let (a, b, c) = is_tunnel_iff t hit in rw hit (e, a, b, c)
          | inr miss ↦ rw miss (Finds-skip i is rest (λ u named. cc (Named-is_tunnel i u named)) h)
        ]

    abbrev pub Absent : Type 0
    Absent = (i : ℕ) (t : Tunnel V.Address) → ¬ Named peer_ip peer_port local_tid i t

    abbrev pub Answers : Option (ℕ × Tunnel V.Address) → Type 0
    Answers none = Absent
    Answers (some (i, t)) = Named peer_ip peer_port local_tid i t

    tunnel_find-Answers : Answers (tunnel_find V m peer_ip peer_port local_tid)
    unfolding tunnel_find
    tunnel_find-Answers = everywhere _ (find_in-Finds (indices m.tunnels))
      where
        everywhere :
            (o : Option (ℕ × Tunnel V.Address))
            → Finds peer_ip peer_port local_tid (indices m.tunnels) o
            → Answers o
        everywhere none h =
            λ i t named. h i t (indices_all m.tunnels i (λ free. cc (named.0))) named
        everywhere (some (i, t)) h = h

  module _ (es : Sessions) (r : Represents V m es) where
    -- The tunnels but for one index, where there is no session before or after.
    moved-Represents :
        (m' : Main V) (i : ℕ) (o : Option (Tunnel V.Address))
        → m'.sessions ≡ m.sessions
        → m'.session_by_key ≡ m.session_by_key
        → m'.session_index_by_sw_if_index ≡ m.session_index_by_sw_if_index
        → ((j : ℕ) → tunnel_at m'.tunnels j ≡ (if i == j then o else tunnel_at m.tunnels j))
        → count_of i es ≡ 0
        → ((t : Tunnel V.Address) → o ≡ some t → t.n_sessions ≡ 0)
        → Represents V m' es
    moved-Represents m' i o es_ ek ev after z fresh = record {
      sessions_are = λ j. ap (λ c. V.session_pool.elt c j) es_ ∙ r.sessions_are j;
      keys_are = λ k. ap (λ c. V.bihash.search c k) ek ∙ r.keys_are k;
      interfaces_are = λ sw. rw ev (r.interfaces_are sw);
      counts_are = λ j t e. ground (arith, after j, r.counts_are j t, fresh t);
      tunnels_are = λ j u e.
          let (w, p, q) = r.tunnels_are j u e in
          (w, ground (arith, after u.tunnel_index, count_of_none i j u es z e), q);
      distinct = r.distinct;
    }

    -- No session belongs to a tunnel that is not there.
    count_of_free : (i : ℕ) → tunnel_at m.tunnels i ≡ none → count_of i es ≡ 0
    count_of_free i free =
        none_count_of i es r.distinct λ j u e same. let (w, p, q) = r.tunnels_are j u e in cc

    module _ (local_ip peer_ip : V.Address) (local_port peer_port local_tid peer_tid : ℕ) where
      -- What an addition (`true`) and a deletion (`false`) may answer.
      abbrev pub Outcome : Bool → Result (Main V × Option ℕ) → Type 0
      Outcome true (ok (m', some i)) =
          Absent peer_ip peer_port local_tid
          × (tunnel_at m.tunnels i ≡ none)
          × ((j : ℕ)
              → tunnel_at m'.tunnels j ≡ (
                  if i == j
                  then some (new_tunnel V local_ip peer_ip local_port peer_port local_tid peer_tid)
                  else tunnel_at m.tunnels j))
          × (contains m'.local_ip4s (V.ip4_word local_ip) ≡ true)
          × Represents V m' es
      Outcome true (ok (m', none)) = ⊥
      Outcome true (err e) =
          (e ≡ tunnel_exist)
          × ((i : ℕ) × (t : Tunnel V.Address) × Named peer_ip peer_port local_tid i t)
      Outcome false (ok (m', some i)) = ⊥
      Outcome false (ok (m', none)) =
          (i : ℕ) × (t : Tunnel V.Address) × Named peer_ip peer_port local_tid i t
          × (count_of i es ≡ 0)
          × ((j : ℕ) → tunnel_at m'.tunnels j ≡ (if i == j then none else tunnel_at m.tunnels j))
          × Represents V m' es
      Outcome false (err e) =
          ((e ≡ no_such_entry) × Absent peer_ip peer_port local_tid)
          ⊎ ((e ≡ instance_in_use)
              × ((i : ℕ) × (t : Tunnel V.Address) × Named peer_ip peer_port local_tid i t
                  × (0 < count_of i es)))

      tunnel_add-Outcome :
          (o : Option (ℕ × Tunnel V.Address))
          → Answers peer_ip peer_port local_tid o
          → Outcome true (tunnel_add V m local_ip peer_ip local_port peer_port local_tid peer_tid o)
      unfolding tunnel_add
      tunnel_add-Outcome (some (i, t)) a = (refl, (i, t, a))
      tunnel_add-Outcome none a =
          let i = next_tunnel m.tunnels in
          let free = next_index_free m.tunnels in
          (
            a,
            free,
            (λ j. elt-write m.tunnels i j _),
            known (contains m.local_ip4s (V.ip4_word local_ip)) refl,
            moved-Represents _ i _ refl refl refl (λ j. elt-write m.tunnels i j _)
                (count_of_free i free) (λ t e. ground arith),
          )
        where
          known :
              (b : Bool)
              → contains m.local_ip4s (V.ip4_word local_ip) ≡ b
              → contains
                  (if b then m.local_ip4s else m.local_ip4s ++ (V.ip4_word local_ip ∷ []))
                  (V.ip4_word local_ip)
                ≡ true
          known true e = e
          known false e = contains-append m.local_ip4s (V.ip4_word local_ip)

      tunnel_del-Outcome :
          ((i : ℕ) → count_of i es < 2 ^ 32)
          → (o : Option (ℕ × Tunnel V.Address)) → Answers peer_ip peer_port local_tid o
          → Outcome false (tunnel_del V m o)
      unfolding tunnel_del
      tunnel_del-Outcome small none a = inl (refl, a)
      tunnel_del-Outcome small (some (i, t)) a = elim (Bool-cases (t.n_sessions == 0)) [
        | inr used ↦ rw used (inr (refl, (i, t, a, ground (arith, r.counts_are i t a.0))))
        | inl unused ↦
            let z : count_of i es ≡ 0 = ground (arith, r.counts_are i t a.0, small i) in
            rw unused (
              i,
              t,
              a,
              z,
              (λ j. elt-free m.tunnels i j),
              moved-Represents _ i none refl refl refl (λ j. elt-free m.tunnels i j) z (λ u e. cc),
            )
      ]

      pub tunnel_add_del-Outcome :
          (is_add : Bool)
          → ((i : ℕ) → count_of i es < 2 ^ 32)
          → let result =
              tunnel_add_del V m local_ip peer_ip local_port peer_port local_tid peer_tid is_add in
            ((V.is_ip4 local_ip && V.is_ip4 peer_ip ≡ true) × Outcome is_add result)
            ⊎ ((V.is_ip4 local_ip && V.is_ip4 peer_ip ≡ false) × (result ≡ err unimplemented))
      unfolding tunnel_add_del
      tunnel_add_del-Outcome is_add small = go (V.is_ip4 local_ip) (V.is_ip4 peer_ip) is_add
        where
          go :
              (a b c : Bool)
              → let result =
                  if not a || not b
                  then err unimplemented
                  else (let t = tunnel_find V m peer_ip peer_port local_tid in
                      if c
                      then tunnel_add V m local_ip peer_ip local_port peer_port local_tid peer_tid t
                      else tunnel_del V m t) in
                ((a && b ≡ true) × Outcome c result)
                ⊎ ((a && b ≡ false) × (result ≡ err unimplemented))
          go false b c = inr (refl, refl)
          go true false c = inr (refl, refl)
          go true true true =
              inl (refl, tunnel_add-Outcome _ (tunnel_find-Answers peer_ip peer_port local_tid))
          go true true false =
              inl
                (refl, tunnel_del-Outcome small _ (tunnel_find-Answers peer_ip peer_port local_tid))
