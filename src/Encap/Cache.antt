-- ===== src/Encap/Cache.antt =====
-- The adjacency cache on the entries that it stands for, and the locks that it holds.
use l2tvpp.Common.{
  ℕ, suc, ◌+◌, ◌%◌, ◌^◌, ◌<◌, ◌≡◌, ◌≢◌, refl, sym, ◌∙◌, Bool, true, false, not, ◌&&◌, ◌||◌, Option,
  some, none, List, [], ◌∷◌, length, ◌==◌, if◌then◌else◌, arith,
}
use l2tvpp.Vpp.{Bihash}
use l2tvpp.Encap.{
  Prefix, FibCall, path_add, path_remove, adj_lock, EncapCache, init_cache, forget,
  encap_adj_add_del, route_on, route_add_del,
}
use l2tvpp.Registry.{Result, ok, err, invalid_sw_if_index, vec_at}
use l2tvpp.Encap.Entries.{
  Entries, find, drop_key, held, Once, locks, unlocks, find-drop_key, drop_key-Once,
  length-drop_key, held-drop_key,
}

module _ (H : Bihash) (empty : H.Table) (adj_nbr_add_or_lock : Prefix → ℕ → ℕ) where
  open H use {search, search-add, search-remove}

  -- The cache stands for the entries: none before it is initialised, and their number is counted.
  pub record Tracks (c : EncapCache H) (es : Entries) : Type 0 where
    pub finds : c.encap_adj_init ≡ true → (k : ℕ) → search c.encap_adj_by_ip4 k ≡ find k es
    pub starts : c.encap_adj_init ≡ false → es ≡ []
    pub counts : c.encap_adj_count ≡ length es
    pub once : Once es

  -- What a call leaves: entries that agree but at the prefix, and a lock for each.
  abbrev pub Keeps : Prefix → ℕ → Bool → Entries → EncapCache H × List FibCall → Type 0
  Keeps pfx sw_if_index is_add es (c, calls) =
      (es' : Entries) × Tracks c es'
      × ((ai : ℕ) → held ai es' + unlocks ai calls ≡ held ai es + locks ai calls)
      × ((k : ℕ)
          → find k es' ≡ (
              if pfx.is_ip4 && (pfx.len == 32 && pfx.word == k)
              then (if is_add then some (adj_nbr_add_or_lock pfx sw_if_index) else none)
              else find k es))

  -- `clib_bihash_init_8_8` makes an empty table.
  module _ (empties : (k : ℕ) → search empty k ≡ none) where
    init_cache-Tracks :
        (c : EncapCache H) (es : Entries)
        → Tracks c es
        → Tracks (init_cache H empty adj_nbr_add_or_lock c) es
          × ((init_cache H empty adj_nbr_add_or_lock c).encap_adj_init ≡ true)
    unfolding init_cache
    init_cache-Tracks c es t = go c.encap_adj_init refl
      where
        go :
            (b : Bool)
            → c.encap_adj_init ≡ b
            → let after : EncapCache H =
                if b then c else record c { encap_adj_init = true; encap_adj_by_ip4 = empty } in
              Tracks after es × (after.encap_adj_init ≡ true)
        go true e = (t, e)
        go false e =
            let nothing = t.starts e in
            (
              record {
                finds = λ _ k. rw nothing (empties k);
                starts = λ no. absurd (ground arith);
                counts = t.counts;
                once = t.once;
              },
              refl,
            )

    module _ (pfx : Prefix) (sw_if_index : ℕ) (c : EncapCache H) (es : Entries) (t : Tracks c es)
        (ready : c.encap_adj_init ≡ true) (v4 : pfx.is_ip4 ≡ true)
        (host : pfx.len == 32 ≡ true) where
      forget-Keeps :
          (o : Option ℕ)
          → search c.encap_adj_by_ip4 pfx.word ≡ o
          → Keeps pfx sw_if_index false es (forget H empty adj_nbr_add_or_lock c pfx.word o)
      unfolding forget
      forget-Keeps none e = (es, t, (λ ai. refl), λ k. ground (arith, t.finds ready pfx.word))
      forget-Keeps (some a) e =
          let there : find pfx.word es ≡ some a = sym (t.finds ready pfx.word) ∙ e in
          (
            drop_key pfx.word es,
            record {
              finds = λ _ k.
                  search-remove c.encap_adj_by_ip4 pfx.word k
                  ∙ ground (arith, t.finds ready k, find-drop_key pfx.word es k t.once);
              starts = λ no. absurd (ground arith);
              counts = ground (arith, t.counts, length-drop_key pfx.word es);
              once = drop_key-Once pfx.word es t.once;
            },
            (λ ai. ground (arith, held-drop_key pfx.word es a ai there)),
            λ k. ground (arith, find-drop_key pfx.word es k t.once),
          )

      remember-Keeps :
          find pfx.word es ≡ none
          → suc (length es) < 2 ^ 32
          → Keeps pfx sw_if_index true es (
            record c {
              encap_adj_by_ip4 =
                  H.add c.encap_adj_by_ip4 pfx.word (adj_nbr_add_or_lock pfx sw_if_index);
              encap_adj_count = (c.encap_adj_count + 1) % 2 ^ 32;
            },
            adj_lock (adj_nbr_add_or_lock pfx sw_if_index) ∷ [],
          )
      remember-Keeps new room =
          let ai = adj_nbr_add_or_lock pfx sw_if_index in
          (
            (pfx.word, ai) ∷ es,
            record {
              finds = λ _ k.
                  search-add c.encap_adj_by_ip4 pfx.word k ai ∙ ground (arith, t.finds ready k);
              starts = λ no. absurd (ground arith);
              counts = ground (arith, t.counts);
              once = (new, t.once);
            },
            (λ a. ground arith),
            λ k. ground arith,
          )

    -- `l2tvpp_encap_adj_add_del` keeps the cache to its entries and their number: it is as it was for
    -- a prefix that is not an IPv4 /32; else the address of the prefix has the interface's adjacency
    -- after an addition and none after a removal, and other addresses have what they had. An
    -- adjacency is locked once for each entry that has it: locks taken less locks released are the
    -- entries gained less those lost. An addition is for an address without an entry, and fewer than
    -- 2 ^ 32 - 1 are cached.
    encap_adj_add_del-Keeps :
        (pfx : Prefix) (sw_if_index : ℕ) (is_add : Bool) (c : EncapCache H) (es : Entries)
        → Tracks c es
        → (is_add ≡ true → find pfx.word es ≡ none)
        → suc (length es) < 2 ^ 32
        → Keeps pfx sw_if_index is_add es
            (encap_adj_add_del H empty adj_nbr_add_or_lock c pfx sw_if_index is_add)
    unfolding encap_adj_add_del
    encap_adj_add_del-Keeps pfx sw_if_index is_add c es t new room =
        go pfx.is_ip4 (pfx.len == 32) is_add refl refl new (init_cache-Tracks c es t)
      where
        c' : EncapCache H
        c' = init_cache H empty adj_nbr_add_or_lock c

        go :
            (v4 host b : Bool)
            → pfx.is_ip4 ≡ v4
            → pfx.len == 32 ≡ host
            → (b ≡ true → find pfx.word es ≡ none)
            → Tracks c' es × (c'.encap_adj_init ≡ true)
            → Keeps pfx sw_if_index b es (
                if not v4 || not host
                then (c, [])
                else if b
                then (
                  record c' {
                    encap_adj_by_ip4 =
                        H.add c'.encap_adj_by_ip4 pfx.word (adj_nbr_add_or_lock pfx sw_if_index);
                    encap_adj_count = (c'.encap_adj_count + 1) % 2 ^ 32;
                  },
                  adj_lock (adj_nbr_add_or_lock pfx sw_if_index) ∷ [],
                )
                else forget H empty adj_nbr_add_or_lock c' pfx.word
                    (search c'.encap_adj_by_ip4 pfx.word))
        go false host b e4 eh new (t', ready) = (es, t, (λ ai. refl), λ k. rw e4 refl)
        go true false b e4 eh new (t', ready) = (es, t, (λ ai. refl), λ k. rw (e4, eh) refl)
        go true true true e4 eh new (t', ready) =
            remember-Keeps pfx sw_if_index c' es t' ready e4 eh (new refl) room
        go true true false e4 eh new (t', ready) =
            forget-Keeps pfx sw_if_index c' es t' ready e4 eh _ refl

    -- What a route call answers for the session, if any, of its interface.
    abbrev pub Routed :
        Prefix → ℕ → Bool → Entries → Option ℕ → Result (EncapCache H × List FibCall) → Type 0
    Routed pfx sw_if_index is_add es session (err e) = (session ≡ none) × (e ≡ invalid_sw_if_index)
    Routed pfx sw_if_index is_add es session (ok (c', calls)) =
        (session ≢ none)
        × ((rest : List FibCall) × (calls
              ≡ (if is_add then path_add pfx sw_if_index else path_remove pfx sw_if_index) ∷ rest)
            × Keeps pfx sw_if_index is_add es (c', rest))

    -- `l2tvpp_route_add_del` fails with INVALID_SW_IF_INDEX exactly on an interface of no session.
    -- Else it adds or removes the path, and keeps the cache to its entries and their number: it is as
    -- it was for a prefix that is not an IPv4 /32; else the address has the interface's adjacency
    -- after an addition and none after a removal, and other addresses have what they had. An
    -- adjacency is locked once for each entry that has it: locks taken less locks released are the
    -- entries gained less those lost. An addition is for an address without an entry, fewer than
    -- 2 ^ 32 - 1 are cached, and a new table is empty.
    pub route_add_del-Routed :
        (interfaces : List (Option ℕ)) (pfx : Prefix) (sw_if_index : ℕ) (is_add : Bool)
        (c : EncapCache H) (es : Entries)
        → Tracks c es
        → (is_add ≡ true → find pfx.word es ≡ none)
        → suc (length es) < 2 ^ 32
        → Routed pfx sw_if_index is_add es
            (vec_at interfaces sw_if_index)
            (route_add_del H empty adj_nbr_add_or_lock interfaces c pfx sw_if_index is_add)
    unfolding route_add_del route_on
    route_add_del-Routed interfaces pfx sw_if_index is_add c es t new room =
        go (vec_at interfaces sw_if_index)
      where
        go :
            (o : Option ℕ)
            → Routed pfx sw_if_index is_add es o
                (route_on H empty adj_nbr_add_or_lock c pfx sw_if_index is_add o)
        go none = (refl, refl)
        go (some si) = (
          (λ e. ground arith),
          (_, refl, encap_adj_add_del-Keeps pfx sw_if_index is_add c es t new room),
        )
