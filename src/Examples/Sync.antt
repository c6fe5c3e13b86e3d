-- ===== src/Examples/Sync.antt =====
-- A pass of the session daemon over a plugin that keeps its tunnels, sessions and routes in lists.
use l2tvpp.Common.{
  ℕ, suc, ◌+◌, ◌≡◌, refl, true, ◌&&◌, some, none, List, [], ◌∷◌, ◌==◌, ==_iff, if◌then◌else◌, inl,
  inr,
}
use l2tvpp.Sync.Dictionary.{Dict}
use l2tvpp.Sync.{
  Host, session_keys, tunnel_keys, KernelSession, Plugin, Installed, reconcile, among,
}
use l2tvpp.Sync.Mirror.{Ends}
use l2tvpp.Sync.Reconcile.{HaveEndpoints}
use l2tvpp.Sync.Again.{reconcile-reconcile}

-- Addresses, prefixes and netdevs are numbers, and sets keep the order of a list.
abbrev small_host : Host ℕ ℕ
small_host = record {
  Netdev = ℕ;
  is_ip = λ a b. a == b;
  is_ip_iff = λ a b. ==_iff a b;
  is_prefix = λ a b. a == b;
  is_prefix_iff = λ a b. ==_iff a b;
  ppp_routes = λ i. (100 + i) ∷ (200 + i) ∷ [];
  set_order = λ ps. ps;
  sorted = λ ps. ps;
  set_order_members = λ p ps. refl;
  sorted_members = λ p ps. refl;
}

abbrev SmallKey : Type 0
SmallKey = ℕ × (ℕ × ℕ)

record SmallPlugin : Type 0 where
  tunnels : List (SmallKey × ℕ)
  sessions : List (ℕ × ℕ)
  paths : List (ℕ × ℕ)
  fresh : ℕ

abbrev without_pair : ℕ × ℕ → List (ℕ × ℕ) → List (ℕ × ℕ)
without_pair x [] = []
without_pair x (y ∷ ys) =
    let rest = without_pair x ys in if (x.0 == y.0 && x.1 == y.1) then rest else y ∷ rest

abbrev without_tunnel : SmallKey → List (SmallKey × ℕ) → List (SmallKey × ℕ)
without_tunnel x [] = []
without_tunnel x ((y, i) ∷ ys) =
    let rest = without_tunnel x ys in
    if (x.0 == y.0 && (x.1.0 == y.1.0 && x.1.1 == y.1.1)) then rest else (y, i) ∷ rest

abbrev firsts : List (ℕ × ℕ) → List ℕ
firsts [] = []
firsts (x ∷ xs) = x.0 ∷ firsts xs

abbrev small_plugin : Plugin small_host
small_plugin = record {
  State = SmallPlugin;
  tunnel_dump = λ st. st.tunnels;
  session_tunnels = λ st. firsts st.sessions;
  tunnel_add = λ st local_ip peer_ip local_port peer_port tid peer_tid. (
    record st {
      tunnels = ((peer_ip, (peer_port, tid)), st.fresh) ∷ st.tunnels;
      fresh = suc st.fresh;
    },
    st.fresh,
  );
  tunnel_del = λ st local_ip port key. record st { tunnels = without_tunnel key st.tunnels };
  session_add = λ st i sid peer_sid.
      (record st { sessions = (i, sid) ∷ st.sessions; fresh = suc st.fresh }, st.fresh);
  session_del = λ st i sid peer_sid. record st { sessions = without_pair (i, sid) st.sessions };
  route_add_del = λ st is_add prefix sw. record st {
    paths = if is_add then (prefix, sw) ∷ st.paths else without_pair (prefix, sw) st.paths;
  };
}

-- A session with a netdev and prefixes of its own, one whose prefixes the netdev has, and one without a
-- netdev.
abbrev three_sessions : List (KernelSession small_host)
three_sessions =
    record {
      peer_ip = 50;
      peer_port = 1701;
      local_tid = 7;
      local_sid = 1;
      peer_tid = 9;
      peer_sid = 2;
      ifname = some 3;
      routes = some (61 ∷ 62 ∷ []);
      local_ip = some 40;
      local_port = some 1701;
    }
    ∷ record {
      peer_ip = 50;
      peer_port = 1701;
      local_tid = 7;
      local_sid = 4;
      peer_tid = 9;
      peer_sid = 5;
      ifname = some 5;
      routes = none;
      local_ip = none;
      local_port = none;
    }
    ∷ record {
      peer_ip = 51;
      peer_port = 1701;
      local_tid = 8;
      local_sid = 6;
      peer_tid = 1;
      peer_sid = 1;
      ifname = none;
      routes = none;
      local_ip = none;
      local_port = none;
    }
    ∷ []

-- The record has a session of the kernel, whose prefixes have changed, and one that is gone.
abbrev two_installed : Dict session_keys (Installed small_host)
two_installed =
    (
      (7, 1),
      record {
        sw_if_index = 21;
        tunnel_index = 11;
        local_sid = 1;
        peer_sid = 2;
        installed_key = (50, (1701, 7));
        installed_routes = 60 ∷ 61 ∷ [];
      },
    )
    ∷ (
      (6, 3),
      record {
        sw_if_index = 22;
        tunnel_index = 12;
        local_sid = 3;
        peer_sid = 8;
        installed_key = (52, (1701, 6));
        installed_routes = 63 ∷ [];
      },
    )
    ∷ []

abbrev two_carried : SmallPlugin
two_carried = record {
  tunnels = ((50, (1701, 7)), 11) ∷ ((52, (1701, 6)), 12) ∷ [];
  sessions = (11, 1) ∷ (12, 3) ∷ [];
  paths = (60, 21) ∷ (61, 21) ∷ (63, 22) ∷ [];
  fresh = 30;
}

abbrev left : SmallPlugin
left = record {
  tunnels = ((50, (1701, 7)), 11) ∷ [];
  sessions = (11, 4) ∷ (11, 1) ∷ [];
  paths = (205, 30) ∷ (105, 30) ∷ (62, 21) ∷ (61, 21) ∷ [];
  fresh = 31;
}

-- The pass adds 7/4, removes 6/3 with its tunnel, and follows the change of the prefixes of 7/1.
reconcile_run :
    Ends small_host small_plugin
      (some 41)
      1701
      (reconcile small_host small_plugin
        (some 41)
        1701
        three_sessions
        true
        two_carried
        two_installed)
      λ u p. (p.plugin ≡ left) × (p.added ≡ 1) × (p.removed ≡ 1)
unfolding reconcile l2tvpp.Sync.vpp_tunnels l2tvpp.Sync.wanted l2tvpp.Sync.mirror_all
    l2tvpp.Sync.mirror l2tvpp.Sync.sync_routes l2tvpp.Sync.add_session l2tvpp.Sync.add_on
    l2tvpp.Sync.ensure_tunnel l2tvpp.Sync.make_tunnel l2tvpp.Sync.route_all l2tvpp.Sync.remove_all
    l2tvpp.Sync.del_session l2tvpp.Sync.prune l2tvpp.Sync.prune_tunnels
reconcile_run = (refl, refl, refl)

endpoints : HaveEndpoints small_host small_plugin (some 41) 1701 three_sessions
endpoints = (inr (40, refl), (inr (41, refl), (inl refl, tt)))

reconcile-reconcile_example :
    Ends small_host small_plugin
      (some 41)
      1701
      (reconcile small_host small_plugin
        (some 41)
        1701
        three_sessions
        true
        two_carried
        two_installed)
      λ u p.
        Ends small_host small_plugin
          (some 41)
          1701
          (reconcile small_host small_plugin
            (some 41)
            1701
            three_sessions
            true
            p.plugin
            p.installed)
          λ v p'.
            (p'.plugin ≡ p.plugin)
            × (p'.installed ≡ p.installed)
            × (p'.added ≡ 0)
            × (p'.removed ≡ 0)
reconcile-reconcile_example =
    reconcile-reconcile small_host small_plugin (some 41) 1701 three_sessions endpoints two_carried
      two_installed (refl, (refl, tt))
