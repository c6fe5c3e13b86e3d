-- ===== src/Examples/Encap.antt =====
-- The adjacency cache with one route, and a frame to its address.
use l2tvpp.Common.{◌+◌, refl, true, false, some, none, [], ◌∷◌, ◌==◌, if◌then◌else◌, arith, Returns}
use l2tvpp.Encap.{Prefix, EncapCache, encap_packet, route_add_del}
use l2tvpp.Encap.Cache.{Tracks, Routed, route_add_del-Routed}
use l2tvpp.Encap.Peek.{IsShortcut, encap_packet-IsShortcut}
use l2tvpp.Examples.Flow.{plain_ip, fast_frame}
use l2tvpp.Examples.Registry.{function_hash}

abbrev fresh_cache : EncapCache function_hash
fresh_cache = record { encap_adj_init = false; encap_adj_by_ip4 = λ k. none; encap_adj_count = 0 }

fresh_cache-Tracks : Tracks function_hash (λ k. none) (λ p sw. sw + 100) fresh_cache []
fresh_cache-Tracks = record {
  finds = λ ready k. refl;
  starts = λ _. refl;
  counts = refl;
  once = tt;
}

abbrev host_four : Prefix
host_four = record { is_ip4 = true; len = 32; word = 4 }

route_add_del-Routed_example :
    Routed function_hash
      (λ k. none)
      (λ p sw. sw + 100)
      (λ k. refl)
      host_four
      1
      true
      []
      (some 3)
      (route_add_del function_hash
        (λ k. none)
        (λ p sw. sw + 100)
        (none ∷ some 3 ∷ [])
        fresh_cache
        host_four
        1
        true)
route_add_del-Routed_example =
    route_add_del-Routed function_hash (λ k. none) (λ p sw. sw + 100) (λ k. refl)
      (none ∷ some 3 ∷ []) host_four 1 true fresh_cache [] fresh_cache-Tracks (λ _. refl)
      (omega arith)

abbrev one_route : EncapCache function_hash
one_route = record {
  encap_adj_init = true;
  encap_adj_by_ip4 = λ k. if k == 4 then some 101 else none;
  encap_adj_count = 1;
}

encap_packet-IsShortcut_example :
    Returns
      (encap_packet plain_ip fast_frame function_hash one_route)
      (IsShortcut plain_ip fast_frame function_hash one_route)
encap_packet-IsShortcut_example =
    encap_packet-IsShortcut plain_ip fast_frame function_hash one_route
