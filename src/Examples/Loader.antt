-- ===== src/Examples/Loader.antt =====
-- A run of the loader for the CPUs 1-3 and 5.
use l2tvpp.Common.{
  ℕ, ◌%◌, ◌^◌, ◌<◌, ◌≡◌, refl, true, false, not, Option, some, none, List, [], ◌∷◌, length, ltb,
  ◌==◌, if◌then◌else◌, arith, Returns, ltb→lt, read_u16,
}
use l2tvpp.Header.{session_hash}
use l2tvpp.Steer.{l2tp_steer, redirect_to, vlan_tag, steer_ip, steer_udp, steer_l2tp, choose_cpu}
use l2tvpp.Loader.{Libc, max_cpus, cpu_list, parse_cpulist, parse_items, interval, add_range}
use l2tvpp.Loader.Cpulist.{IsParsed, parse_cpulist-IsParsed}
use l2tvpp.Loader.Run.{
  drv_mode, BpfMaps, Host, Kernel, Options, Opt, opt_i, opt_c, default_options, read_options, exits,
  store, add_cpu, fill, new_maps, attach, attach_filled, load, steer_to, run_on, run,
}
use l2tvpp.Loader.Steering.{seen, IsPlaced, Attaches, run-Attaches, run-IsPlaced}
use l2tvpp.Examples.Data.{plain_packet}

-- A text is its items, and an item is the ends of its range.
abbrev ranges : Option (ℕ × ℕ) → Option (ℕ × ℕ)
ranges none = none
ranges (some (a, b)) = some (a % 2 ^ 32, b % 2 ^ 32)

ranges_fit :
    (tok : Option (ℕ × ℕ)) (a b : ℕ) → ranges tok ≡ some (a, b) → (a < 2 ^ 32) × (b < 2 ^ 32)
ranges_fit none a b e = absurd (ground arith)
ranges_fit (some (c, d)) a b e = ground arith

no_single : (tok : Option (ℕ × ℕ)) (a : ℕ) → ◌≡◌ {A = Option ℕ} none (some a) → a < 2 ^ 32
no_single tok a e = absurd (ground arith)

abbrev libc : Libc
libc = record {
  Text = List (Option (ℕ × ℕ));
  Token = Option (ℕ × ℕ);
  atoi = length;
  tokens = λ s. s;
  scan_range = ranges;
  scan_single = λ tok. none;
  scan_range_fits = ranges_fit;
  scan_single_fits = no_single;
}

abbrev kernel : Kernel libc
kernel = record {
  if_nametoindex = λ name. 3;
  num_possible_cpus = 8;
  default_object = some [];
  opens = λ path. true;
  loads = λ path. true;
  is_complete = λ path. true;
  takes_cpu = λ cpu qsize. ltb cpu max_cpus;
  pins_maps = not;
  attaches = λ ifindex mode. true;
  detaches = λ ifindex mode. true;
  takes_cpu_below = λ cpu qsize e. ltb→lt cpu max_cpus e;
  pins_maps_once = refl;
}

abbrev list : List (Option (ℕ × ℕ))
list = some (1, 3) ∷ some (5, 5) ∷ []

parsed : parse_cpulist libc list max_cpus ≡ cpu_list (1 ∷ 2 ∷ 3 ∷ 5 ∷ [])
unfolding parse_cpulist parse_items interval add_range
parsed = refl

-- A range whose ends are swapped is empty.
swapped_parsed : parse_cpulist libc (some (5, 3) ∷ []) max_cpus ≡ cpu_list []
unfolding parse_cpulist parse_items interval add_range
swapped_parsed = refl

abbrev host : Host
host = record { is_pinned = false; attached = λ j. none }

abbrev opts : List (Opt libc)
opts = opt_i [] ∷ opt_c list ∷ []

abbrev options : Options libc
options = record (default_options libc) { iface = some []; cpulist = some list }

options_read : read_options libc opts (default_options libc) ≡ some options
unfolding read_options
options_read = refl

abbrev put : ℕ → ℕ → BpfMaps → BpfMaps
put i cpu m = store libc kernel i cpu (add_cpu libc kernel cpu 2048 m)

abbrev maps : BpfMaps
maps = record (put 3 5 (put 2 3 (put 1 2 (put 0 1 (new_maps libc kernel))))) { cpu_count = 4 }

abbrev attached_host : Host
attached_host = record {
  is_pinned = true;
  attached = λ j. if 3 == j then some (drv_mode, maps) else none;
}

run_exits : run libc kernel host opts ≡ exits 0 attached_host
unfolding run read_options run_on steer_to load attach_filled attach fill parse_cpulist parse_items
    interval add_range
run_exits = refl

parse_cpulist-IsParsed_example : IsParsed libc max_cpus list (parse_cpulist libc list max_cpus)
parse_cpulist-IsParsed_example = parse_cpulist-IsParsed libc list max_cpus

run-Attaches_example : Attaches libc kernel host options (run libc kernel host opts)
run-Attaches_example = run-Attaches libc kernel host opts options options_read refl refl

-- Ethernet, IPv4 and UDP to port 1701 in front of a data packet.
abbrev frame : List ℕ
frame =
    0 ∷ 0 ∷ 0 ∷ 0 ∷ 0 ∷ 0 ∷ 0 ∷ 0 ∷ 0 ∷ 0 ∷ 0 ∷ 0 ∷ 8 ∷ 0 ∷ 0x45 ∷ 0 ∷ 0 ∷ 0 ∷ 0 ∷ 0 ∷ 0 ∷ 0 ∷ 64
    ∷ 17 ∷ 0 ∷ 0 ∷ 10 ∷ 0 ∷ 0 ∷ 1 ∷ 10 ∷ 0 ∷ 0 ∷ 2 ∷ 6 ∷ 165 ∷ 6 ∷ 165 ∷ 0 ∷ 0 ∷ 0 ∷ 0
    ∷ plain_packet

frame_redirected : l2tp_steer (seen maps) frame ≡ some (redirect_to 5)
unfolding l2tp_steer vlan_tag steer_ip steer_udp steer_l2tp choose_cpu read_u16 session_hash
frame_redirected = refl

run-IsPlaced_example : Returns (l2tp_steer (seen maps) frame) (IsPlaced (1 ∷ 2 ∷ 3 ∷ 5 ∷ []))
run-IsPlaced_example =
    run-IsPlaced libc kernel host attached_host opts options list (1 ∷ 2 ∷ 3 ∷ 5 ∷ []) [] drv_mode
      maps frame options_read refl refl run_exits refl refl refl parsed (omega arith)
