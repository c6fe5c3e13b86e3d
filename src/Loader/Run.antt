-- ===== src/Loader/Run.antt =====
-- xdp/l2tp_steer.c: the run of the loader, from the options of its command line to its exit.
use l2tvpp.Common.{
  ℕ, ◌+◌, ◌%◌, ◌^◌, ◌<◌, ◌≡◌, Bool, true, false, not, Option, some, none, List, [], ◌∷◌, length,
  ltb, leb, ◌==◌, if◌then◌else◌,
}
use l2tvpp.Loader.{Libc, max_cpus, Parsed, cpu_list, bad_item, too_many, parse_cpulist}

-- XDP_FLAGS_DRV_MODE and XDP_FLAGS_SKB_MODE.
pub data XdpMode : Type 0 where
  drv_mode skb_mode : XdpMode

-- The maps of an object that is loaded: the queue sizes of the CPU map, and the two arrays.
pub record BpfMaps : Type 0 where
  pub cpu_map : ℕ → Option ℕ
  pub cpus_available : ℕ → ℕ
  pub cpu_count : ℕ

-- The maps under PIN_DIR, and the program on each interface, which keeps its maps alive.
pub record Host : Type 0 where
  pub is_pinned : Bool
  pub attached : ℕ → Option (XdpMode × BpfMaps)

-- What the kernel and libbpf answer: the number of an interface, 0 for none; the number of possible
-- CPUs as an int in 32 bits; whether an object opens, loads and has its parts; whether the CPU map
-- takes a CPU with a queue size, whether the maps are pinned, and whether the program is attached or
-- detached. `default_object` is the object next to the binary. A CPU map takes keys below its size
-- only, and maps are not pinned over maps that are.
pub record Kernel (libc : Libc) : Type 0 where
  pub if_nametoindex : libc.Text → ℕ
  pub num_possible_cpus : ℕ
  pub default_object : Option libc.Text
  pub opens : libc.Text → Bool
  pub loads : libc.Text → Bool
  pub is_complete : libc.Text → Bool
  pub takes_cpu : (cpu qsize : ℕ) → Bool
  pub pins_maps : (is_pinned : Bool) → Bool
  pub attaches : ℕ → XdpMode → Bool
  pub detaches : ℕ → XdpMode → Bool
  pub takes_cpu_below : (cpu qsize : ℕ) → takes_cpu cpu qsize ≡ true → cpu < max_cpus
  pub pins_maps_once : pins_maps true ≡ false

module _ (libc : Libc) where
  open libc use {Text}

  -- An option as `getopt` gives it; any other is answered by `usage`.
  pub data Opt : Type 0 where
    opt_i opt_c opt_q opt_o opt_w : Text → Opt
    opt_skb opt_d opt_s opt_other : Opt

  pub record Options : Type 0 where
    pub iface : Option Text
    pub cpulist : Option Text
    pub objpath : Option Text
    pub qsize : ℕ
    pub interval : ℕ
    pub do_detach : Bool
    pub do_stats : Bool
    pub xdp_flags : XdpMode

  abbrev pub default_options : Options
  default_options = record {
    iface = none;
    cpulist = none;
    objpath = none;
    qsize = 2048;
    interval = 0;
    do_detach = false;
    do_stats = false;
    xdp_flags = drv_mode;
  }

  -- The loop over the options; `none` is the exit of `usage`.
  unfoldable pub read_options : List Opt → Options → Option Options
  read_options [] o = some o
  read_options (opt_i t ∷ rest) o = read_options rest (record o { iface = some t })
  read_options (opt_c t ∷ rest) o = read_options rest (record o { cpulist = some t })
  read_options (opt_q t ∷ rest) o = read_options rest (record o { qsize = libc.atoi t })
  read_options (opt_o t ∷ rest) o = read_options rest (record o { objpath = some t })
  read_options (opt_w t ∷ rest) o = read_options rest (record o { interval = libc.atoi t })
  read_options (opt_skb ∷ rest) o = read_options rest (record o { xdp_flags = skb_mode })
  read_options (opt_d ∷ rest) o = read_options rest (record o { do_detach = true })
  read_options (opt_s ∷ rest) o = read_options rest (record o { do_stats = true })
  read_options (opt_other ∷ rest) o = none

  -- `(int) cpu >= possible`, on ints in 32 bits.
  abbrev pub is_beyond : ℕ → ℕ → Bool
  is_beyond possible cpu = leb ((possible + 2 ^ 31) % 2 ^ 32) ((cpu + 2 ^ 31) % 2 ^ 32)

  abbrev pub any_beyond : ℕ → List ℕ → Bool
  any_beyond possible [] = false
  any_beyond possible (cpu ∷ cpus) =
      if is_beyond possible cpu then true else any_beyond possible cpus

  -- How the process ends, and the host then: it exits with a code, or shows the counters.
  pub data Ending : Type 0 where
    exits : (code : ℕ) → Host → Ending
    shows_stats : (interval : ℕ) → Host → Ending

  module _ (k : Kernel libc) where
    -- Stores to an array map and to the CPU map.
    abbrev pub store : ℕ → ℕ → BpfMaps → BpfMaps
    store idx cpu m = record m {
      cpus_available = λ j.
          if idx == j
          then (if ltb idx max_cpus then cpu else m.cpus_available j)
          else m.cpus_available j;
    }

    abbrev pub add_cpu : ℕ → ℕ → BpfMaps → BpfMaps
    add_cpu cpu qsize m = record m { cpu_map = λ c. if cpu == c then some qsize else m.cpu_map c }

    -- The loop that fills the maps from index `i` on; `none` where a CPU is not taken.
    unfoldable pub fill : (qsize i : ℕ) → List ℕ → BpfMaps → Option BpfMaps
    fill qsize i [] m = some m
    fill qsize i (cpu ∷ cpus) m =
        let rest = fill qsize (i + 1) cpus (store i cpu (add_cpu cpu qsize m)) in
        if k.takes_cpu cpu qsize then rest else none

    abbrev pub new_maps : BpfMaps
    new_maps = record { cpu_map = λ c. none; cpus_available = λ j. 0; cpu_count = 0 }

    -- Pin the maps and attach the program; the pins go if that fails.
    unfoldable pub attach : Host → ℕ → XdpMode → BpfMaps → Ending
    attach h ifindex mode m =
        if not (k.pins_maps h.is_pinned)
        then exits 1 h
        else if k.attaches ifindex mode
        then exits 0 (record h {
          is_pinned = true;
          attached = λ j. if ifindex == j then some (mode, m) else h.attached j;
        })
        else exits 1 (record h { is_pinned = false })

    unfoldable pub attach_filled : Host → ℕ → XdpMode → List ℕ → Option BpfMaps → Ending
    attach_filled h ifindex mode cpus none = exits 1 h
    attach_filled h ifindex mode cpus (some m) =
        attach h ifindex mode (record m { cpu_count = length cpus })

    -- From the open of the object on.
    unfoldable pub load : Host → ℕ → Options → List ℕ → Option Text → Ending
    load h ifindex o cpus none = exits 1 h
    load h ifindex o cpus (some path) =
        if not (k.opens path)
        then exits 1 h
        else if not (k.loads path)
        then exits 1 h
        else if not (k.is_complete path)
        then exits 1 h
        else attach_filled h ifindex o.xdp_flags cpus (fill o.qsize 0 cpus new_maps)

    -- On what `parse_cpulist` makes of the list.
    unfoldable pub steer_to : Host → ℕ → Options → Parsed → Ending
    steer_to h ifindex o bad_item = exits 1 h
    steer_to h ifindex o too_many = exits 1 h
    steer_to h ifindex o (cpu_list cpus) =
        if any_beyond k.num_possible_cpus cpus
        then exits 1 h
        else load h ifindex o cpus
            (elim o.objpath [ some path ↦ some path | none ↦ k.default_object ])

    abbrev pub is_mode : XdpMode → XdpMode → Bool
    is_mode drv_mode drv_mode = true
    is_mode skb_mode skb_mode = true
    is_mode _ _ = false

    -- The program of a mode, if any, taken off an interface.
    abbrev pub without_mode : XdpMode → Option (XdpMode × BpfMaps) → Option (XdpMode × BpfMaps)
    without_mode mode none = none
    without_mode mode (some (mode', m)) = if is_mode mode mode' then none else some (mode', m)

    -- `detach`, which removes the pins whatever the kernel answers.
    unfoldable pub detach : Host → ℕ → XdpMode → Ending
    detach h ifindex mode =
        if k.detaches ifindex mode
        then exits 0 (record h {
          is_pinned = false;
          attached = λ j. if ifindex == j then without_mode mode (h.attached j) else h.attached j;
        })
        else exits 1 (record h { is_pinned = false })

    unfoldable pub run_on : Host → Options → ℕ → Ending
    run_on h o ifindex =
        if ifindex == 0
        then exits 1 h
        else if o.do_detach
        then detach h ifindex o.xdp_flags
        else (elim o.cpulist [
          | none ↦ exits 1 h
          | some s ↦ steer_to h ifindex o (parse_cpulist libc s max_cpus)
        ])

    -- `main`, on the options of the command line.
    unfoldable pub run : Host → List Opt → Ending
    run h opts = elim (read_options opts default_options) [
      | none ↦ exits 1 h
      | some o ↦
          if o.do_stats
          then shows_stats o.interval h
          else (elim o.iface [ none ↦ exits 1 h | some name ↦ run_on h o (k.if_nametoindex name) ])
    ]
