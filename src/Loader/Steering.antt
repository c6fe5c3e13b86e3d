-- ===== src/Loader/Steering.antt =====
-- What the loader leaves to the XDP program, and what the program does with it.
use l2tvpp.Common.{
  if_cases, ℕ, zero, suc, ◌+◌, ◌%◌, ◌≤◌, ◌<◌, ◌≡◌, ◌≢◌, ◌⊎◌, refl, sym, ◌∙◌, subst, inl, inr, Bool,
  true, false, not, Bool-cases, Option, some, none, List, [], ◌∷◌, length, get_elem?,
  get_elem?-in_range, ltb, ◌==◌, if◌then◌else◌, arith, Returns,
}
use native.Mathlib.Nat.{mod-lt}
use l2tvpp.Header.{session_hash}
use l2tvpp.Steer.{Maps, Verdict, pass, redirect_to, pass_other, pass_ctrl, choose_cpu, l2tp_steer}
use l2tvpp.Steer.Safety.{l2tp_steer_returns}
use l2tvpp.Loader.{Libc, max_cpus, Parsed, cpu_list, bad_item, too_many, parse_cpulist}
use l2tvpp.Loader.Cpulist.{IsParsed, parse_cpulist-IsParsed}
use l2tvpp.Loader.Run.{
  XdpMode, BpfMaps, Host, Kernel, Options, Opt, default_options, read_options, any_beyond, Ending,
  exits, shows_stats, store, add_cpu, fill, new_maps, attach, attach_filled, load, steer_to, run_on,
  run,
}

abbrev pub is_some {ℓ} : {A : Type ℓ} → Option A → Bool
is_some none = false
is_some (some x) = true

-- The maps as the XDP program looks them up: an array answers for each index below its size, and
-- `bpf_redirect_map` redirects to a CPU that the CPU map has.
abbrev pub seen : BpfMaps → Maps
seen m = record {
  cpu_count = some m.cpu_count;
  cpus_available = λ i. if ltb i max_cpus then some (m.cpus_available i) else none;
  redirects = λ cpu. is_some (m.cpu_map cpu);
}

-- The arrays hold a list of CPUs, and the CPU map has them with a queue size.
pub record HoldsCpus (qsize : ℕ) (cpus : List ℕ) (m : BpfMaps) : Type 0 where
  pub counted : m.cpu_count ≡ length cpus
  pub fits : length cpus ≤ max_cpus
  pub available : (n cpu : ℕ) → get_elem? cpus n ≡ some cpu → m.cpus_available n ≡ cpu
  pub mapped : (n cpu : ℕ) → get_elem? cpus n ≡ some cpu → m.cpu_map cpu ≡ some qsize

-- A packet is passed as other traffic or as control, or goes to a CPU of a list.
abbrev pub IsPlaced : List ℕ → Verdict → Type 0
IsPlaced cpus (pass s) = (s ≡ pass_other) ⊎ (s ≡ pass_ctrl)
IsPlaced cpus (redirect_to cpu) = (n : ℕ) × (get_elem? cpus n ≡ some cpu)

choose_cpu-IsPlaced :
    (qsize : ℕ) (cpus : List ℕ) (m : BpfMaps)
    → HoldsCpus qsize cpus m
    → 0 < length cpus
    → (tid sid : ℕ) → IsPlaced cpus (choose_cpu (seen m) tid sid)
unfolding choose_cpu
choose_cpu-IsPlaced qsize cpus m h pos tid sid =
    let i = session_hash tid sid % m.cpu_count in
    let some_cpus : 0 < m.cpu_count = omega (arith, h.counted) in
    let below : i < length cpus =
      omega (arith, mod-lt (session_hash tid sid) some_cpus, h.counted) in
    let at = get_elem?-in_range cpus i below in
    let not_empty : (m.cpu_count == 0) ≡ false = ground arith in
    let in_array : ltb i max_cpus ≡ true = ground (arith, h.fits) in
    rw (not_empty, in_array, h.available i at.value at.returns, h.mapped i at.value at.returns)
      (i, at.returns)

module _ (libc : Libc) (k : Kernel libc) where
  -- What filling from an index on leaves.
  abbrev Fills : ℕ → ℕ → List ℕ → BpfMaps → BpfMaps → Type 0
  Fills qsize i cpus m m' =
      ((j : ℕ) → j < i → m'.cpus_available j ≡ m.cpus_available j)
      × ((n cpu : ℕ) → get_elem? cpus n ≡ some cpu → m'.cpus_available (i + n) ≡ cpu)
      × ((n cpu : ℕ) → get_elem? cpus n ≡ some cpu → m'.cpu_map cpu ≡ some qsize)
      × ((cpu : ℕ) → m.cpu_map cpu ≡ some qsize → m'.cpu_map cpu ≡ some qsize)

  fill-Fills :
      (qsize i : ℕ) (cpus : List ℕ) (m m' : BpfMaps)
      → i + length cpus ≤ max_cpus
      → fill libc k qsize i cpus m ≡ some m'
      → Fills qsize i cpus m m'
  unfolding fill
  fill-Fills qsize i [] m m' h e =
      let same : m ≡ m' = cc in
      subst (Fills qsize i [] m) same (
        (λ j b. refl),
        (λ n c g. absurd (ground arith)),
        (λ n c g. absurd (ground arith)),
        λ c g. g,
      )
  fill-Fills qsize i (cpu ∷ cpus) m m' h e = elim (Bool-cases (k.takes_cpu cpu qsize)) [
    | inr refused ↦ absurd (ground arith)
    | inl taken ↦
        let (before, avail, mapped, kept) =
          fill-Fills qsize (i + 1) cpus (store libc k i cpu (add_cpu libc k cpu qsize m)) m'
            (omega arith) (ground arith) in
        (
          (λ j b. before j (omega (arith, b)) ∙ ground arith),
          (λ n c g. available n c g before avail),
          (λ n c g. in_map n c g mapped kept),
          λ c g. kept c (ground (arith, g)),
        )
  ]
    where
      available :
          (n c : ℕ)
          → get_elem? (cpu ∷ cpus) n ≡ some c
          → ((j : ℕ)
              → j < i + 1
              → m'.cpus_available j
                ≡ (store libc k i cpu (add_cpu libc k cpu qsize m)).cpus_available j)
          → ((n' c' : ℕ) → get_elem? cpus n' ≡ some c' → m'.cpus_available (i + 1 + n') ≡ c')
          → m'.cpus_available (i + n) ≡ c
      available zero c g before avail =
          let at : i + 0 ≡ i = omega arith in rw at (before i (omega arith) ∙ ground (arith, g))
      available (suc n) c g before avail =
          let at : i + suc n ≡ i + 1 + n = omega arith in rw at (avail n c g)

      in_map :
          (n c : ℕ)
          → get_elem? (cpu ∷ cpus) n ≡ some c
          → ((n' c' : ℕ) → get_elem? cpus n' ≡ some c' → m'.cpu_map c' ≡ some qsize)
          → ((c' : ℕ)
              → (if cpu == c' then some qsize else m.cpu_map c') ≡ some qsize
              → m'.cpu_map c' ≡ some qsize)
          → m'.cpu_map c ≡ some qsize
      in_map zero c g mapped kept = kept c (ground (arith, g))
      in_map (suc n) c g mapped kept = mapped n c g

  fill-HoldsCpus :
      (qsize : ℕ) (cpus : List ℕ) (m : BpfMaps)
      → length cpus ≤ max_cpus
      → fill libc k qsize 0 cpus (new_maps libc k) ≡ some m
      → HoldsCpus qsize cpus (record m { cpu_count = length cpus })
  fill-HoldsCpus qsize cpus m h e =
      let (_, avail, mapped, _) =
        fill-Fills qsize 0 cpus (new_maps libc k) m (omega (arith, h)) e in
      record {
        counted = refl;
        fits = h;
        available = λ n cpu g. let at : n ≡ 0 + n = omega arith in rw at (avail n cpu g);
        mapped = mapped;
      }

  module _ (h : Host) (o : Options libc) where
    -- What a run that neither detaches nor shows counters leaves, by its exit code.
    abbrev pub Attaches : Ending libc → Type 0
    Attaches (shows_stats i h') = ⊥
    Attaches (exits zero h') =
        (name : libc.Text) × (s : libc.Text) × (cpus : List ℕ) × (m : BpfMaps) × (o.iface
          ≡ some name)
        × (k.if_nametoindex name ≢ 0)
        × (o.cpulist ≡ some s)
        × (parse_cpulist libc s max_cpus ≡ cpu_list cpus)
        × (any_beyond libc k.num_possible_cpus cpus ≡ false)
        × (h'.is_pinned ≡ true)
        × (h'.attached (k.if_nametoindex name) ≡ some (o.xdp_flags, m))
        × ((j : ℕ) → k.if_nametoindex name ≢ j → h'.attached j ≡ h.attached j)
        × HoldsCpus o.qsize cpus m
    Attaches (exits (suc code) h') = (h'.is_pinned ≡ h.is_pinned) × (h'.attached ≡ h.attached)

    module _ (name s : libc.Text) (cpus : List ℕ) (on : o.iface ≡ some name)
        (there : k.if_nametoindex name ≢ 0) (listed : o.cpulist ≡ some s)
        (parsed : parse_cpulist libc s max_cpus ≡ cpu_list cpus) (fits : length cpus ≤ max_cpus)
        (exist : any_beyond libc k.num_possible_cpus cpus ≡ false) where
      abbrev ifindex : ℕ
      ifindex = k.if_nametoindex name

      attach-Attaches :
          (m : BpfMaps)
          → HoldsCpus o.qsize cpus m
          → Attaches (attach libc k h ifindex o.xdp_flags m)
      unfolding attach
      attach-Attaches m holds =
          if_cases Attaches (not (k.pins_maps h.is_pinned)) (λ _. (refl, refl))
            λ pins.
              if_cases Attaches (k.attaches ifindex o.xdp_flags)
                (λ _. (
                  name,
                  s,
                  cpus,
                  m,
                  on,
                  there,
                  listed,
                  parsed,
                  exist,
                  refl,
                  ground arith,
                  (λ j d. ground arith),
                  holds,
                ))
                (λ _. (not_pinned (h.is_pinned) refl pins, refl))
        where
          not_pinned :
              (b : Bool) → h.is_pinned ≡ b → not (k.pins_maps b) ≡ false → false ≡ h.is_pinned
          not_pinned false is pins = sym is
          not_pinned true is pins = absurd (ground (arith, k.pins_maps_once))

      attach_filled-Attaches :
          (f : Option BpfMaps)
          → fill libc k o.qsize 0 cpus (new_maps libc k) ≡ f
          → Attaches (attach_filled libc k h ifindex o.xdp_flags cpus f)
      unfolding attach_filled
      attach_filled-Attaches none e = (refl, refl)
      attach_filled-Attaches (some m) e = attach-Attaches _ (fill-HoldsCpus o.qsize cpus m fits e)

      load-Attaches : (path : Option libc.Text) → Attaches (load libc k h ifindex o cpus path)
      unfolding load
      load-Attaches none = (refl, refl)
      load-Attaches (some path) =
          if_cases Attaches (not (k.opens path)) (λ _. (refl, refl))
            λ _.
              if_cases Attaches (not (k.loads path)) (λ _. (refl, refl))
                λ _.
                  if_cases Attaches (not (k.is_complete path)) (λ _. (refl, refl))
                    λ _. attach_filled-Attaches _ refl

    steer_to-Attaches :
        (name s : libc.Text) (r : Parsed)
        → o.iface ≡ some name
        → k.if_nametoindex name ≢ 0
        → o.cpulist ≡ some s
        → parse_cpulist libc s max_cpus ≡ r
        → IsParsed libc max_cpus (libc.tokens s) r
        → Attaches (steer_to libc k h (k.if_nametoindex name) o r)
    unfolding steer_to
    steer_to-Attaches name s bad_item on there listed e p = (refl, refl)
    steer_to-Attaches name s too_many on there listed e p = (refl, refl)
    steer_to-Attaches name s (cpu_list cpus) on there listed e (_, fits) =
        if_cases Attaches (any_beyond libc k.num_possible_cpus cpus) (λ _. (refl, refl))
          λ exist. load-Attaches name s cpus on there listed e fits exist _

    run_on-Attaches :
        (name : libc.Text)
        → o.iface ≡ some name
        → o.do_detach ≡ false
        → Attaches (run_on libc k h o (k.if_nametoindex name))
    unfolding run_on
    run_on-Attaches name on no_detach =
        if_cases Attaches (k.if_nametoindex name == 0) (λ _. (refl, refl))
          λ index. rw no_detach (on_list (ground (arith, index)) o.cpulist refl)
      where
        on_list :
            k.if_nametoindex name ≢ 0
            → (c : Option libc.Text) → o.cpulist ≡ c
            → Attaches (elim c [
              | none ↦ exits 1 h
              | some s ↦ steer_to libc k h (k.if_nametoindex name) o (parse_cpulist libc s max_cpus)
            ])
        on_list there none e = (refl, refl)
        on_list there (some s) e =
            steer_to-Attaches name s _ on there e refl (parse_cpulist-IsParsed libc s max_cpus)

  -- A run whose options ask neither for a detach nor for the counters ends. With exit code 0, the
  -- list parses to at most 256 CPUs, none of which is beyond the possible ones as an int, the maps
  -- are pinned, and the program is on the interface, in the mode of the options, with maps that hold
  -- the CPUs of the list in order; other interfaces keep theirs. With any other code, what was pinned
  -- and attached stays.
  pub run-Attaches :
      (h : Host) (opts : List (Opt libc)) (o : Options libc)
      → read_options libc opts (default_options libc) ≡ some o
      → o.do_stats ≡ false
      → o.do_detach ≡ false
      → Attaches h o (run libc k h opts)
  unfolding run
  run-Attaches h opts o read no_stats no_detach = rw (run, read, no_stats) (on_iface o.iface refl)
    where
      on_iface :
          (i : Option libc.Text)
          → o.iface ≡ i
          → Attaches h o
              (elim i [ none ↦ exits 1 h | some name ↦ run_on libc k h o (k.if_nametoindex name) ])
      on_iface none e = (refl, refl)
      on_iface (some name) e = run_on-Attaches h o name e no_detach

  -- Once such a run exits with code 0 for a list that parses to one CPU or more, the XDP program, with
  -- the maps that the loader attached it with, reads only inside any packet and returns, and never
  -- fails to redirect: it passes the packet as other traffic or as control, or redirects it to a CPU
  -- of the list.
  pub run-IsPlaced :
      (h h' : Host) (opts : List (Opt libc)) (o : Options libc) (s : libc.Text) (cpus : List ℕ)
      (name : libc.Text) (mode : XdpMode) (m : BpfMaps) (p : List ℕ)
      → read_options libc opts (default_options libc) ≡ some o
      → o.do_stats ≡ false
      → o.do_detach ≡ false
      → run libc k h opts ≡ exits 0 h'
      → o.iface ≡ some name
      → h'.attached (k.if_nametoindex name) ≡ some (mode, m)
      → o.cpulist ≡ some s
      → parse_cpulist libc s max_cpus ≡ cpu_list cpus
      → 0 < length cpus
      → Returns (l2tp_steer (seen m) p) (IsPlaced cpus)
  run-IsPlaced h h' opts o s cpus name mode m p read no_stats no_detach e on at listed parsed pos =
      let (name', s', cpus', m', on', _, listed', parsed', _, _, at', _, holds) =
        subst (Attaches h o) e (run-Attaches h opts o read no_stats no_detach) in
      let same_name : name' ≡ name = cc in
      let same_text : s' ≡ s = cc in
      let same_cpus : cpus' ≡ cpus = cc in
      let same_maps : m' ≡ m = cc in
      let holds' : HoldsCpus o.qsize cpus m = rw (← same_cpus, ← same_maps) holds in
      l2tp_steer_returns (IsPlaced cpus) (seen m) (inl refl) (inr refl)
        (choose_cpu-IsPlaced o.qsize cpus m holds' pos) p
