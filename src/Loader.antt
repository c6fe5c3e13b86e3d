-- ===== src/Loader.antt =====
-- xdp/l2tp_steer.c: the loader, which fills the maps of the XDP program with the CPUs of its command
-- line, pins them and attaches the program.
pub mod Cpulist
pub mod Run
pub mod Steering
use l2tvpp.Common.{
  ℕ, zero, suc, ◌+◌, ◌-◌, ◌%◌, ◌^◌, ◌<◌, ◌≡◌, Bool, true, false, Option, some, none, List, [], ◌∷◌,
  ◌++◌, length, ltb, leb, ◌==◌, if◌then◌else◌,
}

-- What the loader uses of libc: `atoi`, whose answer stands for an int in 32 bits, the tokens that
-- `strtok_r` cuts at commas, and `sscanf` of a token for `%u-%u` and for `%u`.
pub record Libc : Type 1 where
  pub Text : Type 0
  pub Token : Type 0
  pub atoi : Text → ℕ
  pub tokens : Text → List Token
  pub scan_range : Token → Option (ℕ × ℕ)
  pub scan_single : Token → Option ℕ
  pub scan_range_fits :
      (tok : Token) (a b : ℕ) → scan_range tok ≡ some (a, b) → (a < 2 ^ 32) × (b < 2 ^ 32)
  pub scan_single_fits : (tok : Token) (a : ℕ) → scan_single tok ≡ some a → a < 2 ^ 32

abbrev pub max_cpus : ℕ
max_cpus = 256

-- What `parse_cpulist` returns; the other two print a message and exit.
pub data Parsed : Type 0 where
  cpu_list : List ℕ → Parsed
  bad_item too_many : Parsed

-- The loop from `c` to `b`, with room for as many CPUs; `none` where it finds none left.
unfoldable pub add_range : (room c b : ℕ) (cpus : List ℕ) → Option (List ℕ)
add_range zero c b cpus = if leb c b then none else some cpus
add_range (suc room) c b cpus =
    let rest = add_range room ((c + 1) % 2 ^ 32) b (cpus ++ (c ∷ [])) in
    if leb c b then rest else some cpus

module _ (libc : Libc) where
  open libc use {Token, tokens, scan_range, scan_single}

  -- The ends of the range that an item stands for.
  unfoldable pub interval : Token → Option (ℕ × ℕ)
  interval tok = elim (scan_range tok) [
    | some ends ↦ some ends
    | none ↦ elim (scan_single tok) [ some a ↦ some (a, a) | none ↦ none ]
  ]

  -- An item and those after it, on the list so far.
  unfoldable pub parse_items : ℕ → List Token → List ℕ → Parsed
  parse_items max [] cpus = cpu_list cpus
  parse_items max (tok ∷ toks) cpus = elim (interval tok) [
    | none ↦ bad_item
    | some (a, b) ↦ elim (add_range (max - length cpus) a b cpus) [
      | none ↦ too_many
      | some more ↦ parse_items max toks more
    ]
  ]

  -- `parse_cpulist`.
  unfoldable pub parse_cpulist : libc.Text → ℕ → Parsed
  parse_cpulist s max = parse_items max (tokens s) []
