-- ===== src/Loader/Cpulist.antt =====
-- The CPU list of xdp/l2tp_steer.c, item by item.
use l2tvpp.Common.{
  subst, ℕ, zero, suc, ◌+◌, ◌-◌, ◌%◌, ◌^◌, ◌≤◌, ◌<◌, ◌≡◌, ◌⊎◌, refl, sym, ap, ◌∙◌, inl, inr, false,
  Bool-cases, Option, some, none, Option-cases, List, [], ◌∷◌, ◌++◌, length, length-append, leb,
  arith,
}
use mathlib.Core.List.{append_assoc, append-nil}
use l2tvpp.Loader.{
  Libc, Parsed, cpu_list, bad_item, too_many, add_range, interval, parse_items, parse_cpulist,
}

-- The numbers from one on, and those between two ends, which are none if the ends are swapped.
abbrev pub up : ℕ → ℕ → List ℕ
up a zero = []
up a (suc n) = a ∷ up (suc a) n

length-up : (a n : ℕ) → length (up a n) ≡ n
length-up a zero = refl
length-up a (suc n) = ap suc (length-up (suc a) n)

-- What the loop over a range leaves: all its numbers, if it ends below the last 32-bit number and
-- there is room for them.
abbrev IsAdded : ℕ → ℕ → ℕ → List ℕ → Option (List ℕ) → Type 0
IsAdded room c b cpus none = (c ≤ b) × ((room < b + 1 - c) ⊎ (b + 1 ≡ 2 ^ 32))
IsAdded room c b cpus (some more) =
    (more ≡ cpus ++ up c (b + 1 - c)) × (b + 1 - c ≤ room) × (c ≤ b → b + 1 < 2 ^ 32)

add_range-empty :
    (room c b : ℕ) (cpus : List ℕ) → leb c b ≡ false → IsAdded room c b cpus (some cpus)
add_range-empty room c b cpus e =
    let z : b + 1 - c ≡ 0 = ground arith in
    (rw z (sym (append-nil cpus)), omega (arith, z), λ h. absurd (ground arith))

add_range-next :
    (room c b : ℕ) (cpus : List ℕ) (o : Option (List ℕ))
    → c ≤ b
    → b < 2 ^ 32
    → IsAdded room ((c + 1) % 2 ^ 32) b (cpus ++ (c ∷ [])) o
    → IsAdded (suc room) c b cpus o
add_range-next room c b cpus none h hb (h', inl full) = elim (Bool-cases (leb (2 ^ 32) (c + 1))) [
  | inl last ↦ (h, inr (ground arith))
  | inr before ↦ (h, inl (ground arith))
]
add_range-next room c b cpus none h hb (h', inr last) = (h, inr last)
add_range-next room c b cpus (some more) h hb (e, fits, below) =
    elim (Bool-cases (leb (2 ^ 32) (c + 1))) [
      | inl last ↦
          let wraps : (c + 1) % 2 ^ 32 ≡ 0 = ground arith in
          let low : (c + 1) % 2 ^ 32 ≤ b = omega (arith, wraps) in
          absurd (ground (arith, below low))
      | inr before ↦
          let step : (c + 1) % 2 ^ 32 ≡ suc c = ground arith in
          let size : b + 1 - c ≡ suc (b + 1 - suc c) = omega arith in
          (
            e ∙ rw (step, size) (append_assoc cpus (c ∷ []) (up (suc c) (b + 1 - suc c))),
            omega (arith, fits, step),
            λ _. elim (Bool-cases (leb (suc c) b)) [
              | inl more_left ↦ below (ground (arith, step))
              | inr at_end ↦ ground arith
            ],
          )
    ]

add_range-IsAdded :
    (room c b : ℕ) (cpus : List ℕ)
    → c < 2 ^ 32
    → b < 2 ^ 32
    → IsAdded room c b cpus (add_range room c b cpus)
unfolding add_range
add_range-IsAdded zero c b cpus hc hb = elim (Bool-cases (leb c b)) [
  | inl e ↦ rw e (ground arith, inl (ground arith))
  | inr e ↦ rw e (add_range-empty 0 c b cpus e)
]
add_range-IsAdded (suc room) c b cpus hc hb = elim (Bool-cases (leb c b)) [
  | inl e ↦ rw e (
      add_range-next room c b cpus _ (ground arith) hb
        (add_range-IsAdded room ((c + 1) % 2 ^ 32) b (cpus ++ (c ∷ [])) (omega arith) hb))
  | inr e ↦ rw e (add_range-empty (suc room) c b cpus e)
]

module _ (libc : Libc) where
  open libc use {Token, scan_range_fits, scan_single_fits}

  interval_fits :
      (tok : Token) (a b : ℕ) → interval libc tok ≡ some (a, b) → (a < 2 ^ 32) × (b < 2 ^ 32)
  unfolding interval
  interval_fits tok a b e = elim (Option-cases (libc.scan_range tok)) [
    | inr (ends, range) ↦ scan_range_fits tok a b (ground (arith))
    | inl no_range ↦ elim (Option-cases (libc.scan_single tok)) [
      | inl nothing ↦ absurd (ground arith)
      | inr (c, single) ↦
          let is_a : c ≡ a = ground arith in
          let is_b : c ≡ b = ground arith in
          let fits = scan_single_fits tok c single in (omega (arith, is_a), omega (arith, is_b))
    ]
  ]

  -- The CPUs of a list of items: each item scans, and gives the numbers from its first to its second
  -- end. No range ends at the last 32-bit number.
  abbrev pub Reads : List Token → List ℕ → Type 0
  Reads [] cpus = cpus ≡ []
  Reads (tok ∷ toks) cpus =
      (a : ℕ) × (b : ℕ) × (rest : List ℕ) × (interval libc tok ≡ some (a, b))
      × (a ≤ b → b + 1 < 2 ^ 32)
      × Reads toks rest
      × (cpus ≡ up a (b + 1 - a) ++ rest)

  module _ (max : ℕ) where
    -- What the parse from a list of `n` CPUs on finds.
    abbrev Continues : List ℕ → List Token → Parsed → Type 0
    Continues acc toks (cpu_list cpus) =
        (more : List ℕ) × Reads toks more × (cpus ≡ acc ++ more) × (length cpus ≤ max)
    Continues acc toks bad_item =
        (before : List Token) × (tok : Token) × (after : List Token) × (more : List ℕ) × (toks
          ≡ before ++ (tok ∷ after))
        × Reads before more
        × (length acc + length more ≤ max)
        × (interval libc tok ≡ none)
    Continues acc toks too_many =
        (before : List Token) × (tok : Token) × (after : List Token) × (more : List ℕ) × (toks
          ≡ before ++ (tok ∷ after))
        × Reads before more
        × (length acc + length more ≤ max)
        × (a : ℕ) × (b : ℕ) × (interval libc tok ≡ some (a, b))
        × (a ≤ b)
        × ((max < length acc + length more + (b + 1 - a)) ⊎ (b + 1 ≡ 2 ^ 32))

    Continues-item :
        (acc : List ℕ) (tok : Token) (toks : List Token) (a b : ℕ) (r : Parsed)
        → interval libc tok ≡ some (a, b)
        → (a ≤ b → b + 1 < 2 ^ 32)
        → Continues (acc ++ up a (b + 1 - a)) toks r
        → Continues acc (tok ∷ toks) r
    Continues-item acc tok toks a b (cpu_list cpus) e h (more, reads, is, fits) = (
      up a (b + 1 - a) ++ more,
      (a, b, more, e, h, reads, refl),
      is ∙ append_assoc acc (up a (b + 1 - a)) more,
      fits,
    )
    Continues-item acc tok toks a b bad_item e h (before, t, after, more, is, reads, fits, bad) = (
      tok ∷ before,
      t,
      after,
      up a (b + 1 - a) ++ more,
      ap (λ l. tok ∷ l) is,
      (a, b, more, e, h, reads, refl),
      omega (
        arith,
        fits,
        length-append acc (up a (b + 1 - a)),
        length-append (up a (b + 1 - a)) more,
      ),
      bad,
    )
    Continues-item acc tok toks a b too_many e h
          (before, t, after, more, is, reads, fits, c, d, f, g, z) =
        (
          tok ∷ before,
          t,
          after,
          up a (b + 1 - a) ++ more,
          ap (λ l. tok ∷ l) is,
          (a, b, more, e, h, reads, refl),
          omega (
            arith,
            fits,
            length-append acc (up a (b + 1 - a)),
            length-append (up a (b + 1 - a)) more,
          ),
          c,
          d,
          f,
          g,
          elim z [
            | inl full ↦ inl (
                omega (
                  arith,
                  full,
                  length-append acc (up a (b + 1 - a)),
                  length-append (up a (b + 1 - a)) more,
                ))
            | inr last ↦ inr last
          ],
        )

    parse_items-Continues :
        (toks : List Token) (acc : List ℕ)
        → length acc ≤ max
        → Continues acc toks (parse_items libc max toks acc)
    unfolding parse_items
    parse_items-Continues [] acc h = ([], refl, sym (append-nil acc), h)
    parse_items-Continues (tok ∷ toks) acc h =
        item (interval libc tok) refl (parse_items-Continues toks)
      where
        Later : Type 0
        Later =
            (more : List ℕ)
            → length more ≤ max
            → Continues more toks (parse_items libc max toks more)

        room : ℕ
        room = max - length acc

        range :
            (a b : ℕ) (o : Option (List ℕ))
            → interval libc tok ≡ some (a, b)
            → add_range room a b acc ≡ o
            → IsAdded room a b acc o
            → Later
            → Continues acc (tok ∷ toks) (parse_items libc max (tok ∷ toks) acc)
        range a b none e added (le, full) later =
            rw (parse_items, e, added)
              (
                [],
                tok,
                toks,
                [],
                refl,
                refl,
                omega (arith, h),
                a,
                b,
                e,
                le,
                elim full [ inl z ↦ inl (omega (arith, z, h)) | inr last ↦ inr last ],
              )
        range a b (some more) e added (is, fits, below) later =
            let size : length more ≤ max = rw is (
              omega
                (arith, h, fits, length-append acc (up a (b + 1 - a)), length-up a (b + 1 - a))) in
            rw (parse_items, e, added)
              (Continues-item acc tok toks a b _ e below (
                subst (λ l. Continues l toks (parse_items libc max toks more)) is
                  (later more size)))

        item :
            (o : Option (ℕ × ℕ))
            → interval libc tok ≡ o
            → Later
            → Continues acc (tok ∷ toks) (parse_items libc max (tok ∷ toks) acc)
        item none e later = rw (parse_items, e) ([], tok, toks, [], refl, refl, omega (arith, h), e)
        item (some (a, b)) e later =
            let (ha, hb) = interval_fits tok a b e in
            range a b (add_range room a b acc) e refl (add_range-IsAdded room a b acc ha hb) later

  -- What `parse_cpulist` makes of the items of a list, with room for `max` CPUs.
  abbrev pub IsParsed : ℕ → List Token → Parsed → Type 0
  IsParsed max toks (cpu_list cpus) = Reads toks cpus × (length cpus ≤ max)
  IsParsed max toks bad_item =
      (before : List Token) × (tok : Token) × (after : List Token) × (cpus : List ℕ) × (toks
        ≡ before ++ (tok ∷ after))
      × Reads before cpus
      × (length cpus ≤ max)
      × (interval libc tok ≡ none)
  IsParsed max toks too_many =
      (before : List Token) × (tok : Token) × (after : List Token) × (cpus : List ℕ) × (toks
        ≡ before ++ (tok ∷ after))
      × Reads before cpus
      × (length cpus ≤ max)
      × (a : ℕ) × (b : ℕ) × (interval libc tok ≡ some (a, b))
      × (a ≤ b)
      × ((max < length cpus + (b + 1 - a)) ⊎ (b + 1 ≡ 2 ^ 32))

  from_start :
      (max : ℕ) (toks : List Token) (r : Parsed) → Continues max [] toks r → IsParsed max toks r
  from_start max toks (cpu_list cpus) (more, reads, is, fits) =
      (subst (Reads toks) (sym is) reads, fits)
  from_start max toks bad_item (before, tok, after, cpus, is, reads, fits, bad) =
      (before, tok, after, cpus, is, reads, omega (arith, fits), bad)
  from_start max toks too_many (before, tok, after, cpus, is, reads, fits, a, b, e, le, full) = (
    before,
    tok,
    after,
    cpus,
    is,
    reads,
    omega (arith, fits),
    a,
    b,
    e,
    le,
    elim full [ inl z ↦ inl (omega (arith, z)) | inr last ↦ inr last ],
  )

  -- `parse_cpulist` ends on every list. It returns the numbers of all ranges one after the other if
  -- every item scans, no range ends at 2^32 - 1 and they are `max` at most. It exits with a message
  -- on the first item that does not scan, or whose numbers go beyond `max` or end at 2^32 - 1.
  pub parse_cpulist-IsParsed :
      (s : libc.Text) (max : ℕ) → IsParsed max (libc.tokens s) (parse_cpulist libc s max)
  unfolding parse_cpulist
  parse_cpulist-IsParsed s max =
      from_start max (libc.tokens s) _ (parse_items-Continues max (libc.tokens s) [] (omega arith))
