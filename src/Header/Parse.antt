-- ===== src/Header/Parse.antt =====
-- `parse_hdr` reads nothing outside its buffer, and what each of its results says of the bytes.
use l2tvpp.Common.{
  ℕ, ◌+◌, ◌≤◌, ◌<◌, ◌≡◌, refl, ◌≢◌, ◌⊎◌, inl, inr, true, false, not, bit_and, some, List, length,
  arith, ltb, ◌==◌, ◌&&◌, if◌then◌else◌, Returns, Returns-some, Returns-if, Returns-bind, read_u16,
  read_u16-in_range,
}
use l2tvpp.Header.{
  HdrRc, hdr_data, hdr_too_short, hdr_not_v2, hdr_control, hdr_t, hdr_l, hdr_ver, has_bit,
  parse_hdr,
}

-- Where RFC 2661 puts the tunnel id: behind the flags and, with the L bit, the length.
abbrev pub ids_offset : ℕ → ℕ
ids_offset f = if has_bit f hdr_l then 4 else 2

-- What a result of `parse_hdr` says of the `len` bytes at `cur`.
abbrev pub Reads : List ℕ → ℕ → ℕ → HdrRc → Type 0
Reads m cur len (hdr_data f tid sid off) =
    (read_u16 m cur ≡ some f)
    × (bit_and f hdr_ver ≡ 2)
    × (has_bit f hdr_t ≡ false)
    × (off ≡ ids_offset f + 4)
    × (off ≤ len)
    × (read_u16 m (cur + ids_offset f) ≡ some tid)
    × (read_u16 m (cur + ids_offset f + 2) ≡ some sid)
Reads m cur len hdr_too_short =
    (len < 6) ⊎ ((f : ℕ) × (read_u16 m cur ≡ some f) × (has_bit f hdr_l ≡ true) × (len < 8))
Reads m cur len hdr_not_v2 = (f : ℕ) × (read_u16 m cur ≡ some f) × (bit_and f hdr_ver ≢ 2)
Reads m cur len hdr_control =
    (f : ℕ) × (read_u16 m cur ≡ some f) × (bit_and f hdr_ver ≡ 2) × (has_bit f hdr_t ≡ true)

-- For a buffer that lies inside the memory, every read that the parse makes is inside it: the parse
-- returns, and its result describes the header bytes.
pub parse_hdr_lem :
    (m : List ℕ) (cur len : ℕ)
    → cur + len ≤ length m
    → Returns (parse_hdr m cur len) (Reads m cur len)
unfolding parse_hdr
parse_hdr_lem m cur len h =
    Returns-if (ltb len 6) (λ short. Returns-some (inl (ground arith)))
      λ long. Returns-bind (read_u16-in_range m cur (ground arith)) λ f ef _.
        Returns-if (not (bit_and f hdr_ver == 2)) (λ other. Returns-some (f, ef, ground arith))
          λ v2.
            Returns-if (has_bit f hdr_t) (λ control. Returns-some (f, ef, ground arith, control))
              λ plain.
                Returns-if (has_bit f hdr_l && ltb len 8)
                  (λ cut. Returns-some (inr (f, ef, ground arith, ground arith)))
                  λ fits.
                    Returns-bind (read_u16-in_range m (cur + ids_offset f) (ground arith))
                      λ tid et _.
                        Returns-bind (read_u16-in_range m (cur + ids_offset f + 2) (ground arith))
                          λ sid es _.
                            Returns-some (ef, ground arith, plain, refl, ground arith, et, es)

-- Conversely, the bytes of a data header that fits are parsed as such.
pub parse_hdr_data :
    (m : List ℕ) (cur len f tid sid : ℕ)
    → ids_offset f + 4 ≤ len
    → read_u16 m cur ≡ some f
    → bit_and f hdr_ver ≡ 2
    → has_bit f hdr_t ≡ false
    → read_u16 m (cur + ids_offset f) ≡ some tid
    → read_u16 m (cur + ids_offset f + 2) ≡ some sid
    → parse_hdr m cur len ≡ some (hdr_data f tid sid (ids_offset f + 4))
unfolding parse_hdr
parse_hdr_data m cur len f tid sid fits ef v2 plain et es = ground arith
