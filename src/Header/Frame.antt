-- ===== src/Header/Frame.antt =====
-- RFC 2661's layout of a data packet's header, written as an encoder: what a peer sends.
use l2tvpp.Common.{
  ℕ, ◌+◌, ◌/◌, ◌%◌, ◌≤◌, ◌<◌, ◌≡◌, refl, ap, sym, ◌∙◌, subst, Bool, true, false, bit_and, Option,
  none, some, List, [], ◌∷◌, ◌++◌, length, arith, if◌then◌else◌, read_u16, read_u16-append,
}
use l2tvpp.Header.{hdr_data, hdr_t, hdr_l, hdr_s, hdr_o, hdr_p, hdr_ver, has_bit, parse_hdr}
use l2tvpp.Header.Parse.{ids_offset, parse_hdr_data}

-- A 16-bit number in network byte order.
abbrev pub word16 : ℕ → List ℕ
word16 n = n / 256 % 256 ∷ n % 256 ∷ []

-- A data header: L with the length, S with Ns and Nr, O with the offset pad, and P.
pub record Frame : Type 0 where
  pub tid : ℕ
  pub sid : ℕ
  pub total : Option ℕ
  pub sequence : Option (ℕ × ℕ)
  pub pad : Option (List ℕ)
  pub priority : Bool

abbrev pub is_some {ℓ} : {A : Type ℓ} → Option A → Bool
is_some none = false
is_some (some a) = true

abbrev pub flags_word : Bool → Bool → Bool → Bool → ℕ
flags_word l s o p =
    2
    + (if l then hdr_l else 0)
    + (if s then hdr_s else 0)
    + (if o then hdr_o else 0)
    + (if p then hdr_p else 0)

abbrev pub flags : Frame → ℕ
flags f = flags_word (is_some f.total) (is_some f.sequence) (is_some f.pad) f.priority

abbrev pub total_bytes : Option ℕ → List ℕ
total_bytes none = []
total_bytes (some n) = word16 n

abbrev pub sequence_bytes : Option (ℕ × ℕ) → List ℕ
sequence_bytes none = []
sequence_bytes (some (ns, nr)) = word16 ns ++ word16 nr

abbrev pub pad_bytes : Option (List ℕ) → List ℕ
pad_bytes none = []
pad_bytes (some xs) = word16 (length xs) ++ xs

abbrev pub pad_size : Option (List ℕ) → ℕ
pad_size none = 0
pad_size (some xs) = length xs

-- The header, up to the session id and from there to the PPP header.
abbrev pub ids_bytes : Frame → List ℕ
ids_bytes f = word16 (flags f) ++ (total_bytes f.total ++ (word16 f.tid ++ word16 f.sid))

abbrev pub options_bytes : Frame → List ℕ
options_bytes f = sequence_bytes f.sequence ++ pad_bytes f.pad

pub record IsFrame (f : Frame) : Type 0 where
  pub tid_fits : f.tid < 65536
  pub sid_fits : f.sid < 65536
  pub pad_fits : pad_size f.pad < 65536

-- The word of the flags has version 2, no T bit, and the bits that it is made of.
pub flags_word_bits :
    (l s o p : Bool)
    → (bit_and (flags_word l s o p) hdr_ver ≡ 2)
      × (has_bit (flags_word l s o p) hdr_t ≡ false)
      × (has_bit (flags_word l s o p) hdr_l ≡ l)
      × (has_bit (flags_word l s o p) hdr_s ≡ s)
      × (has_bit (flags_word l s o p) hdr_o ≡ o)
      × (flags_word l s o p < 65536)
flags_word_bits l s o p = ground arith

pub read_u16-word16 : (n : ℕ) (rest : List ℕ) → n < 65536 → read_u16 (word16 n ++ rest) 0 ≡ some n
unfolding read_u16
read_u16-word16 n rest h = ap some (omega arith)

-- The words of a header, each where the layout puts it.
abbrev ids_at : Option ℕ → ℕ
ids_at o = if is_some o then 4 else 2

abbrev words : ℕ → Option ℕ → ℕ → ℕ → List ℕ
words w o tid sid = word16 w ++ (total_bytes o ++ (word16 tid ++ word16 sid))

words_read :
    (o : Option ℕ) (w tid sid : ℕ) (rest : List ℕ)
    → w < 65536
    → tid < 65536
    → sid < 65536
    → (read_u16 (words w o tid sid ++ rest) 0 ≡ some w)
      × (read_u16 (words w o tid sid ++ rest) (ids_at o) ≡ some tid)
      × (read_u16 (words w o tid sid ++ rest) (ids_at o + 2) ≡ some sid)
      × (length (words w o tid sid) ≡ ids_at o + 4)
unfolding read_u16
words_read none w tid sid rest hw ht hs =
    (ap some (omega arith), ap some (omega arith), ap some (omega arith), refl)
words_read (some n) w tid sid rest hw ht hs =
    (ap some (omega arith), ap some (omega arith), ap some (omega arith), refl)

parse_hdr_at :
    (pre m : List ℕ) (len w tid sid : ℕ) (o : Option ℕ)
    → ids_at o + 4 ≤ len
    → bit_and w hdr_ver ≡ 2
    → has_bit w hdr_t ≡ false
    → has_bit w hdr_l ≡ is_some o
    → read_u16 m 0 ≡ some w
    → read_u16 m (ids_at o) ≡ some tid
    → read_u16 m (ids_at o + 2) ≡ some sid
    → parse_hdr (pre ++ m) (length pre) len ≡ some (hdr_data w tid sid (ids_at o + 4))
parse_hdr_at pre m len w tid sid o fits ver plain l ew et es =
    let at : ids_offset w ≡ ids_at o = ap (λ (b : Bool). if b then 4 else 2) l in
    rw (← at) (
      parse_hdr_data (pre ++ m) (length pre) len w tid sid (rw at fits) (shift 0 (omega arith) ew)
        ver plain (shift (ids_at o) (rw at refl) et)
        (shift (ids_at o + 2) (rw at (omega arith)) es))
  where
    shift :
        (i : ℕ) {j v : ℕ}
        → j ≡ length pre + i
        → read_u16 m i ≡ some v
        → read_u16 (pre ++ m) j ≡ some v
    shift i e r = rw e (read_u16-append pre m i ∙ r)

-- A peer's header at any place in memory is parsed to its flags and ids and its length, whichever
-- optional fields it has, if the ids are 16-bit numbers and the buffer holds the header.
pub parse_hdr-ids_bytes :
    (pre rest : List ℕ) (f : Frame) (len : ℕ)
    → IsFrame f
    → length (ids_bytes f) ≤ len
    → parse_hdr (pre ++ (ids_bytes f ++ rest)) (length pre) len
      ≡ some (hdr_data (flags f) f.tid f.sid (length (ids_bytes f)))
parse_hdr-ids_bytes pre rest f len v h =
    let (ver, plain, l, _, _, small) =
      flags_word_bits (is_some f.total) (is_some f.sequence) (is_some f.pad) f.priority in
    let (ew, et, es, size) =
      words_read f.total (flags f) f.tid f.sid rest small v.tid_fits v.sid_fits in
    parse_hdr_at pre _ len (flags f) f.tid f.sid f.total (subst (λ n. n ≤ len) size h) ver plain l
      ew et es
    ∙ ap (λ n. some (hdr_data (flags f) f.tid f.sid n)) (sym size)
