-- ===== src/Input/Decap.antt =====
-- What `l2tvpp-input` does with a data packet as RFC 2661 and RFC 1661 lay it out.
use mathlib.Core.List.{append_assoc}
use mathlib.Core.Option
use l2tvpp.Common.{
  ℕ, ◌+◌, ◌≤◌, ◌<◌, ◌≡◌, ap, sym, ◌∙◌, inl, inr, Bool, true, Option, some, none, List, [], ◌∷◌,
  ◌++◌, length, length-append, get_elem?, get_elem?-append, arith, if◌then◌else◌, read_u16,
  read_u16-append, Option-cases,
}
use mathlib.Core.Path.{ap₂}
use l2tvpp.Objects.{Session}
use l2tvpp.Header.{
  hdr_data, hdr_s, hdr_o, has_bit, parse_hdr, session_key, ppp_proto_ip4, ppp_proto_ip6,
}
use l2tvpp.Header.Frame.{
  Frame, IsFrame, flags, ids_bytes, options_bytes, sequence_bytes, pad_bytes, pad_size, is_some,
  word16, flags_word_bits, read_u16-word16, parse_hdr-ids_bytes,
}
use l2tvpp.Input.{
  Error, decap, decap_seq, decap_off, Tables, Next, ip6_input, next_ip4, skip_acfc, ppp_header,
  delivered, skip_sequence, skip_options, forward, decapsulate, after_parse, input_packet,
}

-- Which of the decapsulation counters a packet with these fields is counted under.
abbrev pub counted : Option (ℕ × ℕ) → Option (List ℕ) → Error
counted sequence (some pad) = decap_off
counted (some _) none = decap_seq
counted none none = decap

-- The PPP header, with or without FF 03 and with a protocol of one or of two bytes.
abbrev pub ppp_bytes : Bool → Bool → ℕ → List ℕ
ppp_bytes framed short proto =
    (if framed then 0xff ∷ 0x03 ∷ [] else []) ++ (if short then proto ∷ [] else word16 proto)

-- The protocols that are forwarded, each with its next node.
pub data Carries (t : Tables) : ℕ → Next → Type 0 where
  ip4 : Carries t ppp_proto_ip4 (next_ip4 t)
  ip6 : Carries t ppp_proto_ip6 ip6_input

read_u16-word16_at4 :
    (a b n : ℕ) (rest : List ℕ)
    → n < 65536
    → read_u16 (word16 a ++ (word16 b ++ (word16 n ++ rest))) 4 ≡ some n
unfolding read_u16
read_u16-word16_at4 a b n rest h = ap some (omega arith)

module _ (t : Tables) (p : List ℕ) (w off : ℕ) where
  skip_options_pad :
      (cur n : ℕ)
      → has_bit w hdr_o ≡ true
      → skip_sequence w off ≡ cur
      → cur + 2 ≤ length p
      → read_u16 p cur ≡ some n
      → skip_options t p w off ≡ some (some (cur + (2 + n), decap_off))
  unfolding skip_options
  skip_options_pad cur n o e h r = rw (o, e) (ground arith)

skip_options-bytes :
    (t : Tables) (pre rest : List ℕ) (w : ℕ) (sq : Option (ℕ × ℕ)) (pd : Option (List ℕ))
    → has_bit w hdr_s ≡ is_some sq
    → has_bit w hdr_o ≡ is_some pd
    → pad_size pd < 65536
    → skip_options t (pre ++ ((sequence_bytes sq ++ pad_bytes pd) ++ rest)) w (length pre)
      ≡ some (some (length pre + length (sequence_bytes sq ++ pad_bytes pd), counted sq pd))
unfolding skip_options
skip_options-bytes t pre rest w none none hs ho h =
    rw (hs, ho) (ap (λ n. some (some (n, decap))) (omega arith))
skip_options-bytes t pre rest w (some (ns, nr)) none hs ho h = rw (hs, ho)
skip_options-bytes t pre rest w none (some xs) hs ho h =
    let m = word16 (length xs) ++ (xs ++ rest) in
    skip_options_pad t (pre ++ m) w (length pre) (length pre + 0) (length xs) ho
      (rw hs (omega arith)) (omega (arith, length-append pre m))
      (read_u16-append pre m 0 ∙ read_u16-word16 (length xs) (xs ++ rest) h)
    ∙ ap (λ n. some (some (n, decap_off))) (omega arith)
skip_options-bytes t pre rest w (some (ns, nr)) (some xs) hs ho h =
    let m = word16 ns ++ (word16 nr ++ (word16 (length xs) ++ (xs ++ rest))) in
    skip_options_pad t (pre ++ m) w (length pre) (length pre + 4) (length xs) ho (rw hs)
      (omega (arith, length-append pre m))
      (read_u16-append pre m 4 ∙ read_u16-word16_at4 ns nr (length xs) (xs ++ rest) h)
    ∙ ap (λ n. some (some (n, decap_off))) (omega arith)

-- The PPP header is read relative to where it stands.
module _ (pre m : List ℕ) where
  one_on : (i : ℕ) → length pre + i + 1 ≡ length pre + (i + 1)
  one_on i = omega arith

  skip_acfc-append :
      (i : ℕ)
      → skip_acfc (pre ++ m) (length pre + i) ≡ Option.map (λ c. length pre + c) (skip_acfc m i)
  unfolding skip_acfc
  skip_acfc-append i =
      rw (one_on i, get_elem?-append pre m i, get_elem?-append pre m (i + 1))
        (elim (Option-cases (get_elem? m i)) [ inl e ↦ rw e | inr (b, e) ↦ rw e (ground arith) ])

  ppp_header-append :
      (i : ℕ)
      → ppp_header (pre ++ m) (length pre + i)
        ≡ Option.map (λ r. (r.0, length pre + r.1)) (ppp_header m i)
  unfolding ppp_header
  ppp_header-append i = rw (skip_acfc-append i) (elim (Option-cases (skip_acfc m i)) [
    | inl e ↦ rw e
    | inr (c, e) ↦ rw (e, get_elem?-append pre m c, read_u16-append pre m c) (ground arith)
  ])

ppp_header-bytes :
    {t : Tables} (framed short : Bool) {proto : ℕ} {n : Next} (rest : List ℕ)
    → Carries t proto n
    → ppp_header (ppp_bytes framed short proto ++ rest) 0
      ≡ some (proto, length (ppp_bytes framed short proto))
unfolding ppp_header read_u16
ppp_header-bytes framed short rest ip4 = ground arith
ppp_header-bytes framed short rest ip6 = ground arith

ppp_header_behind :
    (xs ys m : List ℕ) {proto k : ℕ}
    → ppp_header m 0 ≡ some (proto, k)
    → ppp_header (xs ++ (ys ++ m)) (length xs + length ys) ≡ some (proto, length xs + length ys + k)
ppp_header_behind xs ys m {proto} {k} e =
    let here : length xs + length ys ≡ length (xs ++ ys) + 0 = omega (arith, length-append xs ys) in
    let there : length (xs ++ ys) + k ≡ length xs + length ys + k =
      omega (arith, length-append xs ys) in
    ap₂ ppp_header (sym (append_assoc xs ys m)) here
    ∙ ppp_header-append (xs ++ ys) m 0
    ∙ ap (Option.map (λ r. (r.0, length (xs ++ ys) + r.1))) e
    ∙ ap (λ c. some (proto, c)) there

length-packet :
    (xs ys zs ws : List ℕ)
    → length (xs ++ (ys ++ (zs ++ ws))) ≡ length xs + length ys + length zs + length ws
length-packet xs ys zs ws =
    omega
      (arith, length-append xs (ys ++ (zs ++ ws)), length-append ys (zs ++ ws), length-append zs ws)

module _ (t : Tables) (p : List ℕ) (tid sid si : ℕ) (error : Error) where
  input_packet_parsed :
      {w off : ℕ} {r : Option (ℕ × Error)}
      → parse_hdr p 0 (length p) ≡ some (hdr_data w tid sid off)
      → skip_options t p w off ≡ some r
      → input_packet t p ≡ decapsulate t p tid sid r
  unfolding input_packet after_parse
  input_packet_parsed e skipped = rw (e, after_parse, skipped)

  decapsulate_found :
      (cur : ℕ) (r : ℕ × ℕ)
      → cur + 4 ≤ length p
      → t.session_by_key (session_key tid sid) ≡ some si
      → ppp_header p cur ≡ some r
      → decapsulate t p tid sid (some (cur, error)) ≡ forward t p tid sid si error r
  unfolding decapsulate
  decapsulate_found cur r fits found e = rw (found, e) (ground arith)

  forward_carried :
      {proto cur : ℕ} {n : Next} {s : Session}
      → Carries t proto n
      → t.sessions si ≡ some s
      → forward t p tid sid si error (proto, cur) ≡ some (delivered tid sid si error proto cur n s)
  unfolding forward
  forward_carried ip4 at = rw at
  forward_carried ip6 at = rw at

-- A data packet of a peer: the L2TP header, the PPP header and the IP packet.
abbrev pub packet_bytes : Frame → Bool → Bool → ℕ → List ℕ → List ℕ
packet_bytes f framed short proto payload =
    ids_bytes f ++ (options_bytes f ++ (ppp_bytes framed short proto ++ payload))

abbrev pub headers_length : Frame → Bool → Bool → ℕ → ℕ
headers_length f framed short proto =
    length (ids_bytes f) + length (options_bytes f) + length (ppp_bytes framed short proto)

ppp_bytes-pos : (framed short : Bool) (proto : ℕ) → 1 ≤ length (ppp_bytes framed short proto)
ppp_bytes-pos framed short proto = ground arith

module _ (t : Tables) (f : Frame) (framed short : Bool) (proto : ℕ) (payload : List ℕ) where
  -- The parse and the options of such a packet lead to its PPP header.
  pub input_packet-to_ppp :
      IsFrame f
      → input_packet t (packet_bytes f framed short proto payload)
        ≡ decapsulate t
            (packet_bytes f framed short proto payload)
            f.tid
            f.sid
            (some (length (ids_bytes f) + length (options_bytes f), counted f.sequence f.pad))
  input_packet-to_ppp v =
      let p = packet_bytes f framed short proto payload in
      let tail = ppp_bytes framed short proto ++ payload in
      let (_, _, _, hs, ho, _) =
        flags_word_bits (is_some f.total) (is_some f.sequence) (is_some f.pad) f.priority in
      let parsed =
        parse_hdr-ids_bytes [] (options_bytes f ++ tail) f (length p) v
          (omega (arith, length-append (ids_bytes f) (options_bytes f ++ tail))) in
      let skipped =
        skip_options-bytes t (ids_bytes f) tail (flags f) f.sequence f.pad hs ho v.pad_fits in
      input_packet_parsed t p f.tid f.sid 0 (counted f.sequence f.pad) parsed skipped

  pub ppp_fits :
      3 ≤ length payload
      → length (ids_bytes f) + length (options_bytes f) + 4
        ≤ length (packet_bytes f framed short proto payload)
  ppp_fits long = omega (
    arith,
    length-packet (ids_bytes f) (options_bytes f) (ppp_bytes framed short proto) payload,
    ppp_bytes-pos framed short proto,
  )

-- A data packet in the layout of RFC 2661 and RFC 1661, with any of the optional L2TP fields, with
-- or without FF 03 and with a protocol of one or two bytes, whose ids name a session, is advanced
-- by exactly its headers, counted by its S and O fields, and sent on the session's interface to the
-- IP node of its protocol. The ids and the pad's size are 16-bit numbers and the payload has three
-- bytes or more.
pub input_packet-packet_bytes :
    (t : Tables) (f : Frame) (framed short : Bool) (proto : ℕ) (n : Next) (payload : List ℕ)
    (si : ℕ) (s : Session)
    → IsFrame f
    → Carries t proto n
    → 3 ≤ length payload
    → t.session_by_key (session_key f.tid f.sid) ≡ some si
    → t.sessions si ≡ some s
    → input_packet t (packet_bytes f framed short proto payload)
      ≡ some (
          delivered f.tid f.sid si
            (counted f.sequence f.pad)
            proto
            (headers_length f framed short proto)
            n
            s)
input_packet-packet_bytes t f framed short proto n payload si s v c long found at =
    let p = packet_bytes f framed short proto payload in
    let error = counted f.sequence f.pad in
    let cur = length (ids_bytes f) + length (options_bytes f) in
    let ppp =
      ppp_header_behind (ids_bytes f) (options_bytes f) (ppp_bytes framed short proto ++ payload)
        (ppp_header-bytes framed short payload c) in
    input_packet-to_ppp t f framed short proto payload v
    ∙ decapsulate_found t p f.tid f.sid si error cur _
        (ppp_fits t f framed short proto payload long) found ppp
    ∙ forward_carried t p f.tid f.sid si error c at
