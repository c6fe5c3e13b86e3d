-- ===== src/Input/Safety.antt =====
-- `l2tvpp-input` on any packet: no read outside the buffer, and where the packet goes.
use l2tvpp.Common.{
  ℕ, ◌+◌, ◌≤◌, ◌≡◌, refl, ◌⊎◌, inl, inr, Option, some, none, List, length, get_elem?-in_range,
  arith, ltb, ◌==◌, Returns, Returns-some, Returns-if, Returns-bind, read_u16-in_range, ==_iff,
  Option-cases,
}
use l2tvpp.Objects.{Session}
use l2tvpp.Header.{
  HdrRc, hdr_data, hdr_too_short, hdr_not_v2, hdr_control, hdr_o, has_bit, parse_hdr, session_key,
  ppp_proto_ip4, ppp_proto_ip6,
}
use l2tvpp.Header.Parse.{parse_hdr_lem, Reads}
use l2tvpp.Input.{
  Next, ip6_input, punt, drop, Error, too_short, Action, keep, rewind_to_ip, deliver, Outcome,
  Tables, next_ip4, skip_acfc, ppp_header, skip_sequence, skip_options, forward, decapsulate,
  after_parse, input_packet,
}

-- Every key of the session table leads to a session in the pool.
abbrev pub IsConsistent : Tables → Type 0
IsConsistent t =
    (k si : ℕ) → t.session_by_key k ≡ some si → (s : Session) × (t.sessions si ≡ some s)

-- The next node that a protocol goes to.
abbrev pub Routes : Tables → ℕ → Next → Type 0
Routes t proto n =
    ((proto ≡ ppp_proto_ip4) × (n ≡ next_ip4 t)) ⊎ ((proto ≡ ppp_proto_ip6) × (n ≡ ip6_input))

-- An outcome is one of: a drop of a truncated packet; a punt from the IP header; a delivery that
-- stays inside the buffer, on the interface of the session that the packet's ids look up.
abbrev pub Handles : Tables → List ℕ → Outcome → Action → Type 0
Handles t p o keep = (o.next ≡ drop) × (o.error ≡ too_short)
Handles t p o rewind_to_ip = o.next ≡ punt
Handles t p o (deliver advance sw_if_index) =
    (advance ≤ length p)
    × Routes t o.ppp_proto o.next
    × ((si : ℕ) × (s : Session) × (t.session_by_key (session_key o.tid o.sid) ≡ some si)
        × (t.sessions si ≡ some s)
        × (s.sw_if_index ≡ sw_if_index)
        × (o.session_index ≡ some si))

abbrev pub IsHandled : Tables → List ℕ → Outcome → Type 0
IsHandled t p o = Handles t p o o.action

skip_acfc_bounds :
    (p : List ℕ) (cur : ℕ) → cur + 2 ≤ length p → Returns (skip_acfc p cur) (λ c. c ≤ cur + 2)
unfolding skip_acfc
skip_acfc_bounds p cur h = Returns-bind (get_elem?-in_range p cur (omega arith)) λ b0 _ _.
    Returns-if (b0 == 0xff)
      (λ _.
        Returns-bind (get_elem?-in_range p (cur + 1) (omega arith))
          λ b1 _ _. Returns-some (ground arith))
      (λ _. Returns-some (omega arith))

ppp_header_bounds :
    (p : List ℕ) (cur : ℕ) → cur + 4 ≤ length p → Returns (ppp_header p cur) (λ r. r.1 ≤ length p)
unfolding ppp_header
ppp_header_bounds p cur h = Returns-bind (skip_acfc_bounds p cur (omega arith)) λ c _ hc.
    Returns-bind (get_elem?-in_range p c (omega arith)) λ b0 _ _.
      Returns-if (has_bit b0 1) (λ _. Returns-some (omega arith))
        λ _. Returns-bind (read_u16-in_range p c (omega arith)) λ v _ _. Returns-some (omega arith)

module _ (t : Tables) (p : List ℕ) (consistent : IsConsistent t) where
  forward_handles :
      (tid sid si : ℕ) (error : Error) (r : ℕ × ℕ)
      → t.session_by_key (session_key tid sid) ≡ some si
      → r.1 ≤ length p
      → Returns (forward t p tid sid si error r) (IsHandled t p)
  unfolding forward
  forward_handles tid sid si error (proto, cur) found fits =
      let (s, es) = consistent _ si found in
      Returns-if (proto == ppp_proto_ip4)
        (λ e.
          rw es (Returns-some (fits, inl ((==_iff _ _).0 e, refl), (si, s, found, es, refl, refl))))
        λ _.
          Returns-if (proto == ppp_proto_ip6)
            (λ e.
              rw es
                (Returns-some (fits, inr ((==_iff _ _).0 e, refl), (si, s, found, es, refl, refl))))
            λ _. Returns-some refl

  decapsulate_handles :
      (tid sid : ℕ) (r : Option (ℕ × Error)) → Returns (decapsulate t p tid sid r) (IsHandled t p)
  unfolding decapsulate
  decapsulate_handles tid sid none = Returns-some (refl, refl)
  decapsulate_handles tid sid (some (cur, error)) =
      Returns-if (ltb (length p) (cur + 4)) (λ _. Returns-some (refl, refl))
        λ fits. elim (Option-cases (t.session_by_key (session_key tid sid))) [
          | inl e ↦ rw e (Returns-some refl)
          | inr (si, e) ↦ rw e (
              Returns-bind (ppp_header_bounds p cur (ground arith))
                λ r _ hr. forward_handles tid sid si error r e hr)
        ]

  skip_options_returns : (flags off : ℕ) → Returns (skip_options t p flags off) (λ _. Unit {0})
  unfolding skip_options
  skip_options_returns flags off =
      Returns-if (has_bit flags hdr_o)
        (λ _.
          Returns-if (ltb (length p) (skip_sequence flags off + 2)) (λ _. Returns-some tt)
            λ fits.
              Returns-bind (read_u16-in_range p (skip_sequence flags off) (ground arith))
                λ v _ _. Returns-some tt)
        (λ _. Returns-some tt)

  -- The node reads only inside the packet, whatever its bytes, if the session table and the session
  -- pool agree. It returns, and the packet is dropped as truncated, punted from its IP header, or
  -- advanced by no more than its length to the IP node of its PPP protocol, on the interface of the
  -- session that its tunnel and session ids look up.
  pub input_packet-IsHandled : Returns (input_packet t p) (IsHandled t p)
  unfolding input_packet after_parse
  input_packet-IsHandled = Returns-bind (parse_hdr_lem p 0 (length p) (omega arith)) after
    where
      after :
          (rc : HdrRc)
          → parse_hdr p 0 (length p) ≡ some rc
          → Reads p 0 (length p) rc
          → Returns (after_parse t p rc) (IsHandled t p)
      after (hdr_data flags tid sid off) _ _ =
          Returns-bind (skip_options_returns flags off) λ r _ _. decapsulate_handles tid sid r
      after hdr_not_v2 _ _ = Returns-some refl
      after hdr_control _ _ = Returns-some refl
      after hdr_too_short _ _ = Returns-some (refl, refl)
