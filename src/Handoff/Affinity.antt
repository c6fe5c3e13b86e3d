-- ===== src/Handoff/Affinity.antt =====
-- A session always lands on one worker.
use l2tvpp.Common.{
  ℕ, ◌≤◌, ◌<◌, ◌+◌, ◌≡◌, ◌∙◌, ap, sym, refl, suc, ◌⊎◌, inl, inr, Option, some, none, List, [], ◌∷◌,
  length, arith, ltb, Option-cases, >>=-eq-some, Returns, Returns-some, Returns-bind, Returns-if,
}
use l2tvpp.Header.{
  HdrRc, hdr_data, hdr_too_short, hdr_not_v2, hdr_control, parse_hdr, session_key, handoff_worker,
}
use l2tvpp.Header.Parse.{parse_hdr_lem}
use l2tvpp.Header.Worker.{handoff_worker_bounds, handoff_worker-congruent}
use l2tvpp.Input.{
  Outcome, Error, Tables, skip_options, decapsulate, forward, ppp_header, after_parse, input_packet,
}
use l2tvpp.Handoff.{pick, thread_of, threads_of, handoff_node}

-- No two keys lead to one session.
abbrev pub IsInjective : Tables → Type 0
IsInjective t =
    (k k' si : ℕ) → t.session_by_key k ≡ some si → t.session_by_key k' ≡ some si → k ≡ k'

module _ (t : Tables) (p : List ℕ) (o : Outcome) (si : ℕ) (named : o.session_index ≡ some si) where
  forward_names :
      (tid sid si' : ℕ) (error : Error) (r : ℕ × ℕ)
      → forward t p tid sid si' error r ≡ some o
      → si' ≡ si
  unfolding forward
  forward_names tid sid si' error (proto, cur) e = ground arith

  decapsulate_names :
      (tid sid : ℕ) (r : Option (ℕ × Error))
      → decapsulate t p tid sid r ≡ some o
      → t.session_by_key (session_key tid sid) ≡ some si
  unfolding decapsulate
  decapsulate_names tid sid none e = ground arith
  decapsulate_names tid sid (some (cur, error)) e =
      elim (Option-cases (t.session_by_key (session_key tid sid))) [
        | inl missing ↦ ground arith
        | inr (si', found) ↦ elim (Option-cases (ppp_header p cur)) [
          | inl fault ↦ ground arith
          | inr (r, shown) ↦ ground (arith, forward_names tid sid si' error r)
        ]
      ]

  after_parse_names :
      (rc : HdrRc)
      → after_parse t p rc ≡ some o
      → (flags : ℕ) × (tid : ℕ) × (sid : ℕ) × (off : ℕ) × (rc ≡ hdr_data flags tid sid off)
        × (t.session_by_key (session_key tid sid) ≡ some si)
  unfolding after_parse
  after_parse_names (hdr_data flags tid sid off) e =
      let (r, _, d) = >>=-eq-some (skip_options t p flags off) _ e in
      (flags, tid, sid, off, refl, decapsulate_names tid sid r d)
  after_parse_names hdr_too_short e = absurd (ground arith)
  after_parse_names hdr_not_v2 e = absurd (ground arith)
  after_parse_names hdr_control e = absurd (ground arith)

  -- A packet that the input node gives to a session has ids that look the session up.
  input_packet_names :
      input_packet t p ≡ some o
      → (flags : ℕ) × (tid : ℕ) × (sid : ℕ) × (off : ℕ) × (parse_hdr p 0 (length p)
          ≡ some (hdr_data flags tid sid off))
        × (t.session_by_key (session_key tid sid) ≡ some si)
  unfolding input_packet
  input_packet_names e =
      let (rc, parsed, rest) = >>=-eq-some (parse_hdr p 0 (length p)) _ e in
      let (flags, tid, sid, off, shape, found) = after_parse_names rc rest in
      (flags, tid, sid, off, parsed ∙ ap some shape, found)

thread_of-data :
    (n this : ℕ) (p : List ℕ) {flags tid sid off : ℕ}
    → 0 < n
    → parse_hdr p 0 (length p) ≡ some (hdr_data flags tid sid off)
    → thread_of n this p ≡ some (handoff_worker tid sid n)
unfolding thread_of
thread_of-data n this p pos e = rw e (ground arith)

-- Two packets that the input node gives to one session, whatever their optional fields, are sent
-- by the handoff node to one thread, from whichever thread they come, and that thread is one of the
-- workers 1 .. n. There are 1 to 65535 workers and no two keys lead to one session.
pub thread_of-session :
    (t : Tables) (n this this' : ℕ) (p q : List ℕ) (o o' : Outcome) (si : ℕ)
    → 0 < n
    → n < 65536
    → IsInjective t
    → input_packet t p ≡ some o
    → input_packet t q ≡ some o'
    → o.session_index ≡ some si
    → o'.session_index ≡ some si
    → (w : ℕ) × (thread_of n this p ≡ some w) × (thread_of n this' q ≡ some w) × (1 ≤ w) × (w ≤ n)
thread_of-session t n this this' p q o o' si pos small injective ep eq hp hq =
    let (_, tid, sid, _, parsed, found) = input_packet_names t p o si hp ep in
    let (_, tid', sid', _, parsed', found') = input_packet_names t q o' si hq eq in
    let same = handoff_worker-congruent tid sid tid' sid' n (injective _ _ si found found') in
    let (low, high) = handoff_worker_bounds tid sid n pos small in
    (
      handoff_worker tid sid n,
      thread_of-data n this p pos parsed,
      thread_of-data n this' q pos parsed' ∙ ap some (sym same),
      low,
      high,
    )

-- On any packets the node reads only inside them and gives each a thread: its own, or one of the
-- workers 1 .. n.
abbrev pub Threads : ℕ → ℕ → List ℕ → Type 0
Threads n this [] = Unit {0}
Threads n this (w ∷ ws) = ((w ≡ this) ⊎ ((1 ≤ w) × (w ≤ n))) × Threads n this ws

thread_of_bounds :
    (n this : ℕ) (p : List ℕ)
    → n < 65536
    → Returns (thread_of n this p) (λ w. (w ≡ this) ⊎ ((1 ≤ w) × (w ≤ n)))
unfolding thread_of
thread_of_bounds n this p small =
    Returns-if (ltb 0 n)
      (λ pos.
        Returns-bind (parse_hdr_lem p 0 (length p) (omega arith))
          λ rc _ _. Returns-some (picked rc (ground arith)))
      (λ _. Returns-some (inl refl))
  where
    picked :
        (rc : HdrRc)
        → 0 < n
        → (pick n this rc ≡ this) ⊎ ((1 ≤ pick n this rc) × (pick n this rc ≤ n))
    picked (hdr_data flags tid sid off) pos = inr (handoff_worker_bounds tid sid n pos small)
    picked _ pos = inl refl

threads_of_bounds :
    (n this : ℕ) (ps : List (List ℕ))
    → n < 65536
    → Returns (threads_of n this ps) (λ ws. Threads n this ws × (length ws ≡ length ps))
unfolding threads_of
threads_of_bounds n this [] small = Returns-some (tt, refl)
threads_of_bounds n this (p ∷ ps) small = Returns-bind (thread_of_bounds n this p small) λ w _ hw.
    Returns-bind (threads_of_bounds n this ps small)
      λ ws _ hws. Returns-some ((hw, hws.0), ap suc hws.1)

-- For any frame and fewer than 65536 workers the node returns, with a thread for each packet, its
-- own or one of the workers, and with as many congestion drops as packets were not enqueued.
pub handoff_node_lem :
    (enqueue_to_thread : List ℕ → ℕ) (n this : ℕ) (frame : List (List ℕ))
    → n < 65536
    → ((ws : List ℕ) → enqueue_to_thread ws ≤ length ws)
    → Returns (handoff_node enqueue_to_thread n this frame) λ h.
      Threads n this h.threads
      × (length h.threads ≡ length frame)
      × (h.congestion + enqueue_to_thread h.threads ≡ length frame)
unfolding handoff_node
handoff_node_lem enqueue n this frame small bounded =
    Returns-bind (threads_of_bounds n this frame small)
      λ ws _ h. Returns-some (h.0, h.1, ground (arith, bounded ws))
