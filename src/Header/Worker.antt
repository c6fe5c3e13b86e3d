-- ===== src/Header/Worker.antt =====
-- The lookup key of a session and the worker that handles it.
use l2tvpp.Common.{ℕ, ◌+◌, ◌*◌, ◌/◌, ◌%◌, ◌^◌, ◌≤◌, ◌<◌, ◌≡◌, refl, arith, bit_xor}
use l2tvpp.Common.Bits.{bit_or_fields}
use l2tvpp.Header.{session_key, session_hash, handoff_worker}

session_key-sum : (tid sid : ℕ) → sid < 65536 → session_key tid sid ≡ tid * 65536 + sid
unfolding session_key
session_key-sum tid sid h = bit_or_fields 16 tid sid h

-- Two pairs of 16-bit ids with the same key are the same pair, and a key fits 32 bits.
pub session_key-injective :
    (tid sid tid' sid' : ℕ)
    → tid < 65536
    → sid < 65536
    → tid' < 65536
    → sid' < 65536
    → session_key tid sid ≡ session_key tid' sid'
    → (tid ≡ tid') × (sid ≡ sid') × (session_key tid sid < 2 ^ 32)
session_key-injective tid sid tid' sid' a b c d e =
    let p = session_key-sum tid sid b in
    let q = session_key-sum tid' sid' d in (omega arith, omega arith, omega arith)

-- With 1 to 65535 workers the chosen thread is one of the workers 1 .. n_workers: the cast to 16
-- bits loses nothing.
pub handoff_worker_bounds :
    (tid sid n_workers : ℕ)
    → 0 < n_workers
    → n_workers < 65536
    → (1 ≤ handoff_worker tid sid n_workers) × (handoff_worker tid sid n_workers ≤ n_workers)
unfolding handoff_worker
handoff_worker_bounds tid sid n_workers pos small = (omega arith, omega arith)

-- The worker is a function of the key.
worker_of_key : ℕ → ℕ → ℕ
worker_of_key key n = let h = key * 0x9e3779b1 % 2 ^ 32 in (1 + bit_xor h (h / 2 ^ 16) % n) % 2 ^ 16

handoff_worker-key :
    (tid sid n : ℕ) → handoff_worker tid sid n ≡ worker_of_key (session_key tid sid) n
unfolding handoff_worker session_hash session_key worker_of_key
handoff_worker-key tid sid n = refl

-- Ids with the same key are handled by the same worker.
pub handoff_worker-congruent :
    (tid sid tid' sid' n : ℕ)
    → session_key tid sid ≡ session_key tid' sid'
    → handoff_worker tid sid n ≡ handoff_worker tid' sid' n
handoff_worker-congruent tid sid tid' sid' n e =
    cc (handoff_worker-key tid sid n, handoff_worker-key tid' sid' n)
