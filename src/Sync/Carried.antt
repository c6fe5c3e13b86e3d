-- ===== src/Sync/Carried.antt =====
-- The record of the daemon and the sessions that the plugin carries.
pub mod Steps
pub mod Pass
use l2tvpp.Common.{
  ℕ, ◌+◌, ◌<◌, ◌≡◌, ◌≢◌, ◌⊎◌, refl, sym, ap, ◌∙◌, subst, inl, inr, Bool, Bool-cases, true, false,
  not, ◌&&◌, ◌||◌, Option, some, none, Option-cases, List, [], ◌∷◌, ◌==◌, if◌then◌else◌, arith,
}
use l2tvpp.Sync.Dictionary.{
  Dict, lookup, has, put, drop_key, is_some, Once, lookup-put, lookup-drop_key,
}
use l2tvpp.Sync.{Host, session_keys, tunnel_keys, Plugin, Installed}
use l2tvpp.Sync.Laws.{Laws}

module _ {Ip Prefix : Type 0} (H : Host Ip Prefix) (P : Plugin H) (L : Laws H P) where
  open L use {IsOk, carries, tid_at}

  -- What the record has under a key names a tunnel with the id of the key.
  abbrev pub IsHeld : P.State → session_keys.Key → Installed H → Type 0
  IsHeld st k rec =
      (tid_at st rec.tunnel_index ≡ some (k.0)) × (rec.local_sid ≡ k.1) × (k.1 < 65536)

  -- The plugin carries exactly the sessions of the record.
  abbrev pub InSync : P.State → Dict session_keys (Installed H) → Type 0
  InSync st d =
      IsOk st
      × ((k : session_keys.Key) → carries st k ≡ has session_keys k d)
      × ((k : session_keys.Key) (rec : Installed H)
          → lookup session_keys k d ≡ some rec
          → IsHeld st k rec)

  -- A change of the plugin that leaves the sessions and the tunnels that carry one.
  pub keep-InSync :
      (st st' : P.State) (d : Dict session_keys (Installed H))
      → IsOk st'
      → ((k : session_keys.Key) → carries st' k ≡ carries st k)
      → ((i : ℕ) (k : session_keys.Key)
          → tid_at st i ≡ some (k.0)
          → carries st k ≡ true
          → tid_at st' i ≡ some (k.0))
      → InSync st d
      → InSync st' d
  keep-InSync st st' d ok same stay (_, all, held) = (
    ok,
    (λ k. same k ∙ all k),
    λ k rec e.
        let (at, is, fits) = held k rec e in
        (stay rec.tunnel_index k at (ground (arith, all k, e)), is, fits),
  )

  abbrev pub IsSame : P.State → P.State → Type 0
  IsSame st st' =
      IsOk st'
      × ((j : ℕ) → tid_at st' j ≡ tid_at st j)
      × ((k : session_keys.Key) → carries st' k ≡ carries st k)

  -- A session that is put into the record, which the plugin carries now.
  pub put-InSync :
      (st st' : P.State) (d : Dict session_keys (Installed H)) (key : session_keys.Key)
      (rec : Installed H)
      → IsOk st'
      → ((j : ℕ) → tid_at st' j ≡ tid_at st j)
      → ((k : session_keys.Key) → carries st' k ≡ session_keys.is_key key k || carries st k)
      → IsHeld st key rec
      → InSync st d
      → InSync st' (put session_keys key rec d)
  put-InSync st st' d key rec ok same gains (at, is, fits) (_, all, held) = (
    ok,
    (λ k. gains k ∙ ground (arith, all k, lookup-put session_keys d key k rec)),
    λ k r e. elim (Bool-cases (session_keys.is_key key k)) [
      | inl here ↦
          let key_k : key ≡ k = (session_keys.is_key_iff key k).0 here in
          let rec_r : rec ≡ r = ground (arith, lookup-put session_keys d key k rec, e, here) in
          rw (← key_k, ← rec_r) (same rec.tunnel_index ∙ at, is, fits)
      | inr other ↦
          let (at', is', fits') =
            held k r (ground (arith, lookup-put session_keys d key k rec, e, other)) in
          (same r.tunnel_index ∙ at', is', fits')
    ],
  )

  -- A session that is dropped from the record, which the plugin carries no more.
  pub drop_key-InSync :
      (st st' : P.State) (d : Dict session_keys (Installed H)) (key : session_keys.Key)
      → IsOk st'
      → ((j : ℕ) → tid_at st' j ≡ tid_at st j)
      → ((k : session_keys.Key) → carries st' k ≡ not (session_keys.is_key key k) && carries st k)
      → Once session_keys d
      → InSync st d
      → InSync st' (drop_key session_keys key d)
  drop_key-InSync st st' d key ok same loses once (_, all, held) = (
    ok,
    (λ k. loses k ∙ ground (arith, all k, lookup-drop_key session_keys d key k once)),
    λ k r e.
        let (at, is, fits) =
          held k r (ground (arith, lookup-drop_key session_keys d key k once, e)) in
        (same r.tunnel_index ∙ at, is, fits),
  )
