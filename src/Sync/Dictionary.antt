-- ===== src/Sync/Dictionary.antt =====
-- A Python dict as a list of entries, in the order of their first insertion.
use l2tvpp.Common.{
  ◌≡◌, ◌↔◌, refl, sym, ◌∙◌, Bool, true, false, Bool-cases, inl, inr, Option, some, none, List, [],
  ◌∷◌, if◌then◌else◌, arith, ◌||◌,
}

abbrev pub is_some {ℓ} : {A : Type ℓ} → Option A → Bool
is_some none = false
is_some (some x) = true

-- Keys with their equality.
pub record Keys : Type 1 where
  pub Key : Type 0
  pub is_key : Key → Key → Bool
  pub is_key_iff : (a b : Key) → (is_key a b ≡ true) ↔ (a ≡ b)

module _ (K : Keys) where
  open K use {Key, is_key, is_key_iff}

  pub is_key_refl : (a : Key) → is_key a a ≡ true
  is_key_refl a = (is_key_iff a a).1 refl

  -- A key that is another than `l` is another than each that `l` is.
  pub is_key-other : (l k j : Key) → is_key l k ≡ false → is_key l j ≡ true → is_key k j ≡ false
  is_key-other l k j other same = elim (Bool-cases (is_key k j)) [
    | inr e ↦ e
    | inl e ↦
        let l_j : l ≡ j = (is_key_iff l j).0 same in
        let k_j : k ≡ j = (is_key_iff k j).0 e in
        absurd (ground (arith, (is_key_iff l k).1 (l_j ∙ sym k_j)))
  ]

  pub is_key-sym : (k j : Key) → is_key k j ≡ false → is_key j k ≡ false
  is_key-sym k j other = elim (Bool-cases (is_key j k)) [
    | inr e ↦ e
    | inl e ↦ absurd (ground (arith, (is_key_iff k j).1 (sym ((is_key_iff j k).0 e))))
  ]

  abbrev pub is_in : Key → List Key → Bool
  is_in k [] = false
  is_in k (j ∷ js) = is_key j k || is_in k js

  abbrev pub Dict : Type 0 → Type 0
  Dict A = List (Key × A)

  module _ {A : Type 0} where
    abbrev pub lookup : Key → Dict A → Option A
    lookup k [] = none
    lookup k ((j, x) ∷ d) = if is_key j k then some x else lookup k d

    abbrev pub has : Key → Dict A → Bool
    has k d = is_some (lookup k d)

    -- `d[k] = x`.
    abbrev pub put : Key → A → Dict A → Dict A
    put k x [] = (k, x) ∷ []
    put k x ((j, y) ∷ d) = if is_key j k then (j, x) ∷ d else (j, y) ∷ put k x d

    -- `del d[k]`.
    abbrev pub drop_key : Key → Dict A → Dict A
    drop_key k [] = []
    drop_key k ((j, y) ∷ d) = if is_key j k then d else (j, y) ∷ drop_key k d

    abbrev pub keys : Dict A → List Key
    keys [] = []
    keys ((j, y) ∷ d) = j ∷ keys d

    -- No key stands twice.
    abbrev pub Once : Dict A → Type 0
    Once [] = Unit {0}
    Once ((j, y) ∷ d) = (lookup j d ≡ none) × Once d

    pub lookup-put :
        (d : Dict A) (k j : Key) (x : A)
        → lookup j (put k x d) ≡ (if is_key k j then some x else lookup j d)
    lookup-put [] k j x = refl
    lookup-put ((l, y) ∷ d) k j x = elim (Bool-cases (is_key l k)) [
      | inl same ↦ rw ((is_key_iff l k).0 same, is_key_refl k) ground (arith)
      | inr other ↦ elim (Bool-cases (is_key l j)) [
        | inl here ↦ rw (other, here, is_key-other l k j other here) refl
        | inr there ↦ rw (other, there) (lookup-put d k j x)
      ]
    ]

    pub lookup-drop_key :
        (d : Dict A) (k j : Key)
        → Once d
        → lookup j (drop_key k d) ≡ (if is_key k j then none else lookup j d)
    lookup-drop_key [] k j o = ground arith
    lookup-drop_key ((l, y) ∷ d) k j (new, o) = elim (Bool-cases (is_key l k)) [
      | inl same ↦
          let l_k : l ≡ k = (is_key_iff l k).0 same in
          elim (Bool-cases (is_key k j)) [
            | inl here ↦
                let l_j : l ≡ j = l_k ∙ (is_key_iff k j).0 here in rw (same, here) (rw (← l_j) new)
            | inr there ↦ rw (same, there, l_k, there) refl
          ]
      | inr other ↦ elim (Bool-cases (is_key l j)) [
        | inl here ↦ rw (other, here, is_key-other l k j other here) refl
        | inr there ↦ rw (other, there) (lookup-drop_key d k j o)
      ]
    ]

    pub put-Once : (d : Dict A) (k : Key) (x : A) → Once d → Once (put k x d)
    put-Once [] k x o = (refl, tt)
    put-Once ((l, y) ∷ d) k x (new, o) = elim (Bool-cases (is_key l k)) [
      | inl same ↦ rw same (new, o)
      | inr other ↦
          let unlike = is_key-sym l k other in
          rw other (lookup-put d k l x ∙ rw unlike new, put-Once d k x o)
    ]

    pub drop_key-Once : (d : Dict A) (k : Key) → Once d → Once (drop_key k d)
    drop_key-Once [] k o = tt
    drop_key-Once ((l, y) ∷ d) k (new, o) = elim (Bool-cases (is_key l k)) [
      | inl same ↦ rw same o
      | inr other ↦
          let unlike = is_key-sym l k other in
          rw other (lookup-drop_key d k l o ∙ rw unlike new, drop_key-Once d k o)
    ]

    pub is_in-keys : (d : Dict A) (k : Key) → is_in k (keys d) ≡ has k d
    is_in-keys [] k = refl
    is_in-keys ((l, y) ∷ d) k = ground (arith, is_in-keys d k)

    -- A property of every entry.
    abbrev pub AllOf : (Key → A → Type 0) → Dict A → Type 0
    AllOf P [] = Unit {0}
    AllOf P ((k, x) ∷ d) = P k x × AllOf P d

    pub AllOf-put :
        (P : Key → A → Type 0) (d : Dict A) (k : Key) (x : A)
        → P k x
        → AllOf P d
        → AllOf P (put k x d)
    AllOf-put P [] k x h all = (h, tt)
    AllOf-put P ((l, y) ∷ d) k x h (here, all) = elim (Bool-cases (is_key l k)) [
      | inl same ↦ rw same (rw ((is_key_iff l k).0 same) h, all)
      | inr other ↦ rw other (here, AllOf-put P d k x h all)
    ]

    pub AllOf-lookup :
        (P : Key → A → Type 0) (d : Dict A)
        → Once d
        → ((k : Key) (x : A) → lookup k d ≡ some x → P k x)
        → AllOf P d
    AllOf-lookup P [] o h = tt
    AllOf-lookup P ((l, y) ∷ d) (new, o) h = (
      h l y (rw (is_key_refl l) refl),
      AllOf-lookup P d o λ k x e. h k x (elim (Bool-cases (is_key l k)) [
        | inl same ↦
            let l_k : l ≡ k = (is_key_iff l k).0 same in
            let gone : lookup k d ≡ none = rw (← l_k) new in absurd (cc (gone, e))
        | inr other ↦ rw other e
      ]),
    )
