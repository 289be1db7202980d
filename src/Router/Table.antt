-- ===== src/Router/Table.antt =====
-- `std::map<uint32_t, …>`: pairs in the order of their keys.
use mathlib.Core.Option.{some-injective}
use mathlib.Core.Path.{subst}
use tun_video.Common.{
  ℕ, ◌+◌, ◌<◌, ◌≤◌, Bool, false, Option, none, some, List, [], ◌∷◌, ◌≡◌, refl, ltb, ◌==◌,
  if◌then◌else◌, arith, Bool-cases, inl, inr,
}

module _ {V : Type 0} where
  unfoldable pub find : ℕ → List (ℕ × V) → Option V
  find k [] = none
  find k ((j, v) ∷ t) = if j == k then some v else find k t

  -- `table[k] = v`
  unfoldable pub assign : ℕ → V → List (ℕ × V) → List (ℕ × V)
  assign k v [] = (k, v) ∷ []
  assign k v ((j, w) ∷ t) =
      let later = (j, w) ∷ assign k v t in
      if k == j then (k, v) ∷ t else if ltb k j then (k, v) ∷ (j, w) ∷ t else later

  -- `table.erase(k)`
  unfoldable pub erase : ℕ → List (ℕ × V) → List (ℕ × V)
  erase k [] = []
  erase k ((j, w) ∷ t) = if j == k then t else (j, w) ∷ erase k t

  -- The loop that erases the entries for which `old` holds.
  unfoldable pub purge : (V → Bool) → List (ℕ × V) → List (ℕ × V)
  purge old [] = []
  purge old ((j, w) ∷ t) = let rest = purge old t in if old w then rest else (j, w) ∷ rest

  -- Strictly increasing keys, all from `lo` on.
  abbrev pub SortedFrom : ℕ → List (ℕ × V) → Type 0
  SortedFrom lo [] = Unit
  SortedFrom lo ((j, w) ∷ t) = (lo ≤ j) × SortedFrom (j + 1) t

  abbrev pub AllValues : (V → Type 0) → List (ℕ × V) → Type 0
  AllValues P [] = Unit
  AllValues P ((j, w) ∷ t) = P w × AllValues P t

module _ {V : Type 0} where
  pub find-assign :
      (j k : ℕ) (v : V) (t : List (ℕ × V))
      → find j (assign k v t) ≡ (if k == j then some v else find j t)
  unfolding find assign
  find-assign j k v [] = refl
  find-assign j k v ((i, w) ∷ t) = ground (arith, find-assign j k v t)

  SortedFrom-weaken : (lo hi : ℕ) (t : List (ℕ × V)) → lo ≤ hi → SortedFrom hi t → SortedFrom lo t
  SortedFrom-weaken lo hi [] h s = tt
  SortedFrom-weaken lo hi ((j, w) ∷ t) h s = (omega arith, s.1)

  pub assign-SortedFrom :
      (lo k : ℕ) (v : V) (t : List (ℕ × V))
      → lo ≤ k
      → SortedFrom lo t
      → SortedFrom lo (assign k v t)
  unfolding assign
  assign-SortedFrom lo k v [] h s = (h, tt)
  assign-SortedFrom lo k v ((j, w) ∷ t) h s = ground (arith, assign-SortedFrom (j + 1) k v t)

  pub purge-SortedFrom :
      (old : V → Bool) (lo : ℕ) (t : List (ℕ × V)) → SortedFrom lo t → SortedFrom lo (purge old t)
  unfolding purge
  purge-SortedFrom old lo [] s = tt
  purge-SortedFrom old lo ((j, w) ∷ t) s =
      let rest = purge-SortedFrom old (j + 1) t s.1 in
      elim (Bool-cases (old w)) [
        | inl e ↦ rw e (SortedFrom-weaken lo (j + 1) (purge old t) (omega arith) rest)
        | inr e ↦ rw e (s.0, rest)
      ]

  pub erase-SortedFrom : (k lo : ℕ) (t : List (ℕ × V)) → SortedFrom lo t → SortedFrom lo (erase k t)
  unfolding erase
  erase-SortedFrom k lo [] s = tt
  erase-SortedFrom k lo ((j, w) ∷ t) s = elim (Bool-cases (j == k)) [
    | inl e ↦ rw e (SortedFrom-weaken lo (j + 1) t (omega arith) s.1)
    | inr e ↦ rw e (s.0, erase-SortedFrom k (j + 1) t s.1)
  ]

  find_below : (k lo : ℕ) (t : List (ℕ × V)) → k < lo → SortedFrom lo t → find k t ≡ none
  unfolding find
  find_below k lo [] h s = refl
  find_below k lo ((j, w) ∷ t) h s = ground (arith, find_below k (j + 1) t)

  pub find_absent-purge :
      (old : V → Bool) (k : ℕ) (t : List (ℕ × V)) → find k t ≡ none → find k (purge old t) ≡ none
  unfolding find purge
  find_absent-purge old k [] e = refl
  find_absent-purge old k ((j, w) ∷ t) e = ground (arith, find_absent-purge old k t)

  -- A purge keeps exactly the entries that are not old.
  pub find-purge :
      (old : V → Bool) (k lo : ℕ) (t : List (ℕ × V)) (v : V)
      → SortedFrom lo t
      → find k t ≡ some v
      → find k (purge old t) ≡ (if old v then none else some v)
  unfolding find purge
  find-purge old k lo [] v s e = cc
  find-purge old k lo ((j, w) ∷ t) v s e =
      ground
        (arith, find-purge old k (j + 1) t v s.1, find_absent-purge old k t, find_below k (j + 1) t)

  pub purge-AllValues :
      (old : V → Bool) (t : List (ℕ × V)) → AllValues (λ v. old v ≡ false) (purge old t)
  unfolding purge
  purge-AllValues old [] = tt
  purge-AllValues old ((j, w) ∷ t) = elim (Bool-cases (old w)) [
    | inl e ↦ rw e (purge-AllValues old t)
    | inr e ↦ rw e (e, purge-AllValues old t)
  ]

module _ {V : Type 0} (P : V → Type 0) where
  pub AllValues-purge :
      (old : V → Bool) (t : List (ℕ × V)) → AllValues P t → AllValues P (purge old t)
  unfolding purge
  AllValues-purge old [] h = tt
  AllValues-purge old ((j, w) ∷ t) h = elim (Bool-cases (old w)) [
    | inl e ↦ rw e (AllValues-purge old t h.1)
    | inr e ↦ rw e (h.0, AllValues-purge old t h.1)
  ]

  pub AllValues-erase : (k : ℕ) (t : List (ℕ × V)) → AllValues P t → AllValues P (erase k t)
  unfolding erase
  AllValues-erase k [] h = tt
  AllValues-erase k ((j, w) ∷ t) h = elim (Bool-cases (j == k)) [
    | inl e ↦ rw e h.1
    | inr e ↦ rw e (h.0, AllValues-erase k t h.1)
  ]

  pub AllValues-assign :
      (k : ℕ) (v : V) (t : List (ℕ × V)) → P v → AllValues P t → AllValues P (assign k v t)
  unfolding assign
  AllValues-assign k v [] p h = (p, tt)
  AllValues-assign k v ((j, w) ∷ t) p h = elim (Bool-cases (k == j)) [
    | inl e ↦ rw e (p, h.1)
    | inr e ↦ elim (Bool-cases (ltb k j)) [
      | inl l ↦ rw (e, l) (p, h)
      | inr l ↦ rw (e, l) (h.0, AllValues-assign k v t p h.1)
    ]
  ]

  pub find-AllValues : (k : ℕ) (t : List (ℕ × V)) {v : V} → find k t ≡ some v → AllValues P t → P v
  unfolding find
  find-AllValues k [] e h = cc
  find-AllValues k ((j, w) ∷ t) {v} e h = elim (Bool-cases (j == k)) [
    | inl same ↦ subst P (some-injective w v (rw same at e)) h.0
    | inr other ↦ find-AllValues k t (rw other at e) h.1
  ]
