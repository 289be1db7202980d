-- ===== src/Router/Node/Pops.antt =====
-- The loop of `SpeedChange` in IRtestWLAN/GPSVec.cc comes to its end.
use tun_video.Common.{
  ℕ, zero, suc, ◌+◌, ◌-◌, ◌≤◌, ◌<◌, List, [], ◌∷◌, ◌≡◌, refl, ap, ◌∙◌, length, drop, ltb, ◌==◌,
  Bool-cases, inl, inr, length-drop, arith,
}
use tun_video.Router.Float.{Float}
use tun_video.Router.Geometry.{Gps}
use tun_video.Router.Node.{pop_front}

module _ (f : Float) where
  open f use {F}

  -- The loop stops behind `k` rounds: `i < p.size() - 2` holds in each of them, and not any more
  -- behind them.
  abbrev pub StopsAt : ℕ → ℕ → List (Gps F) → Type 0
  StopsAt k i p =
      (length (drop k p) - 2 ≤ i + k) × ((j : ℕ) → j < k → i + j < length (drop j p) - 2)

  drop-drop : (k : ℕ) (p : List (Gps F)) → drop k (drop 1 p) ≡ drop (suc k) p
  drop-drop zero [] = refl
  drop-drop (suc k) [] = refl
  drop-drop k (g ∷ p) = refl

  one_more :
      (k i : ℕ) (p : List (Gps F))
      → i < length p - 2
      → StopsAt k (i + 1) (drop 1 p)
      → StopsAt (suc k) i p
  one_more k i p more h = (
    omega (arith, h.0, ap length (drop-drop k p)),
    λ j l. elim (Bool-cases (j == 0)) [
      | inl first ↦ let start : j ≡ 0 = ground arith in rw start (omega arith)
      | inr later ↦
          let e : j ≡ suc (j - 1) = ground arith in
          let before = h.1 (j - 1) (omega arith) in
          rw e (omega (arith, before, ap length (drop-drop (j - 1) p)))
    ],
  )

  pops :
      (fuel i : ℕ) (p : List (Gps F))
      → length p ≤ fuel
      → (k : ℕ) × (pop_front f fuel i p ≡ drop k p) × StopsAt k i p
  unfolding pop_front
  pops zero i p h = (0, refl, (omega arith, λ j l. elim l [ ]))
  pops (suc fuel) i p h = elim (Bool-cases (ltb i (length p - 2))) [
    | inr stop ↦ (0, rw stop refl, (ground arith, λ j l. elim l [ ]))
    | inl more ↦
        let (k, e, s) = pops fuel (i + 1) (drop 1 p) (omega (arith, length-drop 1 p)) in
        (suc k, rw more (e ∙ drop-drop k p), one_more k i p (ground arith) s)
  ]

  -- The loop of `SpeedChange` ends for every queue, since each round shortens it: the queue left is
  -- the one behind some number of rounds, in each of which the test held and behind which it fails.
  pub pop_front_ends :
      (q : List (Gps F)) → (k : ℕ) × (pop_front f (length q) 0 q ≡ drop k q) × StopsAt k 0 q
  pop_front_ends q = pops (length q) 0 q (omega arith)
