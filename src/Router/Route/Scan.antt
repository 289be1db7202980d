-- ===== src/Router/Route/Scan.antt =====
-- What a scan over the candidates finds.
use tun_video.Common.{
  ℕ, Bool, true, false, some, List, [], ◌∷◌, ◌≡◌, ◌⊎◌, inl, inr, refl, Bool-cases,
}
use tun_video.Router.Float.{Float, IsOrdered}
use tun_video.Router.Geometry.{Gps, cal_module}
use tun_video.Router.Table.{find}
use tun_video.Router.State.{NeighborEntry}
use tun_video.Router.Route.{Best, Neighbors, improve, scan}

module _ (f : Float) (test : Gps f.F → Bool) (dst : Gps f.F) (table : Neighbors f) where
  open f use {F, lt}

  -- Each candidate is a neighbor in the table.
  abbrev pub Known : List (ℕ × Gps F) → Type 0
  Known [] = Unit
  Known ((key, g) ∷ rest) = ((n : NeighborEntry F) × (find key table ≡ some n)) × Known rest

  -- No candidate that passes the test is nearer than `dis`.
  abbrev pub NoneNearer : F → List (ℕ × Gps F) → Type 0
  NoneNearer dis [] = Unit
  NoneNearer dis ((key, g) ∷ rest) =
      (test g ≡ true → lt (cal_module f g dst) dis ≡ false) × NoneNearer dis rest

  -- `best` is the distance of a candidate that passes the test, and its physical address.
  abbrev pub IsCandidate : Best F → ℕ → Gps F → Type 0
  IsCandidate best key g =
      (n : NeighborEntry F) × (find key table ≡ some n)
      × (best.hop ≡ n.phy_ip)
      × (best.dis ≡ cal_module f g dst)
      × (test g ≡ true)

  abbrev pub Picks : Best F → List (ℕ × Gps F) → Type 0
  Picks best [] = ⊥
  Picks best ((key, g) ∷ rest) = IsCandidate best key g ⊎ Picks best rest

  pub record Scanned (rest : List (ℕ × Gps F)) (best best' : Best F) : Type 0 where
    pub none_nearer : NoneNearer best'.dis rest
    pub picked : (best' ≡ best) ⊎ (Picks best' rest × (lt best'.dis best.dis ≡ true))

  -- One candidate is passed over, or becomes the best.
  improve-cases :
      (key : ℕ) (g : Gps F) (best : Best F) (n : NeighborEntry F)
      → find key table ≡ some n
      → let nearer : Best F = record { dis = cal_module f g dst; hop = n.phy_ip } in
        ((improve f test dst table key g best ≡ some best)
          × (test g ≡ true → lt (cal_module f g dst) best.dis ≡ false))
        ⊎ ((improve f test dst table key g best ≡ some nearer)
            × (test g ≡ true)
            × (lt (cal_module f g dst) best.dis ≡ true))
  unfolding improve
  improve-cases key g best n e = elim (Bool-cases (test g)) [
    | inr fails ↦ inl (rw fails refl, λ passes. cc)
    | inl passes ↦ elim (Bool-cases (lt (cal_module f g dst) best.dis)) [
      | inl near ↦ inr (rw (passes, near, e) refl, passes, near)
      | inr far ↦ inl (rw (passes, far) refl, λ _. far)
    ]
  ]

  -- A scan over known neighbors returns, whatever the float comparison answers.
  pub scan_returns :
      (rest : List (ℕ × Gps F)) (best : Best F)
      → Known rest
      → (best' : Best F) × (scan f test dst table rest best ≡ some best')
  unfolding scan
  scan_returns [] best k = (best, refl)
  scan_returns ((key, g) ∷ rest) best ((n, known), k) = elim (improve-cases key g best n known) [
    | inl (stays, _) ↦ let (b, e) = scan_returns rest best k in (b, rw stays e)
    | inr (moves, _, _) ↦
        let nearer : Best F = record { dis = cal_module f g dst; hop = n.phy_ip } in
        let (b, e) = scan_returns rest nearer k in (b, rw moves e)
  ]

  module _ (ordered : IsOrdered f) where
    -- The result is no farther than the start.
    no_farther :
        {rest : List (ℕ × Gps F)} {best best' : Best F} (d : F)
        → Scanned rest best best'
        → lt d best.dis ≡ false
        → lt d best'.dis ≡ false
    no_farther {best} {best'} d s h = elim s.picked [
      | inl same ↦ rw same h
      | inr (_, nearer) ↦ elim (Bool-cases (lt d best'.dis)) [
        | inl less ↦ cc (ordered.lt_trans d best'.dis best.dis less nearer)
        | inr more ↦ more
      ]
    ]

    nearer_trans :
        {rest : List (ℕ × Gps F)} {best best' : Best F} (d : F)
        → Scanned rest best best'
        → lt best.dis d ≡ true
        → lt best'.dis d ≡ true
    nearer_trans {best} {best'} d s h = elim s.picked [
      | inl same ↦ rw same h
      | inr (_, nearer) ↦ ordered.lt_trans best'.dis best.dis d nearer h
    ]

    passed :
        (key : ℕ) (g : Gps F) (rest : List (ℕ × Gps F)) (best best' : Best F)
        → (test g ≡ true → lt (cal_module f g dst) best.dis ≡ false)
        → Scanned rest best best'
        → Scanned ((key, g) ∷ rest) best best'
    passed key g rest best best' far s = record {
      none_nearer = (λ t. no_farther (cal_module f g dst) s (far t), s.none_nearer);
      picked = elim s.picked [ inl same ↦ inl same | inr (p, l) ↦ inr (inr p, l) ];
    }

    taken :
        (key : ℕ) (g : Gps F) (rest : List (ℕ × Gps F)) (best best' : Best F) (n : NeighborEntry F)
        → find key table ≡ some n
        → test g ≡ true
        → lt (cal_module f g dst) best.dis ≡ true
        → Scanned rest (record { dis = cal_module f g dst; hop = n.phy_ip }) best'
        → Scanned ((key, g) ∷ rest) best best'
    taken key g rest best best' n known passes near s = record {
      none_nearer = (
        λ _. no_farther (cal_module f g dst) s (ordered.lt_irrefl (cal_module f g dst)),
        s.none_nearer,
      );
      picked = inr (
        elim s.picked [
          | inl same ↦ inl (rw same (n, known, refl, refl, passes))
          | inr (p, _) ↦ inr p
        ],
        nearer_trans best.dis s near,
      );
    }

    -- The scan never meets an unknown neighbor; it returns the start or a candidate that is
    -- nearer, and no candidate is nearer than what it returns.
    pub scan-Scanned :
        (rest : List (ℕ × Gps F)) (best : Best F)
        → Known rest
        → (best' : Best F) × (scan f test dst table rest best ≡ some best')
          × Scanned rest best best'
    unfolding scan
    scan-Scanned [] best k = (best, refl, record { none_nearer = tt; picked = inl refl })
    scan-Scanned ((key, g) ∷ rest) best ((n, known), k) = elim (improve-cases key g best n known) [
      | inl (stays, far) ↦
          let (best', runs, s) = scan-Scanned rest best k in
          (best', rw stays runs, passed key g rest best best' far s)
      | inr (moves, passes, near) ↦
          let nearer : Best F = record { dis = cal_module f g dst; hop = n.phy_ip } in
          let (best', runs, s) = scan-Scanned rest nearer k in
          (best', rw moves runs, taken key g rest best best' n known passes near s)
    ]
