-- ===== src/Router/Geometry.antt =====
-- IRtestWLAN/GPS.h, and the distance and angle of IRtestWLAN/GPSVec.cc over abstract floats.
use tun_video.Common.{Bool, ◌&&◌, if◌then◌else◌}
use tun_video.Router.Float.{Float}

pub record Gps (F : Type 0) : Type 0 where
  pub x : F
  pub y : F

pub record Speed (F : Type 0) : Type 0 where
  pub x : F
  pub y : F

module _ (f : Float) where
  open f use {
    F, add, sub, mul, div, neg, sqrt, sin, cos, asin, acos, lt, le, of_uint, epsinon, m_pi, pi,
    earth_radius,
  }

  unfoldable pub rad : F → F
  rad d = div (mul d m_pi) (of_uint 180)

  abbrev square : F → F
  square a = mul a a

  -- `CalModule(GPS, GPS)`: the haversine distance of two points given in degrees.
  unfoldable pub cal_module : Gps F → Gps F → F
  cal_module p q =
      let lat₁ = rad p.x in
      let lat₂ = rad q.x in
      let a = sub lat₁ lat₂ in
      let b = sub (rad p.y) (rad q.y) in
      let two = of_uint 2 in
      let haversine =
        add (square (sin (div a two)))
          (mul (mul (cos lat₁) (cos lat₂)) (square (sin (div b two)))) in
      mul (mul two (asin (sqrt haversine))) earth_radius

  -- `x >= -EPSINON && x <= EPSINON`
  unfoldable pub is_small : F → Bool
  is_small x = le (neg epsinon) x && le x epsinon

  -- `CalTheate`: the angle at `self` between a neighbour and the destination. The source divides
  -- by 2 and then multiplies by `a` and by `b`.
  unfoldable pub cal_theate : Gps F → Gps F → Gps F → F
  cal_theate self nghbr dst =
      let a = cal_module self nghbr in
      let b = cal_module self dst in
      let c = cal_module nghbr dst in
      let tmp = mul (mul (div (sub (add (mul a a) (mul b b)) (mul c c)) (of_uint 2)) a) b in
      if is_small (sub tmp (of_uint 1))
      then of_uint 0
      else if is_small (add tmp (of_uint 1))
      then pi
      else acos tmp

  -- `CalTheata`: the angle between two vectors.
  abbrev pub cal_theata : Gps F → Gps F → F
  cal_theata v w =
      let dot = add (mul v.x w.x) (mul v.y w.y) in
      let len = λ (u : Gps F). sqrt (add (mul u.x u.x) (mul u.y u.y)) in
      let tmp = div dot (mul (len v) (len w)) in
      if is_small (sub tmp (of_uint 1))
      then of_uint 0
      else if is_small (add tmp (of_uint 1))
      then pi
      else acos tmp

  -- `GPSVec(src, dst)`
  abbrev pub gps_vec : Gps F → Gps F → Gps F
  gps_vec src dst = record { x = sub dst.x src.x; y = sub dst.y src.y }

  -- `angle < CALNEXTHOPANGLE`, where the macro is the text `PI/3`.
  unfoldable pub is_forward_angle : F → Bool
  is_forward_angle angle = lt angle (div pi (of_uint 3))

  -- `MAXDISTANCE`, and the test that nothing nearer was found.
  unfoldable pub max_distance : F
  max_distance = of_uint 200

  unfoldable pub is_max : F → Bool
  is_max dis = is_small (sub dis max_distance)

  -- The position (0, 90) stands for an unknown one.
  abbrev pub is_unknown : Gps F → Bool
  is_unknown g = is_small (sub g.x (of_uint 0)) && is_small (sub g.y (of_uint 90))
