-- ===== src/Router/Float.antt =====
-- The C++ `float` and `double` operations that the router calls. There are no floats in the
-- model: their type, operations and literals are this parameter.
use tun_video.Common.{ℕ, ◌<◌, ◌^◌, Bool, true, false, ◌≡◌}

pub record Float : Type 1 where
  pub F : Type 0
  pub add : F → F → F
  pub sub : F → F → F
  pub mul : F → F → F
  pub div : F → F → F
  pub neg : F → F
  pub abs : F → F
  pub sqrt : F → F
  pub sin : F → F
  pub cos : F → F
  pub asin : F → F
  pub acos : F → F
  pub lt : F → F → Bool
  pub le : F → F → Bool
  -- a `uint32_t` converted to a float, and back
  pub of_uint : ℕ → F
  pub to_uint : F → ℕ
  -- the four bytes of a `float` read as a `uint32_t`
  pub bits : F → ℕ
  -- 0.00000001, M_PI, 3.14159 and EARTH_RADIUS
  pub epsinon : F
  pub m_pi : F
  pub pi : F
  pub earth_radius : F

-- What IEEE comparison promises, of NaN too.
pub record IsOrdered (f : Float) : Type 0 where
  pub lt_irrefl : (a : f.F) → f.lt a a ≡ false
  pub lt_trans : (a b c : f.F) → f.lt a b ≡ true → f.lt b c ≡ true → f.lt a c ≡ true

-- The bytes of a `float` make a `uint32_t`.
abbrev pub HasWords : Float → Type 0
HasWords f = (a : f.F) → f.bits a < 2 ^ 32
