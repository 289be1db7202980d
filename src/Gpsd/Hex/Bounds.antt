-- ===== src/Gpsd/Hex/Bounds.antt =====
-- The text with its escapes replaced is never longer, up to an error too.
use tun_video.Common.{
  ℕ, suc, ◌+◌, ◌*◌, ◌%◌, ◌≤◌, Bool, Option, none, some, [], ◌∷◌, length, ◌==◌, if◌then◌else◌,
  Bool-cases, inl, inr, arith,
}
use tun_video.Common.Int.{ℤ, negsuc}
use tun_video.Gpsd.Hex.{
  Bytes, hex_value, escape_of, emit_or, Place, outside, escaped, first_digit, second_digit, Cooked,
  cooked, failed, emit, cook, hex_escapes,
}

-- What was stored fits in `n` bytes, behind an error too.
abbrev pub FitsIn : ℕ → Cooked → Type 0
FitsIn n (cooked c) = length c ≤ n
FitsIn n (failed e c) = length c ≤ n

FitsIn-emit : (n c : ℕ) (o : Cooked) → FitsIn n o → FitsIn (suc n) (emit c o)
FitsIn-emit n c (cooked rest) h = omega arith
FitsIn-emit n c (failed e rest) h = omega arith

FitsIn-emit_or :
    (n : ℕ) (e : ℤ) (c : Option ℕ) (o : Cooked) → FitsIn n o → FitsIn (suc n) (emit_or e c o)
FitsIn-emit_or n e none o h = omega arith
FitsIn-emit_or n e (some c) o h = FitsIn-emit n c o h

weaken : (n : ℕ) (o : Cooked) → FitsIn n o → FitsIn (suc n) o
weaken n (cooked c) h = omega arith
weaken n (failed e c) h = omega arith

either_FitsIn :
    (n : ℕ) (b : Bool) (o o' : Cooked) → FitsIn n o → FitsIn n o' → FitsIn n (if b then o else o')
either_FitsIn n b o o' h k = elim (Bool-cases b) [ inl e ↦ rw e h | inr e ↦ rw e k ]

first_FitsIn :
    (n : ℕ) (v : Option ℕ) (raw : Bytes)
    → ((high : ℕ) → FitsIn n (cook (second_digit high) raw))
    → FitsIn
        (suc n)
        (elim v [ none ↦ failed (negsuc 0) [] | some high ↦ cook (second_digit (high * 16)) raw ])
first_FitsIn n none raw h = omega arith
first_FitsIn n (some high) raw h = weaken n (cook (second_digit (high * 16)) raw) (h (high * 16))

second_FitsIn :
    (n high : ℕ) (v : Option ℕ) (o : Cooked)
    → FitsIn n o
    → FitsIn
        (suc n)
        (elim v [ none ↦ failed (negsuc 1) [] | some low ↦ emit ((high + low) % 256) o ])
second_FitsIn n high none o h = omega arith
second_FitsIn n high (some low) o h = FitsIn-emit n ((high + low) % 256) o h

cook-FitsIn : (place : Place) (raw : Bytes) → FitsIn (length raw) (cook place raw)
unfolding cook
cook-FitsIn outside [] = omega arith
cook-FitsIn escaped [] = omega arith
cook-FitsIn first_digit [] = omega arith
cook-FitsIn (second_digit high) [] = omega arith
cook-FitsIn outside (c ∷ raw) =
    either_FitsIn (suc (length raw)) (c == b'\\') (cook escaped raw) (emit c (cook outside raw))
      (weaken (length raw) (cook escaped raw) (cook-FitsIn escaped raw))
      (FitsIn-emit (length raw) c (cook outside raw) (cook-FitsIn outside raw))
cook-FitsIn escaped (c ∷ raw) =
    either_FitsIn (suc (length raw)) (c == b'x') (cook first_digit raw)
      (emit_or (negsuc 2) (escape_of c) (cook outside raw))
      (weaken (length raw) (cook first_digit raw) (cook-FitsIn first_digit raw))
      (FitsIn-emit_or (length raw) (negsuc 2) (escape_of c) (cook outside raw)
        (cook-FitsIn outside raw))
cook-FitsIn first_digit (c ∷ raw) =
    first_FitsIn (length raw) (hex_value c) raw (λ high. cook-FitsIn (second_digit high) raw)
cook-FitsIn (second_digit high) (c ∷ raw) =
    second_FitsIn (length raw) high (hex_value c) (cook outside raw) (cook-FitsIn outside raw)

-- For any argument, `hex_escapes` stores no more bytes than the argument has, whether it returns
-- their number or an error, so that a buffer of that size is enough.
pub hex_escapes-FitsIn : (raw : Bytes) → FitsIn (length raw) (hex_escapes raw)
unfolding hex_escapes
hex_escapes-FitsIn raw = cook-FitsIn outside raw
