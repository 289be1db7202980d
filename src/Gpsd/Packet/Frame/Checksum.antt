-- ===== src/Gpsd/Packet/Frame/Checksum.antt =====
-- The checksum of a sentence of NMEA 0183 as gpsd-3.16/packet.c finds it from the end of the line.
use tun_video.Common.{
  ℕ, zero, suc, ◌+◌, ◌-◌, ◌/◌, ◌%◌, ◌<◌, Bool, true, false, [], ◌∷◌, ◌++◌, ◌≡◌, refl, ap, ◌∙◌,
  get_or, length, ◌==◌, arith,
}
use tun_video.Common.Bits.{passes_at}
use tun_video.Gpsd.Hex.{Bytes}
use tun_video.Gpsd.Lexer.Pushback.{take_front}
use tun_video.Gpsd.Packet.State.{Machine, isspace, strchr}
use tun_video.Gpsd.Packet.Binary.{xor_all}
use tun_video.Gpsd.Packet.Sums.{nmea_checksum_ok, skip_back, upper_digit, hex_digits, toupper}

-- The characters behind the body: a star, two digits and the end of the line.
abbrev pub ending : ℕ → Bytes
ending crc = b'*' ∷ upper_digit (crc / 16 % 16) ∷ upper_digit (crc % 16) ∷ 13 ∷ 10 ∷ []

pub digit_strchr : (d : ℕ) → d < 16 → strchr hex_digits (upper_digit d) ≡ true
digit_strchr d h = passes_at (λ d. strchr hex_digits (upper_digit d)) 16 d h refl

digit_isspace : (d : ℕ) → d < 16 → isspace (upper_digit d) ≡ false
digit_isspace d h = ground arith

digit_agrees : (d : ℕ) → d < 16 → (upper_digit d == toupper (upper_digit d)) ≡ true
digit_agrees d h = passes_at (λ d. upper_digit d == toupper (upper_digit d)) 16 d h refl

get_or_past : (p t : Bytes) (i k : ℕ) → i ≡ length p + k → get_or (p ++ t) i 0 ≡ get_or t k 0
get_or_past [] t i k e = ap (λ j. get_or t j 0) (omega arith)
get_or_past (x ∷ p) t zero k e = omega arith
get_or_past (x ∷ p) t (suc i) k e = get_or_past p t i k (omega arith)

skip_one :
    (test : ℕ → Bool) (b : Bytes) (i c : ℕ)
    → get_or b (suc i) 0 ≡ c
    → test c ≡ true
    → skip_back test b (suc i) ≡ skip_back test b i
skip_one test b i c e t = rw (e, t) refl

skip_stop :
    (test : ℕ → Bool) (b : Bytes) (i c : ℕ)
    → get_or b (suc i) 0 ≡ c
    → test c ≡ false
    → skip_back test b (suc i) ≡ suc i
skip_stop test b i c e t = rw (e, t) refl

-- The scan from behind the line feed stops at the star.
scan_back :
    (pre rest : Bytes) (n crc : ℕ)
    → length pre ≡ suc n
    → let b = pre ++ (ending crc ++ rest) in
      skip_back (strchr hex_digits) b (skip_back isspace b (suc (suc (suc (suc (suc n)))))) ≡ suc n
scan_back pre rest n crc size =
    let b = pre ++ (ending crc ++ rest) in
    let t = ending crc ++ rest in
    let high = crc / 16 % 16 in
    let low = crc % 16 in
    let feed =
      skip_one isspace b (suc (suc (suc (suc n)))) 10 (get_or_past pre t _ 4 (omega arith)) refl in
    let return =
      skip_one isspace b (suc (suc (suc n))) 13 (get_or_past pre t _ 3 (omega arith)) refl in
    let digits =
      skip_stop isspace b (suc (suc n)) (upper_digit low) (get_or_past pre t _ 2 (omega arith))
        (digit_isspace low (omega arith)) in
    let second =
      skip_one (strchr hex_digits) b (suc (suc n)) (upper_digit low)
        (get_or_past pre t _ 2 (omega arith)) (digit_strchr low (omega arith)) in
    let first =
      skip_one (strchr hex_digits) b (suc n) (upper_digit high)
        (get_or_past pre t _ 1 (omega arith)) (digit_strchr high (omega arith)) in
    let star = skip_stop (strchr hex_digits) b n b'*' (get_or_past pre t _ 0 (omega arith)) refl in
    ap (skip_back (strchr hex_digits) b) (feed ∙ return ∙ digits) ∙ second ∙ first ∙ star

pub nmea_checksum_ok-ending :
    (p rest : Bytes) (m : Machine)
    → m.lexer.inbuffer ≡ b'$' ∷ (p ++ (ending (xor_all 0 p) ++ rest))
    → m.lexer.inbufptr ≡ length p + 6
    → nmea_checksum_ok m ≡ true
unfolding nmea_checksum_ok
nmea_checksum_ok-ending p rest m buffer ptr =
    let crc = xor_all 0 p in
    let t = ending crc ++ rest in
    let pre = b'$' ∷ p in
    let last : m.lexer.inbufptr - 1 ≡ suc (suc (suc (suc (suc (length p))))) = omega arith in
    rw
      (
        buffer,
        last,
        scan_back pre rest (length p) crc refl,
        get_or_past pre t (suc (length p)) 0 (omega arith),
        take_front (suc (length p)) pre t refl,
        get_or_past pre t (suc (length p) + 1) 1 (omega arith),
        get_or_past pre t (suc (length p) + 2) 2 (omega arith),
        digit_agrees (crc / 16 % 16) (omega arith),
        digit_agrees (crc % 16) (omega arith),
      )
      refl
