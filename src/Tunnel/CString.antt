-- ===== src/Tunnel/CString.antt =====
-- The C strings and conversions that the programs' start uses: strncpy, strcpy, atoi and htons.
-- A C string is a list of bytes that ends at its first 0, or at the end of the list.
use tun_video.Common.{
  ℕ, zero, suc, ◌+◌, ◌-◌, ◌*◌, ◌/◌, ◌%◌, ◌<◌, Bool, ◌&&◌, ◌||◌, [], ◌∷◌, ◌++◌, ◌≡◌, refl, ap, arith,
  length, replicate, take, leb, ◌==◌, if◌then◌else◌, length-replicate, drop, length-append,
  length-drop,
}
use tun_video.Common.Int.{ℤ, pos, negsuc}
use tun_video.Tunnel.Kernel.{Bytes, store}

-- The bytes of a C string.
unfoldable pub cstr : Bytes → Bytes
cstr [] = []
cstr (c ∷ cs) = if c == 0 then [] else c ∷ cstr cs

-- `strncpy` into an array of `n` bytes: cut at `n`, filled with zeros, with no 0 added.
unfoldable pub strncpy : Bytes → ℕ → Bytes
strncpy s zero = []
strncpy [] (suc n) = 0 ∷ replicate n 0
strncpy (c ∷ cs) (suc n) = if c == 0 then 0 ∷ replicate n 0 else c ∷ strncpy cs n

-- `strcpy`: the bytes of the string and the 0 behind them.
unfoldable pub strcpy : Bytes → Bytes → Bytes
strcpy dst src = store (cstr src ++ 0 ∷ []) dst

abbrev is_digit : ℕ → Bool
is_digit c = leb b'0' c && leb c b'9'

abbrev is_space : ℕ → Bool
is_space c = c == 32 || leb 9 c && leb c 13

digits : ℕ → Bytes → ℕ
digits acc [] = acc
digits acc (c ∷ cs) =
    let rest = digits (acc * 10 + (c - b'0')) cs in if is_digit c then rest else acc

negate : ℕ → ℤ
negate zero = pos 0
negate (suc n) = negsuc n

signed : Bytes → ℤ
unfolding digits negate
signed [] = pos 0
signed (c ∷ cs) =
    if c == b'-'
    then negate (digits 0 cs)
    else if c == b'+'
    then pos (digits 0 cs)
    else pos (digits 0 (c ∷ cs))

unfoldable pub atoi : Bytes → ℤ
unfolding signed
atoi [] = pos 0
atoi (c ∷ cs) = let rest = atoi cs in if is_space c then rest else signed (c ∷ cs)

-- The conversion of an `int` to `uint16_t`.
abbrev pub to_u16 : ℤ → ℕ
to_u16 (pos n) = n % 65536
to_u16 (negsuc n) = 65535 - n % 65536

-- `htons` on a little-endian machine: the two bytes change places.
abbrev pub htons : ℕ → ℕ
htons x = x % 256 * 256 + x / 256

replicate-cstr : (n : ℕ) → cstr (replicate n 0) ≡ []
unfolding cstr
replicate-cstr zero = refl
replicate-cstr (suc n) = refl

pub length-strncpy : (s : Bytes) (n : ℕ) → length (strncpy s n) ≡ n
unfolding strncpy
length-strncpy s zero = refl
length-strncpy [] (suc n) = ap suc (length-replicate {A = ℕ} n 0)
length-strncpy (c ∷ cs) (suc n) = ground (arith, length-strncpy cs n, length-replicate {A = ℕ} n 0)

pub cstr-strncpy : (s : Bytes) (n : ℕ) → cstr (strncpy s n) ≡ take n (cstr s)
unfolding cstr strncpy
cstr-strncpy s zero = refl
cstr-strncpy [] (suc n) = refl
cstr-strncpy (c ∷ cs) (suc n) = ground (arith, cstr-strncpy cs n)

cstr-append_end : (s rest : Bytes) → cstr ((cstr s ++ 0 ∷ []) ++ rest) ≡ cstr s
unfolding cstr
cstr-append_end [] rest = refl
cstr-append_end (c ∷ cs) rest = ground (arith, cstr-append_end cs rest)

-- A copied string reads back, whatever stood in the array.
pub cstr-strcpy : (dst src : Bytes) → cstr (strcpy dst src) ≡ cstr src
unfolding strcpy
cstr-strcpy dst src = cstr-append_end src (drop (length (cstr src ++ 0 ∷ [])) dst)

-- A string that fits its array with its 0 leaves the array's length alone.
pub length-strcpy :
    (dst src : Bytes) → length (cstr src) < length dst → length (strcpy dst src) ≡ length dst
unfolding strcpy
length-strcpy dst src h =
    let copied = cstr src ++ 0 ∷ [] in
    omega (
      arith,
      length-append copied (drop (length copied) dst),
      length-append (cstr src) (0 ∷ []),
      length-drop (length copied) dst,
    )
