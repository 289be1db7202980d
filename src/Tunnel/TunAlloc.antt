-- ===== src/Tunnel/TunAlloc.antt =====
-- `tun_alloc`, the same function in tapudp.c and tunudp.c.
use tun_video.Common.{
  ℕ, ◌<◌, Bool, true, false, List, [], ◌∷◌, ◌≡◌, refl, length, replicate, take, get_or, ◌==◌,
  if◌then◌else◌, ◌∙◌, arith, ◌⊎◌, Bool-cases, inl, inr,
}
use tun_video.Common.Int.{ℤ, pos, negsuc}
use tun_video.Tunnel.Kernel.{Bytes}
use tun_video.Tunnel.CString.{
  cstr, strncpy, strcpy, length-strncpy, cstr-strncpy, cstr-strcpy, length-strcpy,
}

abbrev pub ifnamsiz : ℕ
ifnamsiz = 16

abbrev pub is_negative : ℤ → Bool
is_negative (pos n) = false
is_negative (negsuc n) = true

-- `open("/dev/net/tun", O_RDWR)`, and `ioctl(fd, TUNSETIFF, &ifr)`, which is given the flags and
-- the name in `ifr` and may change the name.
pub record Driver : Type 0 where
  pub open_clone : ℤ
  pub tunsetiff : ℤ → ℕ → Bytes → ℤ × Bytes

-- The result, the caller's `dev` array and the descriptors that were closed again.
pub record Alloc : Type 0 where
  pub ret : ℤ
  pub dev : Bytes
  pub closed : List ℤ

-- `memset(&ifr, 0, …)`, then `strncpy(ifr.ifr_name, dev, IFNAMSIZ)` if a name is given.
unfoldable pub request : Bytes → Bytes
request dev = if get_or dev 0 0 == 0 then replicate ifnamsiz 0 else strncpy dev ifnamsiz

-- Behind the `ioctl`: close on an error, or write the name back.
unfoldable pub configured : ℤ → Bytes → ℤ → Bytes → Alloc
configured fd dev err name =
    if is_negative err
    then record { ret = err; dev = dev; closed = fd ∷ [] }
    else record { ret = fd; dev = strcpy dev name; closed = [] }

unfoldable pub tun_alloc : Driver → Bytes → ℕ → Alloc
tun_alloc k dev flags =
    let fd = k.open_clone in
    let (err, name) = k.tunsetiff fd flags (request dev) in
    if is_negative fd
    then record { ret = fd; dev = dev; closed = [] }
    else configured fd dev err name

-- The kernel is asked for the first fifteen or sixteen bytes of the name, in an array of sixteen:
-- a name of sixteen bytes or more is cut at sixteen and has no end in that array.
pub request_lem :
    (dev : Bytes)
    → (cstr (request dev) ≡ take ifnamsiz (cstr dev)) × (length (request dev) ≡ ifnamsiz)
unfolding request
request_lem [] = (unfold cstr in refl, refl)
request_lem (c ∷ dev) = elim (Bool-cases (c == 0)) [
  | inl e ↦ (rw e (unfold cstr in ground arith), rw e refl)
  | inr e ↦ (rw e (cstr-strncpy (c ∷ dev) ifnamsiz), rw e (length-strncpy (c ∷ dev) ifnamsiz))
]

-- `ioctl(TUNSETIFF)` writes back a name that ends within its sixteen bytes.
abbrev pub NamesDevice : Driver → Type 0
NamesDevice k =
    (fd : ℤ) (flags : ℕ) (name : Bytes) → length (cstr (k.tunsetiff fd flags name).1) < ifnamsiz

-- For a name in an array of sixteen bytes, and a kernel that writes back a name that ends within
-- sixteen: on success `tun_alloc` returns the open descriptor, kept open, and `dev` holds the name that the
-- kernel chose in an array as long as before; on failure the result is negative, `dev` is as it
-- was, and a descriptor that had been opened is closed.
pub tun_alloc_lem :
    (k : Driver) (dev : Bytes) (flags : ℕ)
    → NamesDevice k
    → length dev ≡ ifnamsiz
    → let a = tun_alloc k dev flags in
      let answer = k.tunsetiff k.open_clone flags (request dev) in
      ((is_negative k.open_clone ≡ false)
        × (is_negative answer.0 ≡ false)
        × (a.ret ≡ k.open_clone)
        × (a.closed ≡ [])
        × (cstr a.dev ≡ cstr answer.1)
        × (length a.dev ≡ ifnamsiz))
      ⊎ ((is_negative a.ret ≡ true)
          × (a.dev ≡ dev)
          × (a.closed ≡ (if is_negative k.open_clone then [] else k.open_clone ∷ [])))
unfolding tun_alloc configured
tun_alloc_lem k dev flags named len = elim (Bool-cases (is_negative k.open_clone)) [
  | inl bad ↦ inr (rw bad bad, rw bad refl, rw bad refl)
  | inr open_ok ↦ elim (Bool-cases (is_negative answer.0)) [
    | inl bad ↦ inr (rw (open_ok, bad) bad, rw (open_ok, bad) refl, rw (open_ok, bad) refl)
    | inr ok ↦ inl (
      open_ok,
      ok,
      rw (open_ok, ok) refl,
      rw (open_ok, ok) refl,
      rw (open_ok, ok) (cstr-strcpy dev answer.1),
      rw (open_ok, ok) (length-strcpy dev answer.1 short ∙ len),
    )
  ]
]
  where
    answer : ℤ × Bytes
    answer = k.tunsetiff k.open_clone flags (request dev)

    short : length (cstr answer.1) < length dev
    short = rw len (named k.open_clone flags (request dev))
