-- ===== src/Router/Message.antt =====
-- The packed structures of IRtestWLAN/ir.h as bytes: a `uint32_t` is four bytes, lowest first.
use Prim.Native.Nat.add
use native.Mathlib.Nat.{add_assoc, add-zero}
use tun_video.Common.{
  ℕ, zero, suc, ◌+◌, ◌*◌, ◌/◌, ◌%◌, ◌^◌, ◌≤◌, ◌<◌, List, [], ◌∷◌, ◌++◌, ◌≡◌, refl, ap, ◌∙◌, length,
  sym, get_or, drop, arith,
}
use tun_video.Tunnel.Frames.{get_or-append}

abbrev pub Bytes : Type 0
Bytes = List ℕ

unfoldable pub put32 : ℕ → Bytes
put32 w = w % 256 ∷ w / 256 % 256 ∷ w / 65536 % 256 ∷ w / 16777216 % 256 ∷ []

-- `pkt_get_u32`, without the pointer's advance.
unfoldable pub get32 : Bytes → ℕ → ℕ
get32 b off =
    get_or b off 0
    + 256 * get_or b (off + 1) 0
    + 65536 * get_or b (off + 2) 0
    + 16777216 * get_or b (off + 3) 0

pub record BeaconMessage : Type 0 where
  pub m_vir_ip : ℕ
  pub m_phy_ip : ℕ
  pub src_gps_x : ℕ
  pub src_gps_y : ℕ
  pub src_speed_x : ℕ
  pub src_speed_y : ℕ

pub record DataMessage : Type 0 where
  pub length : ℕ
  pub src_gps_x : ℕ
  pub src_gps_y : ℕ
  pub dst_gps_x : ℕ
  pub dst_gps_y : ℕ
  pub ttl : ℕ

-- `sizeof(DataMessage)`
abbrev pub message_size : ℕ
message_size = 24

unfoldable pub data_bytes : DataMessage → Bytes
data_bytes m =
    put32 m.length
    ++ (put32 m.src_gps_x
        ++ (put32 m.src_gps_y ++ (put32 m.dst_gps_x ++ (put32 m.dst_gps_y ++ put32 m.ttl))))

-- `(struct DataMessage *)(buffer + off)`
unfoldable pub data_at : Bytes → ℕ → DataMessage
data_at b off = record {
  length = get32 b off;
  src_gps_x = get32 b (off + 4);
  src_gps_y = get32 b (off + 8);
  dst_gps_x = get32 b (off + 12);
  dst_gps_y = get32 b (off + 16);
  ttl = get32 b (off + 20);
}

-- The reads of `recv_beacon`.
unfoldable pub beacon_at : Bytes → BeaconMessage
beacon_at b = record {
  m_vir_ip = get32 b 0;
  m_phy_ip = get32 b 4;
  src_gps_x = get32 b 8;
  src_gps_y = get32 b 12;
  src_speed_x = get32 b 16;
  src_speed_y = get32 b 20;
}

unfoldable pub beacon_bytes : BeaconMessage → Bytes
beacon_bytes m =
    put32 m.m_vir_ip
    ++ (put32 m.m_phy_ip
        ++ (put32 m.src_gps_x
            ++ (put32 m.src_gps_y ++ (put32 m.src_speed_x ++ put32 m.src_speed_y))))

-- All fields are `uint32_t`.
pub record IsData (m : DataMessage) : Type 0 where
  pub length_fits : m.length < 2 ^ 32
  pub src_x_fits : m.src_gps_x < 2 ^ 32
  pub src_y_fits : m.src_gps_y < 2 ^ 32
  pub dst_x_fits : m.dst_gps_x < 2 ^ 32
  pub dst_y_fits : m.dst_gps_y < 2 ^ 32
  pub ttl_fits : m.ttl < 2 ^ 32

pub record IsBeacon (m : BeaconMessage) : Type 0 where
  pub vir_ip_fits : m.m_vir_ip < 2 ^ 32
  pub phy_ip_fits : m.m_phy_ip < 2 ^ 32
  pub x_fits : m.src_gps_x < 2 ^ 32
  pub y_fits : m.src_gps_y < 2 ^ 32
  pub speed_x_fits : m.src_speed_x < 2 ^ 32
  pub speed_y_fits : m.src_speed_y < 2 ^ 32

get_or-drop : (b : Bytes) (off i : ℕ) → get_or (drop off b) i 0 ≡ get_or b (off + i) 0
get_or-drop b zero i = rw add.zero refl
get_or-drop [] (suc off) i = refl
get_or-drop (x ∷ b) (suc off) i = rw add.suc (get_or-drop b off i)

get32-drop : (b : Bytes) (off k : ℕ) → get32 (drop off b) k ≡ get32 b (off + k)
unfolding get32
get32-drop b off k = simp (get_or-drop, add_assoc)

pub drop-append : (p : Bytes) (rest : Bytes) → drop (length p) (p ++ rest) ≡ rest
drop-append [] rest = refl
drop-append (x ∷ p) rest = drop-append p rest

four :
    (w : ℕ)
    → w < 2 ^ 32
    → w % 256 + 256 * (w / 256 % 256) + 65536 * (w / 65536 % 256) + 16777216 * (w / 16777216 % 256)
      ≡ w
four w h = omega arith

get32-put32 : (w : ℕ) (rest : Bytes) → w < 2 ^ 32 → get32 (put32 w ++ rest) 0 ≡ w
unfolding get32 put32
get32-put32 w rest h = four w h

data_at-bytes_zero :
    (m : DataMessage) (rest : Bytes) → IsData m → data_at (data_bytes m ++ rest) 0 ≡ m
unfolding data_at data_bytes get32 put32
data_at-bytes_zero m rest h = λ i. record {
  length = four m.length h.length_fits i;
  src_gps_x = four m.src_gps_x h.src_x_fits i;
  src_gps_y = four m.src_gps_y h.src_y_fits i;
  dst_gps_x = four m.dst_gps_x h.dst_x_fits i;
  dst_gps_y = four m.dst_gps_y h.dst_y_fits i;
  ttl = four m.ttl h.ttl_fits i;
}

-- A beacon reads back at the start of the buffer that it was received into.
pub beacon_at-bytes :
    (m : BeaconMessage) (rest : Bytes) → IsBeacon m → beacon_at (beacon_bytes m ++ rest) ≡ m
unfolding beacon_at beacon_bytes get32 put32
beacon_at-bytes m rest h = λ i. record {
  m_vir_ip = four m.m_vir_ip h.vir_ip_fits i;
  m_phy_ip = four m.m_phy_ip h.phy_ip_fits i;
  src_gps_x = four m.src_gps_x h.x_fits i;
  src_gps_y = four m.src_gps_y h.y_fits i;
  src_speed_x = four m.src_speed_x h.speed_x_fits i;
  src_speed_y = four m.src_speed_y h.speed_y_fits i;
}

pub data_at-drop : (b : Bytes) (off : ℕ) → data_at (drop off b) 0 ≡ data_at b off
unfolding data_at
data_at-drop b off = λ i. record {
  length = (get32-drop b off 0 ∙ ap (get32 b) (add-zero off)) i;
  src_gps_x = get32-drop b off 4 i;
  src_gps_y = get32-drop b off 8 i;
  dst_gps_x = get32-drop b off 12 i;
  dst_gps_y = get32-drop b off 16 i;
  ttl = get32-drop b off 20 i;
}

-- A message whose fields are 32-bit numbers, written behind a packet of `n` bytes and before any
-- others, reads back at offset `n`.
pub data_at-bytes :
    (p : Bytes) (m : DataMessage) (rest : Bytes)
    → IsData m
    → data_at (p ++ (data_bytes m ++ rest)) (length p) ≡ m
data_at-bytes p m rest h =
    sym (data_at-drop (p ++ (data_bytes m ++ rest)) (length p))
    ∙ rw drop-append (data_at-bytes_zero m rest h)

pub length-data_bytes : (m : DataMessage) → length (data_bytes m) ≡ message_size
unfolding data_bytes put32
length-data_bytes m = refl

pub get32-append : (b rest : Bytes) (i : ℕ) → i + 4 ≤ length b → get32 (b ++ rest) i ≡ get32 b i
unfolding get32
get32-append b rest i h =
    rw
      (
        get_or-append b rest i (omega arith),
        get_or-append b rest (i + 1) (omega arith),
        get_or-append b rest (i + 2) (omega arith),
        get_or-append b rest (i + 3) (omega arith),
      )
      refl

pub data_at-append :
    (b rest : Bytes) (i : ℕ) → i + 24 ≤ length b → data_at (b ++ rest) i ≡ data_at b i
unfolding data_at
data_at-append b rest i h = λ k. record {
  length = get32-append b rest i (omega arith) k;
  src_gps_x = get32-append b rest (i + 4) (omega arith) k;
  src_gps_y = get32-append b rest (i + 8) (omega arith) k;
  dst_gps_x = get32-append b rest (i + 12) (omega arith) k;
  dst_gps_y = get32-append b rest (i + 16) (omega arith) k;
  ttl = get32-append b rest (i + 20) (omega arith) k;
}

-- The bytes behind a prefix, read from its end on.
pub data_at_behind : (p q : Bytes) → data_at (p ++ q) (length p) ≡ data_at q 0
data_at_behind p q =
    sym (data_at-drop (p ++ q) (length p)) ∙ ap (λ b. data_at b 0) (drop-append p q)
