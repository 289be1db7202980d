-- ===== src/Router/Forward/Deliver.antt =====
-- A packet read from one node's tun device and heard by its destination.
use mathlib.Core.List.{append_assoc}
use tun_video.Common.{
  ℕ, ◌+◌, ◌-◌, ◌≤◌, true, false, Option, none, some, [], ◌∷◌, ◌++◌, ◌≡◌, refl, ap, ◌∙◌, length,
  drop, ltb, ◌==◌, arith, length-append,
}
use tun_video.Tunnel.Frames.{take-append_self}
use tun_video.Router.Float.{Float}
use tun_video.Router.Geometry.{Gps}
use tun_video.Router.Table.{find}
use tun_video.Router.Message.{
  Bytes, DataMessage, message_size, data_bytes, length-data_bytes, get32-append,
}
use tun_video.Router.State.{ForwardTableEntry, Router, Motion}
use tun_video.Router.Forward.{
  Output, unicast, broadcast, deliver, done, saddr, daddr, recv_data, recv_tun, address_packet,
  tun_message,
}

-- The bytes that a node sends.
abbrev pub datagram : Output → Bytes
datagram (unicast ip b) = b
datagram (broadcast b) = b
datagram (deliver b) = b

module _ (f : Float) where
  open f use {F}

  datagram-address_packet :
      (p : Bytes) (self : Gps F) (e : Option (ForwardTableEntry F))
      → (m : DataMessage) × datagram (address_packet f (length p) p self e) ≡ p ++ data_bytes m
  unfolding address_packet
  datagram-address_packet p self none = (tun_message f (length p) self none, refl)
  datagram-address_packet p self (some e) = (tun_message f (length p) self (some e.gps), refl)

  recv_data-append :
      (motion : Motion F) (until_time : ℕ) (p : Bytes) (m : DataMessage) (r : Router F)
      → 20 ≤ length p
      → (daddr p == r.vir_ip) ≡ true
      → (saddr p == r.vir_ip) ≡ false
      → recv_data f motion until_time (p ++ data_bytes m) r
        ≡ done
            (record r {
              data_recv_buffer =
                  (p ++ data_bytes m) ++ drop (length p + message_size) r.data_recv_buffer;
            })
            (deliver p ∷ [])
  unfolding recv_data
  recv_data-append motion until_time p m r h to from =
      let rest = data_bytes m ++ drop (length p + message_size) r.data_recv_buffer in
      let n : length (p ++ data_bytes m) ≡ length p + message_size =
        length-append p (data_bytes m) ∙ ap (λ k. length p + k) (length-data_bytes m) in
      let to' : daddr (p ++ rest) == r.vir_ip ≡ true =
        rw (get32-append p rest 16 (omega arith)) to in
      let from' : saddr (p ++ rest) == r.vir_ip ≡ false =
        rw (get32-append p rest 12 (omega arith)) from in
      let short : ltb (length p + message_size) message_size ≡ false = ground arith in
      let size : length p + message_size - message_size ≡ length p = omega arith in
      rw
        (
          n,
          append_assoc p (data_bytes m) (drop (length p + message_size) r.data_recv_buffer),
          from',
          short,
          to',
          size,
          take-append_self p rest,
        )
        refl

  -- A packet of at least 20 bytes that `recv_tun` reads at one node, whatever its tables and
  -- position, and that `recv_data` gets whole at the node whose address it carries as its
  -- destination, and not as its source, is written to that node's tun device byte for byte. The
  -- node keeps the datagram in its buffer and changes nothing else.
  pub recv_data-recv_tun :
      (motion : Motion F) (until_time : ℕ) (p : Bytes) (self : Gps F) (s r : Router F)
      → 20 ≤ length p
      → (daddr p == r.vir_ip) ≡ true
      → (saddr p == r.vir_ip) ≡ false
      → let d = datagram (recv_tun f p self s).1 in
        recv_data f motion until_time d r
        ≡ done
            (record r { data_recv_buffer = d ++ drop (length p + message_size) r.data_recv_buffer })
            (deliver p ∷ [])
  unfolding recv_tun
  recv_data-recv_tun motion until_time p self s r h to from =
      let (m, e) = datagram-address_packet p self (find (daddr p) s.forward_table) in
      rw e (recv_data-append motion until_time p m r h to from)
