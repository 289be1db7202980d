-- ===== src/Router/Forward.antt =====
-- `recv_tun`, `recv_data`, `Forwarding`, `my_send` and `data_broadcast` of IRtestWLAN/ir.cc.
pub mod Deliver
pub mod Relay
pub mod Stale
pub mod Faults
use Prim.Native.String.{String}
use tun_video.Common.{
  ℕ, ◌+◌, ◌-◌, ◌%◌, ◌^◌, Bool, true, false, not, Option, none, some, List, [], ◌∷◌, ◌++◌, length,
  take, drop, ltb, ◌==◌, if◌then◌else◌,
}
use tun_video.Router.Float.{Float}
use tun_video.Router.Geometry.{Gps, is_unknown}
use tun_video.Router.Table.{find, assign}
use tun_video.Router.Message.{Bytes, DataMessage, message_size, data_bytes, data_at, get32, put32}
use tun_video.Router.State.{
  ForwardTableEntry, Router, Motion, is_expired, ttl_neighbor_table, broadcast_address,
}
use tun_video.Router.Route.{route_makeup, is_legal}

-- `sendto` a neighbor or the broadcast address, and `write` to the tun device.
pub data Output : Type 0 where
  unicast : ℕ → Bytes → Output
  broadcast deliver : Bytes → Output

-- `fault` is what C++ leaves undefined: a read outside a buffer, or through `end()`.
pub data Outcome (F : Type 0) : Type 0 where
  fault : Outcome F
  done : Router F → List Output → Outcome F

-- `ip_hdr.saddr` and `ip_hdr.daddr` at the start of a buffer.
abbrev pub saddr : Bytes → ℕ
saddr b = get32 b 12

abbrev pub daddr : Bytes → ℕ
daddr b = get32 b 16

-- A store of four bytes at an offset.
abbrev pub write_at : Bytes → ℕ → Bytes → Bytes
write_at b off bytes = take off b ++ (bytes ++ drop (off + length bytes) b)

-- `ttl--` on a `uint32_t`.
abbrev pub decrement : ℕ → ℕ
decrement ttl = (ttl + 2 ^ 32 - 1) % 2 ^ 32

module _ (f : Float) where
  open f use {F, of_uint, to_uint, bits}

  -- `data_recv_buffer, nread + sizeof(DataMessage)`: what both senders send.
  abbrev pub outgoing : ℕ → Router F → Bytes
  outgoing nread r = take (nread + message_size) r.data_recv_buffer

  -- The end of `Forwarding`.
  unfoldable pub send_to : ℕ → ℕ → Router F → Outcome F
  send_to hop nread r =
      done r (if hop == broadcast_address then [] else unicast hop (outgoing nread r) ∷ [])

  abbrev pub set_hop : ℕ → ForwardTableEntry F → ℕ → ℕ → Router F → Router F
  set_hop dst_ip e hop until_time r = record r {
    forward_table =
        assign dst_ip (record e { next_hop_ip = hop; timestamp = until_time }) r.forward_table;
  }

  -- A new route for an entry that is too old: it is entered unless it is the broadcast address.
  unfoldable pub renew : ℕ → ℕ → ForwardTableEntry F → ℕ → Option ℕ × Router F → Outcome F
  renew until_time dst_ip e nread (none, r) = fault
  renew until_time dst_ip e nread (some hop, r) =
      send_to hop nread (if hop == broadcast_address then r else set_hop dst_ip e hop until_time r)

  -- A new route for an entry whose next hop is not legal: it is entered in any case.
  unfoldable pub replace : ℕ → ℕ → ForwardTableEntry F → ℕ → Option ℕ × Router F → Outcome F
  replace until_time dst_ip e nread (none, r) = fault
  replace until_time dst_ip e nread (some hop, r) =
      send_to hop nread (set_hop dst_ip e hop until_time r)

  abbrev pub data_broadcast : ℕ → Router F → Outcome F
  data_broadcast nread r = done r (broadcast (outgoing nread r) ∷ [])

  -- The three cases of `Forwarding`. With no entry the source reads through `end()` behind
  -- `RouteMakeup`, whatever that returned.
  unfoldable pub forward_by :
      Motion F → ℕ → ℕ → Gps F → ℕ → Router F → Option (ForwardTableEntry F) → Outcome F
  forward_by motion until_time dst_ip dst nread r none =
      if is_unknown f dst then data_broadcast nread r else fault
  forward_by motion until_time dst_ip dst nread r (some e) =
      if is_expired ttl_neighbor_table until_time e.timestamp
      then if is_unknown f dst
        then data_broadcast nread r
        else renew until_time dst_ip e nread (route_makeup f motion until_time dst r)
      else let (legal, r') = is_legal f until_time e.next_hop_ip dst r in
        if legal
        then send_to e.next_hop_ip nread r'
        else replace until_time dst_ip e nread (route_makeup f motion until_time dst r')

  unfoldable pub forwarding : Motion F → ℕ → ℕ → Gps F → ℕ → Router F → Outcome F
  forwarding motion until_time dst_ip dst nread r =
      forward_by motion until_time dst_ip dst nread r (find dst_ip r.forward_table)

  -- The packet is for another node: the counter is written back into the buffer.
  unfoldable pub pass_on : Motion F → ℕ → ℕ → DataMessage → ℕ → Router F → Outcome F
  pass_on motion until_time dst_ip m nread r =
      let ttl = decrement m.ttl in
      let r' = record r {
        data_recv_buffer = write_at r.data_recv_buffer (nread - message_size + 20) (put32 ttl);
      } in
      let dst : Gps F = record { x = of_uint m.dst_gps_x; y = of_uint m.dst_gps_y } in
      if ltb 0 ttl then forwarding motion until_time dst_ip dst nread r' else done r' []

  -- `recv_data`: the datagram is stored in the buffer, and its last bytes are the message. Left out
  -- are a failed `recvfrom`, after which the source reads the old buffer with an `nread` of -1, and
  -- its `exit(1)` when the write to the tun device fails.
  unfoldable pub recv_data : Motion F → ℕ → Bytes → Router F → Outcome F
  recv_data motion until_time datagram r =
      let nread = length datagram in
      let buffer = datagram ++ drop nread r.data_recv_buffer in
      let r' = record r { data_recv_buffer = buffer } in
      if saddr buffer == r.vir_ip
      then done r' []
      else if ltb nread message_size
      then fault
      else if daddr buffer == r.vir_ip
      then done r' (deliver (take (nread - message_size) buffer) ∷ [])
      else pass_on motion until_time (daddr buffer) (data_at buffer (nread - message_size)) nread r'

  -- The message of `recv_tun`. The two calls of `printf` assign `m_gps.y`, converted as a number,
  -- to `src_gps_y`.
  unfoldable pub tun_message : ℕ → Gps F → Option (Gps F) → DataMessage
  tun_message nread self none = record {
    length = nread;
    src_gps_x = bits self.x;
    src_gps_y = to_uint self.y;
    dst_gps_x = 0;
    dst_gps_y = 90;
    ttl = 16;
  }
  tun_message nread self (some g) = record {
    length = nread;
    src_gps_x = bits self.x;
    src_gps_y = to_uint self.y;
    dst_gps_x = to_uint g.x;
    dst_gps_y = to_uint g.y;
    ttl = 16;
  }

  -- `gps_by_ip` and the two branches behind it.
  unfoldable pub address_packet : ℕ → Bytes → Gps F → Option (ForwardTableEntry F) → Output
  address_packet nread packet self none =
      broadcast (packet ++ data_bytes (tun_message nread self none))
  address_packet nread packet self (some e) =
      unicast e.next_hop_ip (packet ++ data_bytes (tun_message nread self (some e.gps)))

  -- `recv_tun`, for a packet that `read` returned whole, at the position `self`. The packet is one
  -- that fits into the 16 bits of `nread` and, with the message behind it, into `data_buffer`; a
  -- longer one, which the source writes past its end, and its `exit(1)` when the broadcast cannot be
  -- sent are left out.
  unfoldable pub recv_tun : Bytes → Gps F → Router F → Router F × Output
  recv_tun packet self r = (
    record r { gps = self },
    address_packet (length packet) packet self (find (daddr packet) r.forward_table),
  )
