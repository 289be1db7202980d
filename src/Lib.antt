-- ===== src/Lib.antt =====
-- The programs of this repository that carry packets over a network of moving nodes, as pure
-- functions, with what makes them correct.
--
-- The parts
--   * tapudp.c, tunudp.c and br_select.c: user-space programs that copy frames between a tun or tap
--     device and a UDP socket, or between two devices. Module `Tunnel`.
--   * IRtestWLAN (ir.cc, ir.h, Entry.h, GPSVec.cc): a geographic router. Nodes broadcast beacons with
--     their position, keep a table of neighbors and one of next hops, and pass packets from a tun
--     device on towards the destination's position. Module `Router`.
--   * gpsd-3.16: the receiver daemon that gives the router its position. Modelled is the layer that
--     checks what comes in: the packet sniffer (packet.c), the checksum of RTCM 3 (crc24q.c), the
--     words of the satellite downlink and of RTCM 2 (isgps.c), the hooks of driver_rtcm2.c, bitfields
--     (bits.c) and hexadecimal text (hex.c). Module `Gpsd`.
--
-- How the modules correspond to the code
--   * `Tunnel.Kernel`: the results of select, read and write in a round of a loop, and what a round
--     does. `Tunnel.CString`: the calls of the C library. `Tunnel.TunAlloc`: `tun_alloc`.
--     `Tunnel.Setup`: `main` of tapudp.c and tunudp.c up to the loop. `Tunnel.Tap`, `Tunnel.Tun` and
--     `Tunnel.Bridge`: the loops, a round as a function of the buffer and of the kernel's results. A
--     loop runs over a list of rounds, so it needs no fuel. `Tunnel.Bridge.Open`: the start of
--     br_select.c.
--   * `Router.Float`: the operations of C++ floats, a parameter. `Router.Geometry`: GPSVec.cc.
--     `Router.Table`: `std::map`. `Router.Message`: the packed structures as bytes. `Router.State`:
--     the members of class `IR`. `Router.Beacon`: `recv_beacon` and `build_neighbor`. `Router.Route`:
--     `RouteMakeup`, `CalNexHop` and `IsLegal`. `Router.Forward`: `recv_tun`, `recv_data`,
--     `Forwarding`, `my_send` and `data_broadcast`; an access that C++ leaves undefined is `fault`.
--     `Router.Node`: the beacons sent and the loop of `schedule`, over a list of events; its loop over
--     the queue takes the queue's length as fuel. `Router.Start`: `init`. `Router.Receiver`:
--     `gps_thread` of main.cc.
--   * `Gpsd.Crc24q`: crc24q.c. `Gpsd.Isgps`: isgps.c; the search loop runs over the offsets -5 to 0, a
--     recursion on their number. `Gpsd.Rtcm2`: the hooks of driver_rtcm2.c. `Gpsd.Hex`: hex.c.
--     `Gpsd.Bits`: the bitfields of bits.c. `Gpsd.Lexer`: the buffers of packet.c.
--     `Gpsd.Packet`: the packet sniffer of packet.c. Its states are grouped by protocol, and
--     `nextstate` is a function per group. The loop of `packet_parse` takes fuel: a round takes a
--     character, drops one, or gives it back and lowers the rank of the state, so
--     `inbuflen * 4132 + 4 * (inbuflen - inbufptr) + 4` rounds are enough. What `read` gives is an
--     argument.
--   * `Common`: lists over native numbers, words of C as numbers with their wrap written out, signed
--     integers, and the laws of the bit operations.
--
-- What is not modelled: the router's console output, alarms within a round of its loop, a failed
-- recvfrom, and its exit when a write to the tun device or a broadcast of a packet fails; packets too
-- long for its buffers, and the overrun of ifr_name in get_ip; its float prediction of positions (a
-- parameter, as is the kernel); the
-- earlier copies IR and IRtest; in gpsd-3.16 the log lines of the sniffer, the daemon around the lower
-- layer, its drivers, its JSON and its client library.

pub mod Common
pub mod Tunnel
pub mod Router
pub mod Gpsd
