-- ===== src/Tunnel/Tap/Link.antt =====
-- Two tapudp programs joined by a network, the sender's rounds `rs` and the receiver's `qs`.
use mathlib.Core.List.{Sublist}
use tun_video.Common.{List, ◌≡◌, ap, ◌∙◌}
use tun_video.Tunnel.Kernel.{Bytes, device, socket, Round, written, device_frames, socket_frames}
use tun_video.Tunnel.Frames.{keep, All, keep-keep, keep-Sublist}
use tun_video.Tunnel.Tap.{is_carried, run}
use tun_video.Tunnel.Tap.Relay.{HasHeader, run_relays}

module _ (b c : Bytes) (rs qs : List Round) (hd : All HasHeader (device_frames rs))
    (hs : All HasHeader (socket_frames rs)) (kd : All HasHeader (device_frames qs))
    (ks : All HasHeader (socket_frames qs)) where
  -- When every frame that either end reads has a whole Ethernet header, then over a network that may
  -- lose datagrams the receiver's device gets a subsequence of the IP and ARP frames that the
  -- sender's device gave: whole frames, in order, none invented.
  pub link-Sublist :
      Sublist (socket_frames qs) (written socket (run b rs).1)
      → Sublist (written device (run c qs).1) (keep is_carried (device_frames rs))
  link-Sublist s = rw (run_relays c qs kd ks).1 (
      rw (keep-keep is_carried (device_frames rs)) at
        (rw (run_relays b rs hd hs).0 at (keep-Sublist is_carried s)))

  -- When every frame that either end reads has a whole Ethernet header, then over a network that
  -- delivers every datagram in order the receiver's device gets exactly the IP and ARP frames that
  -- the sender's device gave.
  pub link_exact :
      socket_frames qs ≡ written socket (run b rs).1
      → written device (run c qs).1 ≡ keep is_carried (device_frames rs)
  link_exact e =
      (run_relays c qs kd ks).1
      ∙ ap (keep is_carried) (e ∙ (run_relays b rs hd hs).0)
      ∙ keep-keep is_carried (device_frames rs)
