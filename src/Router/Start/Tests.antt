-- ===== src/Router/Start/Tests.antt =====
-- The router's start on a machine that grants everything but a broadcast address.
use tun_video.Common.{ℕ, none, some, List, [], ◌∷◌, ◌≡◌, ◌↔◌, refl}
use tun_video.Common.Int.{ℤ, pos}
use tun_video.Tunnel.Kernel.{Bytes}
use tun_video.Tunnel.CString.{strncpy}
use tun_video.Tunnel.TunAlloc.{Driver, tun_alloc, configured, request}
use tun_video.Tunnel.Setup.{ok}
use tun_video.Router.Start.{Host, Radio, init, open_tun, open_beacon, open_radio, schedule_maxfd}
use tun_video.Router.Start.Outcome.{IsReady, IsOpen, broadcast_addr_of, init_iff}

abbrev driver : Driver
driver = record { open_clone = pos 3; tunsetiff = λ fd flags name. (pos 0, name) }

abbrev wired : Host
wired = record {
  driver = driver;
  siocgifaddr = λ name. some 7;
  tunsetnocsum = λ fd. pos 0;
  beacon_socket = pos 4;
  siocgifbrdaddr = λ name. none;
  beacon_bind = λ fd addr. pos 0;
  data_socket = pos 5;
  data_bind = λ fd addr. pos 0;
}

abbrev argv : List Bytes
argv = (b'r' ∷ []) ∷ (b't' ∷ b'0' ∷ []) ∷ []

-- The start fails, and with a broadcast address the descriptors are 3, 4 and 5.
no_broadcast : init wired argv ≡ ok none
unfolding init open_tun open_beacon open_radio tun_alloc configured strncpy request
no_broadcast = refl

watched : schedule_maxfd (pos 3) (pos 4) (pos 5) ≡ pos 6
unfolding schedule_maxfd
watched = refl

init_iff_example :
    ((t : Radio) → (init wired argv ≡ ok (some t)) ↔ IsReady wired argv t)
    × ((init wired argv ≡ ok none) ↔ (
        (phy_ip : ℕ) × (vir_ip : ℕ) × (tun_fd : ℤ) × (beacon_fd : ℤ) × IsOpen wired argv phy_ip
          vir_ip tun_fd beacon_fd
        × (broadcast_addr_of wired ≡ none)))
init_iff_example = init_iff wired argv
