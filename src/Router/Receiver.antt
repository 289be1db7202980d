-- ===== src/Router/Receiver.antt =====
-- `gps_thread` of IRtestWLAN/main.cc: the fix that the router reads, kept from what the receiver's
-- client library gives. `isnan` and the conversion of a `double` to a `float` are parameters, and the
-- lock, whose critical section is one step here, is left out.
use tun_video.Common.{
  ℕ, Bool, not, List, [], ◌∷◌, ◌&&◌, ◌||◌, ◌≡◌, refl, Bool-cases, inl, inr, ◌==◌, if◌then◌else◌,
}
use tun_video.Router.Node.{Fix}

-- The members of `gps_data` that the thread looks at.
pub record Reading (F : Type 0) : Type 0 where
  pub status : ℕ
  pub mode : ℕ
  pub latitude : F
  pub longitude : F
  pub speed : F

-- A round of the loop: `gps_waiting` gives false, `gps_read` gives -1, or there is a reading.
pub data Poll (F : Type 0) : Type 0 where
  no_data read_error : Poll F
  reading : Reading F → Poll F

abbrev pub status_fix : ℕ
status_fix = 1

abbrev pub mode_2d : ℕ
mode_2d = 2

abbrev pub mode_3d : ℕ
mode_3d = 3

module _ {F : Type 0} (isnan : F → Bool) (narrow : F → F) where
  abbrev pub is_usable : Reading F → Bool
  is_usable r =
      r.status == status_fix
      && ((r.mode == mode_2d || r.mode == mode_3d)
          && (not (isnan r.latitude) && not (isnan r.longitude)))

  abbrev pub fix_of : Reading F → Fix F
  fix_of r = record {
    g_gps = record { x = narrow r.latitude; y = narrow r.longitude };
    g_speed = r.speed;
  }

  -- One round of `while(1)`.
  unfoldable pub listen_once : Poll F → Fix F → Fix F
  listen_once no_data f = f
  listen_once read_error f = f
  listen_once (reading r) f = if is_usable r then fix_of r else f

  -- The loop never ends: these are its first rounds.
  unfoldable pub listen : List (Poll F) → Fix F → Fix F
  listen [] f = f
  listen (p ∷ polls) f = listen polls (listen_once p f)

  -- The usable readings, in their order.
  abbrev pub usable : List (Poll F) → List (Reading F)
  usable [] = []
  usable (reading r ∷ polls) = if is_usable r then r ∷ usable polls else usable polls
  usable (no_data ∷ polls) = usable polls
  usable (read_error ∷ polls) = usable polls

  abbrev pub last_of : List (Reading F) → Fix F → Fix F
  last_of [] f = f
  last_of (r ∷ rest) f = last_of rest (fix_of r)

  -- The fix is that of the last usable reading; without one it stays as it was.
  pub listen-last_of :
      (polls : List (Poll F)) (f : Fix F) → listen polls f ≡ last_of (usable polls) f
  unfolding listen listen_once
  listen-last_of [] f = refl
  listen-last_of (no_data ∷ polls) f = listen-last_of polls f
  listen-last_of (read_error ∷ polls) f = listen-last_of polls f
  listen-last_of (reading r ∷ polls) f = elim (Bool-cases (is_usable r)) [
    | inl ok ↦ rw ok (listen-last_of polls (fix_of r))
    | inr bad ↦ rw bad (listen-last_of polls f)
  ]
