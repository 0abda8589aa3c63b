-- ===== src/Electron.antt =====
-- The main process of the desktop application (src/main/js/main-electron.js). The events of
-- `electron.app` and of a window are constructors; windows are numbered as they are created.
pub mod Laws
mod Tests
use gl_tomsxp.Common.{
  nat_eq, ℕ, suc, ◌+◌, ◌-◌, String, Option, none, some, Bool, true, false, List, [], ◌∷◌, ◌==◌, not,
  if◌then◌else◌,
}
use text.Mathlib.Text.{starts_with}

-- The global `win`: undefined at first, null when its window was closed.
pub data Handle : Type 0 where
  undefined null : Handle
  window : ℕ → Handle

-- `created` counts the windows, `open` lists those that are not closed, and `running` says that
-- `app.quit` has not been called.
pub record Main : Type 0 where
  pub platform : String
  pub win : Handle
  pub created : ℕ
  pub windows : List ℕ
  pub running : Bool

unfoldable pub initial_main : String → Main
initial_main platform = record {
  platform = platform;
  win = undefined;
  created = 0;
  windows = [];
  running = true;
}

-- `createWindow`
unfoldable pub create_window : Main → Main
create_window m = record m {
  win = window m.created;
  created = suc m.created;
  windows = m.created ∷ m.windows;
}

abbrev pub remove : ℕ → List ℕ → List ℕ
remove n [] = []
remove n (w ∷ ws) = if nat_eq w n then ws else w ∷ remove n ws

-- The event 'closed' of window `n`: electron drops the window, and the handler clears `win`.
unfoldable pub closed : ℕ → Main → Main
closed n m = record m { win = null; windows = remove n m.windows }

-- The event 'window-all-closed'.
unfoldable pub window_all_closed : Main → Main
window_all_closed m = if not (m.platform == "darwin") then record m { running = false } else m

abbrev is_null : Handle → Bool
is_null null = true
is_null _ = false

-- The event 'activate'.
unfoldable pub activate : Main → Main
unfolding create_window
activate m = if is_null m.win then create_window m else m

-- The event 'certificate-error': what `callback` is given, and whether `preventDefault` is called.
pub record Verdict : Type 0 where
  pub accepted : Bool
  pub default_prevented : Bool

unfoldable pub certificate_error : String → Verdict
certificate_error url =
    if starts_with url "https://localhost"
    then record { accepted = true; default_prevented = true }
    else record { accepted = false; default_prevented = false }
