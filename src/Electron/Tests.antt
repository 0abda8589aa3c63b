-- ===== src/Electron/Tests.antt =====
-- The main process at concrete runs.
use gl_tomsxp.Common.{◌≡◌, refl, true}
use gl_tomsxp.Electron.{
  Main, initial_main, create_window, closed, activate, window_all_closed, certificate_error,
}
use gl_tomsxp.Electron.Laws.{
  Reach, ready, closes, all_closed, activates, IsTracked, Reach-IsTracked, certificate_error-suffix,
}

abbrev first : Main
first = create_window (initial_main "linux")

run : Reach "linux" (activate (window_all_closed (closed 0 first)))
unfolding create_window initial_main closed
run = activates (all_closed (closes 0 ready refl) refl)

Reach-IsTracked_example : IsTracked (activate (window_all_closed (closed 0 first)))
Reach-IsTracked_example = Reach-IsTracked run

certificate_error_other_host :
    certificate_error "https://localhost.example.org/"
    ≡ record { accepted = true; default_prevented = true }
certificate_error_other_host = certificate_error-suffix ".example.org/"
