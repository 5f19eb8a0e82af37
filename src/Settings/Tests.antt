-- ===== src/Settings/Tests.antt =====
-- Concrete environments of internal/config/config.go.
use nde.Prelude.{String, ◌==◌, ◌≡◌, refl, arith, text_key, if◌then◌else◌}
use nde.Models.{pos, negsuc}
use nde.Text.Integer.{itoa}
use nde.Settings.{load, getenv_int, seconds, nanoseconds, getenv_int-itoa}

abbrev key : String
key = "XRAY_HEALTH_RESTART_COOLDOWN_SEC"

abbrev environment : String → String
environment name = if name == key then "-90" else ""

getenv_int-itoa_example :
    (getenv_int environment key (pos 5) ≡ negsuc 89)
    × (seconds (getenv_int environment key (pos 5)) ≡ nanoseconds (negsuc 89))
unfolding itoa
getenv_int-itoa_example = getenv_int-itoa environment key (pos 5) (negsuc 89) refl (omega arith)

-- A text that is no number leaves the default, and so does one that is too large.
unread : getenv_int (λ name. "5s") key (pos 90) ≡ pos 90
unfolding getenv_int
unread = refl

too_large : getenv_int (λ name. "9223372036854775808") key (pos 90) ≡ pos 90
unfolding getenv_int
too_large = refl

defaults : (load (λ name. "")).xray_health_restart_cooldown ≡ pos 90000000000
unfolding load
defaults = refl
