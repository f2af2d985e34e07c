-- ===== src/Entry/Detect.antt =====
-- `Detect` of every probe that `main` hands to the runner: internal/collectors/*/probe.go,
-- nginx/accesslog_probe.go, core/pressure.go and core/procfs_probe.go. What the machine answers is
-- given; the text that says why a probe was detected or not is left out.
use prostometrics_agent.Base.{
  Bool, true, false, [], ◌∷◌, Option, none, some, Bytes, codes, if◌then◌else◌, is_some,
}
use prostometrics_agent.Core.Pressure as Pressure
use prostometrics_agent.Core.Pulse.{detect_files}
use prostometrics_agent.Entry.{
  Probe, docker, pressure, kernel, systemd, mongo, postgres, mysql, redis, rabbitmq, nginx,
  access_log, prometheus, exec, detect_listed,
}
use prostometrics_agent.Floats.{Floats}
use prostometrics_agent.Nginx.Endpoint as Endpoint
use prostometrics_agent.Systemd.{list_units}
use prostometrics_agent.Nginx.AccessLog.New.{log_file_path}
use prostometrics_agent.Text.Case.{Lowering}

-- What `Stat` answers of a path.
pub data FileKind : Type 0 where
  absent socket other : FileKind

-- What opening a log and `Stat` on it answer.
pub data LogFile : Type 0 where
  unopened unknown directory regular : LogFile

pub record Host : Type 0 where
  pub docker_socket : FileKind
  pub pressure_file : Bytes → Pressure.PressureFile
  pub exists : Bytes → Bool
  pub systemctl : Option Bytes
  pub failed_units : Bytes → Option Bytes
  pub get : Bytes → Endpoint.Answer
  pub cancelled : Bytes → Bool
  pub log_file : Bytes → LogFile

abbrev pub is_socket : FileKind → Bool
is_socket absent = false
is_socket socket = true
is_socket other = false

abbrev pub is_log : LogFile → Bool
is_log unopened = false
is_log unknown = false
is_log directory = false
is_log regular = true

module _ (fl : Floats) (lw : Lowering) (h : Host) where
  abbrev with_systemctl : Option Bytes → Bool
  with_systemctl none = false
  with_systemctl (some path) = is_some (list_units (h.failed_units path))

  unfoldable pub detect_systemd : Bool
  unfolding list_units
  detect_systemd =
      if h.exists (codes "/run/systemd/system") then with_systemctl h.systemctl else false

  unfoldable pub detect : Probe → Bool
  unfolding detect_files detect_systemd
  detect docker = is_socket h.docker_socket
  detect pressure = Pressure.detect fl h.pressure_file
  detect kernel = detect_files h.exists (codes "/proc/vmstat" ∷ [])
  detect systemd = detect_systemd
  detect (mongo is) = detect_listed is
  detect (postgres is) = detect_listed is
  detect (mysql is) = detect_listed is
  detect (redis is) = detect_listed is
  detect (rabbitmq is) = detect_listed is
  detect (nginx endpoint) = is_some (Endpoint.detect lw h.get h.cancelled endpoint)
  detect (access_log path samples top site) = is_log (h.log_file (log_file_path path))
  detect (prometheus ts every) = detect_listed ts
  detect (exec cs every) = detect_listed cs
