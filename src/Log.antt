-- ===== src/Log.antt =====
-- lib/log.h, lib/log.c and lib/sock_ntop.c: the lines that the library prints.
use yolanda.Http.Text.{codes, decimal, digits_max}
use yolanda.Outcome.{Outcome, ok, fault, exited}
use yolanda.Memory.{Bytes}
use yolanda.Prelude.{
  ◌-◌, ◌∷◌, ◌++◌, ◌==◌, if◌then◌else◌, none, some, ℕ, Option, zero, suc, length, ltb, [], take,
  Bool,
}

-- `LOG_DEBUG_TYPE` and the like, by number.
pub severity_str : ℕ → Bytes
severity_str severity =
    if severity == 0
    then codes "debug"
    else if severity == 1
    then codes "msg"
    else if severity == 2
    then codes "warn"
    else if severity == 3
    then codes "err"
    else codes "???"

-- `yolanda_log`: the line on the standard output.
pub yolanda_log : ℕ → Bytes → Bytes
unfolding severity_str
yolanda_log severity msg = codes "[" ++ (severity_str severity ++ (codes "] " ++ (msg ++ 10 ∷ [])))

abbrev pub log_buffer : ℕ
log_buffer = 1024

-- `yolanda_logx`: `formatted` is what the format and its arguments make, `none` for a NULL format.
-- The error string is added only while it can show at least a byte.
pub yolanda_logx : ℕ → Option Bytes → Option Bytes → Bytes
unfolding yolanda_log
yolanda_logx severity errstr formatted =
    let buf : Bytes = elim formatted [ none ↦ [] | some text ↦ take (log_buffer - 1) text ] in
    yolanda_log severity (elim errstr [
      | none ↦ buf
      | some e ↦
          if ltb (length buf) (log_buffer - 3)
          then buf ++ take (log_buffer - length buf - 1) (codes ": " ++ e)
          else buf
    ])

pub yolanda_msgx : Bytes → Bytes
unfolding yolanda_logx
yolanda_msgx formatted = yolanda_logx 1 none (some formatted)

pub yolanda_debugx : Bytes → Bytes
unfolding yolanda_logx
yolanda_debugx formatted = yolanda_logx 0 none (some formatted)

-- `error`: the process goes on if the status is 0.
pub report_error : ℕ → Outcome (Unit {0})
report_error zero = ok tt
report_error (suc status) = fault (exited (suc status))

-- `sock_ntop`: the address as `inet_ntop` writes it (`none` for its failure), and the port in the
-- order of the host, which `portstr` has room for.
pub sock_ntop : Option Bytes → ℕ → Option Bytes
sock_ntop none port = none
sock_ntop (some address) port =
    some (if port == 0 then address else address ++ take 7 (codes ":" ++ decimal digits_max port))

-- `err_doit`, for what the format and its arguments make: the line on the standard error. With
-- `errno_flag` the text of `errno` is added as far as there is room, and the line feed always has.
pub err_doit : Bool → Bytes → Bytes → Bytes
err_doit errno_flag errstr formatted =
    let buf = take 4095 formatted in
    let more = if errno_flag then take (4096 - length buf - 1) (codes ": " ++ errstr) else [] in
    buf ++ (more ++ 10 ∷ [])
