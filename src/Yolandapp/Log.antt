-- ===== src/Yolandapp/Log.antt =====
-- yolandapp/log.hpp and yolandapp/log.cpp: the functions are those of lib/log.c, word for word but for
-- `error_die`.
use yolanda.Log.{yolanda_log, yolanda_logx, yolanda_msgx, yolanda_debugx, report_error}
use yolanda.Memory.{Bytes}
use yolanda.Outcome.{Outcome, exited, fault}
use yolanda.Prelude.{ℕ, Option}

abbrev pub port_error : ℕ → Outcome (Unit {0})
port_error = report_error

abbrev pub port_log : ℕ → Bytes → Bytes
port_log = yolanda_log

abbrev pub port_logx : ℕ → Option Bytes → Option Bytes → Bytes
port_logx = yolanda_logx

abbrev pub port_msgx : Bytes → Bytes
port_msgx = yolanda_msgx

abbrev pub port_debugx : Bytes → Bytes
port_debugx = yolanda_debugx

-- It prints the text of `errno`, and ends the process.
abbrev pub error_die : Bytes → Outcome (Unit {0})
error_die s = fault (exited 1)
