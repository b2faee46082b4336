-- ===== src/Platform/Control.antt =====
-- platform/main.cpp: the control server of a slave, which passes the signals of a manager on to the
-- slave's agents. `sigqueue` is the operating system's: whether the signal was sent, and what becomes
-- of the processes.
use g_agent.Base.{
  String, Bool, Option, none, some, if◌then◌else◌, ◌==◌, string_key, ℤ, pos, int_ltb,
}
use g_agent.Core.Lifecycle.{Signal, sig_delete, sig_suspend, sig_wake}
use g_agent.Platform.Input.{input, read_word, read_int}
use g_agent.Platform.Clients.{Server, read_line}

-- The signal of a command, or none.
unfoldable pub control_signal : String → Option Signal
control_signal cmd =
    if cmd == "KILL"
    then some sig_delete
    else if cmd == "SUSPEND"
    then some sig_suspend
    else if cmd == "WAKE"
    then some sig_wake
    else none

module _ {K : Type 0} (sigqueue : ℤ → Signal → K → Bool × K) where
  -- The test on the signal and the pid. Whether the signal was sent is not looked at.
  abbrev pub answer_control : Option Signal → ℤ → K → String × K
  answer_control none pid k = ("ERROR\n", k)
  answer_control (some s) pid k =
      if int_ltb (pos 0) pid then ("OK\n", (sigqueue pid s k).1) else ("ERROR\n", k)

  unfoldable pub handle_control : String → K → String × K
  unfolding control_signal
  handle_control line k =
      let (cmd, i) = read_word (input line) "" in
      let (pid, _) = read_int i (pos 0) in answer_control (control_signal cmd) pid k

  -- A connection that `run_control_server` accepts.
  unfoldable pub control : Server K
  unfolding handle_control
  control text k = some (handle_control (read_line text).0 k)
