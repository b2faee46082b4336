-- ===== src/Tests/Logs.antt =====
-- The log with an event whose text has a line break.
use mathlib.Core.Option
use g_agent.Base.{List, [], ◌∷◌, some, map, All, ◌≡◌, refl}
use g_agent.Platform.Config.{lines_of}
use g_agent.Utils.Logger.{new_logger}
use g_agent.Utils.Logger.Lines.{Entry, entry_text, Loggable, log_all, log_all-lines_of}

abbrev two_events : List Entry
two_events =
    record {
      now = "2026-03-24T10:00:00.123Z";
      event = "acl_send";
      fields = ("to", "bob") ∷ ("content", "line 1\n{\"event\":\"forged\"}\nline 3") ∷ [];
    }
    ∷ record { now = "2026-03-24T10:00:01.000Z"; event = "a\tb"; fields = [] }
    ∷ []

two_events-Loggable : All Loggable two_events
two_events-Loggable = (
  record {
    now_ok = record { no_break = refl };
    names_ok = (record { no_break = refl }, (record { no_break = refl }, tt));
  },
  (record { now_ok = record { no_break = refl }; names_ok = tt }, tt),
)

log_all-lines_of_example :
    Option.map lines_of (log_all two_events (new_logger (some ""))).json_file
    ≡ some (map entry_text two_events)
log_all-lines_of_example =
    log_all-lines_of two_events (new_logger (some "")) refl two_events-Loggable
