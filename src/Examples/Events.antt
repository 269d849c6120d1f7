-- ===== src/Examples/Events.antt =====
-- A device's reports at concrete inputs (`internal/relay/agent_events.go`).
use wanctl.Prelude.{filter, true, false, none, some, [], ◌≡◌, ◌≤◌, refl, arith, length}
use wanctl.Bytes.{codes, text_eq}
use wanctl.Bytes.Trim.{trim_space}
use wanctl.Relay.AgentEvents.{
  agent_event_dedupe_max, AgentEventReport, EventRelay, handle_agent_event,
}
use wanctl.Relay.AgentEvents.Once.{emits, handle-once}

abbrev finished : AgentEventReport
finished = record {
  id = codes "e1";
  event = codes "exec.finished";
  ts = 7;
  detail = [];
  peer = [];
  exit = none;
}

-- The device polls over HTTP as the instance i.
abbrev polled : EventRelay
polled = record {
  agents = λ _. none;
  hagents = λ _. some (record { inst = codes "i"; last_seen = 1 });
  notify_dedupe = [];
}

handle-once_example :
    (emits
        (handle_agent_event true
          (some (codes "me"))
          (codes "dev")
          (codes "i")
          (some finished)
          90
          (handle_agent_event true
            (some (codes "me"))
            (codes "dev")
            (codes "i")
            (some finished)
            8
            polled).1).0
      ≡ false)
    × (length
          (handle_agent_event true
            (some (codes "me"))
            (codes "dev")
            (codes "i")
            (some finished)
            8
            polled).1.notify_dedupe
        ≤ agent_event_dedupe_max)
unfolding handle_agent_event trim_space text_eq filter
handle-once_example =
    handle-once true true (codes "me") (codes "dev") (codes "i") (codes "i") finished finished 8 90
      polled (omega arith) (omega arith) refl refl
