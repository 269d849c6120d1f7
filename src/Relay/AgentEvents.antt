-- ===== src/Relay/AgentEvents.antt =====
-- internal/relay/agent_events.go: what a device's agent reports, and reports once.
pub mod Once
use wanctl.Prelude.{
  length, leb, ltb, true, false, filter, if◌then◌else◌, not, ℤ, ℕ, Bool, some, none, ◌∷◌, [],
  Option, List, ◌++◌, ◌&&◌, ◌||◌, ◌==◌, ◌+◌,
}
use wanctl.Prelude.Results.{◌>>=◌, ◌>>◌, Fallible, ok, err, refuse}
use wanctl.Bytes.{Text, codes, text_eq, is_empty}
use wanctl.Bytes.Trim.{trim_space}

-- In nanoseconds.
abbrev pub agent_event_dedupe_ttl : ℕ
agent_event_dedupe_ttl = 600000000000

abbrev pub agent_event_dedupe_max : ℕ
agent_event_dedupe_max = 10000

-- `httpAgentTTL`
abbrev pub http_agent_ttl : ℕ
http_agent_ttl = 40000000000

pub record NotifyDedupeKey : Type 0 where
  pub namespace : Text
  pub device : Text
  pub id : Text

pub record AgentEventReport : Type 0 where
  pub id : Text
  pub event : Text
  pub ts : ℕ
  pub detail : Text
  pub peer : Text
  pub exit : Option ℤ

-- An entry of the map notifyDedupe.
pub record SeenEvent : Type 0 where
  pub key : NotifyDedupeKey
  pub at : ℕ

unfoldable pub key_eq : NotifyDedupeKey → NotifyDedupeKey → Bool
key_eq a b = text_eq a.namespace b.namespace && (text_eq a.device b.device && text_eq a.id b.id)

unfoldable pub recent : ℕ → SeenEvent → Bool
recent now e = not (ltb (e.at + agent_event_dedupe_ttl) now)

-- The entry of a key, where it was seen after the cutoff.
unfoldable pub seen_after : NotifyDedupeKey → ℕ → List SeenEvent → Bool
unfolding key_eq
seen_after k now [] = false
seen_after k now (e ∷ es) =
    let rest = seen_after k now es in
    if key_eq e.key k then ltb now (e.at + agent_event_dedupe_ttl) else rest

-- The time of the oldest entry, the loop's `oldestTime`.
unfoldable pub oldest_time : List SeenEvent → Option ℕ
oldest_time [] = none
oldest_time (e ∷ es) = elim (oldest_time es) [
  | none ↦ some e.at
  | some t ↦ some (if ltb t e.at then t else e.at)
]

unfoldable pub drop_at : ℕ → List SeenEvent → List SeenEvent
drop_at t [] = []
drop_at t (e ∷ es) = let rest = drop_at t es in if e.at == t then es else e ∷ rest

-- `delete(r.notifyDedupe, oldestKey)`: of several that are oldest the map's order decides, here the
-- list's.
unfoldable pub drop_found : Option ℕ → List SeenEvent → List SeenEvent
unfolding drop_at
drop_found none es = es
drop_found (some t) es = drop_at t es

unfoldable pub drop_oldest : List SeenEvent → List SeenEvent
unfolding oldest_time drop_found
drop_oldest es = drop_found (oldest_time es) es

unfoldable pub put_seen : NotifyDedupeKey → ℕ → List SeenEvent → List SeenEvent
unfolding key_eq
put_seen k now es = record { key = k; at = now } ∷ filter (λ e. not (key_eq e.key k)) es

unfoldable pub make_event_room : List SeenEvent → List SeenEvent
unfolding drop_oldest
make_event_room es = if leb agent_event_dedupe_max (length es) then drop_oldest es else es

unfoldable pub notify_event_duplicate : NotifyDedupeKey → ℕ → List SeenEvent → Bool × List SeenEvent
unfolding recent seen_after put_seen make_event_room
notify_event_duplicate k now es =
    let kept = filter (recent now) es in
    if seen_after k now kept then (true, kept) else (false, put_seen k now (make_event_room kept))

pub data Refusal : Type 0 where
  not_allowed unauthorized no_instance no_such_instance invalid_json no_id bad_event too_large :
      Refusal

unfoldable pub event_known : Text → Bool
event_known e =
    text_eq e (codes "approval.pending")
    || (text_eq e (codes "exec.finished")
        || (text_eq e (codes "pairing.requested") || text_eq e (codes "trust.changed")))

unfoldable pub validate_agent_event : AgentEventReport → Fallible Refusal (Unit {0})
unfolding event_known
validate_agent_event r = do
  refuse (length r.id == 0 || ltb 128 (length r.id)) no_id
  refuse (not (event_known r.event)) bad_event
  refuse (ltb 65536 (length r.detail) || ltb 8192 (length r.peer)) too_large

-- An agent of the HTTP registry: its instance, and when it was last seen.
pub record HttpAgent : Type 0 where
  pub inst : Text
  pub last_seen : ℕ

-- What the relay keeps: the instances that are connected, and the events that were seen.
pub record EventRelay : Type 0 where
  pub agents : Text → Option Text
  pub hagents : Text → Option HttpAgent
  pub notify_dedupe : List SeenEvent

unfoldable pub socket_live : Option Text → Text → Bool
socket_live none inst = false
socket_live (some i) inst = text_eq i inst

unfoldable pub http_live : Option HttpAgent → Text → ℕ → Bool
http_live none inst now = false
http_live (some a) inst now = text_eq a.inst inst && leb now (a.last_seen + http_agent_ttl)

unfoldable pub agent_instance_live : Text → Text → Text → ℕ → EventRelay → Bool
unfolding socket_live http_live
agent_instance_live namespace device inst now r =
    let key = namespace ++ (codes "/" ++ device) in
    socket_live (r.agents key) inst || http_live (r.hagents key) inst now

-- `auth` is what the relay's token check says: the namespace.
unfoldable pub auth_agent_instance :
    Option Text → Text → Text → ℕ → EventRelay → Fallible Refusal (Text × Text)
unfolding agent_instance_live
auth_agent_instance none device inst now r = err unauthorized
auth_agent_instance (some namespace) device inst now r = do
  refuse (is_empty (trim_space device) || is_empty (trim_space inst)) no_instance
  refuse (not (agent_instance_live namespace (trim_space device) (trim_space inst) now r))
      no_such_instance
  ok (namespace, trim_space device)

unfoldable pub read_report : Option AgentEventReport → Fallible Refusal AgentEventReport
unfolding validate_agent_event
read_report none = err invalid_json
read_report (some report) = do validate_agent_event report; ok report

-- What is checked before the event is looked up; `body` is what the decoder makes of the whole body.
unfoldable pub admit_event :
    Bool
    → Option Text
    → Text
    → Text
    → Option AgentEventReport
    → ℕ
    → EventRelay
    → Fallible Refusal (NotifyDedupeKey × AgentEventReport)
unfolding auth_agent_instance read_report
admit_event is_post auth device inst body now r = do
  refuse (not is_post) not_allowed
  source ← auth_agent_instance auth device inst now r
  report ← read_report body
  ok (record { namespace = source.0; device = source.1; id = report.id }, report)

-- What goes out of the handler: nothing where the event is a duplicate.
unfoldable pub settle_event :
    Fallible Refusal (NotifyDedupeKey × AgentEventReport)
    → ℕ
    → EventRelay
    → Fallible Refusal (Option AgentEventReport) × EventRelay
unfolding notify_event_duplicate
settle_event (err e) now r = (err e, r)
settle_event (ok (k, report)) now r =
    let (duplicate, seen) = notify_event_duplicate k now r.notify_dedupe in
    (ok (if duplicate then none else some report), record r { notify_dedupe = seen })

-- `handleAgentEvent`, with one reading of the clock: what it emits, and the relay after it.
unfoldable pub handle_agent_event :
    Bool
    → Option Text
    → Text
    → Text
    → Option AgentEventReport
    → ℕ
    → EventRelay
    → Fallible Refusal (Option AgentEventReport) × EventRelay
unfolding admit_event settle_event
handle_agent_event is_post auth device inst body now r =
    settle_event (admit_event is_post auth device inst body now r) now r
