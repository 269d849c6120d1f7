-- ===== src/Relay/AgentEvents/Once.antt =====
-- The map of seen events, of internal/relay/agent_events.go, over two reports of one event.
use wanctl.Prelude.{
  ◌⊎◌, ◌||◌, false≢true, ◌-◌, ℕ, Bool, true, false, not, some, none, Option, List, [], ◌∷◌, ◌≡◌,
  ◌≤◌, ◌<◌, ◌+◌, refl, sym, ◌∙◌, subst, arith, leb, ltb, length, filter, length-filter_le,
  Bool-cases, inl, inr,
}
use wanctl.Prelude.Results.{Fallible, ok, err, refuse, ◌>>=◌, ◌>>◌}
use wanctl.Bytes.{Text, is_empty}
use wanctl.Bytes.Laws.{text_eq_refl}
use wanctl.Bytes.Trim.{trim_space}
use wanctl.Relay.AgentEvents.{
  no_instance, no_such_instance, agent_instance_live, validate_agent_event, auth_agent_instance,
  read_report, agent_event_dedupe_ttl, agent_event_dedupe_max, NotifyDedupeKey, AgentEventReport,
  SeenEvent, EventRelay, Refusal, key_eq, recent, seen_after, oldest_time, drop_at, drop_found,
  drop_oldest, put_seen, make_event_room, notify_event_duplicate, admit_event, settle_event,
  handle_agent_event,
}

key_eq_refl : (k : NotifyDedupeKey) → key_eq k k ≡ true
unfolding key_eq
key_eq_refl k = ground (arith, text_eq_refl k.namespace, text_eq_refl k.device, text_eq_refl k.id)

-- An event that was just put is seen for as long as the cutoff allows.
seen-put :
    (k : NotifyDedupeKey) (now later : ℕ) (es : List SeenEvent)
    → later < now + agent_event_dedupe_ttl
    → seen_after k later (filter (recent later) (put_seen k now es)) ≡ true
unfolding seen_after filter recent put_seen
seen-put k now later es h = ground (arith, key_eq_refl k)

pub duplicate-again :
    (k : NotifyDedupeKey) (now later : ℕ) (es : List SeenEvent)
    → later < now + agent_event_dedupe_ttl
    → (notify_event_duplicate k now es).0 ≡ false
    → (notify_event_duplicate k later (notify_event_duplicate k now es).1).0 ≡ true
unfolding notify_event_duplicate
duplicate-again k now later es h n = elim (Bool-cases (seen_after k now (filter (recent now) es))) [
  | inl s ↦ absurd (ground (arith, s, n))
  | inr s ↦ rw s (rw (seen-put k now later (make_event_room (filter (recent now) es)) h) refl)
]

length-drop_at : (t : ℕ) (es : List SeenEvent) → length (drop_at t es) ≤ length es
unfolding drop_at
length-drop_at t [] = omega arith
length-drop_at t (e ∷ es) = ground (arith, length-drop_at t es)

-- The oldest entry is one of the list's, so that one is dropped.
drop_at-some :
    (t : ℕ) (es : List SeenEvent) → oldest_time es ≡ some t → length (drop_at t es) + 1 ≤ length es
unfolding oldest_time drop_at
drop_at-some t [] h = absurd cc
drop_at-some t (e ∷ es) h = later_oldest (oldest_time es) refl (drop_at-some t es)
  where
    later_oldest :
        (o : Option ℕ)
        → oldest_time es ≡ o
        → (oldest_time es ≡ some t → length (drop_at t es) + 1 ≤ length es)
        → length (drop_at t (e ∷ es)) + 1 ≤ length (e ∷ es)
    later_oldest none q ih = ground (arith, q, h)
    later_oldest (some u) q ih = elim (Bool-cases (ltb u e.at)) [
      | inl b ↦ ground (arith, ih (ground (arith, q, b, h)))
      | inr b ↦ ground (arith, q, b, h)
    ]

oldest_time-none : (es : List SeenEvent) → oldest_time es ≡ none → length es ≡ 0
unfolding oldest_time
oldest_time-none [] h = refl
oldest_time-none (e ∷ es) h = one (oldest_time es) refl
  where
    one : (o : Option ℕ) → oldest_time es ≡ o → length (e ∷ es) ≡ 0
    one none q = absurd (ground (arith, q, h))
    one (some t) q = absurd (ground (arith, q, h))

length-drop_oldest : (es : List SeenEvent) → length (drop_oldest es) ≤ length es - 1
unfolding drop_oldest drop_found
length-drop_oldest es = found (oldest_time es) refl
  where
    found : (o : Option ℕ) → oldest_time es ≡ o → length (drop_found o es) ≤ length es - 1
    found none q = omega (arith, oldest_time-none es q)
    found (some t) q = omega (arith, drop_at-some t es q)

-- There is room for the event that is put.
length-make_event_room :
    (es : List SeenEvent)
    → length es ≤ agent_event_dedupe_max
    → length (make_event_room es) + 1 ≤ agent_event_dedupe_max
unfolding make_event_room
length-make_event_room es h = elim (Bool-cases (leb agent_event_dedupe_max (length es))) [
  | inl b ↦ rw b (omega (arith, length-drop_oldest es, h))
  | inr b ↦ rw b (ground (arith, b))
]

pub length-notify_event_duplicate :
    (k : NotifyDedupeKey) (now : ℕ) (es : List SeenEvent)
    → length es ≤ agent_event_dedupe_max
    → length (notify_event_duplicate k now es).1 ≤ agent_event_dedupe_max
unfolding notify_event_duplicate put_seen
length-notify_event_duplicate k now es h =
    let kept = filter (recent now) es in
    let l = length-filter_le (recent now) es in
    elim (Bool-cases (seen_after k now kept)) [
      | inl b ↦ rw b (omega (arith, l, h))
      | inr b ↦ rw b (
          omega (
            arith,
            length-filter_le (λ e. not (key_eq e.key k)) (make_event_room kept),
            length-make_event_room kept (omega (arith, l, h)),
          ))
    ]

-- Whether a report goes on to the webhook.
abbrev pub emits : Fallible Refusal (Option AgentEventReport) → Bool
emits (err e) = false
emits (ok none) = false
emits (ok (some report)) = true

abbrev pub Admitted : Type 0
Admitted = Fallible Refusal (NotifyDedupeKey × AgentEventReport)

-- A key that an admitted report has.
abbrev HasKey : NotifyDedupeKey → Admitted → Type 0
HasKey k (err e) = Unit
HasKey k (ok (k', report)) = k' ≡ k

settle-again :
    (a again : Admitted) (k : NotifyDedupeKey) (now later : ℕ) (r : EventRelay)
    → later < now + agent_event_dedupe_ttl
    → HasKey k a
    → HasKey k again
    → emits (settle_event a now r).0 ≡ true
    → emits (settle_event again later (settle_event a now r).1).0 ≡ false
unfolding settle_event
settle-again (err e) again k now later r h e' e'' m = absurd (false≢true m)
settle-again (ok p) (err e) k now later r h e' e'' m = refl
settle-again (ok (k', report)) (ok (k'', report')) k now later r h e' e'' m =
    elim (Bool-cases (notify_event_duplicate k' now r.notify_dedupe).0) [
      | inl b ↦ absurd (ground (arith, b, m))
      | inr b ↦
          let d =
            subst
              (λ x.
                (notify_event_duplicate x later (notify_event_duplicate k' now r.notify_dedupe).1).0
                ≡ true)
              (e' ∙ sym e'') (duplicate-again k' now later r.notify_dedupe h b) in
          rw d refl
    ]

length-settle_event :
    (a : Admitted) (now : ℕ) (r : EventRelay)
    → length r.notify_dedupe ≤ agent_event_dedupe_max
    → length (settle_event a now r).1.notify_dedupe ≤ agent_event_dedupe_max
unfolding settle_event
length-settle_event (err e) now r h = h
length-settle_event (ok (k, report)) now r h = length-notify_event_duplicate k now r.notify_dedupe h

-- A chain that ends in a value passes it on or fails.
checked :
    {A : Type 0} (check : Fallible Refusal (Unit {0})) (a : A)
    → ((check >>= (λ _. ok a)) ≡ ok a) ⊎ ((e : Refusal) × ((check >>= (λ _. ok a)) ≡ err e))
checked (err e) a = inr (e, refl)
checked (ok _) a = inl refl

refused :
    {A : Type 0} (test test' : Bool) (e e' : Refusal) (a : A)
    → ((refuse test e >> (refuse test' e' >> ok a)) ≡ ok a)
      ⊎ ((p : Refusal) × ((refuse test e >> (refuse test' e' >> ok a)) ≡ err p))
refused true test' e e' a = inr (e, refl)
refused false true e e' a = inr (e', refl)
refused false false e e' a = inl refl

admit-HasKey :
    (is_post : Bool) (namespace device inst : Text) (report : AgentEventReport) (now : ℕ)
    (r : EventRelay)
    → HasKey
        (record { namespace = namespace; device = trim_space device; id = report.id })
        (admit_event is_post (some namespace) device inst (some report) now r)
unfolding admit_event auth_agent_instance read_report
admit-HasKey false namespace device inst report now r = tt
admit-HasKey true namespace device inst report now r =
    let source : Text × Text = (namespace, trim_space device) in
    elim (refused (is_empty (trim_space device) || is_empty (trim_space inst))
      (not (agent_instance_live namespace (trim_space device) (trim_space inst) now r)) no_instance
      no_such_instance source) [
        | inr (p, e) ↦ rw e tt
        | inl e ↦ rw e (elim (checked (validate_agent_event report) report) [
          | inr (p, q) ↦ rw q tt
          | inl q ↦ rw q refl
        ])
      ]

-- In a relay that remembers at most 10000 events: where a device's report is passed on, a report
-- of the same namespace, device and event that comes next, within ten minutes, is not, whatever
-- instance sends it and whatever else it says; and the relay still remembers at most 10000 events.
pub handle-once :
    (is_post again_post : Bool) (namespace device inst again_inst : Text)
    (report again : AgentEventReport) (now later : ℕ) (r : EventRelay)
    → later < now + agent_event_dedupe_ttl
    → length r.notify_dedupe ≤ agent_event_dedupe_max
    → again.id ≡ report.id
    → emits (handle_agent_event is_post (some namespace) device inst (some report) now r).0 ≡ true
    → (emits
          (handle_agent_event again_post
            (some namespace)
            device
            again_inst
            (some again)
            later
            (handle_agent_event is_post (some namespace) device inst (some report) now r).1).0
        ≡ false)
      × (length
            (handle_agent_event is_post
              (some namespace)
              device
              inst
              (some report)
              now
              r).1.notify_dedupe
          ≤ agent_event_dedupe_max)
unfolding handle_agent_event
handle-once is_post again_post namespace device inst again_inst report again now later r h b same
      m =
    let a = admit_event is_post (some namespace) device inst (some report) now r in
    let left = (settle_event a now r).1 in
    let a' = admit_event again_post (some namespace) device again_inst (some again) later left in
    let key : Text → NotifyDedupeKey =
      λ i. record { namespace = namespace; device = trim_space device; id = i } in
    (
      settle-again a a' (key report.id) now later r h
          (admit-HasKey is_post namespace device inst report now r)
          (subst (λ i. HasKey (key i) a') same
            (admit-HasKey again_post namespace device again_inst again later left))
          m,
      length-settle_event a now r b,
    )
