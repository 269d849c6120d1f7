-- ===== src/Approvals/Outbox.antt =====
-- The phone's half of an approval (`approvalPhone` in `internal/agent/approvals.go`): the cards it
-- shows, the decisions it keeps for resending and the console sessions it sends them on.
--
-- `parse_json` and `card_json` are `json.Unmarshal` and `json.Marshal`; a Go map is a list in the order
-- in which it is gone through. The channel between the reader of stdin and `decide` is not modelled.
pub mod Keeps
use wanctl.Prelude.{
  inr, inl, ◌⊎◌, ℕ, zero, suc, ◌+◌, ◌-◌, ◌*◌, Bool, true, false, ◌&&◌, ◌||◌, not, Option, none,
  some, List, [], ◌∷◌, ◌++◌, map, ◌==◌, ltb, leb, if◌then◌else◌, length, filter, any,
}
use wanctl.Bytes.{Text, codes, text_eq, is_empty}
use wanctl.Bytes.Trim.{trim_space}

abbrev pub max_approval_card : ℕ
max_approval_card = 16 * 1024

abbrev pub max_outbox : ℕ
max_outbox = 64

abbrev pub outbox_ttl : ℕ
outbox_ttl = 3600 * 1000000000

pub record PhoneDecision : Type 0 where
  pub id : Text
  pub verdict : Text
  pub at : ℕ

pub record ApprovalPhone : Type 0 where
  pub outbox : List PhoneDecision
  pub consoles : List ℕ
  pub next_id : ℕ

pub record ApprovalCard : Type 0 where
  pub card_id : Text
  pub state : Text

pub data CardError : Type 0 where
  not_phone too_large not_card no_id unknown_state : CardError

abbrev pub state_done : Text
state_done = codes "done"

unfoldable pub known_state : Text → Bool
known_state s =
    text_eq s (codes "pending")
    || (text_eq s (codes "expired") || (text_eq s state_done || text_eq s (codes "test")))

-- `reply`: the id and the verdict that go to the portal.
abbrev pub reply : PhoneDecision → Text × Text
reply d = (d.id, d.verdict)

-- `parseDecision`; `parse_json` gives the id and the verdict.
unfoldable pub parse_decision : (Text → Option (Text × Text)) → Text → Option (Text × Text)
parse_decision parse_json line = elim (parse_json (trim_space line)) [
  | none ↦ none
  | some d ↦
      if is_empty d.0
      then none
      else if not (text_eq d.1 (codes "y")) && not (text_eq d.1 (codes "n"))
      then none
      else some d
]

-- `pruneOutboxLocked`
unfoldable pub prune_outbox : ℕ → List PhoneDecision → List PhoneDecision
prune_outbox now ds = filter (λ d. not (leb outbox_ttl (now - d.at))) ds

unfoldable pub without_id : Text → List PhoneDecision → List PhoneDecision
without_id id ds = filter (λ d. not (text_eq d.id id)) ds

unfoldable pub known : Text → List PhoneDecision → Bool
known id ds = any (λ d. text_eq d.id id) ds

-- The loop that looks for the oldest decision, `found` so far.
unfoldable pub oldest_from : Option PhoneDecision → List PhoneDecision → Option PhoneDecision
oldest_from found [] = found
oldest_from none (d ∷ ds) = oldest_from (some d) ds
oldest_from (some o) (d ∷ ds) =
    let earlier = oldest_from (some d) ds in
    let same = oldest_from (some o) ds in if ltb d.at o.at then earlier else same

unfoldable pub drop_oldest : List PhoneDecision → List PhoneDecision
unfolding oldest_from without_id
drop_oldest ds = elim (oldest_from none ds) [ none ↦ ds | some o ↦ without_id o.id ds ]

-- The outbox with room for a decision on `id`.
unfoldable pub room_for : Text → List PhoneDecision → List PhoneDecision
unfolding known drop_oldest
room_for id ds = if not (known id ds) && leb max_outbox (length ds) then drop_oldest ds else ds

-- `decide`: the phone, and what goes out on each live console session.
unfoldable pub decide : Text → Text → ℕ → ApprovalPhone → ApprovalPhone × List (ℕ × Text × Text)
unfolding prune_outbox room_for without_id
decide id verdict now p =
    let ds = room_for id (prune_outbox now p.outbox) in
    let d : PhoneDecision = record { id = id; verdict = verdict; at = now } in
    (
      record p { outbox = without_id id ds ++ d ∷ [] },
      map (λ console. (console, id, verdict)) p.consoles,
    )

-- `slices.SortFunc` by the time of the decision.
unfoldable pub insert_by_time : PhoneDecision → List PhoneDecision → List PhoneDecision
insert_by_time d [] = d ∷ []
insert_by_time d (e ∷ ds) =
    let later = insert_by_time d ds in if ltb e.at d.at then e ∷ later else d ∷ e ∷ ds

unfoldable pub sort_by_time : List PhoneDecision → List PhoneDecision
unfolding insert_by_time
sort_by_time [] = []
sort_by_time (d ∷ ds) = insert_by_time d (sort_by_time ds)

-- `attach`: the console's number, the phone, and the decisions that it sends again on the console.
unfoldable pub attach : ℕ → ApprovalPhone → ℕ × ApprovalPhone × List PhoneDecision
unfolding prune_outbox sort_by_time
attach now p =
    let ds = prune_outbox now p.outbox in
    (
      p.next_id,
      record { outbox = ds; consoles = p.consoles ++ p.next_id ∷ []; next_id = suc p.next_id },
      sort_by_time ds,
    )

-- What `attach` returns, to be called when the session ends.
unfoldable pub detach : ℕ → ApprovalPhone → ApprovalPhone
detach console p = record p { consoles = filter (λ c. not (c == console)) p.consoles }

module _ (parse_json : Text → Option ApprovalCard) (card_json : ApprovalCard → Text) where
  -- `decodeApprovalCard`
  unfoldable pub decode_approval_card : Text → CardError ⊎ ApprovalCard
  unfolding known_state
  decode_approval_card data' =
      if ltb max_approval_card (length data') then inl too_large else elim (parse_json data') [
        | none ↦ inl not_card
        | some card ↦
            if is_empty card.card_id
            then inl no_id
            else if known_state card.state
            then inr card
            else inl unknown_state
      ]

  -- `show`: the line that it writes, and the phone.
  unfoldable pub show : ApprovalCard → ApprovalPhone → Text × ApprovalPhone
  unfolding without_id
  show card p = (
    codes "wanctl-approval " ++ (card_json card ++ 10 ∷ []),
    if text_eq card.state state_done
        then record p { outbox = without_id card.card_id p.outbox }
        else p,
  )

  -- `approvalPush`, where the line can be written; a device without the app has no phone.
  unfoldable pub approval_push :
      Text → Option ApprovalPhone → (CardError ⊎ Text) × Option ApprovalPhone
  unfolding decode_approval_card show
  approval_push data' none = (inl not_phone, none)
  approval_push data' (some p) = elim (decode_approval_card data') [
    | inl e ↦ (inl e, some p)
    | inr card ↦ let (line, p') = show card p in (inr line, some p')
  ]
