-- ===== src/Relay/Residency.antt =====
-- The account that every direction of every HTTP session draws on (`internal/relay/resident.go`).
--
-- A share is found by its namespace's name: a queue joins once and leaves once. The channel `room`
-- is its state, whether a writer waits on it. Byte counts stay far below 2 ^ 63.
use wanctl.Prelude.{
  ℕ, suc, ◌+◌, ◌-◌, ◌*◌, max, Bool, true, false, ◌&&◌, ◌||◌, not, Option, none, some, List, [], ◌∷◌,
  ◌==◌, ltb, if◌then◌else◌, filter,
}
use wanctl.Bytes.{Text, text_eq}

abbrev pub max_resident_per_direction : ℕ
max_resident_per_direction = 32 * 1048576

abbrev pub max_resident_per_namespace : ℕ
max_resident_per_namespace = 2 * max_resident_per_direction

abbrev pub max_resident_total : ℕ
max_resident_total = 256 * 1048576

abbrev pub max_upload_bytes : ℕ
max_upload_bytes = 1048576

abbrev pub residency_report_every : ℕ
residency_report_every = 10 * 60 * 1000000000

pub record NsShare : Type 0 where
  pub name : Text
  pub used : ℕ
  pub refs : ℕ

pub record Residency : Type 0 where
  pub limit : ℕ
  pub used : ℕ
  pub ns_limit : ℕ
  pub ns : List NsShare
  pub room_wanted : Bool
  pub peak : ℕ
  pub waits_total : ℕ
  pub waits_ns : ℕ
  pub reported : ℕ

unfoldable pub new_residency : ℕ → Residency
new_residency now = record {
  limit = max_resident_total;
  used = 0;
  ns_limit = max_resident_per_namespace;
  ns = [];
  room_wanted = false;
  peak = 0;
  waits_total = 0;
  waits_ns = 0;
  reported = now;
}

-- `p.ns[name]`
unfoldable pub share_of : Text → List NsShare → Option NsShare
share_of name [] = none
share_of name (s ∷ ss) = let rest = share_of name ss in if text_eq s.name name then some s else rest

unfoldable pub change_share : Text → (NsShare → NsShare) → List NsShare → List NsShare
change_share name f [] = []
change_share name f (s ∷ ss) =
    let rest = change_share name f ss in if text_eq s.name name then f s ∷ ss else s ∷ rest

unfoldable pub join : Text → Residency → Residency
unfolding share_of change_share
join name p = elim (share_of name p.ns) [
  | none ↦ record p { ns = record { name = name; used = 0; refs = 1 } ∷ p.ns }
  | some _ ↦ record p { ns = change_share name (λ s. record s { refs = suc s.refs }) p.ns }
]

unfoldable pub leave : Option Text → Residency → Residency
unfolding change_share
leave none p = p
leave (some name) p = record p {
  ns =
      filter (λ s. not (text_eq s.name name && (s.refs == 0)))
        (change_share name (λ s. record s { refs = s.refs - 1 }) p.ns);
}

-- What the share of a namespace holds; a queue outside every namespace has none.
unfoldable pub share_used : Option Text → Residency → ℕ
unfolding share_of
share_used none p = 0
share_used (some name) p = elim (share_of name p.ns) [ none ↦ 0 | some s ↦ s.used ]

unfoldable pub over_total : ℕ → ℕ → Residency → Bool
over_total n spare p = ltb p.limit (p.used + n + spare)

unfoldable pub over_ns : Option Text → ℕ → ℕ → Residency → Bool
unfolding share_used
over_ns none n spare p = false
over_ns (some name) n spare p = ltb p.ns_limit (share_used (some name) p + n + spare)

unfoldable pub charge : Option Text → (ℕ → ℕ) → Residency → Residency
unfolding change_share
charge none f p = record p { used = f p.used }
charge (some name) f p = record p {
  used = f p.used;
  ns = change_share name (λ s. record s { used = f s.used }) p.ns;
}

-- The answer of `reserve`: the bytes are held, or the writer waits, on the namespace's share or not.
pub data Room : Type 0 where
  held : Room
  full : Bool → Room

unfoldable pub reserve : Option Text → ℕ → ℕ → Residency → Room × Residency
unfolding over_total over_ns charge
reserve share n spare p =
    if over_total n spare p || over_ns share n spare p
    then (full (not (over_total n spare p)), record p { room_wanted = true })
    else (held, charge share (λ used. used + n) (record p { peak = max p.peak (p.used + n) }))

unfoldable pub note_wait : Bool → Residency → Residency
note_wait ns_full p =
    if ns_full
    then record p { waits_ns = suc p.waits_ns }
    else record p { waits_total = suc p.waits_total }

unfoldable pub release : Option Text → ℕ → Residency → Residency
unfolding charge
release share n p =
    if n == 0 then p else charge share (λ used. used - n) (record p { room_wanted = false })

-- `report`, less the line that it logs: whether it logs one, and the account afterwards.
unfoldable pub report : ℕ → Residency → Bool × Residency
report now p =
    if ltb (now - p.reported) residency_report_every
      || (p.peak == 0 && (p.waits_total == 0 && (p.waits_ns == 0)))
    then (false, p)
    else (true, record p { peak = p.used; waits_total = 0; waits_ns = 0; reported = now })
