-- ===== src/Session/Grants.antt =====
-- Capabilities and their text, and what a session of a grant may be.
use wanctl.Prelude.{
  ℕ, zero, suc, ◌<◌, ◌≡◌, refl, sym, ap, subst, ◌⊎◌, inl, inr, Bool, true, false, ◌&&◌, ◌==◌,
  ==_iff, if◌then◌else◌, arith, Bool-cases,
}
use wanctl.Bytes.{Text, text_eq, is_empty}
use wanctl.Bytes.Trim.{trim_space}
use wanctl.Session.{
  Capabilities, cap_exec, cap_console, use_capabilities, has_all, caps_valid, caps_text, parse_caps,
  Parsed, caps, empty_capabilities, unknown_capability, duplicate_capability, Open, grant_fits,
  grant_runs, valid_for,
}

is_caps : Capabilities → Parsed → Bool
is_caps c (caps d) = d == c
is_caps c _ = false

is_caps→eq : (c : Capabilities) (p : Parsed) → is_caps c p ≡ true → p ≡ caps c
unfolding is_caps
is_caps→eq c (caps d) h = ap caps ((==_iff d c).0 h)
is_caps→eq c empty_capabilities h = absurd (ground arith)
is_caps→eq c (unknown_capability n) h = absurd (ground arith)
is_caps→eq c (duplicate_capability n) h = absurd (ground arith)

-- The round trip, as a test of one number and of all below a number.
round_trip : Capabilities → Bool
round_trip c = if caps_valid c then is_caps c (parse_caps (caps_text c)) else true

all_below : (ℕ → Bool) → ℕ → Bool
all_below test zero = true
all_below test (suc n) = test n && all_below test n

all_below-each : (test : ℕ → Bool) (n k : ℕ) → all_below test n ≡ true → k < n → test k ≡ true
unfolding all_below
all_below-each test zero k h l = absurd (omega (arith, l))
all_below-each test (suc n) k h l = elim (Bool-cases (k == n)) [
  | inl e ↦ subst (λ x. test x ≡ true) (sym ((==_iff k n).0 e)) (ground arith)
  | inr e ↦ all_below-each test n k (ground arith) (ground arith)
]

round_trips : all_below round_trip 256 ≡ true
unfolding all_below round_trip is_caps caps_valid caps_text parse_caps trim_space text_eq
round_trips = refl

when_true : (b x : Bool) → b ≡ true → (if b then x else true) ≡ true → x ≡ true
when_true true x h t = t
when_true false x h t = absurd (ground arith)

-- The text of valid capabilities, of any number that a uint8 holds, parses back to them.
pub parse_caps-caps_text :
    (c : Capabilities) → c < 256 → caps_valid c ≡ true → parse_caps (caps_text c) ≡ caps c
parse_caps-caps_text c l v = is_caps→eq c (parse_caps (caps_text c)) (
    when_true (caps_valid c) (is_caps c (parse_caps (caps_text c))) v
      (unfold round_trip in all_below-each round_trip 256 c round_trips l))

-- The capabilities of a grant, and its clock.
grant_fits-cases :
    (now : ℕ) (o : Open)
    → grant_fits now o ≡ true
    → is_empty o.grant_id ≡ false
    → ((o.capabilities ≡ cap_exec) ⊎ (o.capabilities ≡ use_capabilities)) × (now < o.expires_at)
unfolding grant_fits grant_runs
grant_fits-cases now o h g = elim (Bool-cases (is_empty o.exec_only)) [
  | inl e ↦ (inr (ground arith), ground arith)
  | inr e ↦ (inl (ground arith), ground arith)
]

-- A session of a grant that a device accepts never carries the console capability, and its grant
-- has not expired.
pub valid_for-grant :
    (device : Text) (now : ℕ) (o : Open)
    → valid_for device now o ≡ true
    → is_empty o.grant_id ≡ false
    → (has_all o.capabilities cap_console ≡ false) × (now < o.expires_at)
unfolding valid_for
valid_for-grant device now o h g =
    let (c, l) = grant_fits-cases now o (ground arith) g in (no_console o.capabilities c, l)
  where
    no_console :
        (c : Capabilities) → (c ≡ cap_exec) ⊎ (c ≡ use_capabilities) → has_all c cap_console ≡ false
    no_console c (inl e) =
        subst (λ x. has_all x cap_console ≡ false) (sym e) (unfold has_all in refl)
    no_console c (inr e) =
        subst (λ x. has_all x cap_console ≡ false) (sym e) (unfold has_all in refl)
