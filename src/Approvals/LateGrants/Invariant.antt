-- ===== src/Approvals/LateGrants/Invariant.antt =====
-- The invariant of the store of late grants, kept by every operation.
use wanctl.Prelude.{
  inl, inr, ℕ, zero, suc, ◌≤◌, ◌<◌, ◌≡◌, refl, Bool, true, false, not, List, [], ◌∷◌, ◌++◌, arith,
  ◌==◌, ltb, leb, length, drop, filter, All, All-append, All-filter, All-filter_test, All-map,
  All-drop, Bool-cases, length-append, length-drop, length-filter_le,
}
use wanctl.Bytes.{Text}
use wanctl.Policy.{Kind}
use wanctl.Approvals.LateGrants.{
  LateGrant, LateGrants, live_script, prune, same_grant, make_room, max_late_grants,
  max_asked_scripts,
}
use wanctl.Approvals.LateGrants.Store.{same_script, spend, put_grant, put_script}

-- `x` would release what `y` releases.
abbrev pub same_as : LateGrant → LateGrant → Bool
same_as y x = same_grant y.kind y.fp y.key y.cwd x

-- No two grants release the same request.
abbrev pub Distinct : List LateGrant → Type 0
Distinct [] = Unit
Distinct (x ∷ xs) = All (λ y. same_as y x ≡ false) xs × Distinct xs

pub record Inv (g : LateGrants) : Type 0 where
  pub distinct : Distinct g.grants
  pub issued : All (λ (x : LateGrant). x.id < g.next_id) g.grants
  pub few_grants : length g.grants ≤ max_late_grants
  pub few_scripts : length g.scripts ≤ max_asked_scripts

Distinct-filter :
    (p : LateGrant → Bool) (xs : List LateGrant) → Distinct xs → Distinct (filter p xs)
unfolding filter
Distinct-filter p [] h = tt
Distinct-filter p (x ∷ xs) h = elim (Bool-cases (p x)) [
  | inl e ↦ rw e (All-filter (λ y. same_as y x ≡ false) p xs h.0, Distinct-filter p xs h.1)
  | inr e ↦ rw e (Distinct-filter p xs h.1)
]

Distinct-drop : (n : ℕ) (xs : List LateGrant) → Distinct xs → Distinct (drop n xs)
Distinct-drop zero xs h = h
Distinct-drop (suc n) [] h = tt
Distinct-drop (suc n) (x ∷ xs) h = Distinct-drop n xs h.1

Distinct-append :
    (xs : List LateGrant) (y : LateGrant)
    → Distinct xs
    → All (λ x. same_as y x ≡ false) xs
    → Distinct (xs ++ y ∷ [])
Distinct-append [] y h a = (tt, tt)
Distinct-append (x ∷ xs) y h a =
    (All-append (λ z. same_as z x ≡ false) xs (y ∷ []) h.0 (a.0, tt), Distinct-append xs y h.1 a.1)

length-make_room {ℓ} :
    {A : Type ℓ} (n : ℕ) (xs : List A) → length xs ≤ suc n → length (make_room (suc n) xs) ≤ n
unfolding make_room
length-make_room n xs h = ground (arith, length-drop 1 xs)

All-make_room {ℓ κ} :
    {A : Type ℓ} (P : A → Type κ) (n : ℕ) (xs : List A) → All P xs → All P (make_room n xs)
unfolding make_room
All-make_room P n xs h = elim (Bool-cases (leb n (length xs))) [
  | inl e ↦ rw e (All-drop P 1 xs h)
  | inr e ↦ rw e h
]

Distinct-make_room : (n : ℕ) (xs : List LateGrant) → Distinct xs → Distinct (make_room n xs)
unfolding make_room
Distinct-make_room n xs h = elim (Bool-cases (leb n (length xs))) [
  | inl e ↦ rw e (Distinct-drop 1 xs h)
  | inr e ↦ rw e h
]

put_grant-Inv :
    (kind : Kind) (fp key cwd : Text) (expires : ℕ) (g : LateGrants)
    → Inv g
    → Inv (put_grant kind fp key cwd expires g)
unfolding put_grant
put_grant-Inv kind fp key cwd expires g i =
    let others = filter (λ x. not (same_grant kind fp key cwd x)) g.grants in
    let apart =
      All-map _ (λ x. same_grant kind fp key cwd x ≡ false)
        (λ x e. not_true (same_grant kind fp key cwd x) e) others
        (All-filter_test (λ x. not (same_grant kind fp key cwd x)) g.grants) in
    record {
      distinct =
          Distinct-append (make_room max_late_grants others) _
            (Distinct-make_room max_late_grants others (Distinct-filter _ g.grants i.distinct))
            (All-make_room (λ x. same_grant kind fp key cwd x ≡ false) max_late_grants others
              apart);
      issued =
          All-append (λ (x : LateGrant). x.id < suc g.next_id) (make_room max_late_grants others)
            (_ ∷ [])
            (All-make_room (λ (x : LateGrant). x.id < suc g.next_id) max_late_grants others
              (All-map _ _ (λ x lt. omega arith) others (All-filter _ _ g.grants i.issued)))
            (omega arith, tt);
      few_grants = omega (
        arith,
        length-append (make_room max_late_grants others) (_ ∷ []),
        length-make_room 31 others,
        length-filter_le (λ x. not (same_grant kind fp key cwd x)) g.grants,
        i.few_grants,
      );
      few_scripts = i.few_scripts;
    }
  where
    not_true : (b : Bool) → not b ≡ true → b ≡ false
    not_true true e = cc
    not_true false e = refl

put_script-Inv :
    (kind : Kind) (fp label token : Text) (now : ℕ) (g : LateGrants)
    → Inv g
    → Inv (put_script kind fp label token now g)
unfolding put_script
put_script-Inv kind fp label token now g i = record {
  distinct = i.distinct;
  issued = i.issued;
  few_grants = i.few_grants;
  few_scripts =
      let others = filter (λ s. not (same_script kind fp token s)) g.scripts in
      omega (
        arith,
        length-append (make_room max_asked_scripts others) (_ ∷ []),
        length-make_room 63 others,
        length-filter_le (λ s. not (same_script kind fp token s)) g.scripts,
        i.few_scripts,
      );
}

pub prune-Inv : (now : ℕ) (g : LateGrants) → Inv g → Inv (prune now g)
unfolding prune
prune-Inv now g i = record {
  distinct = Distinct-filter _ g.grants i.distinct;
  issued = All-filter _ _ g.grants i.issued;
  few_grants =
      omega (arith, length-filter_le (λ (x : LateGrant). ltb now x.expires) g.grants, i.few_grants);
  few_scripts = omega (arith, length-filter_le (live_script now) g.scripts, i.few_scripts);
}

spend-Inv : (n : ℕ) (g : LateGrants) → Inv g → Inv (spend n g)
unfolding spend
spend-Inv n g i = record {
  distinct = Distinct-filter _ g.grants i.distinct;
  issued = All-filter _ _ g.grants i.issued;
  few_grants =
      omega (arith, length-filter_le (λ (x : LateGrant). not (x.id == n)) g.grants, i.few_grants);
  few_scripts = i.few_scripts;
}

-- The single changes that the operations make, in any order and at any times.
pub data Step (g : LateGrants) : LateGrants → Type 0 where
  pruned : (now : ℕ) → Step g (prune now g)
  granted :
      (kind : Kind) (fp key cwd : Text) (expires : ℕ) → Step g (put_grant kind fp key cwd expires g)
  recorded :
      (kind : Kind) (fp label token : Text) (now : ℕ)
      → Step g (put_script kind fp label token now g)
  spent : (n : ℕ) → Step g (spend n g)

pub data Reach (g : LateGrants) : LateGrants → Type 0 where
  here : Reach g g
  next : {h k : LateGrants} → Reach g h → Step h k → Reach g k

Step-Inv : {g h : LateGrants} → Inv g → Step g h → Inv h
Step-Inv {g} i (pruned now) = prune-Inv now g i
Step-Inv {g} i (granted kind fp key cwd expires) = put_grant-Inv kind fp key cwd expires g i
Step-Inv {g} i (recorded kind fp label token now) = put_script-Inv kind fp label token now g i
Step-Inv {g} i (spent n) = spend-Inv n g i

-- Whatever is done to the store, it keeps its bounds, and no two of its grants release the same
-- request.
pub Reach-Inv : {g h : LateGrants} → Inv g → Reach g h → Inv h
Reach-Inv i here = i
Reach-Inv i (next r s) = Step-Inv (Reach-Inv i r) s
