-- ===== src/Agent/Spill/Sweep.antt =====
-- sweepSpills, of internal/server/spill.go, on the spill files of a directory.
use wanctl.Prelude.{
  ℕ, suc, zero, Bool, true, false, not, List, [], ◌∷◌, ◌++◌, ◌≡◌, ◌≤◌, ◌+◌, ◌-◌, ◌&&◌, refl, sym,
  subst, arith, ltb, length, take, drop, filter, length-drop, All, All-map, All-filter,
  All-filter_test, All-drop, if◌then◌else◌,
}
use wanctl.Prelude.Sort.{sort_by, All-sort_by, sort_by-Sorted, take-drop-Sorted}
use wanctl.Bytes.{Text}

-- An hour, in nanoseconds.
abbrev pub spill_retention : ℕ
spill_retention = 3600000000000

abbrev pub max_spill_files : ℕ
max_spill_files = 32

-- What the operating system does with a file is a part of it: whether its time can be read, and
-- whether it can be removed.
pub record SpillFile : Type 0 where
  pub path : Text
  pub mod_time : ℕ
  pub readable : Bool
  pub removable : Bool

unfoldable pub retired : ℕ → SpillFile → Bool
retired now f = f.readable && ltb (f.mod_time + spill_retention) now

-- The files that have not expired, the oldest first.
unfoldable pub live_spills : ℕ → List SpillFile → List SpillFile
unfolding retired
live_spills now fs = sort_by (λ f. f.mod_time) (filter (λ f. f.readable && not (retired now f)) fs)

-- How many files make room: one is about to be created.
unfoldable pub surplus : ℕ → ℕ
surplus live = if ltb live max_spill_files then 0 else live - max_spill_files + 1

unfoldable pub stubborn : List SpillFile → List SpillFile
stubborn fs = filter (λ f. not f.removable) fs

-- The files that are removed to make room.
unfoldable pub oldest_spills : ℕ → List SpillFile → List SpillFile
unfolding live_spills surplus
oldest_spills now fs = take (surplus (length (live_spills now fs))) (live_spills now fs)

-- `sweepSpills`: the files that are left, in no order that matters.
unfoldable pub sweep_spills : ℕ → List SpillFile → List SpillFile
unfolding live_spills surplus stubborn oldest_spills
sweep_spills now fs =
    filter (λ f. not f.readable) fs
    ++ (stubborn (filter (retired now) fs)
        ++ (stubborn (oldest_spills now fs)
            ++ drop (surplus (length (live_spills now fs))) (live_spills now fs)))

filter-none {ℓ} :
    {A : Type ℓ} (p : A → Bool) (xs : List A) → All (λ x. p x ≡ false) xs → filter p xs ≡ []
unfolding filter
filter-none p [] h = refl
filter-none p (x ∷ xs) h = rw h.0 (filter-none p xs h.1)

All-take {ℓ κ} : {A : Type ℓ} (P : A → Type κ) (n : ℕ) (xs : List A) → All P xs → All P (take n xs)
All-take P zero xs h = tt
All-take P (suc n) [] h = tt
All-take P (suc n) (x ∷ xs) h = (h.0, All-take P n xs h.1)

-- A file with which the operating system does what it is asked.
abbrev pub Obeys : SpillFile → Type 0
Obeys f = (f.readable ≡ true) × (f.removable ≡ true)

stubborn-none : (fs : List SpillFile) → All Obeys fs → stubborn fs ≡ []
unfolding stubborn
stubborn-none fs h =
    filter-none (λ f. not f.removable) fs
      (All-map Obeys (λ f. not f.removable ≡ false) (λ f o. ground (arith, o.1)) fs h)

live_spills-Obeys : (now : ℕ) (fs : List SpillFile) → All Obeys fs → All Obeys (live_spills now fs)
unfolding live_spills
live_spills-Obeys now fs h =
    All-sort_by Obeys (λ f. f.mod_time) (filter (λ f. f.readable && not (retired now f)) fs)
      (All-filter Obeys (λ f. f.readable && not (retired now f)) fs h)

-- Then what is left is what is live and not surplus.
sweep_spills-kept :
    (now : ℕ) (fs : List SpillFile)
    → All Obeys fs
    → sweep_spills now fs ≡ drop (surplus (length (live_spills now fs))) (live_spills now fs)
unfolding sweep_spills oldest_spills
sweep_spills-kept now fs h =
    let live = live_spills now fs in
    let n = surplus (length live) in
    let read =
      filter-none (λ f. not f.readable) fs
        (All-map Obeys (λ f. not f.readable ≡ false) (λ f o. ground (arith, o.0)) fs h) in
    let gone = stubborn-none (filter (retired now) fs) (All-filter Obeys (retired now) fs h) in
    let old = stubborn-none (take n live) (All-take Obeys n live (live_spills-Obeys now fs h)) in
    rw (read, gone) (rw old refl)

live_spills-fresh :
    (now : ℕ) (fs : List SpillFile) → All (λ f. retired now f ≡ false) (live_spills now fs)
unfolding live_spills
live_spills-fresh now fs =
    let p : SpillFile → Bool = λ f. f.readable && not (retired now f) in
    All-sort_by (λ f. retired now f ≡ false) (λ f. f.mod_time) (filter p fs)
      (All-map (λ f. p f ≡ true) (λ f. retired now f ≡ false) (λ f h. ground arith) (filter p fs)
        (All-filter_test p fs))

-- Where every spill file can be read and removed, a sweep leaves at most 31, none of them expired,
-- and removes none to make room that is newer than one that it leaves.
pub sweep_spills-newest :
    (now : ℕ) (fs : List SpillFile)
    → All Obeys fs
    → (length (sweep_spills now fs) + 1 ≤ max_spill_files)
      × All (λ f. retired now f ≡ false) (sweep_spills now fs)
      × All (λ f. All (λ g. f.mod_time ≤ g.mod_time) (sweep_spills now fs)) (oldest_spills now fs)
unfolding oldest_spills
sweep_spills-newest now fs h =
    let live = live_spills now fs in
    let n = surplus (length live) in
    subst
      (λ left.
        (length left + 1 ≤ max_spill_files)
        × All (λ f. retired now f ≡ false) left
        × All (λ f. All (λ g. f.mod_time ≤ g.mod_time) left) (take n live))
      (sym (sweep_spills-kept now fs h))
      (
        unfold surplus in ground (arith, length-drop n live),
        All-drop (λ f. retired now f ≡ false) n live (live_spills-fresh now fs),
        unfold live_spills in
            take-drop-Sorted (λ f. f.mod_time) n live
              (sort_by-Sorted (λ f. f.mod_time)
                (filter (λ f. f.readable && not (retired now f)) fs)),
      )
