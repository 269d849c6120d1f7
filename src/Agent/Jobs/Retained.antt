-- ===== src/Agent/Jobs/Retained.antt =====
-- gcLocked, of internal/agent/jobs.go.
use wanctl.Prelude.{
  ℕ, ◌-◌, ◌≤◌, ◌<◌, ◌⊎◌, ◌≡◌, refl, sym, ap, ◌∙◌, subst, arith, All, All-map, Bool, true, false,
  ◌||◌, not, List, [], ◌∷◌, ltb, if◌then◌else◌, length, filter, Bool-cases, inl, inr, any,
}
use mathlib.Core.Path.{fun_ext}
use wanctl.Prelude.Sort.{weigh, weigh-sort_by, weigh-filter, weigh_mono, weigh-one}
use wanctl.Bytes.{Text}
use wanctl.Bytes.Laws.{text_eq_refl}
use wanctl.Agent.Jobs.{
  Job, JobLimits, JobStore, expired, evict, named, retained, evicted, collect, gc,
}

abbrev pub size : Job → ℕ
size j = length j.out

abbrev pub one : Job → ℕ
one j = 1

-- How many jobs have ended, and how much output they hold.
abbrev pub ended : List Job → ℕ
ended js = weigh (λ j. if j.done then 1 else 0) js

abbrev pub ended_bytes : List Job → ℕ
ended_bytes js = weigh (λ j. if j.done then length j.out else 0) js

named-cons : (i j : Text) (ids : List Text) → named i ids ≡ true → named i (j ∷ ids) ≡ true
unfolding named any
named-cons i j ids h = ground arith

All-named : (ids : List Text) → All (λ i. named i ids ≡ true) ids
unfolding named any
All-named [] = tt
All-named (i ∷ ids) = (
  ground (arith, text_eq_refl i),
  All-map (λ k. named k ids ≡ true) (λ k. named k (i ∷ ids) ≡ true) (λ k h. named-cons k i ids h)
      ids (All-named ids),
)

-- The weight of the jobs that are left, where `drops` says which names are evicted.
abbrev left : (Text → Bool) → (Job → ℕ) → Job → ℕ
left drops w j = if not (drops j.id) then w j else 0

left-dropped :
    (drops : Text → Bool) (w : Job → ℕ) (j : Job) (js : List Job)
    → drops j.id ≡ true
    → weigh (left drops w) (j ∷ js) ≡ weigh (left drops w) js
unfolding weigh
left-dropped drops w j js e = rw e (omega arith)

if_le : (b : Bool) (n : ℕ) → (if not b then n else 0) ≤ n
if_le true n = omega arith
if_le false n = omega arith

left-le : (drops : Text → Bool) (w : Job → ℕ) (js : List Job) → weigh (left drops w) js ≤ weigh w js
left-le drops w js = weigh_mono (left drops w) w js (λ j. if_le (drops j.id) (w j))

rest_bytes :
    (j : Job) (js : List Job) (bytes : ℕ)
    → bytes ≡ weigh size (j ∷ js)
    → bytes - length j.out ≡ weigh size js
unfolding weigh
rest_bytes j js bytes e = omega arith

evict-bound :
    (max_retained max_bytes : ℕ) (drops : Text → Bool) (js : List Job) (bytes : ℕ)
    → bytes ≡ weigh size js
    → All (λ i. drops i ≡ true) (evict max_retained max_bytes js bytes)
    → (weigh (left drops one) js ≤ max_retained) × (weigh (left drops size) js ≤ max_bytes)
unfolding evict
evict-bound r b drops [] bytes e h = unfold weigh in omega arith
evict-bound r b drops (j ∷ js) bytes e h =
    elim (Bool-cases (ltb r (length (j ∷ js)) || ltb b bytes)) [
      | inl t ↦
          let h' : All (λ i. drops i ≡ true) (j.id ∷ evict r b js (bytes - length j.out)) =
            rw t at h in
          let ih = evict-bound r b drops js (bytes - length j.out) (rest_bytes j js bytes e) h'.1 in
          (
            subst (λ n. n ≤ r) (sym (left-dropped drops one j js h'.0)) ih.0,
            subst (λ n. n ≤ b) (sym (left-dropped drops size j js h'.0)) ih.1,
          )
      | inr t ↦ (
        ground (arith, left-le drops one (j ∷ js), weigh-one (j ∷ js)),
        ground (arith, left-le drops size (j ∷ js)),
      )
    ]

both_tests :
    (d k : Bool) (n : ℕ)
    → (if k then (if d then n else 0) else 0) ≡ (if d then (if k then n else 0) else 0)
both_tests true k n = refl
both_tests false true n = refl
both_tests false false n = refl

-- What is left of the ended jobs weighs what is left of the retained ones.
left-retained :
    (drops : Text → Bool) (w : Job → ℕ) (live : List Job)
    → weigh (λ j. if j.done then w j else 0) (filter (λ j. not (drops j.id)) live)
      ≡ weigh (left drops w) (retained live)
unfolding retained
left-retained drops w live =
    weigh-filter (λ j. if j.done then w j else 0) (λ j. not (drops j.id)) live
    ∙ ap (λ v. weigh v live) (fun_ext (λ j. both_tests j.done (not (drops j.id)) (w j)))
    ∙ sym (weigh-filter (left drops w) (λ j. j.done) live)
    ∙ sym (weigh-sort_by (left drops w) (λ j. j.finished) (filter (λ j. j.done) live))

weigh-retained :
    (w : Job → ℕ) (live : List Job)
    → weigh w (retained live) ≡ weigh (λ j. if j.done then w j else 0) live
unfolding retained
weigh-retained w live =
    weigh-sort_by w (λ j. j.finished) (filter (λ j. j.done) live)
    ∙ weigh-filter w (λ j. j.done) live

-- The jobs that are not expired.
abbrev pub live_jobs : ℕ → JobStore → List Job
live_jobs now s = filter (λ j. not (expired now s.limits.retain j)) s.jobs

evict-nil :
    (max_retained max_bytes : ℕ) (js : List Job) (bytes : ℕ)
    → (evict max_retained max_bytes js bytes ≡ [])
      ⊎ ((max_retained < length js) ⊎ (max_bytes < bytes))
unfolding evict
evict-nil r b [] bytes = inl refl
evict-nil r b (j ∷ js) bytes = elim (Bool-cases (ltb r (length (j ∷ js)) || ltb b bytes)) [
  | inl t ↦ inr (ground arith)
  | inr t ↦ inl (rw t)
]

filter-named_nil : (js : List Job) → filter (λ j. not (named j.id [])) js ≡ js
unfolding filter named any
filter-named_nil [] = refl
filter-named_nil (j ∷ js) = ap (λ l. j ∷ l) (filter-named_nil js)

collect-live :
    (l : JobLimits) (live : List Job)
    → (filter (λ j. not (named j.id (evicted l live))) live ≡ live)
      ⊎ ((l.max_retained < ended live) ⊎ (l.max_bytes < ended_bytes live))
unfolding evicted
collect-live l live =
    elim (evict-nil l.max_retained l.max_bytes (retained live) (weigh size (retained live))) [
      | inl e ↦ inl (ap (λ ids. filter (λ j. not (named j.id ids)) live) e ∙ filter-named_nil live)
      | inr (inl m) ↦ inr (inl (omega (arith, weigh-retained one live, weigh-one (retained live))))
      | inr (inr m) ↦ inr (inr (omega (arith, weigh-retained size live)))
    ]

-- After the jobs are collected, at any time and whatever their order, those that have ended are at
-- most as many as the limit and their outputs are together within the limit of bytes. Where the
-- jobs that are not expired keep both limits, exactly they are left.
pub gc-bounded :
    (now : ℕ) (s : JobStore)
    → (ended (gc now s).jobs ≤ s.limits.max_retained)
      × (ended_bytes (gc now s).jobs ≤ s.limits.max_bytes)
      × (((gc now s).jobs ≡ live_jobs now s)
          ⊎ ((s.limits.max_retained < ended (live_jobs now s))
              ⊎ (s.limits.max_bytes < ended_bytes (live_jobs now s))))
unfolding gc collect evicted
gc-bounded now s =
    let live = filter (λ j. not (expired now s.limits.retain j)) s.jobs in
    let ids = evicted s.limits live in
    let bound =
      evict-bound s.limits.max_retained s.limits.max_bytes (λ i. named i ids) (retained live)
        (weigh size (retained live)) refl (All-named ids) in
    (
      subst (λ n. n ≤ s.limits.max_retained) (sym (left-retained (λ i. named i ids) one live))
          bound.0,
      subst (λ n. n ≤ s.limits.max_bytes) (sym (left-retained (λ i. named i ids) size live))
          bound.1,
      collect-live s.limits live,
    )
