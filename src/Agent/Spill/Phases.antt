-- ===== src/Agent/Spill/Phases.antt =====
-- What a spill file holds at any moment: a prefix of the output, up to the cap, or nothing.
use wanctl.Prelude.{
  ℕ, zero, suc, ◌+◌, ◌-◌, ◌≤◌, ◌≡◌, ◌⊎◌, inl, inr, refl, sym, ap, ap₂, ◌∙◌, subst, arith, min, Bool,
  true, false, Option, none, some, [], ◌∷◌, ◌++◌, ltb, take, length, length-append, length-take,
  append-nil, if◌then◌else◌, Bool-cases,
}
use wanctl.Bytes.{Text}
use wanctl.Agent.Spill.{
  SpillWriter, Fate, complete, breaks, Chunk, max_spill_bytes, abandon, write_file, append_cut,
  append, open_file, fill, spill,
}

take_as : {n m : ℕ} (p : Text) → n ≡ m → take n p ≡ take m p
take_as p e = ap (λ k. take k p) e

take_more : (n : ℕ) (s p : Text) → take n s ++ take (n - length (take n s)) p ≡ take n (s ++ p)
take_more zero s p = take_as {n = 0 - 0} {m = 0} p (omega arith)
take_more (suc n) [] p = take_as {n = suc n - 0} {m = suc n} p (omega arith)
take_more (suc n) (c ∷ s) p =
    ap (λ l. c ∷ (take n s ++ l))
      (take_as {n = suc n - suc (length (take n s))} {m = n - length (take n s)} p (omega arith))
    ∙ ap (λ l. c ∷ l) (take_more n s p)

take_all : (n : ℕ) (s : Text) → length s ≤ n → take n s ≡ s
take_all zero [] h = refl
take_all zero (c ∷ s) h = absurd (omega arith)
take_all (suc n) [] h = refl
take_all (suc n) (c ∷ s) h = ap (λ l. c ∷ l) (take_all n s (omega arith))

-- The writer after a piece that fits as far as the cap allows.
abbrev grown : Text → SpillWriter → SpillWriter
grown p s = record s {
  content = s.content ++ take (max_spill_bytes - s.kept) p;
  kept = s.kept + length (take (max_spill_bytes - s.kept) p);
  full = if ltb (max_spill_bytes - s.kept) (length p) then true else s.full;
}

abbrev pub Broken : Fate → Type 0
Broken complete = ⊥
Broken (breaks n) = Unit

-- A writer that has given up: no path and nothing kept.
pub record GaveUp (s : SpillWriter) : Type 0 where
  pub failed : s.failed ≡ true
  pub closed : s.is_open ≡ false
  pub no_path : s.path ≡ []

abbrev added : Text → SpillWriter → SpillWriter
added q s = record s { content = s.content ++ q; kept = s.kept + length q }

added-nil : (s : SpillWriter) → added [] s ≡ s
added-nil s = ap₂ (λ c k. record s { content = c; kept = k }) (append-nil s.content) (omega arith)

append_cut-cases :
    (fate : Fate) (q : Text) (s : SpillWriter)
    → s.is_open ≡ true
    → (append_cut fate q s ≡ added q s) ⊎ (Broken fate × GaveUp (append_cut fate q s))
unfolding append_cut write_file
append_cut-cases fate [] s o = inl (sym (added-nil s))
append_cut-cases complete (c ∷ q) s o = inl (rw o)
append_cut-cases (breaks n) (c ∷ q) s o =
    inr (tt, unfold abandon in record { failed = refl; closed = refl; no_path = refl })

not_ltb→le : (a b : ℕ) → ltb a b ≡ false → b ≤ a
not_ltb→le a b h = ground arith

pub append-cases :
    (fate : Fate) (p : Text) (s : SpillWriter)
    → s.is_open ≡ true
    → (append fate p s ≡ grown p s) ⊎ (Broken fate × GaveUp (append fate p s))
unfolding append
append-cases fate p s o = elim (Bool-cases (ltb (max_spill_bytes - s.kept) (length p))) [
  | inl e ↦
      rw e (append_cut-cases fate (take (max_spill_bytes - s.kept) p) (record s { full = true }) o)
  | inr e ↦
      rw
        (
          e,
          take_all (max_spill_bytes - s.kept) p
              (not_ltb→le (max_spill_bytes - s.kept) (length p) e),
        )
        (append_cut-cases fate p s o)
]

-- The file holds the output up to the cap, and `full` says that the cap was passed.
pub record Spilling (seen : Text) (s : SpillWriter) : Type 0 where
  pub is_open : s.is_open ≡ true
  pub failed : s.failed ≡ false
  pub content : s.content ≡ take max_spill_bytes seen
  pub kept : s.kept ≡ length s.content
  pub capped :
      ((s.full ≡ true) × (max_spill_bytes ≤ length seen))
      ⊎ ((s.full ≡ false) × (length seen ≤ max_spill_bytes))

capped_more :
    (cap kept seen more all : ℕ) (full : Bool)
    → kept ≡ min cap seen
    → ((full ≡ true) × (cap ≤ seen)) ⊎ ((full ≡ false) × (seen ≤ cap))
    → all ≡ seen + more
    → (((if ltb (cap - kept) more then true else full) ≡ true) × (cap ≤ all))
      ⊎ (((if ltb (cap - kept) more then true else full) ≡ false) × (all ≤ cap))
capped_more cap kept seen more all true e h f = ground arith
capped_more cap kept seen more all false e h f = ground arith

grown-Spilling :
    (seen p : Text) (s : SpillWriter) → Spilling seen s → Spilling (seen ++ p) (grown p s)
grown-Spilling seen p s h = record {
  is_open = h.is_open;
  failed = h.failed;
  content =
      ap₂ (λ c k. c ++ take (max_spill_bytes - k) p) h.content (h.kept ∙ ap length h.content)
      ∙ take_more max_spill_bytes seen p;
  kept = omega (arith, length-append s.content (take (max_spill_bytes - s.kept) p));
  capped =
      capped_more max_spill_bytes s.kept (length seen) (length p) (length (seen ++ p)) s.full
        (h.kept ∙ ap length h.content ∙ length-take max_spill_bytes seen) h.capped
        (length-append seen p);
}

-- Before the threshold: everything is held, and there is no file.
pub record Holding (t : ℕ) (seen : Text) (s : SpillWriter) : Type 0 where
  pub held : s.held ≡ seen
  pub kept : s.kept ≡ 0
  pub no_path : s.path ≡ []
  pub empty : s.content ≡ []
  pub is_open : s.is_open ≡ false
  pub failed : s.failed ≡ false
  pub full : s.full ≡ false
  pub below : length seen ≤ t

-- What went wrong in a write.
abbrev pub Trouble : Chunk → Type 0
Trouble c = (c.created ≡ none) ⊎ (Broken c.first ⊎ Broken c.second)

pub append-Spilling :
    (fate : Fate) (seen p : Text) (s : SpillWriter)
    → Spilling seen s
    → Spilling (seen ++ p) (append fate p s) ⊎ (Broken fate × GaveUp (append fate p s))
append-Spilling fate seen p s h = elim (append-cases fate p s h.is_open) [
  | inl e ↦ inl (subst (Spilling (seen ++ p)) (sym e) (grown-Spilling seen p s h))
  | inr g ↦ inr g
]

append_cut-GaveUp :
    (fate : Fate) (p : Text) (s : SpillWriter) → GaveUp s → GaveUp (append_cut fate p s)
unfolding append_cut write_file abandon
append_cut-GaveUp fate [] s h = h
append_cut-GaveUp complete (c ∷ p) s h =
    rw h.closed (record { failed = refl; closed = refl; no_path = refl })
append_cut-GaveUp (breaks n) (c ∷ p) s h = record { failed = refl; closed = refl; no_path = refl }

append-GaveUp : (fate : Fate) (p : Text) (s : SpillWriter) → GaveUp s → GaveUp (append fate p s)
unfolding append
append-GaveUp fate p s h = elim (Bool-cases (ltb (max_spill_bytes - s.kept) (length p))) [
  | inl e ↦ rw e (
      append_cut-GaveUp fate (take (max_spill_bytes - s.kept) p) (record s { full = true })
        (record { failed = h.failed; closed = h.closed; no_path = h.no_path }))
  | inr e ↦ rw e (append_cut-GaveUp fate p s h)
]

-- The two writes of the chunk that passes the threshold, to a file that was created.
both_writes :
    (first second : Fate) (seen p : Text) (s : SpillWriter)
    → Spilling [] s
    → s.held ≡ seen
    → Spilling (seen ++ p) (append second p (append first s.held s))
      ⊎ ((Broken first ⊎ Broken second) × GaveUp (append second p (append first s.held s)))
both_writes first second seen p s h e = elim (append-Spilling first [] s.held s h) [
  | inl k ↦
      elim (append-Spilling second seen p _ (subst (λ q. Spilling q (append first s.held s)) e k)) [
        | inl m ↦ inl m
        | inr g ↦ inr (inr g.0, g.1)
      ]
  | inr g ↦ inr (inl g.0, append-GaveUp second p _ g.1)
]

filled :
    (c : Chunk) (o : Option Text) (seen : Text) (s : SpillWriter) (t : ℕ)
    → c.created ≡ o
    → Holding t seen s
    → Spilling (seen ++ c.bytes) (fill c (open_file o s))
      ⊎ (Trouble c × GaveUp (fill c (open_file o s)))
unfolding fill open_file
filled c none seen s t e h =
    rw h.is_open (inr (inl e, record { failed = refl; closed = refl; no_path = h.no_path }))
filled c (some path) seen s t e h =
    elim (both_writes c.first c.second seen c.bytes (record s { is_open = true; path = path })
      (record {
        is_open = refl;
        failed = h.failed;
        content = h.empty;
        kept = h.kept ∙ ap length (sym h.empty);
        capped = inr (h.full, omega arith);
      })
      h.held) [ inl k ↦ inl k | inr g ↦ inr (inr g.0, g.1) ]

pub spill-cases :
    (c : Chunk) (seen : Text) (s : SpillWriter) (t : ℕ)
    → Holding t seen s
    → Spilling (seen ++ c.bytes) (spill c s) ⊎ (Trouble c × GaveUp (spill c s))
unfolding spill
spill-cases c seen s t h = elim (filled c c.created seen s t refl h) [
  | inl k ↦ inl (record {
    is_open = k.is_open;
    failed = k.failed;
    content = k.content;
    kept = k.kept;
    capped = k.capped;
  })
  | inr g ↦ inr (g.0, record { failed = g.1.failed; closed = g.1.closed; no_path = g.1.no_path })
]
