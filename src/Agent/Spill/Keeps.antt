-- ===== src/Agent/Spill/Keeps.antt =====
-- The operations on the file change neither the total nor the threshold.
use wanctl.Prelude.{
  ◌-◌, ◌≡◌, inl, inr, refl, ◌∙◌, arith, Bool, true, false, ◌||◌, Option, none, some, [], ◌∷◌, ◌++◌,
  ltb, take, length, if◌then◌else◌, Bool-cases,
}
use wanctl.Bytes.{Text}
use wanctl.Agent.Spill.{
  SpillWriter, Fate, complete, breaks, Chunk, max_spill_bytes, abandon, write_file, append_cut,
  append, open_file, fill, spill, exceeds, write_counted,
}

-- What no operation on the file changes.
abbrev pub Keeps : SpillWriter → SpillWriter → Type 0
Keeps s r = (r.total ≡ s.total) × (r.threshold ≡ s.threshold)

append_cut-Keeps : (fate : Fate) (p : Text) (s : SpillWriter) → Keeps s (append_cut fate p s)
unfolding append_cut write_file abandon
append_cut-Keeps fate [] s = (refl, refl)
append_cut-Keeps complete (c ∷ p) s = (ground arith, ground arith)
append_cut-Keeps (breaks n) (c ∷ p) s = (refl, refl)

append-Keeps : (fate : Fate) (p : Text) (s : SpillWriter) → Keeps s (append fate p s)
unfolding append
append-Keeps fate p s = elim (Bool-cases (ltb (max_spill_bytes - s.kept) (length p))) [
  | inl e ↦
      rw e (append_cut-Keeps fate (take (max_spill_bytes - s.kept) p) (record s { full = true }))
  | inr e ↦ rw e (append_cut-Keeps fate p s)
]

open_file-Keeps : (o : Option Text) (s : SpillWriter) → Keeps s (open_file o s)
unfolding open_file
open_file-Keeps none s = (refl, refl)
open_file-Keeps (some p) s = (refl, refl)

Keeps-trans : (s r q : SpillWriter) → Keeps s r → Keeps r q → Keeps s q
Keeps-trans s r q h k = (k.0 ∙ h.0, k.1 ∙ h.1)

Keeps-if : (b : Bool) (s x y : SpillWriter) → Keeps s x → Keeps s y → Keeps s (if b then x else y)
Keeps-if true s x y h k = h
Keeps-if false s x y h k = k

fill-Keeps : (c : Chunk) (s : SpillWriter) → Keeps s (fill c s)
unfolding fill
fill-Keeps c s =
    Keeps-if s.is_open s (append c.second c.bytes (append c.first s.held s)) s
      (Keeps-trans s (append c.first s.held s) (append c.second c.bytes (append c.first s.held s))
        (append-Keeps c.first s.held s) (append-Keeps c.second c.bytes (append c.first s.held s)))
      (refl, refl)

spill-Keeps : (c : Chunk) (s : SpillWriter) → Keeps s (spill c s)
unfolding spill
spill-Keeps c s =
    Keeps-trans s (open_file c.created s) (record (fill c (open_file c.created s)) { held = [] })
      (open_file-Keeps c.created s) (fill-Keeps c (open_file c.created s))

pub write_counted-Keeps : (c : Chunk) (s : SpillWriter) → Keeps s (write_counted c s)
unfolding write_counted
write_counted-Keeps c s =
    let held : SpillWriter = record s { held = s.held ++ c.bytes } in
    let grows = if exceeds s.total s.threshold then spill c s else held in
    Keeps-if (s.failed || s.full) s s (if s.is_open then append c.first c.bytes s else grows)
      (refl, refl)
      (Keeps-if s.is_open s (append c.first c.bytes s) grows (append-Keeps c.first c.bytes s)
        (Keeps-if (exceeds s.total s.threshold) s (spill c s) held (spill-Keeps c s) (refl, refl)))
