-- ===== src/Agent/Spill/Course.antt =====
-- A run of writes passes from holding to spilling, or gives up.
use wanctl.Prelude.{
  ℕ, zero, suc, ◌≤◌, ◌<◌, ◌≡◌, ◌⊎◌, inl, inr, refl, sym, ap, ◌∙◌, subst, arith, Bool, true, false,
  ◌||◌, List, [], ◌∷◌, ◌++◌, ltb, take, length, length-append, if◌then◌else◌, ℤ, pos, Bool-cases,
}
use wanctl.Bytes.{Text}
use wanctl.Agent.Spill.{
  SpillWriter, Chunk, max_spill_bytes, new_spill, append, spill, exceeds, write_counted, write,
}
use wanctl.Agent.Spill.Phases.{GaveUp, Spilling, Holding, Trouble, append-Spilling, spill-cases}

-- A run, the last write first, and all that was written.
abbrev pub run : ℕ → List Chunk → SpillWriter
run t [] = new_spill (pos t)
run t (c ∷ cs) = write c (run t cs)

abbrev pub output : List Chunk → Text
output [] = []
output (c ∷ cs) = output cs ++ c.bytes

abbrev pub AnyTrouble : List Chunk → Type 0
AnyTrouble [] = ⊥
AnyTrouble (c ∷ cs) = Trouble c ⊎ AnyTrouble cs

abbrev pub Phase : ℕ → List Chunk → SpillWriter → Type 0
Phase t cs s =
    Holding t (output cs) s
    ⊎ ((Spilling (output cs) s × (t < length (output cs))) ⊎ (GaveUp s × AnyTrouble cs))

pub if_true : {A : Type 0} (b : Bool) (x y : A) → b ≡ true → (if b then x else y) ≡ x
if_true b x y e = rw e

pub if_false : {A : Type 0} (b : Bool) (x y : A) → b ≡ false → (if b then x else y) ≡ y
if_false b x y e = rw e

over : (c : Chunk) (s : SpillWriter) → (s.failed || s.full) ≡ true → write_counted c s ≡ s
unfolding write_counted
over c s e = if_true (s.failed || s.full) s _ e

to_file :
    (c : Chunk) (s : SpillWriter)
    → (s.failed || s.full) ≡ false
    → s.is_open ≡ true
    → write_counted c s ≡ append c.first c.bytes s
unfolding write_counted
to_file c s e o = if_false (s.failed || s.full) s _ e ∙ if_true s.is_open _ _ o

no_file :
    (c : Chunk) (s : SpillWriter)
    → (s.failed || s.full) ≡ false
    → s.is_open ≡ false
    → write_counted c s
      ≡ (if exceeds s.total s.threshold then spill c s else record s { held = s.held ++ c.bytes })
unfolding write_counted
no_file c s e o = if_false (s.failed || s.full) s _ e ∙ if_false s.is_open _ _ o

or_false : (a b : Bool) → a ≡ false → b ≡ false → (a || b) ≡ false
or_false a b h k = rw (h, k)

take_capped : (n : ℕ) (s p : Text) → n ≤ length s → take n (s ++ p) ≡ take n s
take_capped zero s p h = refl
take_capped (suc n) [] p h = absurd (omega arith)
take_capped (suc n) (c ∷ s) p h = ap (λ l. c ∷ l) (take_capped n s p (omega arith))

capped-Spilling :
    (seen p : Text) (s : SpillWriter)
    → Spilling seen s
    → s.full ≡ true
    → max_spill_bytes ≤ length seen
    → Spilling (seen ++ p) s
capped-Spilling seen p s h f l = record {
  is_open = h.is_open;
  failed = h.failed;
  content = h.content ∙ sym (take_capped max_spill_bytes seen p l);
  kept = h.kept;
  capped = inl (f, omega (arith, length-append seen p));
}

exceeds-lt : (n t : ℕ) (th : ℤ) → th ≡ pos t → exceeds n th ≡ ltb t n
unfolding exceeds
exceeds-lt n t th e = rw e

-- A write while everything is held.
Holding-write :
    (t : ℕ) (c : Chunk) (cs : List Chunk) (s : SpillWriter)
    → s.total ≡ length (output (c ∷ cs))
    → s.threshold ≡ pos t
    → Holding t (output cs) s
    → Phase t (c ∷ cs) (write_counted c s)
Holding-write t c cs s n th h =
    let e = no_file c s (or_false s.failed s.full h.failed h.full) h.is_open in
    elim (Bool-cases (exceeds s.total s.threshold)) [
      | inl x ↦
          let more : t < length (output (c ∷ cs)) =
            ground (arith, exceeds-lt s.total t s.threshold th) in
          subst (Phase t (c ∷ cs)) (sym (e ∙ if_true (exceeds s.total s.threshold) _ _ x))
            (elim (spill-cases c (output cs) s t h) [
              | inl k ↦ inr (inl (k, more))
              | inr g ↦ inr (inr (g.1, inl g.0))
            ])
      | inr x ↦ subst (Phase t (c ∷ cs)) (sym (e ∙ if_false (exceeds s.total s.threshold) _ _ x)) (
          inl (record {
            held = ap (λ q. q ++ c.bytes) h.held;
            kept = h.kept;
            no_path = h.no_path;
            empty = h.empty;
            is_open = h.is_open;
            failed = h.failed;
            full = h.full;
            below = ground (arith, exceeds-lt s.total t s.threshold th);
          }))
    ]

Spilling-write :
    (t : ℕ) (c : Chunk) (cs : List Chunk) (s : SpillWriter)
    → Spilling (output cs) s
    → t < length (output cs)
    → Phase t (c ∷ cs) (write_counted c s)
Spilling-write t c cs s h l =
    let more : t < length (output (c ∷ cs)) = omega (arith, length-append (output cs) c.bytes) in
    elim h.capped [
      | inl (f, m) ↦
          subst (Phase t (c ∷ cs)) (sym (over c s (rw (h.failed, f))))
            (inr (inl (capped-Spilling (output cs) c.bytes s h f m, more)))
      | inr (f, m) ↦
          subst (Phase t (c ∷ cs))
            (sym (to_file c s (or_false s.failed s.full h.failed f) h.is_open))
            (elim (append-Spilling c.first (output cs) c.bytes s h) [
              | inl k ↦ inr (inl (k, more))
              | inr g ↦ inr (inr (g.1, inl (inr (inl g.0))))
            ])
    ]

pub write_counted-Phase :
    (t : ℕ) (c : Chunk) (cs : List Chunk) (s : SpillWriter)
    → s.total ≡ length (output (c ∷ cs))
    → s.threshold ≡ pos t
    → Phase t cs s
    → Phase t (c ∷ cs) (write_counted c s)
write_counted-Phase t c cs s n th (inl h) = Holding-write t c cs s n th h
write_counted-Phase t c cs s n th (inr (inl h)) = Spilling-write t c cs s h.0 h.1
write_counted-Phase t c cs s n th (inr (inr h)) =
    subst (Phase t (c ∷ cs)) (sym (over c s (rw h.0.failed))) (inr (inr (h.0, inr h.1)))
