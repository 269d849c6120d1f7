-- ===== src/Release/Json/Walk.antt =====
-- The walk accepts a JSON value exactly where no object in it has a key twice.
use wanctl.Prelude.{
  ◌<◌, ◌∙◌, ℕ, ◌+◌, ◌≤◌, ◌≡◌, refl, arith, Bool, true, false, ◌&&◌, not, List, [], ◌∷◌,
  if◌then◌else◌, suc, zero,
}
use wanctl.Bytes.{Text}
use wanctl.Release.Json.{
  Tokens, Outcome, done, duplicate, seen_before, walk_value, walk_fields, walk_items, count, at_end,
  reject_duplicate_json_keys, and_then, token,
}
use wanctl.Release.Json.Values.{
  Json, atom, text, array, object, Items, nil, cons, Fields, end, field, first_of_value,
  after_first, items_tokens, fields_tokens, has_key, unique, unique_items, unique_fields,
}

unfoldable mutual
  pub size : Json → ℕ
  size atom = 1
  size (text s) = 1
  size (array xs) = suc (size_items xs)
  size (object fs) = suc (size_fields fs)

  pub size_items : Items → ℕ
  size_items nil = 1
  size_items (cons v xs) = size v + size_items xs

  pub size_fields : Fields → ℕ
  size_fields end = 1
  size_fields (field k v fs) = suc (size v + size_fields fs)

mutual
  unfolding size after_first count

  size-count : (v : Json) (rest : Tokens) → suc (count (after_first v rest)) ≡ size v + count rest
  size-count atom rest = omega arith
  size-count (text s) rest = omega arith
  size-count (array xs) rest = omega (arith, size_items-count xs rest)
  size-count (object fs) rest = omega (arith, size_fields-count fs rest)

  size_items-count :
      (xs : Items) (rest : Tokens) → count (items_tokens xs rest) ≡ size_items xs + count rest
  size_items-count nil rest = omega arith
  size_items-count (cons v xs) rest =
      omega (arith, size-count v (items_tokens xs rest), size_items-count xs rest)

  size_fields-count :
      (fs : Fields) (rest : Tokens) → count (fields_tokens fs rest) ≡ size_fields fs + count rest
  size_fields-count end rest = omega arith
  size_fields-count (field k v fs) rest =
      omega (arith, size-count v (fields_tokens fs rest), size_fields-count fs rest)

size-pos : (v : Json) → 0 < size v
unfolding size
size-pos atom = omega arith
size-pos (text s) = omega arith
size-pos (array xs) = omega arith
size-pos (object fs) = omega arith

size_items-pos : (xs : Items) → 0 < size_items xs
unfolding size_items
size_items-pos nil = omega arith
size_items-pos (cons v xs) = omega (arith, size-pos v)

-- No field has a key that was seen before.
fresh : List Text → Fields → Bool
fresh seen end = true
fresh seen (field k v fs) = not (seen_before k seen) && fresh seen fs

fresh-cons :
    (k : Text) (seen : List Text) (fs : Fields)
    → fresh (k ∷ seen) fs ≡ (not (has_key k fs) && fresh seen fs)
unfolding fresh has_key seen_before
fresh-cons k seen end = refl
fresh-cons k seen (field j v fs) = ground (arith, fresh-cons k seen fs)

fresh-nil : (fs : Fields) → fresh [] fs ≡ true
unfolding fresh seen_before
fresh-nil end = refl
fresh-nil (field k v fs) = fresh-nil fs

abbrev verdict : Bool → Tokens → Outcome
verdict b rest = if b then done rest else duplicate

verdict-then :
    (o : Outcome) (a b : Bool) (mid rest : Tokens) (k : Tokens → Outcome)
    → o ≡ verdict a mid
    → k mid ≡ verdict b rest
    → and_then o k ≡ verdict (a && b) rest
verdict-then o true b mid rest k e f = rw e f
verdict-then o false b mid rest k e f = rw e

&&-true : (b : Bool) → (b && true) ≡ b
&&-true true = refl
&&-true false = refl

walk_items-step :
    (f : ℕ) (v : Json) (ts : Tokens)
    → walk_items (suc f) (token (first_of_value v) ts)
      ≡ and_then (walk_value f (first_of_value v) ts) (walk_items f)
unfolding walk_items
walk_items-step f atom ts = refl
walk_items-step f (text s) ts = refl
walk_items-step f (array xs) ts = refl
walk_items-step f (object fs) ts = refl

-- A field's key is new to its object, or it is a duplicate.
field_verdict :
    (seen_here : Bool) (has a b r : Bool) (o : Outcome) (rest : Tokens)
    → o ≡ verdict (a && (b && (not has && r))) rest
    → (if seen_here then duplicate else o)
      ≡ verdict ((not has && (a && b)) && (not seen_here && r)) rest
field_verdict true has a b r o rest e = ground arith
field_verdict false has a b r o rest e = e ∙ ground arith

and_then-verdict :
    (b : Bool) (rest : Tokens) (k : Tokens → Outcome)
    → and_then (verdict b rest) k ≡ (if b then k rest else duplicate)
and_then-verdict true rest k = refl
and_then-verdict false rest k = refl

mutual
  unfolding walk_value after_first unique size fresh

  walk_value-verdict :
      (f : ℕ) (v : Json) (rest : Tokens)
      → size v ≤ f
      → walk_value f (first_of_value v) (after_first v rest) ≡ verdict (unique v) rest
  walk_value-verdict zero v rest h = absurd (omega (arith, size-pos v))
  walk_value-verdict (suc f) atom rest h = refl
  walk_value-verdict (suc f) (text s) rest h = refl
  walk_value-verdict (suc f) (array xs) rest h = walk_items-verdict f xs rest (omega arith)
  walk_value-verdict (suc f) (object fs) rest h =
      walk_fields-verdict f [] fs rest (omega arith) ∙ rw (fresh-nil fs, &&-true)

  walk_items-verdict :
      (f : ℕ) (xs : Items) (rest : Tokens)
      → size_items xs ≤ f
      → walk_items f (items_tokens xs rest) ≡ verdict (unique_items xs) rest
  walk_items-verdict zero nil rest h = absurd (omega arith)
  walk_items-verdict (suc f) nil rest h = refl
  walk_items-verdict zero (cons v xs) rest h = absurd (omega (arith, size-pos v))
  walk_items-verdict (suc f) (cons v xs) rest h =
      walk_items-step f v (after_first v (items_tokens xs rest))
      ∙ verdict-then (walk_value f (first_of_value v) (after_first v (items_tokens xs rest)))
          (unique v) (unique_items xs) (items_tokens xs rest) rest (walk_items f)
          (walk_value-verdict f v (items_tokens xs rest) (omega (arith, size_items-pos xs)))
          (walk_items-verdict f xs rest (omega (arith, size-pos v)))

  walk_fields-verdict :
      (f : ℕ) (seen : List Text) (fs : Fields) (rest : Tokens)
      → size_fields fs ≤ f
      → walk_fields f seen (fields_tokens fs rest)
        ≡ verdict (unique_fields fs && fresh seen fs) rest
  walk_fields-verdict zero seen end rest h = absurd (omega arith)
  walk_fields-verdict (suc f) seen end rest h = refl
  walk_fields-verdict zero seen (field k v fs) rest h = absurd (omega arith)
  walk_fields-verdict (suc f) seen (field k v fs) rest h =
      field_verdict (seen_before k seen) (has_key k fs) (unique v) (unique_fields fs)
        (fresh seen fs) _ rest
        (verdict-then (walk_value f (first_of_value v) (after_first v (fields_tokens fs rest)))
          (unique v) (unique_fields fs && (not (has_key k fs) && fresh seen fs))
          (fields_tokens fs rest) rest (walk_fields f (k ∷ seen))
          (walk_value-verdict f v (fields_tokens fs rest) (omega arith))
          (walk_fields-verdict f (k ∷ seen) fs rest (omega arith) ∙ rw (fresh-cons k seen fs)))

-- On the tokens of any JSON value the walk ends within its fuel, the number of tokens: it finds a
-- duplicate exactly where an object in the value has a key twice, and otherwise accepts exactly
-- where the text ends after the value.
pub reject_duplicate_json_keys-unique :
    (v : Json) (rest : Tokens)
    → reject_duplicate_json_keys (token (first_of_value v) (after_first v rest))
      ≡ (if unique v then at_end rest else duplicate)
unfolding reject_duplicate_json_keys
reject_duplicate_json_keys-unique v rest =
    rw
      (walk_value-verdict (suc (count (after_first v rest))) v rest
        (omega (arith, size-count v rest)))
      (and_then-verdict (unique v) rest at_end)
