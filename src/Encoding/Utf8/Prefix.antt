-- ===== src/Encoding/Utf8/Prefix.antt =====
-- What decoding reads of a text: a whole character reads nothing after it.
use wanctl.Prelude.{
  ◌&&◌, leb, ◌==◌, ◌<◌, false, length, ◌≤◌, true, refl, arith, ◌∷◌, ◌++◌, ◌≡◌, [], ℕ,
}
use wanctl.Encoding.Utf8.{
  length, false, rune_error, rune_size, continues, second_fits, decode2, decode3, decode4,
  decode_rune, rune_start, second_breaks, full_rune,
}
use wanctl.Bytes.{Text}

pub decode_rune-append :
    (a : ℕ) (s x : Text) → full_rune (a ∷ s) ≡ true → decode_rune (a ∷ s ++ x) ≡ decode_rune (a ∷ s)
unfolding full_rune decode_rune rune_size decode2 decode3 decode4 second_breaks second_fits
    continues
decode_rune-append a [] [] h = refl
decode_rune-append a [] (x ∷ xs) h = ground arith
decode_rune-append a (b ∷ []) [] h = refl
decode_rune-append a (b ∷ []) (x ∷ []) h = ground arith
decode_rune-append a (b ∷ []) (x ∷ y ∷ xs) h = ground arith
decode_rune-append a (b ∷ c ∷ []) [] h = refl
decode_rune-append a (b ∷ c ∷ []) (x ∷ xs) h = ground arith
decode_rune-append a (b ∷ c ∷ d ∷ s) x h = refl

-- A character takes at least one byte, and no more than there are.
pub decode_rune-size :
    (a : ℕ) (s : Text) → (1 ≤ (decode_rune (a ∷ s)).1) × ((decode_rune (a ∷ s)).1 ≤ length (a ∷ s))
unfolding decode_rune decode2 decode3 decode4
decode_rune-size a [] = ground arith
decode_rune-size a (b ∷ []) = ground arith
decode_rune-size a (b ∷ c ∷ []) = ground arith
decode_rune-size a (b ∷ c ∷ d ∷ s) = ground arith

-- A text that stops within a character, before the start of another.
pub decode_rune-open :
    (a : ℕ) (s : Text) (b : ℕ) (x : Text)
    → full_rune (a ∷ s) ≡ false
    → rune_start b ≡ true
    → decode_rune (a ∷ s ++ b ∷ x) ≡ (rune_error, 1)
unfolding full_rune decode_rune rune_size decode2 decode3 decode4 second_breaks second_fits
    continues rune_start
decode_rune-open a [] b [] h e = ground arith
decode_rune-open a [] b (x ∷ []) h e = ground arith
decode_rune-open a [] b (x ∷ y ∷ xs) h e = ground arith
decode_rune-open a (c ∷ []) b [] h e = ground arith
decode_rune-open a (c ∷ []) b (x ∷ xs) h e = ground arith
decode_rune-open a (c ∷ d ∷ []) b x h e = ground arith
decode_rune-open a (c ∷ d ∷ k ∷ s) b x h e = ground arith

pub decode_rune-cut :
    (a : ℕ) (s : Text) → full_rune (a ∷ s) ≡ false → decode_rune (a ∷ s) ≡ (rune_error, 1)
unfolding full_rune decode_rune rune_size decode2 decode3 decode4 second_breaks second_fits
    continues
decode_rune-cut a [] h = ground arith
decode_rune-cut a (c ∷ []) h = ground arith
decode_rune-cut a (c ∷ d ∷ s) h = ground arith

-- A character that decodes has as many bytes as its first one says.
pub decode_rune-rune_size :
    (a : ℕ) (s : Text)
    → ((decode_rune (a ∷ s)).0 == rune_error && leb (decode_rune (a ∷ s)).1 1) ≡ false
    → (decode_rune (a ∷ s)).1 ≡ rune_size a
unfolding decode_rune decode2 decode3 decode4 rune_size
decode_rune-rune_size a [] h = ground arith
decode_rune-rune_size a (b ∷ []) h = ground arith
decode_rune-rune_size a (b ∷ c ∷ []) h = ground arith
decode_rune-rune_size a (b ∷ c ∷ d ∷ s) h = ground arith

pub full_rune-by_size : (a : ℕ) (s : Text) → rune_size a ≤ length (a ∷ s) → full_rune (a ∷ s) ≡ true
unfolding full_rune
full_rune-by_size a s h = ground arith

-- A byte below 0x80 is a character, and no other character is below 0x80.
pub decode_rune-ascii : (a : ℕ) (s : Text) → a < 0x80 → decode_rune (a ∷ s) ≡ (a, 1)
unfolding decode_rune
decode_rune-ascii a s h = ground arith

pub ascii-decode_rune :
    (a : ℕ) (s : Text)
    → (decode_rune (a ∷ s)).0 < 0x80
    → (a ≡ (decode_rune (a ∷ s)).0) × ((decode_rune (a ∷ s)).1 ≡ 1)
unfolding decode_rune decode2 decode3 decode4 rune_size second_fits
ascii-decode_rune a [] h = ground arith
ascii-decode_rune a (b ∷ []) h = ground arith
ascii-decode_rune a (b ∷ c ∷ []) h = ground arith
ascii-decode_rune a (b ∷ c ∷ d ∷ s) h = ground arith
