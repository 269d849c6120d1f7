-- ===== src/Policy/Engine/Matching.antt =====
-- Which rules a request needs, and what a file root and a removal may do.
use wanctl.Prelude.{
  ℕ, zero, suc, ◌≡◌, refl, sym, ap, ◌∙◌, ◌⊎◌, inl, inr, Bool, true, ◌&&◌, ◌||◌, some, List, [], ◌∷◌,
  ◌++◌, arith, ltb, length, take, drop, any, ℤ, pos, negsuc, Bool-cases, is_some, subst, false≢true,
}
use mathlib.Core.List.{Memᴰ}
use wanctl.Bytes.{Text}
use wanctl.Bytes.Laws.{text_eq_iff}
use wanctl.Policy.{
  Kind, exec, read, write, logs, exec_elevated, other_kind, kind_eq, Request, Rule, Parser,
}
use wanctl.Policy.Paths.{within}
use wanctl.Policy.Engine.{
  Engine, Disk, matches_kind, rule_matches, allowed, first_match, allowed_file_root, remove,
}

pub kind_eq→eq : (a b : Kind) → kind_eq a b ≡ true → a ≡ b
unfolding kind_eq
kind_eq→eq exec b h = ground arith
kind_eq→eq read b h = ground arith
kind_eq→eq write b h = ground arith
kind_eq→eq logs b h = ground arith
kind_eq→eq exec_elevated b h = ground arith
kind_eq→eq (other_kind s) (other_kind t) h = ap other_kind ((text_eq_iff s t).0 h)
kind_eq→eq (other_kind s) exec h = cc
kind_eq→eq (other_kind s) read h = cc
kind_eq→eq (other_kind s) write h = cc
kind_eq→eq (other_kind s) logs h = cc
kind_eq→eq (other_kind s) exec_elevated h = cc

-- The kinds of rule that can let a request of a kind through.
pub data Grants : Kind → Kind → Type 0 where
  same_exec : Grants exec exec
  same_elevated : Grants exec_elevated exec_elevated
  read_reads : Grants read read
  write_reads : Grants write read
  same_write : Grants write write
  same_logs : Grants logs logs

abbrev pub is_file : Kind → Bool
is_file k = kind_eq k read || kind_eq k write

is_file-cases : (k : Kind) → is_file k ≡ true → k ≡ read ⊎ k ≡ write
is_file-cases k h = elim (Bool-cases (kind_eq k read)) [
  | inl q ↦ inl (kind_eq→eq k read q)
  | inr q ↦ inr (kind_eq→eq k write (ground arith))
]

-- `Allowed` finds a rule where it says yes, and says yes where there is one.
any-witness {ℓ} :
    {A : Type ℓ} (p : A → Bool) (xs : List A) → any p xs ≡ true → (x : A) × Memᴰ x xs × (p x ≡ true)
unfolding any
any-witness p [] h = absurd (false≢true h)
any-witness p (x ∷ xs) h = elim (Bool-cases (p x)) [
  | inl e ↦ (x, Memᴰ.head refl, e)
  | inr e ↦ let (y, m, q) = any-witness p xs (rw e at h) in (y, Memᴰ.tail m, q)
]

any-append {ℓ} :
    {A : Type ℓ} (p : A → Bool) (xs ys : List A) → any p (xs ++ ys) ≡ (any p xs || any p ys)
unfolding any
any-append p [] ys = refl
any-append p (x ∷ xs) ys = ground (arith, any-append p xs ys)

any-without {ℓ} :
    {A : Type ℓ} (p : A → Bool) (i : ℕ) (xs : List A)
    → any p (take i xs ++ drop (suc i) xs) ≡ true
    → any p xs ≡ true
unfolding any
any-without p zero [] h = h
any-without p (suc i) [] h = h
any-without p zero (x ∷ xs) h = ground arith
any-without p (suc i) (x ∷ xs) h = ground (arith, any-without p i xs)

module _ (sha256 : Text → Text) (parse : Parser) where
  matches_kind-Grants :
      (k : Kind) (r : Rule) (req : Request) (ps : Bool)
      → req.kind ≡ k
      → matches_kind sha256 parse k r req ps ≡ true
      → Grants r.kind k
  unfolding matches_kind
  matches_kind-Grants exec r req ps e h =
      subst (λ x. Grants x exec) (sym (kind_eq→eq r.kind req.kind (ground arith) ∙ e)) same_exec
  matches_kind-Grants exec_elevated r req ps e h =
      subst (λ x. Grants x exec_elevated) (sym (kind_eq→eq r.kind req.kind (ground arith) ∙ e))
        same_elevated
  matches_kind-Grants read r req ps e h = elim (Bool-cases (kind_eq r.kind read)) [
    | inl q ↦ subst (λ x. Grants x read) (sym (kind_eq→eq r.kind read q)) read_reads
    | inr q ↦ subst (λ x. Grants x read) (sym (kind_eq→eq r.kind write (ground arith))) write_reads
  ]
  matches_kind-Grants write r req ps e h =
      subst (λ x. Grants x write) (sym (kind_eq→eq r.kind write (ground arith))) same_write
  matches_kind-Grants logs r req ps e h =
      subst (λ x. Grants x logs) (sym (kind_eq→eq r.kind logs (ground arith))) same_logs
  matches_kind-Grants (other_kind t) r req ps e h = absurd (false≢true h)

  -- A request that is allowed is matched by a rule of the engine whose kind may let requests of
  -- its kind through: only its own kind, but for a read, which a write rule also lets through. An
  -- exec rule never lets an elevated command through.
  pub allowed-Grants :
      (e : Engine) (req : Request)
      → allowed sha256 parse e req ≡ true
      → (r : Rule) × Memᴰ r e.rules
        × (rule_matches sha256 parse r req e.ps_shell ≡ true)
        × Grants r.kind req.kind
  allowed-Grants e req h =
      let (r, m, q) =
        any-witness (λ r. rule_matches sha256 parse r req e.ps_shell) e.rules
          (unfold allowed in h) in
      (r, m, q, matches_kind-Grants req.kind r req e.ps_shell refl (unfold rule_matches in q))

  -- Removing a rule, at any index, allows no request that was not allowed before.
  pub allowed-remove :
      (e : Engine) (i : ℤ) (written : Bool) (d : Disk) (req : Request)
      → allowed sha256 parse (remove e i written d).0 req ≡ true
      → allowed sha256 parse e req ≡ true
  unfolding remove allowed
  allowed-remove e (negsuc n) written d req h = h
  allowed-remove e (pos i) written d req h = elim (Bool-cases (ltb i (length e.rules))) [
    | inl q ↦
        any-without (λ r. rule_matches sha256 parse r req e.ps_shell) i e.rules
          (rw (q, remove) at h)
    | inr q ↦ rw (q, remove) at h
  ]

  first_match-root :
      (rs : List Rule) (req : Request) (ps : Bool)
      → req.kind ≡ read ⊎ req.kind ≡ write
      → (root : Text) → first_match sha256 parse rs req ps ≡ some root
      → within root req.path ≡ true
  unfolding first_match
  first_match-root [] req ps k root h = cc
  first_match-root (r ∷ rs) req ps k root h = ground (arith, first_match-root rs req ps k root)

  is_some-first_match :
      (rs : List Rule) (req : Request) (ps : Bool)
      → is_some (first_match sha256 parse rs req ps)
        ≡ any (λ r. rule_matches sha256 parse r req ps) rs
  unfolding first_match any
  is_some-first_match [] req ps = refl
  is_some-first_match (r ∷ rs) req ps = elim (Bool-cases (rule_matches sha256 parse r req ps)) [
    | inl q ↦ rw q
    | inr q ↦ rw q (is_some-first_match rs req ps)
  ]

  -- The engine reports a file root exactly for the reads and writes that it allows.
  pub allowed_file_root-eq-allowed :
      (e : Engine) (req : Request)
      → is_some (allowed_file_root sha256 parse e req)
        ≡ (is_file req.kind && allowed sha256 parse e req)
  unfolding allowed_file_root allowed
  allowed_file_root-eq-allowed e req = ground (arith, is_some-first_match e.rules req e.ps_shell)

  -- The file root that the engine reports covers the path of the request.
  pub allowed_file_root-within :
      (e : Engine) (req : Request) (root : Text)
      → allowed_file_root sha256 parse e req ≡ some root
      → within root req.path ≡ true
  allowed_file_root-within e req root h = elim (Bool-cases (is_file req.kind)) [
    | inl f ↦
        first_match-root e.rules req e.ps_shell (is_file-cases req.kind f) root
          (unfold allowed_file_root in ground arith)
    | inr f ↦ absurd (false≢true (unfold allowed_file_root in ground arith))
  ]
