-- ===== src/Sqlscan/Scan/Marks.antt =====
-- internal/sqlscan/sqlscan.go: the bytes outside the regions of a scan that satisfy a test.
use rasql.Prelude.{
  ℕ, zero, suc, ◌+◌, ◌≤◌, ◌<◌, ◌≡◌, refl, ap, ◌∙◌, Bool, true, false, not, ◌&&◌, ◌||◌, List, [],
  ◌∷◌, ltb, leb, ◌==◌, if◌then◌else◌, drop, Bytes, arith, Bool-cases, inl, inr,
}
use rasql.Sqlscan.Lexemes.{digits, is_digit}
use rasql.Sqlscan.Scan.{
  Span, PlaceholderKind, question, dollar, Placeholder, Piece, region, parameter, semicolon, plain,
  passed,
}
use rasql.Sqlscan.Scan.Pieces.{Fits}
use rasql.Sqlscan.Scan.Rounds.{Ordered}

abbrev pub covered : List Span → ℕ → Bool
covered [] i = false
covered (s ∷ ss) i = (leb s.start i && ltb i s.end) || covered ss i

-- The offsets, from `i` on, outside the regions, at which a test of a byte and of those behind it
-- holds.
abbrev pub positions : (ℕ → Bytes → Bool) → List Span → ℕ → Bytes → List ℕ
positions test ss i [] = []
positions test ss i (c ∷ cs) =
    let rest = positions test ss (i + 1) cs in
    if not (covered ss i) && test c cs then i ∷ rest else rest

abbrev pub semicolon_at : ℕ → Bytes → Bool
semicolon_at c cs = c == b';'

abbrev pub question_at : ℕ → Bytes → Bool
question_at c cs = c == b'?'

-- `$` and a digit.
abbrev pub dollar_at : ℕ → Bytes → Bool
dollar_at c cs = c == b'$' && not (digits cs == 0)

abbrev pub is_kind : PlaceholderKind → PlaceholderKind → Bool
is_kind question question = true
is_kind dollar dollar = true
is_kind _ _ = false

-- The offsets of the placeholders of one kind.
abbrev pub starts_of : PlaceholderKind → List Placeholder → List ℕ
starts_of kind [] = []
starts_of kind (p ∷ ps) =
    let rest = starts_of kind ps in if is_kind kind p.kind then p.start ∷ rest else rest

abbrev pub is_region : Piece → Bool
is_region (region n) = true
is_region (parameter n k x bad) = false
is_region semicolon = false
is_region plain = false

-- Before an offset that no region is behind, nothing is covered.
pub uncovered : (i lo hi : ℕ) (ss : List Span) → i < lo → Ordered lo hi ss → covered ss i ≡ false
uncovered i lo hi [] h o = refl
uncovered i lo hi (s ∷ ss) h (a, b, c, o) =
    let later = uncovered i s.end hi ss (omega arith) o in
    let before : leb s.start i ≡ false = ground arith in rw (before, later) refl

module _ (test : ℕ → Bytes → Bool) where
  skip_covered :
      (ss : List Span) (i c : ℕ) (cs : Bytes)
      → covered ss i ≡ true
      → positions test ss i (c ∷ cs) ≡ positions test ss (i + 1) cs
  skip_covered ss i c cs h = rw h refl

  skip_other :
      (ss : List Span) (i c : ℕ) (cs : Bytes)
      → test c cs ≡ false
      → positions test ss i (c ∷ cs) ≡ positions test ss (i + 1) cs
  skip_other ss i c cs h = ground arith

  pub offset :
      (ss : List Span) (i j : ℕ) (t : Bytes) → i ≡ j → positions test ss i t ≡ positions test ss j t
  offset ss i j t e = ap (λ k. positions test ss k t) e

  -- Behind a region it covers nothing.
  behind :
      (s : Span) (ss : List Span) (i : ℕ) (t : Bytes)
      → s.end ≤ i
      → positions test (s ∷ ss) i t ≡ positions test ss i t
  behind s ss i [] h = refl
  behind s ss i (c ∷ cs) h =
      let rest = behind s ss (i + 1) cs (omega arith) in
      let e : ltb i s.end ≡ false = ground arith in ground arith

  -- Inside a region there is nothing to find.
  pub inside :
      (s : Span) (ss : List Span) (n i : ℕ) (t : Bytes)
      → s.start ≤ i
      → i + n ≡ s.end
      → positions test (s ∷ ss) i t ≡ positions test ss (i + n) (drop n t)
  inside s ss zero i t h e = behind s ss i t (omega arith) ∙ offset ss i (i + 0) t (omega arith)
  inside s ss (suc n) i [] h e = refl
  inside s ss (suc n) i (c ∷ cs) h e =
      let rest = inside s ss n (i + 1) cs (omega arith) (omega arith) in
      let le : leb s.start i ≡ true = ground arith in
      let lt : ltb i s.end ≡ true = ground arith in
      let here : covered (s ∷ ss) i ≡ true = rw (le, lt) refl in
      skip_covered (s ∷ ss) i c cs here
      ∙ rest
      ∙ offset ss (i + 1 + n) (i + suc n) (drop n cs) (omega arith)

  module _ (quiet : (d : ℕ) (ds : Bytes) → is_digit d ≡ true → test d ds ≡ false) where
    -- Among digits there is nothing to find either.
    among_digits :
        (ss : List Span) (i : ℕ) (t : Bytes)
        → positions test ss i t ≡ positions test ss (i + digits t) (drop (digits t) t)
    unfolding digits
    among_digits ss i [] = refl
    among_digits ss i (c ∷ cs) = elim (Bool-cases (is_digit c)) [
      | inl e ↦
          rw (e, digits)
            (skip_other ss i c cs (quiet c cs e)
              ∙ among_digits ss (i + 1) cs
              ∙ offset ss (i + 1 + digits cs) (i + suc (digits cs)) _ (omega arith))
      | inr e ↦ rw (e, digits) (offset ss i (i + 0) (c ∷ cs) (omega arith))
    ]

    -- So behind a piece that is no region the search goes on where the loop does.
    pub behind_piece :
        (ss : List Span) (i c : ℕ) (cs : Bytes) (p : Piece)
        → is_region p ≡ false
        → Fits c cs p
        → positions test ss i cs ≡ positions test ss (i + passed p) (drop (passed p) cs)
    unfolding passed
    behind_piece ss i c cs (region n) h fits = absurd cc
    behind_piece ss i c cs (parameter n question x bad) h (none, at) =
        rw none (offset ss i (i + 0) cs (omega arith))
    behind_piece ss i c cs (parameter n dollar x bad) h (all, some, at) =
        rw all (among_digits ss i cs)
    behind_piece ss i c cs semicolon h fits = offset ss i (i + 0) cs (omega arith)
    behind_piece ss i c cs plain h fits = offset ss i (i + 0) cs (omega arith)
