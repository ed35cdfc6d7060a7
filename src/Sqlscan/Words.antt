-- ===== src/Sqlscan/Words.antt =====
-- internal/sqlscan/sqlscan.go: `FirstKeyword`, `ExecutableWords` and `executableTokens`, which walk
-- over the text outside the regions of a scan. A parameter stands for the part of
-- `strings.ToUpper` that is not about ASCII.
use rasql.Prelude.{
  ℕ, zero, suc, ◌+◌, ◌-◌, Bool, true, false, not, ◌&&◌, ◌||◌, Option, none, some, List, [], ◌∷◌,
  ◌++◌, map, ltb, ◌==◌, if◌then◌else◌, take, Bytes,
}
use rasql.Unicode.{is_space, within}
use rasql.Sqlscan.Lexemes.{is_letter, is_word_byte}
use rasql.Sqlscan.Scan.{Span}

pub record Word : Type 0 where
  pub text : Bytes
  pub depth : ℕ

pub data TokenKind : Type 0 where
  token_word token_open token_close token_comma token_opaque : TokenKind

pub data Token : Type 0 where
  token : TokenKind → Bytes → Token

-- The map from the start of a region to its end: of two entries the later one stays.
unfoldable pub region_end : List Span → ℕ → Option ℕ
region_end [] i = none
region_end (s ∷ ss) i = elim (region_end ss i) [
  | some end ↦ some end
  | none ↦ if s.start == i then some s.end else none
]

-- The bytes of a word behind its first.
unfoldable pub word_length : Bytes → ℕ
unfolding is_word_byte
word_length [] = 0
word_length (c ∷ cs) = let rest = suc (word_length cs) in if is_word_byte c then rest else 0

unfoldable pub is_ascii : Bytes → Bool
is_ascii [] = true
is_ascii (c ∷ cs) = ltb c 0x80 && is_ascii cs

unfoldable pub ascii_upper : ℕ → ℕ
ascii_upper c = if within b'a' b'z' c then c - 32 else c

module _ (unicode_upper : Bytes → Bytes) where
  -- `strings.ToUpper`
  unfoldable pub to_upper : Bytes → Bytes
  unfolding is_ascii ascii_upper
  to_upper s = if is_ascii s then map ascii_upper s else unicode_upper s

  -- The word that begins at a byte.
  abbrev pub word_at : ℕ → Bytes → Bytes
  word_at c cs = to_upper (c ∷ take (word_length cs) cs)

  -- The loop of `FirstKeyword` at offset `i`, with `skip` bytes still to pass.
  unfoldable pub first_keyword_from : List Span → ℕ → ℕ → Bytes → Bytes
  unfolding region_end is_space is_letter word_length to_upper
  first_keyword_from spans i skip [] = []
  first_keyword_from spans i (suc skip) (c ∷ cs) = first_keyword_from spans (i + 1) skip cs
  first_keyword_from spans i zero (c ∷ cs) = elim (region_end spans i) [
    | some end ↦ first_keyword_from spans (i + 1) (end - (i + 1)) cs
    | none ↦ elim (is_space c) [
      | true ↦ first_keyword_from spans (i + 1) 0 cs
      | false ↦ if not (is_letter c) then [] else word_at c cs
    ]
  ]

  unfoldable pub first_keyword : List Span → Bytes → Bytes
  unfolding first_keyword_from
  first_keyword spans sql = first_keyword_from spans 0 0 sql

  -- A round of the loop of `ExecutableWords`: the bytes to pass behind this one, the depth then, and
  -- the word that was found.
  unfoldable pub words_round : Option ℕ → ℕ → ℕ → ℕ → Bytes → ℕ × ℕ × List Word
  unfolding is_letter word_length to_upper
  words_round (some end) i depth c cs = (end - (i + 1), depth, [])
  words_round none i depth c cs =
      if c == b'('
      then (0, depth + 1, [])
      else if c == b')'
      then (0, depth - 1, [])
      else if is_letter c
      then (word_length cs, depth, record { text = word_at c cs; depth = depth } ∷ [])
      else (0, depth, [])

  unfoldable pub words_from : List Span → ℕ → ℕ → ℕ → Bytes → List Word
  unfolding region_end words_round
  words_from spans i depth skip [] = []
  words_from spans i depth (suc skip) (c ∷ cs) = words_from spans (i + 1) depth skip cs
  words_from spans i depth zero (c ∷ cs) =
      let (skip, depth', found) = words_round (region_end spans i) i depth c cs in
      found ++ words_from spans (i + 1) depth' skip cs

  unfoldable pub executable_words : List Span → Bytes → List Word
  unfolding words_from
  executable_words spans sql = words_from spans 0 0 0 sql

  -- A round of the loop of `executableTokens`.
  unfoldable pub tokens_round : Option ℕ → ℕ → ℕ → Bytes → ℕ × List Token
  unfolding is_letter word_length to_upper
  tokens_round (some end) i c cs =
      let skip = end - (i + 1) in
      if not (c == b'-') && not (c == b'#') && not (c == b'/')
      then (skip, token token_opaque (c ∷ take skip cs) ∷ [])
      else (skip, [])
  tokens_round none i c cs =
      if c == b'('
      then (0, token token_open (c ∷ []) ∷ [])
      else if c == b')'
      then (0, token token_close (c ∷ []) ∷ [])
      else if c == b','
      then (0, token token_comma (c ∷ []) ∷ [])
      else if is_letter c || c == b'_'
      then (word_length cs, token token_word (word_at c cs) ∷ [])
      else (0, [])

  unfoldable pub tokens_from : List Span → ℕ → ℕ → Bytes → List Token
  unfolding region_end tokens_round
  tokens_from spans i skip [] = []
  tokens_from spans i (suc skip) (c ∷ cs) = tokens_from spans (i + 1) skip cs
  tokens_from spans i zero (c ∷ cs) =
      let (skip, found) = tokens_round (region_end spans i) i c cs in
      found ++ tokens_from spans (i + 1) skip cs

  unfoldable pub executable_tokens : List Span → Bytes → List Token
  unfolding tokens_from
  executable_tokens spans sql = tokens_from spans 0 0 sql
