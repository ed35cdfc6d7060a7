-- ===== src/Sqlscan/Tests.antt =====
-- internal/sqlscan: runs of the model, and the theorems at concrete texts.
use rasql.Prelude.{◌≡◌, refl, ◌↔◌, true, false, List, [], ◌∷◌, Bytes, codes, equal, ok, err, length}
use rasql.Sqlscan.Lexemes.{legacy, mysql, postgresql}
use rasql.Sqlscan.Scan.{question, dollar, Scanned, unterminated_block, scan}
use rasql.Sqlscan.Scan.Rounds.{Ordered, scan-Ordered}
use rasql.Sqlscan.Scan.Marks.{positions, semicolon_at, question_at, dollar_at, starts_of}
use rasql.Sqlscan.Scan.Outside.{scan-Outside}
use rasql.Sqlscan.Words.{
  Token, token, token_word, token_open, token_close, first_keyword, executable_words,
}
use rasql.Sqlscan.Select.{select_tokens, validate_select, not_select, executable_semicolon}
use rasql.Sqlscan.Select.Grammar.{body, Derives, select_tokens_iff}

-- A text whose runes above ASCII stay as they are.
abbrev same : Bytes → Bytes
same s = s

abbrev quoted_text : Bytes
quoted_text = codes "a=';?', $7 $b$ ; $b$;? -- ?"

abbrev quoted_scan : Scanned
quoted_scan = record {
  protected =
      record { start = 2; end = 6 }
      ∷ record { start = 11; end = 20 }
      ∷ record { start = 23; end = 27 }
      ∷ [];
  placeholders =
      record { start = 8; end = 10; kind = dollar; number = 7; invalid = false }
      ∷ record { start = 21; end = 22; kind = question; number = 0; invalid = false }
      ∷ [];
  semicolons = 20 ∷ [];
}

quoted_test : scan postgresql quoted_text ≡ ok quoted_scan
unfolding scan
quoted_test = refl

scan-Ordered_example : Ordered 0 (length quoted_text) quoted_scan.protected
scan-Ordered_example = scan-Ordered postgresql quoted_text quoted_scan quoted_test

scan-Outside_example :
    (quoted_scan.semicolons ≡ positions semicolon_at quoted_scan.protected 0 quoted_text)
    × (starts_of question quoted_scan.placeholders
        ≡ positions question_at quoted_scan.protected 0 quoted_text)
    × (starts_of dollar quoted_scan.placeholders
        ≡ positions dollar_at quoted_scan.protected 0 quoted_text)
scan-Outside_example = scan-Outside postgresql quoted_text quoted_scan quoted_test

-- Comments nest.
nested_test : scan legacy (codes "/* /* */") ≡ err unterminated_block
unfolding scan
nested_test = refl

-- An escaped quote closes nothing on MySQL.
escape_test : validate_select same mysql (codes "select 'a\\';' from t") ≡ ok tt
unfolding validate_select equal
escape_test = refl

semicolon_test :
    validate_select same postgresql (codes "select 'a\\'; from t") ≡ err executable_semicolon
unfolding validate_select equal
semicolon_test = refl

modifying_test :
    validate_select same postgresql (codes "with a as (delete from t) select 1") ≡ err not_select
unfolding validate_select equal
modifying_test = refl

keyword_test : first_keyword same [] (codes " update t") ≡ codes "UPDATE"
unfolding first_keyword
keyword_test = refl

words_test :
    executable_words same [] (codes "a (b1)")
    ≡ record { text = codes "A"; depth = 0 } ∷ record { text = codes "B1"; depth = 1 } ∷ []
unfolding executable_words
words_test = refl

abbrev with_text : Bytes
with_text =
    codes
      "with a (x) as not materialized (select 1), b as (with c as (select 2) select 3) select * from a"

with_test : validate_select same postgresql with_text ≡ ok tt
unfolding validate_select equal
with_test = refl

abbrev with_tokens : List Token
with_tokens =
    token token_word (codes "WITH")
    ∷ token token_word (codes "A")
    ∷ token token_word (codes "AS")
    ∷ token token_open (codes "(")
    ∷ token token_word (codes "SELECT")
    ∷ token token_close (codes ")")
    ∷ token token_word (codes "SELECT")
    ∷ []

select_tokens_iff_example : (select_tokens with_tokens ≡ true) ↔ Derives body with_tokens
select_tokens_iff_example = select_tokens_iff with_tokens
