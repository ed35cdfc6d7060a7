-- ===== src/Sqlscan/Select/Accepts.antt =====
-- internal/sqlscan/sqlscan.go: what `ValidateSelect` accepts.
use rasql.Prelude.{◌≡◌, refl, ◌∙◌, false, [], length, ltb, Bytes, ok}
use rasql.Sqlscan.Lexemes.{Rules}
use rasql.Sqlscan.Scan.{scan, Scanned}
use rasql.Sqlscan.Scan.Marks.{positions, semicolon_at}
use rasql.Sqlscan.Scan.Outside.{scan-Outside}
use rasql.Sqlscan.Words.{executable_tokens}
use rasql.Sqlscan.Select.{validate_select}
use rasql.Sqlscan.Select.Grammar.{body, Derives, select_tokens_iff}

module _ (unicode_upper : Bytes → Bytes) (rules : Rules) (sql : Bytes) where
  -- The scan succeeds, no semicolon stands outside the protected regions, and the tokens outside
  -- them begin with `SELECT`, or are a `WITH` all of whose bodies are of this form.
  abbrev pub IsSelect : Type 0
  IsSelect =
      (r : Scanned) × (scan rules sql ≡ ok r)
      × (positions semicolon_at r.protected 0 sql ≡ [])
      × Derives body (executable_tokens unicode_upper r.protected sql)

  accepts : IsSelect → validate_select unicode_upper rules sql ≡ ok tt
  unfolding validate_select
  accepts (r, f, none, d) =
      let clear : r.semicolons ≡ [] = (scan-Outside rules sql r f).0 ∙ none in
      let few : ltb 0 (length r.semicolons) ≡ false = rw clear refl in
      rw (f, few, (select_tokens_iff _).1 d, validate_select) refl
