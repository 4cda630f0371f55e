-- ===== src/Shell/Quoting.antt =====
-- The state of the quoting scanners in `splitSubstitutions`, `commandSegments` and `shellWords`
-- (apps/server/src/shell-parse.ts).
use code_jam.Prelude.{
  ◌==◌, if◌then◌else◌, ℕ, Bool, true, false, not, ◌&&◌, ◌||◌, Option, none, some,
}

abbrev pub single_quote : ℕ
single_quote = 39

abbrev pub backslash : ℕ
backslash = 92

-- The quotation that is open, if any.
abbrev pub Quote : Type 0
Quote = Option ℕ

abbrev pub is_quote : ℕ → Bool
is_quote c = c == single_quote || c == b'"'

abbrev pub is_unquoted : Quote → Bool
is_unquoted none = true
is_unquoted (some _) = false

abbrev pub is_single : Quote → Bool
is_single none = false
is_single (some d) = d == single_quote

-- `char === "\\" && quote !== "'"`
abbrev pub starts_escape : Quote → ℕ → Bool
starts_escape q c = c == backslash && not (is_single q)

-- `if (quote === char) quote = null; else if (!quote) quote = char;`
abbrev pub toggle : Quote → ℕ → Quote
toggle none c = some c
toggle (some d) c = if d == c then none else some d

-- The quotation after a code unit that was not escaped.
abbrev pub next_quote : Quote → ℕ → Quote
next_quote q c = if starts_escape q c then q else if is_quote c then toggle q c else q
