-- ===== src/Shell/Words/Laws.antt =====
-- What `shellWords` (apps/server/src/shell-parse.ts) reads from words that are written in single quotes.
use mathlib.Core.List.{append-nil, append_assoc}
use code_jam.Prelude.{
  ◌==◌, any, All, Text, codes, is_white, is_empty, join, ◌≡◌, refl, sym, ap, ◌∙◌, false, none, some,
  List, [], ◌∷◌, ◌++◌, map, arith,
}
use code_jam.Shell.Quoting.{single_quote}
use code_jam.Shell.Words.{words_from, shell_words, flush}

-- A word as a careful caller writes it.
unfoldable pub quoted : Text → Text
quoted w = single_quote ∷ (w ++ single_quote ∷ [])

-- A word that single quotes can hold.
abbrev pub IsQuotable : Text → Type 0
IsQuotable w = (is_empty w ≡ false) × (any (λ c. c == single_quote) w ≡ false)

-- Inside single quotes every code unit is read as it stands.
words_from-quoted :
    (w cur rest : Text)
    → any (λ c. c == single_quote) w ≡ false
    → words_from (some single_quote) false cur (w ++ single_quote ∷ rest)
      ≡ words_from none false (cur ++ w) rest
unfolding words_from
words_from-quoted [] cur rest h = refl
words_from-quoted (c ∷ w) cur rest h =
    let longer : words_from (some single_quote) false (cur ++ c ∷ []) (w ++ single_quote ∷ rest)
        ≡ words_from none false (cur ++ c ∷ w) rest =
      words_from-quoted w (cur ++ c ∷ []) rest (ground arith)
      ∙ ap (λ t. words_from none false t rest) (append_assoc cur (c ∷ []) w) in
    ground (arith, longer)

-- A quoted word, and what follows it.
words_from-word :
    (w rest : Text)
    → IsQuotable w
    → words_from none false [] (quoted w ++ rest) ≡ words_from none false w rest
unfolding words_from quoted
words_from-word w rest (_, h) =
    ap (λ t. words_from (some single_quote) false [] t) (append_assoc w (single_quote ∷ []) rest)
    ∙ words_from-quoted w [] rest h

flush-word : (w : Text) (ws : List Text) → is_empty w ≡ false → flush w ws ≡ w ∷ ws
flush-word w ws h = rw h

-- The line that the words make.
abbrev pub quoted_line : List Text → Text
quoted_line ws = join (codes " ") (map quoted ws)

shell_words-line :
    (w v : Text) (ws : List Text)
    → IsQuotable w
    → shell_words (quoted_line (w ∷ v ∷ ws)) ≡ w ∷ shell_words (quoted_line (v ∷ ws))
shell_words-line w v ws q =
    let line = quoted_line (v ∷ ws) in
    let opened : quoted_line (w ∷ v ∷ ws) ≡ quoted w ++ (codes " " ++ line) = unfold join in refl in
    let space : words_from none false w (codes " " ++ line) ≡ flush w (shell_words line) =
      unfold words_from codes is_white in refl in
    ap (λ t. words_from none false [] t) opened
    ∙ words_from-word w (codes " " ++ line) q
    ∙ space
    ∙ flush-word w (shell_words line) q.0

shell_words-last : (w : Text) → IsQuotable w → shell_words (quoted_line (w ∷ [])) ≡ w ∷ []
shell_words-last w q =
    let opened : quoted_line (w ∷ []) ≡ quoted w = unfold join in refl in
    let closed : words_from none false w [] ≡ flush w [] = unfold words_from in refl in
    ap (λ t. words_from none false [] t) (opened ∙ sym (append-nil (quoted w)))
    ∙ words_from-word w [] q
    ∙ closed
    ∙ flush-word w [] q.0

-- Words that are not empty and hold no single quote, each written in single quotes and set apart by
-- spaces, are read back exactly, whatever else their code units are.
pub shell_words-quoted_line :
    (ws : List Text) → All IsQuotable ws → shell_words (quoted_line ws) ≡ ws
shell_words-quoted_line [] h = unfold words_from join in refl
shell_words-quoted_line (w ∷ []) (q, _) = shell_words-last w q
shell_words-quoted_line (w ∷ v ∷ ws) (q, qs) =
    shell_words-line w v ws q ∙ ap (◌∷◌ w) (shell_words-quoted_line (v ∷ ws) qs)
