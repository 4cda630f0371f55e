-- ===== src/Shell/Segments/Laws.antt =====
-- What `commandSegments` (apps/server/src/shell-parse.ts) makes of commands that are set apart by
-- semicolons.
use mathlib.Core.List.{append-nil, append_assoc}
use code_jam.Prelude.{
  ◌==◌, All, Text, codes, is_empty, trim, starts_with, join, ℕ, ◌≡◌, refl, sym, ap, ◌∙◌, ◌⊎◌, inl,
  inr, Bool, true, false, not, ◌||◌, none, some, List, [], ◌∷◌, ◌++◌, map, arith,
}
use code_jam.Shell.Quoting.{Quote, starts_escape, next_quote}
use code_jam.Shell.Segments.{is_separator, close_segment, segments_from, command_segments}

-- What stands between double quotes: a code unit, or one behind a backslash.
pub data Inner : Type 0 where
  unit taken : ℕ → Inner

-- The parts of a command: a code unit that stands for itself, a code unit behind a backslash, a text
-- in single quotes, or one in double quotes.
pub data Part : Type 0 where
  plain escaped : ℕ → Part
  single : Text → Part
  double : List Inner → Part

-- It is no quote and no backslash, and is not `;`, `|`, `&` or a line feed.
abbrev is_plain : ℕ → Bool
is_plain c =
    not (c == 39 || (c == 34 || (c == 92 || (c == b';' || (c == b'|' || (c == b'&' || c == 10))))))

abbrev IsInner : Inner → Type 0
IsInner (unit c) = ((c == 34) || (c == 92)) ≡ false
IsInner (taken c) = Unit

abbrev IsPart : Part → Type 0
IsPart (plain c) = is_plain c ≡ true
IsPart (escaped c) = Unit
IsPart (single s) = All (λ c. (c == 39) ≡ false) s
IsPart (double ps) = All IsInner ps

abbrev inner_text : Inner → Text
inner_text (unit c) = c ∷ []
inner_text (taken c) = 92 ∷ c ∷ []

abbrev inner_texts : List Inner → Text
inner_texts [] = []
inner_texts (p ∷ ps) = inner_text p ++ inner_texts ps

abbrev part_text : Part → Text
part_text (plain c) = c ∷ []
part_text (escaped c) = 92 ∷ c ∷ []
part_text (single s) = (39 ∷ []) ++ (s ++ 39 ∷ [])
part_text (double ps) = (34 ∷ []) ++ (inner_texts ps ++ 34 ∷ [])

abbrev pub parts_text : List Part → Text
parts_text [] = []
parts_text (p ∷ ps) = part_text p ++ parts_text ps

-- One command: its parts are well formed, and its text is not empty and has no white space around it.
abbrev pub IsCommand : List Part → Type 0
IsCommand ps =
    (trim (parts_text ps) ≡ parts_text ps) × (is_empty (parts_text ps) ≡ false) × All IsPart ps

-- Reading a text leads from one state of the scanner to another, with nothing split.
abbrev Passes : Quote → Quote → Text → Type 0
Passes q r s =
    (cur rest : Text)
    → segments_from false q false cur (s ++ rest) ≡ segments_from false r false (cur ++ s) rest

Passes-append : (q r u : Quote) (s t : Text) → Passes q r s → Passes r u t → Passes q u (s ++ t)
Passes-append q r u s t h k cur rest =
    ap (λ v. segments_from false q false cur v) (append_assoc s t rest)
    ∙ h cur (t ++ rest)
    ∙ k (cur ++ s) rest
    ∙ ap (λ v. segments_from false u false v rest) (append_assoc cur s t)

Passes-nil : (q : Quote) → Passes q q []
Passes-nil q cur rest = ap (λ t. segments_from false q false t rest) (sym (append-nil cur))

-- A backslash takes the next code unit along, outside quotes and inside double quotes.
Passes-escaped : (c : ℕ) → Passes none none (92 ∷ c ∷ [])
unfolding segments_from
Passes-escaped c cur rest =
    ap (λ t. segments_from false none false t rest) (append_assoc cur (92 ∷ []) (c ∷ []))

Passes-taken : (c : ℕ) → Passes (some 34) (some 34) (92 ∷ c ∷ [])
unfolding segments_from
Passes-taken c cur rest =
    ap (λ t. segments_from false (some 34) false t rest) (append_assoc cur (92 ∷ []) (c ∷ []))

Passes-plain : (c : ℕ) → is_plain c ≡ true → Passes none none (c ∷ [])
unfolding segments_from
Passes-plain c h cur rest =
    let quote : (c == 39) ≡ false = ground arith in
    let double_quote : (c == 34) ≡ false = ground arith in
    let escape : (c == 92) ≡ false = ground arith in
    let apart : is_separator c ≡ false = ground arith in
    rw (quote, double_quote, escape, apart) refl

Passes-single : (c : ℕ) → (c == 39) ≡ false → Passes (some 39) (some 39) (c ∷ [])
unfolding segments_from
Passes-single c h cur rest =
    let escape : starts_escape (some 39) c ≡ false = ground arith in
    let stays : next_quote (some 39) c ≡ some 39 = ground arith in rw (stays, escape) refl

Passes-unit : (c : ℕ) → ((c == 34) || (c == 92)) ≡ false → Passes (some 34) (some 34) (c ∷ [])
unfolding segments_from
Passes-unit c h cur rest =
    let escape : starts_escape (some 34) c ≡ false = ground arith in
    let stays : next_quote (some 34) c ≡ some 34 = ground arith in rw (stays, escape) refl

Passes-singles : (s : Text) → All (λ c. (c == 39) ≡ false) s → Passes (some 39) (some 39) s
Passes-singles [] h = Passes-nil (some 39)
Passes-singles (c ∷ s) (k, h) =
    Passes-append (some 39) (some 39) (some 39) (c ∷ []) s (Passes-single c k) (Passes-singles s h)

Passes-inner : (p : Inner) → IsInner p → Passes (some 34) (some 34) (inner_text p)
Passes-inner (unit c) h = Passes-unit c h
Passes-inner (taken c) h = Passes-taken c

Passes-inners : (ps : List Inner) → All IsInner ps → Passes (some 34) (some 34) (inner_texts ps)
Passes-inners [] h = Passes-nil (some 34)
Passes-inners (p ∷ ps) (k, h) =
    Passes-append (some 34) (some 34) (some 34) (inner_text p) (inner_texts ps) (Passes-inner p k)
      (Passes-inners ps h)

-- A quote opens and closes.
Passes-opens : (c : ℕ) → (c ≡ 39) ⊎ (c ≡ 34) → Passes none (some c) (c ∷ [])
unfolding segments_from
Passes-opens c (inl e) cur rest = rw e refl
Passes-opens c (inr e) cur rest = rw e refl

Passes-closes : (c : ℕ) → (c ≡ 39) ⊎ (c ≡ 34) → Passes (some c) none (c ∷ [])
unfolding segments_from
Passes-closes c (inl e) cur rest = rw e refl
Passes-closes c (inr e) cur rest = rw e refl

Passes-quoted :
    (c : ℕ) (s : Text)
    → (c ≡ 39) ⊎ (c ≡ 34)
    → Passes (some c) (some c) s
    → Passes none none ((c ∷ []) ++ (s ++ c ∷ []))
Passes-quoted c s q h =
    Passes-append none (some c) none (c ∷ []) (s ++ c ∷ []) (Passes-opens c q)
      (Passes-append (some c) (some c) none s (c ∷ []) h (Passes-closes c q))

Passes-part : (p : Part) → IsPart p → Passes none none (part_text p)
Passes-part (plain c) h = Passes-plain c h
Passes-part (escaped c) h = Passes-escaped c
Passes-part (single s) h = Passes-quoted 39 s (inl refl) (Passes-singles s h)
Passes-part (double ps) h = Passes-quoted 34 (inner_texts ps) (inr refl) (Passes-inners ps h)

-- A command is read up to its end.
Passes-command : (ps : List Part) → All IsPart ps → Passes none none (parts_text ps)
Passes-command [] h = Passes-nil none
Passes-command (p ∷ ps) (k, h) =
    Passes-append none none none (part_text p) (parts_text ps) (Passes-part p k)
      (Passes-command ps h)

close_segment-command :
    (p : List Part) (cs : List Text)
    → IsCommand p
    → close_segment (parts_text p) cs ≡ parts_text p ∷ cs
close_segment-command p cs (t, n, _) = rw (t, n) refl

-- The line that the commands make, set apart by semicolons.
abbrev pub command_line : List (List Part) → Text
command_line cs = join (codes ";") (map parts_text cs)

-- A command and what follows its semicolon.
command_segments-line :
    (c d : List Part) (cs : List (List Part))
    → IsCommand c
    → command_segments (command_line (c ∷ d ∷ cs))
      ≡ parts_text c ∷ command_segments (command_line (d ∷ cs))
command_segments-line c d cs p =
    let line = command_line (d ∷ cs) in
    let opened : command_line (c ∷ d ∷ cs) ≡ parts_text c ++ (codes ";" ++ line) =
      unfold join in refl in
    let split_here : segments_from false none false (parts_text c) (codes ";" ++ line)
        ≡ close_segment (parts_text c) (command_segments line) =
      unfold segments_from codes starts_with in refl in
    ap (λ t. command_segments t) opened
    ∙ Passes-command c p.2 [] (codes ";" ++ line)
    ∙ split_here
    ∙ close_segment-command c (command_segments line) p

command_segments-last :
    (c : List Part) → IsCommand c → command_segments (command_line (c ∷ [])) ≡ parts_text c ∷ []
command_segments-last c p =
    let opened : command_line (c ∷ []) ≡ parts_text c = unfold join in refl in
    let closed : segments_from false none false (parts_text c) []
        ≡ close_segment (parts_text c) [] =
      unfold segments_from in refl in
    ap (λ t. command_segments t) (opened ∙ sym (append-nil (parts_text c)))
    ∙ Passes-command c p.2 [] []
    ∙ closed
    ∙ close_segment-command c [] p

-- Commands that are made of plain code units, code units behind a backslash, single-quoted and
-- double-quoted parts, that are not empty and have no white space around them, and that are set apart
-- by semicolons, are split exactly at those semicolons: whatever their quoted and escaped parts hold,
-- no command is split, lost, joined or changed.
pub command_segments-command_line :
    (cs : List (List Part))
    → All IsCommand cs
    → command_segments (command_line cs) ≡ map parts_text cs
command_segments-command_line [] h = unfold segments_from trim join in refl
command_segments-command_line (c ∷ []) (p, _) = command_segments-last c p
command_segments-command_line (c ∷ d ∷ cs) (p, ps) =
    command_segments-line c d cs p
    ∙ ap (◌∷◌ (parts_text c)) (command_segments-command_line (d ∷ cs) ps)
