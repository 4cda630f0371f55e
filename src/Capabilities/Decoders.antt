-- ===== src/Capabilities/Decoders.antt =====
-- What a command would decode: `decodedPayloads` and its decoders (apps/server/src/capabilities.ts).
use code_jam.Prelude.{
  leb, ◌==◌, if◌then◌else◌, length, flat_map, keep, any, all, Text, is_empty, trim, ℕ, zero, suc,
  ◌+◌, ◌-◌, ◌*◌, Bool, not, ◌&&◌, ◌||◌, Option, none, some, List, [], ◌∷◌, ◌++◌, map,
}
use code_jam.Regex.{
  Regex, one, ◌▸◌, ◌∪◌, many, group, at_start, at_end, boundary, is_alpha, is_digit_unit, white,
  solid, in_class, not_in, plus, optional, at_least, at_most, lit, lit_i, literal,
}
use code_jam.Regex.Search.{
  Match, tests, match_group, match_all, replace_first, replace_all, group_all,
}
use code_jam.Shell.{Node}
use code_jam.Capabilities.Sets.{escaped_unit}

-- BASE64_DECODER and XXD_HEX_DECODER
abbrev flag_words : Regex
flag_words = many (lit "-" ▸ plus solid ▸ plus white)

abbrev base64_unit : Regex
base64_unit = one (λ u. is_alpha u || is_digit_unit u || u == b'+' || u == b'/')

abbrev base64_decoder : Regex
base64_decoder =
    (boundary
      ▸ lit_i "base64"
      ▸ plus white
      ▸ flag_words
      ▸ ((lit_i "--decode" ▸ boundary)
          ∪ (lit "-" ▸ many (one (λ u. is_alpha u || is_digit_unit u)) ▸ in_class "dD")))
    ∪ (boundary ▸ lit_i "b64decode" ▸ many white ▸ lit "(")
    ∪ (lit_i ".from("
        ▸ many (not_in ")")
        ▸ in_class "\"'"
        ▸ lit_i "base64"
        ▸ in_class "\"'"
        ▸ lit ")")

abbrev xxd_hex_decoder : Regex
xxd_hex_decoder =
    boundary ▸ lit_i "xxd" ▸ plus white ▸ flag_words ▸ lit "-" ▸ many solid ▸ lit_i "r"

-- BASE64_BLOB, HEX_BLOB, ANSI_C_QUOTE and PRINTF_OCTAL
abbrev padding : Regex
padding = at_most 2 (lit "=")

abbrev base64_blob : Regex
base64_blob = at_least 20 base64_unit ▸ padding

abbrev hex_digit : Regex
hex_digit = one (λ u. is_digit_unit u || (leb b'a' u && leb u b'f') || (leb b'A' u && leb u b'F'))

abbrev hex_blob : Regex
hex_blob = boundary ▸ at_least 20 hex_digit ▸ boundary

abbrev ansi_c_quote : Regex
ansi_c_quote =
    lit "$'" ▸ group 1 (many (one (λ u. not (u == 39 || u == 92)) ∪ escaped_unit)) ▸ lit "'"

abbrev printf_octal : Regex
printf_octal =
    lit "printf"
    ▸ plus white
    ▸ in_class "'\""
    ▸ lit "%b"
    ▸ in_class "'\""
    ▸ plus white
    ▸ in_class "'\""
    ▸ group 1 (many (not_in "'\""))
    ▸ in_class "'\""

unfoldable pub is_printable : Text → Bool
is_printable text =
    not (is_empty text)
    && all (λ u. (leb 0x20 u && leb u 0x7e) || u == 9 || u == 10 || u == 13) text

-- `match[0]` of every match
abbrev wholes : Regex → Text → List Text
wholes r text = map (λ (m : Match). m.whole) (match_all r text)

-- The loop of `decodeBase64Layers`, with the rounds that are left.
unfoldable pub base64_layers_from : ℕ → Node → Text → List Text
unfolding is_printable trim tests
base64_layers_from zero node current = []
base64_layers_from (suc rounds) node current =
    let decoded = node.from_base64 current in
    let deeper = base64_layers_from rounds node (trim decoded) in
    let is_blob = tests (at_start ▸ plus base64_unit ▸ padding ▸ at_end) (trim decoded) in
    if is_empty decoded || any (λ u. u == 0xfffd) decoded || not (is_printable decoded)
    then []
    else decoded ∷ (if is_blob then deeper else [])

abbrev pub max_decode_depth : ℕ
max_decode_depth = 4

unfoldable pub decode_base64_layers : Node → Text → List Text
unfolding replace_first base64_layers_from
decode_base64_layers node blob =
    base64_layers_from max_decode_depth node (replace_first (plus (lit "=") ▸ at_end) [] blob)

abbrev digit_value : ℕ → ℕ
digit_value u =
    if leb b'a' u && leb u b'f'
    then u - b'a' + 10
    else if leb b'A' u && leb u b'F'
    then u - b'A' + 10
    else u - b'0'

-- `parseInt(digits, base)`
unfoldable pub parse_digits : ℕ → ℕ → Text → ℕ
parse_digits base acc [] = acc
parse_digits base acc (u ∷ s) = parse_digits base (acc * base + digit_value u) s

-- C_ESCAPES, where an escape that it does not list stands for itself
unfoldable pub c_escape : ℕ → ℕ
c_escape u =
    if u == b'n'
    then 10
    else if u == b't'
    then 9
    else if u == b'r'
    then 13
    else if u == b'a'
    then 7
    else if u == b'b'
    then 8
    else if u == b'f'
    then 12
    else if u == b'v'
    then 11
    else if u == b'e' || u == b'E'
    then 27
    else if u == b'0'
    then 0
    else u

-- What the escape after a backslash decodes to, and its length without the backslash.
abbrev escape_letter : Text → Text × ℕ
escape_letter [] = ([], 1)
escape_letter (u ∷ _) = (c_escape u ∷ [], 1)

unfoldable pub octal_escape : Text → Text × ℕ
unfolding match_group parse_digits c_escape
octal_escape rest =
    let octal_digit = one (λ u. leb b'0' u && leb u b'7') in
    elim (match_group 1 (at_start ▸ group 1 (octal_digit ▸ at_most 2 octal_digit)) rest) [
      | some digits ↦ (parse_digits 8 0 digits ∷ [], length digits)
      | none ↦ escape_letter rest
    ]

unfoldable pub ansi_escape : Text → Text × ℕ
unfolding match_group parse_digits octal_escape
ansi_escape rest =
    let octal = octal_escape rest in
    let wide =
      match_group 1 (at_start ▸ lit "u" ▸ group 1 (hex_digit ▸ at_most 3 hex_digit)) rest in
    elim (match_group 1 (at_start ▸ lit "x" ▸ group 1 (hex_digit ▸ optional hex_digit)) rest) [
      | some digits ↦ (parse_digits 16 0 digits ∷ [], length digits + 1)
      | none ↦ elim wide [
        | some digits ↦ (parse_digits 16 0 digits ∷ [], length digits + 1)
        | none ↦ octal
      ]
    ]

-- The loop over the body: the number is what is left to skip of an escape.
unfoldable pub unescape : (Text → Text × ℕ) → ℕ → Text → Text
unescape escape skip [] = []
unescape escape (suc k) (c ∷ s) = unescape escape k s
unescape escape zero (c ∷ s) =
    let (decoded, size) = if c == 92 then escape s else (c ∷ [], 0) in
    decoded ++ unescape escape size s

-- `body.replace(/\\\\/g, "\\")`
abbrev collapse : Text → Text
collapse body = replace_all (literal (92 ∷ 92 ∷ [])) (92 ∷ []) body

-- `none` is null.
unfoldable pub decode_ansi_c : Text → Option Text
unfolding replace_all unescape ansi_escape is_printable
decode_ansi_c body =
    let out = unescape ansi_escape 0 (collapse body) in if is_printable out then some out else none

unfoldable pub decode_octal_escapes : Text → Option Text
unfolding replace_all unescape octal_escape is_printable
decode_octal_escapes body =
    let out = unescape octal_escape 0 (collapse body) in if is_printable out then some out else none

-- `if (decoded) payloads.push(decoded)` for each body
abbrev decode_each : (Text → Option Text) → List Text → List Text
decode_each decode [] = []
decode_each decode (t ∷ ts) =
    let later = decode_each decode ts in elim (decode t) [ none ↦ later | some out ↦ out ∷ later ]

unfoldable pub decoded_payloads : Node → Text → List Text
unfolding tests match_all decode_base64_layers is_printable group_all decode_ansi_c
    decode_octal_escapes
decoded_payloads node command =
    (if tests base64_decoder command
      then flat_map (λ blob. decode_base64_layers node blob) (wholes base64_blob command)
      else [])
    ++ ((if tests xxd_hex_decoder command
          then keep is_printable (map node.from_hex (wholes hex_blob command))
          else [])
        ++ (decode_each decode_ansi_c (group_all 1 ansi_c_quote command)
            ++ decode_each decode_octal_escapes (group_all 1 printf_octal command)))
