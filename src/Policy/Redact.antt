-- ===== src/Policy/Redact.antt =====
-- `redactCommand` (apps/server/src/command-policy.ts): what is masked in a command before it is
-- recorded.
pub mod Runs
use code_jam.Prelude.{
  ltb, leb, ◌==◌, if◌then◌else◌, ltb→lt, ltb-false→le, lt→ltb, le→ltb-false, ==_iff, Bool-cases,
  Option-cases, true-of-ne-false, length, take, drop, get_elem?, keep, any, all, find, modify_first,
  length-append, All, All-append, All-keep, All-modify_first, All-find, All-imp, All-keep_self,
  Text, codes, text_eq, text_eq_iff, text_eq_refl, text_eq_sym, includes, is_white, is_empty,
  trim_start, trim_end, trim, to_lower, lower, split_from, split, starts_with, index_of, join,
  Fault, http, failure, Result, ok, err, bind, bind-eq-ok, guard, Exec, pure, raise, continue,
  ◌>>=◌, ◌>>◌, ℕ, zero, suc, ◌+◌, ◌-◌, ◌*◌, ◌/◌, ◌%◌, ◌^◌, ◌≤◌, ◌<◌, String, ◌≡◌, refl, sym, ap,
  ◌∙◌, ◌≢◌, ◌↔◌, ◌⊎◌, inl, inr, Bool, true, false, not, ◌&&◌, ◌||◌, Option, none, some, List, [],
  ◌∷◌, ◌++◌, map, arith,
}

abbrev pub redacted_mark : Text
redacted_mark = codes "***REDACTED***"

-- `text.split(secret).join(REDACTED)`, left to right; the first argument is what is left to skip of
-- an occurrence that was replaced.
unfoldable pub replace_from : ℕ → Text → Text → Text
replace_from skip secret [] = []
replace_from (suc k) secret (c ∷ s) = replace_from k secret s
replace_from zero secret (c ∷ s) =
    let hidden = redacted_mark ++ replace_from (length secret - 1) secret s in
    let shown = c ∷ replace_from zero secret s in
    if starts_with (c ∷ s) secret then hidden else shown

-- The loop over the secret values: only those of eight code units or more are masked.
unfoldable pub mask_secrets : Text → List Text → Text
mask_secrets redacted [] = redacted
mask_secrets redacted (secret ∷ secrets) =
    mask_secrets (if leb 8 (length secret) then replace_from 0 secret redacted else redacted)
      secrets

abbrev pub is_upper : ℕ → Bool
is_upper c = leb 65 c && leb c 90

abbrev pub is_letter : ℕ → Bool
is_letter c = is_upper c || (leb 97 c && leb c 122)

abbrev pub is_digit : ℕ → Bool
is_digit c = leb 48 c && leb c 57

-- `\w`
abbrev pub is_word : ℕ → Bool
is_word c = is_letter c || is_digit c || c == b'_'

-- `[a-z0-9+.-]`, with the flag `i`
abbrev pub is_scheme : ℕ → Bool
is_scheme c = is_letter c || is_digit c || c == b'+' || c == b'.' || c == b'-'

-- `[^\s:/@"']` and `[^\s@"']`
abbrev pub is_user : ℕ → Bool
is_user c = not (is_white c) && not (c == b':' || c == b'/' || c == b'@' || c == b'"' || c == 39)

abbrev pub is_password : ℕ → Bool
is_password c = not (is_white c) && not (c == b'@' || c == b'"' || c == 39)

-- The longest prefix of at most `n` code units that pass the test, and what follows it. No part of
-- the expression can give a unit back, since the unit that must follow it fails its test.
unfoldable pub span : (ℕ → Bool) → ℕ → Text → Text × Text
span p zero s = ([], s)
span p (suc n) [] = ([], [])
span p (suc n) (c ∷ s) =
    let (taken, rest) = span p n s in if p c then (c ∷ taken, rest) else ([], c ∷ s)

-- `strip_prefix pre s` is what follows the prefix.
unfoldable pub strip_prefix : Text → Text → Option Text
strip_prefix [] s = some s
strip_prefix (d ∷ p) [] = none
strip_prefix (d ∷ p) (c ∷ s) = if c == d then strip_prefix p s else none

-- URL_CREDENTIALS at a word boundary: the first group, the length of the whole match.
unfoldable pub url_credentials : Text → Option (Text × ℕ)
url_credentials [] = none
url_credentials (c ∷ s) =
    if not (is_letter c)
    then none
    else let (scheme, after_scheme) = span is_scheme 15 s in
      elim (strip_prefix (codes "://") after_scheme) [
        | none ↦ none
        | some after_slashes ↦
            let (user, after_user) = span is_user 255 after_slashes in
            if is_empty user then none else elim (strip_prefix (codes ":") after_user) [
              | none ↦ none
              | some after_colon ↦
                  let (password, after_password) = span is_password 255 after_colon in
                  if is_empty password
                  then none
                  else elim (strip_prefix (codes "@") after_password) [
                    | none ↦ none
                    | some _ ↦
                        let kept = (c ∷ scheme) ++ (codes "://" ++ (user ++ codes ":")) in
                        some (kept, length kept + length password + 1)
                  ]
            ]
      ]

-- `redacted.replace(URL_CREDENTIALS, "$1" + REDACTED + "$2")`; the flag says that the code unit
-- before is part of a word.
unfoldable pub mask_urls : ℕ → Bool → Text → Text
mask_urls skip before [] = []
mask_urls (suc k) before (c ∷ s) = mask_urls k (is_word c) s
mask_urls zero before (c ∷ s) =
    let plain = c ∷ mask_urls 0 (is_word c) s in
    elim (if before then none else url_credentials (c ∷ s)) [
      | none ↦ plain
      | some (kept, size) ↦
          kept ++ (redacted_mark ++ (codes "@" ++ mask_urls (size - 1) (is_word c) s))
    ]

-- `[A-Za-z0-9_+/=-]`
unfoldable pub is_run : ℕ → Bool
is_run c =
    is_letter c || is_digit c || c == b'_' || c == b'+' || c == b'/' || c == b'=' || c == b'-'

-- `isHighEntropyRun`
unfoldable pub is_high_entropy : Text → Bool
is_high_entropy run = not (ltb (length run) 28) && (any is_letter run && any is_digit run)

abbrev pub show_run : Text → Text
show_run run = if is_high_entropy run then redacted_mark else run

-- `redacted.replace(HIGH_ENTROPY_RUN, …)`, with the run that is being read
unfoldable pub mask_runs : Text → Text → Text
mask_runs run [] = show_run run
mask_runs run (c ∷ s) =
    let inside = mask_runs (run ++ c ∷ []) s in
    let after = show_run run ++ (c ∷ mask_runs [] s) in if is_run c then inside else after

unfoldable pub redact_command : Text → List Text → Text
redact_command command secrets = mask_runs [] (mask_urls 0 false (mask_secrets command secrets))
