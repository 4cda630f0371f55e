-- ===== src/Shell/Hosts.antt =====
-- `hostFromToken` (apps/server/src/shell-parse.ts): the host that an argument in the place of a
-- destination names.
use code_jam.Prelude.{
  ◌==◌, if◌then◌else◌, length, take, get_or, keep, Text, codes, text_eq, is_empty, to_lower, lower,
  split_from, split, index_of, ℕ, not, ◌&&◌, ◌||◌, Option, none, some, List, [], ◌∷◌, ◌++◌,
}
use code_jam.Regex.{
  Regex, one, ◌▸◌, ◌∪◌, many, group, at_start, at_end, is_alpha, is_digit_unit, in_class, not_in,
  plus, lit, lit_i, digit, dot,
}
use code_jam.Regex.Search.{tests, match_group, replace_first, replace_all}

-- What the parser takes from Node: `isIP` (4, 6 or 0), the `hostname` of `new URL(s)`, which throws on
-- some texts (`none`), and the bytes of a base64 or hexadecimal text read as UTF-8.
pub record Node : Type 0 where
  pub is_ip : Text → ℕ
  pub url_hostname : Text → Option Text
  pub from_base64 : Text → Text
  pub from_hex : Text → Text

-- `/^['"`(]+/` and `/['"`),;}]+$/`
abbrev opening_marks : Regex
opening_marks = at_start ▸ plus (in_class "'\"`(")

abbrev closing_marks : Regex
closing_marks = plus (in_class "'\"`),;}") ▸ at_end

-- `[a-z0-9+.-]`, `[a-z0-9.-]` and `^[a-z][a-z0-9+.-]*:\/\/`, with the flag `i`
abbrev pub scheme_unit : Regex
scheme_unit = one (λ u. is_alpha u || is_digit_unit u || u == b'+' || u == b'.' || u == b'-')

abbrev pub scheme : Regex
scheme = one is_alpha ▸ many scheme_unit ▸ lit "://"

abbrev host_shape : Regex
host_shape =
    at_start ▸ plus (one (λ u. is_alpha u || is_digit_unit u || u == b'.' || u == b'-')) ▸ at_end

-- `/^\[([^\]]+)\]/`, `/%.+$/`, `/^\[|\]$/g`, `/^.*@/` and `/^(?:\d|0x)/i`
abbrev bracketed : Regex
bracketed = at_start ▸ lit "[" ▸ group 1 (plus (not_in "]")) ▸ lit "]"

abbrev zone : Regex
zone = lit "%" ▸ plus dot ▸ at_end

abbrev brackets : Regex
brackets = (at_start ▸ lit "[") ∪ (lit "]" ▸ at_end)

abbrev user_part : Regex
user_part = at_start ▸ many dot ▸ lit "@"

abbrev numeric : Regex
numeric = at_start ▸ (digit ∪ lit_i "0x")

abbrev count_unit : ℕ → Text → ℕ
count_unit d s = length (keep (λ c. c == d) s)

abbrev index_or : ℕ → ℕ → Text → ℕ
index_or d c s = elim (index_of c s) [ none ↦ d | some i ↦ i ]

-- From the authority on: after the port was cut off.
unfoldable pub canonical_host : Node → Text → Option Text
unfolding tests to_lower
canonical_host node t =
    if is_empty t || not (tests host_shape t)
    then none
    else elim (node.url_hostname (codes "http://" ++ t)) [
      | none ↦ none
      | some hostname ↦
          let canonical = lower hostname in
          if is_empty canonical || not (tests host_shape canonical)
          then none
          else if tests numeric t && not (text_eq canonical (lower t))
          then some (lower t)
          else some canonical
    ]

-- From `t.replace(/^.*@/, "")` on.
unfoldable pub authority_host : Node → Text → Option Text
unfolding match_group replace_first canonical_host split_from to_lower index_of
authority_host node token =
    let t = replace_first user_part [] token in
    let literal_host : Option Text = elim (match_group 1 bracketed t) [
      | none ↦ none
      | some v6 ↦ if node.is_ip (replace_first zone [] v6) == 6 then some (lower v6) else none
    ] in
    let path_free = get_or [] 0 (split b'/' t) in
    let port_free =
      if count_unit b':' path_free == 1
      then take (index_or 0 b':' path_free) path_free
      else path_free in
    elim literal_host [
      | some v6 ↦ some v6
      | none ↦
          if not (node.is_ip (replace_first zone [] path_free) == 0)
          then some (lower path_free)
          else canonical_host node port_free
    ]

unfoldable pub host_from_token : Node → Text → Option Text
unfolding tests replace_first replace_all authority_host to_lower
host_from_token node token =
    let t = replace_first closing_marks [] (replace_first opening_marks [] token) in
    if tests (at_start ▸ scheme) t
    then elim (node.url_hostname t) [
      | some hostname ↦ some (lower (replace_all brackets [] hostname))
      | none ↦ authority_host node (replace_first (at_start ▸ scheme) [] t)
    ]
    else authority_host node t

-- `.map(hostFromToken).filter((host) => host !== null)`
unfoldable pub hosts_of : Node → List Text → List Text
unfolding host_from_token
hosts_of node [] = []
hosts_of node (t ∷ ts) =
    let more = hosts_of node ts in elim (host_from_token node t) [ none ↦ more | some h ↦ h ∷ more ]

-- `if (host) hosts.push(host)`: an empty host is left out too.
unfoldable pub named_hosts : Node → List Text → List Text
unfolding hosts_of
named_hosts node ts = keep (λ h. not (is_empty h)) (hosts_of node ts)
