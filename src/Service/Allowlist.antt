-- ===== src/Service/Allowlist.antt =====
-- The standing allowlist that the operator edits (apps/server/src/agent-service.ts).
use code_jam.Prelude.{
  ltb, leb, ◌==◌, if◌then◌else◌, length, keep, Text, text_eq, includes, trim, lower, http, Result,
  ok, err, Exec, ◌>>=◌, ℕ, Bool, true, false, not, ◌&&◌, ◌||◌, List, [], ◌∷◌, ◌++◌,
}
use code_jam.Store.Log.{World}
use code_jam.Store.Json.{Mutation, mutate}

-- `[a-z0-9]`
abbrev pub is_host_edge : ℕ → Bool
is_host_edge c = (leb b'a' c && leb c b'z') || (leb b'0' c && leb c b'9')

-- `[a-z0-9.-]`
abbrev pub is_host_inner : ℕ → Bool
is_host_inner c = is_host_edge c || c == b'.' || c == b'-'

-- `(?:[a-z0-9.-]*[a-z0-9])?$`: nothing, or inner code units of which the last is an edge
unfoldable pub is_host_tail : Text → Bool
is_host_tail [] = true
is_host_tail (c ∷ []) = is_host_edge c
is_host_tail (c ∷ d ∷ s) = is_host_inner c && is_host_tail (d ∷ s)

-- ALLOWLIST_HOST_PATTERN
unfoldable pub is_host_pattern : Text → Bool
is_host_pattern [] = false
is_host_pattern (c ∷ s) = is_host_edge c && is_host_tail s

-- `normalizeAllowlistHost`
unfoldable pub normalize_allowlist_host : Text → Result Text
normalize_allowlist_host raw =
    let host = lower (trim raw) in
    if length host == 0 || ltb 253 (length host) || not (is_host_pattern host)
    then err (http 400)
    else ok host

-- `if (!database.allowlist.includes(host)) database.allowlist.push(host)`
unfoldable pub add_host : Text → List Text → List Text
add_host host hosts = if not (includes host hosts) then hosts ++ host ∷ [] else hosts

unfoldable pub remove_host : Text → List Text → List Text
remove_host host = keep (λ entry. not (text_eq entry host))

unfoldable pub add_host_in : Text → Mutation (List Text)
add_host_in host d =
    let hosts = add_host host d.allowlist in ok (hosts, record d { allowlist = hosts })

unfoldable pub remove_host_in : Text → Mutation (List Text)
remove_host_in host d =
    let hosts = remove_host host d.allowlist in ok (hosts, record d { allowlist = hosts })

-- `addAllowlistHost` and `removeAllowlistHost`
unfoldable pub add_allowlist_host : Text → Exec World (List Text)
add_allowlist_host raw = do host ← λ w. (normalize_allowlist_host raw, w); mutate (add_host_in host)

unfoldable pub remove_allowlist_host : Text → Exec World (List Text)
remove_allowlist_host raw = do
  host ← λ w. (normalize_allowlist_host raw, w)
  mutate (remove_host_in host)
