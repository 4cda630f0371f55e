-- ===== src/Enforcement/Tests.antt =====
-- The composed policy run on concrete commands.
use code_jam.Prelude.{
  if◌then◌else◌, get_or, All, Text, codes, text_eq, includes, is_empty, trim, split_from, split,
  starts_with, index_of, ok, ◌≡◌, refl, ◌⊎◌, true, none, some, [], ◌∷◌,
}
use code_jam.Policy.Types.{PolicyContext, Actor}
use code_jam.Policy.Rules.{decide}
use code_jam.Policy.Evaluate.{judge, collect, combine, report, get_claims}
use code_jam.Shell.{Node}
use code_jam.Capabilities.{
  strip_quotes, find_protected_secret, extract_hosts, write_targets, classify_write_target, inside,
  payloads, inert_sink, is_textual_url_only,
}
use code_jam.Capabilities.Extract.Carried.{itself, further}
use code_jam.Enforcement.{govern_command}
use code_jam.Enforcement.Guarantees.{reaches_network, AllowedHost, govern_command_passed}

abbrev simple_node : Node
simple_node = record {
  is_ip = λ s. 0;
  url_hostname = λ s. some (get_or [] 0 (split b':' (get_or [] 2 (split b'/' s))));
  from_base64 = λ s. [];
  from_hex = λ s. [];
}

abbrev context : PolicyContext
context = record {
  allowed_hosts = codes "Ok.example" ∷ [];
  secret_values = none;
  write_roots = codes "/work/" ∷ [];
}

abbrev agent : Actor
agent = record { agent_id = codes "a1"; thread_id = none }

abbrev noted : Text
noted = codes "echo 'curl https://ok.example > /work/log' > /work/n.md"

abbrev note : Text
note = codes "curl https://ok.example > /work/log"

noted_passes : govern_command inert_sink simple_node agent noted context ≡ ok none
unfolding govern_command combine report collect decide judge get_claims split_from codes text_eq
    starts_with index_of
noted_passes = refl

note_carried : includes note (payloads simple_node noted) ≡ true
unfolding payloads split_from codes text_eq starts_with index_of
note_carried = refl

govern_command_passed_example :
    (find_protected_secret simple_node note ≡ none)
    × All
        (λ host. AllowedHost (is_textual_url_only inert_sink simple_node noted) context host)
        (if reaches_network simple_node note then extract_hosts simple_node note else [])
    × All
        (λ target.
          (is_empty (strip_quotes target) ≡ true)
          ⊎ (classify_write_target (strip_quotes target) context.write_roots ≡ inside))
        (write_targets simple_node note)
govern_command_passed_example =
    govern_command_passed inert_sink simple_node agent noted context (unfold trim codes in refl)
      noted_passes note (further note note_carried (itself refl))
