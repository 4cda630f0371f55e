-- ===== src/Principals/Tests.antt =====
-- Two principals, read from a configuration, with the token as its own digest.
use code_jam.Prelude.{
  length, All, Text, codes, text_eq, trim, split_from, starts_with, ◌≡◌, refl, inr, [], ◌∷◌, map,
}
use code_jam.Principals.{
  Reading, is_id, is_token, split_first, get, register, read_entry, read_entries, entries_of, parse,
  size,
}
use code_jam.Principals.Laws.{IsRegistered, ids_of, entry_id, AreDistinct, parse-IsRegistered}

abbrev digest_of : Text → Text
digest_of token = token

abbrev raw : Text
raw = codes "ann:tok_secret, bob : tok-other,,"

abbrev reading : Reading
reading = record {
  ids = codes "ann" ∷ codes "bob" ∷ [];
  table =
      (codes "tok_secret", record { id = codes "ann" })
      ∷ (codes "tok-other", record { id = codes "bob" })
      ∷ [];
}

raw-parse : parse digest_of 8 raw ≡ inr reading
unfolding parse read_entries read_entry register is_id is_token split_first get codes split_from
    trim starts_with text_eq
raw-parse = refl

parse-IsRegistered_example :
    All (IsRegistered digest_of 8 reading.table) (entries_of digest_of 8 raw)
    × (size reading.table ≡ length (entries_of digest_of 8 raw))
    × (ids_of reading.table ≡ map entry_id (entries_of digest_of 8 raw))
    × AreDistinct (ids_of reading.table)
parse-IsRegistered_example = parse-IsRegistered digest_of 8 raw reading raw-parse
