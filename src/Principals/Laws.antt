-- ===== src/Principals/Laws.antt =====
-- About `parse` and `resolve` of `PrincipalRegistry` (principals.ts).
use code_jam.Prelude.{
  ◌==◌, Bool-cases, Option-cases, length, length-append, All, Text, text_eq, text_eq_refl,
  text_eq_sym, includes, is_empty, trim, ℕ, ◌+◌, ◌≤◌, ◌≡◌, refl, sym, ap, ◌∙◌, ◌⊎◌, inl, inr, true,
  false, none, some, List, [], ◌∷◌, ◌++◌, map, arith,
}
use mathlib.Core.Path.{subst}
use mathlib.Core.List.{append-nil, append_assoc}
use code_jam.Service.Errors.{Principal}
use code_jam.Principals.{
  Reason, is_id, split_first, Registry, get, Reading, register, read_entry, read_entries,
  entries_of, parse, size, resolve,
}

get-append_some :
    (digest : Text) (m n : Registry) {p : Principal}
    → get digest m ≡ some p
    → get digest (m ++ n) ≡ some p
unfolding get
get-append_some digest [] n h = cc
get-append_some digest ((d, q) ∷ m) n h = elim (Bool-cases (text_eq d digest)) [
  | inl e ↦ rw e (rw e at h)
  | inr e ↦ rw e (get-append_some digest m n (rw e at h))
]

get-append_none :
    (digest : Text) (m n : Registry) → get digest m ≡ none → get digest (m ++ n) ≡ get digest n
unfolding get
get-append_none digest [] n h = refl
get-append_none digest ((d, q) ∷ m) n h = elim (Bool-cases (text_eq d digest)) [
  | inl e ↦ ground arith
  | inr e ↦ rw e (get-append_none digest m n (rw e at h))
]

-- The ids of a table, in its order.
abbrev pub ids_of : Registry → List Text
ids_of [] = []
ids_of ((d, p) ∷ m) = p.id ∷ ids_of m

-- The id of an entry.
abbrev pub entry_id : Text → Text
entry_id entry = elim (split_first entry) [ none ↦ [] | some (id, token) ↦ trim id ]

-- No text stands in a list twice.
abbrev pub AreDistinct : List Text → Type 0
AreDistinct [] = Unit
AreDistinct (s ∷ ss) = (includes s ss ≡ false) × AreDistinct ss

ids_of-append : (m n : Registry) → ids_of (m ++ n) ≡ ids_of m ++ ids_of n
ids_of-append [] n = refl
ids_of-append ((d, p) ∷ m) n = ap (◌∷◌ p.id) (ids_of-append m n)

includes-concat :
    (s t : Text) (ss : List Text)
    → includes s ss ≡ false
    → text_eq t s ≡ false
    → includes s (ss ++ t ∷ []) ≡ false
includes-concat s t [] h k = ground arith
includes-concat s t (x ∷ ss) h k = ground (arith, includes-concat s t ss)

-- A text that is not there yet joins at the end.
AreDistinct-concat :
    (ss : List Text) (s : Text)
    → AreDistinct ss
    → includes s ss ≡ false
    → AreDistinct (ss ++ s ∷ [])
AreDistinct-concat [] s h k = (refl, tt)
AreDistinct-concat (x ∷ ss) s (fresh, h) k =
    let other : text_eq s x ≡ false = text_eq_sym s x ∙ ground arith in
    (includes-concat x s ss fresh other, AreDistinct-concat ss s h (ground arith))

-- The ids seen are those of the table, each once.
abbrev IsTidy : Reading → Type 0
IsTidy r = (ids_of r.table ≡ r.ids) × AreDistinct r.ids

module _ (digest_of : Text → Text) (min_length : ℕ) where
  -- An id and a token that a table has taken in.
  pub record IsRegistered (table : Registry) (entry : Text) : Type 0 where
    pub id : Text
    pub token : Text
    pub is_read : split_first entry ≡ some (id, token)
    pub is_named : is_id (trim id) ≡ true
    pub is_long : min_length ≤ length (trim token)
    pub is_resolved : resolve digest_of (trim token) table ≡ some (record { id = trim id })

  record Registers (id token : Text) (r r' : Reading) : Type 0 where
    named : is_id id ≡ true
    full : is_empty token ≡ false
    long : min_length ≤ length token
    fresh : get (digest_of token) r.table ≡ none
    unlisted : includes id r.ids ≡ false
    ids : r'.ids ≡ r.ids ++ id ∷ []
    table : r'.table ≡ r.table ++ (digest_of token, record { id = id }) ∷ []

  length-is_empty : (s : Text) → (length s == 0) ≡ is_empty s
  length-is_empty [] = refl
  length-is_empty (c ∷ s) = ground arith

  register-Registers :
      (id token : Text) (r r' : Reading)
      → register digest_of min_length id token r ≡ inr r'
      → Registers id token r r'
  unfolding register
  register-Registers id token r r' h = record {
    named = ground arith;
    full = ground (arith, length-is_empty token);
    long = ground arith;
    fresh = ground arith;
    unlisted = ground arith;
    ids = ground arith;
    table = ground arith;
  }

  resolve-append :
      (token : Text) (m n : Registry) {p : Principal}
      → resolve digest_of token m ≡ some p
      → resolve digest_of token (m ++ n) ≡ some p
  unfolding resolve
  resolve-append [] m n h = cc
  resolve-append (c ∷ s) m n h = get-append_some (digest_of (c ∷ s)) m n h

  -- What a table that grows still has, and what a new row adds.
  IsRegistered-append :
      (m n : Registry) (entry : Text) → IsRegistered m entry → IsRegistered (m ++ n) entry
  IsRegistered-append m n entry e = record {
    id = e.id;
    token = e.token;
    is_read = e.is_read;
    is_named = e.is_named;
    is_long = e.is_long;
    is_resolved = resolve-append (trim e.token) m n e.is_resolved;
  }

  registered-resolves :
      (id token : Text) (r r' : Reading)
      → Registers id token r r'
      → resolve digest_of token r'.table ≡ some (record { id = id })
  unfolding resolve get
  registered-resolves id token r r' g =
      rw
        (
          g.full,
          resolve,
          g.table,
          get-append_none (digest_of token) r.table ((digest_of token, record { id = id }) ∷ [])
              g.fresh,
          text_eq_refl (digest_of token),
        )
        refl

  Registers-IsTidy :
      (id token : Text) (r r' : Reading) → Registers id token r r' → IsTidy r → IsTidy r'
  Registers-IsTidy id token r r' g (same, distinct) = (
    rw (g.table, g.ids, ids_of-append, same) refl,
    rw g.ids (AreDistinct-concat r.ids id distinct g.unlisted),
  )

  -- One entry that is read.
  record Reads (entry : Text) (r r' : Reading) : Type 0 where
    added : Registry
    grows : r'.table ≡ r.table ++ added
    counts : length added ≡ 1
    has : IsRegistered r'.table entry
    names : ids_of added ≡ entry_id entry ∷ []
    tidies : IsTidy r → IsTidy r'

  read_entry-Reads :
      (entry : Text) (r r' : Reading)
      → read_entry digest_of min_length entry r ≡ inr r'
      → Reads entry r r'
  unfolding read_entry
  read_entry-Reads entry r r' h = elim (Option-cases (split_first entry)) [
    | inl e ↦ ground arith
    | inr ((id, token), e) ↦
        let g = register-Registers (trim id) (trim token) r r' (rw (e, read_entry) at h) in
        record {
          added = (digest_of (trim token), record { id = trim id }) ∷ [];
          grows = g.table;
          counts = refl;
          has = record {
            id = id;
            token = token;
            is_read = e;
            is_named = g.named;
            is_long = g.long;
            is_resolved = registered-resolves (trim id) (trim token) r r' g;
          };
          names = rw (e, entry_id) refl;
          tidies = Registers-IsTidy (trim id) (trim token) r r' g;
        }
  ]

  -- All entries that are read.
  record ReadsAll (entries : List Text) (r r' : Reading) : Type 0 where
    added : Registry
    grows : r'.table ≡ r.table ++ added
    counts : length added ≡ length entries
    has : All (IsRegistered r'.table) entries
    names : ids_of added ≡ map entry_id entries
    tidies : IsTidy r → IsTidy r'

  read_entries-ReadsAll :
      (index : ℕ) (entries : List Text) (r r' : Reading)
      → read_entries digest_of min_length index entries r ≡ inr r'
      → ReadsAll entries r r'
  unfolding read_entries
  read_entries-ReadsAll index [] r r' h =
      let same : r ≡ r' = ground arith in
      rw (← same) (record {
        added = [];
        grows = sym (append-nil r.table);
        counts = refl;
        has = tt;
        names = refl;
        tidies = λ h. h;
      })
  read_entries-ReadsAll index (entry ∷ entries) r r' h =
      split_entry (read_entry digest_of min_length entry r) refl
        (λ r1. read_entries-ReadsAll (index + 1) entries r1 r')
    where
      split_entry :
          (x : Reason ⊎ Reading)
          → read_entry digest_of min_length entry r ≡ x
          → ((r1 : Reading)
              → read_entries digest_of min_length (index + 1) entries r1 ≡ inr r'
              → ReadsAll entries r1 r')
          → ReadsAll (entry ∷ entries) r r'
      split_entry (inl reason) e step =
          (let broken : inl (record { index = index; reason = reason }) ≡ inr r' =
              rw (e, read_entries) at h in
            cc broken)
      split_entry (inr r1) e step =
          let one = read_entry-Reads entry r r1 e in
          let more = step r1 (rw (e, read_entries) at h) in
          record {
            added = one.added ++ more.added;
            grows =
                more.grows
                ∙ (ap (λ m. m ++ more.added) one.grows ∙ append_assoc r.table one.added more.added);
            counts = length-append one.added more.added ∙ ground (arith, one.counts, more.counts);
            has = (rw more.grows (IsRegistered-append r1.table more.added entry one.has), more.has);
            names =
                ids_of-append one.added more.added
                ∙ ap (λ s. s ++ ids_of more.added) one.names
                ∙ ap (◌∷◌ (entry_id entry)) more.names;
            tidies = λ k. more.tidies (one.tidies k);
          }

  -- If the configuration is accepted, then each of its entries is a principal of its own: its token
  -- resolves to its id, the id is well-formed, and the token is not shorter than the minimum. The
  -- table has one row for each entry, in their order and under its id, and the ids are pairwise
  -- different.
  pub parse-IsRegistered :
      (raw : Text) (r : Reading)
      → parse digest_of min_length raw ≡ inr r
      → All (IsRegistered r.table) (entries_of digest_of min_length raw)
        × (size r.table ≡ length (entries_of digest_of min_length raw))
        × (ids_of r.table ≡ map entry_id (entries_of digest_of min_length raw))
        × AreDistinct (ids_of r.table)
  unfolding parse
  parse-IsRegistered raw r h =
      let start : Reading = record { ids = []; table = [] } in
      let all_read = read_entries-ReadsAll 0 _ start r h in
      let (same, distinct) = all_read.tidies (refl, tt) in
      (
        all_read.has,
        ap length all_read.grows ∙ all_read.counts,
        ap ids_of all_read.grows ∙ all_read.names,
        subst AreDistinct (sym same) distinct,
      )
