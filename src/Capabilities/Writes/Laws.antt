-- ===== src/Capabilities/Writes/Laws.antt =====
-- Where a write target that `classifyWriteTarget` (apps/server/src/capabilities.ts) calls inside lands
-- when its path is followed.
use mathlib.Core.Path.{subst}
use mathlib.Core.List.{append_assoc}
use code_jam.Prelude.{
  if◌then◌else◌, Bool-cases, if_rule, any, some-inj, Text, codes, text_eq, text_eq_iff,
  text_eq_refl, includes, is_empty, split_from, split, starts_with, ℕ, ◌≡◌, refl, sym, ap, ◌∙◌, ◌⊎◌,
  inl, inr, Bool, true, false, not, ◌&&◌, ◌||◌, Option, none, some, List, [], ◌∷◌, ◌++◌, arith,
}
use code_jam.Capabilities.Sets.{strip_quotes}
use code_jam.Capabilities.Writes.{
  inside, outside, unresolved, settle, is_outside_expansion, has_walk, has_expansion, trim_slashes,
  is_under, classify_settled, classify_write_target,
}

-- A file system follows a path segment by segment from a directory, whose names stand innermost
-- first; `none` is a step above the start.
unfoldable pub follow : List Text → List Text → Option (List Text)
follow here [] = some here
follow here (s ∷ ss) =
    let down = follow (s ∷ here) ss in
    let stay = follow here ss in
    let up : Option (List Text) = elim here [ [] ↦ none | _ ∷ parent ↦ follow parent ss ] in
    if text_eq s (codes "..")
    then up
    else if is_empty s || text_eq s (codes ".")
    then stay
    else down

abbrev pub follow_path : List Text → Text → Option (List Text)
follow_path here path = follow here (split b'/' path)

-- The path leads to the directory or to a place below it.
abbrev pub LandsBelow : List Text → Option (List Text) → Type 0
LandsBelow here reached = (below : List Text) × (reached ≡ some (below ++ here))

or-false : (a b : Bool) → a || b ≡ false → (a ≡ false) × (b ≡ false)
or-false true b h = cc
or-false false b h = (refl, h)

-- A path without `..` never leaves where it starts.
follow-LandsBelow :
    (here ss : List Text) → includes (codes "..") ss ≡ false → LandsBelow here (follow here ss)
unfolding follow
follow-LandsBelow here [] h = ([], refl)
follow-LandsBelow here (s ∷ ss) h =
    let (no_step, no_more) = or-false (text_eq s (codes "..")) _ h in
    let (below, e) = follow-LandsBelow (s ∷ here) ss no_more in
    rw no_step (
      if_rule (λ (r : Option (List Text)). LandsBelow here r) (is_empty s || text_eq s (codes "."))
        (λ _. follow-LandsBelow here ss no_more)
        (λ _. (below ++ s ∷ [], e ∙ ap some (sym (append_assoc below (s ∷ []) here)))))

split-append :
    (sep : ℕ) (cur s t : Text)
    → split_from sep cur (s ++ sep ∷ t) ≡ split_from sep cur s ++ split sep t
unfolding split_from
split-append sep cur [] t = ground arith
split-append sep cur (c ∷ s) t =
    ground (arith, split-append sep [] s t, split-append sep (cur ++ c ∷ []) s t)

follow-append :
    (here xs ys there : List Text)
    → follow here xs ≡ some there
    → follow here (xs ++ ys) ≡ follow there ys
unfolding follow
follow-append here [] ys there h = ap (λ l. follow l ys) (some-inj h)
follow-append here (x ∷ xs) ys there h = elim (Bool-cases (text_eq x (codes ".."))) [
  | inl e ↦ rw e (up here (rw e at h) (λ l k. follow-append l xs ys there k))
  | inr n ↦ rw n (elim (Bool-cases (is_empty x || text_eq x (codes "."))) [
    | inl e' ↦ rw e' (follow-append here xs ys there (rw (n, e') at h))
    | inr n' ↦ rw n' (follow-append (x ∷ here) xs ys there (rw (n, n') at h))
  ])
]
  where
    up :
        (l : List Text)
        → elim l as (λ _. Option (List Text)) [ [] ↦ none | _ ∷ parent ↦ follow parent xs ]
          ≡ some there
        → ((m : List Text) → follow m xs ≡ some there → follow m (xs ++ ys) ≡ follow there ys)
        → elim l as (λ _. Option (List Text)) [ [] ↦ none | _ ∷ parent ↦ follow parent (xs ++ ys) ]
          ≡ follow there ys
    up [] q ih = cc
    up (_ ∷ parent) q ih = ih parent q

starts_with-append : (s p : Text) → starts_with s p ≡ true → (rest : Text) × (s ≡ p ++ rest)
unfolding starts_with
starts_with-append s [] h = (s, refl)
starts_with-append [] (d ∷ p) h = cc
starts_with-append (c ∷ s) (d ∷ p) h =
    let (rest, e) = starts_with-append s p (ground arith) in
    let same : c ≡ d = ground arith in (rest, rw same (ap (◌∷◌ d) e))

includes-append :
    (t : Text) (xs ys : List Text)
    → includes t (xs ++ ys) ≡ false
    → (includes t xs ≡ false) × (includes t ys ≡ false)
includes-append t [] ys h = (refl, h)
includes-append t (x ∷ xs) ys h =
    let (a, b) = or-false (text_eq x t) _ h in let (c, d) = includes-append t xs ys b in (rw a c, d)

empty_path : (path : Text) → is_empty path ≡ true → starts_with path (codes "/") ≡ false
unfolding starts_with codes
empty_path [] h = refl
empty_path (c ∷ s) h = cc

or-cases : (a b : Bool) → a || b ≡ true → (a ≡ true) ⊎ (b ≡ true)
or-cases true b h = inl refl
or-cases false b h = inr h

relative_path :
    (path : Text)
    → is_empty path || text_eq path (codes ".") ≡ true
    → starts_with path (codes "/") ≡ false
relative_path path h = elim (or-cases (is_empty path) _ h) [
  | inl e ↦ empty_path path e
  | inr e ↦
      let here : path ≡ codes "." = (text_eq_iff path (codes ".")).0 e in
      rw here (unfold starts_with codes in refl)
]

-- The test on the write roots.
abbrev holds : Text → Text → Bool
holds path root = not (is_empty root) && is_under path root

settled_inside :
    (path : Text) (roots : List Text)
    → classify_settled path roots ≡ inside
    → (has_walk path ≡ false)
      × (has_expansion path ≡ false)
      × ((starts_with path (codes "/") ≡ false) ⊎ (any (λ root. holds path root) roots ≡ true))
unfolding classify_settled
settled_inside path roots h = elim (Bool-cases (has_walk path)) [
  | inl e ↦ let broken : outside ≡ inside = rw e at h in cc broken
  | inr w ↦ elim (Bool-cases (has_expansion path)) [
    | inl e ↦ let broken : unresolved ≡ inside = rw (w, e) at h in cc broken
    | inr x ↦ (
      w,
      x,
      elim (Bool-cases (starts_with path (codes "/"))) [
        | inr n ↦ inl n
        | inl a ↦ elim (Bool-cases (any (λ root. holds path root) roots)) [
          | inl r ↦ inr r
          | inr n ↦ elim (Bool-cases (is_empty path || text_eq path (codes "."))) [
            | inl d ↦ inl (relative_path path d)
            | inr d ↦ let broken : outside ≡ inside = rw (w, x, d, a, n) at h in cc broken
          ]
        ]
      ],
    )
  ]
]

or-true : (b : Bool) → b || true ≡ true
or-true true = refl
or-true false = refl

any-find :
    (p : Text → Bool) (xs : List Text)
    → any p xs ≡ true
    → (x : Text) × (includes x xs ≡ true) × (p x ≡ true)
any-find p [] h = cc
any-find p (x ∷ xs) h = elim (Bool-cases (p x)) [
  | inl e ↦ (x, rw (text_eq_refl x) refl, e)
  | inr n ↦
      let (y, found, e) = any-find p xs (rw n at h) in (y, rw found (or-true (text_eq x y)), e)
]

and-right : (a b : Bool) → a && b ≡ true → b ≡ true
and-right true b h = h
and-right false b h = cc

-- What a path under a root shows.
LandsBelow-root :
    (path root : Text)
    → has_walk path ≡ false
    → is_under path root ≡ true
    → (top : List Text) × (follow_path [] (trim_slashes root) ≡ some top)
      × LandsBelow top (follow_path [] path)
unfolding has_walk is_under
LandsBelow-root path root w h =
    let r = trim_slashes root in
    elim (or-cases (text_eq path r) _ (and-right (not (is_empty r)) _ h)) [
      | inl e ↦
          let same : path ≡ r = (text_eq_iff path r).0 e in
          let (below, reached) = follow-LandsBelow [] (split b'/' path) w in
          (
            below ++ [],
            subst (λ (s : Text). follow_path [] s ≡ some (below ++ [])) same reached,
            ([], reached),
          )
      | inr e ↦
          let (rest, shape) = starts_with-append path (r ++ codes "/") e in
          let parts : split b'/' path ≡ split b'/' r ++ split b'/' rest =
            ap (λ s. split b'/' s) (shape ∙ append_assoc r (codes "/") rest)
            ∙ (unfold codes in split-append b'/' [] r rest) in
          let (upper, lower_part) =
            includes-append (codes "..") (split b'/' r) (split b'/' rest)
              (subst (λ ss. includes (codes "..") ss ≡ false) parts w) in
          let (above, top) = follow-LandsBelow [] (split b'/' r) upper in
          let (below, reached) = follow-LandsBelow (above ++ []) (split b'/' rest) lower_part in
          (
            above ++ [],
            top,
            (
              below,
              ap (λ ss. follow [] ss) parts
                  ∙ follow-append [] (split b'/' r) (split b'/' rest) (above ++ []) top
                  ∙ reached,
            ),
          )
    ]

-- The path that is made of a write target which is called inside, by stripping the quotes at its two
-- ends and rewriting a settled expansion at its front, has no expansion left in it, and following it
-- either starts from the working directory and ends there or below, or starts from the root directory
-- and ends at a declared write root or below. This is about that path, and not about what a shell makes
-- of quotes in the middle of the target or of a name that follows the expansion with no slash between.
pub classify_write_target-inside :
    (target : Text) (write_roots here : List Text)
    → classify_write_target target write_roots ≡ inside
    → (has_expansion (settle (strip_quotes target)) ≡ false)
      × (((starts_with (settle (strip_quotes target)) (codes "/") ≡ false)
            × LandsBelow here (follow_path here (settle (strip_quotes target))))
          ⊎ ((root : Text) × (includes root write_roots ≡ true)
              × (top : List Text) × (follow_path [] (trim_slashes root) ≡ some top)
              × LandsBelow top (follow_path [] (settle (strip_quotes target)))))
unfolding classify_write_target has_walk
classify_write_target-inside target roots here h =
    let cleaned = strip_quotes target in
    let path = settle cleaned in
    elim (Bool-cases (is_outside_expansion cleaned)) [
      | inl e ↦ let broken : outside ≡ inside = rw e at h in cc broken
      | inr n ↦
          let (walk, expansion, place) = settled_inside path roots (rw n at h) in
          (
            expansion,
            elim place [
              | inl relative ↦ inl (relative, follow-LandsBelow here (split b'/' path) walk)
              | inr under ↦
                  let (root, listed, test) = any-find (λ r. holds path r) roots under in
                  let (top, settled, lands) =
                    LandsBelow-root path root walk (and-right (not (is_empty root)) _ test) in
                  inr (root, listed, top, settled, lands)
            ],
          )
    ]
