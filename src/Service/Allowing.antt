-- ===== src/Service/Allowing.antt =====
-- About the standing allowlist (agent-service.ts) as a set of hosts.
use code_jam.Prelude.{
  Bool-cases, keep, any, Text, text_eq, text_eq_iff, text_eq_sym, includes, ◌≡◌, refl, sym, ap, ◌∙◌,
  inl, inr, Bool, true, false, not, ◌&&◌, ◌||◌, List, [], ◌∷◌, ◌++◌, arith,
}
use code_jam.Service.Allowlist.{add_host, remove_host}
use code_jam.Service.Approvals.{widen}

any-append {ℓ} :
    {A : Type ℓ} (p : A → Bool) (xs ys : List A) → any p (xs ++ ys) ≡ (any p xs || any p ys)
any-append p [] ys = refl
any-append p (x ∷ xs) ys = ground (arith, any-append p xs ys)

includes-add_host :
    (g h : Text) (xs : List Text) → includes h (add_host g xs) ≡ (includes h xs || text_eq g h)
unfolding add_host
includes-add_host g h xs = elim (Bool-cases (includes g xs)) [
  | inr e ↦ rw e (any-append (λ t. text_eq t h) xs (g ∷ []) ∙ ground arith)
  | inl e ↦ elim (Bool-cases (text_eq g h)) [
    | inl s ↦ let here : includes h xs ≡ true = rw (← (text_eq_iff g h).0 s) e in rw (e, here) refl
    | inr n ↦ rw (e, n) (ground arith)
  ]
]

includes-remove_host :
    (g h : Text) (xs : List Text)
    → includes h (remove_host g xs) ≡ (includes h xs && not (text_eq g h))
unfolding remove_host
includes-remove_host g h [] = refl
includes-remove_host g h (x ∷ xs) =
    let rest = includes-remove_host g h xs in
    elim (Bool-cases (text_eq x g)) [
      | inl e ↦
          let same : text_eq x h ≡ text_eq g h = ap (λ t. text_eq t h) ((text_eq_iff x g).0 e) in
          rw (e, same) (ground (arith, rest))
      | inr e ↦ rw e (kept x e rest)
    ]
  where
    kept :
        (x : Text)
        → text_eq x g ≡ false
        → includes h (keep (λ t. not (text_eq t g)) xs) ≡ (includes h xs && not (text_eq g h))
        → (text_eq x h || includes h (keep (λ t. not (text_eq t g)) xs))
          ≡ ((text_eq x h || includes h xs) && not (text_eq g h))
    kept x e rest = elim (Bool-cases (text_eq x h)) [
      | inl s ↦
          let other : text_eq g h ≡ false =
            ap (text_eq g) (sym ((text_eq_iff x h).0 s)) ∙ (text_eq_sym g x ∙ e) in
          rw (s, other) refl
      | inr n ↦ rw n rest
    ]

includes-widen :
    (gs xs : List Text) (h : Text) → includes h (widen gs xs) ≡ (includes h xs || includes h gs)
unfolding widen
includes-widen [] xs h = ground arith
includes-widen (g ∷ gs) xs h =
    includes-widen gs (add_host g xs) h ∙ ground (arith, includes-add_host g h xs)

-- Each host is listed once.
abbrev pub is_distinct : List Text → Bool
is_distinct [] = true
is_distinct (x ∷ xs) = not (includes x xs) && is_distinct xs

is_distinct-snoc :
    (g : Text) (xs : List Text)
    → is_distinct (xs ++ g ∷ []) ≡ (is_distinct xs && not (includes g xs))
is_distinct-snoc g [] = refl
is_distinct-snoc g (x ∷ xs) =
    ground
      (arith, is_distinct-snoc g xs, any-append (λ t. text_eq t x) xs (g ∷ []), text_eq_sym g x)

pub is_distinct-add_host :
    (g : Text) (xs : List Text) → is_distinct xs ≡ true → is_distinct (add_host g xs) ≡ true
unfolding add_host
is_distinct-add_host g xs h = ground (arith, is_distinct-snoc g xs)

pub is_distinct-widen :
    (gs xs : List Text) → is_distinct xs ≡ true → is_distinct (widen gs xs) ≡ true
unfolding widen
is_distinct-widen [] xs h = h
is_distinct-widen (g ∷ gs) xs h = is_distinct-widen gs (add_host g xs) (is_distinct-add_host g xs h)

-- The edits of the allowlist are those of a set: adding a host adds it and no other, removing one
-- removes it and no other, and widening by the hosts of a request adds just those.
pub allowlist-members :
    (g h : Text) (gs xs : List Text)
    → (includes h (add_host g xs) ≡ (includes h xs || text_eq g h))
      × (includes h (remove_host g xs) ≡ (includes h xs && not (text_eq g h)))
      × (includes h (widen gs xs) ≡ (includes h xs || includes h gs))
allowlist-members g h gs xs =
    (includes-add_host g h xs, includes-remove_host g h xs, includes-widen gs xs h)

-- If each host is listed once, then so it is after an addition and after a widening.
pub allowlist-distinct :
    (g : Text) (gs xs : List Text)
    → is_distinct xs ≡ true
    → (is_distinct (add_host g xs) ≡ true) × (is_distinct (widen gs xs) ≡ true)
allowlist-distinct g gs xs h = (is_distinct-add_host g xs h, is_distinct-widen gs xs h)
