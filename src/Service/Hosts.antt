-- ===== src/Service/Hosts.antt =====
-- About `normalizeAllowlistHost` (agent-service.ts).
use code_jam.Prelude.{
  ltb, ◌==◌, Bool-cases, length, All, ok-inj, Text, is_white, trim_start, trim_end, trim, to_lower,
  lower, http, ok, err, ℕ, ◌≤◌, ◌≡◌, refl, ap, inl, inr, Bool, true, false, not, ◌||◌, [], ◌∷◌,
  arith,
}
use code_jam.Service.Allowlist.{
  is_host_edge, is_host_inner, is_host_tail, is_host_pattern, normalize_allowlist_host,
}

inner-is_white : (c : ℕ) → is_host_inner c ≡ true → is_white c ≡ false
unfolding is_white
inner-is_white c h = ground arith

inner-to_lower : (c : ℕ) → is_host_inner c ≡ true → to_lower c ≡ c
unfolding to_lower
inner-to_lower c h = ground arith

AreInner : Text → Type 0
AreInner = All (λ c. is_host_inner c ≡ true)

tail-AreInner : (s : Text) → is_host_tail s ≡ true → AreInner s
unfolding is_host_tail AreInner
tail-AreInner [] h = tt
tail-AreInner (c ∷ []) h = (ground arith, tt)
tail-AreInner (c ∷ d ∷ s) h = elim (Bool-cases (is_host_inner c)) [
  | inl e ↦ (e, tail-AreInner (d ∷ s) (rw (e, is_host_tail) at h))
  | inr e ↦ ground arith
]

pattern-AreInner : (s : Text) → is_host_pattern s ≡ true → AreInner s
unfolding is_host_pattern AreInner
pattern-AreInner [] h = tt
pattern-AreInner (c ∷ s) h = elim (Bool-cases (is_host_edge c)) [
  | inl e ↦ (ground arith, tail-AreInner s (rw (e, is_host_pattern) at h))
  | inr e ↦ ground arith
]

trim_end-inner : (s : Text) → AreInner s → trim_end s ≡ s
unfolding trim_end AreInner
trim_end-inner [] h = refl
trim_end-inner (c ∷ s) (q, h) = rw (inner-is_white c q) (ap (◌∷◌ c) (trim_end-inner s h))

trim_start-inner : (s : Text) → AreInner s → trim_start s ≡ s
unfolding trim_start AreInner
trim_start-inner [] h = refl
trim_start-inner (c ∷ s) (q, h) = rw (inner-is_white c q) refl

lower-inner : (s : Text) → AreInner s → lower s ≡ s
unfolding AreInner
lower-inner [] h = refl
lower-inner (c ∷ s) (q, h) = ground (arith, inner-to_lower c q, lower-inner s h)

normal_form : (s : Text) → is_host_pattern s ≡ true → lower (trim s) ≡ s
unfolding trim
normal_form s h =
    let inner = pattern-AreInner s h in
    rw (trim_start-inner s inner) (rw (trim_end-inner s inner) (lower-inner s inner))

abbrev refuses : Text → Bool
refuses host = length host == 0 || ltb 253 (length host) || not (is_host_pattern host)

accepted : (host : Text) → refuses host ≡ false → normalize_allowlist_host host ≡ ok host
unfolding normalize_allowlist_host
accepted host e =
    let matches : is_host_pattern host ≡ true = ground arith in
    rw (normal_form host matches, e) refl

-- A host that is accepted matches the pattern, is not longer than 253, and is accepted as it stands
-- when it is given again, so that adding it twice or removing it by its stored text means the same
-- entry.
pub normalize_allowlist_host_idempotent :
    (raw host : Text)
    → normalize_allowlist_host raw ≡ ok host
    → (is_host_pattern host ≡ true)
      × (length host ≤ 253)
      × (normalize_allowlist_host host ≡ ok host)
unfolding normalize_allowlist_host
normalize_allowlist_host_idempotent raw host h = elim (Bool-cases (refuses (lower (trim raw)))) [
  | inl e ↦
      (let broken : err (http 400) ≡ ok host = rw (e, normalize_allowlist_host) at h in cc broken)
  | inr e ↦
      let same : lower (trim raw) ≡ host = ok-inj (rw (e, normalize_allowlist_host) at h) in
      let kept : refuses host ≡ false = rw same at e in
      (ground arith, ground arith, accepted host kept)
]
