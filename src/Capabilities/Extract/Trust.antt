-- ===== src/Capabilities/Extract/Trust.antt =====
-- Which destinations the requests of `extractCapabilities` (apps/server/src/capabilities.ts) mark as
-- trusted.
use code_jam.Prelude.{
  if_rule, flat_map, any, All, All-append, Text, includes, is_empty, lower, ℕ, zero, suc, ◌≡◌, refl,
  ◌≢◌, ◌⊎◌, inl, inr, true, false, not, ◌&&◌, Option, none, some, List, [], ◌∷◌, map,
}
use code_jam.Policy.Types.{
  network_egress, secret_read, file_write, Evidence, protected_material, CapabilityRequest,
  PolicyContext,
}
use code_jam.Shell.{Node}
use code_jam.Capabilities.Secrets.{find_protected_secret}
use code_jam.Capabilities.Networks.{uses_network_tool, is_inline_network, names_url, extract_hosts}
use code_jam.Capabilities.Writes.{classify_write_target}
use code_jam.Capabilities.Decoders.{max_decode_depth}
use code_jam.Capabilities.Extract.{
  is_inside_verdict, egress_requests, network_requests, secret_requests, write_request,
  write_requests, own_requests, same_key, absorb, payloads, extract_from, extract_capabilities,
}

module _ {ℓ κ μ} {A : Type ℓ} {B : Type κ} (P : B → Type μ) (f : A → List B) where
  pub All-flat_map : (xs : List A) → ((x : A) → All P (f x)) → All P (flat_map f xs)
  All-flat_map [] h = tt
  All-flat_map (x ∷ xs) h = All-append P (f x) _ (h x) (All-flat_map xs h)

module _ {ℓ κ μ} {A : Type ℓ} {B : Type κ} (P : B → Type μ) (f : A → B) where
  pub All-map : (xs : List A) → ((x : A) → P (f x)) → All P (map f xs)
  All-map [] h = tt
  All-map (x ∷ xs) h = (h x, All-map xs h)

-- What holds of the requests holds of those that are new.
pub All-absorb {ℓ} :
    (P : CapabilityRequest → Type ℓ) (seen rs : List CapabilityRequest)
    → ((r : CapabilityRequest) → P r → P (record r { decoded = true }))
    → All P rs
    → All P (absorb seen rs)
unfolding absorb
All-absorb P seen [] k h = tt
All-absorb P seen (r ∷ rs) k (p, h) =
    if_rule (λ (new : List CapabilityRequest). All P new) (any (λ s. same_key s r) seen)
      (λ _. All-absorb P seen rs k h) (λ _. (k r p, All-absorb P (r ∷ seen) rs k h))

-- The hosts of the allowlist, as they are compared.
abbrev pub allowlist : PolicyContext → List Text
allowlist context = map (λ host. lower host) context.allowed_hosts

-- A request for a named host is trusted exactly when the allowlist has the host, and one for a write
-- exactly when its target is inside.
abbrev pub IsJudged : PolicyContext → CapabilityRequest → Type 0
IsJudged context r =
    ((r.capability ≢ network_egress)
      ⊎ ((r.resource ≡ []) ⊎ (r.trusted ≡ includes r.resource (allowlist context))))
    × ((r.capability ≢ file_write)
        ⊎ (r.trusted ≡ is_inside_verdict (classify_write_target r.resource context.write_roots)))

egress_requests-IsJudged :
    (context : PolicyContext) (hosts : List Text) (via : Evidence)
    → All (λ r. IsJudged context r) (egress_requests (allowlist context) hosts via)
unfolding egress_requests
egress_requests-IsJudged context [] via = ((inr (inl refl), inl (λ e. cc e)), tt)
egress_requests-IsJudged context (h ∷ hosts) via =
    All-map (λ r. IsJudged context r) _ (h ∷ hosts) (λ host. (inr (inr refl), inl (λ e. cc e)))

network_requests-IsJudged :
    (node : Node) (command : Text) (context : PolicyContext)
    → All (λ r. IsJudged context r) (network_requests node command context)
unfolding network_requests
network_requests-IsJudged node command context =
    let P = λ (rs : List CapabilityRequest). All (λ r. IsJudged context r) rs in
    let hosts = extract_hosts node command in
    if_rule P (uses_network_tool node command) (λ _. egress_requests-IsJudged context hosts _)
      λ _.
        if_rule P (is_inline_network command) (λ _. egress_requests-IsJudged context hosts _)
          λ _.
            if_rule P (not (is_empty hosts) && names_url command)
              (λ _. egress_requests-IsJudged context hosts _) λ _. tt

own_requests-IsJudged :
    (node : Node) (command : Text) (context : PolicyContext)
    → All (λ r. IsJudged context r) (own_requests node command context)
unfolding own_requests secret_requests write_requests write_request
own_requests-IsJudged node command context =
    let P = λ (r : CapabilityRequest). IsJudged context r in
    All-append P (network_requests node command context) _
      (network_requests-IsJudged node command context)
      (All-append P _ _ (of_secret (find_protected_secret node command))
        (All-map P _ _ (λ resource. (inl (λ e. cc e), inr refl))))
  where
    of_secret :
        (found : Option Text)
        → All
            (λ r. IsJudged context r)
            (elim found as (λ _. List CapabilityRequest) [
              | none ↦ []
              | some label ↦
                  record {
                    capability = secret_read;
                    resource = label;
                    trusted = false;
                    via = protected_material;
                    decoded = false;
                  }
                  ∷ []
            ])
    of_secret none = tt
    of_secret (some label) = ((inl (λ e. cc e), inl (λ e. cc e)), tt)

extract_from-IsJudged :
    (levels : ℕ) (node : Node) (command : Text) (context : PolicyContext)
    → All (λ r. IsJudged context r) (extract_from levels node command context)
unfolding extract_from
extract_from-IsJudged zero node command context = own_requests-IsJudged node command context
extract_from-IsJudged (suc n) node command context =
    let P = λ (r : CapabilityRequest). IsJudged context r in
    let own = own_requests node command context in
    let inner =
      All-flat_map P (λ payload. extract_from n node payload context) (payloads node command)
        (λ payload. extract_from-IsJudged n node payload context) in
    All-append P own _ (own_requests-IsJudged node command context)
      (All-absorb P own _ (λ r p. p) inner)

-- No request reaches beyond the allowlist or the write roots unnoticed: each request that
-- `extractCapabilities` makes, of the command or of any text it materialises at any depth, is marked
-- trusted exactly when the allowlist, in lower case, has its host, if it is for a named host, and
-- exactly when its target is classified as inside, if it is for a write.
pub extract_capabilities-IsJudged :
    (node : Node) (command : Text) (context : PolicyContext)
    → All (λ r. IsJudged context r) (extract_capabilities node command context)
extract_capabilities-IsJudged node command context =
    extract_from-IsJudged max_decode_depth node command context
