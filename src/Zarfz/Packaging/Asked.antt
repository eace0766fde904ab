-- ===== src/Zarfz/Packaging/Asked.antt =====
-- What a request for a deployment asks of Zarf, field by field.
use zarf_api.Prelude.{
  ◌≡◌, refl, sym, subst, ◌∙◌, true, false, Option, some, Text, Map, lit, ◌==◌, nat_eq, list_eq,
  list_beq_iff, Bool-cases, inl, inr, arith, [],
}
use zarf_api.Store.{Verification, verify_if_possible, verify_never, verify_always}
use zarf_api.Zarfz.{Json, DeployRequest, ok, verify_strategy}
use zarf_api.Zarfz.Packaging.{
  Packager, LoadOptions, DeployOptions, for_deploy, load_options, deploy_options,
}

-- which mode means which strategy
pub data Means : Text → Verification → Type 0 where
  by_default : Means [] verify_if_possible
  if_possible : Means (lit "if-possible") verify_if_possible
  never : Means (lit "never") verify_never
  always : Means (lit "always") verify_always

pub Means-verify_strategy :
    {mode : Text} {v : Verification} → Means mode v → verify_strategy mode ≡ ok v
unfolding verify_strategy
Means-verify_strategy by_default = refl
Means-verify_strategy if_possible = refl
Means-verify_strategy never = refl
Means-verify_strategy always = refl

ok_injective : {a b : Verification} → ok a ≡ ok b → a ≡ b
ok_injective e = cc

known_mode :
    (mode known : Text) (u v : Verification)
    → (mode == known) ≡ true
    → Means known u
    → verify_strategy mode ≡ ok v
    → Means mode v
known_mode mode known u v m meant e =
    let here : Means mode u = subst (λ k. Means k u) (sym ((list_beq_iff mode known).0 m)) meant in
    subst (Means mode) (ok_injective (sym (Means-verify_strategy here) ∙ e)) here

pub verify_strategy-Means :
    (mode : Text) (v : Verification) → verify_strategy mode ≡ ok v → Means mode v
unfolding verify_strategy
verify_strategy-Means mode v e = elim (Bool-cases (mode == [])) [
  | inl m ↦ known_mode mode [] verify_if_possible v m by_default e
  | inr not_empty ↦ elim (Bool-cases (mode == lit "if-possible")) [
    | inl m ↦ known_mode mode (lit "if-possible") verify_if_possible v m if_possible e
    | inr not_possible ↦ elim (Bool-cases (mode == lit "never")) [
      | inl m ↦ known_mode mode (lit "never") verify_never v m never e
      | inr not_never ↦ elim (Bool-cases (mode == lit "always")) [
        | inl m ↦ known_mode mode (lit "always") verify_always v m always e
        | inr not_always ↦
            absurd (ground (arith, e, not_empty, not_possible, not_never, not_always))
      ]
    ]
  ]
]

-- The package is loaded as the request has it.
pub record LoadsAs (zarf : Packager) (req : DeployRequest) (opts : LoadOptions) : Type 0 where
  pub shasum : opts.shasum ≡ req.shasum
  pub verification : Means req.verify opts.verification
  pub public_key_path : opts.public_key_path ≡ req.public_key_path
  pub filter : opts.filter ≡ for_deploy req.components
  pub architecture : opts.architecture ≡ zarf.architecture
  pub oci_concurrency : opts.oci_concurrency ≡ req.oci_concurrency
  pub cache_path : zarf.absolute_cache_path ≡ some opts.cache_path

-- It is deployed as the request has it, with these values, and never asks back.
pub record DeploysAs (req : DeployRequest) (vs : Map Text Json)
    (os : Option (Map Text (Map Text (Map Text Json)))) (opts : DeployOptions) : Type 0 where
  pub values : opts.values ≡ vs
  pub overrides : opts.overrides ≡ os
  pub take_ownership : opts.take_ownership ≡ req.take_ownership
  pub connected : opts.connected ≡ req.connected
  pub force_conflicts : opts.force_conflicts ≡ req.force_conflicts
  pub timeout : opts.timeout ≡ req.timeout
  pub retries : opts.retries ≡ req.retries
  pub oci_concurrency : opts.oci_concurrency ≡ req.oci_concurrency
  pub set_variables : opts.set_variables ≡ req.set_variables
  pub namespace_override : opts.namespace_override ≡ req.namespace_override
  pub interactive : opts.interactive ≡ false
  pub skip_values_schema_validation :
      opts.skip_values_schema_validation ≡ req.skip_values_schema_validation
  pub skip_version_check : opts.skip_version_check ≡ req.skip_version_check

pub load_options-LoadsAs :
    (zarf : Packager) (req : DeployRequest) (cache : Text) (v : Verification)
    → zarf.absolute_cache_path ≡ some cache
    → verify_strategy req.verify ≡ ok v
    → LoadsAs zarf req (load_options zarf req cache v)
load_options-LoadsAs zarf req cache v at good = record {
  shasum = refl;
  verification = verify_strategy-Means req.verify v good;
  public_key_path = refl;
  filter = refl;
  architecture = refl;
  oci_concurrency = refl;
  cache_path = at;
}

pub deploy_options-DeploysAs :
    (req : DeployRequest) (values : Map Text Json)
    (overrides : Option (Map Text (Map Text (Map Text Json))))
    → DeploysAs req values overrides (deploy_options req values overrides)
deploy_options-DeploysAs req values overrides = record {
  values = refl;
  overrides = refl;
  take_ownership = refl;
  connected = refl;
  force_conflicts = refl;
  timeout = refl;
  retries = refl;
  oci_concurrency = refl;
  set_variables = refl;
  namespace_override = refl;
  interactive = refl;
  skip_values_schema_validation = refl;
  skip_version_check = refl;
}
