-- ===== src/Zarfz/Examples.antt =====
-- The theorems on values and deployments where a values document has the two paths `.a` and `.b`.
use mathlib.Core.List.{not-mem-nil, mem-cons, Permᴰ, Pairwise, Pairwise-cons}
use mathlib.Core.Logic.Or
use mathlib.Core.Bool.{Bool-set}
use zarf_api.Prelude.{
  ◌⊎◌, ◌≡◌, ◌≢◌, refl, sym, ◌∙◌, ap, Bool, true, false, ◌&&◌, Option, none, some, [], ◌∷◌, Text,
  Map, lit, ◌==◌, nat_eq, list_eq, arith, if◌then◌else◌, pos, inl, inr, Bool-cases, list_beq_iff,
}
use zarf_api.Zarfz.{ValueLib, Json, null, string, other, value_path, set_all, build_values}
use zarf_api.Zarfz.{DeployRequest}
use zarf_api.Zarfz.Packaging.{Packager, deploy}
use zarf_api.Zarfz.Packaging.Calls.{Course, deploy-Course}
use zarf_api.Zarfz.Values.{success, ◌>>=?◌, build_values_perm, build_values_clash}

abbrev at : Text → Map Text Json → Json
at p [] = null
at p ((q, x) ∷ out) = let rest = at p out in if q == p then x else rest

abbrev pair : Json → Json → Map Text Json
pair x y = (lit ".a", x) ∷ (lit ".b", y) ∷ []

abbrev write : Map Text Json → Text → Json → Option (Map Text Json)
write out p x =
    if p == lit ".a"
    then some (pair x (at (lit ".b") out))
    else if p == lit ".b"
    then some (pair (at (lit ".a") out) x)
    else none

abbrev read : Map Text Json → Text → Option Json
read out p =
    if p == lit ".a" then some (at p out) else if p == lit ".b" then some (at p out) else none

abbrev values : ValueLib
values = record { set = write; infer_type = λ s. if s == lit "true" then other s else string s }

abbrev apart : Text → Text → Bool
apart p q = if p == lit ".a" then q == lit ".b" else p == lit ".b" && q == lit ".a"

Slots : Text → Text → Type 0
Slots p q = (p ≡ lit ".a") × (q ≡ lit ".b")

slots : (p q : Text) → apart p q ≡ true → Slots p q ⊎ Slots q p
unfolding Slots
slots p q h = elim (Bool-cases (p == lit ".a")) [
  | inl e ↦
      inl ((list_beq_iff p (lit ".a")).0 e, (list_beq_iff q (lit ".b")).0 (ground (arith, e, h)))
  | inr e ↦
      let (b, a) : (p == lit ".b" ≡ true) × (q == lit ".a" ≡ true) = ground (arith, e, h) in
      inr ((list_beq_iff q (lit ".a")).0 a, (list_beq_iff p (lit ".b")).0 b)
]

apart_sym : (p q : Text) → apart p q ≡ true → apart q p ≡ true
unfolding Slots
apart_sym p q h = elim (slots p q h) [ inl (a, b) ↦ rw (a, b) refl | inr (a, b) ↦ rw (a, b) refl ]

write_comm :
    (out : Map Text Json) (p q : Text) (x y : Json)
    → apart p q ≡ true
    → (write out p x >>=? λ o. write o q y) ≡ (write out q y >>=? λ o. write o p x)
unfolding Slots
write_comm out p q x y h = elim (slots p q h) [
  | inl (a, b) ↦ rw (a, b) refl
  | inr (a, b) ↦ rw (a, b) refl
]

read-write :
    (out out' : Map Text Json) (p : Text) (x : Json)
    → write out p x ≡ some out'
    → read out' p ≡ some x
read-write out out' p x h = elim (Bool-cases (p == lit ".a")) [
  | inl e ↦
      let wrote : pair x (at (lit ".b") out) ≡ out' = ground (arith, e, h) in
      ap (λ m. read m p) (sym wrote) ∙ rw ((list_beq_iff p (lit ".a")).0 e) refl
  | inr e ↦ elim (Bool-cases (p == lit ".b")) [
    | inl f ↦
        let wrote : pair (at (lit ".a") out) x ≡ out' = ground (arith, e, f, h) in
        ap (λ m. read m p) (sym wrote) ∙ rw ((list_beq_iff p (lit ".b")).0 f) refl
    | inr f ↦ ground (arith, e, f, h)
  ]
]

build_values_perm_example :
    success (build_values values [] ((lit "a", lit "true") ∷ (lit ".b", lit "x") ∷ []))
    ≡ success (build_values values [] ((lit ".b", lit "x") ∷ (lit "a", lit "true") ∷ []))
unfolding value_path
build_values_perm_example =
    build_values_perm values apart apart_sym write_comm [] (Permᴰ.swap refl refl) (
      Pairwise-cons.1 (
        (λ b m.
            Or.elim (Bool-set _ _) (mem-cons.0 m) (λ e. rw e refl) (λ n. elim (not-mem-nil n) [ ])),
        Pairwise-cons.1 ((λ b m. elim (not-mem-nil m) [ ]), Pairwise.nil),
      ))

abbrev first : Map Text Json
first = pair (string (lit "x")) null

build_values_clash_example :
    (read (pair (string (lit "x")) null) (lit ".a") ≡ some (string (lit "x")))
    × (read (pair (other (lit "true")) null) (lit ".a") ≡ some (other (lit "true")))
    × (pair (string (lit "x")) null ≢ pair (other (lit "true")) null)
build_values_clash_example =
    build_values_clash values read read-write (lit "a") (lit "true") (lit "x") [] first
      (pair (other (lit "true")) null) refl (λ e. cc)
      (unfold build_values set_all value_path in refl)
      (unfold build_values set_all value_path in refl)

abbrev request : DeployRequest
request = record {
  source = lit "oci://p";
  components = [];
  set_variables = [];
  set_values = (lit "a", lit "true") ∷ [];
  values = [];
  values_overrides = [];
  namespace_override = [];
  take_ownership = false;
  connected = false;
  force_conflicts = false;
  timeout = pos 0;
  retries = pos 3;
  oci_concurrency = pos 2;
  shasum = [];
  verify = lit "never";
  public_key_path = [];
  skip_values_schema_validation = false;
  skip_version_check = false;
}

-- Zarf loads every package as the one numbered 7, and deploys it with no component.
abbrev zarf : Packager
zarf = record {
  absolute_cache_path = some (lit "/cache");
  architecture = lit "amd64";
  handed = λ calls. some 7;
  deployed = λ calls. some [];
  done = λ calls. true;
  listed = λ calls. ([], true);
  found = λ calls. none;
}

deploy-Course_example :
    Course values zarf request (deploy values zarf request []).0 (deploy values zarf request []).1
deploy-Course_example = deploy-Course values zarf request
