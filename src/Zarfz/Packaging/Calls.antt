-- ===== src/Zarfz/Packaging/Calls.antt =====
-- Which calls of Zarf a `Deploy` makes, and in which order.
use zarf_api.Prelude.{
  list_beq_iff, ◌≡◌, refl, ◌⊎◌, inl, inr, Option, none, some, List, [], ◌∷◌, ◌++◌, Text, Map, ℕ,
  ◌==◌, nat_eq, list_eq, Bool-cases, Option-cases,
}
use zarf_api.Store.{Verification}
use zarf_api.Zarfz.{
  no_package, no_deploy, Json, ValueLib, DeployRequest, ZarfError, Fallible, ok, err, build_values,
  build_overrides, verify_strategy,
}
use zarf_api.Zarfz.Packaging.Asked.{
  Means, Means-verify_strategy, LoadsAs, DeploysAs, load_options-LoadsAs, deploy_options-DeploysAs,
}
use zarf_api.Zarfz.Packaging.{
  Packager, LoadOptions, DeployOptions, Call, load_package, clean_up, deploy_package, Deployed,
  load_options, deploy_options, deploy_loaded, deploy, or_error,
}

Fallible-cases {ℓ} :
    {A : Type ℓ} (r : Fallible A) → ((e : ZarfError) × (r ≡ err e)) ⊎ ((a : A) × (r ≡ ok a))
Fallible-cases (err e) = inl (e, refl)
Fallible-cases (ok a) = inr (a, refl)

abbrev pub Fails {ℓ} : {A : Type ℓ} → Fallible A → Type ℓ
Fails {A = A} r = (e : ZarfError) × (r ≡ err e)

-- The call that loads the request's package.
abbrev pub Loads : Packager → DeployRequest → Call → Type 0
Loads zarf req load =
    (opts : LoadOptions) × LoadsAs zarf req opts × (load ≡ load_package req.source opts)

-- Why nothing is asked of Zarf.
pub data Refusal (zarf : Packager) (req : DeployRequest) : Type 0 where
  sourceless : req.source ≡ [] → Refusal zarf req
  cacheless : zarf.absolute_cache_path ≡ none → Refusal zarf req
  unverifiable : ((v : Verification) → ¬ Means req.verify v) → Refusal zarf req

-- How a deployment can go, by its result and its calls.
pub data Course (lib : ValueLib) (zarf : Packager) (req : DeployRequest)
    (r : Fallible (List Deployed)) (calls : List Call) : Type 0 where
  refused : Refusal zarf req → Fails r → calls ≡ [] → Course lib zarf req r calls
  not_loaded :
      (load : Call)
      → Loads zarf req load
      → zarf.handed (load ∷ []) ≡ none
      → r ≡ err no_package
      → calls ≡ load ∷ []
      → Course lib zarf req r calls
  unfit :
      (load : Call) (layout : ℕ)
      → Loads zarf req load
      → zarf.handed (load ∷ []) ≡ some layout
      → Fails (build_values lib req.values req.set_values)
        ⊎ Fails (build_overrides lib req.values_overrides)
      → Fails r
      → calls ≡ load ∷ clean_up layout ∷ []
      → Course lib zarf req r calls
  ran :
      (load : Call) (layout : ℕ) (values : Map Text Json)
      (overrides : Option (Map Text (Map Text (Map Text Json))))
      → Loads zarf req load
      → zarf.handed (load ∷ []) ≡ some layout
      → build_values lib req.values req.set_values ≡ ok values
      → build_overrides lib req.values_overrides ≡ ok overrides
      → (opts : DeployOptions) → DeploysAs req values overrides opts
      → r ≡ or_error no_deploy (zarf.deployed (load ∷ deploy_package layout opts ∷ []))
      → calls ≡ load ∷ deploy_package layout opts ∷ clean_up layout ∷ []
      → Course lib zarf req r calls

loaded-Course :
    (lib : ValueLib) (zarf : Packager) (req : DeployRequest) (load : Call) (layout : ℕ)
    → Loads zarf req load
    → zarf.handed (load ∷ []) ≡ some layout
    → let out = deploy_loaded lib zarf req layout (load ∷ []) in
      Course lib zarf req out.0 (out.1 ++ clean_up layout ∷ [])
unfolding deploy_loaded
loaded-Course lib zarf req load layout loads loaded =
    elim (Fallible-cases (build_values lib req.values req.set_values)) [
      | inl (e, bad) ↦ rw bad (unfit load layout loads loaded (inl (e, bad)) (_, refl) refl)
      | inr (values, built) ↦ elim (Fallible-cases (build_overrides lib req.values_overrides)) [
        | inl (e, bad) ↦
            rw (built, bad) (unfit load layout loads loaded (inr (e, bad)) (_, refl) refl)
        | inr (overrides, made) ↦
            rw (built, made)
              (ran load layout values overrides loads loaded built made
                (deploy_options req values overrides)
                (deploy_options-DeploysAs req values overrides) refl refl)
      ]
    ]

-- A deployment goes one of four ways. It is refused, with no call of Zarf, for want of a source, of
-- the cache's path or of a verification mode that has a meaning. Or its one call is to load the
-- request's source, with the strategy that its mode means and the request's other options, and that
-- fails. Or the package is so loaded, its values or overrides cannot be built, and it is cleaned up.
-- Or it is so loaded, handed to Zarf's deployment with each of the request's options and what was
-- built, and cleaned up last, and the result is what Zarf made of it.
pub deploy-Course :
    (lib : ValueLib) (zarf : Packager) (req : DeployRequest)
    → let out = deploy lib zarf req [] in Course lib zarf req out.0 out.1
unfolding deploy
deploy-Course lib zarf req = elim (Bool-cases (req.source == [])) [
  | inl empty ↦
      simp empty (refused (sourceless ((list_beq_iff req.source []).0 empty)) (_, refl) refl)
  | inr source ↦ elim (Option-cases zarf.absolute_cache_path) [
    | inl nowhere ↦ simp (source, nowhere) (refused (cacheless nowhere) (_, refl) refl)
    | inr (cache, at_cache) ↦ elim (Fallible-cases (verify_strategy req.verify)) [
      | inl (e, bad) ↦
          simp (source, at_cache, bad)
            (refused (unverifiable (λ v m. cc (Means-verify_strategy m, bad))) (_, refl) refl)
      | inr (strategy, good) ↦
          let load = load_package req.source (load_options zarf req cache strategy) in
          let loads : Loads zarf req load = (
            load_options zarf req cache strategy,
            load_options-LoadsAs zarf req cache strategy at_cache good,
            refl,
          ) in
          elim (Option-cases (zarf.handed (load ∷ []))) [
            | inl missing ↦
                simp (source, at_cache, good, missing) (not_loaded load loads missing refl refl)
            | inr (layout, loaded) ↦
                simp (source, at_cache, good, loaded)
                  (loaded-Course lib zarf req load layout loads loaded)
          ]
    ]
  ]
]
