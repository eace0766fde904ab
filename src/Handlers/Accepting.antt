-- ===== src/Handlers/Accepting.antt =====
-- `packageDeploy` and the goroutine that it starts: when a job is begun, and that it ends.
use zarf_api.Prelude.{
  ℕ, ◌≡◌, refl, subst, ◌∙◌, ap, Bool, true, false, not, ◌&&◌, Option, none, some, [], Text, lit,
  lookup, ◌==◌, nat_eq, list_eq, get_elem?, Bool-cases, Option-cases, inl, inr, if◌then◌else◌,
}
use zarf_api.Records.{not_found}
use zarf_api.Os.{World, FilePath, Result, ok, err}
use zarf_api.Os.Paths.{join}
use zarf_api.Store.{Store, valid_id, path}
use zarf_api.Store.Packages.{path_lem, absent_lem}
use zarf_api.Jobs.{Manager, Kind, kind_deploy, new_job, create}
use zarf_api.Jobs.Evict.{get_elem?-append_new}
use zarf_api.Jobs.Lifecycle.{is_some, new_job-IsConsistent}
use zarf_api.Handlers.{respond, store_error, write_store_error, Decoded, value}
use zarf_api.Handlers.Deployments.{
  DeployBody, Accepted, refused, go, decoded_or, path_text, keyed, start_deploy, sourced, deploy_by,
  deploy_from, package_deploy,
}
use zarf_api.Handlers.Running.{ZarfLib, Logging, deploying, deploy_begun, run_deploy}
use zarf_api.Handlers.Going.{Ended}
use zarf_api.Handlers.Outcomes.{Follows, run_deploy_lem}
use zarf_api.Handlers.Waiting.{deploy_code, respond_job-run_deploy}
use zarf_api.Handlers.Jobs.{respond_job}

create_new :
    (m : Manager) (kind : Kind) (pkg id : Text) (now : ℕ)
    → let (m', a) = create m kind pkg id now in
      get_elem? m'.heap a ≡ some (new_job kind pkg id now m.max_log_lines)
unfolding create
create_new m kind pkg id now = get_elem?-append_new m.heap _

module _ (s : Store) (key : Text) (m : Manager) (id job_id : Text) (now : ℕ) where
  -- the job's request, the body's with the defaults
  abbrev pub completed : DeployBody → DeployBody
  completed b = record b {
    request = record b.request {
      source =
          if b.request.source == [] then path_text (join s.packages_dir id) else b.request.source;
      public_key_path = if b.request.public_key_path == [] then key else b.request.public_key_path;
    };
  }

  abbrev pub begun : DeployBody → Accepted DeployBody
  begun b = let (m', a) = create m kind_deploy id job_id now in go m' a (completed b)

  unnamed_source :
      (b : DeployBody) (w : World)
      → (b.request.source == []) ≡ true
      → package_deploy s key m id job_id now (value b) w
        ≡ (sourced key m id job_id now b (path s id w).0, (path s id w).1)
  unfolding package_deploy
  unnamed_source b w e = rw e refl

  -- When no call of the operating system fails, a deploy request whose body decodes is answered 404
  -- when it names no source and nothing is stored under its id, or the id is not valid; otherwise it
  -- begins one job of the manager, whose request is the body's with the path of the stored package
  -- for a source that is missing and the configured key for a key that is missing. Either way the
  -- disk stays as it is.
  pub package_deploy_lem :
      (b : DeployBody) (w : World)
      → w.faults ≡ []
      → package_deploy s key m id job_id now (value b) w ≡ (
        if b.request.source == []
              && not (valid_id id && is_some (lookup (join s.packages_dir id) w.fs))
            then refused (respond 404 (store_error (not_found id)))
            else begun b,
        w,
      )
  unfolding package_deploy start_deploy write_store_error
  package_deploy_lem b w calm = elim (Bool-cases (b.request.source == [])) [
    | inr named ↦ rw named refl
    | inl unnamed ↦ elim (Bool-cases (valid_id id)) [
      | inr bad ↦
          unnamed_source b w unnamed
          ∙ rw (absent_lem s id w calm (inl bad)).0 (simp (unnamed, bad) refl)
      | inl v ↦ elim (Option-cases (lookup (join s.packages_dir id) w.fs)) [
        | inl gone ↦
            unnamed_source b w unnamed
            ∙ rw (absent_lem s id w calm (inr gone)).0 (simp (unnamed, v, gone) refl)
        | inr (n, there) ↦
            unnamed_source b w unnamed
            ∙ rw (path_lem s id w calm n v there) (simp (unnamed, v, there) refl)
      ]
    ]
  ]

  module _ (l : Logging) (zarf : ZarfLib) where
    -- How a job that is begun ends, when its goroutine runs from the world `x`: it is new and
    -- pending, its run closes its channel, and a client that waits for it is answered.
    abbrev pub Ends : Manager → ℕ → DeployBody → World → Type 0
    Ends m' a work x =
        let j = new_job kind_deploy id job_id now m.max_log_lines in
        let out = run_deploy s l zarf work.request work.delete_package_after_deploy j x in
        let begun = (deploy_begun l work.request j x).1 in
        let outcome = (deploying zarf work.request begun).1 in
        (get_elem? m'.heap a ≡ some j)
        × Ended j x out.0 (λ k. Follows s id work.delete_package_after_deploy outcome begun k out.1)
        × ((respond_job (lit "true") 202 j out.0).0 ≡ deploy_code outcome)

    -- a job that is begun ends
    abbrev EndsIfBegun : World → Accepted DeployBody → Type 0
    EndsIfBegun x (refused _) = Unit
    EndsIfBegun x (go m' a work) = Ends m' a work x

    start_deploy-Ends :
        (x : World) (b : DeployBody) → EndsIfBegun x (start_deploy key m id job_id now b)
    unfolding start_deploy
    start_deploy-Ends x b =
        let work = record b { request = keyed key b.request } in
        let fresh = new_job-IsConsistent kind_deploy id job_id now m.max_log_lines in
        (
          create_new m kind_deploy id job_id now,
          (run_deploy_lem s l zarf work.request work.delete_package_after_deploy _ x fresh refl).1,
          respond_job-run_deploy s l zarf work.request work.delete_package_after_deploy _ x fresh
              refl,
        )

    sourced-Ends :
        (x : World) (b : DeployBody) (r : Result FilePath)
        → EndsIfBegun x (sourced key m id job_id now b r)
    sourced-Ends x b (err e) = tt
    sourced-Ends x b (ok p) = start_deploy-Ends x _

    deploy_by-Ends :
        (x : World) (b : DeployBody) (t : Bool) (w : World)
        → EndsIfBegun x (deploy_by s key m id job_id now b t w).0
    deploy_by-Ends x b false w = start_deploy-Ends x b
    deploy_by-Ends x b true w = sourced-Ends x b (path s id w).0

    deploy_from-Ends :
        (x : World) (body : Option DeployBody) (w : World)
        → EndsIfBegun x (deploy_from s key m id job_id now body w).0
    deploy_from-Ends x none w = tt
    deploy_from-Ends x (some b) w = deploy_by-Ends x b (b.request.source == []) w

    -- Whatever calls of the operating system fail in between, a job that `packageDeploy` begins is a
    -- new one in the manager, and from whatever disk its goroutine runs, it takes the job to its
    -- end, as the outcome of Zarf's deployment says, without a panic, so that a client that waits is
    -- answered: 200 when the deployment succeeds, 500 when it fails.
    pub package_deploy-Ends :
        (body : Decoded DeployBody) (w w' x : World) (m' : Manager) (a : ℕ) (work : DeployBody)
        → package_deploy s key m id job_id now body w ≡ (go m' a work, w')
        → Ends m' a work x
    unfolding package_deploy
    package_deploy-Ends body w w' x m' a work h =
        subst (EndsIfBegun x) (ap (λ out. out.0) h) (deploy_from-Ends x (decoded_or _ body) w)
