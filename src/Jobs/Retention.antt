-- ===== src/Jobs/Retention.antt =====
-- What the manager retains: the eviction loop of `Create`, `Get` and `List`.
use zarf_api.Prelude.{
  ℕ, ap, ◌≤◌, ◌≡◌, ◌≢◌, refl, true, false, ◌⊎◌, inl, inr, none, some, List, [], ◌∷◌, ◌++◌, Text,
  nat_eq, list_eq, list_beq_iff, lookup, lookup-insert, length, get_elem?, arith,
}
use zarf_api.Jobs.{Kind, Job, Manager, is_unfinished, create, get}
use zarf_api.Jobs.Evict.{
  HeadBlocks, get_elem?-append, get_elem?-append_new, ne_beq, evict_blocked, evict_stops,
  evict_keeps_unfinished,
}
use zarf_api.Jobs.Validity.{
  member, IsValid, AllResolve, evict-IsValid, member-append, Distinct-append, AllResolve-append,
}

-- The oldest retained job is pending or running.
pub record HeadUnfinished (m : Manager) : Type 0 where
  pub oldest : Text
  pub rest : List Text
  pub address : ℕ
  pub job : Job
  pub first : m.order ≡ oldest ∷ rest
  pub mapped : lookup oldest m.jobs ≡ some address
  pub stored : get_elem? m.heap address ≡ some job
  pub unfinished : is_unfinished job.status ≡ true

head_blocks :
    (m : Manager) (order : List Text)
    → m.order ≡ order
    → AllResolve m.heap m.jobs order
    → HeadBlocks m.heap m.jobs order
    → HeadUnfinished m
head_blocks m [] e r h = absurd h
head_blocks m (oldest ∷ rest) e r h = record {
  oldest = oldest;
  rest = rest;
  address = r.0.address;
  job = r.0.job;
  first = e;
  mapped = r.0.mapped;
  stored = r.0.stored;
  unfinished = ground (arith, h, r.0.mapped, r.0.stored);
}

head_unfinished :
    (m : Manager)
    → IsValid m
    → (length m.order ≤ m.max_jobs) ⊎ HeadBlocks m.heap m.jobs m.order
    → (length m.order ≤ m.max_jobs) ⊎ HeadUnfinished m
head_unfinished m v (inl h) = inl h
head_unfinished m v (inr h) = inr (head_blocks m m.order refl v.resolved h)

module _ (m : Manager) (kind : Kind) (pkg id : Text) (now : ℕ) where
  abbrev after : Manager
  after = (create m kind pkg id now).0

  -- Registering a job under an id that is not in use, in a manager whose order, map and jobs fit
  -- together, leaves them so.
  pub create-IsValid :
      IsValid m → lookup id m.jobs ≡ none → member id m.order ≡ false → IsValid after
  unfolding create
  create-IsValid v fresh new = evict-IsValid m m.max_jobs _ _ _ (record {
    distinct = Distinct-append id m.order new v.distinct;
    resolved = AllResolve-append m.heap m.jobs id _ m.order new refl v.resolved;
    known = λ x h.
        rw member-append (ground (arith, lookup-insert id x (length m.heap) m.jobs, v.known x));
  })

  -- After `Create` under an id that is not in use, in a manager whose order, map and jobs fit
  -- together, at most `maxJobs` jobs are retained or the oldest one retained is still pending or
  -- running.
  pub create_retains :
      IsValid m
      → lookup id m.jobs ≡ none
      → member id m.order ≡ false
      → (length after.order ≤ after.max_jobs) ⊎ HeadUnfinished after
  create_retains v fresh new = head_unfinished after (create-IsValid v fresh new) stops
    where
      stops : (length after.order ≤ after.max_jobs) ⊎ HeadBlocks after.heap after.jobs after.order
      stops = unfold create in evict_stops m.max_jobs _ _ _

  -- A job that is pending or running can be looked up after a `Create` under another id as before
  -- it, and is the same; and the new job can be looked up.
  pub create_keeps_unfinished :
      (x : Text) (a : ℕ) (j : Job)
      → get m x ≡ some a
      → get_elem? m.heap a ≡ some j
      → is_unfinished j.status ≡ true
      → id ≢ x
      → (get after x ≡ some a)
        × (get_elem? after.heap a ≡ some j)
        × (get after id ≡ some (length m.heap))
  unfolding create get
  create_keeps_unfinished x a j h g u ne = (
    evict_keeps_unfinished _ _ _ _ x a j (rw lookup-insert (ground (arith, h, list_beq_iff id x)))
        (get_elem?-append m.heap _ j a g) u,
    get_elem?-append m.heap _ j a g,
    evict_keeps_unfinished _ _ _ _ id (length m.heap) _
        (rw lookup-insert (ground (arith, list_beq_iff id id))) (get_elem?-append_new m.heap _)
        refl,
  )

  -- When the oldest job of the order is pending or running, a `Create` under another id evicts
  -- nothing: however many finished jobs stand behind it, one more is retained.
  pub create_blocked :
      (oldest : Text) (rest : List Text) (a : ℕ) (j : Job)
      → m.order ≡ oldest ∷ rest
      → id ≢ oldest
      → get m oldest ≡ some a
      → get_elem? m.heap a ≡ some j
      → is_unfinished j.status ≡ true
      → after.order ≡ m.order ++ id ∷ []
  unfolding create get
  create_blocked oldest rest a j e ne h g u = rw e (
      ap (λ kept. kept.1)
        (evict_blocked m.max_jobs _ _ oldest _
          (rw (lookup-insert, ne_beq id oldest ne, h, get_elem?-append m.heap _ j a g) u)))
