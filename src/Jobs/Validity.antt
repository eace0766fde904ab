-- ===== src/Jobs/Validity.antt =====
-- When the order, the map and the jobs of a manager fit together.
use zarf_api.Prelude.{
  ℕ, ltb, Bool-cases, ◌≡◌, ◌≢◌, refl, Bool, true, false, inl, inr, none, some, List, [], ◌∷◌, ◌++◌,
  map, Text, Map, ◌==◌, nat_eq, list_eq, list_beq_iff, lookup, insert, delete, lookup-insert,
  lookup-delete, length, get_elem?, arith, if◌then◌else◌,
}
use mathlib.Core.Option
use zarf_api.Jobs.{Job, Manager, blocks, deref, evict, list_from, list}
use zarf_api.Jobs.Evict.{get_elem?-append, get_elem?-append_new}

unfoldable pub member : Text → List Text → Bool
member id [] = false
member id (x ∷ xs) = if x == id then true else member id xs

-- The order names every job of the map once, and each name leads to the job of that id.
abbrev pub Distinct : List Text → Type 0
Distinct [] = Unit
Distinct (id ∷ order) = (member id order ≡ false) × Distinct order

pub record Resolves (heap : List Job) (jobs : Map Text ℕ) (id : Text) : Type 0 where
  pub address : ℕ
  pub job : Job
  pub mapped : lookup id jobs ≡ some address
  pub stored : get_elem? heap address ≡ some job
  pub named : job.id ≡ id

abbrev pub AllResolve : List Job → Map Text ℕ → List Text → Type 0
AllResolve heap jobs [] = Unit
AllResolve heap jobs (id ∷ order) = Resolves heap jobs id × AllResolve heap jobs order

pub record IsValid (m : Manager) : Type 0 where
  pub distinct : Distinct m.order
  pub resolved : AllResolve m.heap m.jobs m.order
  pub known : (id : Text) → lookup id m.jobs ≢ none → member id m.order ≡ true

AllResolve-delete :
    (heap : List Job) (jobs : Map Text ℕ) (id : Text) (order : List Text)
    → member id order ≡ false
    → AllResolve heap jobs order
    → AllResolve heap (delete id jobs) order
unfolding member
AllResolve-delete heap jobs id [] h r = tt
AllResolve-delete heap jobs id (x ∷ order) h r = (
  record {
    address = r.0.address;
    job = r.0.job;
    mapped =
        ground (arith, r.0.mapped, lookup-delete id x jobs, list_beq_iff id x, list_beq_iff x id);
    stored = r.0.stored;
    named = r.0.named;
  },
  AllResolve-delete heap jobs id order (ground arith) r.1,
)

pub evict-IsValid :
    (m : Manager) (max : ℕ) (heap : List Job) (jobs : Map Text ℕ) (order : List Text)
    → IsValid (record m { heap = heap; jobs = jobs; order = order })
    → let kept = evict max heap jobs order in
      IsValid (record m { heap = heap; jobs = kept.0; order = kept.1 })
unfolding evict member
evict-IsValid m max heap jobs [] v = v
evict-IsValid m max heap jobs (oldest ∷ order) v =
    let next = evict-IsValid m max heap (delete oldest jobs) order (record {
      distinct = v.distinct.1;
      resolved = AllResolve-delete heap jobs oldest order v.distinct.0 v.resolved.1;
      known =
          λ id h. ground (arith, v.known id, lookup-delete oldest id jobs, list_beq_iff oldest id);
    }) in
    elim (Bool-cases (ltb max (length (oldest ∷ order)))) [
      | inl over ↦ elim (Bool-cases (blocks (deref heap (lookup oldest jobs)))) [
        | inl stop ↦ rw (over, stop) v
        | inr drop ↦ rw (over, drop) next
      ]
      | inr within ↦ rw within v
    ]

pub member-append :
    (id x : Text) (order : List Text)
    → member id (order ++ x ∷ []) ≡ (if x == id then true else member id order)
unfolding member
member-append id x [] = refl
member-append id x (y ∷ order) = ground (arith, member-append id x order)

pub Distinct-append :
    (id : Text) (order : List Text)
    → member id order ≡ false
    → Distinct order
    → Distinct (order ++ id ∷ [])
unfolding member
Distinct-append id [] h d = (refl, tt)
Distinct-append id (x ∷ order) h d = (
  rw member-append (ground (arith, list_beq_iff id x, list_beq_iff x id)),
  Distinct-append id order (ground arith) d.1,
)

pub AllResolve-append :
    (heap : List Job) (jobs : Map Text ℕ) (id : Text) (j : Job) (order : List Text)
    → member id order ≡ false
    → j.id ≡ id
    → AllResolve heap jobs order
    → AllResolve (heap ++ j ∷ []) (insert id (length heap) jobs) (order ++ id ∷ [])
unfolding member
AllResolve-append heap jobs id j [] h e r = (
  record {
    address = length heap;
    job = j;
    mapped = rw lookup-insert (ground (arith, list_beq_iff id id));
    stored = get_elem?-append_new heap j;
    named = e;
  },
  tt,
)
AllResolve-append heap jobs id j (x ∷ order) h e r = (
  record {
    address = r.0.address;
    job = r.0.job;
    mapped = rw lookup-insert (ground (arith, r.0.mapped, list_beq_iff id x, list_beq_iff x id));
    stored = get_elem?-append heap j r.0.job r.0.address r.0.stored;
    named = r.0.named;
  },
  AllResolve-append heap jobs id j order (ground arith) e r.1,
)

pub list_from-cons :
    (jobs : Map Text ℕ) (id : Text) (a : ℕ) (order : List Text)
    → lookup id jobs ≡ some a
    → list_from jobs (id ∷ order) ≡ a ∷ list_from jobs order
unfolding list_from
list_from-cons jobs id a order h = ground arith

pub ids-list_from :
    (heap : List Job) (jobs : Map Text ℕ) (order : List Text)
    → AllResolve heap jobs order
    → map (λ a. Option.map (λ (j : Job). j.id) (get_elem? heap a)) (list_from jobs order)
      ≡ map some order
ids-list_from heap jobs [] r = unfold list_from in refl
ids-list_from heap jobs (id ∷ order) r = rw (
  list_from-cons jobs id r.0.address order r.0.mapped,
  r.0.stored,
  r.0.named,
  ids-list_from heap jobs order r.1,
)

-- In a manager whose order, map and jobs fit together, `List` returns the jobs of the ids of the
-- order, in that order.
pub ids-list :
    (m : Manager)
    → IsValid m
    → map (λ a. Option.map (λ (j : Job). j.id) (get_elem? m.heap a)) (list m) ≡ map some m.order
unfolding list
ids-list m v = ids-list_from m.heap m.jobs m.order v.resolved
