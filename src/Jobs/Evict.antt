-- ===== src/Jobs/Evict.antt =====
-- The eviction loop of `Create`: where it stops, and what it never drops.
use zarf_api.Prelude.{
  ℕ, zero, suc, ◌≤◌, ◌≡◌, ◌≢◌, refl, true, false, ◌⊎◌, some, List, [], ◌∷◌, ◌++◌, Text, Map, ◌==◌,
  nat_eq, list_eq, list_beq_iff, lookup, delete, lookup-delete, length, get_elem?, arith,
}
use zarf_api.Jobs.{Job, is_unfinished, blocks, deref, evict}

-- the oldest id of the order names a job that is pending or running, or none
abbrev pub HeadBlocks : List Job → Map Text ℕ → List Text → Type 0
HeadBlocks heap jobs [] = ⊥
HeadBlocks heap jobs (oldest ∷ order) = blocks (deref heap (lookup oldest jobs)) ≡ true

pub get_elem?-append :
    (heap : List Job) (j k : Job) (a : ℕ)
    → get_elem? heap a ≡ some k
    → get_elem? (heap ++ j ∷ []) a ≡ some k
get_elem?-append [] j k a h = cc
get_elem?-append (x ∷ heap) j k zero h = h
get_elem?-append (x ∷ heap) j k (suc a) h = get_elem?-append heap j k a h

pub get_elem?-append_new :
    (heap : List Job) (j : Job) → get_elem? (heap ++ j ∷ []) (length heap) ≡ some j
get_elem?-append_new [] j = refl
get_elem?-append_new (x ∷ heap) j = get_elem?-append_new heap j

pub ne_beq : (id x : Text) → id ≢ x → (id == x) ≡ false
ne_beq id x ne = ground (arith, list_beq_iff id x)

pub evict_blocked :
    (max : ℕ) (heap : List Job) (jobs : Map Text ℕ) (oldest : Text) (order : List Text)
    → blocks (deref heap (lookup oldest jobs)) ≡ true
    → evict max heap jobs (oldest ∷ order) ≡ (jobs, oldest ∷ order)
unfolding evict
evict_blocked max heap jobs oldest order h = ground arith

pub evict_stops :
    (max : ℕ) (heap : List Job) (jobs : Map Text ℕ) (order : List Text)
    → let kept = evict max heap jobs order in (length kept.1 ≤ max) ⊎ HeadBlocks heap kept.0 kept.1
unfolding evict
evict_stops max heap jobs [] = ground arith
evict_stops max heap jobs (oldest ∷ order) =
    ground (arith, evict_stops max heap (delete oldest jobs) order)

pub evict_keeps_unfinished :
    (max : ℕ) (heap : List Job) (jobs : Map Text ℕ) (order : List Text) (id : Text) (a : ℕ)
    (j : Job)
    → lookup id jobs ≡ some a
    → get_elem? heap a ≡ some j
    → is_unfinished j.status ≡ true
    → lookup id (evict max heap jobs order).0 ≡ some a
unfolding evict
evict_keeps_unfinished max heap jobs [] id a j h g u = h
evict_keeps_unfinished max heap jobs (oldest ∷ order) id a j h g u = ground (
  arith,
  list_beq_iff oldest id,
  lookup-delete oldest id jobs,
  evict_keeps_unfinished max heap (delete oldest jobs) order id a j,
)
