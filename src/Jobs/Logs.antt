-- ===== src/Jobs/Logs.antt =====
-- The log buffer of a job: what `append` keeps and what `Logs(tail)` shows.
use Prim.Native.Nat.{min}
use zarf_api.Prelude.{
  ℕ, zero, suc, ◌-◌, ◌≤◌, ◌≡◌, refl, sym, ap, ◌∙◌, List, [], ◌∷◌, ◌++◌, ℤ, pos, negsuc, length,
  drop, length-append, length-drop, drop-drop, drop-append, arith, ltb, ltb→lt, lt→ltb, Bool-cases,
  inl, inr,
}
use mathlib.Core.List.{append_assoc, append-nil}
use zarf_api.Jobs.{Job, LogEntry, logs, append}

-- the last `n` entries
abbrev pub last : ℕ → List LogEntry → List LogEntry
last n es = drop (length es - n) es

pub append_all : Job → List LogEntry → Job
append_all j [] = j
append_all j (e ∷ es) = append_all (append j e) es

length-last-le : (n : ℕ) (es : List LogEntry) → length (last n es) ≤ n
length-last-le n es = rw length-drop (omega arith)

last_all : (n : ℕ) (es : List LogEntry) → length es ≤ n → last n es ≡ es
last_all n es h = ap (λ i. drop i es) (let e : length es - n ≡ 0 = omega arith in e)

-- To cut the front off early changes nothing of the last `n`.
last-append : (n : ℕ) (xs ys : List LogEntry) → last n (last n xs ++ ys) ≡ last n (xs ++ ys)
last-append n xs ys =
    let k = length xs - n in
    rw (← drop-append k xs ys (omega arith))
      (rw (drop-drop, length-drop, length-append) (ap (λ i. drop i (xs ++ ys)) (omega arith)))

pub max_log_lines-append : (j : Job) (e : LogEntry) → (append j e).max_log_lines ≡ j.max_log_lines
unfolding append
max_log_lines-append j e = refl

logs-append : (j : Job) (e : LogEntry) → (append j e).logs ≡ last j.max_log_lines (j.logs ++ e ∷ [])
unfolding append
logs-append j e = ground arith

logs-append_all :
    (j : Job) (es : List LogEntry)
    → length j.logs ≤ j.max_log_lines
    → (append_all j es).logs ≡ last j.max_log_lines (j.logs ++ es)
unfolding append_all
logs-append_all j [] h =
    rw append-nil
      (ap (λ i. drop i j.logs) (let e : 0 ≡ length j.logs - j.max_log_lines = omega arith in e))
logs-append_all j (e ∷ es) h = rw (
  logs-append_all (append j e) es
      (rw (logs-append j e, max_log_lines-append j e) (length-last-le _ _)),
  logs-append j e,
  max_log_lines-append j e,
  last-append,
  append_assoc,
)

last-last : (m n : ℕ) (es : List LogEntry) → last m (last n es) ≡ last (min m n) es
last-last m n es = rw (drop-drop, length-drop) (ap (λ i. drop i es) (omega arith))

-- `tail` 0 or less asks for all lines
abbrev pub shown : ℤ → ℕ → ℕ
shown (pos zero) n = n
shown (pos (suc tail)) n = min (suc tail) n
shown (negsuc _) n = n

logs-eq-last :
    (j : Job) (tail : ℤ) (n : ℕ) → length j.logs ≤ n → logs j tail ≡ last (shown tail n) j.logs
unfolding logs
logs-eq-last j (pos zero) n h = sym (last_all n j.logs h)
logs-eq-last j (pos (suc t)) n h = elim (Bool-cases (ltb (suc t) (length j.logs))) [
  | inl cut ↦
      let e : length j.logs - suc t ≡ length j.logs - min (suc t) n =
        omega (arith, ltb→lt (suc t) (length j.logs) cut) in
      rw (lt→ltb 0 (suc t) (omega arith), cut) (ap (λ i. drop i j.logs) e)
  | inr short ↦
      rw (lt→ltb 0 (suc t) (omega arith), short)
        (sym (last_all (min (suc t) n) j.logs (ground (arith, short))))
]
logs-eq-last j (negsuc t) n h = sym (last_all n j.logs h)

shown-le : (tail : ℤ) (n : ℕ) → shown tail n ≤ n
shown-le (pos zero) n = omega arith
shown-le (pos (suc t)) n = omega arith
shown-le (negsuc t) n = omega arith

-- However many lines a fresh job has logged, the buffer holds the last `maxLogLines` of them, and
-- `Logs(tail)` shows the last `tail` of those, or all of those when `tail` is not positive.
pub logs-append_all-last :
    (j : Job) (es : List LogEntry) (tail : ℤ)
    → j.logs ≡ []
    → ((append_all j es).logs ≡ last j.max_log_lines es)
      × (logs (append_all j es) tail ≡ last (shown tail j.max_log_lines) es)
logs-append_all-last j es tail h =
    let kept : (append_all j es).logs ≡ last j.max_log_lines es =
      logs-append_all j es (rw h (omega arith)) ∙ rw h in
    let shorter : length (append_all j es).logs ≤ j.max_log_lines = rw kept (length-last-le _ es) in
    (
      kept,
      logs-eq-last (append_all j es) tail j.max_log_lines shorter
          ∙ rw (kept, last-last)
              (ap (λ k. last k es) (omega (arith, shown-le tail j.max_log_lines))),
    )
