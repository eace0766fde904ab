-- ===== src/Addschema/Lines.antt =====
-- The lines of `checksums.txt` before and after.
use mathlib.Core.List.{append_assoc, Perm, perm_append_singleton}
use mathlib.Core.List.Perm
use zarf_api.Prelude.{
  ℕ, ◌≡◌, refl, sym, subst, ◌∙◌, ap, Bool, true, false, not, ◌&&◌, ◌||◌, List, [], ◌∷◌, ◌++◌, Text,
  lit, ◌==◌, nat_eq, list_eq, all, all-append, length, length-sort, length-append, ◌<◌, contains,
  insert_sorted, sort, sort-perm, sort-IsSorted, IsSorted, text_leb, text_leb_total, arith,
}
use zarf_api.Addschema.{Tools, attach, split, join, non_empty, sums_of, schema_line, new_checksums}

-- a text that stands on one line, and is not empty
abbrev pub is_line : Text → Bool
is_line l = not (l == []) && not (contains b'\n' l)

-- each line with its end
abbrev terminated : List Text → Text
terminated [] = []
terminated (l ∷ lines) = l ++ b'\n' ∷ terminated lines

split-terminated :
    (l s : Text) → contains b'\n' l ≡ false → split b'\n' (l ++ b'\n' ∷ s) ≡ l ∷ split b'\n' s
unfolding split
split-terminated [] s h = refl
split-terminated (c ∷ l) s h = ground (arith, h, split-terminated l s)

sums_of-terminated :
    (lines : List Text) → all is_line lines ≡ true → sums_of (terminated lines) ≡ lines
unfolding sums_of split non_empty
sums_of-terminated [] h = refl
sums_of-terminated (l ∷ lines) h =
    let e = split-terminated l (terminated lines) (ground (arith, h)) in
    let ih = sums_of-terminated lines (ground (arith, h)) in ap non_empty e ∙ ground (arith, h, ih)

join-terminated :
    (l : Text) (lines : List Text)
    → join (b'\n' ∷ []) (l ∷ lines) ++ b'\n' ∷ [] ≡ terminated (l ∷ lines)
unfolding join
join-terminated l [] = refl
join-terminated l (k ∷ lines) =
    append_assoc l _ _ ∙ ap (λ t. l ++ b'\n' ∷ t) (join-terminated k lines)

attach-is_line :
    (c : ℕ) (lines : List Text)
    → (c == b'\n') ≡ false
    → all (λ l. not (contains b'\n' l)) lines ≡ true
    → all (λ l. not (contains b'\n' l)) (attach c lines) ≡ true
attach-is_line c [] e h = ground (arith, e)
attach-is_line c (l ∷ lines) e h = ground (arith, e, h)

split-is_line : (s : Text) → all (λ l. not (contains b'\n' l)) (split b'\n' s) ≡ true
unfolding split
split-is_line [] = refl
split-is_line (c ∷ s) = ground (arith, split-is_line s, attach-is_line c (split b'\n' s))

non_empty-is_line :
    (lines : List Text)
    → all (λ l. not (contains b'\n' l)) lines ≡ true
    → all is_line (non_empty lines) ≡ true
unfolding non_empty
non_empty-is_line [] h = refl
non_empty-is_line (l ∷ lines) h = ground (arith, h, non_empty-is_line lines)

all-insert_sorted :
    (p : Text → Bool) (l : Text) (lines : List Text)
    → all p (insert_sorted text_leb l lines) ≡ (p l && all p lines)
unfolding insert_sorted
all-insert_sorted p l [] = refl
all-insert_sorted p l (k ∷ lines) = ground (arith, all-insert_sorted p l lines)

all-sort : (p : Text → Bool) (lines : List Text) → all p (sort text_leb lines) ≡ all p lines
unfolding sort
all-sort p [] = refl
all-sort p (l ∷ lines) =
    all-insert_sorted p l (sort text_leb lines) ∙ ap (λ t. p l && t) (all-sort p lines)

sums_of-join :
    (lines : List Text)
    → 0 < length lines
    → all is_line lines ≡ true
    → sums_of (join (b'\n' ∷ []) lines ++ b'\n' ∷ []) ≡ lines
sums_of-join [] some_line h = elim some_line [ ]
sums_of-join (l ∷ lines) some_line h =
    ap sums_of (join-terminated l lines) ∙ sums_of-terminated (l ∷ lines) h

contains-append : (c : ℕ) (s t : Text) → contains c (s ++ t) ≡ (contains c s || contains c t)
contains-append c [] t = refl
contains-append c (d ∷ s) t = ground (arith, contains-append c s t)

append_filled : (s : Text) (c : ℕ) (t : Text) → (s ++ c ∷ t == []) ≡ false
append_filled [] c t = refl
append_filled (d ∷ s) c t = refl

module _ (t : Tools) (checksums schema : Text)
    (hex : contains b'\n' (t.sha256_hex schema) ≡ false) where
  schema_line-is_line : is_line (schema_line t schema) ≡ true
  unfolding schema_line
  schema_line-is_line = ground (
    arith,
    hex,
    contains-append b'\n' (t.sha256_hex schema) (lit " config.schema.json"),
    append_filled (t.sha256_hex schema) b' ' (lit "config.schema.json"),
  )

  abbrev registered : List Text
  registered = sort text_leb (sums_of checksums ++ schema_line t schema ∷ [])

  registered-is_line : all is_line registered ≡ true
  unfolding sums_of
  registered-is_line =
      all-sort is_line (sums_of checksums ++ schema_line t schema ∷ [])
      ∙ all-append is_line (sums_of checksums) (schema_line t schema ∷ [])
      ∙ ground (
        arith,
        schema_line-is_line,
        non_empty-is_line (split b'\n' checksums) (split-is_line checksums),
      )

  filled : 0 < length registered
  filled = omega (
    arith,
    length-sort text_leb (sums_of checksums ++ schema_line t schema ∷ []),
    length-append (sums_of checksums) (schema_line t schema ∷ []),
  )

  new_checksums_lem : sums_of (new_checksums t checksums schema) ≡ registered
  new_checksums_lem = unfold new_checksums in sums_of-join registered filled registered-is_line

  -- When the digest is written without a line feed, the lines of the new `checksums.txt`, read back as
  -- the tool reads them, are those of the old one and the schema's, each as often as before, in
  -- sorted order.
  pub sums_of-new_checksums :
      let lines = sums_of (new_checksums t checksums schema) in
      Perm lines (schema_line t schema ∷ sums_of checksums) × IsSorted text_leb lines
  sums_of-new_checksums =
      subst
        (λ lines. Perm lines (schema_line t schema ∷ sums_of checksums) × IsSorted text_leb lines)
        (sym new_checksums_lem)
        (
          Perm.trans (sort-perm text_leb _)
              (perm_append_singleton (schema_line t schema) (sums_of checksums)),
          sort-IsSorted text_leb text_leb_total _,
        )
