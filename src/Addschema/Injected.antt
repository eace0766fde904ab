-- ===== src/Addschema/Injected.antt =====
-- The entries of the archive before and after.
use zarf_api.Prelude.{
  ◌≡◌, ◌≢◌, refl, sym, subst, ◌∙◌, ap, true, false, Option, none, some, List, [], ◌∷◌, Text, Map,
  lit, ◌==◌, nat_eq, list_eq, list_beq_iff, lookup, insert, arith, Bool-cases, inl, inr,
}
use zarf_api.Addschema.{
  Entry, Yaml, table, plain, Tools, ◌>>=◌, checksums_of, new_checksums, with_checksum, update_yaml,
  filled, update_entry, update_entries, write_entry, write_entries, schema_entry, inject,
}

-- What becomes of an entry when `checksums` is the new list of checksums.
pub data Carried (t : Tools) (checksums : Text) (e : Entry) (e' : Entry) : Type 0 where
  listed : e.name ≡ lit "checksums.txt" → e' ≡ filled e checksums → Carried t checksums e e'
  defined :
      (doc : Map Text Yaml) (meta : Map Text Text) (contents : Text)
      → e.name ≡ lit "zarf.yaml"
      → t.unmarshal e.contents ≡ some doc
      → lookup (lit "metadata") doc ≡ some (table meta)
      → t.marshal (
          insert
            (lit "metadata")
            (table (insert (lit "aggregateChecksum") (t.sha256_hex checksums) meta))
            doc)
        ≡ some contents
      → e' ≡ filled e contents
      → Carried t checksums e e'
  kept : e.name ≢ lit "checksums.txt" → e.name ≢ lit "zarf.yaml" → e' ≡ e → Carried t checksums e e'

-- One after the other.
abbrev pub AllCarried : Tools → Text → List Entry → List Entry → Type 0
AllCarried t checksums [] [] = Unit
AllCarried t checksums (e ∷ es) (e' ∷ es') =
    Carried t checksums e e' × AllCarried t checksums es es'
AllCarried t checksums _ _ = ⊥

bind_some {ℓ κ} :
    {A : Type ℓ} {B : Type κ} (m : Option A) (f : A → Option B) (b : B)
    → (m >>= f) ≡ some b
    → (a : A) × (m ≡ some a) × (f a ≡ some b)
bind_some none f b h = cc
bind_some (some a) f b h = (a, refl, h)

with_checksum_lem :
    (sum : Text) (doc doc' : Map Text Yaml) (o : Option Yaml)
    → with_checksum sum doc o ≡ some doc'
    → (meta : Map Text Text) × (o ≡ some (table meta))
      × (insert (lit "metadata") (table (insert (lit "aggregateChecksum") sum meta)) doc ≡ doc')
with_checksum_lem sum doc doc' none h = cc
with_checksum_lem sum doc doc' (some (plain _)) h = cc
with_checksum_lem sum doc doc' (some (table meta)) h = (meta, refl, cc)

module _ (t : Tools) (checksums : Text) where
  write_defined :
      (e : Entry) (contents : Text)
      → e.name ≡ lit "zarf.yaml"
      → write_entry checksums (filled e contents) ≡ filled e contents
  unfolding write_entry
  write_defined e contents named =
      let other : (e.name == lit "checksums.txt") ≡ false =
        subst (λ n. (n == lit "checksums.txt") ≡ false) (sym named) refl in
      rw other refl

  defined_lem :
      (e e' : Entry)
      → (e.name == lit "zarf.yaml") ≡ true
      → update_entry t (t.sha256_hex checksums) e ≡ some e'
      → Carried t checksums e (write_entry checksums e')
  unfolding update_entry update_yaml write_entry
  defined_lem e e' y h =
      let sum = t.sha256_hex checksums in
      let step : update_entry t sum e ≡ (update_yaml t sum e.contents >>= λ c. some (filled e c)) =
        rw y refl in
      let (contents, updated, last) =
        bind_some (update_yaml t sum e.contents) _ e' (sym step ∙ h) in
      let (doc, read, more) = bind_some (t.unmarshal e.contents) _ contents updated in
      let (doc', set, written) =
        bind_some (with_checksum sum doc (lookup (lit "metadata") doc)) _ contents more in
      let (meta, at, made) = with_checksum_lem sum doc doc' (lookup (lit "metadata") doc) set in
      let named = (list_beq_iff e.name (lit "zarf.yaml")).0 y in
      let same : filled e contents ≡ e' = cc in
      defined doc meta contents named read at (ap t.marshal made ∙ written)
        (ap (write_entry checksums) (sym same) ∙ write_defined e contents named)

  entry_lem :
      (e e' : Entry)
      → update_entry t (t.sha256_hex checksums) e ≡ some e'
      → Carried t checksums e (write_entry checksums e')
  unfolding update_entry write_entry
  entry_lem e e' h = elim (Bool-cases (e.name == lit "zarf.yaml")) [
    | inl y ↦ defined_lem e e' y h
    | inr n ↦
        let step : update_entry t (t.sha256_hex checksums) e ≡ some e = rw n refl in
        let same : e ≡ e' = cc in
        elim (Bool-cases (e.name == lit "checksums.txt")) [
          | inl c ↦
              listed ((list_beq_iff e.name (lit "checksums.txt")).0 c)
                (ap (write_entry checksums) (sym same) ∙ rw c refl)
          | inr m ↦
              kept (λ q. ground (arith, m, list_beq_iff e.name (lit "checksums.txt"), q))
                (λ q. ground (arith, n, list_beq_iff e.name (lit "zarf.yaml"), q))
                (ap (write_entry checksums) (sym same) ∙ rw m refl)
        ]
  ]

  entries_lem :
      (es es' : List Entry)
      → update_entries t (t.sha256_hex checksums) es ≡ some es'
      → AllCarried t checksums es (write_entries checksums es')
  unfolding update_entries write_entries
  entries_lem [] es' h =
      let none_left : [] ≡ es' = cc in
      subst (λ l. AllCarried t checksums [] (write_entries checksums l)) none_left tt
  entries_lem (e ∷ es) es' h =
      let (e', first, more) = bind_some (update_entry t (t.sha256_hex checksums) e) _ es' h in
      let (rest, others, last) =
        bind_some (update_entries t (t.sha256_hex checksums) es) _ es' more in
      let all : e' ∷ rest ≡ es' = cc in
      subst (λ l. AllCarried t checksums (e ∷ es) (write_entries checksums l)) all
        (entry_lem e e' first, entries_lem es rest others)

-- When the tool does not panic, it writes the schema as the first entry and then the entries of the
-- package, in their order and under their names: `checksums.txt` with the new list of checksums,
-- `zarf.yaml` as its document with the digest of that list as the aggregate checksum of its metadata,
-- both with their new sizes, and any other entry as it was.
pub inject_lem :
    (t : Tools) (entries : List Entry) (schema : Text) (out : List Entry)
    → inject t entries schema ≡ some out
    → (rest : List Entry) × (out ≡ schema_entry schema ∷ rest)
      × AllCarried t (new_checksums t (checksums_of entries []) schema) entries rest
unfolding inject
inject_lem t entries schema out h =
    let checksums = new_checksums t (checksums_of entries []) schema in
    let (entries', updated, last) =
      bind_some (update_entries t (t.sha256_hex checksums) entries) _ out h in
    (write_entries checksums entries', cc, entries_lem t checksums entries entries' updated)
