-- ===== src/Zarfz/Values.antt =====
-- `buildValues`: when the result does not depend on the order in which `range` visits `setValues`.
use mathlib.Core.List.{Permᴰ, Pairwise, Pairwise-cons, mem-cons_self}
use mathlib.Core.Path.{fun_ext}
use mathlib.Core.Bool.{Bool-set}
use mathlib.Core.List.Permᴰ
use zarf_api.Prelude.{
  ◌≡◌, ◌≢◌, refl, sym, ◌∙◌, ap, Bool, true, false, Option, none, some, [], ◌∷◌, Text, Map, lit,
  nat_eq, list_eq, has_prefix,
}
use zarf_api.Zarfz.{
  ValueLib, Json, Fallible, ok, err, settled, ◌>>=◌, value_path, set_all, build_values,
}

-- The values, without the error.
abbrev pub success {ℓ} : {A : Type ℓ} → Fallible A → Option A
success (ok a) = some a
success (err e) = none

infixl 5 ◌>>=?◌
abbrev pub ◌>>=?◌ {ℓ κ} : {A : Type ℓ} {B : Type κ} → Option A → (A → Option B) → Option B
none >>=? f = none
some a >>=? f = f a

bind_assoc {ℓ} :
    {A : Type ℓ} (m : Option A) (f g : A → Option A)
    → (m >>=? λ a. f a >>=? g) ≡ ((m >>=? f) >>=? g)
bind_assoc none f g = refl
bind_assoc (some a) f g = refl

module _ (lib : ValueLib) where
  -- one entry of the map
  put : Text × Text → Map Text Json → Option (Map Text Json)
  put e out = lib.set out (value_path e.0) (lib.infer_type e.1)

  put_all : Map Text Text → Map Text Json → Option (Map Text Json)
  unfolding put
  put_all [] out = some out
  put_all (e ∷ rest) out = put e out >>=? put_all rest

  settled_lem :
      (key : Text) (m : Option (Map Text Json)) (f : Map Text Json → Fallible (Map Text Json))
      → success (settled key m >>= f) ≡ (m >>=? λ o. success (f o))
  settled_lem key none f = refl
  settled_lem key (some o) f = refl

  put_all_lem :
      (rest : Map Text Text) (out : Map Text Json)
      → success (set_all lib out rest) ≡ put_all rest out
  unfolding set_all put_all put
  put_all_lem [] out = refl
  put_all_lem ((key, val) ∷ rest) out =
      settled_lem key (lib.set out (value_path key) (lib.infer_type val)) (λ o. set_all lib o rest)
      ∙ ap (λ f. lib.set out (value_path key) (lib.infer_type val) >>=? f)
          (fun_ext (put_all_lem rest))

  module _ (apart : Text → Text → Bool)
      (apart_sym : (p q : Text) → apart p q ≡ true → apart q p ≡ true)
      (commutes : (out : Map Text Json) (p q : Text) (x y : Json)
        → apart p q ≡ true
        → (lib.set out p x >>=? λ o. lib.set o q y)
          ≡ (lib.set out q y >>=? λ o. lib.set o p x)) where
    -- Two entries whose paths are apart.
    abbrev pub IsApart : Text × Text → Text × Text → Type 0
    IsApart a b = apart (value_path a.0) (value_path b.0) ≡ true

    put_all_swap :
        (a b : Text × Text) (rest : Map Text Text) (out : Map Text Json)
        → IsApart a b
        → put_all (a ∷ b ∷ rest) out ≡ put_all (b ∷ a ∷ rest) out
    unfolding put_all put
    put_all_swap a b rest out h =
        bind_assoc (put a out) (put b) (put_all rest)
        ∙ ap (λ m. m >>=? put_all rest)
            (commutes out (value_path a.0) (value_path b.0) (lib.infer_type a.1)
              (lib.infer_type b.1) h)
        ∙ sym (bind_assoc (put b out) (put a) (put_all rest))

    put_all_perm :
        {xs ys : Map Text Text}
        → Permᴰ xs ys
        → Pairwise IsApart xs
        → (out : Map Text Json) → put_all xs out ≡ put_all ys out
    unfolding put_all
    put_all_perm Permᴰ.nil h out = refl
    put_all_perm (Permᴰ.cons {a} {b} {l₁} {l₂} e p) h out =
        ap (λ f. put a out >>=? f) (fun_ext (put_all_perm p (Pairwise-cons.0 h).1))
        ∙ ap (λ c. put c out >>=? put_all l₂) e
    put_all_perm (Permᴰ.swap {a} {b} {a'} {b'} {l} e f) h out =
        put_all_swap a b l out ((Pairwise-cons.0 h).0 b mem-cons_self)
        ∙ ap (λ c. put_all (c ∷ a ∷ l) out) f
        ∙ ap (λ c. put_all (a' ∷ c ∷ l) out) e
    put_all_perm (Permᴰ.trans p q) h out =
        put_all_perm p h out
        ∙ put_all_perm q
            (Permᴰ.pairwise (λ a b. Bool-set _ _)
              (λ a b. apart_sym (value_path a.0) (value_path b.0)) p h)
            out

    -- When writes at paths that are apart commute and the paths of `setValues` are pairwise apart, the
    -- values that `buildValues` makes, or that it makes none, do not depend on the order in which the
    -- map is visited.
    pub build_values_perm :
        (values : Map Text Json) {xs ys : Map Text Text}
        → Permᴰ xs ys
        → Pairwise IsApart xs
        → success (build_values lib values xs) ≡ success (build_values lib values ys)
    unfolding build_values
    build_values_perm values {xs} {ys} p h =
        put_all_lem xs values ∙ put_all_perm p h values ∙ sym (put_all_lem ys values)

  last_put :
      (e : Text × Text) (m : Option (Map Text Json)) (a : Map Text Json)
      → (m >>=? put_all (e ∷ [])) ≡ some a
      → (o : Map Text Json) × (lib.set o (value_path e.0) (lib.infer_type e.1) ≡ some a)
  unfolding put_all put
  last_put e none a h = cc
  last_put e (some o) a h = (o, last (lib.set o (value_path e.0) (lib.infer_type e.1)) h)
    where
      last : (m : Option (Map Text Json)) → (m >>=? λ o. some o) ≡ some a → m ≡ some a
      last none h = h
      last (some o) h = h

  second_wins :
      (read : Map Text Json → Text → Option Json)
      → ((out out' : Map Text Json) (p : Text) (x : Json)
          → lib.set out p x ≡ some out'
          → read out' p ≡ some x)
      → (values a : Map Text Json) (e f : Text × Text) → build_values lib values (e ∷ f ∷ []) ≡ ok a
      → read a (value_path f.0) ≡ some (lib.infer_type f.1)
  unfolding build_values put_all
  second_wins read law values a e f h =
      let (o, w) =
        last_put f (put e values) a (sym (put_all_lem (e ∷ f ∷ []) values) ∙ ap success h) in
      law o a (value_path f.0) (lib.infer_type f.1) w

  -- A key without a leading dot and the same key with one name one path: when what is set at a path
  -- is what is read there, and both orders succeed, the two orders of visiting the map differ in what
  -- they leave at that path, if the two texts are typed as different values.
  pub build_values_clash :
      (read : Map Text Json → Text → Option Json)
      → ((out out' : Map Text Json) (p : Text) (x : Json)
          → lib.set out p x ≡ some out'
          → read out' p ≡ some x)
      → (key x y : Text) (values a b : Map Text Json) → has_prefix key (lit ".") ≡ false
      → lib.infer_type x ≢ lib.infer_type y
      → build_values lib values ((key, x) ∷ (b'.' ∷ key, y) ∷ []) ≡ ok a
      → build_values lib values ((b'.' ∷ key, y) ∷ (key, x) ∷ []) ≡ ok b
      → (read a (b'.' ∷ key) ≡ some (lib.infer_type y))
        × (read b (b'.' ∷ key) ≡ some (lib.infer_type x))
        × (a ≢ b)
  build_values_clash read law key x y values a b plain differ first second =
      let dotted : value_path (b'.' ∷ key) ≡ b'.' ∷ key = unfold value_path in refl in
      let bare : value_path key ≡ b'.' ∷ key = unfold value_path in rw plain refl in
      let at_a : read a (b'.' ∷ key) ≡ some (lib.infer_type y) =
        ap (read a) (sym dotted) ∙ second_wins read law values a (key, x) (b'.' ∷ key, y) first in
      let at_b : read b (b'.' ∷ key) ≡ some (lib.infer_type x) =
        ap (read b) (sym bare) ∙ second_wins read law values b (b'.' ∷ key, y) (key, x) second in
      (at_a, at_b, λ same. differ (cc (ap (λ m. read m (b'.' ∷ key)) same)))
