-- ===== src/Store/Sessions.antt =====
-- Session ids: sixteen hexadecimal digits, which is what `newUploadID` draws.
use zarf_api.Prelude.{
  ℕ, zero, suc, ◌*◌, ◌/◌, ◌%◌, ◌<◌, length, ◌≡◌, ◌↔◌, refl, Bool, true, [], ◌∷◌, ◌++◌, Text, all,
  arith, nat_eq, list_eq,
}
use zarf_api.Regex.{one, times}
use zarf_api.Regex.Meaning.{Matches, matches_iff}
use zarf_api.Os.Paths.{join_plain}
use zarf_api.Store.{Store, is_id_byte}
use zarf_api.Store.Uploads.{hex_digit, is_hex, valid_session, session_dir, hex}
use zarf_api.Store.Places.{no_slash}

times-all :
    (n : ℕ) (p : ℕ → Bool) (s : Text)
    → Matches (times n (one p)) s
    → (length s ≡ n) × (all p s ≡ true)
times-all zero p s h = rw h (refl, refl)
times-all (suc n) p u (s, t, (c, pc, d), k, e) = rw (e, d) (ground (arith, times-all n p t k))

all-times :
    (n : ℕ) (p : ℕ → Bool) (s : Text) → length s ≡ n → all p s ≡ true → Matches (times n (one p)) s
all-times zero p [] l h = refl
all-times zero p (c ∷ s) l h = absurd (omega arith)
all-times (suc n) p [] l h = absurd (omega arith)
all-times (suc n) p (c ∷ s) l h =
    (c ∷ [], s, (c, ground arith, refl), all-times n p s (omega arith) (ground arith), refl)

pub valid_session_iff :
    (id : Text) → (valid_session id ≡ true) ↔ ((length id ≡ 16) × (all is_hex id ≡ true))
unfolding valid_session
valid_session_iff id = (
  λ h. times-all 16 is_hex id ((matches_iff (times 16 (one is_hex)) id).0 h),
  λ h. (matches_iff (times 16 (one is_hex)) id).1 (all-times 16 is_hex id h.0 h.1),
)

hex-IsPlain : (s : Text) → all is_hex s ≡ true → all is_id_byte s ≡ true
hex-IsPlain [] h = refl
hex-IsPlain (c ∷ s) h = ground (arith, hex-IsPlain s)

-- The directory of a session id is an entry of the uploads directory itself.
pub session_dir_lem :
    (s : Store) (id : Text) → valid_session id ≡ true → session_dir s id ≡ s.uploads_dir ++ id ∷ []
unfolding session_dir
session_dir_lem s [] v = absurd (omega (arith, (valid_session_iff []).0 v))
session_dir_lem s (c ∷ id) v =
    let h : (length (c ∷ id) ≡ 16) × (all is_hex (c ∷ id) ≡ true) =
      (valid_session_iff (c ∷ id)).0 v in
    join_plain s.uploads_dir (c ∷ id) (record {
      filled = refl;
      not_dot = ground (arith, h.1);
      not_dots = ground (arith, h.1);
      no_slash = no_slash (c ∷ id) (hex-IsPlain (c ∷ id) h.1);
    })

abbrev pub AllBytes : Text → Type 0
AllBytes [] = Unit
AllBytes (b ∷ bs) = (b < 256) × AllBytes bs

hex_digit-is_hex : (n : ℕ) → n < 16 → is_hex (hex_digit n) ≡ true
hex_digit-is_hex n h = ground arith

hex_lem :
    (bs : Text) → AllBytes bs → (length (hex bs) ≡ 2 * length bs) × (all is_hex (hex bs) ≡ true)
unfolding hex
hex_lem [] h = (refl, refl)
hex_lem (b ∷ bs) h =
    let (l, k) = hex_lem bs h.1 in
    (
      omega arith,
      rw (hex_digit-is_hex (b / 16) (omega arith), hex_digit-is_hex (b % 16) (omega arith), k) refl,
    )

-- The hexadecimal text of any eight bytes, which `newUploadID` makes of random ones, is an id that
-- `readSession` accepts, and the directory of that session lies directly in the uploads directory.
pub new_id_valid :
    (s : Store) (b : Text)
    → length b ≡ 8
    → AllBytes b
    → (valid_session (hex b) ≡ true) × (session_dir s (hex b) ≡ s.uploads_dir ++ hex b ∷ [])
new_id_valid s b l h =
    let (m, k) = hex_lem b h in
    let v : valid_session (hex b) ≡ true = (valid_session_iff (hex b)).1 (omega arith, k) in
    (v, session_dir_lem s (hex b) v)
