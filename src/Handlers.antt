-- ===== src/Handlers.antt =====
-- internal/server/handlers: what the HTTP handlers share (handlers.go, packages.go), over the
-- store's `Io`. A response is its status and what is written as JSON; a request body is what
-- encoding/json makes of it; a query parameter that is absent is the empty text.
pub mod Packages
pub mod Uploads
pub mod Jobs
pub mod Running
pub mod Going
pub mod Outcomes
pub mod Waiting
pub mod Statuses
pub mod Deployments
pub mod Cluster
pub mod Routes
pub mod Accepting
pub mod Serial
mod Examples
use zarf_api.Prelude.{
  ℕ, Bool, true, false, not, ◌||◌, List, Text, ◌==◌, nat_eq, list_eq, lit, if◌then◌else◌,
}
use zarf_api.Records.{Package, Upload, Error, is_not_found, is_exists}
use zarf_api.Os.{Result, ok, err, Io, pure, World}
use zarf_api.Store.{Verification, verify_if_possible, verify_never, verify_always}

-- What `writeJSON` encodes, or `w.Write` sends.
pub data Body : Type 0 where
  no_body : Body
  store_error : Error → Body
  bad_request : Text → Body  -- an error of the request itself
  too_many : ℕ → Body
  upload : Upload → Body
  uploads : List Upload → Body
  package_info : Package → Body
  packages : List Package → Body
  schema : Text → Text → Body  -- the `X-Zarf-Schema-Target` header and the bytes

pub record Response : Type 0 where
  pub status : ℕ
  pub body : Body

-- `decodeBody`: no body, one that does not decode, or the value
pub data Decoded {ℓ} (A : Type ℓ) : Type ℓ where
  empty malformed : Decoded A
  value : A → Decoded A

abbrev pub respond : ℕ → Body → Response
respond status body = record { status = status; body = body }

-- `writeStoreError`
unfoldable pub write_store_error : Error → Response
write_store_error e =
    if is_not_found e
    then respond 404 (store_error e)
    else if is_exists e
    then respond 409 (store_error e)
    else respond 500 (store_error e)

-- The answer to the outcome of a store operation.
abbrev pub answer_with : {A : Type 0} → (Error → Response) → (A → Response) → Result A → Response
answer_with failed done (ok a) = done a
answer_with failed done (err e) = failed e

abbrev pub answering :
    {A : Type 0} → Io A → (Error → Response) → (A → Response) → World → Response × World
answering m failed done w = let (r, w') = m w in (answer_with failed done r, w')

abbrev pub internal_error : Error → Response
internal_error e = respond 500 (store_error e)

-- `parseVerify`; `verifyStrategy` of package zarfz has the same cases
pub data Parsed : Type 0 where
  strategy : Verification → Parsed
  invalid_verify : Text → Parsed

unfoldable pub parse_verify : Text → Parsed
parse_verify mode =
    if mode == lit "" || mode == lit "if-possible"
    then strategy verify_if_possible
    else if mode == lit "never"
    then strategy verify_never
    else if mode == lit "always"
    then strategy verify_always
    else invalid_verify mode

-- `validate := q.Get("validate") != "false"`
abbrev pub validates : Text → Bool
validates q = not (q == lit "false")
