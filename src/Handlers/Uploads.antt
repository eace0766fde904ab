-- ===== src/Handlers/Uploads.antt =====
-- internal/server/handlers/uploads.go: the handlers of chunked uploads.
use zarf_api.Prelude.{ℕ, true, false, Option, none, some, [], Text, ℤ, pos, atoi, ltb_ℤ}
use zarf_api.Os.{Result, ok, err, World}
use zarf_api.Os.Files.{Reader}
use zarf_api.Store.{Store, Zarf}
use zarf_api.Store.Uploads.{
  count_uploads, create_upload, list_uploads, get_upload, put_chunk, complete_upload, abort_upload,
}
use zarf_api.Handlers.{
  no_body, bad_request, too_many, upload, uploads, package_info, Response, respond,
  write_store_error, answering, internal_error, Parsed, strategy, invalid_verify, parse_verify,
  validates, Decoded, empty, malformed, value,
}

-- `createUploadRequest`
pub record CreateUploadRequest : Type 0 where
  pub file_name_hint : Text
  pub sha256 : Text

-- `count >= h.cfg.MaxUploadSessions`, then the creation
abbrev create_below : Store → ℤ → CreateUploadRequest → Result ℕ → World → Response × World
create_below s max req (err e) w = (internal_error e, w)
create_below s max req (ok count) w = elim (ltb_ℤ (pos count) max) [
  | false ↦ (respond 429 (too_many count), w)
  | true ↦
      answering (create_upload s req.file_name_hint req.sha256) internal_error
        (λ u. respond 201 (upload u)) w
]

abbrev create_counted : Store → ℤ → CreateUploadRequest → World → Response × World
create_counted s max req w = let (r, w') = count_uploads s w in create_below s max req r w'

unfoldable pub upload_create : Store → ℤ → Decoded CreateUploadRequest → World → Response × World
upload_create s max malformed w = (respond 400 (bad_request []), w)
upload_create s max empty w = create_counted s max (record { file_name_hint = []; sha256 = [] }) w
upload_create s max (value req) w = create_counted s max req w

unfoldable pub upload_list : Store → World → Response × World
upload_list s = answering (list_uploads s) internal_error (λ us. respond 200 (uploads us))

unfoldable pub upload_get : Store → Text → World → Response × World
upload_get s id = answering (get_upload s id) write_store_error (λ u. respond 200 (upload u))

abbrev chunk_at : Store → Text → Text → Option ℤ → Reader → World → Response × World
chunk_at s id text none body w = (respond 400 (bad_request text), w)
chunk_at s id text (some index) body w =
    answering (put_chunk s id index body) write_store_error (λ u. respond 200 (upload u)) w

unfoldable pub upload_chunk : Store → Text → Text → Reader → World → Response × World
upload_chunk s id index body = chunk_at s id index (atoi index) body

abbrev complete_with : Store → Zarf → Text → Text → Parsed → World → Response × World
complete_with s zarf id validate (invalid_verify mode) w = (respond 400 (bad_request mode), w)
complete_with s zarf id validate (strategy verify) w =
    answering (complete_upload s zarf id (validates validate) verify) write_store_error
      (λ pkg. respond 201 (package_info pkg)) w

unfoldable pub upload_complete : Store → Zarf → Text → Text → Text → World → Response × World
upload_complete s zarf id validate verify = complete_with s zarf id validate (parse_verify verify)

unfoldable pub upload_abort : Store → Text → World → Response × World
upload_abort s id = answering (abort_upload s id) write_store_error (λ u. respond 204 no_body)
