-- ===== src/Api/Upload.antt =====
-- `handleUpload` of internal/api/upload_handler.go.
use p2p_distributed_system_m.Base.{
  ℕ, Bytes, codes, [], not, Option, none, some, Result, ok, err, if◌then◌else◌, ◌==◌,
}
use p2p_distributed_system_m.Http.{Request, FormFile, Response, write, http_error}
use p2p_distributed_system_m.Coordinator.Host.{Env, Orders, Host}
use p2p_distributed_system_m.Coordinator.Files.{add_file}
use p2p_distributed_system_m.Coordinator.Catalog.{update_global_catalog, or_empty}
use p2p_distributed_system_m.Api.{extension, not_allowed, json_header, uploaded_text}

module _ (E : Env) where
  -- `io.Copy` to the temporary file: a write that fails, or what ends the reading.
  unfoldable pub copied : FormFile → Option Bytes × E.disk.Files → Option Bytes × E.disk.Files
  copied file (some e, files) = (some e, files)
  copied file (none, files) = (file.read_error, files)

  -- The temporary file is closed and removed when the handler returns.
  unfoldable pub cleaned : Bytes → Response × Host E → Response × Host E
  cleaned tmp (w, h) = (w, record h { files = (E.disk.remove tmp (E.disk.close tmp h.files).1).1 })

  module _ (o : Orders) (waits : ℕ) (ctx_error : Bytes) where
    -- That the catalog is not updated is no error.
    unfoldable pub upload_added : FormFile → Response → Result Bytes × Host E → Response × Host E
    unfolding extension uploaded_text update_global_catalog http_error json_header write
    upload_added file w (err e, h) = (http_error e 500 w, h)
    upload_added file w (ok root, h) =
        let (r, h') =
          update_global_catalog E o waits ctx_error file.filename root file.size
            (extension file.filename) h in
        (write (uploaded_text root (or_empty r)) (json_header w), h')

    unfoldable pub upload_closed :
        Bytes → FormFile → Host E → Response → Option Bytes × E.disk.Files → Response × Host E
    unfolding upload_added http_error
    upload_closed tmp file h w (some e, files) = (http_error e 500 w, record h { files = files })
    upload_closed tmp file h w (none, files) =
        upload_added file w (add_file E o tmp (record h { files = files }))

    unfoldable pub upload_copied :
        Bytes → FormFile → Host E → Response → Option Bytes × E.disk.Files → Response × Host E
    unfolding upload_closed http_error
    upload_copied tmp file h w (some e, files) = (http_error e 500 w, record h { files = files })
    upload_copied tmp file h w (none, files) = upload_closed tmp file h w (E.disk.close tmp files)

    unfoldable pub upload_temp :
        FormFile → Host E → Response → Result Bytes × E.disk.Files → Response × Host E
    unfolding upload_copied copied cleaned http_error
    upload_temp file h w (err e, files) = (http_error e 500 w, record h { files = files })
    upload_temp file h w (ok tmp, files) =
        cleaned tmp
          (upload_copied tmp file h w (copied file (E.disk.append tmp file.content files)))

    unfoldable pub upload_file : Result (Result FormFile) → Host E → Response → Response × Host E
    unfolding upload_temp http_error
    upload_file (err e) h w = (http_error e 400 w, h)
    upload_file (ok (err e)) h w = (http_error (codes "missing file field") 400 w, h)
    upload_file (ok (ok file)) h w =
        upload_temp file h w (E.disk.create_temp [] (codes "upload-*") h.files)

    unfoldable pub handle_upload : Request → Host E → Response → Response × Host E
    unfolding upload_file not_allowed
    handle_upload req h w =
        if not (req.method == codes "POST") then (not_allowed w, h) else upload_file req.form h w
