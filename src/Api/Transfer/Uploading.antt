-- ===== src/Api/Transfer/Uploading.antt =====
-- What an upload leaves in the store.
use p2p_distributed_system_m.Base.{
  ℕ, ◌≡◌, ◌≢◌, refl, sym, ◌∙◌, Bytes, codes, [], ◌++◌, Option, none, some, Result, ok, err, arith,
  dec_text, ℕ_discrete,
}
use p2p_distributed_system_m.Os.{DiskLaws}
use p2p_distributed_system_m.Storage.{StorageLaws}
use p2p_distributed_system_m.Merkle.{JsonLaws}
use p2p_distributed_system_m.Http.{FormFile, Response, set_header, write_header, write, http_error}
use p2p_distributed_system_m.Coordinator.Host.{Env, Orders, Host}
use p2p_distributed_system_m.Coordinator.Files.{add_file}
use p2p_distributed_system_m.Coordinator.Files.Roundtrip.{Stored, Stored-Keeps, add_file-Stored}
use p2p_distributed_system_m.Coordinator.Catalog.{update_global_catalog, or_empty}
use p2p_distributed_system_m.Coordinator.Catalog.Keeps.{update_global_catalog-Keeps}
use p2p_distributed_system_m.Api.{extension, json_header, uploaded_text}
use p2p_distributed_system_m.Api.Upload.{
  copied, cleaned, upload_added, upload_closed, upload_copied, upload_temp, upload_file,
  handle_upload,
}
use p2p_distributed_system_m.Api.Transfer.Downloading.{status, status-http_error, uploads}

module _ (E : Env) where
  module _ (disk : DiskLaws E.disk) (laws : StorageLaws E.storage) (json : JsonLaws E.json)
      (o : Orders) (waits : ℕ) (ctx_error : Bytes) (file : FormFile) (w : Response)
      (unsent : w.sent ≡ none) where
    -- Where the status is 200, the body names a root under which the store has the file.
    abbrev pub Uploaded : Response × Host E → Type 0
    Uploaded r =
        status r.0 ≡ 200
        → (root : Bytes) × (catalog_cid : Bytes) × (r.0.body
            ≡ w.body ++ uploaded_text root catalog_cid)
          × Stored E root file.content r.1.store

    refused : (text : Bytes) (n : ℕ) (h : Host E) → n ≢ 200 → Uploaded (http_error text n w, h)
    refused text n h other fine = absurd (other (sym (status-http_error text n w unsent) ∙ fine))

    added_uploads :
        (x : Result Bytes × Host E)
        → ((c : Bytes) → x.0 ≡ ok c → Stored E c file.content x.1.store)
        → Uploaded (upload_added E o waits ctx_error file w x)
    unfolding upload_added
    added_uploads (err e, h) stored fine = refused e 500 h (λ q. absurd (omega (arith, q))) fine
    added_uploads (ok root, h) stored fine =
        let updated =
          update_global_catalog E o waits ctx_error file.filename root file.size
            (extension file.filename) h in
        (
          root,
          or_empty updated.0,
          unfold write json_header set_header write_header in refl,
          Stored-Keeps E root file.content h.store updated.1.store
              (update_global_catalog-Keeps E laws o waits ctx_error file.filename root file.size
                (extension file.filename) h)
              (stored root refl),
        )

    closed_uploads :
        (tmp : Bytes) (h : Host E) (r : Option Bytes × E.disk.Files)
        → E.disk.read_file tmp r.1 ≡ ok file.content
        → Uploaded (upload_closed E o waits ctx_error tmp file h w r)
    unfolding upload_closed
    closed_uploads tmp h (some e, files) read =
        refused e 500 (record h { files = files }) (λ q. absurd (omega (arith, q)))
    closed_uploads tmp h (none, files) read =
        added_uploads (add_file E o tmp (record h { files = files })) (λ c e.
          add_file-Stored E laws json o tmp file.content (record h { files = files }) c read e)

    ended_uploads :
        (tmp : Bytes) (h : Host E) (e : Option Bytes) (files : E.disk.Files)
        → E.disk.read_file tmp files ≡ ok file.content
        → Uploaded (upload_copied E o waits ctx_error tmp file h w (e, files))
    unfolding upload_copied
    ended_uploads tmp h (some e) files read =
        refused e 500 (record h { files = files }) (λ q. absurd (omega (arith, q)))
    ended_uploads tmp h none files read = closed_uploads tmp h (E.disk.close tmp files) (
        disk.read-close tmp file.content (E.disk.close tmp files).0 files (E.disk.close tmp files).1
          read refl)

    copied_uploads :
        (tmp : Bytes) (h : Host E) (files : E.disk.Files) (a : Option Bytes × E.disk.Files)
        → E.disk.read_file tmp files ≡ ok []
        → E.disk.append tmp file.content files ≡ a
        → Uploaded (upload_copied E o waits ctx_error tmp file h w (copied E file a))
    unfolding copied
    copied_uploads tmp h files (some e, files') empty q =
        unfold upload_copied in
        refused e 500 (record h { files = files' }) (λ n. absurd (omega (arith, n)))
    copied_uploads tmp h files (none, files') empty q =
        ended_uploads tmp h file.read_error files'
          (disk.read-append tmp [] file.content files files' empty q)

    temp_uploads :
        (h : Host E) (t : Result Bytes × E.disk.Files)
        → E.disk.create_temp [] (codes "upload-*") h.files ≡ t
        → Uploaded (upload_temp E o waits ctx_error file h w t)
    unfolding upload_temp cleaned
    temp_uploads h (err e, files) q =
        refused e 500 (record h { files = files }) (λ n. absurd (omega (arith, n)))
    temp_uploads h (ok tmp, files) q =
        copied_uploads tmp h files (E.disk.append tmp file.content files)
          (disk.read-create_temp [] (codes "upload-*") tmp h.files files q) refl

    pub handle_upload-Uploaded :
        (h : Host E) → Uploaded (handle_upload E o waits ctx_error (uploads file) h w)
    unfolding handle_upload upload_file dec_text ℕ_discrete
    handle_upload-Uploaded h =
        temp_uploads h (E.disk.create_temp [] (codes "upload-*") h.files) refl
