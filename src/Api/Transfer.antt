-- ===== src/Api/Transfer.antt =====
-- An upload and a download through the HTTP API.
pub mod Downloading
pub mod Uploading
use p2p_distributed_system_m.Base.{
  ℕ, ◌≡◌, ◌≢◌, refl, sym, ap, ◌∙◌, subst, Bytes, codes, List, [], ◌∷◌, ◌++◌, Option, none, some,
  Result, ok, err, arith, true, false, ◌==◌, not, dec_text, ℕ_discrete,
}
use mathlib.Core.List.{append_assoc, append-nil}
use p2p_distributed_system_m.Base.GoMap.{GoMap}
use p2p_distributed_system_m.Os.{DiskLaws}
use p2p_distributed_system_m.Storage.{StorageLaws}
use p2p_distributed_system_m.Merkle.{JsonLaws}
use p2p_distributed_system_m.Http.{
  Request, FormFile, Response, new_response, set_header, write_header, write, http_error,
  write_unless, client,
}
use p2p_distributed_system_m.Coordinator.Host.{Env, Orders, Host}
use p2p_distributed_system_m.Coordinator.Files.{add_file, get_file}
use p2p_distributed_system_m.Coordinator.Files.Roundtrip.{Stored, Stored-Keeps, add_file-Stored}
use p2p_distributed_system_m.Coordinator.Files.Reading.{get_file-Delivers}
use p2p_distributed_system_m.Coordinator.Catalog.{update_global_catalog, or_empty}
use p2p_distributed_system_m.Coordinator.Catalog.Keeps.{update_global_catalog-Keeps}
use p2p_distributed_system_m.Api.{
  Views, Answer, answered, panicked, extension, not_allowed, json_header, uploaded_text,
}
use p2p_distributed_system_m.Api.Handlers.{download_end, download_headers, handle_download}
use p2p_distributed_system_m.Api.Upload.{
  copied, cleaned, upload_added, upload_closed, upload_copied, upload_temp, upload_file,
  handle_upload,
}
use p2p_distributed_system_m.Api.Routes.{in_answer, serve_http, routed, cors_headers}
use p2p_distributed_system_m.Api.Transfer.Downloading.{
  status, status-http_error, uploads, downloads, handle_download-Stored,
}
use p2p_distributed_system_m.Api.Transfer.Uploading.{handle_upload-Uploaded}

module _ (E : Env) where
  module _ (disk : DiskLaws E.disk) (laws : StorageLaws E.storage) (json : JsonLaws E.json)
      (gone : Response → Option Bytes) (stays : (w : Response) → gone w ≡ none) (views : Views)
      (o o' : Orders) (waits : ℕ) (ctx_error : Bytes) (file : FormFile) where
    -- An answer of 200 names a root, whose download is answered with the content.
    abbrev Downloadable : Answer × Host E → Type 0
    Downloadable (panicked, h) = Unit
    Downloadable (answered w, h) =
        status w ≡ 200
        → (root : Bytes) × (catalog_cid : Bytes) × (v : Response) × (w.body
            ≡ uploaded_text root catalog_cid)
          × (serve_http E o' waits ctx_error gone views (downloads root) h ≡ (answered v, h))
          × (v.body ≡ file.content)
          × (status v ≡ 200)

    downloads-Stored :
        (root : Bytes) (h : Host E)
        → Stored E root file.content h.store
        → (v : Response) × (serve_http E o' waits ctx_error gone views (downloads root) h
            ≡ (answered v, h))
          × (v.body ≡ file.content)
          × (status v ≡ 200)
    unfolding serve_http routed dec_text ℕ_discrete cors_headers set_header
    downloads-Stored root h stored =
        let start = cors_headers new_response in
        let (wrote, fine, same) =
          handle_download-Stored E gone stays o' root file.content start h stored refl in
        let got = handle_download E gone o' (downloads root) h start in
        (got.0, (λ i. (answered got.0, same i)), wrote, fine)

    uploaded_downloads :
        (w : Response) (h : Host E)
        → (status w ≡ 200
            → (root : Bytes) × (catalog_cid : Bytes) × (w.body
                ≡ [] ++ uploaded_text root catalog_cid)
              × Stored E root file.content h.store)
        → Downloadable (answered w, h)
    uploaded_downloads w h stored fine =
        let (root, catalog_cid, text, kept) = stored fine in
        let (v, served, wrote, good) = downloads-Stored root h kept in
        (root, catalog_cid, v, text, served, wrote, good)

    upload-Downloadable :
        (h : Host E) → Downloadable (serve_http E o waits ctx_error gone views (uploads file) h)
    unfolding serve_http routed dec_text ℕ_discrete cors_headers set_header
    upload-Downloadable h =
        let done = handle_upload E o waits ctx_error (uploads file) h (cors_headers new_response) in
        uploaded_downloads done.0 done.1 (
          handle_upload-Uploaded E disk laws json o waits ctx_error file (cors_headers new_response)
            refl h)

    -- An upload that is answered with 200 names a root in its answer, and a download of that root from
    -- the same node is answered with 200 and the content of the file, and changes nothing, whatever
    -- became of the catalog. The client stays, and the disk, the block store and JSON satisfy their laws.
    pub download-upload :
        (h h' : Host E) (w : Response)
        → serve_http E o waits ctx_error gone views (uploads file) h ≡ (answered w, h')
        → status w ≡ 200
        → (root : Bytes) × (catalog_cid : Bytes) × (v : Response) × (w.body
            ≡ uploaded_text root catalog_cid)
          × (serve_http E o' waits ctx_error gone views (downloads root) h' ≡ (answered v, h'))
          × (v.body ≡ file.content)
          × (status v ≡ 200)
    download-upload h h' w e = subst Downloadable e (upload-Downloadable h)
