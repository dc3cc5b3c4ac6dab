-- ===== src/Api/Transfer/Downloading.antt =====
-- A download of a file that the store has.
use p2p_distributed_system_m.Base.{
  ℕ, ◌≡◌, refl, sym, ap, ◌∙◌, subst, Bytes, codes, [], ◌++◌, Option, none, some, ok, err, arith,
  false, ◌==◌, dec_text, ℕ_discrete,
}
use mathlib.Core.List.{append_assoc, append-nil}
use p2p_distributed_system_m.Base.GoMap.{GoMap}
use p2p_distributed_system_m.Http.{
  Request, FormFile, Response, set_header, write_header, write, http_error, write_unless, client,
}
use p2p_distributed_system_m.Coordinator.Host.{Env, Orders, Host}
use p2p_distributed_system_m.Coordinator.Files.{get_file}
use p2p_distributed_system_m.Coordinator.Files.Roundtrip.{Stored}
use p2p_distributed_system_m.Coordinator.Files.Reading.{get_file-Delivers}
use p2p_distributed_system_m.Api.Handlers.{download_end, download_headers, handle_download}

-- The status of a response; where none has been sent, the server sends 200 at the end.
abbrev pub status_of : Option (ℕ × GoMap Bytes) → ℕ
status_of none = 200
status_of (some s) = s.0

abbrev pub status : Response → ℕ
status w = status_of w.sent

-- The request that uploads a file, and the one that downloads it.
abbrev pub uploads : FormFile → Request
uploads file = record {
  method = codes "POST";
  path = codes "/api/upload";
  cid = [];
  form = ok (ok file);
}

abbrev pub downloads : Bytes → Request
downloads root = record {
  method = codes "GET";
  path = codes "/api/download";
  cid = root;
  form = err (codes "no form");
}

sent_200 :
    (sent : Option (ℕ × GoMap Bytes)) (headers : GoMap Bytes) (body b : Bytes)
    → status_of sent ≡ 200
    → status (write b (record { headers = headers; sent = sent; body = body })) ≡ 200
unfolding write write_header
sent_200 none headers body b h = refl
sent_200 (some s) headers body b h = h

status-write : (b : Bytes) (w : Response) → status w ≡ 200 → status (write b w) ≡ 200
status-write b w h = sent_200 w.sent w.headers w.body b h

pub status-http_error :
    (text : Bytes) (n : ℕ) (w : Response) → w.sent ≡ none → status (http_error text n w) ≡ n
unfolding http_error write write_header set_header
status-http_error text n w h = rw h refl

module _ (E : Env) where
  -- A client that stays is sent the file, and the node is as before.
  module _ (gone : Response → Option Bytes) (stays : (w : Response) → gone w ≡ none) where
    takes :
        (start t b : Bytes) (w : Response)
        → (w.body ≡ start ++ t) × (status w ≡ 200)
        → ((write_unless gone b w (gone w)).0 ≡ none)
          × (((write_unless gone b w (gone w)).1.body ≡ start ++ (t ++ b))
              × (status (write_unless gone b w (gone w)).1 ≡ 200))
    takes start t b w (wrote, fine) =
        subst
          (λ x.
            ((write_unless gone b w x).0 ≡ none)
            × (((write_unless gone b w x).1.body ≡ start ++ (t ++ b))
                × (status (write_unless gone b w x).1 ≡ 200)))
          (sym (stays w))
          (unfold write_unless write in
            (refl, (ap (λ u. u ++ b) wrote ∙ append_assoc start t b, status-write b w fine)))

    -- A download of a root, on a node with this store and a response that has not failed.
    abbrev pub Downloaded : Bytes → Response → Host E → Response × Host E → Type 0
    Downloaded content w h r = (r.0.body ≡ w.body ++ content) × (status r.0 ≡ 200) × (r.1 ≡ h)

    ended :
        (content : Bytes) (w : Response) (h : Host E) (r : Option Bytes × Host E × Response)
        → r.0 ≡ none
        → r.1 ≡ h
        → r.2.body ≡ w.body ++ content
        → status r.2 ≡ 200
        → Downloaded content w h (download_end E r)
    unfolding download_end
    ended content w h (none, h', w') e same wrote fine = (wrote, fine, same)
    ended content w h (some x, h', w') e same wrote fine = absurd (ground arith)

    pub handle_download-Stored :
        (o : Orders) (root content : Bytes) (w : Response) (h : Host E)
        → Stored E root content h.store
        → status w ≡ 200
        → Downloaded content w h (handle_download E gone o (downloads root) h w)
    unfolding handle_download dec_text ℕ_discrete client download_headers set_header
    handle_download-Stored o root content w h stored fine =
        let there : (root == []) ≡ false = ground (arith, stored.named) in
        let (e, same, (wrote, good)) =
          get_file-Delivers E (client gone)
            (λ t (v : Response). (v.body ≡ w.body ++ t) × (status v ≡ 200)) (takes w.body) o root
            content [] h (download_headers E w) stored (sym (append-nil w.body), fine) in
        rw there (
          ended content w h (get_file E (client gone) o root h (download_headers E w)) e same wrote
            good)
