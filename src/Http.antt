-- ===== src/Http.antt =====
-- What the program uses of Go's package `net/http`: requests, and the writer of a response.
use p2p_distributed_system_m.Base.{ℕ, Bytes, codes, [], ◌∷◌, ◌++◌, Option, none, some, Result}
use p2p_distributed_system_m.Base.GoMap.{GoMap, insert}
use p2p_distributed_system_m.Os.{Writer}

-- A file of a form: its name and size, what is read of it, and the error that ends the reading early.
pub record FormFile : Type 0 where
  pub filename : Bytes
  pub size : ℕ
  pub content : Bytes
  pub read_error : Option Bytes

-- A request with a clean path: the first value of `cid` in its query, or nothing, and what
-- `ParseMultipartForm`, and after it `FormFile("file")`, return.
pub record Request : Type 0 where
  pub method : Bytes
  pub path : Bytes
  pub cid : Bytes
  pub form : Result (Result FormFile)

-- A response: the headers, the status with the headers as they were when it was sent, and the body.
pub record Response : Type 0 where
  pub headers : GoMap Bytes
  pub sent : Option (ℕ × GoMap Bytes)
  pub body : Bytes

abbrev pub new_response : Response
new_response = record { headers = []; sent = none; body = [] }

unfoldable pub set_header : Bytes → Bytes → Response → Response
set_header name value w = record w { headers = insert name value w.headers }

-- `WriteHeader`: only the first status of a response counts.
abbrev pub send_status : ℕ → Option (ℕ × GoMap Bytes) → GoMap Bytes → Option (ℕ × GoMap Bytes)
send_status status none headers = some (status, headers)
send_status status (some sent) headers = some sent

unfoldable pub write_header : ℕ → Response → Response
write_header status w = record w { sent = send_status status w.sent w.headers }

-- `Write` sends the status 200 where none has been sent.
unfoldable pub write : Bytes → Response → Response
unfolding write_header
write b w = let w' = write_header 200 w in record w' { body = w'.body ++ b }

-- `http.Error`. The headers that it deletes are none that the program sets.
unfoldable pub http_error : Bytes → ℕ → Response → Response
unfolding set_header write_header write
http_error text status w = write (text ++ 10 ∷ []) (
    write_header status (
      set_header (codes "X-Content-Type-Options") (codes "nosniff")
        (set_header (codes "Content-Type") (codes "text/plain; charset=utf-8") w)))

-- The response as an `io.Writer`. `gone` is the error of a write, where the client has gone.
module _ (gone : Response → Option Bytes) where
  unfoldable pub write_unless : Bytes → Response → Option Bytes → Option Bytes × Response
  unfolding write write_header
  write_unless b w none = (none, write b w)
  write_unless b w (some e) = (some e, write_header 200 w)

  unfoldable pub client : Writer
  unfolding write_unless
  client = record { Out = Response; write = λ b w. write_unless b w (gone w) }

-- `http.DefaultClient` for a POST with a body and for a GET: the status and the body of the answer, or an
-- error.
pub record HttpClient : Type 1 where
  pub World : Type 0
  pub post : Bytes → Bytes → World → Result (ℕ × Bytes) × World
  pub get : Bytes → World → Result (ℕ × Bytes) × World
