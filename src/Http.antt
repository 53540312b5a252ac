-- ===== src/Http.antt =====
-- concurrencylimits/handler.go, and the same text in queue/response_writer.go and gozero/gozero.go: the
-- writer that remembers the status code of a response.
pub mod Writer
mod Tests
use load_shedding.Prelude.{ℕ, Bool, true, false, not, List, [], ◌∷◌, ◌++◌, if◌then◌else◌}

abbrev pub status_ok : ℕ
status_ok = 200

abbrev pub status_internal_server_error : ℕ
status_internal_server_error = 500

abbrev pub status_service_unavailable : ℕ
status_service_unavailable = 503

-- What the wrapped http.ResponseWriter is told, by the code or by a handler.
pub data Call : Type 0 where
  header : ℕ → Call
  body : List ℕ → Call
  close_connection : Call

-- `underlying` is what the embedded writer has been told, in order.
pub record CodeWriter : Type 0 where
  pub underlying : List Call
  pub code : ℕ
  pub wrote_header : Bool

abbrev pub new_code_writer : List Call → CodeWriter
new_code_writer told = record { underlying = told; code = status_ok; wrote_header = false }

unfoldable pub write_header : ℕ → CodeWriter → CodeWriter
write_header code w = if w.wrote_header then w else record w {
  wrote_header = true;
  code = code;
  underlying = w.underlying ++ header code ∷ [];
}

unfoldable pub write : List ℕ → CodeWriter → CodeWriter
unfolding write_header
write b w =
    let w' = if not w.wrote_header then write_header status_ok w else w in
    record w' { underlying = w'.underlying ++ body b ∷ [] }

-- What a handler does with its writer, call by call. A change of the header map goes past the writer.
unfoldable pub apply : List Call → CodeWriter → CodeWriter
unfolding write_header write
apply [] w = w
apply (header code ∷ rest) w = apply rest (write_header code w)
apply (body b ∷ rest) w = apply rest (write b w)
apply (close_connection ∷ rest) w =
    apply rest (record w { underlying = w.underlying ++ close_connection ∷ [] })

-- How `next.ServeHTTP` ends.
pub data Ending : Type 0 where
  returned panicked : Ending

-- A request as its handler treats it: the calls on the writer, and then the end.
pub record Script : Type 0 where
  pub calls : List Call
  pub ending : Ending

-- The answer to a request that is shed.
abbrev pub shed_response : List Call
shed_response = close_connection ∷ header status_service_unavailable ∷ []
