-- ===== src/Api/Writer.antt =====
-- `responseWriter` of backend/internal/shared/api/middleware_logger.go, over a `http.ResponseWriter`
-- that is the record of the calls made on it.
pub mod Laws
use go_http_mqtt_boilerplate.Prelude.{
  ℕ, ◌+◌, Bool, true, false, List, [], ◌∷◌, ◌++◌, Text, Map, insert, length, if◌then◌else◌, Option,
  none, some,
}

-- `written` has the count that the underlying writer returned
pub data Call : Type 0 where
  header_sent : (status_code : ℕ) → Call
  body_sent : (bytes : Text) (count : ℕ) → Call

-- net/http's writer: its header map and the calls, the oldest first
pub record Raw : Type 0 where
  pub headers : Map Text
  pub calls : List Call

-- The interface http.ResponseWriter; `count` is the underlying writer's answer to `Write`.
pub record ResponseWriter (W : Type 0) : Type 0 where
  pub set_header : Text → Text → W → W
  pub write_header : ℕ → W → W
  pub write : Text → (count : ℕ) → W → W

abbrev pub log_call : Call → Raw → Raw
log_call call w = record w { calls = w.calls ++ call ∷ [] }

instance abbrev pub raw_writer : ResponseWriter Raw
raw_writer = record {
  set_header = λ k v w. record w { headers = insert k v w.headers };
  write_header = λ code w. log_call (header_sent code) w;
  write = λ b n w. log_call (body_sent b n) w;
}

pub record Wrapped : Type 0 where
  pub inner : Raw
  pub status_code : ℕ
  pub bytes_written : ℕ
  pub written : Bool

unfoldable pub wrap_response_writer : Raw → Wrapped
wrap_response_writer w = record { inner = w; status_code = 200; bytes_written = 0; written = false }

unfoldable pub write_header : ℕ → Wrapped → Wrapped
write_header code rw = if rw.written then rw else record rw {
  status_code = code;
  written = true;
  inner = log_call (header_sent code) rw.inner;
}

unfoldable pub write : Text → ℕ → Wrapped → Wrapped
write b n rw = record {
  inner = log_call (body_sent b n) rw.inner;
  status_code = if rw.written then rw.status_code else 200;
  bytes_written = rw.bytes_written + n;
  written = true;
}

instance abbrev pub wrapped_writer : ResponseWriter Wrapped
wrapped_writer = record {
  set_header =
      λ k v rw. record rw { inner = record rw.inner { headers = insert k v rw.inner.headers } };
  write_header = write_header;
  write = write;
}
