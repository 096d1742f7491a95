-- ===== src/Gateway/Sse.antt =====
-- internal/gateway/http.go: the bytes of the event stream that `writeToken`, `writeCompletion`, `writeStreamError`, `writeDone` and
-- `writeSSE` write. The JSON of a payload, which `encoding/json` makes, is a parameter.
use aether_serve.Base.{List, [], ◌∷◌, ◌++◌}
use aether_serve.Base.Text.{GoString, str}
use aether_serve.Gateway.Commit.{Frame, token, completion, stream_error, done}

-- The lines of `writeSSE`: "event: %s\ndata: %s\n\n".
abbrev pub write_sse : GoString → GoString → List GoString
write_sse event payload = (str "event: " ++ event) ∷ (str "data: " ++ payload) ∷ [] ∷ []

-- The lines of a frame.
unfoldable pub write_frame : (Frame → GoString) → Frame → List GoString
write_frame marshal (token text) = write_sse (str "token") (marshal (token text))
write_frame marshal (completion reason) = write_sse (str "completion") (marshal (completion reason))
write_frame marshal (stream_error n) = write_sse (str "error") (marshal (stream_error n))
write_frame marshal done = str "data: [DONE]" ∷ [] ∷ []

-- The lines of a body, frame by frame.
unfoldable pub write_body : (Frame → GoString) → List Frame → List GoString
write_body marshal [] = []
write_body marshal (f ∷ fs) = write_frame marshal f ++ write_body marshal fs

-- Lines as bytes, each ended by a newline.
unfoldable pub bytes : List GoString → GoString
bytes [] = []
bytes (line ∷ lines) = line ++ 10 ∷ bytes lines
