-- ===== src/Tokenizer.antt =====
-- internal/tokenizer/tokenizer.go: the mock tokenizer. `strings.Fields` is a parameter.
use aether_serve.Base.{ℕ, List, [], ◌∷◌, ◌++◌, length}
use aether_serve.Base.Text.{GoString}
use aether_serve.Model.{Message}

-- `Canonicalize`.
unfoldable pub canonicalize : List Message → GoString
canonicalize [] = []
canonicalize (m ∷ ms) = m.role ++ 10 ∷ m.content ++ 10 ∷ canonicalize ms

module _ (split : GoString → List GoString) where
  -- `Tokens` and `Estimate`.
  abbrev pub tokens : List Message → List GoString
  tokens messages = split (canonicalize messages)

  abbrev pub estimate : List Message → ℕ
  estimate messages = length (tokens messages)
