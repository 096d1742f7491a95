-- ===== src/Loadgen/Directory.antt =====
-- The directory of a path.
use aether_serve.Base.{◌≡◌, ◌≢◌, refl, none, some, [], ◌∷◌, ◌++◌, arith, All}
use aether_serve.Base.Text.{GoString, str, str_eq, str_eq_iff}
use aether_serve.Loadgen.{before_last_slash, filepath_dir}

abbrev pub NoSlash : GoString → Type 0
NoSlash name = All (λ c. c ≢ 47) name

before_last_slash-none : (name : GoString) → NoSlash name → before_last_slash name ≡ none
unfolding before_last_slash
before_last_slash-none [] h = refl
before_last_slash-none (c ∷ name) h =
    rw (before_last_slash-none name h.1) (ground (arith, str_eq_iff (c ∷ []) (str "/"), h.0))

before_last_slash-some :
    (dir name : GoString) → NoSlash name → before_last_slash (dir ++ 47 ∷ name) ≡ some dir
unfolding before_last_slash str_eq
before_last_slash-some [] name h = rw (before_last_slash-none name h) refl
before_last_slash-some (c ∷ dir) name h = rw (before_last_slash-some dir name h) refl

-- The directory of a name without a slash is ".", and that of any path is what stands before its last slash.
pub filepath_dir_lem :
    (dir name : GoString)
    → NoSlash name
    → (filepath_dir name ≡ str ".") × (filepath_dir (dir ++ 47 ∷ name) ≡ dir)
unfolding filepath_dir
filepath_dir_lem dir name h = (
  rw (before_last_slash-none name h, filepath_dir) refl,
  rw (before_last_slash-some dir name h, filepath_dir) refl,
)
