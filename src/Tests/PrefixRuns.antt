-- ===== src/Tests/PrefixRuns.antt =====
-- Fingerprints at work. The digest of the tests is the text itself behind a mark, so that it is never
-- empty.
use mathlib.Core.List.{Memᴰ}
use aether_serve.Base.{
  ℕ, ◌/◌, ◌*◌, ◌≤◌, ◌≡◌, ◌⊎◌, refl, drop, take, length, List, [], ◌∷◌, ◌++◌, arith, All,
}
use aether_serve.Base.Text.{GoString, str, str_eq}
use aether_serve.Base.Map.{lookup, insert}
use aether_serve.Model.{PrefixFingerprint}
use aether_serve.Prefix.{block_tokens, join, fingerprints, longest_match}
use aether_serve.Prefix.Match.{Agrees, longest_match-greatest}
use aether_serve.Prefix.Blocks.{fingerprints_ambiguous, IsConsistent, shared_blocks}

abbrev digest : GoString → GoString
digest s = b'#' ∷ s

abbrev sixteen : List GoString
sixteen =
    str "a"
    ∷ str "b"
    ∷ str "c"
    ∷ str "d"
    ∷ str "a"
    ∷ str "b"
    ∷ str "c"
    ∷ str "d"
    ∷ str "a"
    ∷ str "b"
    ∷ str "c"
    ∷ str "d"
    ∷ str "a"
    ∷ str "b"
    ∷ str "c"
    ∷ str "d"
    ∷ []

abbrev question : List GoString
question = sixteen ++ str "why" ∷ []

abbrev other : List GoString
other = sixteen ++ str "how" ∷ []

matches : longest_match (fingerprints digest question) (fingerprints digest other) ≡ 16
unfolding longest_match fingerprints join lookup insert str_eq
matches = refl

no_match : longest_match (fingerprints digest question) [] ≡ 0
unfolding longest_match fingerprints join lookup insert str_eq
no_match = refl

abbrev short : PrefixFingerprint
short = record { token_count = 16; sha256 = str "s" }

abbrev long : PrefixFingerprint
long = record { token_count = 32; sha256 = str "l" }

longest_match-greatest_example :
    let n = longest_match (short ∷ long ∷ []) (long ∷ short ∷ []) in
    All (λ p. Agrees (long ∷ short ∷ []) p → p.token_count ≤ n) (short ∷ long ∷ [])
    × ((n ≡ 0)
        ⊎ ((p : PrefixFingerprint) × Memᴰ p (short ∷ long ∷ [])
            × Agrees (long ∷ short ∷ []) p
            × (p.token_count ≡ n)))
longest_match-greatest_example = longest_match-greatest (short ∷ long ∷ []) (long ∷ short ∷ [])

-- Sixteen tokens each, of which the first two differ.
fingerprints_ambiguous_example :
    let mine = (str "a" ++ 0x1f ∷ str "b") ∷ str "c" ∷ drop 2 sixteen in
    let theirs = str "a" ∷ (str "b" ++ 0x1f ∷ str "c") ∷ drop 2 sixteen in
    (length mine ≡ length theirs)
    × ((n : ℕ) → take n mine ≡ take n theirs → n ≡ 0)
    × (fingerprints digest mine ≡ fingerprints digest theirs)
    × (length (fingerprints digest mine) ≡ length mine / block_tokens)
fingerprints_ambiguous_example =
    fingerprints_ambiguous digest (str "a") (str "b") (str "c") (drop 2 sixteen)

other-IsConsistent : IsConsistent (fingerprints digest other)
unfolding fingerprints join
other-IsConsistent = (((λ _. refl), tt), tt)

shared_blocks_example :
    block_tokens * 1 ≤ longest_match (fingerprints digest question) (fingerprints digest other)
shared_blocks_example =
    shared_blocks digest question other 1 (omega arith) (omega arith) (omega arith) (omega arith)
      refl (λ s. refl) other-IsConsistent
