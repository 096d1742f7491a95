-- ===== src/MockWorker/Queue/Numbered.antt =====
-- The chunks that a call of `Generate` streams, in their order.
use aether_serve.Base.{
  ℕ, suc, ◌+◌, ◌<◌, ◌≡◌, refl, subst, Bool, true, false, not, if◌then◌else◌, Option, none, some,
  List, [], ◌∷◌, ◌++◌, length, arith,
}
use aether_serve.Base.Text.{GoString, is_empty}
use aether_serve.Model.{Chunk, FinishReason}
use aether_serve.Wire
use aether_serve.MockWorker.{Worker}
use aether_serve.MockWorker.Job.{token, Outcome, output_count, finish_reason}
use aether_serve.MockWorker.Queue.{is_last}

-- What the chunks of a worker show of it: its identifier, and the tokens of each request by their number.
pub record Origin : Type 0 where
  pub id : GoString
  pub tokens : GoString → ℕ → GoString

abbrev pub origin_of : {F : Type 0} → (GoString → GoString) → Worker F → Origin
origin_of digest w = record { id = w.config.id; tokens = token digest w }

module _ {T : Type 0} (r : Wire.GenerateRequest T) (worker : Origin) where
  -- The n-th chunk of the request: a token with a text, or after the last token the final chunk without one.
  pub record IsChunkOf (n : ℕ) (c : Chunk) : Type 0 where
    pub request_id : c.request_id ≡ r.request_id
    pub attempt_id : c.attempt_id ≡ r.attempt_id
    pub worker_id : c.worker_id ≡ worker.id
    pub content : c.final ≡ false → c.token_text ≡ worker.tokens r.request_id n
    pub index : c.token_index ≡ n
    pub text : is_empty c.token_text ≡ c.final
    pub token : c.final ≡ false → n < output_count r.max_output_tokens
    pub reason :
        c.reason ≡ (if c.final then finish_reason r.max_output_tokens else FinishReason.other [])
    pub end : c.final ≡ true → n ≡ output_count r.max_output_tokens

  -- Chunks with consecutive numbers from `n` on, of which only the last one may be final.
  abbrev pub IsStreamed : ℕ → List Chunk → Type 0
  IsStreamed n [] = Unit
  IsStreamed n (c ∷ cs) = IsChunkOf n c × (if c.final then cs ≡ [] else IsStreamed (suc n) cs)

  -- The same with none final.
  abbrev pub IsOpen : ℕ → List Chunk → Type 0
  IsOpen n [] = Unit
  IsOpen n (c ∷ cs) = IsChunkOf n c × (c.final ≡ false) × IsOpen (suc n) cs

  pub IsOpen-IsStreamed : (n : ℕ) (cs : List Chunk) → IsOpen n cs → IsStreamed n cs
  IsOpen-IsStreamed n [] h = tt
  IsOpen-IsStreamed n (c ∷ cs) (d, f, h) = (d, rw f (IsOpen-IsStreamed (suc n) cs h))

  pub IsOpen-append :
      (n : ℕ) (cs : List Chunk) (c : Chunk)
      → IsOpen n cs
      → IsChunkOf (n + length cs) c
      → c.final ≡ false
      → IsOpen n (cs ++ c ∷ [])
  IsOpen-append n [] c h d f = (subst (λ x. IsChunkOf x c) (omega arith) d, f, tt)
  IsOpen-append n (b ∷ cs) c (a, g, h) d f =
      (a, g, IsOpen-append (suc n) cs c h (subst (λ x. IsChunkOf x c) (omega arith) d) f)

  last-IsStreamed :
      (n : ℕ) (c : Chunk)
      → IsChunkOf n c
      → (f : Bool) → (if f then ◌≡◌ {A = List Chunk} [] [] else Unit)
  last-IsStreamed n c d true = refl
  last-IsStreamed n c d false = tt

  pub IsStreamed-append :
      (n : ℕ) (cs : List Chunk) (c : Chunk)
      → IsOpen n cs
      → IsChunkOf (n + length cs) c
      → IsStreamed n (cs ++ c ∷ [])
  IsStreamed-append n [] c h d =
      (subst (λ x. IsChunkOf x c) (omega arith) d, last-IsStreamed (n + 0) c d c.final)
  IsStreamed-append n (b ∷ cs) c (a, g, h) d =
      (a, rw g (IsStreamed-append (suc n) cs c h (subst (λ x. IsChunkOf x c) (omega arith) d)))

abbrev pub ends_final : List Chunk → Bool
ends_final [] = false
ends_final (c ∷ []) = c.final
ends_final (c ∷ d ∷ cs) = ends_final (d ∷ cs)

pub ends_final-append : (cs : List Chunk) (c : Chunk) → ends_final (cs ++ c ∷ []) ≡ c.final
ends_final-append [] c = refl
ends_final-append (b ∷ []) c = refl
ends_final-append (b ∷ d ∷ cs) c = ends_final-append (d ∷ cs) c

abbrev pub chunks_of : Option Outcome → List Chunk
chunks_of none = []
chunks_of (some o) = elim o.chunk [ some c ↦ c ∷ [] | none ↦ [] ]

abbrev same : Bool → Bool → Bool
same true b = b
same false b = not b

-- Only the final chunk is marked as the end.
abbrev pub is_marked : Option Outcome → Bool
is_marked none = true
is_marked (some o) = elim o.chunk [
  | none ↦ is_last o
  | some c ↦ elim o.failure [ some e ↦ false | none ↦ same c.final o.done ]
]
