-- ===== src/Gateway/Chat/Settled.antt =====
-- What a handled request leaves behind, and which responses it cannot have.
use aether_serve.Base.{
  ℕ, ◌+◌, ◌^◌, ◌<◌, ◌≡◌, ◌≢◌, refl, sym, ap, subst, Bool, Bool-cases, ◌==◌, some, inl, inr, ◌⊎◌,
  Result, ok, err, add_u64, arith,
}
use aether_serve.Float.{Float}
use aether_serve.Model.{Request}
use aether_serve.Admission
use aether_serve.Admission.{
  Store, Panic, reserve_lease, reserve, charge, release, in_flight, tenant_limit, global_limit,
}
use aether_serve.Admission.Ledger.{IsBalanced, reserve_lease-IsBalanced, reserve_lease-release}
use aether_serve.Registry.{healthy_count}
use aether_serve.Gateway.Attempts.{Answer, unanswered, answer_request}
use aether_serve.Gateway.Attempts.Answers.{answered}
use aether_serve.Gateway.Request
use aether_serve.Gateway.Request.{Libraries, parse_request}
use aether_serve.Gateway.Request.Bounds.{parse_request-within}
use aether_serve.Clock.{Time}
use aether_serve.Base.Text.{GoString}
use aether_serve.Gateway.Chat.{
  bad_request, unavailable, Server, Incoming, Surroundings, Response, internal_error, silent,
  respond, refuse, serve, reserved, admit, parsed, handle_chat,
}

-- A response other than an internal error and silence.
abbrev pub IsProper : Response → Type 0
IsProper (internal_error e) = ⊥
IsProper silent = ⊥
IsProper _ = Unit {0}

respond-IsProper :
    (wrote : Bool) (turns : _) (a : Answer) → a ≢ unanswered → IsProper (respond wrote turns a)
respond-IsProper wrote turns Answer.no_workers n = tt
respond-IsProper wrote turns Answer.timeout_error n = tt
respond-IsProper wrote turns (Answer.upstream_error f) n = tt
respond-IsProper wrote turns (Answer.committed w c) n = tt
respond-IsProper wrote turns unanswered n = n refl

refuse-IsProper :
    (e : Admission.Error) → ((e ≡ tenant_limit) ⊎ (e ≡ global_limit)) → IsProper (refuse e)
refuse-IsProper e (inl q) = subst (λ x. IsProper (refuse x)) (sym q) tt
refuse-IsProper e (inr q) = subst (λ x. IsProper (refuse x)) (sym q) tt

module _ {F : Type 0} ⦃fl : Float F⦄ where
  -- A handler that returns, leaves the admission balanced with the same total, and answers properly.
  pub record IsSettled (s : Server F) (out : Result Panic (Server F × Response)) : Type 0 where
    pub server : Server F
    pub response : Response
    pub returned : out ≡ ok (server, response)
    pub balanced : IsBalanced server.admission
    pub total : in_flight server.admission.controller ≡ in_flight s.admission.controller
    pub registry : server.registry ≡ s.registry
    pub proper : IsProper response

  -- A positive cost is refused by one of the two limits, which does not touch the total.
  reserve_lease-refused :
      (s : Store F) (now : Time) (tenant : GoString) (cost : ℕ) (e : Admission.Error)
      → 0 < cost
      → (reserve_lease s now tenant cost).1 ≡ err e
      → ((e ≡ tenant_limit) ⊎ (e ≡ global_limit))
        × (in_flight (reserve_lease s now tenant cost).0.controller ≡ in_flight s.controller)
  unfolding reserve_lease reserve charge
  reserve_lease-refused s now tenant cost e pos q = ground arith

  reserved-IsSettled :
      (s : Server F) (env : Surroundings F) (request : Request)
      (o : Store F × Result Admission.Error ℕ)
      → ((lease : ℕ)
          → o.1 ≡ ok lease
          → (t : Store F) × (release o.0 (some lease) ≡ ok t)
            × IsBalanced t
            × (in_flight t.controller ≡ in_flight s.admission.controller))
      → ((e : Admission.Error)
          → o.1 ≡ err e
          → ((e ≡ tenant_limit) ⊎ (e ≡ global_limit))
            × (in_flight o.0.controller ≡ in_flight s.admission.controller))
      → IsBalanced o.0
      → IsSettled s (reserved s env request o)
  unfolding reserved serve
  reserved-IsSettled s env request (store, ok lease) granted refused v =
      let (t, r, w, total) = granted lease refl in
      let o = answer_request env.tries request s.router in
      record {
        server = record s { admission = t; router = o.router };
        response = respond env.wrote_first env.turns o.answer;
        returned =
            ap
              (λ x. elim x [
                | err p ↦ err p
                | ok store ↦ ok (
                  record s { admission = store; router = o.router },
                  respond env.wrote_first env.turns o.answer,
                )
              ])
              r;
        balanced = w;
        total = total;
        registry = refl;
        proper =
            respond-IsProper env.wrote_first env.turns o.answer
              (answered env.tries request s.router);
      }
  reserved-IsSettled s env request (store, err e) granted refused v =
      let (limit, total) = refused e refl in
      record {
        server = record s { admission = store };
        response = refuse e;
        returned = refl;
        balanced = v;
        total = total;
        registry = refl;
        proper = refuse-IsProper e limit;
      }

  admit-IsSettled :
      (s : Server F) (env : Surroundings F) (request : Request)
      → IsBalanced s.admission
      → 0 < add_u64 request.estimated_input_token request.max_output_tokens
      → IsSettled s (admit s env request)
  unfolding admit
  admit-IsSettled s env request v pos =
      elim (Bool-cases (healthy_count s.registry env.counted_at == 0)) [
        | inl none_healthy ↦ rw none_healthy record {
          server = s;
          response = unavailable;
          returned = refl;
          balanced = v;
          total = refl;
          registry = refl;
          proper = tt;
        }
        | inr positive ↦ rw positive (
            reserved-IsSettled s env request
              (reserve_lease s.admission env.reserved_at request.tenant_id
                (add_u64 request.estimated_input_token request.max_output_tokens))
              (λ lease e.
                reserve_lease-release s.admission env.reserved_at request.tenant_id _ lease v e)
              (λ e q. reserve_lease-refused s.admission env.reserved_at request.tenant_id _ e pos q)
              (reserve_lease-IsBalanced s.admission env.reserved_at request.tenant_id _ v))
      ]

  parsed-IsSettled :
      (s : Server F) (env : Surroundings F) (r : Result Request.Error Request)
      → IsBalanced s.admission
      → ((request : Request)
          → r ≡ ok request
          → 0 < add_u64 request.estimated_input_token request.max_output_tokens)
      → IsSettled s (parsed s env r)
  unfolding parsed
  parsed-IsSettled s env (err e) v pos = record {
    server = s;
    response = bad_request e;
    returned = refl;
    balanced = v;
    total = refl;
    registry = refl;
    proper = tt;
  }
  parsed-IsSettled s env (ok request) v pos = admit-IsSettled s env request v (pos request refl)

  -- Where the admission is balanced and the input and output limits do not overflow together: the handler returns
  -- without a panic, the admission it leaves is balanced, with the in-flight total that it found, the registry is as
  -- it was, and the response is neither an internal error nor a handler that ends without a response.
  pub handle_chat-IsSettled :
      (lib : Libraries) (s : Server F) (incoming : Incoming) (env : Surroundings F)
      → IsBalanced s.admission
      → s.config.max_input_tokens + s.config.max_output_tokens < 2 ^ 64
      → IsSettled s (handle_chat lib s incoming env)
  unfolding handle_chat
  handle_chat-IsSettled lib s incoming env v fits = parsed-IsSettled s env _ v λ request q. ground (
    arith,
    parse_request-within lib s.config incoming.random incoming.request_id incoming.timeout
        incoming.tenant env.parsed_at incoming.body request fits q,
  )
