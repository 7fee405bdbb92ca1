-- ===== src/Dispatch/Answers.antt =====
-- The handlers of internal/dispatcher and internal/service answer a message under its id.
use cockpit_slurm.Base.{
  String, ◌≡◌, refl, ap, ◌∙◌, inl, inr, Bool, true, false, Option, none, some, if◌then◌else◌,
  nat_eq, string_eq, is_empty, arith, Bool-cases, Option-cases,
}
use cockpit_slurm.Base.Maps.{lookup}
use cockpit_slurm.Protocol.Envelope.{Envelope, new_envelope}
use cockpit_slurm.Identity.Resolver.{
  UserContext, IdentityResult, ok, err, identity_unavailable, slurm_user_not_found,
  slurm_user_lookup, unknown_admin_level, capability_node_drain, capability_node_resume,
}
use cockpit_slurm.Resource.Cache.{NodeCache}
use cockpit_slurm.Command.World.{Codec, new_error_envelope}
use cockpit_slurm.Service.Query.{
  QueryCodec, QueryResult, answered, rejected, query, answer, handle_query,
}
use cockpit_slurm.Service.Capabilities.{
  CapabilitiesHandler, decode_capabilities_request, respond, report, handle_authenticated,
  capability_unavailable_response,
}
use cockpit_slurm.Dispatch.Handlers.{greet}

pub greet-Answers :
    (c : Codec) (kind : String) (payload : Option String) (m : Envelope)
    → (greet c kind payload m).message_id ≡ m.message_id
unfolding greet new_error_envelope new_envelope
greet-Answers c kind none m = refl
greet-Answers c kind (some payload) m = refl

answer-Answers : (q : QueryCodec) (id : String) (r : QueryResult) → (answer q id r).message_id ≡ id
unfolding answer new_envelope
answer-Answers q id (rejected e) = refl
answer-Answers q id (answered s) = elim (Option-cases (q.marshal s)) [
  | inl e ↦ rw (answer, e) refl
  | inr (p, e) ↦ rw (answer, e) refl
]

pub handle_query-Answers :
    (q : QueryCodec) (cache : NodeCache) (m : Envelope)
    → (handle_query q cache m).message_id ≡ m.message_id
unfolding handle_query new_envelope
handle_query-Answers q cache m = elim (Option-cases (q.unmarshal m.payload)) [
  | inl e ↦ rw (handle_query, e) refl
  | inr (name, e) ↦ elim (Bool-cases (is_empty name)) [
    | inl f ↦ rw (handle_query, e, f) refl
    | inr f ↦ rw (handle_query, e, f) (answer-Answers q m.message_id (query cache name))
  ]
]

if-id :
    (b : Bool) (x y : Envelope) (id : String)
    → x.message_id ≡ id
    → y.message_id ≡ id
    → (if b then x else y).message_id ≡ id
if-id true x y id p q = p
if-id false x y id p q = q

respond-Answers :
    (h : CapabilitiesHandler) (id : String) (a b : Bool) → (respond h id a b).message_id ≡ id
unfolding respond capability_unavailable_response new_error_envelope new_envelope
respond-Answers h id a b =
    elim (Option-cases
      (h.marshal (record { capabilities = record { nodes_drain = a; nodes_resume = b } }))) [
        | inl e ↦ rw (respond, e) refl
        | inr (p, e) ↦ rw (respond, e) refl
      ]

told-Answers :
    (h : CapabilitiesHandler) (id : String) (x y : Option Bool)
    → (elim x as (λ z. Envelope) [
      | none ↦ capability_unavailable_response h.codec id
      | some a ↦ elim y as (λ z. Envelope) [
        | none ↦ capability_unavailable_response h.codec id
        | some b ↦ respond h id a b
      ]
    ]).message_id
      ≡ id
unfolding capability_unavailable_response new_error_envelope new_envelope
told-Answers h id none y = refl
told-Answers h id (some a) none = refl
told-Answers h id (some a) (some b) = respond-Answers h id a b

report-Answers :
    (h : CapabilitiesHandler) (requester : UserContext) (id : String)
    (r : IdentityResult UserContext)
    → (report h requester id r).message_id ≡ id
unfolding report capability_unavailable_response new_error_envelope new_envelope
report-Answers h requester id (err identity_unavailable) = refl
report-Answers h requester id (err slurm_user_not_found) = refl
report-Answers h requester id (err slurm_user_lookup) = refl
report-Answers h requester id (err unknown_admin_level) = refl
report-Answers h requester id (ok u) =
    if-id _ (capability_unavailable_response h.codec id) _ id refl (
      told-Answers h id (lookup capability_node_drain u.capabilities)
        (lookup capability_node_resume u.capabilities))

pub handle_authenticated-Answers :
    (h : CapabilitiesHandler) (requester : UserContext) (m : Envelope)
    → (handle_authenticated h requester m).message_id ≡ m.message_id
unfolding handle_authenticated capability_unavailable_response new_error_envelope new_envelope
handle_authenticated-Answers h requester m =
    elim (Option-cases (decode_capabilities_request h.request_decoder m.payload)) [
      | inl e ↦ rw (handle_authenticated, e) refl
      | inr (x, e) ↦ elim (Bool-cases (is_empty requester.username)) [
        | inl f ↦ rw (handle_authenticated, e, f) refl
        | inr f ↦ elim (Option-cases h.resolver) [
          | inl g ↦ rw (handle_authenticated, e, f, g) refl
          | inr (resolver, g) ↦
              let q : handle_authenticated h requester m
                  ≡ report h requester m.message_id (resolver requester) =
                ground (arith, e, f, g) in
              ap (λ (z : Envelope). z.message_id) q
              ∙ report-Answers h requester m.message_id (resolver requester)
        ]
      ]
    ]
