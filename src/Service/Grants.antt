-- ===== src/Service/Grants.antt =====
-- The capabilities that a user is told are the decisions that his commands meet
-- (internal/service/capabilities.go, internal/authorization/authorizer.go).
use cockpit_slurm.Base.{
  String, ◌≡◌, refl, ap, ◌∙◌, sym, inl, inr, Bool, false, some, List, ◌==◌, nat_eq, string_eq,
  string_iff, is_empty, arith, Option-cases, Bool-cases,
}
use cockpit_slurm.Base.Maps.{lookup}
use cockpit_slurm.Protocol.Envelope.{Envelope, new_envelope, message_capabilities_response}
use cockpit_slurm.Identity.Resolver.{UserContext, IdentityResult, ok, UserLookup, resolve}
use cockpit_slurm.Identity.Privilege.{resolve_capabilities}
use cockpit_slurm.Authorization.Registry.{Registry, RegistryEntry, new_global_registry}
use cockpit_slurm.Authorization.Authorizer.{Decision, authorize}
use cockpit_slurm.Authorization.Decisions.{authorize_admin, decide-some}
use cockpit_slurm.Service.Capabilities.{
  CapabilitiesResponsePayload, CapabilitiesHandler, decode_capabilities_request, respond, report,
  handle_authenticated,
}

-- The response that tells both capabilities as one level.
abbrev pub told : Bool → CapabilitiesResponsePayload
told level = record { capabilities = record { nodes_drain = level; nodes_resume = level } }

-- A decision rests on a context that the resolver returns.
authorize-some :
    (registry : Registry) (resolver : UserContext → IdentityResult UserContext)
    (requester : UserContext) (op : String) (d : Decision)
    → authorize registry resolver requester op ≡ some d
    → resolver requester ≡ ok d.user_context
unfolding authorize
authorize-some registry resolver requester op d h = elim (Option-cases (lookup op registry)) [
  | inl e ↦ absurd (ground (arith, e))
  | inr (entry, e) ↦ (decide-some requester entry (resolver requester) d (ground (arith, e))).0
]

resolve-named :
    (users : String → UserLookup) (requester c : UserContext)
    → resolve users requester ≡ ok c
    → is_empty requester.username ≡ false
unfolding resolve
resolve-named users requester c h = elim (Bool-cases (is_empty requester.username)) [
  | inl e ↦ absurd (ground (arith, e))
  | inr e ↦ e
]

report_resolved :
    (h : CapabilitiesHandler) (users : String → UserLookup) (requester c : UserContext)
    (id : String)
    → resolve users requester ≡ ok c
    → report h requester id (resolve users requester)
      ≡ respond h id (c.admin_level == "admin") (c.admin_level == "admin")
unfolding report
report_resolved h users requester c id r =
    let (drain, resume, u, g, n) = resolve_capabilities users requester c r in
    rw (r, report)
      (ground (arith, u, g, n, drain, resume, string_iff c.username requester.username))

-- Whoever is told his capabilities is told what the authorizer decides: for a registry that
-- validation let through, the Slurm resolver, a request that decodes, and a command of the user that
-- gets a decision, the capability response has for both operations the flag `allowed` of that
-- decision, if the response can be encoded.
pub handle_authenticated-agrees :
    (h : CapabilitiesHandler) (users : String → UserLookup) (requester : UserContext) (m : Envelope)
    (entries : List (String × RegistryEntry)) (hs vs : List String) (registry : Registry)
    (op : String) (d : Decision) (payload : String)
    → h.resolver ≡ some (resolve users)
    → decode_capabilities_request h.request_decoder m.payload ≡ some tt
    → new_global_registry entries hs vs ≡ some registry
    → authorize registry (resolve users) requester op ≡ some d
    → h.marshal (told d.allowed) ≡ some payload
    → handle_authenticated h requester m
      ≡ new_envelope h.codec.timestamp m.message_id message_capabilities_response payload
unfolding handle_authenticated respond
handle_authenticated-agrees h users requester m entries hs vs registry op d payload r p n a e =
    let ok_d = authorize-some registry (resolve users) requester op d a in
    let allowed = (authorize_admin entries hs vs registry users requester op d n a).4 in
    let first : handle_authenticated h requester m
        ≡ report h requester m.message_id (resolve users requester) =
      ground (arith, p, r, resolve-named users requester d.user_context ok_d) in
    let last : respond h m.message_id d.allowed d.allowed
        ≡ new_envelope h.codec.timestamp m.message_id message_capabilities_response payload =
      rw (respond, e) refl in
    first
    ∙ report_resolved h users requester d.user_context m.message_id ok_d
    ∙ ap (λ b. respond h m.message_id b b) (sym allowed)
    ∙ last
