-- ===== src/Service/Answers.antt =====
-- What a query answers about the nodes that the last refresh brought (internal/service/query.go,
-- internal/resource/node_cache.go).
use cockpit_slurm.Base.{
  String, ◌≡◌, refl, inl, inr, some, ◌==◌, string_eq, string_iff, is_empty, arith, Option-cases,
  Bool-cases,
}
use cockpit_slurm.Protocol.Envelope.{Envelope, new_envelope, message_error, message_query_response}
use cockpit_slurm.Resource.Node.{Snapshot}
use cockpit_slurm.Resource.Cache.{NodeCache, snapshot}
use cockpit_slurm.Service.Query.{QueryCodec, answered, query, answer, handle_query}

differ : message_error ≡ message_query_response → ⊥
differ h = ground (arith, string_iff message_error message_query_response)

answer-answered :
    (c : QueryCodec) (id : String) (s : Snapshot)
    → (answer c id (answered s)).message_type ≡ message_query_response
    → (payload : String) × (c.marshal s ≡ some payload)
      × (answer c id (answered s) ≡ new_envelope c.timestamp id message_query_response payload)
unfolding answer new_envelope
answer-answered c id s h = elim (Option-cases (c.marshal s)) [
  | inl e ↦ absurd (differ (ground (arith, e)))
  | inr (p, e) ↦ (p, e, (rw (answer, e) refl))
]

query-answered :
    (c : QueryCodec) (cache : NodeCache) (id name : String)
    → (answer c id (query cache name)).message_type ≡ message_query_response
    → (name ≡ "nodes") × (query cache name ≡ answered (snapshot cache))
unfolding answer query new_envelope
query-answered c cache id name h = elim (Bool-cases (is_empty name)) [
  | inl e ↦ absurd (differ (ground (arith, e)))
  | inr e ↦ elim (Bool-cases (name == "nodes")) [
    | inl k ↦ ((string_iff name "nodes").0 k, ground (arith, e, k))
    | inr k ↦ absurd (differ (ground (arith, e, k)))
  ]
]

-- A query response is sent only for a payload that asks for the resource "nodes", and carries the
-- encoded snapshot of the cache.
pub handle_query-answers :
    (c : QueryCodec) (cache : NodeCache) (m : Envelope)
    → (handle_query c cache m).message_type ≡ message_query_response
    → (payload : String) × (c.unmarshal m.payload ≡ some "nodes")
      × (c.marshal (snapshot cache) ≡ some payload)
      × (handle_query c cache m
          ≡ new_envelope c.timestamp m.message_id message_query_response payload)
unfolding handle_query new_envelope
handle_query-answers c cache m h = elim (Option-cases (c.unmarshal m.payload)) [
  | inl e ↦ absurd (differ (ground (arith, e)))
  | inr (name, e) ↦ elim (Bool-cases (is_empty name)) [
    | inl k ↦ absurd (differ (ground (arith, e, k)))
    | inr k ↦
        let asked : (answer c m.message_id (query cache name)).message_type
            ≡ message_query_response =
          ground (arith, e, k) in
        let (n, q) = query-answered c cache m.message_id name asked in
        let (p, r, s) =
          answer-answered c m.message_id (snapshot cache) (ground (arith, asked, q)) in
        (p, ground (arith, e, n), r, ground (arith, e, k, q, s))
  ]
]
