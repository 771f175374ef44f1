-- ===== src/Connector/Heartbeat/Recorded.antt =====
-- What every heartbeat leaves in the tables.
use peka_saas.Common.{
  ℕ, Option, none, some, ◌≡◌, ◌≢◌, ◌⊎◌, inl, inr, refl, true, false, arith, ◌==◌, ◌++◌, ◌∷◌, [],
  is_some, Bool-cases,
}
use peka_saas.Common.Exec.{is_ok, Session}
use peka_saas.Connector.Types.{
  ManagedConnector, authentication_failure, ConnectorHeartbeatRequest, ConnectorHeartbeat,
  ConnectorEvent, LocalKnowledgeStoreSummary,
}
use peka_saas.Connector.Repository.{Db, get_tenant}
use peka_saas.Connector.Authenticate.{connector_event}
use peka_saas.Connector.Heartbeat.{record_heartbeat, accepted_heartbeat, refused_heartbeat}

-- The call has stored and committed the heartbeat, and written no token.
pub record IsRecorded (c : ManagedConnector) (payload : ConnectorHeartbeatRequest) (now : ℕ)
    (s t : Session Db) (h : ConnectorHeartbeat) : Type 0 where
  pub stored : t.committed.heartbeats ≡ s.working.heartbeats ++ h ∷ []
  pub saved : t.committed ≡ t.working
  pub tokens : t.committed.tokens ≡ s.working.tokens
  pub sender : (h.connector_id ≡ c.id) × (h.tenant_id ≡ c.tenant_id)
  pub received : h.received_at ≡ now
  pub reported :
      (h.source_total ≡ payload.sources.total)
      × (h.source_healthy ≡ payload.sources.healthy)
      × (h.source_unhealthy ≡ payload.sources.unhealthy)
      × (h.source_disabled ≡ payload.sources.disabled)

-- The rows of connectors and capabilities stay, and one event tells of the refusal.
abbrev pub IsRefusal : ManagedConnector → ℕ → Session Db → Session Db → Type 0
IsRefusal c now s t =
    (t.committed.connectors ≡ s.working.connectors)
    × (t.committed.capabilities ≡ s.working.capabilities)
    × ((e : ConnectorEvent) × (t.committed.events ≡ s.working.events ++ e ∷ [])
        × (e.event_type ≡ authentication_failure)
        × (e.connector_id ≡ some c.id)
        × (e.occurred_at ≡ now))

module _ (c : ManagedConnector) (payload : ConnectorHeartbeatRequest) (now : ℕ)
    (s : Session Db) where
  accepted-fields :
      (k : Option LocalKnowledgeStoreSummary)
      → let h = accepted_heartbeat c (record payload { local_knowledge_store = k }) now in
        ((h.connector_id ≡ c.id) × (h.tenant_id ≡ c.tenant_id))
        × (h.received_at ≡ now)
        × ((h.source_total ≡ payload.sources.total)
            × (h.source_healthy ≡ payload.sources.healthy)
            × (h.source_unhealthy ≡ payload.sources.unhealthy)
            × (h.source_disabled ≡ payload.sources.disabled))
        × (h.accepted ≡ true)
  accepted-fields none = ((refl, refl), refl, (refl, refl, refl, refl), refl)
  accepted-fields (some k) = ((refl, refl), refl, (refl, refl, refl, refl), refl)

  accepted-IsRecorded :
      (payload.instance_id == c.instance_id) ≡ true
      → IsRecorded c payload now s
          (record_heartbeat c payload now s).1
          (accepted_heartbeat c payload now)
  unfolding record_heartbeat
  accepted-IsRecorded e =
      let fields = accepted-fields payload.local_knowledge_store in
      record {
        stored = ground arith;
        saved = ground arith;
        tokens = ground arith;
        sender = fields.0;
        received = fields.1;
        reported = fields.2;
      }

  succeeds :
      (payload.instance_id == c.instance_id) ≡ true
      → is_ok (record_heartbeat c payload now s).0 ≡ is_some (get_tenant c.tenant_id s.working)
  unfolding record_heartbeat
  succeeds e = ground arith

  refused-IsRecorded :
      (payload.instance_id == c.instance_id) ≡ false
      → IsRecorded c payload now s
          (record_heartbeat c payload now s).1
          (refused_heartbeat c payload now)
  unfolding record_heartbeat
  refused-IsRecorded e = record {
    stored = rw e refl;
    saved = rw e refl;
    tokens = rw e refl;
    sender = (refl, refl);
    received = refl;
    reported = (refl, refl, refl, refl);
  }

  refused :
      (payload.instance_id == c.instance_id) ≡ false
      → (is_ok (record_heartbeat c payload now s).0 ≡ false)
        × IsRefusal c now s (record_heartbeat c payload now s).1
  unfolding record_heartbeat
  refused e = (
    rw e refl,
    (
      rw e refl,
      rw e refl,
      (
        connector_event c authentication_failure none
            "Authenticated heartbeat instance ID mismatch." now,
        rw e refl,
        refl,
        refl,
        refl,
      ),
    ),
  )

-- Every heartbeat leaves one row more, committed, with its sender, its time and the reported counts.
-- Under the registered instance id the row is an accepted one, and the call succeeds exactly
-- where the tenant exists; under another id the row is a refused one, the call fails, no connector or
-- capability changes, and one event AUTHENTICATION_FAILURE is stored.
pub record_heartbeat_stored :
    (c : ManagedConnector) (payload : ConnectorHeartbeatRequest) (now : ℕ) (s : Session Db)
    → (h : ConnectorHeartbeat) × IsRecorded c payload now s (record_heartbeat c payload now s).1 h
      × (((payload.instance_id ≡ c.instance_id)
            × (h.accepted ≡ true)
            × (is_ok (record_heartbeat c payload now s).0
                ≡ is_some (get_tenant c.tenant_id s.working)))
          ⊎ ((payload.instance_id ≢ c.instance_id)
              × (h.accepted ≡ false)
              × (is_ok (record_heartbeat c payload now s).0 ≡ false)
              × IsRefusal c now s (record_heartbeat c payload now s).1))
record_heartbeat_stored c payload now s = elim (Bool-cases (payload.instance_id == c.instance_id)) [
  | inl e ↦ (
    accepted_heartbeat c payload now,
    accepted-IsRecorded c payload now s e,
    inl (
      ground arith,
      (accepted-fields c payload now s payload.local_knowledge_store).3,
      succeeds c payload now s e,
    ),
  )
  | inr e ↦ (
    refused_heartbeat c payload now,
    refused-IsRecorded c payload now s e,
    inr (ground arith, refl, (refused c payload now s e).0, (refused c payload now s e).1),
  )
]
