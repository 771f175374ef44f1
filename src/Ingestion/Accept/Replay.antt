-- ===== src/Ingestion/Accept/Replay.antt =====
-- A delivery that is repeated under its idempotency key.
use peka_saas.Common.{
  ℕ, ◌+◌, ◌<◌, ◌≡◌, inl, inr, refl, ap, sym, subst, ◌∙◌, Option, none, some, List, [], ◌∷◌, ◌++◌,
  ◌==◌, ==_refl, not, arith, find, update_rows, find-append, where_rows, Option-cases, Bool-cases,
}
use peka_saas.Common.Exec.{Result, ok, err}
use peka_saas.Ingestion.Types.{
  Text, IngestionJob, IngestionJobType, delete_from_index, parse_document, reindex_document,
  ConnectorDocumentAcknowledgement, DocumentIdempotencyRecord, Document, DocumentVersion,
}
use peka_saas.Connector.Types.{ManagedConnector}
use peka_saas.Ingestion.World.{Db, World, Exn}
use peka_saas.Ingestion.World
use peka_saas.Ingestion.Queue.{NewJob, enqueue_job, existing_job, new_job}
use peka_saas.Ingestion.Accept.{
  Delivery, AcceptError, Operation, upsert, delete, replay, get_idempotency, is_record_of,
  idempotency_row, request_fingerprint, PutOutcome, put_stored, too_large, put_failed, get_logical,
}
use peka_saas.Ingestion.Accept.Rows.{new_version}
use peka_saas.Ingestion.Accept.Known.{deliver_known-new}
use peka_saas.Ingestion.Accept.Deliver.{
  accept, perform, deliver_known, replayed_or, upsert_document, delete_document, deliver, tombstone,
  received_again, requires_reindex, store_upload, accept_existing, accept_new,
}

-- Queueing always returns, and leaves the other tables, the index and the objects.
pub enqueue_job-keeps :
    (fresh : NewJob) (tenant_id document_id : ℕ) (version_id : Option ℕ) (t : IngestionJobType)
    (correlation_id : Option Text) (w : World)
    → (j : IngestionJob) × (js : List IngestionJob) × (enqueue_job fresh tenant_id document_id
          version_id t correlation_id w
        ≡ (ok j, record w { working = record w.working { jobs = js } }))
unfolding enqueue_job World.◌>>=◌
enqueue_job-keeps fresh tenant_id document_id version_id t correlation_id w =
    let k : IngestionJob = new_job fresh tenant_id document_id version_id t correlation_id in
    elim (Option-cases (existing_job document_id version_id t w.working)) [
      | inl e ↦ (k, w.working.jobs ++ k ∷ [], rw e refl)
      | inr (j, e) ↦ (j, w.working.jobs, rw e refl)
    ]

-- What an accepted delivery commits.
abbrev Records :
    Delivery → World → Result AcceptError ConnectorDocumentAcknowledgement × World → Type 0
Records x w r =
    (a : ConnectorDocumentAcknowledgement)
    → r.0 ≡ ok a
    → (r.1.working.idempotency ≡ w.working.idempotency ++ idempotency_row x a ∷ [])
      × (r.1.committed ≡ r.1.working)

module _ (x : Delivery) where
  delete_document-Records : (w : World) → Records x w (delete_document x w)
  unfolding delete_document
  delete_document-Records w a h =
      elim (Option-cases (get_logical x.connector.tenant_id x.metadata.document_key w.working)) [
        | inl e ↦ absurd (ground arith)
        | inr (d, e) ↦
            let u : World = record w {
              working = record w.working {
                documents = update_rows (λ r. r.id == d.id) (tombstone x) w.working.documents;
              };
            } in
            ground (
              arith,
              enqueue_job-keeps x.new_job x.connector.tenant_id d.id none delete_from_index
                  (some x.idempotency_key) u,
            )
      ]

  accept_new-Records :
      (d : Document) (key hash : Text) (size modified_at : ℕ) (w : World)
      → Records x w (accept_new x d key hash size modified_at w)
  unfolding accept_new
  accept_new-Records d key hash size modified_at w a h =
      let u : World = record w {
        working = record w.working {
          documents =
              update_rows (λ r. r.id == d.id)
                (λ (r : Document). record r { current_version_id = some x.new_version_id })
                w.working.documents;
          versions = w.working.versions ++ new_version x d key hash size modified_at ∷ [];
        };
      } in
      ground (
        arith,
        enqueue_job-keeps x.new_job x.connector.tenant_id d.id (some x.new_version_id)
            parse_document (some x.idempotency_key) u,
      )

  accept_existing-Records :
      (d : Document) (v : DocumentVersion) (key : Text) (w : World)
      → Records x w (accept_existing x d v key w)
  unfolding accept_existing
  accept_existing-Records d v key w a h =
      let u : World = record w {
        objects = where_rows (λ k. not (k == key)) w.objects;
        working = record w.working {
          documents =
              update_rows (λ r. r.id == d.id)
                (λ (r : Document). record r { current_version_id = some v.id }) w.working.documents;
          versions = update_rows (λ r. r.id == v.id) received_again w.working.versions;
        };
      } in
      elim (Bool-cases (requires_reindex d v)) [
        | inl e ↦ ground (
          arith,
          enqueue_job-keeps x.new_job x.connector.tenant_id d.id (some v.id) reindex_document
              (some x.idempotency_key) u,
        )
        | inr e ↦ ground arith
      ]

  store_upload-Records :
      (o : PutOutcome) (existing : Option DocumentVersion) (d : Document) (key hash : Text)
      (modified_at : ℕ) (w : World)
      → Records x w (store_upload o existing x d key hash modified_at w)
  unfolding store_upload
  store_upload-Records too_large existing d key hash modified_at w a h = absurd (ground arith)
  store_upload-Records put_failed existing d key hash modified_at w a h = absurd (ground arith)
  store_upload-Records (put_stored size sha256) none d key hash modified_at w a h =
      let u : World = record w { objects = w.objects ++ key ∷ [] } in
      ground (arith, accept_new-Records d key (x.lower sha256) size modified_at u a)
  store_upload-Records (put_stored size sha256) (some v) d key hash modified_at w a h =
      let u : World = record w { objects = w.objects ++ key ∷ [] } in
      ground (arith, accept_existing-Records d v key u a)

  deliver-Records :
      (hash : Text) (modified_at : ℕ) (w : World) → Records x w (deliver x hash modified_at w)
  unfolding deliver
  deliver-Records hash modified_at w =
      after (get_logical x.connector.tenant_id x.metadata.document_key w.working)
    where
      after : (known : Option Document) → Records x w (deliver_known x hash modified_at known w)
      after none = elim (deliver_known-new x hash modified_at w) [
        | inl e ↦ subst (Records x w) (sym e) (λ a h. absurd (ground arith))
        | inr e ↦
            subst (Records x w) (sym e)
              (λ a h. store_upload-Records x.put_stream _ _ _ hash modified_at _ a h)
      ]
      after (some d) = λ a h. store_upload-Records x.put_stream _ _ _ hash modified_at _ a h

  upsert_document-Records : (w : World) → Records x w (upsert_document x w)
  unfolding upsert_document
  upsert_document-Records w a h = elim (Option-cases x.metadata.content_hash) [
    | inl e ↦ absurd (ground arith)
    | inr (hash, e) ↦ elim (Option-cases x.metadata.modified_at) [
      | inl e' ↦ absurd (ground arith)
      | inr (modified_at, e') ↦ ground (arith, deliver-Records (x.lower hash) modified_at w a)
    ]
  ]

  perform-Records : (o : Operation) (w : World) → Records x w (perform o x w)
  perform-Records upsert w = upsert_document-Records w
  perform-Records delete w = delete_document-Records w

-- The idempotency record of the delivery's key.
abbrev pub previous : Delivery → World → Option DocumentIdempotencyRecord
previous x w =
    find (is_record_of x.connector.tenant_id x.connector.id x.idempotency_key) w.working.idempotency

replay-none : (x : Delivery) (w : World) → previous x w ≡ none → replay x w ≡ (ok none, w)
unfolding replay get_idempotency
replay-none x w e = ground arith

accept-first :
    (x : Delivery) (w : World) → previous x w ≡ none → accept x w ≡ perform x.metadata.operation x w
unfolding accept
accept-first x w e = ap after (replay-none x w e)
  where
    after :
        Result AcceptError (Option ConnectorDocumentAcknowledgement) × World
        → Result AcceptError ConnectorDocumentAcknowledgement × World
    after r = elim r.0 [ ok o ↦ replayed_or o x r.1 | err e ↦ (err e, r.1) ]

accept-again :
    (x : Delivery) (w : World) (r : DocumentIdempotencyRecord) (until : ℕ)
    → previous x w ≡ some r
    → r.expires_at ≡ some until
    → x.now < until
    → r.request_fingerprint ≡ request_fingerprint x
    → accept x w ≡ (ok r.response_payload, w)
unfolding accept replay get_idempotency
accept-again x w r until e expiry early same = ground (arith, ==_refl (request_fingerprint x))

row-previous :
    (x : Delivery) (a : ConnectorDocumentAcknowledgement) (rows : List DocumentIdempotencyRecord)
    → find (is_record_of x.connector.tenant_id x.connector.id x.idempotency_key) rows ≡ none
    → find
        (is_record_of x.connector.tenant_id x.connector.id x.idempotency_key)
        (rows ++ idempotency_row x a ∷ [])
      ≡ some (idempotency_row x a)
row-previous x a rows e = ground (
  arith,
  find-append (is_record_of x.connector.tenant_id x.connector.id x.idempotency_key) rows
      (idempotency_row x a ∷ []),
)

-- When a delivery under a fresh idempotency key is accepted, delivering again under the key, with the
-- same connector and fingerprint and before the record expires, returns the same acknowledgement and
-- changes nothing, whatever the upload would do.
pub accept_replay :
    (x again : Delivery) (w : World) (a : ConnectorDocumentAcknowledgement)
    → previous x w ≡ none
    → (accept x w).0 ≡ ok a
    → again.connector ≡ x.connector
    → again.idempotency_key ≡ x.idempotency_key
    → request_fingerprint again ≡ request_fingerprint x
    → again.now < x.now + x.idempotency_period
    → accept again (accept x w).1 ≡ (ok a, (accept x w).1)
accept_replay x again w a fresh done same_connector same_key same_request early =
    let first = accept-first x w fresh in
    let v : World = (accept x w).1 in
    let stored =
      (perform-Records x x.metadata.operation w a (sym (ap (λ r. r.0) first) ∙ done)).0 in
    let rows : v.working.idempotency ≡ w.working.idempotency ++ idempotency_row x a ∷ [] =
      ap (λ r. r.1.working.idempotency) first ∙ stored in
    accept-again again v (idempotency_row x a) (x.now + x.idempotency_period)
      (ap
          (λ (c : ManagedConnector).
            find (is_record_of c.tenant_id c.id again.idempotency_key) v.working.idempotency)
          same_connector
        ∙ ap (λ k. find (is_record_of x.connector.tenant_id x.connector.id k) v.working.idempotency)
            same_key
        ∙ ap (find (is_record_of x.connector.tenant_id x.connector.id x.idempotency_key)) rows
        ∙ row-previous x a w.working.idempotency fresh)
      refl early (sym same_request)
