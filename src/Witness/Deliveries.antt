-- ===== src/Witness/Deliveries.antt =====
-- Examples of the theorems on the acceptance of documents.
use peka_saas.Common.{◌+◌, ◌*◌, ◌≡◌, refl, arith, true, false, some, [], ◌∷◌}
use peka_saas.Common.Exec.{ok, is_ok}
use peka_saas.Ingestion.Types.{ConnectorDocumentAcknowledgement}
use peka_saas.Ingestion.World.{Db, World, ◌>>=◌}
use peka_saas.Ingestion.Queue.{enqueue_job, existing_job, oldest}
use peka_saas.Ingestion.Accept.{
  Delivery, ConnectorDocumentMetadata, Operation, put_stored, too_large, committed, replay,
  get_idempotency,
}
use peka_saas.Ingestion.Accept.Deliver.{accept, upsert_document, deliver, store_upload, accept_new}
use peka_saas.Ingestion.Accept.Replay.{accept_replay}
use peka_saas.Ingestion.Accept.Refused.{Unchanged, accept-Unchanged}
use peka_saas.Witness.ConnectorData.{connector}
use peka_saas.Witness.IngestionData.{fresh_job}

abbrev metadata : ConnectorDocumentMetadata
metadata = record {
  source_id = 100;
  document_key = 101;
  relative_path = 104;
  filename = 102;
  mime_type = 105;
  size_bytes = 1000;
  content_hash = some 200;
  modified_at = some 4;
  operation = Operation.upsert;
}

abbrev delivery : Delivery
delivery = record {
  connector = connector;
  metadata = metadata;
  idempotency_key = 700;
  has_stream = true;
  upload_mime_type = some 105;
  put_stream = put_stored 1000 200;
  document_flush_fails = false;
  version_flush_fails = false;
  delete_fails = false;
  commit_outcome = committed;
  max_upload_bytes = 5000;
  idempotency_period = 86400;
  now = 60;
  new_document_id = 10;
  new_version_id = 20;
  new_job = fresh_job;
  fingerprint = λ id m. id + m.document_key;
  lower = λ t. t;
  casefold = λ t. t;
  suffix = λ t. 1;
  object_key = λ tenant_id document_id version_id name. document_id * 1000 + version_id;
}

-- The connector sends the same again, and its upload would fail.
abbrev delivery_again : Delivery
delivery_again = record delivery { now = 90; put_stream = too_large; new_version_id = 21 }

abbrev tables : Db
tables = record {
  documents = [];
  versions = [];
  sections = [];
  chunks = [];
  jobs = [];
  idempotency = [];
  workers = [];
}

abbrev empty_world : World
empty_world = record { working = tables; committed = tables; points = []; objects = [] }

abbrev acknowledgement : ConnectorDocumentAcknowledgement
acknowledgement = record {
  document_id = 10;
  version_id = some 20;
  content_hash = some 200;
  ingestion_status = "RECEIVED";
}

accept_returns : (accept delivery empty_world).0 ≡ ok acknowledgement
unfolding accept upsert_document deliver store_upload accept_new replay get_idempotency enqueue_job
    existing_job oldest ◌>>=◌
accept_returns = refl

accept_replay_example :
    accept delivery_again (accept delivery empty_world).1
    ≡ (ok acknowledgement, (accept delivery empty_world).1)
accept_replay_example =
    accept_replay delivery delivery_again empty_world acknowledgement refl accept_returns refl refl
      refl (omega arith)

-- The declared size is wrong.
abbrev mislabelled : Delivery
mislabelled = record delivery { put_stream = put_stored 999 200 }

mislabelled_refused : is_ok (accept mislabelled empty_world).0 ≡ false
unfolding accept upsert_document deliver store_upload replay get_idempotency
mislabelled_refused = refl

accept-Unchanged_example : Unchanged mislabelled empty_world (accept mislabelled empty_world).1
accept-Unchanged_example = accept-Unchanged mislabelled empty_world mislabelled_refused

-- The flush of the new version raises: the delivery is refused, and the object stays.
abbrev unflushed : Delivery
unflushed = record delivery { version_flush_fails = true }

test_unflushed :
    (is_ok (accept unflushed empty_world).0 ≡ false)
    × ((accept unflushed empty_world).1.objects ≡ 10020 ∷ [])
unfolding accept upsert_document deliver store_upload accept_new replay get_idempotency enqueue_job
    existing_job oldest ◌>>=◌
test_unflushed = (refl, refl)
