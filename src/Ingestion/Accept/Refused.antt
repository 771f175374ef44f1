-- ===== src/Ingestion/Accept/Refused.antt =====
-- What a delivery leaves that is refused.
use peka_saas.Common.{
  ℕ, ◌+◌, ◌⊎◌, if◌then◌else◌, ◌≤◌, ◌≡◌, inl, inr, refl, ap, sym, ◌∙◌, true, false, Option, none,
  some, List, [], ◌∷◌, ◌++◌, ◌==◌, not, ◌||◌, ltb, subst, arith, count_rows, count_rows-append,
  update_rows, where_rows, Option-cases, Bool-cases,
}
use peka_saas.Common.Exec.{Result, ok, err, is_ok}
use peka_saas.Ingestion.Types.{
  Text, Document, DocumentVersion, delete_from_index, parse_document, reindex_document,
  ConnectorDocumentAcknowledgement,
}
use peka_saas.Ingestion.World.{World}
use peka_saas.Ingestion.Accept.{
  Delivery, AcceptError, refused, size_mismatch, hash_mismatch, Operation, upsert, delete,
  PutOutcome, put_stored, too_large, put_failed, get_logical, replay, get_idempotency,
}
use peka_saas.Ingestion.Accept.Rows.{new_version}
use peka_saas.Ingestion.Accept.Known.{deliver_known-new}
use peka_saas.Ingestion.Accept.Deliver.{
  accept, perform, replayed_or, deliver_known, undo, accept_version, upsert_document,
  delete_document, deliver, mime_differs, tombstone, store_upload, accept_existing, accept_new,
  received_again, requires_reindex,
}
use peka_saas.Ingestion.Accept.Replay.{enqueue_job-keeps}

-- No committed table has changed; and no key is in the object store more often than before, but
-- once more at most where the flush of a new version or `storage.delete` raises.
abbrev pub Unchanged : Delivery → World → World → Type 0
Unchanged x w v =
    (v.committed ≡ w.committed)
    × ((k : Text)
        → count_rows (λ o. o == k) v.objects
          ≤ count_rows (λ o. o == k) w.objects
            + (if x.version_flush_fails || x.delete_fails then 1 else 0))

abbrev Keeps :
    Delivery → World → Result AcceptError ConnectorDocumentAcknowledgement × World → Type 0
Keeps x w r = is_ok r.0 ≡ false → Unchanged x w r.1

count_rows-removed :
    (key k : Text) (objects : List Text)
    → count_rows (λ o. o == k) (where_rows (λ o. not (o == key)) (objects ++ key ∷ []))
      ≤ count_rows (λ o. o == k) objects
count_rows-removed key k [] = ground arith
count_rows-removed key k (o ∷ os) = ground (arith, count_rows-removed key k os)

module _ (x : Delivery) where
  delete_document-Keeps : (w : World) → Keeps x w (delete_document x w)
  unfolding delete_document
  delete_document-Keeps w h =
      elim (Option-cases (get_logical x.connector.tenant_id x.metadata.document_key w.working)) [
        | inl e ↦ (ground arith, λ k. ground arith)
        | inr (d, e) ↦
            let u : World = record w {
              working = record w.working {
                documents = update_rows (λ r. r.id == d.id) (tombstone x) w.working.documents;
              };
            } in
            let queued =
              enqueue_job-keeps x.new_job x.connector.tenant_id d.id none delete_from_index
                (some x.idempotency_key) u in
            (ground (arith, queued), λ k. ground (arith, queued))
      ]

  -- What a refused call leaves that has uploaded the object.
  abbrev Undone : Text → World → World → Type 0
  Undone key w v =
      (v.committed ≡ w.committed)
      × ((v.objects ≡ where_rows (λ o. not (o == key)) w.objects)
          ⊎ ((v.objects ≡ w.objects) × ((x.version_flush_fails || x.delete_fails) ≡ true)))

  accept_new-Undone :
      (d : Document) (key hash : Text) (size modified_at : ℕ) (w : World)
      → is_ok (accept_new x d key hash size modified_at w).0 ≡ false
      → Undone key w (accept_new x d key hash size modified_at w).1
  unfolding accept_new
  accept_new-Undone d key hash size modified_at w h =
      let u : World = record w {
        working = record w.working {
          documents =
              update_rows (λ r. r.id == d.id)
                (λ (r : Document). record r { current_version_id = some x.new_version_id })
                w.working.documents;
          versions = w.working.versions ++ new_version x d key hash size modified_at ∷ [];
        };
      } in
      ground (
        arith,
        enqueue_job-keeps x.new_job x.connector.tenant_id d.id (some x.new_version_id)
            parse_document (some x.idempotency_key) u,
      )

  accept_existing-Undone :
      (d : Document) (v : DocumentVersion) (key : Text) (w : World)
      → is_ok (accept_existing x d v key w).0 ≡ false
      → Undone key w (accept_existing x d v key w).1
  unfolding accept_existing
  accept_existing-Undone d v key w h =
      let u : World = record w {
        objects = where_rows (λ k. not (k == key)) w.objects;
        working = record w.working {
          documents =
              update_rows (λ r. r.id == d.id)
                (λ (r : Document). record r { current_version_id = some v.id }) w.working.documents;
          versions = update_rows (λ r. r.id == v.id) received_again w.working.versions;
        };
      } in
      elim (Bool-cases (requires_reindex d v)) [
        | inl e ↦ ground (
          arith,
          enqueue_job-keeps x.new_job x.connector.tenant_id d.id (some v.id) reindex_document
              (some x.idempotency_key) u,
        )
        | inr e ↦ ground arith
      ]

  undo-Undone :
      (key : Text) (e : AcceptError) (w : World)
      → Undone key w (undo {A = ConnectorDocumentAcknowledgement} x.delete_fails key e w).1
  undo-Undone key e w = elim (Bool-cases x.delete_fails) [
    | inl fails ↦ rw fails (refl, inr (refl, ground arith))
    | inr works ↦ rw works (refl, inl refl)
  ]

  -- Without the object, which was added, no key is there more often than before.
  Undone-Unchanged :
      (key : Text) (w v : World)
      → Undone key (record w { objects = w.objects ++ key ∷ [] }) v
      → Unchanged x w v
  Undone-Unchanged key w v (same, inl removed) =
      (same, λ k. ground (arith, removed, count_rows-removed key k w.objects))
  Undone-Unchanged key w v (same, inr (kept, fails)) =
      (same, λ k. ground (arith, kept, fails, count_rows-append (λ o. o == k) w.objects (key ∷ [])))

  undo-Keeps :
      (key : Text) (e : AcceptError) (w : World)
      → Keeps x w (
          undo {A = ConnectorDocumentAcknowledgement} x.delete_fails key e
            (record w { objects = w.objects ++ key ∷ [] }))
  undo-Keeps key e w h =
      let u : World = record w { objects = w.objects ++ key ∷ [] } in
      Undone-Unchanged key w (undo {A = ConnectorDocumentAcknowledgement} x.delete_fails key e u).1
        (undo-Undone key e u)

  accept_version-Keeps :
      (found : Option DocumentVersion) (d : Document) (key hash : Text) (size modified_at : ℕ)
      (w : World)
      → Keeps x w (
          accept_version found x d key hash size modified_at
            (record w { objects = w.objects ++ key ∷ [] }))
  accept_version-Keeps none d key hash size modified_at w h =
      let u : World = record w { objects = w.objects ++ key ∷ [] } in
      Undone-Unchanged key w (accept_new x d key hash size modified_at u).1
        (accept_new-Undone d key hash size modified_at u h)
  accept_version-Keeps (some v) d key hash size modified_at w h =
      let u : World = record w { objects = w.objects ++ key ∷ [] } in
      Undone-Unchanged key w (accept_existing x d v key u).1 (accept_existing-Undone d v key u h)

  store_upload-Keeps :
      (o : PutOutcome) (existing : Option DocumentVersion) (d : Document) (key hash : Text)
      (modified_at : ℕ) (w : World)
      → Keeps x w (store_upload o existing x d key hash modified_at w)
  unfolding store_upload
  store_upload-Keeps too_large existing d key hash modified_at w = λ h. (refl, λ k. ground arith)
  store_upload-Keeps put_failed existing d key hash modified_at w = λ h. (refl, λ k. ground arith)
  store_upload-Keeps (put_stored size sha256) existing d key hash modified_at w =
      elim (Bool-cases (size == x.metadata.size_bytes)) [
        | inr e ↦ rw e (undo-Keeps key (refused size_mismatch 422) w)
        | inl e ↦ elim (Bool-cases (x.lower sha256 == hash)) [
          | inr e' ↦ rw (e, e') (undo-Keeps key (refused hash_mismatch 422) w)
          | inl e' ↦
              rw (e, e') (accept_version-Keeps existing d key (x.lower sha256) size modified_at w)
        ]
      ]

  deliver-Keeps :
      (hash : Text) (modified_at : ℕ) (w : World) → Keeps x w (deliver x hash modified_at w)
  unfolding deliver
  deliver-Keeps hash modified_at w =
      after (get_logical x.connector.tenant_id x.metadata.document_key w.working)
    where
      after : (known : Option Document) → Keeps x w (deliver_known x hash modified_at known w)
      after none = elim (deliver_known-new x hash modified_at w) [
        | inl e ↦ subst (Keeps x w) (sym e) (λ h. (refl, λ k. ground arith))
        | inr e ↦
            subst (Keeps x w) (sym e)
              (λ h. store_upload-Keeps x.put_stream _ _ _ hash modified_at _ h)
      ]
      after (some d) = λ h. store_upload-Keeps x.put_stream _ _ _ hash modified_at _ h

  upsert_document-Keeps : (w : World) → Keeps x w (upsert_document x w)
  unfolding upsert_document
  upsert_document-Keeps w h = elim (Option-cases x.metadata.content_hash) [
    | inl e ↦ (ground arith, λ k. ground arith)
    | inr (hash, e) ↦ elim (Option-cases x.metadata.modified_at) [
      | inl e' ↦ (ground arith, λ k. ground arith)
      | inr (modified_at, e') ↦
          elim (Bool-cases (
            not x.has_stream
            || (mime_differs x.upload_mime_type x.metadata.mime_type
                || ltb x.max_upload_bytes x.metadata.size_bytes))) [
                  | inl bad ↦ (ground arith, λ k. ground arith)
                  | inr good ↦
                      let same : upsert_document x w ≡ deliver x (x.lower hash) modified_at w =
                        ground arith in
                      subst (λ r. Unchanged x w r.1) (sym same)
                        (deliver-Keeps (x.lower hash) modified_at w
                          (sym (ap (λ r. is_ok r.0) same) ∙ h))
                ]
    ]
  ]

  perform-Keeps : (o : Operation) (w : World) → Keeps x w (perform o x w)
  perform-Keeps upsert w = upsert_document-Keeps w
  perform-Keeps delete w = delete_document-Keeps w

  -- The rest of `accept` after the lookup of its key.
  abbrev replay_result :
      Result AcceptError (Option ConnectorDocumentAcknowledgement) × World
      → Result AcceptError ConnectorDocumentAcknowledgement × World
  replay_result r = elim r.0 [ ok o ↦ replayed_or o x r.1 | err e ↦ (err e, r.1) ]

  replay-kept :
      (w : World) → ((replay x w).1.committed ≡ w.committed) × ((replay x w).1.objects ≡ w.objects)
  unfolding replay get_idempotency
  replay-kept w = ground arith

  -- A delivery that is refused, by a test, the upload, a flush, the deletion of the object or the
  -- commit, has changed no committed table, and the object store holds no key more often than
  -- before, but once more at most where the flush of the new version or the deletion of the object
  -- raises.
  pub accept-Unchanged : (w : World) → is_ok (accept x w).0 ≡ false → Unchanged x w (accept x w).1
  unfolding accept
  accept-Unchanged w = after (replay x w) (replay-kept w)
    where
      after :
          (r : Result AcceptError (Option ConnectorDocumentAcknowledgement) × World)
          → (r.1.committed ≡ w.committed) × (r.1.objects ≡ w.objects)
          → Keeps x w (replay_result r)
      after (ok (some a), v) same h = absurd (ground arith)
      after (ok none, v) same h =
          let kept = perform-Keeps x.metadata.operation v h in
          (kept.0 ∙ same.0, λ k. ground (arith, kept.1 k, same.1))
      after (err e, v) same h = (same.0, λ k. ground (arith, same.1))
