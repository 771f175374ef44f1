-- ===== src/Ingestion/Accept/Known.antt =====
-- `accept` after the lookup of the document, by the flush of a document that is new.
use peka_saas.Common.{ℕ, ◌≡◌, ◌⊎◌, inl, inr, refl, none, [], ◌∷◌, ◌++◌, Bool-cases}
use peka_saas.Common.Exec.{err}
use peka_saas.Ingestion.Types.{Text}
use peka_saas.Ingestion.World.{World}
use peka_saas.Ingestion.Accept.{Delivery, database_error, get_version_by_hash}
use peka_saas.Ingestion.Accept.Rows.{new_document, described}
use peka_saas.Ingestion.Accept.Deliver.{deliver_known, store_upload}

-- The tables with the new document.
abbrev pub with_document : Delivery → World → World
with_document x w = record w {
  working = record w.working {
    documents = w.working.documents ++ described x (new_document x) ∷ [];
  };
}

-- The flush raises, or the upload is stored.
pub deliver_known-new :
    (x : Delivery) (hash : Text) (modified_at : ℕ) (w : World)
    → (deliver_known x hash modified_at none w ≡ (err database_error, with_document x w))
      ⊎ (deliver_known x hash modified_at none w
          ≡ store_upload x.put_stream
              (get_version_by_hash x.connector.tenant_id x.new_document_id hash
                (with_document x w).working)
              x
              (described x (new_document x))
              (x.object_key x.connector.tenant_id x.new_document_id x.new_version_id
                x.metadata.filename)
              hash
              modified_at
              (with_document x w))
deliver_known-new x hash modified_at w = elim (Bool-cases x.document_flush_fails) [
  | inl e ↦ inl (rw e refl)
  | inr e ↦ inr (rw e refl)
]
