-- ===== src/Audit/Checkpoints.antt =====
-- Signed checkpoints: `create_checkpoint` and `verify_checkpoint`.
use cau_sium.Prelude.{
  ℕ, suc, ◌≡◌, refl, ap, true, false, none, some, Option, List, [], ◌∷◌, length, select, arith,
  find_row-append, str_eq_refl, ok, err, value_error, ==_refl, ◌∙◌,
}
use cau_sium.Audit.{
  new_checkpoint, insert_checkpoint, AuditEvent, AuditStore, Checkpoint, Runtime, Stamp, of_org,
  latest_hash, latest_for_org, chain_of, verify_chain, create_checkpoint, get_checkpoint,
  verify_checkpoint, insert_event, order_by_created, is_checkpoint, genesis_hash, sign_snapshot,
}
use cau_sium.Audit.Links.{verify_from_complete, verify_chain_iff}

length-insert_event :
    (e : AuditEvent) (xs : List AuditEvent) → length (insert_event e xs) ≡ suc (length xs)
unfolding insert_event
length-insert_event e [] = refl
length-insert_event e (x ∷ xs) = ground (arith, length-insert_event e xs)

length-order_by_created : (xs : List AuditEvent) → length (order_by_created xs) ≡ length xs
unfolding order_by_created
length-order_by_created [] = refl
length-order_by_created (x ∷ xs) =
    length-insert_event x (order_by_created xs) ∙ ap suc (length-order_by_created xs)

module _ (R : Runtime) (db : AuditStore) (stamp : Stamp) (org_id : ℕ)
    (generated_by : Option ℕ) where
  -- A valid chain counts as many events as the table has rows of the organisation.
  verify_chain-counts :
      (verify_chain R org_id db).is_valid ≡ true
      → (verify_chain R org_id db).checked_events ≡ length (select (of_org org_id) db.events)
  unfolding verify_chain chain_of
  verify_chain-counts valid =
      (verify_from_complete R genesis_hash 0 (chain_of org_id db)
        ((verify_chain_iff R org_id db).0 valid)).1
      ∙ omega (arith, length-order_by_created (select (of_org org_id) db.events))

  -- `create_checkpoint` raises exactly when the chain does not verify.
  pub create_checkpoint_refuses :
      (verify_chain R org_id db).is_valid ≡ false
      → create_checkpoint R db stamp org_id generated_by
        ≡ err (value_error "Cannot checkpoint invalid audit chain")
  unfolding create_checkpoint
  create_checkpoint_refuses broken = rw broken

  inserted_is_found :
      get_checkpoint db org_id stamp.id ≡ none
      → get_checkpoint
          (insert_checkpoint (new_checkpoint R db stamp org_id generated_by) db)
          org_id
          stamp.id
        ≡ some (new_checkpoint R db stamp org_id generated_by)
  unfolding get_checkpoint new_checkpoint
  inserted_is_found fresh =
      find_row-append (is_checkpoint org_id stamp.id) db.checkpoints
        (new_checkpoint R db stamp org_id generated_by) fresh
      ∙ rw (==_refl org_id, ==_refl stamp.id)

  -- Inserting a checkpoint touches no event.
  chain_unchanged :
      (c : Checkpoint) → verify_chain R org_id (insert_checkpoint c db) ≡ verify_chain R org_id db
  unfolding verify_chain chain_of
  chain_unchanged c = refl

  -- Where the chain verifies and the new id is unused, `create_checkpoint` succeeds, and
  -- `verify_checkpoint` then finds the checkpoint with a valid signature, a valid chain, the number
  -- of events that `verify_chain` checks and the hash of the latest event.
  pub checkpoint_verifies :
      (verify_chain R org_id db).is_valid ≡ true
      → get_checkpoint db org_id stamp.id ≡ none
      → let c = new_checkpoint R db stamp org_id generated_by in
        let after = insert_checkpoint c db in
        (create_checkpoint R db stamp org_id generated_by ≡ ok (after, c))
        × (verify_checkpoint R after org_id stamp.id
            ≡ ok (record {
              checkpoint_id = stamp.id;
              is_signature_valid = true;
              is_chain_valid = true;
              checked_events = (verify_chain R org_id db).checked_events;
              latest_event_hash = latest_hash (latest_for_org org_id db);
              checkpoint_created_at = stamp.now;
            }))
  unfolding create_checkpoint verify_checkpoint new_checkpoint sign_snapshot
  checkpoint_verifies valid fresh = (
    rw valid,
    rw (inserted_is_found fresh, verify_checkpoint)
        (rw chain_unchanged (rw (valid, verify_chain-counts valid, str_eq_refl))),
  )
