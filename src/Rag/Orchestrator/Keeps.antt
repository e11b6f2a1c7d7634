-- ===== src/Rag/Orchestrator/Keeps.antt =====
-- What a stage of the orchestrator keeps: reading the reservations changes none, and a sequence of
-- stages keeps what each keeps.
use sentinal_rag.Budget.Decision.{BudgetDecision, Enforced, proceed}
use sentinal_rag.Rag.Orchestrator.{Error, Run, Stage, and_then}
use sentinal_rag.Base.{
  Option-cases, ℕ, zero, suc, String, ◌≡◌, refl, sym, ◌∙◌, ◌⊎◌, inl, inr, Bool, true, false, Option,
  none, some, List, [], ◌∷◌, arith,
}
use sentinal_rag.Redis.{Redis}
use sentinal_rag.Base.Text.{Text, text_eq}
use sentinal_rag.Budget.Reservation.{
  Stored, reservation_key, tenant_prefix, add_values, fetch, scan_loop, total_reserved,
}

module _ (client : Redis Stored) where
  fetch-keeps :
      (ks : List Text) (j : Text) (s : client.Store)
      → client.held (fetch client ks s).1 j ≡ client.held s j
  unfolding fetch
  fetch-keeps [] j s = refl
  fetch-keeps (k ∷ ks) j s = client.mget_keeps (k ∷ ks) j s

  scan_loop-keeps :
      (fuel : ℕ) (pattern : Text) (cursor total : ℕ) (j : Text) (s : client.Store)
      → client.held (scan_loop client fuel pattern cursor total s).1 j ≡ client.held s j
  unfolding scan_loop
  scan_loop-keeps zero pattern cursor total j s = refl
  scan_loop-keeps (suc fuel) pattern cursor total j s =
      let page = client.scan cursor pattern s in
      elim (Option-cases page.0) [
        | inl raised ↦ rw (scan_loop, raised) (client.scan_keeps cursor pattern j s)
        | inr ((next, keys), ok) ↦
            let values = fetch client keys page.1 in
            elim (Option-cases values.0) [
              | inl raised ↦
                  rw (scan_loop, ok, raised)
                    (fetch-keeps keys j page.1 ∙ client.scan_keeps cursor pattern j s)
              | inr (vs, read) ↦
                  rw (scan_loop, ok, read)
                    (ground (
                      arith,
                      fetch-keeps keys j page.1,
                      client.scan_keeps cursor pattern j s,
                      scan_loop-keeps fuel pattern next (add_values total vs) j values.1,
                    ))
            ]
      ]

  pub total_reserved-keeps :
      (connected : Bool) (fuel : ℕ) (tenant j : Text) (s : client.Store)
      → client.held (total_reserved client connected fuel tenant s).1 j ≡ client.held s j
  unfolding total_reserved
  total_reserved-keeps false fuel tenant j s = refl
  total_reserved-keeps true fuel tenant j s = scan_loop-keeps fuel (tenant_prefix tenant) 0 0 j s

  -- A query that has no reservation noted holds none.
  abbrev pub IsClean : Text → Run client → Type 0
  IsClean tenant r =
      (sid : Text)
      → r.query_session_id ≡ some sid
      → r.reservation_amount ≡ none
      → client.held r.store (reservation_key tenant sid) ≡ none

  -- A stage leaves the session's id, the noted reservation and the stored ones as they are.
  abbrev pub IsNeutral : Stage client → Type 0
  IsNeutral f =
      (r : Run client)
      → ((f r).1.query_session_id ≡ r.query_session_id)
        × ((f r).1.reservation_amount ≡ r.reservation_amount)
        × ((j : Text) → client.held (f r).1.store j ≡ client.held r.store j)

  abbrev pub Preserves : (Run client → Type 0) → Stage client → Type 0
  Preserves P f = (r : Run client) → P r → P (f r).1

  module _ (P : Run client → Type 0) where
    pub and_then-Preserves :
        (f g : Stage client) → Preserves P f → Preserves P g → Preserves P (and_then client f g)
    unfolding and_then
    and_then-Preserves f g pf pg r h = elim (Option-cases (f r).0) [
      | inl went ↦ rw (and_then, went) (pg (f r).1 (pf r h))
      | inr (e, raised) ↦ rw (and_then, raised) (pf r h)
    ]

  pub and_then-went :
      (f g : Stage client) (r : Run client) → (f r).0 ≡ none → and_then client f g r ≡ g (f r).1
  unfolding and_then
  and_then-went f g r went = rw (and_then, went) refl

  pub and_then-raised :
      (f g : Stage client) (r : Run client) (e : Error)
      → (f r).0 ≡ some e
      → and_then client f g r ≡ (some e, (f r).1)
  unfolding and_then
  and_then-raised f g r e raised = rw (and_then, raised) refl

  pub neutral-Preserves :
      (tenant : Text) (f : Stage client) → IsNeutral f → Preserves (IsClean tenant) f
  neutral-Preserves tenant f n r h sid open_ noted =
      (n r).2 (reservation_key tenant sid) ∙ h sid (sym (n r).0 ∙ open_) (sym (n r).1 ∙ noted)

  pub Enforced-cases :
      (e : Enforced)
      → ((d : BudgetDecision) × (e ≡ Enforced.budget_exceeded d))
        ⊎ ((target : Option String) × (e ≡ proceed target))
  Enforced-cases (Enforced.budget_exceeded d) = inl (d, refl)
  Enforced-cases (proceed target) = inr (target, refl)
