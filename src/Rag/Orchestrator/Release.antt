-- ===== src/Rag/Orchestrator/Release.antt =====
-- The reservation of a query is released on every path through the orchestrator.
use sentinal_rag.Rag.Orchestrator.CleanStages.{
  Clean, IsReleased, Ends, and_then-Ends, record_audit-IsNeutral, session_close-IsNeutral,
  release-IsReleased, answer-Preserves, session_open-Preserves,
}
use sentinal_rag.Rag.Orchestrator.Keeps.{
  IsNeutral, Preserves, and_then-Preserves, and_then-went, and_then-raised, neutral-Preserves,
}
use sentinal_rag.Rag.Orchestrator.{
  Error, completed, abstained, failed, query_executed, query_failed, Inputs, Run, Stage, and_then,
  Stages, session_open, session_close, record_audit, answer, release_reservation_if_any,
  finalize_success, pipeline, after_failure, run,
}
use sentinal_rag.Base.{
  if◌then◌else◌, Option-cases, is_nil, ◌≡◌, sym, subst, inl, inr, true, Option, none, some,
}
use sentinal_rag.Redis.{Redis}
use sentinal_rag.Base.Text.{Text, text_eq}
use sentinal_rag.Budget.Reservation.{Stored, reservation_key}

module _ (client : Redis Stored) where
  module _ (inputs : Inputs) (stages : Stages client) where
    module _ (on : inputs.has_reservations ≡ true)
        (deletes : (k : Text) (s : client.Store) → (client.delete k s).0 ≡ some tt) where
      finalize_success-Ends : (Ends client inputs stages) (finalize_success client inputs stages)
      unfolding finalize_success
      finalize_success-Ends r h =
          let close =
            session_close client inputs stages
              (if is_nil r.reranked then abstained else completed) in
          let audited = record_audit client inputs stages query_executed in
          let end : Stage client = λ t. (none, release_reservation_if_any client inputs stages t) in
          and_then-Ends client inputs stages close (and_then client audited end)
            (neutral-Preserves client inputs.tenant_id close (
              session_close-IsNeutral client inputs stages
                (if is_nil r.reranked then abstained else completed)))
            (and_then-Ends client inputs stages audited end
              (neutral-Preserves client inputs.tenant_id audited
                (record_audit-IsNeutral client inputs stages query_executed))
              (λ t clean went. release-IsReleased client inputs stages on deletes t clean))
            r h

      module _ (retrieval : IsNeutral client stages.retrieval)
          (rerank : IsNeutral client stages.rerank) (context : IsNeutral client stages.context)
          (prompt : IsNeutral client stages.prompt)
          (generation : IsNeutral client stages.generation)
          (grounding : IsNeutral client stages.grounding)
          (persistence : IsNeutral client stages.persistence) where
        abbrev keeps :
            (f : Stage client)
            → IsNeutral client f
            → Preserves client (Clean client inputs stages) f
        keeps = neutral-Preserves client inputs.tenant_id

        finalize_success-Preserves :
            Preserves client (Clean client inputs stages) (finalize_success client inputs stages)
        unfolding finalize_success
        finalize_success-Preserves r h =
            let status = if is_nil r.reranked then abstained else completed in
            let audited = record_audit client inputs stages query_executed in
            let end : Stage client =
              λ t. (none, release_reservation_if_any client inputs stages t) in
            and_then-Preserves client (Clean client inputs stages)
              (session_close client inputs stages status) (and_then client audited end)
              (keeps (session_close client inputs stages status)
                (session_close-IsNeutral client inputs stages status))
              (and_then-Preserves client (Clean client inputs stages) audited end
                (keeps audited (record_audit-IsNeutral client inputs stages query_executed))
                (λ t clean id opened noted.
                  release-IsReleased client inputs stages on deletes t clean id opened))
              r h

        -- Stages that keep a query clean, and then a last one.
        then_last :
            (f g : Stage client)
            → Preserves client (Clean client inputs stages) f
            → Preserves client (Clean client inputs stages) g × (Ends client inputs stages) g
            → Preserves client (Clean client inputs stages) (and_then client f g)
              × (Ends client inputs stages) (and_then client f g)
        then_last f g pf h = (
          and_then-Preserves client (Clean client inputs stages) f g pf h.0,
          and_then-Ends client inputs stages f g pf h.1,
        )

        abbrev after_open : Stage client
        after_open = and_then client stages.retrieval (
            and_then client stages.rerank (
              and_then client stages.context (
                and_then client stages.prompt (
                  and_then client (answer client inputs stages) (
                    and_then client stages.grounding (
                      and_then client stages.persistence
                        (finalize_success client inputs stages)))))))

        after_open-Ends :
            Preserves client (Clean client inputs stages) after_open
            × (Ends client inputs stages) after_open
        after_open-Ends = then_last stages.retrieval _ (keeps stages.retrieval retrieval) (
            then_last stages.rerank _ (keeps stages.rerank rerank) (
              then_last stages.context _ (keeps stages.context context) (
                then_last stages.prompt _ (keeps stages.prompt prompt) (
                  then_last (answer client inputs stages) _
                    (answer-Preserves client inputs stages on deletes generation)
                    (then_last stages.grounding _ (keeps stages.grounding grounding) (
                      then_last stages.persistence _ (keeps stages.persistence persistence)
                        (finalize_success-Preserves, finalize_success-Ends)))))))

        after_failure-IsReleased :
            (r : Run client)
            → (Clean client inputs stages) r
            → IsReleased client inputs stages (after_failure client inputs stages r)
        unfolding after_failure
        after_failure-IsReleased r h =
            let closed = (session_close client inputs stages failed r).1 in
            release-IsReleased client inputs stages on deletes
              (record_audit client inputs stages query_failed closed).1
              (keeps (record_audit client inputs stages query_failed)
                (record_audit-IsNeutral client inputs stages query_failed) closed
                (keeps (session_close client inputs stages failed)
                  (session_close-IsNeutral client inputs stages failed) r h))

        pipeline-Ends :
            (r : Run client)
            → r.query_session_id ≡ none
            → client.held r.store (reservation_key inputs.tenant_id stages.new_session_id) ≡ none
            → (Clean client inputs stages) (pipeline client inputs stages r).1
              × ((pipeline client inputs stages r).0 ≡ none
                  → IsReleased client inputs stages (pipeline client inputs stages r).1)
        unfolding pipeline
        pipeline-Ends r closed fresh =
            let opened = session_open client inputs stages r in
            let clean = session_open-Preserves client inputs stages on deletes r closed fresh in
            let Good = λ (p : Option Error × Run client).
              (Clean client inputs stages) p.1
              × (p.0 ≡ none → IsReleased client inputs stages p.1) in
            elim (Option-cases opened.0) [
              | inr (e, raised) ↦
                  subst Good
                    (sym (
                      and_then-raised client (session_open client inputs stages) after_open r e
                        raised))
                    (clean, λ went. cc went)
              | inl fine ↦
                  subst Good
                    (sym
                      (and_then-went client (session_open client inputs stages) after_open r fine))
                    (after_open-Ends.0 opened.1 clean, after_open-Ends.1 opened.1 clean)
            ]

        run-ends :
            (r : Run client)
            → r.query_session_id ≡ none
            → client.held r.store (reservation_key inputs.tenant_id stages.new_session_id) ≡ none
            → IsReleased client inputs stages (run client inputs stages r).1
        unfolding run
        run-ends r closed fresh =
            let h = pipeline-Ends r closed fresh in
            elim (Option-cases (pipeline client inputs stages r).0) [
              | inl done ↦ rw (run, done) (h.1 done)
              | inr (e, raised) ↦
                  rw (run, raised)
                    (after_failure-IsReleased (pipeline client inputs stages r).1 h.0)
            ]

        -- With reservations on and DEL not raising, a run that starts with no session leaves
        -- nothing reserved under its session's id, whether it returns an answer or raises at any
        -- stage: on condition that the session's id is new to the store and that the stages other
        -- than session, budget and the final ones leave session, reservation and store alone.
        pub run-releases :
            (r : Run client) (sid : Text)
            → r.query_session_id ≡ none
            → client.held r.store (reservation_key inputs.tenant_id stages.new_session_id) ≡ none
            → (run client inputs stages r).1.query_session_id ≡ some sid
            → client.held
                (run client inputs stages r).1.store
                (reservation_key inputs.tenant_id sid)
              ≡ none
        run-releases r sid closed fresh opened = run-ends r closed fresh sid opened
