-- ===== src/Method/Protocol/Steps.antt =====
-- What the steps of `freeze_protocol` have done when they succeed.
use polder_research_pipeline.Base.{
  ℕ, String, ◌≡◌, refl, sym, ap, subst, ◌∙◌, true, false, not, ◌&&◌, ◌==◌, is_record_id, arith,
  eq_iff, inl, inr, ◌⊎◌, if-elim, Bool-cases,
}
use polder_research_pipeline.Base.Result.{ok, raise, Result-cases, after, refuse-then, refuse-ok}
use polder_research_pipeline.Base.Exec.{after_step}
use polder_research_pipeline.Base.Dir.{write, write_atomic-elim}
use polder_research_pipeline.Method.Records.{
  not_draft, protocol_modified, Run, Protocol, Store, Checks,
}
use polder_research_pipeline.Method.Reading.{content_hash, is_text, run_at, protocol_at}
use polder_research_pipeline.Method.Protocol.{
  stored_protocols, stored_runs, check_draft, store_protocol, store_run, frozen, freezable, bound,
  bind_run, freeze_steps, freeze_protocol,
}

module _ (checks : Checks) where
  check_draft-eq-ok :
      (r run : Run) (p protocol : Protocol)
      → check_draft checks r p ≡ ok (run, protocol)
      → (r.run_status ≡ "draft")
        × ((p.status == "frozen" && not (is_text p.content_sha256 (content_hash checks p))) ≡ false)
        × (r ≡ run)
        × (p ≡ protocol)
  unfolding check_draft
  check_draft-eq-ok r run p protocol h =
      let (draft_run, h2) = refuse-then (not (r.run_status == "draft")) not_draft _ h in
      let (kept, same) = refuse-ok _ protocol_modified (r, p) h2 in
      (
        (eq_iff _ _).0 (ground (arith, draft_run)),
        kept,
        ap (λ (x : Run × Protocol). x.0) same,
        ap (λ (x : Run × Protocol). x.1) same,
      )

  pub freezable-eq-ok :
      (protocol_id : String) (s : Store) (run : Run) (protocol : Protocol)
      → freezable checks protocol_id s ≡ ok (run, protocol)
      → (protocol_at checks protocol_id s ≡ ok protocol)
        × (run_at checks protocol.run_id s ≡ ok run)
        × (run.run_status ≡ "draft")
        × ((protocol.status == "frozen"
              && not (is_text protocol.content_sha256 (content_hash checks protocol)))
            ≡ false)
  unfolding freezable
  freezable-eq-ok protocol_id s run protocol h =
      after (protocol_at checks protocol_id s) _ h λ p found h2.
        after (run_at checks p.run_id s) _ h2 λ r found_run h3.
          let (a, b, same_run, same) = check_draft-eq-ok r run p protocol h3 in
          (cc, cc, cc, rw (sym same) b)

  pub freeze_protocol-eq-ok :
      (protocol_id digest : String) (now : ℕ) (s s' : Store)
      → freeze_protocol checks protocol_id now s ≡ (ok digest, s')
      → (found : Run × Protocol) × (freezable checks protocol_id s ≡ ok found)
        × (freeze_steps checks now found s ≡ (ok digest, s'))
  unfolding freeze_protocol
  freeze_protocol-eq-ok protocol_id digest now s s' h =
      elim (Result-cases (freezable checks protocol_id s)) [
        | inl (found, e) ↦ (
          found,
          e,
          sym (ap (λ x. elim x [ raise e ↦ (raise e, s) | ok f ↦ freeze_steps checks now f s ]) e)
              ∙ h,
        )
        | inr (e, failed) ↦ absurd (ground arith)
      ]

  pub store_protocol-eq-ok :
      (rec : Protocol) (s s' : Store)
      → store_protocol checks rec s ≡ (ok tt, s')
      → (checks.protocol rec ≡ true) × (s' ≡ record s { protocols = write rec.id rec s.protocols })
  unfolding store_protocol stored_protocols
  store_protocol-eq-ok rec s s' h =
      elim (write_atomic-elim checks.protocol rec.id rec s.protocols (stored_protocols s) h) [
        | inl (e, wrote) ↦ (e, ap (λ x. x.1) (sym wrote))
        | inr (e, wrote) ↦ absurd (ground arith)
      ]

  store_run-eq-ok :
      (rec : Run) (s s' : Store)
      → store_run checks rec s ≡ (ok tt, s')
      → (checks.run rec ≡ true) × (s' ≡ record s { runs = write rec.id rec s.runs })
  unfolding store_run stored_runs
  store_run-eq-ok rec s s' h =
      elim (write_atomic-elim checks.run rec.id rec s.runs (stored_runs s) h) [
        | inl (e, wrote) ↦ (e, ap (λ x. x.1) (sym wrote))
        | inr (e, wrote) ↦ absurd (ground arith)
      ]

  pub id_not_blank : (id : String) → is_record_id "prm_" id ≡ true → (id == "") ≡ false
  unfolding is_record_id
  id_not_blank id h = elim (Bool-cases (id == "")) [
    | inl e ↦
        let blank : is_record_id "prm_" "" ≡ false = refl in
        absurd (ground (arith, ap (is_record_id "prm_") ((eq_iff id "").0 e)))
    | inr e ↦ e
  ]

  pub bind_run-eq-ok :
      (run : Run) (protocol : Protocol) (digest : String) (s s' : Store)
      → bind_run checks run protocol s ≡ (ok digest, s')
      → (digest ≡ content_hash checks protocol)
        × (checks.run (bound checks protocol.id digest run) ≡ true)
        × (s' ≡ record s { runs = write run.id (bound checks protocol.id digest run) s.runs })
  unfolding bind_run
  bind_run-eq-ok run protocol digest s s' h =
      after_step (store_run checks (bound checks protocol.id (content_hash checks protocol) run) s)
        _ h
        λ u t wrote rest.
          let (valid, e) = store_run-eq-ok _ s t wrote in
          let same : content_hash checks protocol ≡ digest = ground (arith, ap (λ x. x.0) rest) in
          (
            sym same,
            subst (λ d. checks.run (bound checks protocol.id d run) ≡ true) same valid,
            sym (ap (λ x. x.1) rest)
                ∙ e
                ∙ ap (λ d. record s { runs = write run.id (bound checks protocol.id d run) s.runs })
                    same,
          )

  pub freeze_steps-eq-ok :
      (now : ℕ) (run : Run) (protocol : Protocol) (digest : String) (s s' : Store)
      → freeze_steps checks now (run, protocol) s ≡ (ok digest, s')
      → ((protocol.status ≡ "frozen") × (bind_run checks run protocol s ≡ (ok digest, s')))
        ⊎ ((protocol.status == "frozen") ≡ false)
          × (checks.protocol (frozen checks now protocol) ≡ true)
          × (bind_run checks run protocol (record s {
            protocols = write protocol.id (frozen checks now protocol) s.protocols;
          })
              ≡ (ok digest, s'))
  unfolding freeze_steps
  freeze_steps-eq-ok now run protocol digest s s' h =
      elim (if-elim (protocol.status == "frozen") _ _ h) [
        | inl (e, bind) ↦ inl ((eq_iff _ _).0 e, bind)
        | inr (e, steps) ↦ inr (
            after_step (store_protocol checks (frozen checks now protocol) s) _ steps
              λ u t wrote bind.
                let (valid, same) = store_protocol-eq-ok _ s t wrote in
                (e, valid, sym (ap (bind_run checks run protocol) same) ∙ bind))
      ]
