-- ===== src/Method/Protocol/Binding.antt =====
-- Freezing a protocol binds it to its run.
use polder_research_pipeline.Base.{
  ℕ, String, ◌≡◌, refl, sym, ap, subst, ◌∙◌, false, not, ◌&&◌, some, ◌==◌, eq_iff, inl, inr,
  guarded,
}
use polder_research_pipeline.Base.Result.{ok, ok_injective}
use polder_research_pipeline.Base.Dir.{write}
use polder_research_pipeline.Method.Records.{Run, Protocol, Store, Checks}
use polder_research_pipeline.Method.Reading.{
  content, content_hash, is_text, run_at, protocol_at, frozen_for_run,
}
use polder_research_pipeline.Method.Reading.Reads.{
  is_text-eq, record_at-eq-ok, record_at-write, frozen_for_run-read,
}
use polder_research_pipeline.Method.Protocol.{
  frozen, bound, bind_run, freeze_steps, freeze_protocol,
}
use polder_research_pipeline.Method.Protocol.Steps.{
  freezable-eq-ok, freeze_protocol-eq-ok, id_not_blank, bind_run-eq-ok, freeze_steps-eq-ok,
}

module _ (checks : Checks) where
  -- The run and the protocol pass the check of a frozen protocol, and the digest is of the content
  -- that the protocol had before.
  abbrev pub Bound : String → Protocol → String → Store → Type 0
  Bound protocol_id protocol digest s =
      (run : Run) × (kept : Protocol) × (frozen_for_run checks protocol.run_id false s
        ≡ ok (run, kept))
      × (content kept ≡ content protocol)
      × (content_hash checks kept ≡ digest)
      × (kept.id ≡ protocol_id)

  bind_run-Bound :
      (protocol_id digest : String) (s s' : Store) (run : Run) (protocol : Protocol)
      → protocol_at checks protocol_id s ≡ ok protocol
      → run_at checks protocol.run_id s ≡ ok run
      → run.research_method ≡ some "systematic_evidence_review"
      → protocol.status ≡ "frozen"
      → protocol.content_sha256 ≡ some (content_hash checks protocol)
      → bind_run checks run protocol s ≡ (ok digest, s')
      → Bound protocol_id protocol digest s'
  bind_run-Bound protocol_id digest s s' run protocol found found_run method status hash h =
      let (is_hash, valid, e) = bind_run-eq-ok checks run protocol digest s s' h in
      let (is_id, _, _, id) =
        record_at-eq-ok "prm_" checks.protocol (λ p. p.id) protocol_id s.protocols protocol found in
      let there =
        record_at-write "run_" checks.run (λ r. r.id) protocol.run_id s.runs run
          (bound checks protocol.id digest run) found_run valid refl in
      let both =
        frozen_for_run-read checks protocol.run_id protocol_id digest
          (record s { runs = write run.id (bound checks protocol.id digest run) s.runs })
          (bound checks protocol.id digest run) protocol there method (ap some id)
          (id_not_blank checks protocol_id is_id) found id refl status
          (hash ∙ ap some (sym is_hash)) refl (sym is_hash) in
      (
        bound checks protocol.id digest run,
        protocol,
        subst
            (λ t.
              frozen_for_run checks protocol.run_id false t
              ≡ ok (bound checks protocol.id digest run, protocol))
            (sym e) both,
        refl,
        sym is_hash,
        id,
      )

  freeze_steps-Bound :
      (protocol_id digest : String) (now : ℕ) (s s' : Store) (run : Run) (protocol : Protocol)
      → protocol_at checks protocol_id s ≡ ok protocol
      → run_at checks protocol.run_id s ≡ ok run
      → run.research_method ≡ some "systematic_evidence_review"
      → (protocol.status == "frozen"
          && not (is_text protocol.content_sha256 (content_hash checks protocol)))
        ≡ false
      → freeze_steps checks now (run, protocol) s ≡ (ok digest, s')
      → Bound protocol_id protocol digest s'
  unfolding bind_run
  freeze_steps-Bound protocol_id digest now s s' run protocol found found_run method guard h =
      elim (freeze_steps-eq-ok checks now run protocol digest s s' h) [
        | inl (e, bind) ↦
            bind_run-Bound protocol_id digest s s' run protocol found found_run method e
              (is_text-eq _ _ (guarded _ _ ((eq_iff _ _).1 e) guard)) bind
        | inr (e, valid, bind) ↦
            let there =
              record_at-write "prm_" checks.protocol (λ p. p.id) protocol_id s.protocols protocol
                (frozen checks now protocol) found valid refl in
            bind_run-Bound protocol_id digest
              (record s { protocols = write protocol.id (frozen checks now protocol) s.protocols })
              s' run (frozen checks now protocol) there found_run method refl refl bind
      ]

  -- A protocol that `freeze_protocol` has frozen for a run of the systematic method passes, with
  -- this run, the check that all later operations make; what is frozen is the draft's content, and
  -- the digest returned is its digest.
  pub freeze_protocol-Bound :
      (protocol_id digest : String) (now : ℕ) (s s' : Store) (run : Run) (protocol : Protocol)
      → protocol_at checks protocol_id s ≡ ok protocol
      → run_at checks protocol.run_id s ≡ ok run
      → run.research_method ≡ some "systematic_evidence_review"
      → freeze_protocol checks protocol_id now s ≡ (ok digest, s')
      → Bound protocol_id protocol digest s'
  freeze_protocol-Bound protocol_id digest now s s' run protocol found found_run method h =
      let (pair, free, steps) = freeze_protocol-eq-ok checks protocol_id digest now s s' h in
      let (p, r, draft, guard) = freezable-eq-ok checks protocol_id s pair.0 pair.1 free in
      let same = ok_injective (sym p ∙ found) in
      let same_run = ok_injective (sym r ∙ ap (λ x. run_at checks x.run_id s) same ∙ found_run) in
      freeze_steps-Bound protocol_id digest now s s' run protocol found found_run method
        (subst
          (λ x.
            (x.status == "frozen" && not (is_text x.content_sha256 (content_hash checks x)))
            ≡ false)
          same guard)
        (sym (
            ap (λ x. freeze_steps checks now (x, pair.1) s) same_run
            ∙ ap (λ x. freeze_steps checks now (run, x) s) same)
          ∙ steps)
