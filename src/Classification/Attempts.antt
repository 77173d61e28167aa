-- ===== src/Classification/Attempts.antt =====
-- `classify_text` and `_classify_text_unlocked`: one stored attempt per call, unless a settled one is there. A provider's
-- reply, with known keys only, is an argument; `none` is a call that raises or a reply that is refused.
use polder_research_pipeline.Base.{
  ℕ, ◌+◌, String, ◌<>◌, Bool, true, false, not, ◌&&◌, ◌||◌, Option, none, some, List, [], ◌∷◌, ◌==◌,
  ltb, if◌then◌else◌, any, all, first, select, map, ◌≡◌, arith, if-elim, inl, inr,
}
use polder_research_pipeline.Base.Result.{Result, ok, raise, refuse, ◌>>=◌, ◌>>◌, after}
use polder_research_pipeline.Base.Exec.{Exec}
use polder_research_pipeline.Base.Dir.{Dir, write_atomic, contents}
use polder_research_pipeline.Base.Time.{Stamp, at}
use polder_research_pipeline.Classification.Records.{
  ClassError, unknown_provider, invalid, no_reply, precomputed, Scores, Taxonomy, Labels, Config,
  Value, text, null, flag, FieldDecision, Answer, Subject, Classification,
}
use polder_research_pipeline.Classification.Provider.{
  admitted, chosen, asks_nothing, check_questions, check_dimensions, value_at,
}
use polder_research_pipeline.Classification.Answers.{field_decisions, tag_decisions}
pub mod Settled
pub mod Reviewed

abbrev pub Reply : Type 0 → Type 0
Reply S = Option (List (String × Answer S))

-- the category of a decision, where it has one
abbrev pub text_of : Value → Option String
text_of (text t) = some t
text_of null = none
text_of (flag b) = none

module _ {S : Type 0} where
  abbrev pub has_status : String → String × FieldDecision S → Bool
  has_status status field = field.1.status == status

  -- A model's decision is only a proposal.
  abbrev pub as_proposal : String × FieldDecision S → String × FieldDecision S
  as_proposal field = (field.0, record field.1 { status = "review_required" })

  unfoldable pub submitted :
      String → List (String × FieldDecision S) → List (String × FieldDecision S)
  submitted provider fields = if provider == "rules" then fields else map as_proposal fields

  abbrev pub disposition_of : List (String × FieldDecision S) → String
  disposition_of fields =
      if any (has_status "review_required") fields then "review_required" else "accepted"

  abbrev pub accepted_category : List (String × FieldDecision S) → Option String
  accepted_category fields = elim (value_at "category" fields) [
    | none ↦ none
    | some decision ↦ if decision.status == "accepted" then text_of decision.value else none
  ]

  -- the tags that were accepted
  unfoldable pub accepted_tags : List (String × FieldDecision S) → List String → List String
  accepted_tags fields [] = []
  accepted_tags fields (tag ∷ tags) =
      let rest = accepted_tags fields tags in
      elim (value_at ("tag_" <> tag) fields) [
        | none ↦ rest
        | some decision ↦ if decision.status == "accepted" then tag ∷ rest else rest
      ]

  abbrev pub is_settled : Classification S → Bool
  is_settled rec = rec.disposition == "accepted" || rec.disposition == "review_required"

  abbrev pub of_key : String → Classification S → Bool
  of_key key rec = rec.record_key == key

  -- the first settled attempt at the same request
  abbrev pub settled : String → Dir (Classification S) → Option (Classification S)
  settled key d = first (λ rec. of_key key rec && is_settled rec) (contents d)

  abbrev pub attempt_of : Classification S → ℕ
  attempt_of rec = elim rec.attempt [ none ↦ 1 | some n ↦ n ]

  -- `max(..., key=attempt)`: the first of the highest
  unfoldable pub later : Classification S → List (Classification S) → Classification S
  later rec [] = rec
  later rec (r ∷ rs) = later (if ltb (attempt_of rec) (attempt_of r) then r else rec) rs

  unfoldable pub previous : List (Classification S) → Option (Classification S)
  unfolding later
  previous [] = none
  previous (r ∷ rs) = some (later r rs)

  abbrev pub next_attempt : Option (Classification S) → ℕ
  next_attempt none = 1
  next_attempt (some rec) = attempt_of rec + 1

  abbrev pub id_of : Option (Classification S) → Option String
  id_of none = none
  id_of (some rec) = some rec.id

  -- the write of the new attempt
  unfoldable pub stored :
      Classification S
      → Dir (Classification S)
      → Option (Dir (Classification S))
      → Result ClassError (Option (Classification S)) × Dir (Classification S)
  stored rec d none = (raise invalid, d)
  stored rec d (some files) = (ok (some rec), files)

-- What a call takes from outside: the scores, the configuration, the digest of the taxonomy, the
-- fingerprint of a request (the configuration is in it too), and the verdict of the schema.
pub record Setup (S : Type 0) : Type 0 where
  pub scores : Scores S
  pub config : Config S
  pub taxonomy_sha256 : String
  pub fingerprint : Subject → Option Labels → String → String
  pub valid : Classification S → Bool

module _ {S : Type 0} (setup : Setup S) where
  -- the provider to ask, or nothing to do
  unfoldable pub request_unlocked :
      Option String → Subject → Option Labels → Bool → Result ClassError (Option String)
  request_unlocked given subject labels flagged = if not setup.config.enabled then ok none else (do
    selected ← admitted setup.config given subject.target_kind labels flagged
    (if asks_nothing setup.config.taxonomy
        then ok none
        else (do check_questions setup.scores setup.config; ok (some selected))))

  -- What `classify_text` needs for the name of its lock: `_requested_model` looks the provider up
  -- among three (a KeyError for another), and `_question_hash` asks `_questions`.
  unfoldable pub lock_key : Option String → Subject → Option Labels → Result ClassError Unit
  lock_key given subject labels = do
    selected ← chosen setup.config given subject.target_kind labels
    refuse (not (selected == "rules") && not (selected == "jev") && not (selected == "laya"))
        unknown_provider
    check_dimensions setup.config.taxonomy

  -- the same with the lock, which is waited for
  unfoldable pub request :
      Option String → Subject → Option Labels → Bool → Result ClassError (Option String)
  request given subject labels flagged =
      if not setup.config.enabled
      then ok none
      else (do lock_key given subject labels; request_unlocked given subject labels flagged)

  -- What is asked under the lock, where `request` asks a provider.
  pub request-request_unlocked :
      (given : Option String) (subject : Subject) (labels : Option Labels) (flagged : Bool)
      (provider : String)
      → request given subject labels flagged ≡ ok (some provider)
      → request_unlocked given subject labels flagged ≡ ok (some provider)
  unfolding request
  request-request_unlocked given subject labels flagged provider h =
      elim (if-elim (not setup.config.enabled) _ _ h) [
        | inl (_, e) ↦ absurd (ground (arith, e))
        | inr (_, rest) ↦ after (lock_key given subject labels) _ rest λ _ _ asked. asked
      ]

  -- the reply that is read: one made before is of Laya only
  unfoldable pub replied :
      (String → Reply S) → Reply S → String → Result ClassError (List (String × Answer S))
  replied predict (some answers) provider =
      if provider == "laya" then ok answers else raise precomputed
  replied predict none provider = elim (predict provider) [
    | none ↦ raise no_reply
    | some answers ↦ ok answers
  ]

  unfoldable pub decided :
      (String → Reply S) → Reply S → String → Result ClassError (List (String × FieldDecision S))
  decided predict given provider = do
    answers ← replied predict given provider
    field_decisions setup.scores answers setup.config.threshold setup.config.taxonomy

  -- the record of an attempt: of its decisions, or failed
  unfoldable pub attempt_record :
      String
      → ℕ
      → String
      → Subject
      → String
      → Option (Classification S)
      → Result ClassError (List (String × FieldDecision S))
      → Classification S
  unfolding accepted_tags
  attempt_record id now key subject provider prior (ok fields) = record {
    id = id;
    record_key = key;
    attempt = some (next_attempt prior);
    retry_of = id_of prior;
    subject = subject;
    taxonomy = setup.config.taxonomy;
    taxonomy_sha256 = setup.taxonomy_sha256;
    provider = provider;
    category = accepted_category fields;
    proposed_tags = accepted_tags fields setup.config.taxonomy.tags;
    field_decisions = submitted provider fields;
    threshold = setup.config.threshold;
    disposition = disposition_of (submitted provider fields);
    error = none;
    created_at = at now;
  }
  attempt_record id now key subject provider prior (raise e) = record {
    id = id;
    record_key = key;
    attempt = some (next_attempt prior);
    retry_of = id_of prior;
    subject = subject;
    taxonomy = setup.config.taxonomy;
    taxonomy_sha256 = setup.taxonomy_sha256;
    provider = provider;
    category = none;
    proposed_tags = [];
    field_decisions = [];
    threshold = setup.config.threshold;
    disposition = "failed";
    error = some e;
    created_at = at now;
  }

  -- a settled attempt at the same request, or a new one
  unfoldable pub kept_or_new :
      String
      → ℕ
      → Subject
      → String
      → String
      → Result ClassError (List (String × FieldDecision S))
      → Option (Classification S)
      → Exec ClassError (Dir (Classification S)) (Option (Classification S))
  kept_or_new id now subject provider key fields (some old) d = (ok (some old), d)
  kept_or_new id now subject provider key fields none d =
      let rec =
        attempt_record id now key subject provider (previous (select (of_key key) (contents d)))
          fields in
      stored rec d (write_atomic setup.valid id rec d)

  unfoldable pub attempted :
      String
      → ℕ
      → Subject
      → String
      → String
      → Result ClassError (List (String × FieldDecision S))
      → Exec ClassError (Dir (Classification S)) (Option (Classification S))
  attempted id now subject provider key fields d =
      kept_or_new id now subject provider key fields (settled key d) d

  unfoldable pub proceed :
      String
      → ℕ
      → (String → Reply S)
      → Reply S
      → Subject
      → Option Labels
      → Result ClassError (Option String)
      → Exec ClassError (Dir (Classification S)) (Option (Classification S))
  proceed id now predict made subject labels (raise e) d = (raise e, d)
  proceed id now predict made subject labels (ok none) d = (ok none, d)
  proceed id now predict made subject labels (ok (some provider)) d =
      attempted id now subject provider (setup.fingerprint subject labels provider)
        (decided predict made provider) d

  -- `id` is the new uuid, `flagged` what the preflight finds, `given` a provider that the caller
  -- names, and `made` the answers of a provider that was asked before.
  unfoldable pub classify_text :
      String
      → ℕ
      → (String → Reply S)
      → Reply S
      → Option String
      → Subject
      → Option Labels
      → Bool
      → Exec ClassError (Dir (Classification S)) (Option (Classification S))
  classify_text id now predict made given subject labels flagged d =
      proceed id now predict made subject labels (request given subject labels flagged) d
