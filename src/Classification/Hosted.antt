-- ===== src/Classification/Hosted.antt =====
-- When `classify_text` asks the hosted provider about evidence: the labels of
-- `_classification_policy_metadata` of evidence/__init__.py and the checks of classification/__init__.py.
use polder_research_pipeline.Base.{
  some_injective, ℕ, String, ◌≡◌, refl, sym, ◌∙◌, ap, subst, Bool, true, false, not, ◌&&◌, Option,
  none, some, inl, inr, List, [], ◌∷◌, ◌==◌, ltb, any, all, arith, eq_iff, if-elim, if-true,
  not-false, Bool-cases, if◌then◌else◌,
}
use polder_research_pipeline.Base.Sets.{All}
use polder_research_pipeline.Base.Result.{Result, ok, raise, after, passed, ok_injective}
use polder_research_pipeline.Base.Dir.{Dir}
use polder_research_pipeline.Evidence.Records.{Source}
use polder_research_pipeline.Evidence.Enrich.{
  rank, label_of, highest, strictest, policy_metadata, is_nonempty,
}
use polder_research_pipeline.Classification.Records.{
  ClassError, approval_required, sensitive_data, preflight_blocked, bad_provider, no_reply, Labels,
  Config, Subject, Classification,
}
use polder_research_pipeline.Classification.Provider.{
  is_sensitive, is_allowed, labels_of, chosen, check_remote, admitted, asks_nothing,
  check_questions,
}
use polder_research_pipeline.Classification.Attempts.{
  Reply, Setup, request, request_unlocked, request-request_unlocked, replied, decided, proceed,
  classify_text,
}

both-left : (a b : Bool) → (a && b) ≡ true → a ≡ true
both-left a b h = ground (arith, h)

both-right : (a b : Bool) → (a && b) ≡ true → b ≡ true
both-right a b h = ground (arith, h)

rank-public : (label : String) → ltb 0 (rank label) ≡ false → label ≡ "public"
rank-public label h = ground (arith, eq_iff label "public")

highest-public :
    (label : String) (sources : List Source)
    → highest label sources ≡ "public"
    → (label ≡ "public") × All (λ s. label_of s ≡ "public") sources
unfolding highest
highest-public label [] h = (h, tt)
highest-public label (s ∷ rest) h =
    let (chosen, others) =
      highest-public (if ltb (rank label) (rank (label_of s)) then label_of s else label) rest h in
    elim (if-elim (ltb (rank label) (rank (label_of s))) (label_of s) label chosen) [
      | inl (above, public) ↦ absurd (not_above label (label_of s) public above)
      | inr (below, public) ↦ (
        public,
        (
          rank-public (label_of s)
              (ap (λ l. ltb (rank l) (rank (label_of s))) (sym public) ∙ below),
          others,
        ),
      )
    ]
  where
    not_above : (label other : String) → other ≡ "public" → ltb (rank label) (rank other) ≡ true → ⊥
    not_above label other public above =
        ground (arith, subst (λ o. ltb (rank label) (rank o) ≡ true) public above)

-- the labels of evidence that go to the classification
abbrev pub evidence_labels : List Source → Labels
evidence_labels sources =
    let policy = policy_metadata sources in
    record {
      sensitivity = some policy.sensitivity;
      sensitive = false;
      personal_data = policy.personal_data;
      remote_processing_allowed = policy.remote_processing_allowed;
    }

-- The source is public, holds no personal data, and allows remote processing.
abbrev pub is_shareable : Source → Bool
is_shareable s = label_of s == "public" && not s.personal_data && s.remote_processing_allowed

strictest-public :
    (sources : List Source)
    → strictest sources ≡ "public"
    → All (λ s. label_of s ≡ "public") sources
unfolding strictest
strictest-public [] h = tt
strictest-public (s ∷ rest) h =
    let (first, others) = highest-public (label_of s) rest h in (first, others)

all-shareable :
    (sources : List Source)
    → All (λ s. label_of s ≡ "public") sources
    → any (λ s. s.personal_data) sources ≡ false
    → all (λ s. s.remote_processing_allowed) sources ≡ true
    → all is_shareable sources ≡ true
all-shareable [] labels personal remote = refl
all-shareable (s ∷ rest) (label, labels) personal remote =
    ground
      (arith, (eq_iff (label_of s) "public").1 label, all-shareable rest labels, personal, remote)

-- labels that are not sensitive and allow remote processing are those of shareable sources
evidence_labels-shareable :
    (sources : List Source)
    → is_sensitive (evidence_labels sources) ≡ false
    → (evidence_labels sources).remote_processing_allowed ≡ true
    → (is_nonempty sources && all is_shareable sources) ≡ true
unfolding is_sensitive policy_metadata
evidence_labels-shareable sources harmless remote =
    let label = (eq_iff (strictest sources) "public").0 (ground (arith, harmless)) in
    let personal : any (λ s. s.personal_data) sources ≡ false = ground (arith, harmless) in
    let allowed : all (λ s. s.remote_processing_allowed) sources ≡ true = ground (arith, remote) in
    ground (arith, remote, all-shareable sources (strictest-public sources label) personal allowed)

check_remote-jev :
    {S : Type 0} (config : Config S) (provider : String) (labels : Option Labels) (flagged : Bool)
    → check_remote config provider labels flagged ≡ ok tt
    → (provider == "jev") ≡ true
    → ((config.remote_allowed && is_allowed labels) ≡ true)
      × (is_sensitive (labels_of labels) ≡ false)
      × (flagged ≡ false)
unfolding check_remote
check_remote-jev config provider labels flagged h jev =
    passed (not (config.remote_allowed && is_allowed labels)) approval_required _
      (sym (if-true _ _ jev) ∙ h)
      λ approved rest1.
        passed (is_sensitive (labels_of labels)) sensitive_data _ rest1 λ harmless rest2.
          passed flagged preflight_blocked _ rest2
            λ clean _. (not-false _ approved, harmless, clean)

module _ {S : Type 0} (setup : Setup S) where
  request-check_remote :
      (given : Option String) (subject : Subject) (labels : Option Labels) (flagged : Bool)
      (provider : String)
      → request setup given subject labels flagged ≡ ok (some provider)
      → check_remote setup.config provider labels flagged ≡ ok tt
  unfolding request_unlocked admitted
  request-check_remote given subject labels flagged provider h =
      elim (if-elim (not setup.config.enabled) _ _
        (request-request_unlocked setup given subject labels flagged provider h)) [
          | inl (_, e) ↦ absurd (ground (arith, e))
          | inr (_, rest) ↦
              after (admitted setup.config given subject.target_kind labels flagged) _ rest
                λ selected checks rest1.
                  elim (if-elim (asks_nothing setup.config.taxonomy) _ _ rest1) [
                    | inl (_, e) ↦ absurd (ground (arith, e))
                    | inr (_, last) ↦
                        after (check_questions setup.scores setup.config) _ last λ _ _ same.
                          after (chosen setup.config given subject.target_kind labels) _ checks
                            λ p _ rest2.
                              after (check_remote setup.config p labels flagged) _ rest2
                                λ u remote rest3.
                                  passed
                                    (not (p == "rules") && not (p == "jev") && not (p == "laya"))
                                    bad_provider _ rest3
                                    λ _ made.
                                      subst
                                        (λ q. check_remote setup.config q labels flagged ≡ ok tt)
                                        (ok_injective made ∙ some_injective (ok_injective same))
                                        remote
                  ]
        ]

  -- The hosted provider is asked about evidence only if all conditions hold.
  request-hosted :
      (given : Option String) (subject : Subject) (sources : List Source) (flagged : Bool)
      (provider : String)
      → request setup given subject (some (evidence_labels sources)) flagged ≡ ok (some provider)
      → (provider == "jev") ≡ true
      → (is_nonempty sources
          && all is_shareable sources
          && setup.config.remote_allowed
          && not flagged)
        ≡ true
  request-hosted given subject sources flagged provider h jev =
      let (approved, harmless, clean) =
        check_remote-jev setup.config provider (some (evidence_labels sources)) flagged
          (request-check_remote given subject (some (evidence_labels sources)) flagged provider h)
          jev in
      let project : setup.config.remote_allowed ≡ true = both-left _ _ approved in
      let target : (evidence_labels sources).remote_processing_allowed ≡ true =
        both-right _ _ approved in
      let shareable = evidence_labels-shareable sources harmless target in
      rw (shareable, project, clean) refl

  -- When evidence is classified and one of its sources is not public, holds personal data or does not
  -- allow remote processing, or there is no source, or the project does not allow it, or the preflight
  -- finds something, then the result and all that is stored are the same whatever the hosted provider
  -- would reply: it is not asked.
  pub classify_text-hosted :
      (id : String) (now : ℕ) (predict predict' : String → Reply S) (made : Reply S)
      (given : Option String) (subject : Subject) (sources : List Source) (flagged : Bool)
      (d : Dir (Classification S))
      → (is_nonempty sources
          && all is_shareable sources
          && setup.config.remote_allowed
          && not flagged)
        ≡ false
      → ((p : String) → (p == "jev") ≡ false → predict p ≡ predict' p)
      → classify_text setup id now predict made given subject
          (some (evidence_labels sources))
          flagged
          d
        ≡ classify_text setup id now predict' made given subject
            (some (evidence_labels sources))
            flagged
            d
  unfolding classify_text proceed decided replied
  classify_text-hosted id now predict predict' made given subject sources flagged d unfit local =
      go (request setup given subject (some (evidence_labels sources)) flagged) refl
    where
      same_reply :
          (p : String)
          → (p == "jev") ≡ false
          → (m : Reply S) → replied setup predict m p ≡ replied setup predict' m p
      same_reply p other (some answers) = refl
      same_reply p other none =
          ap (λ (r : Reply S). elim r [ none ↦ raise no_reply | some answers ↦ ok answers ])
            (local p other)

      go :
          (r : Result ClassError (Option String))
          → request setup given subject (some (evidence_labels sources)) flagged ≡ r
          → proceed setup id now predict made subject (some (evidence_labels sources)) r d
            ≡ proceed setup id now predict' made subject (some (evidence_labels sources)) r d
      go (raise e) asked = refl
      go (ok none) asked = refl
      go (ok (some provider)) asked = elim (Bool-cases (provider == "jev")) [
        | inl jev ↦
            absurd (
              ground
                (arith, request-hosted given subject sources flagged provider asked jev, unfit))
        | inr other ↦ rw (same_reply provider other made) refl
      ]
