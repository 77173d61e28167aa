-- ===== src/Classification/Provider.antt =====
-- `select_provider`, `_is_sensitive` and the checks of `_classify_text_unlocked` before it reads any
-- record. Whether the preflight finds anything in the text is an argument.
use polder_research_pipeline.Base.{
  String, Bool, true, false, not, ◌&&◌, ◌||◌, Option, none, some, List, [], ◌∷◌, ◌==◌,
  if◌then◌else◌, any,
}
use polder_research_pipeline.Base.Result.{Result, ok, refuse, ◌>>=◌, ◌>>◌}
use polder_research_pipeline.Classification.Records.{
  ClassError, local_provider_required, approval_required, sensitive_data, preflight_blocked,
  model_not_pinned, bad_provider, bad_threshold, empty_dimension, Taxonomy, Labels, Config, Scores,
}

unfoldable pub is_sensitive : Labels → Bool
is_sensitive labels =
    labels.sensitive
    || labels.personal_data
    || not (elim labels.sensitivity [ none ↦ false | some s ↦ s == "public" ])

-- `dict.get`, of the first pair with the key
unfoldable pub value_at : {A : Type 0} → String → List (String × A) → Option A
value_at key [] = none
value_at key ((k, v) ∷ pairs) = if k == key then some v else value_at key pairs

-- no labels at all are sensitive
abbrev pub unlabelled : Labels
unlabelled = record {
  sensitivity = none;
  sensitive = false;
  personal_data = false;
  remote_processing_allowed = false;
}

abbrev pub labels_of : Option Labels → Labels
labels_of none = unlabelled
labels_of (some labels) = labels

abbrev pub or_else : Option String → String → String
or_else none given = given
or_else (some p) given = p

abbrev pub is_allowed : Option Labels → Bool
is_allowed none = false
is_allowed (some labels) = labels.remote_processing_allowed

module _ {S : Type 0} (config : Config S) where
  unfoldable pub select_provider : String → Option Labels → Result ClassError String
  unfolding value_at
  select_provider target_kind labels =
      if is_sensitive (labels_of labels)
      then (do
        let candidate = or_else config.sensitive_provider config.provider
        refuse (not (candidate == "laya") && not (candidate == "rules")) local_provider_required
        ok candidate)
      else ok (or_else (value_at target_kind config.by_target_kind) config.provider)

  -- the checks of the hosted provider
  unfoldable pub check_remote : String → Option Labels → Bool → Result ClassError Unit
  check_remote provider labels flagged =
      if provider == "jev"
      then (do
        refuse (not (config.remote_allowed && is_allowed labels)) approval_required
        refuse (is_sensitive (labels_of labels)) sensitive_data
        refuse flagged preflight_blocked
        refuse (config.jev_model == "jev-latest") model_not_pinned)
      else ok tt

  -- a provider named by the caller goes before the configured one
  unfoldable pub chosen : Option String → String → Option Labels → Result ClassError String
  chosen none target_kind labels = select_provider target_kind labels
  chosen (some provider) target_kind labels =
      if provider == "" then select_provider target_kind labels else ok provider

  unfoldable pub admitted : Option String → String → Option Labels → Bool → Result ClassError String
  admitted provider target_kind labels flagged = do
    selected ← chosen provider target_kind labels
    check_remote selected labels flagged
    refuse (not (selected == "rules") && not (selected == "jev") && not (selected == "laya"))
        bad_provider
    ok selected

abbrev pub is_nil : {A : Type 0} → List A → Bool
is_nil [] = true
is_nil (x ∷ xs) = false

-- nothing to ask
abbrev pub asks_nothing : Taxonomy → Bool
asks_nothing taxonomy =
    is_nil taxonomy.categories && is_nil taxonomy.tags && is_nil taxonomy.dimensions

-- `_questions` refuses a dimension without values.
abbrev pub check_dimensions : Taxonomy → Result ClassError Unit
check_dimensions taxonomy =
    refuse (any (λ (key, values). is_nil values) taxonomy.dimensions) empty_dimension

-- the check of the threshold, and of the questions
unfoldable pub check_questions : {S : Type 0} → Scores S → Config S → Result ClassError Unit
check_questions scores config = do
  refuse (not (scores.is_probability config.threshold)) bad_threshold
  check_dimensions config.taxonomy
