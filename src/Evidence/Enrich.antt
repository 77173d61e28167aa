-- ===== src/Evidence/Enrich.antt =====
-- `_classify_record` and `_classification_policy_metadata` of evidence/__init__.py.
use polder_research_pipeline.Base.{
  ℕ, String, Bool, true, false, ◌&&◌, Option, none, some, List, [], ◌∷◌, ◌++◌, ◌==◌, if◌then◌else◌,
  ltb, any, all, contains,
}
use polder_research_pipeline.Evidence.Records.{Enrichment, Source}

-- What `classify_text` did: it raised, it is disabled, or it gave a result.
pub data Outcome : Type 0 where
  raised disabled : Outcome
  done : String → Option String → String → Outcome

abbrev pub unclassified : Enrichment
unclassified = record { status = none; error = none; ids = [] }

abbrev pub could_not_complete : String
could_not_complete =
    "Classification could not complete; inspect provider configuration and classification records."

-- `list(dict.fromkeys(ids + [id]))`, for ids without repetition
abbrev pub add_id : String → List String → List String
add_id id ids = if contains id ids then ids else ids ++ id ∷ []

-- The result is its disposition, its error and its id.
unfoldable pub enrich : Outcome → Enrichment → Enrichment
enrich raised e = record e { status = some "failed"; error = some could_not_complete }
enrich disabled e = record e { status = some "disabled" }
enrich (done disposition error id) e = record {
  status = some disposition;
  error =
      if disposition == "failed"
      then some (elim error [ none ↦ "Provider classification failed." | some t ↦ t ])
      else e.error;
  ids = add_id id e.ids;
}

-- the labels that go with a text to the classification
pub record Policy : Type 0 where
  pub sensitivity : String
  pub personal_data : Bool
  pub remote_processing_allowed : Bool

-- `_SENSITIVITY_ORDER.get(value, 3)`
abbrev pub rank : String → ℕ
rank label =
    if label == "public"
    then 0
    else if label == "internal"
    then 1
    else if label == "confidential"
    then 2
    else 3

abbrev pub label_of : Source → String
label_of source = elim source.sensitivity [ none ↦ "public" | some s ↦ s ]

-- `max(..., key=...)`: the first of the labels of the highest rank
unfoldable pub highest : String → List Source → String
highest label [] = label
highest label (s ∷ rest) =
    highest (if ltb (rank label) (rank (label_of s)) then label_of s else label) rest

unfoldable pub strictest : List Source → String
unfolding highest
strictest [] = "public"
strictest (s ∷ rest) = highest (label_of s) rest

abbrev pub is_nonempty : List Source → Bool
is_nonempty [] = false
is_nonempty (s ∷ rest) = true

unfoldable pub policy_metadata : List Source → Policy
policy_metadata sources = record {
  sensitivity = strictest sources;
  personal_data = any (λ s. s.personal_data) sources;
  remote_processing_allowed = is_nonempty sources && all (λ s. s.remote_processing_allowed) sources;
}
