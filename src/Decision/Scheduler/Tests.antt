-- ===== src/Decision/Scheduler/Tests.antt =====
-- The theorem on the order of results with two keys that alternate.
use polder_research_pipeline.Base.{
  ℕ, String, ◌≡◌, refl, true, Option, none, some, List, [], ◌∷◌, map, arith,
}
use polder_research_pipeline.Base.Result.{ok}
use polder_research_pipeline.Decision.Scheduler.{Request, Scheduler, take, drop, flush}
use polder_research_pipeline.Decision.Scheduler.Ordered.{flush-ordered}

abbrev request : ℕ → String → Request ℕ
request n key = record {
  payload = n;
  has_state = true;
  has_questions = true;
  compatibility_key = some key;
  model = none;
}

abbrev queue : List (Request ℕ)
queue = request 1 "a" ∷ request 2 "b" ∷ request 3 "a" ∷ request 4 "b" ∷ []

abbrev scheduler : Scheduler ℕ
scheduler = record { batch_size = 32; items = queue }

abbrev echo : ℕ × Option String → ℕ
echo submitted = submitted.0

flush-ordered_example :
    flush (λ requests. some (map echo requests)) (some 3) scheduler
    ≡ (ok (1 ∷ 2 ∷ 3 ∷ []), record { batch_size = 32; items = request 4 "b" ∷ [] })
unfolding take drop
flush-ordered_example =
    flush-ordered echo (λ requests. some (map echo requests)) (some 3) scheduler (λ requests. refl)
      (omega arith)
