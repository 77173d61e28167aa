-- ===== src/Tasks/Opening.antt =====
-- `write_task` of tasks/__init__.py, and what every operation leaves alone.
use polder_research_pipeline.Base.{
  ℕ, ◌+◌, ◌≤◌, suc, String, ◌≡◌, refl, ap, Bool, true, false, Option, none, some, inl, inr, [], ◌∷◌,
  arith, ◌==◌, ==_self, if◌then◌else◌, eq_iff, Bool-cases, Option-cases,
}
use polder_research_pipeline.Base.Result.{ok}
use polder_research_pipeline.Base.Dir.{damaged, parsed, Dir, read, write}
use polder_research_pipeline.Tasks.{Task, Store, find_open, write_task, new_task, is_closed}
use polder_research_pipeline.Tasks.Leasing.{save_lem}

-- How many open records have a signature.
abbrev pub count_open : (Task → Bool) → Dir Task → ℕ
count_open same [] = 0
count_open same ((_, damaged) ∷ files) = count_open same files
count_open same ((_, parsed rec) ∷ files) =
    if is_closed rec.status
    then count_open same files
    else if same rec
    then suc (count_open same files)
    else count_open same files

find_open-count :
    (same : Task → Bool) (d : Dir Task) → find_open same d ≡ none → count_open same d ≡ 0
unfolding find_open
find_open-count same [] h = refl
find_open-count same ((_, damaged) ∷ d) h = find_open-count same d h
find_open-count same ((_, parsed rec) ∷ d) h = ground (arith, find_open-count same d)

-- a file under a new name adds its record, if that is open
count_open-write :
    (same : Task → Bool) (id : String) (rec : Task) (d : Dir Task)
    → read id d ≡ none
    → count_open same (write id rec d)
      ≡ count_open same d + (if is_closed rec.status then 0 else if same rec then 1 else 0)
unfolding read write
count_open-write same id rec [] h = ground arith
count_open-write same id rec ((j, damaged) ∷ d) h = ground (arith, count_open-write same id rec d)
count_open-write same id rec ((j, parsed r) ∷ d) h = ground (arith, count_open-write same id rec d)

find_open-write :
    (same : Task → Bool) (id : String) (rec : Task) (d : Dir Task)
    → read id d ≡ none
    → find_open same d ≡ none
    → is_closed rec.status ≡ false
    → same rec ≡ true
    → find_open same (write id rec d) ≡ some rec.id
unfolding read write find_open
find_open-write same id rec [] h none_open opened is_same = ground arith
find_open-write same id rec ((j, damaged) ∷ d) h none_open opened is_same =
    ground (arith, find_open-write same id rec d)
find_open-write same id rec ((j, parsed r) ∷ d) h none_open opened is_same =
    ground (arith, find_open-write same id rec d)

module _ (valid : Task → Bool) (sig : String → String → String → String) where
  abbrev pub has_signature : String → String → String → Task → Bool
  has_signature kind role summary rec =
      sig rec.task_kind rec.role rec.summary == sig kind role summary

  -- `write_task` again, with the same kind, role and summary, returns the id that the first call
  -- returned and changes nothing, as long as the first call did not create a closed task.
  pub write_task-write_task :
      (id id' : String) (now now' : ℕ) (kind status status' role summary : String)
      (run_id run_id' : Option String) (s t : Store) (r : String)
      → read id s.tasks ≡ none
      → is_closed status ≡ false
      → write_task valid sig id now kind status role summary run_id s ≡ (ok r, t)
      → write_task valid sig id' now' kind status' role summary run_id' t ≡ (ok r, t)
  unfolding write_task
  write_task-write_task id id' now now' kind status status' role summary run_id run_id' s t r fresh
        opened h =
      let same = has_signature kind role summary in
      let new = new_task id kind status role summary run_id now in
      elim (Option-cases (find_open same s.tasks)) [
        | inl none_open ↦
            let made =
              find_open-write same id new s.tasks fresh none_open opened
                (==_self (sig kind role summary)) in
            ground (arith, save_lem valid id new s, made)
        | inr (existing, found) ↦ ground arith
      ]

  -- However often it is called, `write_task` does not make a second open task with the signature
  -- of an open one.
  pub write_task-count_open :
      (id : String) (now : ℕ) (kind status role summary : String) (run_id : Option String)
      (s : Store)
      → read id s.tasks ≡ none
      → (kind' role' summary' : String)
      → count_open (has_signature kind' role' summary') s.tasks ≤ 1
      → count_open
          (has_signature kind' role' summary')
          (write_task valid sig id now kind status role summary run_id s).1.tasks
        ≤ 1
  unfolding write_task
  write_task-count_open id now kind status role summary run_id s fresh kind' role' summary' h =
      let same = has_signature kind role summary in
      let wanted = has_signature kind' role' summary' in
      let new = new_task id kind status role summary run_id now in
      elim (Option-cases (find_open same s.tasks)) [
        | inl none_open ↦ elim (Bool-cases (sig kind role summary == sig kind' role' summary')) [
          | inl e ↦
              let both : same ≡ wanted =
                ap {B = Task → Bool} (λ w rec. sig rec.task_kind rec.role rec.summary == w)
                  ((eq_iff _ _).0 e) in
              let empty : count_open wanted s.tasks ≡ 0 =
                rw (← both) (find_open-count same s.tasks none_open) in
              ground (arith, save_lem valid id new s, count_open-write wanted id new s.tasks fresh)
          | inr e ↦
              ground (arith, save_lem valid id new s, count_open-write wanted id new s.tasks fresh)
        ]
        | inr (existing, found) ↦ ground arith
      ]
