-- ===== src/Tasks/Frame.antt =====
-- What every operation of tasks/__init__.py leaves alone, also when it raises.
use polder_research_pipeline.Base.{
  ℕ, String, ◌≡◌, refl, ◌≢◌, Bool, true, false, Option, some, ◌⊎◌, inl, inr, List, [], ◌∷◌, arith,
  ◌==◌, eq_iff, Bool-cases, Option-cases,
}
use polder_research_pipeline.Base.Result.{Result, ok, raise, Result-cases}
use polder_research_pipeline.Base.Dir.{parsed, read, write, read-write}
use polder_research_pipeline.Tasks.{
  Task, Store, TaskError, Moment, invalid_record, acquire_lease, release_lease, require_task, save,
  update_task_status, updated, grant, freed, log_lease, find_open, write_task, new_task,
}
use polder_research_pipeline.Tasks.Leasing.{save_lem, require_task-eq-ok, grant-eq-ok}

-- Every readable record is filed under its own id, and the schema accepts it.
pub record IsSound (valid : Task → Bool) (s : Store) : Type 0 where
  pub own : (j : String) (rec : Task) → read j s.tasks ≡ some (parsed rec) → rec.id ≡ j
  pub fits : (j : String) (rec : Task) → read j s.tasks ≡ some (parsed rec) → valid rec ≡ true

-- The calls of the module, each with what it reads from outside.
pub data Call : Type 0 where
  create :
      (id : String) (now : ℕ) (kind status role summary : String) (run_id : Option String) → Call
  update : (id status : String) (now : ℕ) → Call
  acquire : (id leaser : String) (ttl : ℕ) (token : String) (m : Moment) → Call
  release : (id : String) (token : Option String) (now : ℕ) → Call

-- the task that a call is about
abbrev pub subject : Call → String
subject (create id _ _ _ _ _ _) = id
subject (update id _ _) = id
subject (acquire id _ _ _ _) = id
subject (release id _ _) = id

abbrev pub done : {A : Type 0} → Result TaskError A → Bool
done (ok _) = true
done (raise _) = false

-- `save` raises and changes nothing, or puts a valid record under its name.
save_cases :
    (valid : Task → Bool) (id : String) (r : Result TaskError Task) (s : Store)
    → ((rec : Task) → r ≡ ok rec → rec.id ≡ id)
    → ((e : TaskError) × (save valid id r s ≡ (raise e, s)))
      ⊎ ((rec : Task) × (r ≡ ok rec)
          × (rec.id ≡ id)
          × (valid rec ≡ true)
          × (save valid id r s ≡ (ok tt, record s { tasks = write id rec s.tasks })))
save_cases valid id (raise e) s own = inl (e, unfold save in refl)
save_cases valid id (ok rec) s own = elim (Bool-cases (valid rec)) [
  | inl e ↦ inr (rec, refl, own rec refl, e, rw (save_lem, e))
  | inr e ↦ inl (invalid_record, rw (save_lem, e))
]

freed-id :
    (id : String) (token : Option String) (now : ℕ) (s : Store) (new : Task)
    → freed id token now s ≡ ok new
    → new.id ≡ id
unfolding freed
freed-id id token now s new h = elim (Result-cases (require_task id s)) [
  | inl (rec, found) ↦ ground (arith, require_task-eq-ok id s rec found)
  | inr (e, refused) ↦ absurd (ground arith)
]

updated-id :
    (id status : String) (now : ℕ) (s : Store) (new : Task)
    → updated id status now s ≡ ok new
    → new.id ≡ id
unfolding updated
updated-id id status now s new h = elim (Result-cases (require_task id s)) [
  | inl (rec, found) ↦ ground (arith, require_task-eq-ok id s rec found)
  | inr (e, refused) ↦ absurd (ground arith)
]

grant-id :
    (id leaser : String) (ttl : ℕ) (token : String) (m : Moment) (s : Store) (new : Task)
    → grant id leaser ttl token m s ≡ ok new
    → new.id ≡ id
grant-id id leaser ttl token m s new h =
    let g = grant-eq-ok id leaser ttl token m s h in
    ground (arith, require_task-eq-ok id s g.rec g.found, g.new_lem)

module _ (valid : Task → Bool) (sig : String → String → String → String) where
  -- whether the call returns, and the store after it
  unfoldable pub run : Call → Store → Bool × Store
  run (create id now kind status role summary run_id) s =
      let (r, t) = write_task valid sig id now kind status role summary run_id s in (done r, t)
  run (update id status now) s =
      let (r, t) = update_task_status valid id status now s in (done r, t)
  run (acquire id leaser ttl token m) s =
      let (r, t) = acquire_lease valid id leaser ttl token m s in (done r, t)
  run (release id token now) s = let (r, t) = release_lease valid id token now s in (done r, t)

  -- An acquisition whose lease file could not be written: the task is leased, and nothing else has
  -- changed.
  abbrev pub Torn : Call → Store → Type 0
  Torn (create _ _ _ _ _ _ _) s = ⊥
  Torn (update _ _ _) s = ⊥
  Torn (release _ _ _) s = ⊥
  Torn (acquire id leaser ttl token m) s =
      (m.log_fails ≡ true)
      × (rec : Task) × (grant id leaser ttl token m s ≡ ok rec)
      × (valid rec ≡ true)
      × ((run (acquire id leaser ttl token m) s).1 ≡ record s { tasks = write id rec s.tasks })

  -- A call leaves the store as it is, or puts one valid record under the task's own id.
  Effect : Call → Store → Type 0
  Effect c s =
      ((run c s).1 ≡ s)
      ⊎ ((rec : Task) × (rec.id ≡ subject c)
          × (valid rec ≡ true)
          × (((run c s).0 ≡ true) ⊎ Torn c s)
          × ((run c s).1.tasks ≡ write (subject c) rec s.tasks))

  run-Effect : (c : Call) (s : Store) → Effect c s
  unfolding Effect run write_task update_task_status acquire_lease log_lease release_lease
  run-Effect (create id now kind status role summary run_id) s =
      let new = new_task id kind status role summary run_id now in
      let same = λ (rec : Task). sig rec.task_kind rec.role rec.summary == sig kind role summary in
      elim (Option-cases (find_open same s.tasks)) [
        | inr (existing, found) ↦ inl (ground arith)
        | inl none_open ↦ elim (save_cases valid id (ok new) s (λ rec e. ground arith)) [
          | inl (e, p) ↦ inl (ground arith)
          | inr (rec, made, own, fits, p) ↦ inr (rec, own, fits, inl (ground arith), ground arith)
        ]
      ]
  run-Effect (update id status now) s =
      elim (save_cases valid id (updated id status now s) s (updated-id id status now s)) [
        | inl (e, p) ↦ inl (ground arith)
        | inr (rec, made, own, fits, p) ↦ inr (rec, own, fits, inl (ground arith), ground arith)
      ]
  run-Effect (acquire id leaser ttl token m) s =
      elim (save_cases valid id (grant id leaser ttl token m s) s
        (grant-id id leaser ttl token m s)) [
          | inl (e, p) ↦ inl (ground arith)
          | inr (rec, made, own, fits, p) ↦ elim (Bool-cases m.log_fails) [
            | inl torn ↦
                inr (rec, own, fits, inr (torn, rec, made, fits, ground arith), ground arith)
            | inr whole ↦ inr (rec, own, fits, inl (ground arith), ground arith)
          ]
        ]
  run-Effect (release id token now) s =
      elim (save_cases valid id (freed id token now s) s (freed-id id token now s)) [
        | inl (e, p) ↦ inl (ground arith)
        | inr (rec, made, own, fits, p) ↦ inr (rec, own, fits, inl (ground arith), ground arith)
      ]

  -- A call that raises has changed no task and no lease file, except an acquisition that was granted
  -- and whose lease file could not be written: it has replaced the task by the leased one, and
  -- changed nothing else.
  pub run_raises : (c : Call) (s : Store) → (run c s).0 ≡ false → ((run c s).1 ≡ s) ⊎ Torn c s
  unfolding Effect
  run_raises c s h = elim (run-Effect c s) [
    | inl same ↦ inl same
    | inr (_, _, _, inl returns, _) ↦ absurd (ground (arith, h, returns))
    | inr (_, _, _, inr torn, _) ↦ inr torn
  ]

  -- A call changes the record of no other task.
  pub read-run :
      (c : Call) (s : Store) (j : String)
      → j ≢ subject c
      → read j (run c s).1.tasks ≡ read j s.tasks
  unfolding Effect
  read-run c s j other = elim (run-Effect c s) [
    | inl same ↦ rw same
    | inr (rec, _, _, _, stored) ↦ rw (stored, read-write) (ground (arith, eq_iff (subject c) j))
  ]

  run-IsSound : (c : Call) (s : Store) → IsSound valid s → IsSound valid (run c s).1
  unfolding Effect
  run-IsSound c s h = elim (run-Effect c s) [
    | inl same ↦ rw same h
    | inr (rec, own, fits, _, stored) ↦ record {
      own = λ j r p.
          let q = rw (stored, read-write) at p in ground (arith, eq_iff (subject c) j, h.own j r);
      fits = λ j r p. let q = rw (stored, read-write) at p in ground (arith, h.fits j r);
    }
  ]

  unfoldable pub run_all : List Call → Store → Store
  run_all [] s = s
  run_all (c ∷ calls) s = run_all calls (run c s).1

  -- After any calls, whether they return or raise, every readable task record is still filed
  -- under its own id, and valid.
  pub run_all-IsSound :
      (calls : List Call) (s : Store) → IsSound valid s → IsSound valid (run_all calls s)
  unfolding run_all
  run_all-IsSound [] s h = h
  run_all-IsSound (c ∷ calls) s h = run_all-IsSound calls (run c s).1 (run-IsSound c s h)
