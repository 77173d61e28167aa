-- ===== src/Tasks/Tests.antt =====
-- Runs of tasks/__init__.py on small inputs, and the theorems at them.
use polder_research_pipeline.Base.{
  ℕ, ◌≤◌, String, ◌≡◌, refl, ◌≢◌, Bool, true, false, ◌⊎◌, none, some, List, [], ◌∷◌, arith, eq_iff,
  is_record_id, strip, ◌++◌,
}
use polder_research_pipeline.Base.Result.{ok, raise}
use polder_research_pipeline.Base.Dir.{parsed, read}
use polder_research_pipeline.Base.Time.{at}
use polder_research_pipeline.Tasks.{
  Task, Store, Moment, already_leased, wrong_token, acquire_lease, release_lease, require_task,
  save, grant, freed, log_lease, find_open, write_task, leased, update_task_status, updated,
  check_free, check_token, active_lease,
}
use polder_research_pipeline.Tasks.Leasing.{acquire_lease_excludes, release_lease-stale}
use polder_research_pipeline.Tasks.Opening.{
  write_task-write_task, write_task-count_open, count_open, has_signature,
}
use polder_research_pipeline.Tasks.Frame.{
  Call, create, acquire, release, run, run_all, IsSound, Torn, run_raises, read-run,
  run_all-IsSound,
}

program : Unit {0}
unfolding acquire_lease release_lease require_task save grant freed log_lease find_open write_task
    updated update_task_status run run_all strip is_record_id check_free check_token active_lease
program = tt

abbrev first_id : String
first_id = "tsk_01890a5d-ac96-774b-bcce-b302099a8057"

abbrev second_id : String
second_id = "tsk_01890a5d-ac96-774b-9cce-b302099a8058"

abbrev any_task : Task → Bool
any_task _ = true

-- a stand-in for the digest
abbrev sig : String → String → String → String
sig kind role summary = kind

abbrev task : Task
task = record {
  id = first_id;
  task_kind = "extract";
  status = "pending";
  role = "curator";
  summary = "read it";
  created_at = at 0;
  run_id = none;
  updated_at = none;
  lease = none;
}

abbrev start : Store
start = record { tasks = (first_id, parsed task) ∷ []; leases = [] }

abbrev at_time : ℕ → Moment
at_time t = record { checked = t; now = t; written = t; logged = t; log_fails = false }

abbrev held : Store
held = record {
  tasks = (first_id, parsed (leased "lse_1" "ann" 60 (at_time 5000000) task)) ∷ [];
  leases =
      (
        "lse_1",
        parsed (record {
          id = "lse_1";
          task_id = first_id;
          leaser = "ann";
          leased_at = at 5000000;
          expires_at = at 65000000;
        }),
      )
      ∷ [];
}

held_lem :
    acquire_lease any_task first_id "ann" 60 "lse_1" (at_time 5000000) start ≡ (ok "lse_1", held)
unfolding program
held_lem = refl

acquire_lease_excludes_example :
    acquire_lease any_task first_id " bob " 10 "lse_2" (at_time 64999999) held
    ≡ (raise already_leased, held)
acquire_lease_excludes_example =
    acquire_lease_excludes any_task first_id "ann" 60 "lse_1" "lse_1" (at_time 5000000) start held
      held " bob " 10 "lse_2" (at_time 64999999) held_lem refl (omega arith) (omega arith)
      (unfold strip in refl)

-- at the expiry itself the next lease is granted
acquire_after_expiry :
    (acquire_lease any_task first_id "bob" 10 "lse_2" (at_time 65000000) held).0 ≡ ok "lse_2"
unfolding program
acquire_after_expiry = refl

differs : ◌≢◌ {A = String} "lse_0" "lse_1"
differs = ground (arith, eq_iff "lse_0" "lse_1")

release_lease-stale_example :
    release_lease any_task first_id (some "lse_0") 9 held ≡ (raise wrong_token, held)
release_lease-stale_example =
    release_lease-stale any_task first_id "ann" 60 "lse_1" "lse_1" (at_time 5000000) start held held
      "lse_0" 9 held_lem refl differs

abbrev two : Store
two = record start {
  tasks =
      start.tasks
      ++ (
        second_id,
        parsed (record {
          id = second_id;
          task_kind = "appraise";
          status = "pending";
          role = "critic";
          summary = "judge it";
          created_at = at 0;
          run_id = none;
          updated_at = none;
          lease = none;
        }),
      )
        ∷ [];
}

two_lem :
    write_task any_task sig second_id 7 "appraise" "pending" "critic" "judge it" (some "") start
    ≡ (ok second_id, two)
unfolding program
two_lem = refl

write_task-write_task_example :
    write_task any_task sig "tsk_x" 8 "appraise" "leased" "critic" "judge it" none two
    ≡ (ok second_id, two)
write_task-write_task_example =
    write_task-write_task any_task sig second_id "tsk_x" 7 8 "appraise" "pending" "leased" "critic"
      "judge it" (some "") none start two second_id (unfold read in refl) refl two_lem

write_task-count_open_example :
    count_open
      (has_signature any_task sig "extract" "" "")
      (write_task any_task sig second_id 7 "appraise" "pending" "critic" "judge it" none
        start).1.tasks
    ≤ 1
write_task-count_open_example =
    write_task-count_open any_task sig second_id 7 "appraise" "pending" "critic" "judge it" none
      start (unfold read in refl) "extract" "" "" (omega arith)

abbrev stale_release : Call
stale_release = release first_id (some "lse_0") 9

-- an acquisition at 5 s whose lease file is refused
abbrev torn_acquire : Call
torn_acquire = acquire first_id "ann" 60 "lse_1" (record (at_time 5000000) { log_fails = true })

run_raises_example :
    ((run any_task sig torn_acquire start).1 ≡ start) ⊎ Torn any_task sig torn_acquire start
run_raises_example = run_raises any_task sig torn_acquire start (unfold program in refl)

second_id≢first_id : ◌≢◌ {A = String} second_id first_id
second_id≢first_id = ground (arith, eq_iff second_id first_id)

read-run_example :
    read second_id (run any_task sig (acquire first_id "ann" 60 "lse_1" (at_time 5)) two).1.tasks
    ≡ read second_id two.tasks
read-run_example =
    read-run any_task sig (acquire first_id "ann" 60 "lse_1" (at_time 5)) two second_id
      second_id≢first_id

start-IsSound : IsSound any_task start
unfolding read
start-IsSound = record {
  own = λ j rec p. ground (arith, eq_iff first_id j);
  fits = λ j rec p. refl;
}

abbrev calls : List Call
calls =
    acquire first_id "ann" 60 "lse_1" (at_time 5)
    ∷ stale_release
    ∷ create second_id 7 "appraise" "pending" "critic" "judge it" none
    ∷ []

run_all-IsSound_example : IsSound any_task (run_all any_task sig calls start)
run_all-IsSound_example = run_all-IsSound any_task sig calls start start-IsSound
