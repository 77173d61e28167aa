-- ===== src/Tasks.antt =====
-- src/polder_research/tasks/__init__.py: task records and their leases. The proofs are in the modules
-- below. The directories `.research/tasks` and `.research/locks` are the state. Each operation runs
-- under a file lock that it waits for, so an operation is one step of the state.
pub mod Leasing
pub mod Opening
pub mod Frame
mod Tests
use polder_research_pipeline.Base.{
  ℕ, ◌+◌, ◌*◌, String, Bool, not, ◌&&◌, ◌||◌, Option, none, some, [], ◌∷◌, ltb, is_some, ◌==◌,
  if◌then◌else◌, strip, is_record_id,
}
use polder_research_pipeline.Base.Result.{Result, ok, raise, refuse, ◌>>=◌, ◌>>◌}
use polder_research_pipeline.Base.Exec.{Exec, continue}
use polder_research_pipeline.Base.Dir.{File, damaged, parsed, Dir, read, write, write_atomic}
use polder_research_pipeline.Base.Time.{Stamp, garbled, at, naive, to_seconds}

-- No field of a lease is required by the schema.
pub record Lease : Type 0 where
  pub leaser : Option String
  pub leased_at : Option Stamp
  pub expires_at : Option Stamp
  pub lease_token : Option String

-- The fields of a task record that this module reads or writes.
pub record Task : Type 0 where
  pub id : String
  pub task_kind : String
  pub status : String
  pub role : String
  pub summary : String
  pub created_at : Stamp
  pub run_id : Option String
  pub updated_at : Option Stamp
  pub lease : Option Lease

-- The file `<token>.json` that `acquire_lease` leaves beside the lock files.
pub record LeaseFile : Type 0 where
  pub id : String
  pub task_id : String
  pub leaser : String
  pub leased_at : Stamp
  pub expires_at : Stamp

pub record Store : Type 0 where
  pub tasks : Dir Task
  pub leases : Dir LeaseFile

-- One constructor for each `raise`, and for the exceptions of json and datetime that pass through;
-- `log_failed` is the OSError of the second write of `acquire_lease`.
pub data TaskError : Type 0 where
  bad_ttl bad_leaser bad_id missing damaged_file identity_mismatch invalid_record : TaskError
  already_leased bad_expiry naive_expiry no_lease wrong_token log_failed : TaskError

-- What an operation meets outside: the clock each time that it is read, and whether the file system
-- refuses the lease file.
pub record Moment : Type 0 where
  pub checked : ℕ
  pub now : ℕ
  pub written : ℕ
  pub logged : ℕ
  pub log_fails : Bool

parse_task : String → Option (File Task) → Result TaskError Task
parse_task id none = raise missing
parse_task id (some damaged) = raise damaged_file
parse_task id (some (parsed rec)) = if rec.id == id then ok rec else raise identity_mismatch

-- `_validate_task_id` and `_require_task`
pub require_task : String → Store → Result TaskError Task
unfolding parse_task read
require_task id s = do refuse (not (is_record_id "tsk_" id)) bad_id; parse_task id (read id s.tasks)

saved : Option (Dir Task) → Exec TaskError Store Unit
saved none s = (raise invalid_record, s)
saved (some tasks) s = (ok tt, record s { tasks = tasks })

module _ (valid : Task → Bool) where
  -- `_write`, for the record that the checks before it have let through
  pub save : String → Result TaskError Task → Exec TaskError Store Unit
  unfolding saved write_atomic
  save id (raise e) s = (raise e, s)
  save id (ok rec) s = saved (write_atomic valid id rec s.tasks) s

-- the record of a new task; an empty run id counts as none
abbrev pub new_task : String → String → String → String → String → Option String → ℕ → Task
new_task id task_kind status role summary run_id now = record {
  id = id;
  task_kind = task_kind;
  status = status;
  role = role;
  summary = summary;
  created_at = to_seconds now;
  run_id = elim run_id [ none ↦ none | some r ↦ if r == "" then none else some r ];
  updated_at = none;
  lease = none;
}

abbrev pub is_closed : String → Bool
is_closed status = status == "completed" || status == "failed" || status == "abandoned"

-- the loop over `tasks_dir.glob("tsk_*.json")`
pub find_open : (Task → Bool) → Dir Task → Option String
find_open same [] = none
find_open same ((_, damaged) ∷ files) = find_open same files
find_open same ((_, parsed rec) ∷ files) =
    let rest = find_open same files in
    if is_closed rec.status then rest else if same rec then some rec.id else rest

module _ (valid : Task → Bool) where
  -- `sig` is the truncated digest of "kind|role|summary"; `id` is the new uuid.
  pub write_task :
      (String → String → String → String)
      → String
      → ℕ
      → String
      → String
      → String
      → String
      → Option String
      → Exec TaskError Store String
  write_task sig id now task_kind status role summary run_id s =
      let wanted = sig task_kind role summary in
      elim (find_open (λ rec. sig rec.task_kind rec.role rec.summary == wanted) s.tasks) [
        | some existing ↦ (ok existing, s)
        | none ↦
            let new = new_task id task_kind status role summary run_id now in
            let (r, s') = save valid id (ok new) s in continue r (λ _ t. (ok id, t)) s'
      ]

-- the record that `update_task_status` stores
pub updated : String → String → ℕ → Store → Result TaskError Task
updated id status now s = do
  rec ← require_task id s
  ok (record rec { status = status; updated_at = some (to_seconds now) })

module _ (valid : Task → Bool) where
  pub update_task_status : String → String → ℕ → Exec TaskError Store Unit
  update_task_status id status now s = save valid id (updated id status now s) s

-- `fromisoformat(expires_at) > now`, for an expiry that is neither absent nor empty
check_expiry : Option Stamp → ℕ → Result TaskError Unit
check_expiry (some (at t)) now = if ltb now t then raise already_leased else ok tt
check_expiry (some (naive t)) now = raise naive_expiry
check_expiry (some garbled) now = raise bad_expiry
check_expiry _ now = ok tt

pub check_free : Option Lease → ℕ → Result TaskError Unit
unfolding check_expiry
check_free none now = ok tt
check_free (some lease) now = check_expiry lease.expires_at now

abbrev pub expiry : Moment → ℕ → ℕ
expiry m ttl = m.now + ttl * 1000000

abbrev pub new_lease : String → String → ℕ → Moment → Lease
new_lease token leaser ttl m = record {
  leaser = some (strip leaser);
  leased_at = some (to_seconds m.now);
  expires_at = some (at (expiry m ttl));
  lease_token = some token;
}

-- the record that `acquire_lease` stores
abbrev pub leased : String → String → ℕ → Moment → Task → Task
leased token leaser ttl m rec = record rec {
  status = "leased";
  lease = some (new_lease token leaser ttl m);
  updated_at = some (to_seconds m.written);
}

-- the checks of `acquire_lease`; a `ttl_seconds` below 0 is refused as 0 is
pub grant : String → String → ℕ → String → Moment → Store → Result TaskError Task
grant id leaser ttl token m s = do
  refuse (ltb ttl 1) bad_ttl
  refuse (strip leaser == "") bad_leaser
  refuse (not (is_record_id "tsk_" id)) bad_id
  rec ← require_task id s
  check_free rec.lease m.checked
  ok (leased token leaser ttl m rec)

-- The second file, written without a schema after the task has been replaced. Where its write
-- fails, the exception leaves the task as it is by then.
pub log_lease : String → String → String → ℕ → Moment → Exec TaskError Store String
log_lease id leaser token ttl m s = if m.log_fails then (raise log_failed, s) else (
  ok token,
  record s {
    leases =
        write token
          (record {
            id = token;
            task_id = id;
            leaser = strip leaser;
            leased_at = to_seconds m.logged;
            expires_at = at (expiry m ttl);
          })
          s.leases;
  },
)

module _ (valid : Task → Bool) where
  -- `token` is the new uuid.
  pub acquire_lease : String → String → ℕ → String → Moment → Exec TaskError Store String
  acquire_lease id leaser ttl token m s =
      let (r, s') = save valid id (grant id leaser ttl token m s) s in
      continue r (λ _ t. log_lease id leaser token ttl m t) s'

-- `rec.get("lease") or {}`: a lease with no field at all is as good as none
is_empty : Lease → Bool
is_empty lease =
    not (is_some lease.leaser)
    && not (is_some lease.leased_at)
    && not (is_some lease.expires_at)
    && not (is_some lease.lease_token)

active_lease : Option Lease → Option Lease
unfolding is_empty
active_lease none = none
active_lease (some lease) = if is_empty lease then none else some lease

check_token : Option Lease → Option String → Result TaskError Unit
check_token none given = raise no_lease
check_token (some lease) none = ok tt
check_token (some lease) (some token) = elim lease.lease_token [
  | none ↦ raise wrong_token
  | some held ↦ if held == token then ok tt else raise wrong_token
]

-- the checks of `release_lease`
pub freed : String → Option String → ℕ → Store → Result TaskError Task
freed id token now s = do
  rec ← require_task id s
  check_token (active_lease rec.lease) token
  ok (record rec { status = "pending"; updated_at = some (to_seconds now); lease = none })

module _ (valid : Task → Bool) where
  pub release_lease : String → Option String → ℕ → Exec TaskError Store Unit
  release_lease id token now s = save valid id (freed id token now s) s
