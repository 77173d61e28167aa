-- ===== src/Tasks/Leasing.antt =====
-- Leases of tasks/__init__.py: one holder at a time, and a token that only the holder has.
use polder_research_pipeline.Base.{
  ℕ, ◌+◌, ◌*◌, ◌<◌, String, ◌≡◌, ap, ◌≢◌, Bool, true, false, none, some, inl, inr, arith,
  is_record_id, strip, ◌==◌, ==_self, if◌then◌else◌, eq_iff,
}
use polder_research_pipeline.Base.Result.{ok, raise, Result-cases}
use polder_research_pipeline.Base.Dir.{parsed, read, write, read-write}
use polder_research_pipeline.Base.Time.{to_seconds}
use polder_research_pipeline.Tasks.{
  Task, Store, Moment, already_leased, wrong_token, invalid_record, acquire_lease, release_lease,
  require_task, save, leased, grant, freed, log_lease, check_free, active_lease, check_token,
  check_expiry,
}

-- what was found is filed under its own id, which has the form of a task id
pub require_task-eq-ok :
    (id : String) (s : Store) (rec : Task)
    → require_task id s ≡ ok rec
    → (is_record_id "tsk_" id ≡ true) × (read id s.tasks ≡ some (parsed rec)) × (rec.id ≡ id)
unfolding require_task
require_task-eq-ok id s rec h = ground (arith, eq_iff rec.id id)

pub require_task-read :
    (id : String) (rec : Task) (s : Store)
    → is_record_id "tsk_" id ≡ true
    → rec.id ≡ id
    → read id s.tasks ≡ some (parsed rec)
    → require_task id s ≡ ok rec
unfolding require_task
require_task-read id rec s form own there = simp (there, form) (rw own (simp ==_self))

pub save_lem :
    (valid : Task → Bool) (id : String) (rec : Task) (s : Store)
    → save valid id (ok rec) s ≡ (
        if valid rec
        then (ok tt, record s { tasks = write id rec s.tasks })
        else (raise invalid_record, s))
unfolding save
save_lem valid id rec s = ground arith

-- What a successful `acquire_lease` found and stored.
pub record Granted (id leaser : String) (ttl : ℕ) (token : String) (m : Moment) (s : Store)
    (new : Task) : Type 0 where
  pub rec : Task
  pub positive : 0 < ttl
  pub found : require_task id s ≡ ok rec
  pub free : check_free rec.lease m.checked ≡ ok tt
  pub new_lem : new ≡ leased token leaser ttl m rec

pub grant-eq-ok :
    (id leaser : String) (ttl : ℕ) (token : String) (m : Moment) (s : Store) {new : Task}
    → grant id leaser ttl token m s ≡ ok new
    → Granted id leaser ttl token m s new
unfolding grant
grant-eq-ok id leaser ttl token m s h = elim (Result-cases (require_task id s)) [
  | inl (rec, found) ↦ record {
    rec = rec;
    positive = ground arith;
    found = found;
    free = ground arith;
    new_lem = ground arith;
  }
  | inr (e, refused) ↦ absurd (ground arith)
]

record Acquired (valid : Task → Bool) (id leaser : String) (ttl : ℕ) (token : String) (m : Moment)
    (s t : Store) (r : String) : Type 0 where
  new : Task
  granted : grant id leaser ttl token m s ≡ ok new
  is_valid : valid new ≡ true
  returned : r ≡ token
  stored : t.tasks ≡ write id new s.tasks

acquire_lease-Acquired :
    (valid : Task → Bool) (id leaser : String) (ttl : ℕ) (token : String) (m : Moment) (s t : Store)
    (r : String)
    → acquire_lease valid id leaser ttl token m s ≡ (ok r, t)
    → Acquired valid id leaser ttl token m s t r
unfolding acquire_lease save log_lease
acquire_lease-Acquired valid id leaser ttl token m s t r h =
    elim (Result-cases (grant id leaser ttl token m s)) [
      | inl (new, granted) ↦ record {
        new = new;
        granted = granted;
        is_valid = ground (arith, save_lem valid id new s);
        returned = ground (arith, save_lem valid id new s);
        stored = ground (arith, save_lem valid id new s);
      }
      | inr (e, refused) ↦ absurd (ground arith)
    ]

-- In a store where the task is as an acquisition left it, the task has the lease of that acquisition.
granted-found :
    (valid : Task → Bool) (id leaser : String) (ttl : ℕ) (token r : String) (m : Moment)
    (s t u : Store)
    → acquire_lease valid id leaser ttl token m s ≡ (ok r, t)
    → read id u.tasks ≡ read id t.tasks
    → (rec : Task) × (require_task id s ≡ ok rec)
      × (require_task id u ≡ ok (leased token leaser ttl m rec))
      × (is_record_id "tsk_" id ≡ true)
      × (rec.id ≡ id)
      × (valid (leased token leaser ttl m rec) ≡ true)
      × (r ≡ token)
granted-found valid id leaser ttl token r m s t u won same =
    let a = acquire_lease-Acquired valid id leaser ttl token m s t r won in
    let g = grant-eq-ok id leaser ttl token m s a.granted in
    let (form, _, own) = require_task-eq-ok id s g.rec g.found in
    let new = leased token leaser ttl m g.rec in
    let there : read id u.tasks ≡ some (parsed new) =
      simp (same, a.stored, read-write, ==_self) (ap (λ t. some (parsed t)) g.new_lem) in
    (
      g.rec,
      g.found,
      require_task-read id new u form own there,
      form,
      own,
      rw g.new_lem at a.is_valid,
      a.returned,
    )

-- While a granted lease has not expired and the task is as its acquisition left it, every other
-- acquisition of the task with a name and a positive time to live is refused, by whomever, and
-- changes nothing.
pub acquire_lease_excludes :
    (valid : Task → Bool) (id leaser : String) (ttl : ℕ) (token r : String) (m : Moment)
    (s t u : Store) (leaser' : String) (ttl' : ℕ) (token' : String) (m' : Moment)
    → acquire_lease valid id leaser ttl token m s ≡ (ok r, t)
    → read id u.tasks ≡ read id t.tasks
    → m'.checked < m.now + ttl * 1000000
    → 0 < ttl'
    → (strip leaser' == "") ≡ false
    → acquire_lease valid id leaser' ttl' token' m' u ≡ (raise already_leased, u)
unfolding acquire_lease grant save check_free check_expiry
acquire_lease_excludes valid id leaser ttl token r m s t u leaser' ttl' token' m' won same early pos
      named =
    let (rec, _, found, form, _, _, _) =
      granted-found valid id leaser ttl token r m s t u won same in
    rw (found, form, named) (ground arith)

-- A token other than the one that the acquisition returned does not release the lease.
pub release_lease-stale :
    (valid : Task → Bool) (id leaser : String) (ttl : ℕ) (token r : String) (m : Moment)
    (s t u : Store) (other : String) (now : ℕ)
    → acquire_lease valid id leaser ttl token m s ≡ (ok r, t)
    → read id u.tasks ≡ read id t.tasks
    → other ≢ r
    → release_lease valid id (some other) now u ≡ (raise wrong_token, u)
unfolding release_lease freed save check_token active_lease
release_lease-stale valid id leaser ttl token r m s t u other now won same differs =
    let (rec, _, found, form, _, _, e) =
      granted-found valid id leaser ttl token r m s t u won same in
    rw found (ground (arith, eq_iff token other))

abbrev pub pending : ℕ → Task → Task
pending now rec = record rec {
  status = "pending";
  updated_at = some (to_seconds now);
  lease = none;
}
