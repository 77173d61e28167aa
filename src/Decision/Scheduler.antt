-- ===== src/Decision/Scheduler.antt =====
-- `LayaBatchScheduler` of decision/scheduler.py. `P` is what a request submits to the router, but for
-- its model; the router is a parameter, and `none` is a call of it that raises.
use polder_research_pipeline.Base.{
  ℕ, suc, ◌+◌, ◌-◌, String, Bool, true, false, not, ◌&&◌, ◌||◌, Option, none, some, List, [], ◌∷◌,
  ◌++◌, map, ◌==◌, eqb, ltb, leb, if◌then◌else◌, length,
}
use polder_research_pipeline.Base.Result.{Result, ok, raise, refuse, ◌>>=◌, ◌>>◌}
use polder_research_pipeline.Base.Exec.{Exec}
pub mod Ordered
pub mod Tests

pub data SchedulerError : Type 0 where
  bad_state bad_questions bad_max_items router_failed mismatched : SchedulerError

pub record Request (P : Type 0) : Type 0 where
  pub payload : P
  pub has_state : Bool
  pub has_questions : Bool
  pub compatibility_key : Option String
  pub model : Option String

pub record Scheduler (P : Type 0) : Type 0 where
  pub batch_size : ℕ
  pub items : List (Request P)

-- a model that is named, and is not the local marker `auto`
abbrev pub named_model : Option String → Option String
named_model none = none
named_model (some m) = if m == "" || m == "auto" then none else some m

abbrev pub Groups : Type 0 → Type 0
Groups P = List (String × List (ℕ × Request P))

abbrev pub cap : Option ℕ → ℕ → ℕ
cap none batch_size = batch_size
cap (some max_items) batch_size = if leb max_items batch_size then max_items else batch_size

module _ {P : Type 0} where
  unfoldable pub submit : Request P → Exec SchedulerError (Scheduler P) ℕ
  submit request s =
      elim (refuse (not request.has_state) bad_state
        >> refuse (not request.has_questions) bad_questions) [
          | raise e ↦ (raise e, s)
          | ok _ ↦ (ok (length s.items), record s { items = s.items ++ request ∷ [] })
        ]

  unfoldable pub take : ℕ → List (Request P) → List (Request P)
  take ℕ.zero xs = []
  take (ℕ.suc n) [] = []
  take (ℕ.suc n) (x ∷ xs) = x ∷ take n xs

  unfoldable pub drop : ℕ → List (Request P) → List (Request P)
  drop ℕ.zero xs = xs
  drop (ℕ.suc n) [] = []
  drop (ℕ.suc n) (x ∷ xs) = drop n xs

  abbrev pub key_of : Request P → String
  key_of request = elim request.compatibility_key [ none ↦ "default" | some key ↦ key ]

  -- `groups[key].append(item)`
  unfoldable pub add : String → ℕ × Request P → Groups P → Groups P
  add key item [] = (key, item ∷ []) ∷ []
  add key item ((k, items) ∷ groups) =
      if k == key then (k, items ++ item ∷ []) ∷ groups else (k, items) ∷ add key item groups

  unfoldable pub grouped : ℕ → List (Request P) → Groups P → Groups P
  unfolding add
  grouped n [] groups = groups
  grouped n (request ∷ requests) groups =
      grouped (suc n) requests (add (key_of request) (n, request) groups)

  -- what the router is given
  abbrev pub submitted : ℕ × Request P → P × Option String
  submitted item = (item.1.payload, named_model item.1.model)

module _ {R : Type 0} where
  -- `output[index] = result`
  unfoldable pub set_at : ℕ → R → List (Option R) → List (Option R)
  set_at n r [] = []
  set_at ℕ.zero r (x ∷ xs) = some r ∷ xs
  set_at (ℕ.suc n) r (x ∷ xs) = x ∷ set_at n r xs

  unfoldable pub present : List (Option R) → List R
  present [] = []
  present (none ∷ xs) = present xs
  present (some r ∷ xs) = r ∷ present xs

module _ {P R : Type 0} where
  -- the loop over the items of a group and their results
  unfoldable pub place :
      List (ℕ × Request P) → List R → List (Option R) → Result SchedulerError (List (Option R))
  unfolding set_at
  place [] [] output = ok output
  place [] (r ∷ rs) output = raise mismatched
  place (item ∷ items) [] output = raise mismatched
  place (item ∷ items) (r ∷ rs) output = place items rs (set_at item.0 r output)

  -- the reply of the router for a group
  unfoldable pub place_results :
      Option (List R)
      → List (ℕ × Request P)
      → List (Option R)
      → Result SchedulerError (List (Option R))
  unfolding place
  place_results none items output = raise router_failed
  place_results (some results) items output = do
    refuse (not (eqb (length results) (length items))) mismatched
    place items results output

  -- `[None] * n`
  unfoldable pub nones : List (Request P) → List (Option R)
  nones [] = []
  nones (x ∷ xs) = none ∷ nones xs

module _ {P R : Type 0} (predict_batch : List (P × Option String) → Option (List R)) where
  unfoldable pub run_groups : Groups P → List (Option R) → Result SchedulerError (List (Option R))
  unfolding place_results
  run_groups [] output = ok output
  run_groups ((key, items) ∷ groups) output = do
    placed ← place_results (predict_batch (map submitted items)) items output
    run_groups groups placed

  unfoldable pub predicted : List (Request P) → Result SchedulerError (List R)
  unfolding run_groups nones present grouped
  predicted selected = do
    output ← run_groups (grouped 0 selected []) (nones selected)
    ok (present output)

  -- The selected requests leave the queue, also when the router fails.
  unfoldable pub flush_items :
      Option ℕ → List (Request P) → Exec SchedulerError (Scheduler P) (List R)
  unfolding predicted take drop
  flush_items max_items [] s = (ok [], s)
  flush_items max_items (request ∷ requests) s =
      let n = cap max_items s.batch_size in
      if ltb n 1 then (raise bad_max_items, s) else (
        predicted (take n (request ∷ requests)),
        record s { items = drop n (request ∷ requests) },
      )

  unfoldable pub flush : Option ℕ → Exec SchedulerError (Scheduler P) (List R)
  flush max_items s = flush_items max_items s.items s
