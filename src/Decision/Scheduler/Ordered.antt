-- ===== src/Decision/Scheduler/Ordered.antt =====
-- The results of `flush` stand in the order of submission.
use polder_research_pipeline.Base.{
  ℕ, suc, ◌+◌, ◌≤◌, ◌<◌, String, Bool, true, false, not, ◌&&◌, ◌||◌, Option, none, some, List, [],
  ◌∷◌, ◌++◌, map, ◌==◌, eqb, ltb, leb, any, if◌then◌else◌, length, ◌≡◌, refl, sym, ◌∙◌, ap, subst,
  arith, Bool-cases, inl, inr, if-true, if-false,
}
use polder_research_pipeline.Base.Sets.{All}
use polder_research_pipeline.Base.Result.{ok, refuse, ◌>>=◌, ◌>>◌}
use polder_research_pipeline.Decision.Scheduler.{
  mismatched, Request, Scheduler, Groups, take, drop, cap, key_of, add, grouped, submitted, set_at,
  place, place_results, run_groups, nones, present, predicted, flush_items, flush,
}

module _ {P R : Type 0} (f : P × Option String → R) where
  -- what the router makes of one request
  abbrev pub answer : Request P → R
  answer request = f (submitted (0, request))

  at_index : ℕ → List (Request P) → Option (Request P)
  at_index i [] = none
  at_index ℕ.zero (r ∷ rs) = some r
  at_index (ℕ.suc i) (r ∷ rs) = at_index i rs

  -- the output where the marked indices have their result
  view : (ℕ → Bool) → ℕ → List (Request P) → List (Option R)
  view m n [] = []
  view m n (r ∷ rs) = (if m n then some (answer r) else none) ∷ view m (suc n) rs

  view-ext :
      (m q : ℕ → Bool) (n : ℕ) (rs : List (Request P))
      → ((j : ℕ) → n ≤ j → m j ≡ q j)
      → view m n rs ≡ view q n rs
  unfolding view
  view-ext m q n [] same = refl
  view-ext m q n (r ∷ rs) same =
      ap (λ b. (if b then some (answer r) else none) ∷ view m (suc n) rs) (same n (omega arith))
      ∙ ap (λ out. (if q n then some (answer r) else none) ∷ out)
          (view-ext m q (suc n) rs (λ j h. same j (omega (arith, h))))

  abbrev mark : ℕ → (ℕ → Bool) → ℕ → Bool
  mark i m j = m j || eqb i j

  set_at-view :
      (m : ℕ → Bool) (n i : ℕ) (r : Request P) (rs : List (Request P))
      → at_index i rs ≡ some r
      → set_at i (answer r) (view m n rs) ≡ view (mark (n + i) m) n rs
  unfolding set_at view at_index
  set_at-view m n i r [] h = absurd (ground (arith, h))
  set_at-view m n ℕ.zero r (x ∷ rs) h =
      let same : x ≡ r = some_same h in
      ap (λ y. some (answer y) ∷ view m (suc n) rs) (sym same)
      ∙ ap (λ b. (if b then some (answer x) else none) ∷ view m (suc n) rs) (marked n)
      ∙ ap (λ out. (if mark (n + 0) m n then some (answer x) else none) ∷ out)
          (view-ext m (mark (n + 0) m) (suc n) rs (λ j h. ground (arith, h)))
    where
      some_same : {a b : Request P} → (◌≡◌ {A = Option (Request P)} (some a) (some b)) → a ≡ b
      some_same h = cc

      marked : (n : ℕ) → true ≡ mark (n + 0) m n
      marked n = ground arith
  set_at-view m n (ℕ.suc i) r (x ∷ rs) h =
      ap (λ out. (if m n then some (answer x) else none) ∷ out)
        (set_at-view m (suc n) i r rs h
          ∙ view-ext (mark (suc n + i) m) (mark (n + suc i) m) (suc n) rs
              (λ j h. ground (arith, h)))
      ∙ ap (λ b. (if b then some (answer x) else none) ∷ view (mark (n + suc i) m) (suc n) rs)
          (ground arith)

  -- Each item is the request at its index.
  abbrev AreSelected : List (Request P) → List (ℕ × Request P) → Type 0
  AreSelected sel items = All (λ item. at_index item.0 sel ≡ some item.1) items

  abbrev AllSelected : List (Request P) → Groups P → Type 0
  AllSelected sel groups = All (λ group. AreSelected sel group.1) groups

  marks : List (ℕ × Request P) → (ℕ → Bool) → ℕ → Bool
  marks [] m = m
  marks (item ∷ items) m = marks items (mark item.0 m)

  marks_all : Groups P → (ℕ → Bool) → ℕ → Bool
  unfolding marks
  marks_all [] m = m
  marks_all ((key, items) ∷ groups) m = marks_all groups (marks items m)

  plus_zero : (i : ℕ) → 0 + i ≡ i
  plus_zero i = omega arith

  place-view :
      (sel : List (Request P)) (items : List (ℕ × Request P)) (m : ℕ → Bool)
      → AreSelected sel items
      → place items (map f (map submitted items)) (view m 0 sel) ≡ ok (view (marks items m) 0 sel)
  unfolding place marks
  place-view sel [] m all = refl
  place-view sel ((i, r) ∷ items) m (here, all) =
      ap (place items (map f (map submitted items)))
        (set_at-view m 0 i r sel here ∙ ap (λ k. view (mark k m) 0 sel) (plus_zero i))
      ∙ place-view sel items (mark i m) all

  same_length :
      (items : List (ℕ × Request P))
      → eqb (length (map f (map submitted items))) (length items) ≡ true
  same_length [] = refl
  same_length (item ∷ items) = ground (arith, same_length items)

  module _ (predict_batch : List (P × Option String) → Option (List R))
      (in_order : (requests : List (P × Option String))
        → predict_batch requests ≡ some (map f requests)) where
    run_groups-view :
        (sel : List (Request P)) (groups : Groups P) (m : ℕ → Bool)
        → AllSelected sel groups
        → run_groups predict_batch groups (view m 0 sel) ≡ ok (view (marks_all groups m) 0 sel)
    unfolding run_groups marks_all place_results
    run_groups-view sel [] m all = refl
    run_groups-view sel ((key, items) ∷ groups) m (here, all) =
        ap (λ o. place_results o items (view m 0 sel) >>= run_groups predict_batch groups)
          (in_order (map submitted items))
        ∙ ap
            (λ b.
              refuse (not b) mismatched
              >> place items (map f (map submitted items)) (view m 0 sel)
              >>= run_groups predict_batch groups)
            (same_length items)
        ∙ ap (λ r. r >>= run_groups predict_batch groups) (place-view sel items m here)
        ∙ run_groups-view sel groups (marks items m) all

  -- the index is in one of the groups
  abbrev has : ℕ → Groups P → Bool
  has j groups = any (λ group. any (λ item. eqb item.0 j) group.1) groups

  marks-any :
      (items : List (ℕ × Request P)) (m : ℕ → Bool) (j : ℕ)
      → marks items m j ≡ (m j || any (λ item. eqb item.0 j) items)
  unfolding marks
  marks-any [] m j = ground arith
  marks-any (item ∷ items) m j = marks-any items (mark item.0 m) j ∙ ground arith

  marks_all-has :
      (groups : Groups P) (m : ℕ → Bool) (j : ℕ) → marks_all groups m j ≡ (m j || has j groups)
  unfolding marks_all
  marks_all-has [] m j = ground arith
  marks_all-has ((key, items) ∷ groups) m j =
      marks_all-has groups (marks items m) j
      ∙ ap (λ b. b || has j groups) (marks-any items m j)
      ∙ ground arith

  any-snoc :
      (j : ℕ) (items : List (ℕ × Request P)) (item : ℕ × Request P)
      → any (λ x. eqb x.0 j) (items ++ item ∷ []) ≡ (any (λ x. eqb x.0 j) items || eqb item.0 j)
  any-snoc j [] item = ground arith
  any-snoc j (x ∷ items) item = ground (arith, any-snoc j items item)

  has-add :
      (j : ℕ) (key : String) (item : ℕ × Request P) (groups : Groups P)
      → has j (add key item groups) ≡ (has j groups || eqb item.0 j)
  unfolding add
  has-add j key item [] = ground arith
  has-add j key item ((k, items) ∷ groups) = elim (Bool-cases (k == key)) [
    | inl e ↦
        ap (has j) (if-true _ _ e)
        ∙ ap (λ b. b || has j groups) (any-snoc j items item)
        ∙ ground arith
    | inr e ↦
        ap (has j) (if-false _ _ e)
        ∙ ap (λ b. any (λ x. eqb x.0 j) items || b) (has-add j key item groups)
        ∙ ground arith
  ]

  has-grouped :
      (j n : ℕ) (rs : List (Request P)) (groups : Groups P)
      → has j (grouped n rs groups) ≡ (has j groups || (leb n j && ltb j (n + length rs)))
  unfolding grouped
  has-grouped j n [] groups = ground arith
  has-grouped j n (r ∷ rs) groups =
      has-grouped j (suc n) rs (add (key_of r) (n, r) groups)
      ∙ ap (λ b. b || (leb (suc n) j && ltb j (suc n + length rs)))
          (has-add j (key_of r) (n, r) groups)
      ∙ ground arith

  add-AllSelected :
      (sel : List (Request P)) (key : String) (item : ℕ × Request P) (groups : Groups P)
      → at_index item.0 sel ≡ some item.1
      → AllSelected sel groups
      → AllSelected sel (add key item groups)
  unfolding add
  add-AllSelected sel key item [] here all = ((here, tt), tt)
  add-AllSelected sel key item ((k, items) ∷ groups) here (first, all) =
      elim (Bool-cases (k == key)) [
        | inl e ↦ subst (AllSelected sel) (sym (if-true _ _ e)) (snoc items first, all)
        | inr e ↦
            subst (AllSelected sel) (sym (if-false _ _ e))
              (first, add-AllSelected sel key item groups here all)
      ]
    where
      snoc :
          (items : List (ℕ × Request P))
          → AreSelected sel items
          → AreSelected sel (items ++ item ∷ [])
      snoc [] all = (here, tt)
      snoc (x ∷ items) (h, all) = (h, snoc items all)

  grouped-AllSelected :
      (sel : List (Request P)) (n : ℕ) (rs : List (Request P)) (groups : Groups P)
      → ((i : ℕ) → at_index (n + i) sel ≡ at_index i rs)
      → AllSelected sel groups
      → AllSelected sel (grouped n rs groups)
  unfolding grouped at_index
  grouped-AllSelected sel n [] groups suffix all = all
  grouped-AllSelected sel n (r ∷ rs) groups suffix all =
      grouped-AllSelected sel (suc n) rs (add (key_of r) (n, r) groups)
        (λ i. ap (λ k. at_index k sel) (omega arith) ∙ suffix (suc i))
        (add-AllSelected sel (key_of r) (n, r) groups
          (ap (λ k. at_index k sel) (omega arith) ∙ suffix 0) all)

  present-view :
      (m : ℕ → Bool) (n : ℕ) (rs : List (Request P))
      → ((j : ℕ) → n ≤ j → j < n + length rs → m j ≡ true)
      → present (view m n rs) ≡ map answer rs
  unfolding view present
  present-view m n [] full = refl
  present-view m n (r ∷ rs) full =
      ap (λ b. present ((if b then some (answer r) else none) ∷ view m (suc n) rs))
        (full n (omega arith) (omega arith))
      ∙ ap (λ out. answer r ∷ out)
          (present-view m (suc n) rs
            (λ j low high. full j (omega (arith, low)) (omega (arith, high))))

  nones-view : (n : ℕ) (rs : List (Request P)) → nones rs ≡ view (λ _. false) n rs
  unfolding nones view
  nones-view n [] = refl
  nones-view n (r ∷ rs) = ap (λ out. none ∷ out) (nones-view (suc n) rs)

  predicted-ordered :
      (predict_batch : List (P × Option String) → Option (List R))
      → ((requests : List (P × Option String)) → predict_batch requests ≡ some (map f requests))
      → (sel : List (Request P)) → predicted predict_batch sel ≡ ok (map answer sel)
  unfolding predicted at_index
  predicted-ordered predict_batch in_order sel =
      ap (λ out. run_groups predict_batch (grouped 0 sel []) out >>= λ o. ok (present o))
        (nones-view 0 sel)
      ∙ ap (λ r. r >>= λ o. ok (present o))
          (run_groups-view predict_batch in_order sel (grouped 0 sel []) (λ _. false)
            (grouped-AllSelected sel 0 sel [] (λ i. ap (λ k. at_index k sel) (plus_zero i)) tt))
      ∙ ap (λ rs. ok rs)
          (present-view (marks_all (grouped 0 sel []) (λ _. false)) 0 sel λ j low high.
            marks_all-has (grouped 0 sel []) (λ _. false) j
            ∙ has-grouped j 0 sel []
            ∙ ground (arith, low, high))

take-nil : {P : Type 0} (n : ℕ) → ◌≡◌ {A = List (Request P)} (take n []) []
unfolding take
take-nil ℕ.zero = refl
take-nil (ℕ.suc n) = refl

drop-nil : {P : Type 0} (n : ℕ) → ◌≡◌ {A = List (Request P)} (drop n []) []
unfolding drop
drop-nil ℕ.zero = refl
drop-nil (ℕ.suc n) = refl

flush_items-ordered :
    {P R : Type 0} (f : P × Option String → R)
    (predict_batch : List (P × Option String) → Option (List R)) (max_items : Option ℕ) (size : ℕ)
    → ((requests : List (P × Option String)) → predict_batch requests ≡ some (map f requests))
    → 1 ≤ cap max_items size
    → (items : List (Request P))
    → flush_items predict_batch max_items items (record { batch_size = size; items = items }) ≡ (
      ok (map (answer f) (take (cap max_items size) items)),
      record { batch_size = size; items = drop (cap max_items size) items },
    )
unfolding flush_items
flush_items-ordered f predict_batch max_items size in_order positive [] =
    ap (λ rest. (ok [], record { batch_size = size; items = rest }))
      (sym (drop-nil (cap max_items size)))
    ∙ ap
        (λ first. (
          ok (map (answer f) first),
          record { batch_size = size; items = drop (cap max_items size) [] },
        ))
        (sym (take-nil (cap max_items size)))
flush_items-ordered f predict_batch max_items size in_order positive (x ∷ xs) =
    let enough : ltb (cap max_items size) 1 ≡ false = ground (arith, positive) in
    if-false _ _ enough
    ∙ ap (λ r. (r, record { batch_size = size; items = drop (cap max_items size) (x ∷ xs) }))
        (predicted-ordered f predict_batch in_order (take (cap max_items size) (x ∷ xs)))

-- Where the router gives one result for each request, in their order, flush gives the results of the
-- first requests of the queue, as many as the cap allows, in the order of submission, and leaves the
-- others queued, whatever groups their keys make. The cap is at least one.
pub flush-ordered :
    {P R : Type 0} (f : P × Option String → R)
    (predict_batch : List (P × Option String) → Option (List R)) (max_items : Option ℕ)
    (s : Scheduler P)
    → ((requests : List (P × Option String)) → predict_batch requests ≡ some (map f requests))
    → 1 ≤ cap max_items s.batch_size
    → flush predict_batch max_items s ≡ (
      ok (map (answer f) (take (cap max_items s.batch_size) s.items)),
      record s { items = drop (cap max_items s.batch_size) s.items },
    )
unfolding flush
flush-ordered f predict_batch max_items s in_order positive =
    flush_items-ordered f predict_batch max_items s.batch_size in_order positive s.items
