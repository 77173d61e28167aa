-- ===== src/Method/Collect/Canonical.antt =====
-- One canonical candidate for each key.
use polder_research_pipeline.Base.{
  ℕ, String, ◌≡◌, ◌≤◌, refl, sym, ap, subst, ◌∙◌, Bool, true, ◌&&◌, not, ◌||◌, List, [], ◌∷◌, ◌++◌,
  none, ◌==◌, arith, eq_iff, inl, inr, select, any, length, any-append, any-both, any-none, any-pos,
  first-any, select_once, Option-cases, both, either_true,
}
use polder_research_pipeline.Base.Result.{Result, ok, raise, after, passed, ok_injective}
use polder_research_pipeline.Base.Dir.{read, contents, contents-write, write_atomic-elim}
use polder_research_pipeline.Method.Records.{
  MethodError, foreign_search, Protocol, Candidate, Store, Checks,
}
use polder_research_pipeline.Method.Reading.{frozen_for_run}
use polder_research_pipeline.Method.Reading.Lists.{records-eq-ok}
use polder_research_pipeline.Method.Collect.{
  Hit, Keys, dedupe_key, hash_of, new_candidate, stored_candidates, candidates_of, search_at,
  canonical_of, status_of, candidate_record, commit_candidate, register_candidate,
}

pub is_canonical : String → String → Candidate → Bool
is_canonical run_id key c = c.run_id == run_id && (c.dedupe_key == key && c.status == "unique")

-- Each key of a run has at most one canonical candidate.
abbrev pub CanonicalOnce : List Candidate → Type 0
CanonicalOnce cs = (run_id key : String) → length (select (is_canonical run_id key) cs) ≤ 1

canonical-any :
    (run_id key : String) (cs : List Candidate)
    → any
        (λ (c : Candidate). c.status == "unique")
        (select (λ c. c.dedupe_key == key) (select (λ c. c.run_id == run_id) cs))
      ≡ any (is_canonical run_id key) cs
unfolding is_canonical
canonical-any run_id key cs =
    any-both (λ (c : Candidate). c.dedupe_key == key) (λ c. c.status == "unique")
      (λ c. c.dedupe_key == key && c.status == "unique") (select (λ c. c.run_id == run_id) cs)
      (λ c. refl)
    ∙ any-both (λ (c : Candidate). c.run_id == run_id)
        (λ c. c.dedupe_key == key && c.status == "unique") (is_canonical run_id key) cs (λ c. refl)

is_canonical-true :
    (run_id key : String) (c : Candidate)
    → is_canonical run_id key c ≡ true
    → (c.run_id ≡ run_id) × (c.dedupe_key ≡ key) × (c.status ≡ "unique")
unfolding is_canonical
is_canonical-true run_id key c h =
    ground (arith, eq_iff c.run_id run_id, eq_iff c.dedupe_key key, eq_iff c.status "unique")

canonical_then :
    (run_id key : String) (cs : List Candidate) (rec : Candidate)
    → rec.run_id ≡ run_id
    → rec.dedupe_key ≡ key
    → rec.status ≡ status_of (canonical_of key (select (λ (c : Candidate). c.run_id == run_id) cs))
    → (any (is_canonical run_id key) cs || is_canonical run_id key rec) ≡ true
unfolding is_canonical
canonical_then run_id key cs rec a b c =
    elim (Option-cases (canonical_of key (select (λ (c : Candidate). c.run_id == run_id) cs))) [
      | inl e ↦ either_true _ _ (
          both _ _ ((eq_iff _ _).1 a)
            (both _ _ ((eq_iff _ _).1 b) ((eq_iff _ _).1 (c ∙ ap status_of e))))
      | inr (x, e) ↦
          rw
            (sym (canonical-any run_id key cs)
              ∙ (first-any _
                    (select (λ c. c.dedupe_key == key) (select (λ c. c.run_id == run_id) cs))).1
                  x e)
            refl
    ]

abbrev pub key_of : Keys → Hit → String
key_of keys hit = dedupe_key keys hit.title hit.stable_identifiers hit.url

duplicate_ne_unique : ◌≡◌ {A = String} "duplicate" "unique" → ⊥
duplicate_ne_unique h = ground (arith, (eq_iff "duplicate" "unique").1 h)

-- a candidate that is unique is the first canonical one of its key
unique_first :
    (run_id key : String) (cs : List Candidate)
    → status_of (canonical_of key (select (λ (c : Candidate). c.run_id == run_id) cs)) ≡ "unique"
    → select (is_canonical run_id key) cs ≡ []
unique_first run_id key cs h =
    elim (Option-cases (canonical_of key (select (λ (c : Candidate). c.run_id == run_id) cs))) [
      | inl e ↦ any-none (is_canonical run_id key) cs (
          sym (canonical-any run_id key cs)
          ∙ (first-any _
                (select (λ c. c.dedupe_key == key) (select (λ c. c.run_id == run_id) cs))).0
              e)
      | inr (c, e) ↦ absurd (duplicate_ne_unique (sym (ap status_of e) ∙ h))
    ]

module _ (checks : Checks) where
  -- the record that `register_candidate` writes
  abbrev Registered : Keys → String → String → ℕ → Hit → Store → Candidate → Type 0
  Registered keys run_id id now hit s rec =
      (protocol : Protocol) × (rec
        ≡ new_candidate id run_id protocol now hit (key_of keys hit) (
            canonical_of (key_of keys hit)
              (select (λ (c : Candidate). c.run_id == run_id) (contents s.candidates))))

  candidate_record-Registered :
      (keys : Keys) (run_id id : String) (now : ℕ) (hit : Hit) (s : Store) (rec : Candidate)
      → candidate_record checks keys run_id id now hit s ≡ ok rec
      → Registered keys run_id id now hit s rec
  unfolding candidate_record candidates_of
  candidate_record-Registered keys run_id id now hit s rec h =
      after (frozen_for_run checks run_id true s) _ h λ bound _ h1.
        after (search_at checks hit.search_id s) _ h1 λ search _ h2.
          passed (not (search.run_id == run_id) || not (search.protocol_sha256 == hash_of bound.1))
            foreign_search _ h2
            λ _ h3. after (candidates_of checks run_id s) _ h3 λ candidates found h4. (
              bound.1,
              sym (ok_injective h4)
                  ∙ ap
                      (λ cs.
                        new_candidate id run_id bound.1 now hit (key_of keys hit)
                          (canonical_of (key_of keys hit) cs))
                      (records-eq-ok checks.candidate (λ c. c.id) (λ c. c.run_id) run_id
                        s.candidates candidates found),
            )

  commit_candidate-eq-ok :
      (r : Result MethodError Candidate) (id : String) (s s' : Store)
      → commit_candidate checks r s ≡ (ok id, s')
      → (rec : Candidate) × (r ≡ ok rec)
        × (read rec.id s.candidates ≡ none
            → contents s'.candidates ≡ contents s.candidates ++ rec ∷ [])
  unfolding commit_candidate stored_candidates
  commit_candidate-eq-ok (raise e) id s s' h = absurd (ground arith)
  commit_candidate-eq-ok (ok rec) id s s' h =
      elim (write_atomic-elim checks.candidate rec.id rec s.candidates (stored_candidates rec.id s)
        h) [
          | inr (e, wrote) ↦ absurd (ground arith)
          | inl (e, wrote) ↦ (
            rec,
            refl,
            λ fresh.
                sym (ap (λ x. contents x.1.candidates) wrote)
                ∙ contents-write rec.id rec s.candidates fresh,
          )
        ]

  registered :
      (keys : Keys) (run_id id id' : String) (now : ℕ) (hit : Hit) (s s' : Store)
      → read id s.candidates ≡ none
      → register_candidate checks keys run_id id now hit s ≡ (ok id', s')
      → (rec : Candidate) × Registered keys run_id id now hit s rec
        × (contents s'.candidates ≡ contents s.candidates ++ rec ∷ [])
  unfolding register_candidate
  registered keys run_id id id' now hit s s' fresh h =
      let (rec, e, stored) =
        commit_candidate-eq-ok (candidate_record checks keys run_id id now hit s) id' s s' h in
      let (protocol, same) = candidate_record-Registered keys run_id id now hit s rec e in
      (rec, (protocol, same), stored (ap (λ r. read r.id s.candidates) same ∙ fresh))

  -- Registering a candidate under a fresh id keeps it that each key of a run has at most one
  -- canonical candidate.
  pub register_candidate-CanonicalOnce :
      (keys : Keys) (run_id id id' : String) (now : ℕ) (hit : Hit) (s s' : Store)
      → read id s.candidates ≡ none
      → register_candidate checks keys run_id id now hit s ≡ (ok id', s')
      → CanonicalOnce (contents s.candidates)
      → CanonicalOnce (contents s'.candidates)
  register_candidate-CanonicalOnce keys run_id id id' now hit s s' fresh h once run2 key2 =
      let (rec, (protocol, same), more) = registered keys run_id id id' now hit s s' fresh h in
      subst (λ xs. length (select (is_canonical run2 key2) xs) ≤ 1) (sym more)
        (select_once (is_canonical run2 key2) (contents s.candidates) rec (once run2 key2) (λ e.
          let (a, b, c) = is_canonical-true run2 key2 rec e in
          rw (sym a ∙ ap (λ r. r.run_id) same, sym b ∙ ap (λ r. r.dedupe_key) same)
            (unique_first run_id (key_of keys hit) (contents s.candidates)
              (sym (ap (λ r. r.status) same) ∙ c))))

  -- Once a hit is registered, its key has exactly one canonical candidate in the run, if no key of
  -- the run had two before.
  pub register_candidate-canonical :
      (keys : Keys) (run_id id id' : String) (now : ℕ) (hit : Hit) (s s' : Store)
      → read id s.candidates ≡ none
      → CanonicalOnce (contents s.candidates)
      → register_candidate checks keys run_id id now hit s ≡ (ok id', s')
      → length (select (is_canonical run_id (key_of keys hit)) (contents s'.candidates)) ≡ 1
  register_candidate-canonical keys run_id id id' now hit s s' fresh once h =
      let (rec, (protocol, same), more) = registered keys run_id id id' now hit s s' fresh h in
      let at_most =
        register_candidate-CanonicalOnce keys run_id id id' now hit s s' fresh h once run_id
          (key_of keys hit) in
      let at_least : 1
          ≤ length (select (is_canonical run_id (key_of keys hit)) (contents s'.candidates)) =
        any-pos (is_canonical run_id (key_of keys hit)) (contents s'.candidates) (
          ap (any (is_canonical run_id (key_of keys hit))) more
          ∙ any-append (is_canonical run_id (key_of keys hit)) (contents s.candidates) rec
          ∙ canonical_then run_id (key_of keys hit) (contents s.candidates) rec
              (ap (λ r. r.run_id) same) (ap (λ r. r.dedupe_key) same) (ap (λ r. r.status) same)) in
      omega (arith, at_most, at_least)
