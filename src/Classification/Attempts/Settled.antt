-- ===== src/Classification/Attempts/Settled.antt =====
-- What a call of `classify_text` stores, and that a settled attempt is not repeated.
use polder_research_pipeline.Base.{
  both, some_injective, ℕ, ◌<◌, ◌≤◌, String, Bool, true, ◌&&◌, Option, none, some, ◌⊎◌, inl, inr,
  List, [], ◌∷◌, ◌++◌, ◌==◌, ltb, if◌then◌else◌, first, select, ◌≡◌, refl, sym, ◌∙◌, ap, subst,
  arith, ==_self, Bool-cases, if-true, if-false,
}
use polder_research_pipeline.Base.Sets.{All, All-map}
use polder_research_pipeline.Base.Result.{Result, ok, raise, ok_injective}
use polder_research_pipeline.Base.Dir.{
  Dir, read, write, write_atomic-elim, contents, contents-write,
}
use polder_research_pipeline.Classification.Records.{
  ClassError, Labels, FieldDecision, Subject, Classification,
}
use polder_research_pipeline.Classification.Attempts.{
  Reply, Setup, is_settled, of_key, settled, attempt_of, later, previous, next_attempt, stored,
  request, decided, attempt_record, kept_or_new, attempted, proceed, classify_text,
}

first-snoc :
    {A : Type 0} (p : A → Bool) (xs : List A) (x : A)
    → first p xs ≡ none
    → p x ≡ true
    → first p (xs ++ x ∷ []) ≡ some x
first-snoc p [] x h px = ground (arith, px)
first-snoc p (y ∷ ys) x h px = ground (arith, first-snoc p ys x, px)

≤_trans : {a b c : ℕ} → a ≤ b → b ≤ c → a ≤ c
≤_trans p q = omega (arith, p, q)

first-holds :
    {A : Type 0} (p q : A → Bool) (xs : List A) (x : A)
    → first (λ y. p y && q y) xs ≡ some x
    → q x ≡ true
first-holds p q [] x h = cc
first-holds p q (y ∷ ys) x h = elim (Bool-cases (p y && q y)) [
  | inl e ↦
      let same : y ≡ x = some_injective (ground (arith, e, h)) in
      subst (λ z. q z ≡ true) same (ground (arith, e))
  | inr e ↦ first-holds p q ys x (ground (arith, e, h))
]

module _ {S : Type 0} (setup : Setup S) where
  -- a record that a call gave: a settled one that was there, or the new attempt, which is written
  pub record Given (id : String) (now : ℕ) (predict : String → Reply S) (made : Reply S)
      (given : Option String) (subject : Subject) (labels : Option Labels) (flagged : Bool)
      (d d' : Dir (Classification S)) (rec : Classification S) : Type 0 where
    pub provider : String
    pub asked : request setup given subject labels flagged ≡ ok (some provider)
    pub from :
        ((settled (setup.fingerprint subject labels provider) d ≡ some rec) × (d' ≡ d))
        ⊎ ((settled (setup.fingerprint subject labels provider) d ≡ none)
            × (rec
                ≡ attempt_record setup id now
                    (setup.fingerprint subject labels provider)
                    subject
                    provider
                    (previous
                      (select (of_key (setup.fingerprint subject labels provider)) (contents d)))
                    (decided setup predict made provider))
            × (d' ≡ write id rec d))

  kept_or_new-eq-ok :
      (id : String) (now : ℕ) (subject : Subject) (provider key : String)
      (fields : Result ClassError (List (String × FieldDecision S)))
      (old : Option (Classification S)) (d d' : Dir (Classification S)) (rec : Classification S)
      → kept_or_new setup id now subject provider key fields old d ≡ (ok (some rec), d')
      → ((old ≡ some rec) × (d' ≡ d))
        ⊎ ((old ≡ none)
            × (rec
                ≡ attempt_record setup id now key subject provider
                    (previous (select (of_key key) (contents d)))
                    fields)
            × (d' ≡ write id rec d))
  unfolding kept_or_new stored
  kept_or_new-eq-ok id now subject provider key fields (some old) d d' rec h =
      inl (ok_injective (ap (λ x. x.0) h), sym (ap (λ x. x.1) h))
  kept_or_new-eq-ok id now subject provider key fields none d d' rec h =
      let new =
        attempt_record setup id now key subject provider
          (previous (select (of_key key) (contents d))) fields in
      elim (write_atomic-elim setup.valid id new d (stored new d) h) [
        | inl (_, e) ↦
            let same = some_injective (ok_injective (ap (λ x. x.0) e)) in
            inr (refl, sym same, sym (ap (λ x. x.1) e) ∙ ap (λ r. write id r d) same)
        | inr (_, e) ↦ absurd (ground (arith, ap (λ x. x.0) e))
      ]

  pub classify_text-Given :
      (id : String) (now : ℕ) (predict : String → Reply S) (made : Reply S) (given : Option String)
      (subject : Subject) (labels : Option Labels) (flagged : Bool) (d d' : Dir (Classification S))
      (rec : Classification S)
      → classify_text setup id now predict made given subject labels flagged d ≡ (ok (some rec), d')
      → Given id now predict made given subject labels flagged d d' rec
  unfolding classify_text proceed attempted
  classify_text-Given id now predict made given subject labels flagged d d' rec h =
      go (request setup given subject labels flagged) refl h
    where
      go :
          (r : Result ClassError (Option String))
          → request setup given subject labels flagged ≡ r
          → proceed setup id now predict made subject labels r d ≡ (ok (some rec), d')
          → Given id now predict made given subject labels flagged d d' rec
      go (raise e) asked p = absurd (ground (arith, ap (λ x. x.0) p))
      go (ok none) asked p = absurd (ground (arith, ap (λ x. x.0) p))
      go (ok (some provider)) asked p = record {
        provider = provider;
        asked = asked;
        from =
            kept_or_new-eq-ok id now subject provider (setup.fingerprint subject labels provider)
              (decided setup predict made provider) _ d d' rec p;
      }

  attempt_record-key :
      (id : String) (now : ℕ) (key : String) (subject : Subject) (provider : String)
      (prior : Option (Classification S))
      (fields : Result ClassError (List (String × FieldDecision S)))
      → ((attempt_record setup id now key subject provider prior fields).record_key ≡ key)
        × ((attempt_record setup id now key subject provider prior fields).attempt
            ≡ some (next_attempt prior))
  unfolding attempt_record
  attempt_record-key id now key subject provider prior (ok fields) = (refl, refl)
  attempt_record-key id now key subject provider prior (raise e) = (refl, refl)

  -- If classify_text gives a settled record, accepted or to be reviewed, the same request again gives
  -- the same record and writes nothing, whatever the providers would reply then. The new id is not
  -- in use.
  pub classify_text-classify_text :
      (id : String) (now : ℕ) (predict : String → Reply S) (made : Reply S) (given : Option String)
      (subject : Subject) (labels : Option Labels) (flagged : Bool) (d d' : Dir (Classification S))
      (rec : Classification S)
      → read id d ≡ none
      → classify_text setup id now predict made given subject labels flagged d ≡ (ok (some rec), d')
      → is_settled rec ≡ true
      → (id' : String) (now' : ℕ) (predict' : String → Reply S) (made' : Reply S)
      → classify_text setup id' now' predict' made' given subject labels flagged d'
        ≡ (ok (some rec), d')
  unfolding classify_text proceed attempted kept_or_new
  classify_text-classify_text id now predict made given subject labels flagged d d' rec fresh h is
        id' now' predict' made' =
      let g = classify_text-Given id now predict made given subject labels flagged d d' rec h in
      let key = setup.fingerprint subject labels g.provider in
      let found : settled key d' ≡ some rec = elim g.from [
        | inl (there, same) ↦ ap (settled key) same ∙ there
        | inr (missing, made_new, written) ↦
            ap (settled key) written
            ∙ ap (first (λ r. of_key key r && is_settled r)) (contents-write id rec d fresh)
            ∙ first-snoc (λ r. of_key key r && is_settled r) (contents d) rec missing
                (both _ _
                  (ap (λ k. k == key)
                      (ap (λ r. r.record_key) made_new
                        ∙ (attempt_record-key id now key subject g.provider _ _).0)
                    ∙ ==_self key)
                  is)
      ] in
      rw (g.asked, found) refl

  -- the higher of two attempts
  chosen-highest :
      (rec r : Classification S)
      → (attempt_of rec ≤ attempt_of (if ltb (attempt_of rec) (attempt_of r) then r else rec))
        × (attempt_of r ≤ attempt_of (if ltb (attempt_of rec) (attempt_of r) then r else rec))
  chosen-highest rec r = elim (Bool-cases (ltb (attempt_of rec) (attempt_of r))) [
    | inl e ↦ (ground (arith, e, if-true r rec e), ground (arith, e, if-true r rec e))
    | inr e ↦ (ground (arith, e, if-false r rec e), ground (arith, e, if-false r rec e))
  ]

  -- the highest attempt is at least as high as each
  later-highest :
      (rec : Classification S) (rs : List (Classification S))
      → (attempt_of rec ≤ attempt_of (later rec rs))
        × All (λ r. attempt_of r ≤ attempt_of (later rec rs)) rs
  unfolding later
  later-highest rec [] = (omega arith, tt)
  later-highest rec (r ∷ rs) =
      let (top, others) =
        later-highest (if ltb (attempt_of rec) (attempt_of r) then r else rec) rs in
      let (left, right) = chosen-highest rec r in (≤_trans left top, (≤_trans right top, others))

  next_attempt-highest :
      (rs : List (Classification S)) → All (λ r. attempt_of r < next_attempt (previous rs)) rs
  unfolding previous
  next_attempt-highest [] = tt
  next_attempt-highest (r ∷ rs) =
      let (top, others) = later-highest r rs in
      (omega (arith, top), All-map (λ x p. omega (arith, p)) rs others)

  -- A new attempt is numbered above every earlier attempt at the same request that can be read; a
  -- call that writes nothing gives a settled attempt.
  pub classify_text-attempt :
      (id : String) (now : ℕ) (predict : String → Reply S) (made : Reply S) (given : Option String)
      (subject : Subject) (labels : Option Labels) (flagged : Bool) (d d' : Dir (Classification S))
      (rec : Classification S)
      → classify_text setup id now predict made given subject labels flagged d ≡ (ok (some rec), d')
      → ((d' ≡ d) × (is_settled rec ≡ true))
        ⊎ ((d' ≡ write id rec d)
            × All
                (λ r. attempt_of r < attempt_of rec)
                (select (of_key rec.record_key) (contents d)))
  classify_text-attempt id now predict made given subject labels flagged d d' rec h =
      let g = classify_text-Given id now predict made given subject labels flagged d d' rec h in
      let key = setup.fingerprint subject labels g.provider in
      elim g.from [
        | inl (there, same) ↦
            inl (same, (first-holds (of_key key) is_settled (contents d) rec there))
        | inr (missing, made_new, written) ↦
            let (same_key, number) =
              attempt_record-key id now key subject g.provider
                (previous (select (of_key key) (contents d)))
                (decided setup predict made g.provider) in
            let own_key = ap (λ r. r.record_key) made_new ∙ same_key in
            let own_number =
              ap attempt_of made_new ∙ ap (λ o. elim o [ none ↦ 1 | some n ↦ n ]) number in
            inr (
              written,
              subst (λ k. All (λ r. attempt_of r < attempt_of rec) (select (of_key k) (contents d)))
                  (sym own_key)
                  (subst (λ n. All (λ r. attempt_of r < n) (select (of_key key) (contents d)))
                    (sym own_number) (next_attempt-highest (select (of_key key) (contents d)))),
            )
      ]
