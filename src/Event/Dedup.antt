-- ===== src/Event/Dedup.antt =====
-- The log that the acceptance of batches leaves: no id twice, also where a batch is sent again.
use citywalk.Prelude.{
  ℕ, String, ◌≡◌, refl, sym, subst, ap, ◌∙◌, inl, inr, List, [], ◌∷◌, Distinct, str_eq, eq_iff,
  length, Result, ok, Bool-cases, Result-cases,
}
use citywalk.Event.Model.{Event}
use citywalk.Event.RateLimit.{Limiter, allow}
use citywalk.Event.Ingest.{
  Error, Calls, calls_succeed, limiter_fails, publish_fails, Tally, no_tally, ids, scan_one, scan,
  World, publish_valid, accept,
}
use citywalk.Event.Rows.{AllIn, append-known, append-Distinct, AllValid, append-AllValid}
use citywalk.Event.Acceptance.{
  scanned, AllValid-valid_of, Answers, publish-Answers, accept-publish, SameChannel, valid_of,
}

-- No id stands twice in the log, and every row passes `Validate`.
pub record IsLog (log : List Event) : Type 0 where
  pub once : Distinct (ids log)
  pub valid : AllValid log

publish-IsLog :
    (c : Calls) (l : Limiter) (channel : String) (now : ℕ) (t : Tally) (valid : List Event)
    (w : World)
    → AllValid valid
    → IsLog w.log
    → IsLog (publish_valid c l channel now (t, valid) w).1.log
unfolding publish_valid
publish-IsLog c l channel now t [] w v is_log = is_log
publish-IsLog (limiter_fails limits) l channel now t (e ∷ valid) w v is_log = is_log
publish-IsLog calls_succeed l channel now t (e ∷ valid) w v is_log =
    elim (Bool-cases (allow l channel (length (e ∷ valid)) now w.limits).1) [
      | inl yes_ ↦ rw yes_ (record {
        once = append-Distinct (e ∷ valid) now w.log is_log.once;
        valid = append-AllValid (e ∷ valid) now w.log v is_log.valid;
      })
      | inr no_ ↦ rw no_ is_log
    ]
publish-IsLog publish_fails l channel now t (e ∷ valid) w v is_log =
    elim (Bool-cases (allow l channel (length (e ∷ valid)) now w.limits).1) [
      | inl yes_ ↦ rw yes_ is_log
      | inr no_ ↦ rw no_ is_log
    ]

scan-SameChannel :
    (channel : String) (now : ℕ) (batch : List Event) (s : Tally × List Event)
    {r : Tally × List Event}
    → scan channel now batch s ≡ ok r
    → SameChannel channel batch
unfolding scan
scan-SameChannel channel now [] s h = tt
scan-SameChannel channel now (e ∷ batch) s h = elim (Bool-cases (str_eq e.channel_id channel)) [
  | inl own ↦ (
    (eq_iff e.channel_id channel).0 own,
    scan-SameChannel channel now batch (scan_one now e s) (rw own at h),
  )
  | inr other ↦ cc (rw other at h)
]

-- `Accept` keeps the log one in which no id stands twice and every row passes `Validate`: for every
-- batch, mixed ones included, and also where a call fails.
pub accept-IsLog :
    (c : Calls) (l : Limiter) (channel : String) (batch : List Event) (now : ℕ) (w : World)
    → IsLog w.log
    → IsLog (accept c l channel batch now w).1.log
accept-IsLog c l channel batch now w is_log =
    elim (Result-cases (scan channel now batch (no_tally, []))) [
      | inr (x, mixed) ↦ unfold accept in rw mixed is_log
      | inl (r, scanned_ok) ↦
          let same = scan-SameChannel channel now batch (no_tally, []) scanned_ok in
          rw (accept-publish c l channel batch now w same) (
            publish-IsLog c l channel now (scanned now batch) (valid_of batch) w
              (AllValid-valid_of batch) is_log)
    ]

publish-known :
    (c : Calls) (l : Limiter) (channel : String) (now : ℕ) (t : Tally) (valid : List Event)
    (w : World)
    → AllIn w.log valid
    → (publish_valid c l channel now (t, valid) w).1.log ≡ w.log
unfolding publish_valid
publish-known c l channel now t [] w a = refl
publish-known (limiter_fails limits) l channel now t (e ∷ valid) w a = refl
publish-known calls_succeed l channel now t (e ∷ valid) w a =
    elim (Bool-cases (allow l channel (length (e ∷ valid)) now w.limits).1) [
      | inl yes_ ↦ rw (yes_, append-known (e ∷ valid) now w.log a)
      | inr no_ ↦ rw no_
    ]
publish-known publish_fails l channel now t (e ∷ valid) w a =
    elim (Bool-cases (allow l channel (length (e ∷ valid)) now w.limits).1) [
      | inl yes_ ↦ rw yes_
      | inr no_ ↦ rw no_
    ]

answered-written :
    (c : Calls) (batch : List Event) (now : ℕ) (w w' : World) (r : Result Error Tally) (t : Tally)
    → Answers c batch now w r w'
    → r ≡ ok t
    → t.rejected_rate_limited ≡ 0
    → AllIn w'.log (valid_of batch)
answered-written c batch now w w' r t a is_ok through = elim a [
  | inl (u, answer, acc) ↦
      let same_ok : ◌≡◌ {A = Result Error Tally} (ok u) (ok t) = sym answer ∙ is_ok in
      let same : u ≡ t = cc same_ok in
      acc.written (ap (λ (x : Tally). x.rejected_rate_limited) same ∙ through)
  | inr (failed, which, kept) ↦ elim which [
    | inl limiter ↦ absurd (cc (limiter, is_ok))
    | inr insertion ↦ absurd (cc (insertion, is_ok))
  ]
]

-- A batch of one channel that was answered and not refused by the rate limit, sent again to the world it
-- left, at any time and whatever calls fail then, leaves the log as it is.
pub accept_again :
    (c d : Calls) (l : Limiter) (channel : String) (batch : List Event) (now again : ℕ)
    (w w' : World) (t : Tally)
    → SameChannel channel batch
    → accept c l channel batch now w ≡ (ok t, w')
    → t.rejected_rate_limited ≡ 0
    → (accept d l channel batch again w').1.log ≡ w'.log
accept_again c d l channel batch now again w w' t same done through =
    let first = publish_valid c l channel now (scanned now batch, valid_of batch) w in
    let p = sym (accept-publish c l channel batch now w same) ∙ done in
    let answers = publish-Answers l channel batch now w c (valid_of batch) refl in
    let same_answer : first.0 ≡ ok t = cc p in
    let same_world : first.1 ≡ w' = cc p in
    let all_in : AllIn w'.log (valid_of batch) =
      subst (λ x. AllIn x.log (valid_of batch)) same_world
        (answered-written c batch now w first.1 first.0 t answers same_answer through) in
    rw (accept-publish d l channel batch again w' same)
      (publish-known d l channel again (scanned again batch) (valid_of batch) w' all_in)
