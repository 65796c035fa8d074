-- ===== src/Event/Acceptance.antt =====
-- What the acceptance of a batch counts and writes.
use citywalk.Prelude.{
  ℕ, suc, ◌+◌, ◌≤◌, String, ◌≡◌, ◌≢◌, refl, sym, subst, ◌∙◌, inl, inr, Bool, ◌⊎◌, true, false, not,
  List, [], ◌∷◌, ◌++◌, All, str_eq, eq_iff, length, Result, ok, err, arith, Bool-cases,
  if◌then◌else◌,
}
use citywalk.Event.Model.{Event, Invalid, validate, clock_skew_implausible}
use citywalk.Event.RateLimit.{Limiter, Limits, allow}
use citywalk.Event.Ingest.{
  Error, limiter_failed, publish_failed, Calls, calls_succeed, limiter_fails, publish_fails,
  append_to_log, Tally, no_tally, passes, is_valid, scan_one, scan, World, publish_valid, accept,
}
use citywalk.Event.Rows.{append-grows, append_to_log-length-le, AllIn, append-AllIn, AllValid}
use mathlib.Core.List.{append-nil, append_assoc}

-- The valid events of a batch, in order, and how many are not.
abbrev pub valid_of : List Event → List Event
valid_of [] = []
valid_of (e ∷ batch) = if is_valid e then e ∷ valid_of batch else valid_of batch

abbrev pub invalid_count : List Event → ℕ
invalid_count [] = 0
invalid_count (e ∷ batch) = if is_valid e then invalid_count batch else suc (invalid_count batch)

abbrev pub skewed_count : ℕ → List Event → ℕ
skewed_count now [] = 0
skewed_count now (e ∷ batch) =
    if is_valid e
    then if clock_skew_implausible e.device_time now
      then suc (skewed_count now batch)
      else skewed_count now batch
    else skewed_count now batch

abbrev pub SameChannel : String → List Event → Type 0
SameChannel channel = All (λ e. e.channel_id ≡ channel)

scan_lem :
    (channel : String) (now : ℕ) (batch : List Event) (t : Tally) (valid : List Event)
    → SameChannel channel batch
    → scan channel now batch (t, valid)
      ≡ ok (
        record t {
          rejected_invalid = t.rejected_invalid + invalid_count batch;
          clock_skew_flagged = t.clock_skew_flagged + skewed_count now batch;
        },
        valid ++ valid_of batch,
      )
unfolding scan scan_one
scan_lem channel now [] t valid same = ground (arith, append-nil valid)
scan_lem channel now (e ∷ batch) t valid same =
    let own : not (str_eq e.channel_id channel) ≡ false =
      ground (arith, eq_iff e.channel_id channel, same.0) in
    rw own (elim (Bool-cases (is_valid e)) [
      | inr bad ↦ rw bad (
          scan_lem channel now batch (record t { rejected_invalid = suc t.rejected_invalid }) valid
            same.1
          ∙ ground arith)
      | inl good ↦ rw good (elim (Bool-cases (clock_skew_implausible e.device_time now)) [
        | inl skewed ↦ rw skewed (
            scan_lem channel now batch (record t { clock_skew_flagged = suc t.clock_skew_flagged })
              (valid ++ e ∷ []) same.1
            ∙ ground (arith, append_assoc valid (e ∷ []) (valid_of batch)))
        | inr straight ↦ rw straight (
            scan_lem channel now batch t (valid ++ e ∷ []) same.1
            ∙ ground (arith, append_assoc valid (e ∷ []) (valid_of batch)))
      ])
    ])

-- What a batch that was not refused as mixed has done: t is the tally returned, w' the new world.
pub record Accounts (batch : List Event) (now : ℕ) (w : World) (t : Tally) (w' : World)
    : Type 0 where
  pub invalid_exact : t.rejected_invalid ≡ invalid_count batch
  pub skewed_exact : t.clock_skew_flagged ≡ skewed_count now batch
  pub log_grows : length w'.log ≡ length w.log + t.accepted
  pub conserved : t.accepted + t.rejected_rate_limited + t.rejected_invalid ≤ length batch
  pub refused :
      t.rejected_rate_limited ≢ 0
      → (w'.log ≡ w.log) × (t.rejected_rate_limited ≡ length (valid_of batch))
  pub written : t.rejected_rate_limited ≡ 0 → AllIn w'.log (valid_of batch)

length-valid_of :
    (batch : List Event) → length (valid_of batch) + invalid_count batch ≡ length batch
length-valid_of [] = omega arith
length-valid_of (e ∷ batch) = ground (arith, length-valid_of batch)

passes-ok : (r : Result Invalid (Unit {0})) → passes r ≡ true → r ≡ ok tt
passes-ok (ok tt) h = refl
passes-ok (err x) h = cc

pub AllValid-valid_of : (batch : List Event) → AllValid (valid_of batch)
AllValid-valid_of [] = tt
AllValid-valid_of (e ∷ batch) = elim (Bool-cases (is_valid e)) [
  | inl good ↦
      subst AllValid (sym (keep good)) (passes-ok (validate e) good, AllValid-valid_of batch)
  | inr bad ↦ subst AllValid (sym (drop_ bad)) (AllValid-valid_of batch)
]
  where
    keep : is_valid e ≡ true → valid_of (e ∷ batch) ≡ e ∷ valid_of batch
    keep good = rw good

    drop_ : is_valid e ≡ false → valid_of (e ∷ batch) ≡ valid_of batch
    drop_ bad = rw bad

-- The tally that the loop hands on.
abbrev pub scanned : ℕ → List Event → Tally
scanned now batch = record {
  accepted = 0;
  rejected_invalid = 0 + invalid_count batch;
  rejected_rate_limited = 0;
  clock_skew_flagged = 0 + skewed_count now batch;
}

pub accept-publish :
    (c : Calls) (l : Limiter) (channel : String) (batch : List Event) (now : ℕ) (w : World)
    → SameChannel channel batch
    → accept c l channel batch now w
      ≡ publish_valid c l channel now (scanned now batch, valid_of batch) w
unfolding accept
accept-publish c l channel batch now w same = rw (scan_lem channel now batch no_tally [] same)

abbrev pub all_went_well : Calls → Bool
all_went_well calls_succeed = true
all_went_well _ = false

-- The answer counts the batch, or a call has failed and the log is as it was.
abbrev pub Answers : Calls → List Event → ℕ → World → Result Error Tally → World → Type 0
Answers c batch now w r w' =
    ((t : Tally) × (r ≡ ok t) × Accounts batch now w t w')
    ⊎ ((all_went_well c ≡ false)
        × ((r ≡ err limiter_failed) ⊎ (r ≡ err publish_failed))
        × (w'.log ≡ w.log))

module _ (l : Limiter) (channel : String) (batch : List Event) (now : ℕ) (w : World) where
  nothing-Accounts : valid_of batch ≡ [] → Accounts batch now w (scanned now batch) w
  nothing-Accounts e = record {
    invalid_exact = omega arith;
    skewed_exact = omega arith;
    log_grows = omega arith;
    conserved = omega (arith, length-valid_of batch);
    refused = λ ne. absurd (ne refl);
    written = λ _. rw e tt;
  }

  module _ (v : Event) (valid : List Event) (e : valid_of batch ≡ v ∷ valid) where
    sizes : length (v ∷ valid) + invalid_count batch ≡ length batch
    sizes = rw e at (length-valid_of batch)

    published-Accounts :
        let (n, log') = append_to_log (v ∷ valid) now w.log in
        (limits : Limits)
        → Accounts batch now w
            (record (scanned now batch) { accepted = n })
            (record { limits = limits; log = log' })
    published-Accounts limits = record {
      invalid_exact = omega arith;
      skewed_exact = omega arith;
      log_grows = append-grows (v ∷ valid) now w.log;
      conserved = omega (arith, sizes, append_to_log-length-le (v ∷ valid) now w.log);
      refused = λ ne. absurd (ne refl);
      written = λ _. rw e (append-AllIn (v ∷ valid) now w.log);
    }

    refused-Accounts :
        (limits : Limits)
        → Accounts batch now w
            (record (scanned now batch) { rejected_rate_limited = length (v ∷ valid) })
            (record w { limits = limits })
    refused-Accounts limits = record {
      invalid_exact = omega arith;
      skewed_exact = omega arith;
      log_grows = omega arith;
      conserved = omega (arith, sizes);
      refused = λ _. (refl, rw e);
      written = λ z. absurd (omega arith);
    }

  pub publish-Answers :
      (c : Calls) (valid : List Event)
      → valid_of batch ≡ valid
      → let (r, w') = publish_valid c l channel now (scanned now batch, valid) w in
        Answers c batch now w r w'
  unfolding publish_valid
  publish-Answers c [] e = inl (scanned now batch, refl, nothing-Accounts e)
  publish-Answers (limiter_fails limits) (v ∷ valid) e = inr (refl, inl refl, refl)
  publish-Answers calls_succeed (v ∷ valid) e =
      elim (Bool-cases (allow l channel (length (v ∷ valid)) now w.limits).1) [
        | inl yes_ ↦ rw yes_ (inl (_, refl, published-Accounts v valid e _))
        | inr no_ ↦ rw no_ (inl (_, refl, refused-Accounts v valid e _))
      ]
  publish-Answers publish_fails (v ∷ valid) e =
      elim (Bool-cases (allow l channel (length (v ∷ valid)) now w.limits).1) [
        | inl yes_ ↦ rw yes_ (inr (refl, inr refl, refl))
        | inr no_ ↦ rw no_ (inl (_, refl, refused-Accounts v valid e _))
      ]

-- A batch of one channel is an error only if a call of the limiter or the insertion fails, and the log is
-- then as it was. Otherwise the tally counts its invalid events and its valid events with an implausible
-- clock exactly; what was accepted, refused and invalid is together no more than the batch; the log grows
-- by the accepted events. If the rate limit refused the batch, all valid events are counted as refused and
-- the log is unchanged; otherwise every valid event is in the log.
pub accept-Accounts :
    (c : Calls) (l : Limiter) (channel : String) (batch : List Event) (now : ℕ) (w : World)
    → SameChannel channel batch
    → let (r, w') = accept c l channel batch now w in Answers c batch now w r w'
accept-Accounts c l channel batch now w same =
    rw (accept-publish c l channel batch now w same)
      (publish-Answers l channel batch now w c (valid_of batch) refl)
