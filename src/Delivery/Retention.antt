-- ===== src/Delivery/Retention.antt =====
-- The log of changes holds every change since a cursor that is not older than the retention.
use citywalk.Prelude.{
  ℕ, suc, ◌-◌, ◌≤◌, ◌<◌, String, ◌≡◌, refl, sym, ap, subst, ◌∙◌, true, false, List, [], ◌∷◌, ◌++◌,
  ltb, All, Bool-cases, arith, inl, inr,
}
use mathlib.Core.List.{append_assoc, append-nil}
use citywalk.Delivery.Changelog.{
  Kind, retention, Change, ChangeLog, prune, record_change, current_seq, changes_since,
}

-- A call of `Record`.
pub record Call : Type 0 where
  pub message_id : String
  pub kind : Kind
  pub at : ℕ

unfoldable pub record_all : List Call → ChangeLog → ChangeLog
record_all [] log = log
record_all (c ∷ calls) log = record_all calls (record_change c.message_id c.kind c.at log)

-- The rows of the calls, numbered from `n` on.
abbrev pub numbered : ℕ → List Call → List Change
numbered n [] = []
numbered n (c ∷ calls) =
    record { seq = n; message_id = c.message_id; kind = c.kind; occurred_at = c.at }
    ∷ numbered (suc n) calls

-- The calls come between two times.
abbrev pub Between : ℕ → ℕ → List Call → Type 0
Between issued now = All (λ (c : Call). (issued ≤ c.at) × (c.at ≤ now))

abbrev Since : ℕ → List Change → Type 0
Since issued = All (λ c. issued ≤ c.occurred_at)

changes_since-prune :
    (s b : ℕ) (rows : List Change) → changes_since s (prune b rows) ≡ prune b (changes_since s rows)
unfolding changes_since prune
changes_since-prune s b [] = refl
changes_since-prune s b (c ∷ rows) = elim (Bool-cases (ltb c.occurred_at b)) [
  | inl old ↦ elim (Bool-cases (ltb s c.seq)) [
    | inl new ↦ rw (old, new, old) (changes_since-prune s b rows)
    | inr seen ↦ rw (old, seen) (changes_since-prune s b rows)
  ]
  | inr kept ↦ elim (Bool-cases (ltb s c.seq)) [
    | inl new ↦
        rw (kept, new, kept) (ap (λ (l : List Change). c ∷ l) (changes_since-prune s b rows))
    | inr seen ↦ rw (kept, seen) (changes_since-prune s b rows)
  ]
]

changes_since-append :
    (s : ℕ) (rows : List Change) (c : Change)
    → s < c.seq
    → changes_since s (rows ++ c ∷ []) ≡ changes_since s rows ++ c ∷ []
unfolding changes_since
changes_since-append s [] c new = let h : ltb s c.seq ≡ true = ground (arith, new) in rw h
changes_since-append s (x ∷ rows) c new = elim (Bool-cases (ltb s x.seq)) [
  | inl later ↦ rw later (ap (λ (l : List Change). x ∷ l) (changes_since-append s rows c new))
  | inr seen ↦ rw seen (changes_since-append s rows c new)
]

prune-none :
    (b issued : ℕ) (rows : List Change) → b ≤ issued → Since issued rows → prune b rows ≡ rows
unfolding prune
prune-none b issued [] le all = refl
prune-none b issued (c ∷ rows) le all =
    let h : ltb c.occurred_at b ≡ false = ground (arith, all.0, le) in
    rw h (ap (λ (l : List Change). c ∷ l) (prune-none b issued rows le all.1))

Since-append :
    (issued : ℕ) (rows : List Change) (c : Change)
    → Since issued rows
    → issued ≤ c.occurred_at
    → Since issued (rows ++ c ∷ [])
Since-append issued [] c all le = (le, tt)
Since-append issued (x ∷ rows) c all le = (all.0, Since-append issued rows c all.1 le)

-- One call adds its row to the changes since the cursor, and takes none away.
changes_since-record_change :
    (s issued now : ℕ) (c : Call) (log : ChangeLog)
    → s < log.next_seq
    → now - retention ≤ issued
    → issued ≤ c.at
    → c.at ≤ now
    → Since issued (changes_since s log.rows)
    → changes_since s (record_change c.message_id c.kind c.at log).rows
      ≡ changes_since s log.rows ++ numbered log.next_seq (c ∷ [])
unfolding record_change
changes_since-record_change s issued now c log new fresh le le' all =
    let row : Change = record {
      seq = log.next_seq;
      message_id = c.message_id;
      kind = c.kind;
      occurred_at = c.at;
    } in
    changes_since-prune s (c.at - retention) (log.rows ++ row ∷ [])
    ∙ ap (prune (c.at - retention)) (changes_since-append s log.rows row new)
    ∙ prune-none (c.at - retention) issued (changes_since s log.rows ++ row ∷ [])
        (omega (arith, fresh, le')) (Since-append issued (changes_since s log.rows) row all le)

next_seq-record_change :
    (m : String) (k : Kind) (t : ℕ) (log : ChangeLog)
    → (record_change m k t log).next_seq ≡ suc log.next_seq
unfolding record_change
next_seq-record_change m k t log = refl

changes_since-record_all :
    (s issued now : ℕ) (calls : List Call) (log : ChangeLog)
    → s < log.next_seq
    → now - retention ≤ issued
    → Between issued now calls
    → Since issued (changes_since s log.rows)
    → changes_since s (record_all calls log).rows
      ≡ changes_since s log.rows ++ numbered log.next_seq calls
unfolding record_all
changes_since-record_all s issued now [] log new fresh times all =
    sym (append-nil (changes_since s log.rows))
changes_since-record_all s issued now (c ∷ calls) log new fresh times all =
    let log' = record_change c.message_id c.kind c.at log in
    let next = next_seq-record_change c.message_id c.kind c.at log in
    let row : Change = record {
      seq = log.next_seq;
      message_id = c.message_id;
      kind = c.kind;
      occurred_at = c.at;
    } in
    let one = changes_since-record_change s issued now c log new fresh times.0.0 times.0.1 all in
    changes_since-record_all s issued now calls log' (omega (arith, new, next)) fresh times.1 (
      subst (Since issued) (sym one)
        (Since-append issued (changes_since s log.rows) row all times.0.0))
    ∙ ap (λ (l : List Change). l ++ numbered log'.next_seq calls) one
    ∙ append_assoc (changes_since s log.rows) (row ∷ []) (numbered log'.next_seq calls)
    ∙ ap (λ (n : ℕ). changes_since s log.rows ++ row ∷ numbered n calls) next

changes_since-none : (s : ℕ) (rows : List Change) → current_seq rows ≤ s → changes_since s rows ≡ []
unfolding changes_since current_seq
changes_since-none s [] le = refl
changes_since-none s (c ∷ rows) le =
    let below : c.seq ≤ s = ground (arith, le) in
    let rest : current_seq rows ≤ s = ground (arith, le) in
    let h : ltb s c.seq ≡ false = ground (arith, below) in rw h (changes_since-none s rows rest)

-- A cursor takes the highest seq of the log. Whatever changes are recorded after that, at times from
-- the issue of the cursor on, and as long as the cursor is not older than the retention: the changes
-- since the cursor are exactly those, in order, and none of them is pruned. The log gives seqs above
-- all its rows.
pub changes_since-current_seq :
    (issued now : ℕ) (calls : List Call) (log : ChangeLog)
    → current_seq log.rows < log.next_seq
    → now - retention ≤ issued
    → Between issued now calls
    → changes_since (current_seq log.rows) (record_all calls log).rows ≡ numbered log.next_seq calls
changes_since-current_seq issued now calls log new fresh times =
    let s = current_seq log.rows in
    let none_yet = changes_since-none s log.rows (omega arith) in
    changes_since-record_all s issued now calls log new fresh times
      (subst (Since issued) (sym none_yet) tt)
    ∙ ap (λ (l : List Change). l ++ numbered log.next_seq calls) none_yet
