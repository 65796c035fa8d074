-- ===== src/Event/Pending.antt =====
-- The rows of events_log past an offset, and what a batch of them leaves.
use citywalk.Prelude.{
  ℕ, zero, suc, ◌<◌, ◌≤◌, ◌≡◌, ◌≢◌, refl, sym, ap, subst, ◌∙◌, true, false, Option, none, some,
  List, [], ◌∷◌, ltb, length, take, drop, arith, inl, inr, Bool-cases, ◌⊎◌,
}
use citywalk.Budget.{Store}
use citywalk.Event.Rollup.{StoredEvent, Rollups, apply_batch}
use citywalk.Event.Consumer.{since, last_seq, reconcile_budget}

-- The seqs rise from above `s`.
abbrev pub Rising : ℕ → List StoredEvent → Type 0
Rising s [] = Unit
Rising s (e ∷ log) = (s < e.seq) × Rising e.seq log

pub since-new :
    (t : ℕ) (e : StoredEvent) (log : List StoredEvent)
    → t < e.seq
    → since t (e ∷ log) ≡ e ∷ since t log
unfolding since
since-new t e log h = let h' : ltb t e.seq ≡ true = ground (arith, h) in rw h'

pub since-old :
    (t : ℕ) (e : StoredEvent) (log : List StoredEvent) → e.seq ≤ t → since t (e ∷ log) ≡ since t log
unfolding since
since-old t e log h = let h' : ltb t e.seq ≡ false = ground (arith, h) in rw h'

pub since-all : (s t : ℕ) (log : List StoredEvent) → t ≤ s → Rising s log → since t log ≡ log
since-all s t [] le r = unfold since in refl
since-all s t (e ∷ log) le r =
    since-new t e log (omega (arith, r.0))
    ∙ ap (λ (l : List StoredEvent). e ∷ l) (since-all e.seq t log (omega (arith, r.0)) r.1)

pub since-Rising : (s t : ℕ) (log : List StoredEvent) → Rising s log → Rising t (since t log)
since-Rising s t [] r = unfold since in tt
since-Rising s t (e ∷ log) r = elim (Bool-cases (ltb t e.seq)) [
  | inl new ↦
      let new' : t < e.seq = ground (arith, new) in
      subst (Rising t)
        (sym (
          since-new t e log new'
          ∙ ap (λ (l : List StoredEvent). e ∷ l) (since-all e.seq t log (omega (arith, new')) r.1)))
        (new', r.1)
  | inr old ↦
      subst (Rising t) (sym (since-old t e log (ground (arith, old))))
        (since-Rising e.seq t log r.1)
]

-- A later offset can be looked up in what an earlier one leaves.
pub since-since : (s t : ℕ) (log : List StoredEvent) → s ≤ t → since t (since s log) ≡ since t log
since-since s t [] le = unfold since in refl
since-since s t (e ∷ log) le = elim (Bool-cases (ltb s e.seq)) [
  | inr old ↦
      ap (since t) (since-old s e log (ground (arith, old)))
      ∙ since-since s t log le
      ∙ sym (since-old t e log (ground (arith, old, le)))
  | inl new ↦
      ap (since t) (since-new s e log (ground (arith, new))) ∙ elim (Bool-cases (ltb t e.seq)) [
        | inl newer ↦
            since-new t e (since s log) (ground (arith, newer))
            ∙ ap (λ (l : List StoredEvent). e ∷ l) (since-since s t log le)
            ∙ sym (since-new t e log (ground (arith, newer)))
        | inr older ↦
            since-old t e (since s log) (ground (arith, older))
            ∙ since-since s t log le
            ∙ sym (since-old t e log (ground (arith, older)))
      ]
]

pub le-last_seq : (n s : ℕ) (p : List StoredEvent) → Rising s p → s ≤ last_seq s (take n p)
le-last_seq zero s p r = omega arith
le-last_seq (suc n) s [] r = omega arith
le-last_seq (suc n) s (e ∷ p) r = omega (arith, r.0, le-last_seq n e.seq p r.1)

-- The offset after a batch leaves what the batch did not take.
pub since-last_seq :
    (n s : ℕ) (p : List StoredEvent) → Rising s p → since (last_seq s (take n p)) p ≡ drop n p
since-last_seq zero s p r = since-all s s p (omega arith) r
since-last_seq (suc n) s [] r = unfold since in refl
since-last_seq (suc n) s (e ∷ p) r =
    since-old (last_seq e.seq (take n p)) e p (le-last_seq n e.seq p r.1)
    ∙ since-last_seq n e.seq p r.1

pub apply_batch-take-drop :
    (n : ℕ) (p : List StoredEvent) (r : Rollups)
    → apply_batch (drop n p) (apply_batch (take n p) r) ≡ apply_batch p r
unfolding apply_batch
apply_batch-take-drop zero p r = refl
apply_batch-take-drop (suc n) [] r = refl
apply_batch-take-drop (suc n) (e ∷ p) r = apply_batch-take-drop n p _

pub reconcile_budget-take-drop :
    (counter : Option ℕ) (n : ℕ) (p : List StoredEvent) (b : Store)
    → reconcile_budget counter (drop n p) (reconcile_budget counter (take n p) b)
      ≡ reconcile_budget counter p b
unfolding reconcile_budget
reconcile_budget-take-drop none n p b = refl
reconcile_budget-take-drop (some s) zero p b = refl
reconcile_budget-take-drop (some s) (suc n) [] b = refl
reconcile_budget-take-drop (some s) (suc n) (e ∷ p) b = reconcile_budget-take-drop (some s) n p _

pub nil-or-more : (p : List StoredEvent) → (p ≡ []) ⊎ (length p ≢ 0)
nil-or-more [] = inl refl
nil-or-more (e ∷ p) = inr (omega arith)

pub length-take_nonzero :
    (n : ℕ) (p : List StoredEvent) → n ≢ 0 → length p ≢ 0 → length (take n p) ≢ 0
length-take_nonzero zero p n0 p0 = absurd (n0 refl)
length-take_nonzero (suc n) [] n0 p0 = p0
length-take_nonzero (suc n) (e ∷ p) n0 p0 = omega arith

pub length-drop-le : (n : ℕ) (p : List StoredEvent) → length (drop n p) ≤ length p
length-drop-le zero p = omega arith
length-drop-le (suc n) [] = omega arith
length-drop-le (suc n) (e ∷ p) = omega (arith, length-drop-le n p)

pub length-drop-lt :
    (n : ℕ) (p : List StoredEvent) → n ≢ 0 → length p ≢ 0 → length (drop n p) < length p
length-drop-lt zero p n0 p0 = absurd (n0 refl)
length-drop-lt (suc n) [] n0 p0 = absurd (p0 refl)
length-drop-lt (suc n) (e ∷ p) n0 p0 = omega (arith, length-drop-le n p)

pub drop-short : (n : ℕ) (p : List StoredEvent) → length (take n p) < n → drop n p ≡ []
drop-short zero p h = absurd (omega (arith, h))
drop-short (suc n) [] h = refl
drop-short (suc n) (e ∷ p) h = drop-short n p (omega (arith, h))
