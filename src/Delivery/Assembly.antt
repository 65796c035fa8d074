-- ===== src/Delivery/Assembly.antt =====
-- The assembly of a bundle reads only the campaigns whose audience is one of its segments.
use citywalk.Prelude.{
  ℕ, String, ◌≡◌, refl, ap, subst, ◌∙◌, true, false, List, [], ◌∷◌, map, contains, Distinct, All,
  str_eq, eq_iff, Result, ok, ◌>>=◌, if◌then◌else◌, Bool-cases, inl, inr, arith,
}
use citywalk.Definition.Lifecycle.{MessageState}
use citywalk.Delivery.Bundle.{
  Outside, BundleError, StoredMessage, audience_in, is_eligible, goes_first, insert_message,
  eligible_messages, get_message, load_all, assemble_shared,
}
use citywalk.Delivery.Edits.{with_state, set_state}

module _ (o : Outside) where
  abbrev pub message_ids : List (StoredMessage o) → List String
  message_ids [] = []
  message_ids (m ∷ messages) = m.id ∷ message_ids messages

  -- A row with the id has no audience among the segments.
  abbrev Elsewhere : String → List String → StoredMessage o → Type 0
  Elsewhere id segment_ids m =
      str_eq m.id id ≡ true → audience_in o m.audience_ref segment_ids ≡ false

  abbrev Other : String → StoredMessage o → Type 0
  Other id m = str_eq m.id id ≡ false

  absent_Other :
      (id : String) (messages : List (StoredMessage o))
      → contains id (message_ids messages) ≡ false
      → All (Other id) messages
  absent_Other id [] h = tt
  absent_Other id (m ∷ messages) h = (
    ground (arith, h, eq_iff m.id id, eq_iff id m.id),
    absent_Other id messages (ground (arith, h)),
  )

  others-Elsewhere :
      (id : String) (segment_ids : List String) (messages : List (StoredMessage o))
      → All (Other id) messages
      → All (Elsewhere id segment_ids) messages
  others-Elsewhere id segment_ids [] a = tt
  others-Elsewhere id segment_ids (m ∷ messages) a =
      (λ same. cc (same, a.0), others-Elsewhere id segment_ids messages a.1)

  found-Elsewhere :
      (id : String) (segment_ids : List String) (messages : List (StoredMessage o))
      (m : StoredMessage o)
      → Distinct (message_ids messages)
      → get_message o messages id ≡ ok m
      → audience_in o m.audience_ref segment_ids ≡ false
      → All (Elsewhere id segment_ids) messages
  unfolding get_message
  found-Elsewhere id segment_ids [] m d found away = tt
  found-Elsewhere id segment_ids (x ∷ messages) m d found away =
      elim (Bool-cases (str_eq x.id id)) [
        | inl same ↦
            let is_m : ◌≡◌ {A = Result BundleError (StoredMessage o)} (ok x) (ok m) =
              rw same at found in
            let absent =
              subst (λ y. contains y (message_ids messages) ≡ false) ((eq_iff x.id id).0 same)
                d.0 in
            (
              λ _. cc (is_m, away),
              others-Elsewhere id segment_ids messages (absent_Other id messages absent),
            )
        | inr other ↦ (
          λ same. cc (same, other),
          found-Elsewhere id segment_ids messages m d.1 (rw other at found) away,
        )
      ]

  insert_message-All :
      (P : StoredMessage o → Type 0) (m : StoredMessage o) (messages : List (StoredMessage o))
      → P m
      → All P messages
      → All P (insert_message o m messages)
  unfolding insert_message
  insert_message-All P m [] p a = (p, tt)
  insert_message-All P m (x ∷ messages) p a = elim (Bool-cases (goes_first o x m)) [
    | inl first ↦ rw first (a.0, insert_message-All P m messages p a.1)
    | inr behind ↦ rw behind (p, a)
  ]

  eligible-Other :
      (id : String) (segment_ids : List String) (now : ℕ) (messages : List (StoredMessage o))
      → All (Elsewhere id segment_ids) messages
      → All (Other id) (eligible_messages o segment_ids now messages)
  unfolding eligible_messages
  eligible-Other id segment_ids now [] a = tt
  eligible-Other id segment_ids now (m ∷ messages) a =
      let rest = eligible-Other id segment_ids now messages a.1 in
      elim (Bool-cases (is_eligible o segment_ids now m)) [
        | inr out ↦ rw out rest
        | inl chosen ↦
            let listed : audience_in o m.audience_ref segment_ids ≡ true = ground (arith, chosen) in
            elim (Bool-cases (str_eq m.id id)) [
              | inr other ↦ rw chosen (insert_message-All (Other id) m _ other rest)
              | inl same ↦ absurd (cc (a.0 same, listed))
            ]
      ]

  eligible_messages-set_state :
      (id : String) (new_state : MessageState) (segment_ids : List String) (now : ℕ)
      (messages : List (StoredMessage o))
      → All (Elsewhere id segment_ids) messages
      → eligible_messages o segment_ids now (set_state o id new_state messages)
        ≡ eligible_messages o segment_ids now messages
  unfolding eligible_messages set_state
  eligible_messages-set_state id new_state segment_ids now [] a = refl
  eligible_messages-set_state id new_state segment_ids now (m ∷ messages) a =
      let rest = eligible_messages-set_state id new_state segment_ids now messages a.1 in
      elim (Bool-cases (str_eq m.id id)) [
        | inr other ↦ rw (other, rest)
        | inl same ↦
            let away = a.0 same in
            let before : is_eligible o segment_ids now m ≡ false = ground (arith, away) in
            let after : is_eligible o segment_ids now (with_state o new_state m) ≡ false =
              ground (arith, away) in
            rw (same, before, after) rest
      ]

  get_message-set_state :
      (id x : String) (new_state : MessageState) (messages : List (StoredMessage o))
      → str_eq x id ≡ false
      → get_message o (set_state o id new_state messages) x ≡ get_message o messages x
  unfolding get_message set_state
  get_message-set_state id x new_state [] h = refl
  get_message-set_state id x new_state (m ∷ messages) h =
      let rest = get_message-set_state id x new_state messages h in
      elim (Bool-cases (str_eq m.id id)) [
        | inr other ↦ rw other (
            ap (λ (r : Result BundleError (StoredMessage o)). if str_eq m.id x then ok m else r)
              rest)
        | inl same ↦
            let another : str_eq m.id x ≡ false =
              ground (arith, h, same, eq_iff m.id x, eq_iff m.id id, eq_iff x id) in
            rw (same, another) rest
      ]

  load_all-agree :
      (get get' : String → Result BundleError (StoredMessage o)) (language : String)
      (declared_major : ℕ) (chosen : List (StoredMessage o))
      → All (λ m. get m.id ≡ get' m.id) chosen
      → load_all o get language declared_major (map (λ m. m.id) chosen)
        ≡ load_all o get' language declared_major (map (λ m. m.id) chosen)
  unfolding load_all
  load_all-agree get get' language major [] a = refl
  load_all-agree get get' language major (m ∷ chosen) a =
      rw (a.0, load_all-agree get get' language major chosen a.1)

  All-map :
      (P Q : StoredMessage o → Type 0) (messages : List (StoredMessage o))
      → ((m : StoredMessage o) → P m → Q m)
      → All P messages
      → All Q messages
  All-map P Q [] f a = tt
  All-map P Q (m ∷ messages) f a = (f m a.0, All-map P Q messages f a.1)

  -- An edit of a campaign whose audience is none of the segments leaves the assembly as it was.
  pub assemble_shared-set_state :
      (id : String) (new_state : MessageState) (messages : List (StoredMessage o))
      (m : StoredMessage o) (segment_ids : List String) (language : String) (declared_major now : ℕ)
      → Distinct (message_ids messages)
      → get_message o messages id ≡ ok m
      → audience_in o m.audience_ref segment_ids ≡ false
      → assemble_shared o
          (set_state o id new_state messages)
          segment_ids
          language
          declared_major
          now
        ≡ assemble_shared o messages segment_ids language declared_major now
  unfolding assemble_shared
  assemble_shared-set_state id new_state messages m [] language major now d found away = refl
  assemble_shared-set_state id new_state messages m (s ∷ ss) language major now d found away =
      let elsewhere = found-Elsewhere id (s ∷ ss) messages m d found away in
      let chosen = eligible_messages o (s ∷ ss) now messages in
      let same = eligible_messages-set_state id new_state (s ∷ ss) now messages elsewhere in
      let others = eligible-Other id (s ∷ ss) now messages elsewhere in
      ap
        (λ (l : List (StoredMessage o)).
          load_all o (get_message o (set_state o id new_state messages)) language major
            (map (λ m. m.id) l))
        same
      ∙ load_all-agree (get_message o (set_state o id new_state messages)) (get_message o messages)
          language major chosen
          (All-map (Other id)
            (λ x.
              get_message o (set_state o id new_state messages) x.id ≡ get_message o messages x.id)
            chosen (λ x other. get_message-set_state id x.id new_state messages other) others)

  -- An edit keeps the ids of the rows.
  pub message_ids-set_state :
      (id : String) (new_state : MessageState) (messages : List (StoredMessage o))
      → message_ids (set_state o id new_state messages) ≡ message_ids messages
  unfolding set_state
  message_ids-set_state id new_state [] = refl
  message_ids-set_state id new_state (m ∷ messages) = elim (Bool-cases (str_eq m.id id)) [
    | inl same ↦
        rw same (ap (λ (l : List String). m.id ∷ l) (message_ids-set_state id new_state messages))
    | inr other ↦
        rw other (ap (λ (l : List String). m.id ∷ l) (message_ids-set_state id new_state messages))
  ]

  -- The row of the id after an edit: the same but for its state.
  pub get_message-edited :
      (id : String) (new_state : MessageState) (messages : List (StoredMessage o))
      (m : StoredMessage o)
      → get_message o messages id ≡ ok m
      → get_message o (set_state o id new_state messages) id ≡ ok (with_state o new_state m)
  unfolding get_message set_state
  get_message-edited id new_state [] m h = absurd (cc h)
  get_message-edited id new_state (x ∷ messages) m h = elim (Bool-cases (str_eq x.id id)) [
    | inl same ↦
        let is_m : ◌≡◌ {A = Result BundleError (StoredMessage o)} (ok x) (ok m) = rw same at h in
        simp same (
          ap
            (λ (r : Result BundleError (StoredMessage o)). r >>= λ y. ok (with_state o new_state y))
            is_m)
    | inr other ↦ simp other (get_message-edited id new_state messages m (rw other at h))
  ]
