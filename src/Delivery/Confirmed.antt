-- ===== src/Delivery/Confirmed.antt =====
-- What `Confirm` answers for a message of a payload, and after an edit.
use citywalk.Prelude.{
  sym, ◌∙◌, not, ℕ, String, ◌≡◌, refl, ap, subst, Bool, true, false, ◌&&◌, ◌||◌, List, [], ◌∷◌,
  ◌++◌, map, contains, Distinct, str_eq, eq_iff, ltb, leb, Result, ok, if◌then◌else◌, Bool-cases,
  Result-cases, inl, inr, arith,
}
use citywalk.Definition.Lifecycle.{MessageState, active, can_transition, same_state}
use citywalk.Delivery.Changelog.{record_change}
use citywalk.Delivery.Bundle.{
  Outside, StoredMessage, is_eligible, goes_first, insert_message, eligible_messages,
  eligible_message_ids, get_message,
}
use citywalk.Delivery.Cache.{invalidate_campaign, drop_audience}
use citywalk.Delivery.Edits.{
  Platform, EditError, with_change, with_redis, set_state, moved, update_state, kind_of,
  update_message_state,
}
use citywalk.Delivery.Assembly.{message_ids, get_message-edited}
use citywalk.Delivery.Confirm.{confirm}

module _ (o : Outside) where
  abbrev ids : List (StoredMessage o) → List String
  ids = map (λ m. m.id)

  contains-insert_message :
      (id : String) (m : StoredMessage o) (messages : List (StoredMessage o))
      → contains id (ids (insert_message o m messages))
        ≡ (str_eq id m.id || contains id (ids messages))
  unfolding insert_message
  contains-insert_message id m [] = refl
  contains-insert_message id m (x ∷ messages) = elim (Bool-cases (goes_first o x m)) [
    | inl first ↦ rw first (ground (arith, contains-insert_message id m messages))
    | inr behind ↦ rw behind
  ]

  eligible-Row :
      (id : String) (segment_ids : List String) (now : ℕ) (messages : List (StoredMessage o))
      → contains id (eligible_message_ids o segment_ids now messages) ≡ true
      → contains id (message_ids o messages) ≡ true
  unfolding eligible_messages
  eligible-Row id segment_ids now [] h = absurd (cc h)
  eligible-Row id segment_ids now (m ∷ messages) h =
      elim (Bool-cases (is_eligible o segment_ids now m)) [
        | inr out ↦ ground (arith, eligible-Row id segment_ids now messages (rw out at h))
        | inl chosen ↦
            let here =
              contains-insert_message id m (eligible_messages o segment_ids now messages) in
            let listed : contains id
                  (ids (insert_message o m (eligible_messages o segment_ids now messages)))
                ≡ true =
              rw chosen at h in
            ground (arith, here, listed, eligible-Row id segment_ids now messages)
      ]

  eligible-found :
      (id : String) (segment_ids : List String) (now : ℕ) (messages : List (StoredMessage o))
      → Distinct (message_ids o messages)
      → contains id (eligible_message_ids o segment_ids now messages) ≡ true
      → (m : StoredMessage o) × (get_message o messages id ≡ ok m)
        × (is_eligible o segment_ids now m ≡ true)
  unfolding eligible_messages get_message
  eligible-found id segment_ids now [] d h = absurd (cc h)
  eligible-found id segment_ids now (m ∷ messages) d h = elim (Bool-cases (str_eq m.id id)) [
    | inl same ↦
        let absent =
          subst (λ y. contains y (message_ids o messages) ≡ false) ((eq_iff m.id id).0 same) d.0 in
        elim (Bool-cases (is_eligible o segment_ids now m)) [
          | inl chosen ↦ (m, rw same, chosen)
          | inr out ↦ absurd (cc (eligible-Row id segment_ids now messages (rw out at h), absent))
        ]
    | inr other ↦
        let later : contains id (eligible_message_ids o segment_ids now messages) ≡ true =
          elim (Bool-cases (is_eligible o segment_ids now m)) [
            | inr out ↦ rw out at h
            | inl chosen ↦
                let here =
                  contains-insert_message id m (eligible_messages o segment_ids now messages) in
                let listed : contains id
                      (ids (insert_message o m (eligible_messages o segment_ids now messages)))
                    ≡ true =
                  rw chosen at h in
                ground (arith, here, listed, other, eq_iff m.id id, eq_iff id m.id)
          ] in
        let (x, found, chosen) = eligible-found id segment_ids now messages d.1 later in
        (x, rw other found, chosen)
  ]

-- Where the ids of the messages are distinct: a message that the query selects for a payload, for whatever
-- segments, is confirmed at that same instant.
pub confirm-eligible :
    (o : Outside) (id : String) (segment_ids : List String) (now : ℕ)
    (messages : List (StoredMessage o))
    → Distinct (message_ids o messages)
    → contains id (eligible_message_ids o segment_ids now messages) ≡ true
    → confirm o messages id now ≡ ok true
unfolding confirm
confirm-eligible o id segment_ids now messages d h =
    let (m, found, chosen) = eligible-found o id segment_ids now messages d h in
    let active_now : same_state m.state active ≡ true = ground (arith, chosen) in
    let opened : ltb now m.window.start ≡ false = ground (arith, chosen) in
    let still : ltb now m.window.until ≡ true = ground (arith, chosen) in
    rw (found, active_now, opened, still)

confirm-set_state :
    (o : Outside) (id : String) (new_state : MessageState) (messages : List (StoredMessage o))
    (m : StoredMessage o) (t : ℕ)
    → get_message o messages id ≡ ok m
    → confirm o (set_state o id new_state messages) id t
      ≡ ok (same_state new_state active && (leb m.window.start t && ltb t m.window.until))
unfolding confirm
confirm-set_state o id new_state messages m t found =
    rw (get_message-edited o id new_state messages m found) (
      ap (λ (b : Bool). ok b)
        (window_test (same_state new_state active) m.window.start m.window.until t))
  where
    window_test :
        (b : Bool) (start until t : ℕ)
        → (if not b then false else if ltb t start || not (ltb t until) then false else true)
          ≡ (b && (leb start t && ltb t until))
    window_test b start until t = ground arith

-- The platform behind an edit that succeeds.
abbrev after_edit :
    (o : Outside) → String → MessageState → String → ℕ → StoredMessage o → Platform o → Platform o
after_edit o id new_state subject now m p =
    with_redis o (drop_audience o m.audience_ref p.redis)
      (with_change o id (kind_of o new_state) now (moved o id new_state subject now m.state p))

update_message_state-after_edit :
    (o : Outside) (id : String) (new_state : MessageState) (subject : String) (now : ℕ)
    (p : Platform o) (m : StoredMessage o)
    → get_message o p.messages id ≡ ok m
    → can_transition m.state new_state ≡ true
    → update_message_state o id new_state subject now p
      ≡ ok (after_edit o id new_state subject now m p)
unfolding update_message_state update_state invalidate_campaign
update_message_state-after_edit o id new_state subject now p m found allowed =
    rw (found, allowed, get_message-edited o id new_state p.messages m found)

-- An edit that succeeds found the message in a state from which the new one is admitted, and appended one
-- entry with both states, the subject and the time to the audit log and one change to the log of changes.
-- From then on the message is confirmed exactly at the times in its window if the new state is active, and
-- at no time if it is another.
pub update_message_state-ok :
    (o : Outside) (id : String) (new_state : MessageState) (subject : String) (now : ℕ)
    (p q : Platform o) (t : ℕ)
    → update_message_state o id new_state subject now p ≡ ok q
    → (m : StoredMessage o) × (get_message o p.messages id ≡ ok m)
      × (can_transition m.state new_state ≡ true)
      × (q.audit_log
          ≡ p.audit_log
            ++ record {
              message_id = id;
              from_state = m.state;
              to_state = new_state;
              actor = subject;
              occurred_at = now;
            }
              ∷ [])
      × (q.change_log ≡ record_change id (kind_of o new_state) now p.change_log)
      × (confirm o q.messages id t
          ≡ ok (same_state new_state active && (leb m.window.start t && ltb t m.window.until)))
unfolding update_message_state update_state
update_message_state-ok o id new_state subject now p q t h =
    elim (Result-cases (get_message o p.messages id)) [
      | inr (e, missing) ↦ absurd (cc (rw missing at h))
      | inl (m, found) ↦ elim (Bool-cases (can_transition m.state new_state)) [
        | inr refused ↦ absurd (cc (rw (found, refused) at h))
        | inl allowed ↦
            let done = after_edit o id new_state subject now m p in
            let is_q : ◌≡◌ {A = Result EditError (Platform o)} (ok done) (ok q) =
              sym (update_message_state-after_edit o id new_state subject now p m found allowed)
              ∙ h in
            let same : done ≡ q = cc is_q in
            (
              m,
              found,
              allowed,
              ap (λ (r : Platform o). r.audit_log) (sym same),
              ap (λ (r : Platform o). r.change_log) (sym same),
              ap (λ (r : Platform o). confirm o r.messages id t) (sym same)
                  ∙ confirm-set_state o id new_state p.messages m t found,
            )
      ]
    ]
