-- ===== src/Event/Validity.antt =====
-- What `Validate` of internal/event/model/event.go accepts.
use citywalk.Prelude.{
  String, ◌≡◌, ◌≢◌, refl, ◌↔◌, Bool, true, false, not, ◌&&◌, str_eq, eq_iff, contains, Result, ok,
  err, ◌==◌, arith, if◌then◌else◌,
}
use citywalk.Event.Model.{
  Event, Invalid, known_kinds, impression_family, variant_required, kind_custom, kind_suppression,
  known_suppression_reasons, validate, validate_family,
}

-- A well-formed event, field by field.
pub record IsWellFormed (e : Event) : Type 0 where
  pub has_id : e.id ≢ ""
  pub has_channel : e.channel_id ≢ ""
  pub has_kind : contains e.kind known_kinds ≡ true
  pub has_name : e.kind ≡ kind_custom → e.name ≢ ""
  pub has_time : e.device_time ≢ 0
  pub has_message : contains e.kind impression_family ≡ true → e.message_id ≢ ""
  pub has_variant : contains e.kind variant_required ≡ true → e.variant_id ≢ ""
  pub has_reason :
      e.kind ≡ kind_suppression → contains e.suppression_reason known_suppression_reasons ≡ true

guard_iff :
    (b : Bool) (x : Invalid) (r : Result Invalid (Unit {0}))
    → ((if b then err x else r) ≡ ok tt) ↔ ((b ≡ false) × (r ≡ ok tt))
guard_iff b x r = ground arith

str_ne_iff : (s t : String) → (str_eq s t ≡ false) ↔ (s ≢ t)
str_ne_iff s t = (λ h e. ground (arith, eq_iff s t), λ h. ground (arith, eq_iff s t))

-- A guard that fails only where a first test holds.
when_iff : (b c : Bool) → ((b && c) ≡ false) ↔ (b ≡ true → c ≡ false)
when_iff b c = ground arith

not_iff : (b : Bool) → (not b ≡ false) ↔ (b ≡ true)
not_iff b = ground arith

-- `Validate` accepts exactly the well-formed events.
pub validate_iff : (e : Event) → (validate e ≡ ok tt) ↔ IsWellFormed e
unfolding validate validate_family
validate_iff e = (accepted, well_formed)
  where
    accepted : validate e ≡ ok tt → IsWellFormed e
    accepted h =
        let (a, h1) = (guard_iff (str_eq e.id "") _ _).0 h in
        let (b, h2) = (guard_iff (str_eq e.channel_id "") _ _).0 h1 in
        let (c, h3) = (guard_iff (not (contains e.kind known_kinds)) _ _).0 h2 in
        let (d, h4) = (guard_iff (str_eq e.kind kind_custom && str_eq e.name "") _ _).0 h3 in
        let (f, h5) = (guard_iff (e.device_time == 0) _ _).0 h4 in
        let (g, h6) =
          (guard_iff (contains e.kind impression_family && str_eq e.message_id "") _ _).0 h5 in
        let (i, h7) =
          (guard_iff (contains e.kind variant_required && str_eq e.variant_id "") _ _).0 h6 in
        let (j, _) =
          (guard_iff
              (str_eq e.kind kind_suppression
                && not (contains e.suppression_reason known_suppression_reasons))
              _ _).0
            h7 in
        record {
          has_id = (str_ne_iff e.id "").0 a;
          has_channel = (str_ne_iff e.channel_id "").0 b;
          has_kind = (not_iff _).0 c;
          has_name =
              λ k. (str_ne_iff e.name "").0 ((when_iff _ _).0 d ((eq_iff e.kind kind_custom).1 k));
          has_time = λ z. absurd (ground (arith, f, z));
          has_message = λ k. (str_ne_iff e.message_id "").0 ((when_iff _ _).0 g k);
          has_variant = λ k. (str_ne_iff e.variant_id "").0 ((when_iff _ _).0 i k);
          has_reason =
              λ k. (not_iff _).0 ((when_iff _ _).0 j ((eq_iff e.kind kind_suppression).1 k));
        }

    well_formed : IsWellFormed e → validate e ≡ ok tt
    well_formed w =
        let reason =
          (when_iff (str_eq e.kind kind_suppression)
              (not (contains e.suppression_reason known_suppression_reasons))).1
            (λ k. (not_iff _).1 (w.has_reason ((eq_iff e.kind kind_suppression).0 k))) in
        let variant =
          (when_iff (contains e.kind variant_required) (str_eq e.variant_id "")).1
            (λ k. (str_ne_iff e.variant_id "").1 (w.has_variant k)) in
        let message =
          (when_iff (contains e.kind impression_family) (str_eq e.message_id "")).1
            (λ k. (str_ne_iff e.message_id "").1 (w.has_message k)) in
        let name =
          (when_iff (str_eq e.kind kind_custom) (str_eq e.name "")).1
            (λ k. (str_ne_iff e.name "").1 (w.has_name ((eq_iff e.kind kind_custom).0 k))) in
        let time : (e.device_time == 0) ≡ false = ground (arith, w.has_time) in
        (guard_iff _ _ _).1 (
          (str_ne_iff e.id "").1 w.has_id,
          (guard_iff _ _ _).1 (
            (str_ne_iff e.channel_id "").1 w.has_channel,
            (guard_iff _ _ _).1 (
              (not_iff _).1 w.has_kind,
              (guard_iff _ _ _).1 (
                name,
                (guard_iff _ _ _).1 (
                  time,
                  (guard_iff _ _ _).1
                      (message, (guard_iff _ _ _).1 (variant, (guard_iff _ _ _).1 (reason, refl))),
                ),
              ),
            ),
          ),
        )
