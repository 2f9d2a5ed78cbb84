-- ===== src/Processor/Repeats.antt =====
-- Which session alerts are emitted.
use smart_ids.Base.{
  nat_eq, string_eq, ◌==◌, beq_refl, ◌≡◌, refl, ◌∙◌, List, [], ◌∷◌, All, Bool, true, false, none,
  some, String, if◌then◌else◌, Bool-cases, Option-cases, inl, inr, arith,
}
use smart_ids.Dict.{get, put, get-put, get-put_self, get-pop}
use smart_ids.Forwarding.Contracts.{Scores}
use smart_ids.Processor.Outbox.{publish}
use smart_ids.Processor.Alerts.{
  Alert, Signature, AlertState, same_signature, signature_of, named_alert, add_alert,
  emit_session_alert,
}

same_signature_refl : (s : Signature) → same_signature s s ≡ true
unfolding same_signature
same_signature_refl s = ground (arith, beq_refl s.attack_type, beq_refl s.confidence)

module _ {F : Type 0} (scores : Scores F) where
  -- After an alert that is not final its signature is noted for the session, or an equal one was.
  noted :
      (a : AlertState F) (key : String) (alert : Alert F)
      → (old : Signature) × (get
            (emit_session_alert scores a key alert false).session_alert_state
            key
          ≡ some old)
        × (same_signature old (signature_of scores alert) ≡ true)
  unfolding emit_session_alert add_alert
  noted a key alert =
      let s = signature_of scores alert in
      elim (Option-cases (get a.session_alert_state key)) [
        | inl e ↦ (s, rw e (get-put_self a.session_alert_state key s), same_signature_refl s)
        | inr (old, e) ↦ elim (Bool-cases (same_signature old s)) [
          | inl same ↦ (old, rw (e, same) e, same)
          | inr other ↦
              (s, rw (e, other) (get-put_self a.session_alert_state key s), same_signature_refl s)
        ]
      ]

  emit-same :
      (a : AlertState F) (key : String) (alert : Alert F) (old : Signature)
      → get a.session_alert_state key ≡ some old
      → same_signature old (signature_of scores alert) ≡ true
      → emit_session_alert scores a key alert false ≡ a
  unfolding emit_session_alert
  emit-same a key alert old e same = rw (emit_session_alert, e, same) refl

  -- The calls for a list of sessions, with their alerts and whether they are final.
  unfoldable pub emit_all : AlertState F → List (String × Alert F × Bool) → AlertState F
  emit_all a [] = a
  emit_all a ((key, alert, is_final) ∷ rest) =
      emit_all (emit_session_alert scores a key alert is_final) rest

  emit-other :
      (a : AlertState F) (other key : String) (alert : Alert F) (is_final : Bool)
      → (other == key) ≡ false
      → get (emit_session_alert scores a other alert is_final).session_alert_state key
        ≡ get a.session_alert_state key
  unfolding emit_session_alert add_alert
  emit-other a other key alert is_final apart = ground (
    arith,
    apart,
    get-pop (put a.session_alert_state other (signature_of scores alert)) other key,
    get-put a.session_alert_state other key (signature_of scores alert),
  )

  emit_all-others :
      (a : AlertState F) (key : String) (others : List (String × Alert F × Bool))
      → All (λ x. (x.0 == key) ≡ false) others
      → get (emit_all a others).session_alert_state key ≡ get a.session_alert_state key
  unfolding emit_all
  emit_all-others a key [] h = refl
  emit_all-others a key ((other, alert, is_final) ∷ rest) (apart, h) =
      emit_all-others (emit_session_alert scores a other alert is_final) key rest h
      ∙ emit-other a other key alert is_final apart

  -- An alert of a session that is not final is emitted once: the same alert again, after any alerts
  -- of other sessions, final or not, but none of this session, changes nothing.
  pub emit_session_alert_again :
      (a : AlertState F) (key : String) (alert : Alert F) (others : List (String × Alert F × Bool))
      → All (λ x. (x.0 == key) ≡ false) others
      → let later = emit_all (emit_session_alert scores a key alert false) others in
        emit_session_alert scores later key alert false ≡ later
  emit_session_alert_again a key alert others h =
      let (old, e, same) = noted a key alert in
      let first = emit_session_alert scores a key alert false in
      emit-same (emit_all first others) key alert old (emit_all-others first key others h ∙ e) same

  -- A final alert is always published, as the last one, with the session's name and marked as
  -- final, and the session is forgotten, so that the next alert with its key counts as a new one;
  -- other sessions keep what was noted of them.
  pub emit_session_alert_final :
      (a : AlertState F) (key : String) (alert : Alert F)
      → ((emit_session_alert scores a key alert true).alert_publisher
          ≡ publish a.alert_publisher (named_alert alert key "final"))
        × ((other : String)
            → get (emit_session_alert scores a key alert true).session_alert_state other
              ≡ (if key == other then none else get a.session_alert_state other))
  unfolding emit_session_alert add_alert
  emit_session_alert_final a key alert = (
    ground arith,
    λ other. ground (
      arith,
      get-pop (put a.session_alert_state key (signature_of scores alert)) key other,
      get-put a.session_alert_state key other (signature_of scores alert),
    ),
  )
