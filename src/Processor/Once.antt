-- ===== src/Processor/Once.antt =====
-- A backend command is carried out once, and a command that failed leaves no trace in the store.
use smart_ids.Base.{
  string_eq, ◌==◌, ℕ, suc, ◌+◌, ◌<◌, List, [], ◌∷◌, length, subst, ◌≡◌, refl, ap, sym, Bool, true,
  false, Option, String, Bool-cases, Option-cases, inl, inr, arith,
}
use smart_ids.Dict.{contains}
use smart_ids.Text.{strip, strip-strip}
use smart_ids.Packet.{Time}
use smart_ids.Response.Firewall.{FirewallAdapter}
use smart_ids.Response.Commands.{contains_id, add_id, normalize}
use smart_ids.Response.Commands.Recent.{
  IsRecent, IsRecent-contains, add_id-max, add_id-fresh, contains_id-same, add_id-IsRecent,
}
use smart_ids.Response.Blocker.{AutoBlocker, Reply}
use smart_ids.Processor.{BackendCommand, CommandProcessor, note_command, apply_backend_command}
use smart_ids.Processor.Steps.{
  action_result, apply, is_invalid, is_known, apply-known, apply-invalid, apply-unsupported,
  apply-done, apply-store,
}

module _ {S : Type 0} (adapter : FirewallAdapter S) (parse_ip : String → Option Bool)
    (lower : String → String) where
  -- Commands with the times at which they come.
  unfoldable pub apply_all : CommandProcessor S → List (BackendCommand × Time) → CommandProcessor S
  unfolding apply_backend_command
  apply_all p [] = p
  apply_all p ((c, now) ∷ rest) = apply_all (apply adapter parse_ip lower p c now).0 rest

  -- Fewer newer commands than the store has room for leave an identifier in it.
  apply_all-contains :
      (p : CommandProcessor S) (others : List (BackendCommand × Time)) (command_id : String) (n : ℕ)
      → n + length others < p.processed_command_store.max_command_ids
      → IsRecent command_id n p.processed_command_store
      → contains command_id (apply_all p others).processed_command_store.command_ids ≡ true
  unfolding apply_all
  apply_all-contains p [] command_id n room r =
      IsRecent-contains command_id n p.processed_command_store r
  apply_all-contains p ((c, now) ∷ rest) command_id n room r =
      let store = p.processed_command_store in
      let after = (apply adapter parse_ip lower p c now).0 in
      elim (apply-store adapter parse_ip lower p c now) [
        | inl same ↦
            apply_all-contains after rest command_id n
              (omega (arith, room, ap (λ s. s.max_command_ids) same))
              (subst (IsRecent command_id n) (sym same) r)
        | inr added ↦
            apply_all-contains after rest command_id (suc n)
              (omega (
                arith,
                room,
                ap (λ s. s.max_command_ids) added,
                add_id-max store (strip c.command_id),
              ))
              (subst (IsRecent command_id (suc n)) (sym added)
                (add_id-IsRecent store command_id (strip c.command_id) n (omega (arith, room)) r))
      ]

  -- A command that was carried out with success is the newest in the store.
  note_command-store :
      (p : CommandProcessor S) (command_id action ip : String) (b : AutoBlocker S) (reply : Reply)
      (now : Time)
      → (command_id == "") ≡ false
      → (note_command adapter parse_ip p command_id action ip now (b, reply)).1.0 ≡ true
      → (note_command adapter parse_ip p command_id action ip now
          (b, reply)).0.processed_command_store
        ≡ add_id p.processed_command_store command_id
  unfolding note_command
  note_command-store p command_id action ip b reply now filled ok = elim (Bool-cases reply.0) [
    | inl done ↦ rw (done, filled) refl
    | inr failed ↦ absurd (ground (arith, failed, ok))
  ]

  module _ (p : CommandProcessor S) (c : BackendCommand) (now : Time)
      (filled : (strip c.command_id == "") ≡ false)
      (new : contains_id p.processed_command_store (strip c.command_id) ≡ false)
      (ok : (apply adapter parse_ip lower p c now).1.0 ≡ true) where
    valid : is_invalid adapter parse_ip lower c ≡ false
    valid = elim (Bool-cases (is_invalid adapter parse_ip lower c)) [
      | inr e ↦ e
      | inl e ↦
          let refused = ap (λ r. r.1.0) (apply-invalid adapter parse_ip lower p c now e) in
          absurd (ground (arith, ok, refused))
    ]

    unknown : is_known adapter parse_ip lower p c ≡ false
    unknown = rw (filled, new) refl

    added :
        (apply adapter parse_ip lower p c now).0.processed_command_store
        ≡ add_id p.processed_command_store (strip c.command_id)
    added = elim (Option-cases (action_result adapter parse_ip lower p c now)) [
      | inl e ↦
          let refused =
            ap (λ r. r.1.0) (apply-unsupported adapter parse_ip lower p c now valid unknown e) in
          absurd (ground (arith, ok, refused))
      | inr ((b, reply), e) ↦
          let same = apply-done adapter parse_ip lower p c now (b, reply) valid unknown e in
          rw same (
            note_command-store p (strip c.command_id) (lower (strip c.action)) (strip c.ip_address)
              b reply now filled (rw (sym same) ok))
    ]

    added-IsRecent :
        0 < p.processed_command_store.max_command_ids
        → IsRecent
            (strip c.command_id)
            0
            (apply adapter parse_ip lower p c now).0.processed_command_store
    added-IsRecent positive = subst (IsRecent (strip c.command_id) 0) (sym added) (
        add_id-fresh p.processed_command_store (strip c.command_id)
          (unfold normalize in strip-strip c.command_id) filled positive new)

  -- A command with an identifier that the store did not know, and that was answered with success,
  -- is carried out once: the same command again, after other commands that are fewer than the
  -- identifiers that the store keeps, is answered as a duplicate and changes nothing.
  pub apply_backend_command_once :
      (p : CommandProcessor S) (c : BackendCommand) (now later : Time)
      (others : List (BackendCommand × Time))
      → length others < p.processed_command_store.max_command_ids
      → (strip c.command_id == "") ≡ false
      → contains_id p.processed_command_store (strip c.command_id) ≡ false
      → (apply adapter parse_ip lower p c now).1.0 ≡ true
      → let after = apply_all (apply adapter parse_ip lower p c now).0 others in
        apply adapter parse_ip lower after c later ≡ (after, (true, "duplicate_command"))
  apply_backend_command_once p c now later others room filled new ok =
      let first = (apply adapter parse_ip lower p c now).0 in
      let same_max = ap (λ s. s.max_command_ids) (added p c now filled new ok) in
      let found =
        apply_all-contains first others (strip c.command_id) 0
          (omega (arith, room, same_max, add_id-max p.processed_command_store (strip c.command_id)))
          (added-IsRecent p c now filled new ok (omega (arith, room))) in
      apply-known adapter parse_ip lower (apply_all first others) c later
        (valid p c now filled new ok)
        (rw
          (
            filled,
            contains_id-same (apply_all first others).processed_command_store (strip c.command_id)
                (unfold normalize in strip-strip c.command_id) filled,
            found,
          )
          refl)

  note_command-failed :
      (p : CommandProcessor S) (command_id action ip : String) (b : AutoBlocker S) (reply : Reply)
      (now : Time)
      → (note_command adapter parse_ip p command_id action ip now (b, reply)).1.0 ≡ false
      → ((note_command adapter parse_ip p command_id action ip now
            (b, reply)).0.processed_command_store
          ≡ p.processed_command_store)
        × ((note_command adapter parse_ip p command_id action ip now
              (b, reply)).0.block_event_publisher
            ≡ p.block_event_publisher)
  unfolding note_command
  note_command-failed p command_id action ip b reply now failed = elim (Bool-cases (reply.0)) [
    | inl done ↦ absurd (ground (arith, failed, done))
    | inr not_done ↦ rw not_done (refl, refl)
  ]

  -- A command that was answered with failure, for whatever reason, is not remembered, so that it
  -- can be sent again, and publishes no event.
  pub apply_backend_command_failed :
      (p : CommandProcessor S) (c : BackendCommand) (now : Time)
      → (apply adapter parse_ip lower p c now).1.0 ≡ false
      → ((apply adapter parse_ip lower p c now).0.processed_command_store
          ≡ p.processed_command_store)
        × ((apply adapter parse_ip lower p c now).0.block_event_publisher ≡ p.block_event_publisher)
  apply_backend_command_failed p c now failed =
      elim (Bool-cases (is_invalid adapter parse_ip lower c)) [
        | inl invalid ↦ rw (apply-invalid adapter parse_ip lower p c now invalid) (refl, refl)
        | inr valid ↦ elim (Bool-cases (is_known adapter parse_ip lower p c)) [
          | inl known ↦ rw (apply-known adapter parse_ip lower p c now valid known) (refl, refl)
          | inr new ↦ elim (Option-cases (action_result adapter parse_ip lower p c now)) [
            | inl e ↦ rw (apply-unsupported adapter parse_ip lower p c now valid new e) (refl, refl)
            | inr ((b, reply), e) ↦
                let same = apply-done adapter parse_ip lower p c now (b, reply) valid new e in
                rw same (
                  note_command-failed p (strip c.command_id) (lower (strip c.action))
                    (strip c.ip_address) b reply now (rw (sym same) failed))
          ]
        ]
      ]
