-- ===== src/Processor/Steps.antt =====
-- What one backend command does, by its branches.
use smart_ids.Base.{
  string_eq, ◌==◌, ◌⊎◌, ◌≡◌, refl, Bool, true, false, ◌&&◌, ◌||◌, not, Option, none, some, String,
  Bool-cases, Option-cases, inl, inr,
}
use smart_ids.Text.{strip}
use smart_ids.Packet.{Time}
use smart_ids.Response.Firewall.{FirewallAdapter}
use smart_ids.Response.Commands.{contains_id, add_id}
use smart_ids.Response.Blocker.{AutoBlocker, Reply}
use smart_ids.Processor.{
  BackendCommand, CommandProcessor, duration_of, run_action, note_command, apply_backend_command,
}

-- What the action of the command answers.
abbrev pub action_result :
    {S : Type 0}
    → FirewallAdapter S
    → (String → Option Bool)
    → (String → String)
    → CommandProcessor S
    → BackendCommand
    → Time
    → Option (AutoBlocker S × Reply)
action_result adapter parse_ip lower p c now =
    run_action adapter parse_ip p.auto_blocker (lower (strip c.action)) (strip c.ip_address)
      (duration_of c.duration_seconds) now

module _ {S : Type 0} (adapter : FirewallAdapter S) (parse_ip : String → Option Bool)
    (lower : String → String) where
  abbrev pub apply : CommandProcessor S → BackendCommand → Time → CommandProcessor S × Reply
  apply = apply_backend_command adapter parse_ip lower

  abbrev pub is_invalid : BackendCommand → Bool
  is_invalid c = lower (strip c.action) == "" || strip c.ip_address == ""

  abbrev pub is_known : CommandProcessor S → BackendCommand → Bool
  is_known p c =
      not (strip c.command_id == "") && contains_id p.processed_command_store (strip c.command_id)

  -- A known command changes nothing.
  pub apply-known :
      (p : CommandProcessor S) (c : BackendCommand) (now : Time)
      → is_invalid c ≡ false
      → is_known p c ≡ true
      → apply p c now ≡ (p, (true, "duplicate_command"))
  unfolding apply_backend_command
  apply-known p c now valid known = rw (valid, known) refl

  pub apply-invalid :
      (p : CommandProcessor S) (c : BackendCommand) (now : Time)
      → is_invalid c ≡ true
      → apply p c now ≡ (p, (false, "invalid_command"))
  unfolding apply_backend_command
  apply-invalid p c now invalid = rw invalid refl

  pub apply-unsupported :
      (p : CommandProcessor S) (c : BackendCommand) (now : Time)
      → is_invalid c ≡ false
      → is_known p c ≡ false
      → run_action adapter parse_ip p.auto_blocker
          (lower (strip c.action))
          (strip c.ip_address)
          (duration_of c.duration_seconds)
          now
        ≡ none
      → apply p c now ≡ (p, (false, "unsupported_action"))
  unfolding apply_backend_command
  apply-unsupported p c now valid new e = rw (valid, new, e) refl

  pub apply-done :
      (p : CommandProcessor S) (c : BackendCommand) (now : Time) (done : AutoBlocker S × Reply)
      → is_invalid c ≡ false
      → is_known p c ≡ false
      → run_action adapter parse_ip p.auto_blocker
          (lower (strip c.action))
          (strip c.ip_address)
          (duration_of c.duration_seconds)
          now
        ≡ some done
      → apply p c now
        ≡ note_command adapter parse_ip p
            (strip c.command_id)
            (lower (strip c.action))
            (strip c.ip_address)
            now
            done
  unfolding apply_backend_command
  apply-done p c now done valid new e = rw (valid, new, e) refl

  -- What a command does to the store.
  pub apply-store :
      (p : CommandProcessor S) (c : BackendCommand) (now : Time)
      → ((apply p c now).0.processed_command_store ≡ p.processed_command_store)
        ⊎ ((apply p c now).0.processed_command_store
            ≡ add_id p.processed_command_store (strip c.command_id))
  unfolding note_command
  apply-store p c now = elim (Bool-cases (is_invalid c)) [
    | inl invalid ↦ rw (apply-invalid p c now invalid) (inl refl)
    | inr valid ↦ elim (Bool-cases (is_known p c)) [
      | inl known ↦ rw (apply-known p c now valid known) (inl refl)
      | inr new ↦ elim (Option-cases (action_result adapter parse_ip lower p c now)) [
        | inl e ↦ rw (apply-unsupported p c now valid new e) (inl refl)
        | inr ((b, reply), e) ↦
            rw (apply-done p c now (b, reply) valid new e) (elim (Bool-cases reply.0) [
              | inr failed ↦ rw failed (inl refl)
              | inl done ↦ elim (Bool-cases (strip c.command_id == "")) [
                | inl blank ↦ rw (done, blank) (inl refl)
                | inr filled ↦ rw (done, filled) (inr refl)
              ]
            ])
      ]
    ]
  ]
