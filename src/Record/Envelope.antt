-- ===== src/Record/Envelope.antt =====
-- What the validation of internal/core/record/record.go ties between a record and its payload.
use specd_cli.Base.{
  ◌>>=◌, ◌>>◌, ◌≡◌, refl, ap, sym, ◌∙◌, ℕ, String, true, Option, none, some, ◌==◌, eq_iff, arith,
  ok, Outcome, >>-eq-ok, >>=-eq-ok,
}
use specd_cli.State.Replace.{Bytes}
use specd_cli.State.Tokens.{Stream}
use specd_cli.State.Defs.{count_up}
use specd_cli.Record.Types.{Record, Codec, RecordRefusal, FrictionPayload}
use specd_cli.Record.Payloads.{
  validate_attempt, validate_completion, validate_sync, validate_archive, validate_friction,
  validate_reopened,
}
use specd_cli.Record.Defs.{
  in_envelope, decode_with, validate_record, check_payload, check_attempt, check_completion,
  check_sync, check_archive, check_friction, check_reopened,
}
use specd_cli.Record.Revisions.{
  is_value_iff, Steps, moves, validate_record-parts, validate_record-Steps,
}

-- A record that moves its change, of the change, the actor and the revisions that its payload names.
pub record IsBound (r : Record) (change actor : String) (before after : ℕ) : Type 0 where
  pub same_change : change ≡ r.change
  pub same_actor : actor ≡ r.actor
  pub expected : r.expected_revision ≡ some before
  pub resulting : r.resulting_revision ≡ some after
  pub next : after ≡ count_up before

in_envelope-IsBound :
    (r : Record) (change actor : String) (before after : ℕ)
    → in_envelope r change actor before after ≡ ok tt
    → Steps r
    → IsBound r change actor before after
in_envelope-IsBound r change actor before after h steps =
    let expected = is_value_iff r.expected_revision before (ground (arith, h)) in
    let resulting = is_value_iff r.resulting_revision after (ground (arith, h)) in
    record {
      same_change = (eq_iff change r.change).0 (ground (arith, h));
      same_actor = (eq_iff actor r.actor).0 (ground (arith, h));
      expected = expected;
      resulting = resulting;
      next = cc (expected, resulting, steps.expected, steps.resulting);
    }

module _ (codec : Codec) (r : Record) where
  -- The payload decodes to a value that its own validation accepts, and that the record is bound to.
  abbrev pub Binds :
      {A : Type 0}
      → (Bytes → Option (A × Stream))
      → (A → Outcome RecordRefusal (Unit {0}))
      → (A → Type 0)
      → Type 0
  Binds {A} unmarshal check Bound =
      (v : A) × (decode_with codec unmarshal r.payload ≡ ok v) × (check v ≡ ok tt) × Bound v

  -- A check of a payload against the record around it
  binds :
      {A : Type 0} (unmarshal : Bytes → Option (A × Stream))
      (check : A → Outcome RecordRefusal (Unit {0})) (change actor : A → String)
      (before after : A → ℕ)
      → (decode_with codec unmarshal r.payload >>= λ v.
          check v >> in_envelope r (change v) (actor v) (before v) (after v))
        ≡ ok tt
      → Steps r
      → Binds unmarshal check (λ v. IsBound r (change v) (actor v) (before v) (after v))
  binds unmarshal check change actor before after h steps =
      let (v, decoded, a) = >>=-eq-ok (decode_with codec unmarshal r.payload) _ h in
      let (checked, b) = >>-eq-ok (check v) _ a in
      (v, decoded, checked, in_envelope-IsBound r (change v) (actor v) (before v) (after v) b steps)

  module _ (valid : validate_record codec r ≡ ok tt) where
    checked : check_payload codec r ≡ ok tt
    checked = (validate_record-parts codec r valid).1

    Steps-of_kind : (kind : String) → moves kind ≡ true → r.kind ≡ kind → Steps r
    Steps-of_kind kind h e = (validate_record-Steps codec r valid).0 (ap moves e ∙ h)

    check_payload-attempt : r.kind ≡ "attempt" → check_payload codec r ≡ check_attempt codec r
    unfolding check_payload
    check_payload-attempt e = rw (ap (λ k. k == "attempt") e) refl

    attempt-IsBound :
        r.kind ≡ "attempt"
        → Binds codec.unmarshal_attempt
            (validate_attempt codec.hash_attempt)
            (λ v. IsBound r v.change v.actor v.revision_before v.revision_after)
    unfolding check_attempt
    attempt-IsBound e =
        binds codec.unmarshal_attempt (validate_attempt codec.hash_attempt) (λ v. v.change)
          (λ v. v.actor) (λ v. v.revision_before) (λ v. v.revision_after)
          (sym (check_payload-attempt e) ∙ checked) (Steps-of_kind "attempt" refl e)

    check_payload-completion :
        r.kind ≡ "completion" → check_payload codec r ≡ check_completion codec r
    unfolding check_payload
    check_payload-completion e = rw (ap (λ k. k == "attempt") e, ap (λ k. k == "completion") e) refl

    completion-IsBound :
        r.kind ≡ "completion"
        → Binds codec.unmarshal_completion
            (validate_completion)
            (λ v. IsBound r v.change v.actor v.revision_before v.revision_after)
    unfolding check_completion
    completion-IsBound e =
        binds codec.unmarshal_completion (validate_completion) (λ v. v.change) (λ v. v.actor)
          (λ v. v.revision_before) (λ v. v.revision_after)
          (sym (check_payload-completion e) ∙ checked) (Steps-of_kind "completion" refl e)

    check_payload-synced : r.kind ≡ "synced" → check_payload codec r ≡ check_sync codec r
    unfolding check_payload
    check_payload-synced e =
        rw (ap (λ k. k == "attempt") e, ap (λ k. k == "completion") e, ap (λ k. k == "synced") e)
          refl

    synced-IsBound :
        r.kind ≡ "synced"
        → Binds codec.unmarshal_sync
            (validate_sync)
            (λ v. IsBound r v.change v.approver v.revision_before v.revision_after)
    unfolding check_sync
    synced-IsBound e =
        binds codec.unmarshal_sync (validate_sync) (λ v. v.change) (λ v. v.approver)
          (λ v. v.revision_before) (λ v. v.revision_after) (sym (check_payload-synced e) ∙ checked)
          (Steps-of_kind "synced" refl e)

    check_payload-archived : r.kind ≡ "archived" → check_payload codec r ≡ check_archive codec r
    unfolding check_payload
    check_payload-archived e =
        rw
          (
            ap (λ k. k == "attempt") e,
            ap (λ k. k == "completion") e,
            ap (λ k. k == "synced") e,
            ap (λ k. k == "archived") e,
          )
          refl

    archived-IsBound :
        r.kind ≡ "archived"
        → Binds codec.unmarshal_archive
            (validate_archive)
            (λ v. IsBound r v.change v.actor v.revision_before v.revision_after)
    unfolding check_archive
    archived-IsBound e =
        binds codec.unmarshal_archive (validate_archive) (λ v. v.change) (λ v. v.actor)
          (λ v. v.revision_before) (λ v. v.revision_after)
          (sym (check_payload-archived e) ∙ checked) (Steps-of_kind "archived" refl e)

    check_payload-friction : r.kind ≡ "friction" → check_payload codec r ≡ check_friction codec r
    unfolding check_payload
    check_payload-friction e =
        rw
          (
            ap (λ k. k == "attempt") e,
            ap (λ k. k == "completion") e,
            ap (λ k. k == "synced") e,
            ap (λ k. k == "archived") e,
            ap (λ k. k == "friction") e,
          )
          refl

    check_payload-reopened : r.kind ≡ "reopened" → check_payload codec r ≡ check_reopened codec r
    unfolding check_payload
    check_payload-reopened e =
        rw
          (
            ap (λ k. k == "attempt") e,
            ap (λ k. k == "completion") e,
            ap (λ k. k == "synced") e,
            ap (λ k. k == "archived") e,
            ap (λ k. k == "friction") e,
            ap (λ k. k == "reopened") e,
          )
          refl

    reopened-IsBound :
        r.kind ≡ "reopened"
        → Binds codec.unmarshal_reopened
            (validate_reopened)
            (λ v. IsBound r v.change v.actor v.revision_before v.revision_after)
    unfolding check_reopened
    reopened-IsBound e =
        binds codec.unmarshal_reopened (validate_reopened) (λ v. v.change) (λ v. v.actor)
          (λ v. v.revision_before) (λ v. v.revision_after)
          (sym (check_payload-reopened e) ∙ checked) (Steps-of_kind "reopened" refl e)

    -- What a friction record is, which observes a change and does not move it.
    abbrev Observes : FrictionPayload → Type 0
    Observes v =
        (v.change ≡ r.change)
        × (v.actor ≡ r.actor)
        × (r.expected_revision ≡ none)
        × (r.resulting_revision ≡ none)

    friction-Observes :
        r.kind ≡ "friction" → Binds codec.unmarshal_friction validate_friction Observes
    unfolding check_friction
    friction-Observes e =
        let (v, decoded, a) =
          >>=-eq-ok (decode_with codec codec.unmarshal_friction r.payload) _
            (sym (check_payload-friction e) ∙ checked) in
        let (fits, b) = >>-eq-ok (validate_friction v) _ a in
        let rests = (validate_record-Steps codec r valid).1 (ap moves e) in
        (
          v,
          decoded,
          fits,
          (
            (eq_iff v.change r.change).0 (ground (arith, b)),
            (eq_iff v.actor r.actor).0 (ground (arith, b)),
            rests.0,
            rests.1,
          ),
        )

-- A record that validates is bound to its payload. An attempt, a completion, a sync, an archive and a
-- reopening decode to a valid payload that names the change, the actor and both revisions of the
-- record, the second of them one more on words of 64 bits; a friction decodes to a valid payload that
-- names the change and the actor of the record, which carries no revision.
pub validate_record-IsBound :
    (codec : Codec) (r : Record)
    → validate_record codec r ≡ ok tt
    → (r.kind ≡ "attempt"
        → Binds codec r codec.unmarshal_attempt
            (validate_attempt codec.hash_attempt)
            (λ v. IsBound r v.change v.actor v.revision_before v.revision_after))
      × (r.kind ≡ "completion"
          → Binds codec r codec.unmarshal_completion
              (validate_completion)
              (λ v. IsBound r v.change v.actor v.revision_before v.revision_after))
      × (r.kind ≡ "synced"
          → Binds codec r codec.unmarshal_sync
              (validate_sync)
              (λ v. IsBound r v.change v.approver v.revision_before v.revision_after))
      × (r.kind ≡ "archived"
          → Binds codec r codec.unmarshal_archive
              (validate_archive)
              (λ v. IsBound r v.change v.actor v.revision_before v.revision_after))
      × (r.kind ≡ "friction"
          → Binds codec r codec.unmarshal_friction validate_friction (λ v.
            (v.change ≡ r.change)
            × (v.actor ≡ r.actor)
            × (r.expected_revision ≡ none)
            × (r.resulting_revision ≡ none)))
      × (r.kind ≡ "reopened"
          → Binds codec r codec.unmarshal_reopened
              (validate_reopened)
              (λ v. IsBound r v.change v.actor v.revision_before v.revision_after))
validate_record-IsBound codec r valid = (
  attempt-IsBound codec r valid,
  completion-IsBound codec r valid,
  synced-IsBound codec r valid,
  archived-IsBound codec r valid,
  friction-Observes codec r valid,
  reopened-IsBound codec r valid,
)
