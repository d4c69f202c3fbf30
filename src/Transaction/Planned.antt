-- ===== src/Transaction/Planned.antt =====
-- What `plan` (internal/core/transaction/transaction.go) says of the bytes that a commit stages.
use specd_cli.Base.{
  ◌≡◌, refl, sym, ap, ◌∙◌, subst, ◌⊎◌, inl, inr, ℕ, zero, suc, String, true, false, not, ◌&&◌, ◌||◌,
  Option, none, some, List, [], ◌∷◌, ◌==◌, eq_iff, arith, Bool-cases, Option-cases, contains, ok,
  ok_injective, some_injective, >>-eq-ok, >>=-eq-ok, refuse_if-eq-ok, trim_space, nat_eq, length,
}
use Prim.Native.String.{compare}
use text.Mathlib.Text.{is_le}
use specd_cli.Evidence.Defs.{digest}
use specd_cli.State.Replace.{Bytes}
use specd_cli.State.Defs.{needs}
use specd_cli.Transaction.Types.{
  bytes_required, undeclared, clock_required, nothing_declared, Write, Output, Manifest, Request,
  Outside, repeated, bad_source_hash,
}
use specd_cli.Transaction.Plan.{
  valid_relative, insert_output, sort_outputs, sort_moves, check_moves, bytes_or_none, plan_outputs,
  plan_record, validate_manifest, plan,
}
use specd_cli.Transaction.Commit.{bytes_for}
use specd_cli.Transaction.Recoverable.{nth}
use specd_cli.Transaction.Staging.{planned}

-- Every element of a list that sorting gives is one of the list.
abbrev Has : Output → List Output → Type 0
Has o outputs = (i : ℕ) × (nth i outputs ≡ some o)

front-Has : (x : Output) (ys : List Output) (o : Output) → Has o (x ∷ ys) → (x ≡ o) ⊎ Has o ys
front-Has x ys o (zero, h) = inl (some_injective h)
front-Has x ys o (suc i, h) = inr (i, h)

module _ (x y : Output) (ys : List Output) where
  insert-first : is_le (compare x.path y.path) ≡ true → insert_output x (y ∷ ys) ≡ x ∷ y ∷ ys
  unfolding insert_output
  insert-first e = rw e refl

  insert-later :
      is_le (compare x.path y.path) ≡ false → insert_output x (y ∷ ys) ≡ y ∷ insert_output x ys
  unfolding insert_output
  insert-later e = rw e refl

insert-Has :
    (x : Output) (ys : List Output) (o : Output) → Has o (insert_output x ys) → (x ≡ o) ⊎ Has o ys
unfolding insert_output
insert-Has x [] o h = front-Has x [] o h
insert-Has x (y ∷ ys) o h = elim (Bool-cases (is_le (compare x.path y.path))) [
  | inl e ↦ front-Has x (y ∷ ys) o (subst (Has o) (insert-first x y ys e) h)
  | inr e ↦ elim (front-Has y (insert_output x ys) o (subst (Has o) (insert-later x y ys e) h)) [
    | inl q ↦ inr (0, ap some q)
    | inr k ↦ elim (insert-Has x ys o k) [ inl q ↦ inl q | inr (i, there) ↦ inr (suc i, there) ]
  ]
]

sort-Has : (xs : List Output) (o : Output) → Has o (sort_outputs xs) → Has o xs
unfolding sort_outputs
sort-Has [] o h = h
sort-Has (x ∷ xs) o h = elim (insert-Has x (sort_outputs xs) o h) [
  | inl e ↦ (0, ap some e)
  | inr k ↦ let (i, there) = sort-Has xs o k in (suc i, there)
]

needs_some :
    {E : Type 0} (found : Option Bytes) (refusal : E) {raw : Bytes}
    → needs found refusal ≡ ok raw
    → bytes_or_none found ≡ raw
needs_some none refusal h = cc
needs_some (some raw) refusal h = ok_injective refl h

module _ (outside : Outside) where
  abbrev output_with : Write → Bytes → Output
  output_with w raw = record {
    path = w.path;
    before = w.before;
    after = outside.codec.sha256_hex raw;
  }

  abbrev output_of : Write → Output
  output_of w = output_with w (bytes_or_none w.bytes)

  -- A turn of the loop that succeeds
  plan_outputs-parts :
      (seen : List String) (w : Write) (ws : List Write) (outputs : List Output)
      → plan_outputs outside seen (w ∷ ws) ≡ ok outputs
      → (contains seen w.path ≡ false)
        × ((rest : List Output) × ((plan_outputs outside (w.path ∷ seen) ws ≡ ok rest)
              × (output_of w ∷ rest ≡ outputs)))
  unfolding plan_outputs
  plan_outputs-parts seen w ws outputs h =
      let a = >>-eq-ok (valid_relative w.path) _ h in
      let b = refuse_if-eq-ok (contains seen w.path) (repeated w.path) _ a.1 in
      let c =
        refuse_if-eq-ok (not (w.before == "") && not (digest w.before)) (bad_source_hash w.path) _
          b.1 in
      let (raw, found, d) = >>=-eq-ok (needs w.bytes (bytes_required w.path)) _ c.1 in
      let (rest, more, done) = >>=-eq-ok (plan_outputs outside (w.path ∷ seen) ws) _ d in
      let same : output_of w ≡ output_with w raw =
        ap (output_with w) (needs_some w.bytes (bytes_required w.path) found) in
      (b.0, (rest, (more, ap (λ o. o ∷ rest) same ∙ ok_injective refl done)))

  no_outputs :
      (seen : List String) (outputs : List Output)
      → plan_outputs outside seen [] ≡ ok outputs
      → [] ≡ outputs
  unfolding plan_outputs
  no_outputs seen outputs h = ok_injective refl h

  -- No later write declares a path that the loop has seen.
  unseen :
      (seen : List String) (ws : List Write) (outputs : List Output) (p : String)
      → plan_outputs outside seen ws ≡ ok outputs
      → contains seen p ≡ true
      → bytes_for ws p ≡ none
  unfolding bytes_for contains
  unseen seen [] outputs p h c = refl
  unseen seen (w ∷ ws) outputs p h c =
      let (fresh, (rest, (more, e))) = plan_outputs-parts seen w ws outputs h in
      let other : (w.path == p) ≡ false = elim (Bool-cases (w.path == p)) [
        | inl q ↦ cc (fresh, c, ap (contains seen) ((eq_iff w.path p).0 q))
        | inr q ↦ q
      ] in
      let none_later = unseen (w.path ∷ seen) ws rest p more (ground (arith, c)) in
      rw (none_later, other) refl

  first_bytes :
      (w : Write) (ws : List Write) (outputs : List Output) (seen : List String)
      → plan_outputs outside seen ws ≡ ok outputs
      → contains seen w.path ≡ true
      → bytes_or_none (bytes_for (w ∷ ws) w.path) ≡ bytes_or_none w.bytes
  unfolding bytes_for
  first_bytes w ws outputs seen h c =
      rw (unseen seen ws outputs w.path h c, (eq_iff w.path w.path).1 refl) refl

  later_bytes :
      (w : Write) (ws : List Write) (p : String)
      → (w.path == p) ≡ false
      → bytes_or_none (bytes_for (w ∷ ws) p) ≡ bytes_or_none (bytes_for ws p)
  unfolding bytes_for
  later_bytes w ws p e = elim (Option-cases (bytes_for ws p)) [
    | inl n ↦ rw (n, e) refl
    | inr (raw, f) ↦ rw f refl
  ]

  not_first :
      (x : String) (seen : List String) (p : String)
      → contains (x ∷ seen) p ≡ false
      → ((x == p) ≡ false) × (contains seen p ≡ false)
  unfolding contains
  not_first x seen p h = (ground (arith, h), ground (arith, h))

  first_seen : (x : String) (seen : List String) → contains (x ∷ seen) x ≡ true
  unfolding contains
  first_seen x seen = ground (arith, eq_iff x x)

  outputs-digests :
      (seen : List String) (ws : List Write) (outputs : List Output) (o : Output)
      → plan_outputs outside seen ws ≡ ok outputs
      → Has o outputs
      → (contains seen o.path ≡ false) × (outside.codec.sha256_hex (planned ws o) ≡ o.after)
  outputs-digests seen [] outputs o h k =
      absurd (cc ((subst (Has o) (sym (no_outputs seen outputs h)) k).1))
  outputs-digests seen (w ∷ ws) outputs o h k =
      let (fresh, (rest, (more, e))) = plan_outputs-parts seen w ws outputs h in
      elim (front-Has (output_of w) rest o (subst (Has o) (sym e) k)) [
        | inl q ↦
            subst
              (λ (o : Output).
                (contains seen o.path ≡ false)
                × (outside.codec.sha256_hex (planned (w ∷ ws) o) ≡ o.after))
              q
              (
                fresh,
                ap outside.codec.sha256_hex
                    (first_bytes w ws rest (w.path ∷ seen) more (first_seen w.path seen)),
              )
        | inr there ↦
            let later = outputs-digests (w.path ∷ seen) ws rest o more there in
            (
              (not_first w.path seen o.path later.0).1,
              ap outside.codec.sha256_hex
                    (later_bytes w ws o.path (not_first w.path seen o.path later.0).0)
                  ∙ later.1,
            )
      ]

-- The parts of a request that `plan` accepts.
plan-outputs :
    (outside : Outside) (request : Request) (m : Manifest)
    → plan outside request ≡ ok m
    → (outputs : List Output) × (plan_outputs outside [] request.outputs ≡ ok outputs)
      × (m.outputs ≡ sort_outputs outputs)
      × (m.moves ≡ sort_moves request.moves)
      × (validate_manifest outside m ≡ ok tt)
unfolding plan
plan-outputs outside request m h =
    let a =
      refuse_if-eq-ok
        (trim_space request.operation == ""
          || trim_space request.change == ""
          || nat_eq request.revision 0)
        undeclared _ h in
    let (now, started, b) = >>=-eq-ok (needs request.now clock_required) _ a.1 in
    let c =
      refuse_if-eq-ok (nat_eq (length request.outputs) 0 && nat_eq (length request.moves) 0)
        nothing_declared _ b in
    let (outputs, listed, d) = >>=-eq-ok (plan_outputs outside [] request.outputs) _ c.1 in
    let e = >>-eq-ok (check_moves request.moves) _ d in
    let (raw, recorded, f) =
      >>=-eq-ok (plan_record outside request.change request.bound_record) _ e.1 in
    let g = >>-eq-ok (validate_manifest outside _) _ f in
    let same = ok_injective refl g.1 in
    (
      outputs,
      listed,
      sym (ap (λ (m : Manifest). m.outputs) same),
      sym (ap (λ (m : Manifest). m.moves) same),
      subst (λ m. validate_manifest outside m ≡ ok tt) same g.0,
    )

-- Each output of a manifest that `plan` makes is staged with bytes of the digest it declares: those of
-- the one write of its path. The manifest is valid.
pub plan-digests :
    (outside : Outside) (request : Request) (m : Manifest)
    → plan outside request ≡ ok m
    → ((i : ℕ) (o : Output)
        → nth i m.outputs ≡ some o
        → outside.codec.sha256_hex (planned request.outputs o) ≡ o.after)
      × (validate_manifest outside m ≡ ok tt)
plan-digests outside request m h =
    let (outputs, done, sorted, moves, valid) = plan-outputs outside request m h in
    (
      λ i o there.
          (outputs-digests outside [] request.outputs outputs o done
            (sort-Has outputs o (subst (Has o) sorted (i, there)))).1,
      valid,
    )

pub plan-moves :
    (outside : Outside) (request : Request) (m : Manifest)
    → plan outside request ≡ ok m
    → request.moves ≡ []
    → m.moves ≡ []
unfolding sort_moves
plan-moves outside request m h none_asked =
    let (outputs, done, sorted, moves, valid) = plan-outputs outside request m h in
    moves ∙ ap sort_moves none_asked
