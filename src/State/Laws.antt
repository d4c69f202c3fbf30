-- ===== src/State/Laws.antt =====
-- What validation, encoding and mutation of the state file do: internal/core/state.
use specd_cli.Base.{
  ℕ, ◌+◌, ◌<◌, String, ◌≡◌, ◌≢◌, refl, subst, ap, ◌∙◌, ◌⊎◌, inl, inr, Bool, true, false, Option,
  none, some, nat_eq, is_some, Outcome, ok, err, refuse_if, ℤ, pos, arith, eq_iff, Outcome-cases,
  Bool-cases,
}
use Prim.Native.Nat.{◌^◌}
use specd_cli.State.Replace.{
  Bytes, Files, System, sync_directory, atomic_replace, atomic_replace-whole, Replaced-cases,
  Action-cases,
}
use specd_cli.State.Tokens.{Stream}
use specd_cli.State.Defs.{
  State, StateRefusal, stale_revision, replace_fails, same_int, valid_stage, validate, count_up,
  needs, refused_as, encode, decode, prepare_mutation, mutate_state,
}

abbrev pub IsValid : {J : Type 0} → String → State J → Type 0
IsValid change s =
    (s.schema_version ≡ pos 1)
    × (s.change ≡ change)
    × (change ≢ "")
    × (valid_stage s.stage ≡ true)
    × (s.condition ≡ "active")
    × (0 < s.revision)
    × (is_some s.approvals ≡ true)
    × (is_some s.tasks ≡ true)
    × (s.created_by ≢ "")
    × (s.last_transition ≢ "")

same_int-eq : (m n : ℤ) → same_int m n ≡ true → m ≡ n
same_int-eq (pos m) (pos n) h = ap pos (ground arith)
same_int-eq (pos m) (ℤ.negsuc n) h = absurd (ground arith)
same_int-eq (ℤ.negsuc m) (pos n) h = absurd (ground arith)
same_int-eq (ℤ.negsuc m) (ℤ.negsuc n) h = ap ℤ.negsuc (ground arith)

validate-IsValid :
    {J : Type 0} (s : State J) (change : String) {u : Unit {0}}
    → validate s change ≡ ok u
    → IsValid change s
unfolding validate
validate-IsValid s change h = ground (
  arith,
  same_int-eq s.schema_version (pos 1),
  eq_iff s.change change,
  eq_iff s.change "",
  eq_iff s.condition "active",
  eq_iff s.created_by "",
  eq_iff s.last_transition "",
)

count_up-lt : (n : ℕ) → n < 2 ^ 64 → 0 < count_up n → count_up n ≡ n + 1
unfolding count_up
count_up-lt n h p = omega arith

refused_as-ok :
    {E F : Type 0} {A : Type 0} (wrap : E → F) (m : Outcome E A) {a : A}
    → refused_as wrap m ≡ ok a
    → m ≡ ok a
refused_as-ok wrap (ok a) h = cc
refused_as-ok wrap (err e) h = cc

needs-ok : {E : Type 0} {A : Type 0} (o : Option A) (e : E) {a : A} → needs o e ≡ ok a → o ≡ some a
needs-ok none e h = cc
needs-ok (some a) e h = cc

refuse_if-ok :
    {E : Type 0} (bad : Bool) (e : E) {u : Unit {0}} → refuse_if bad e ≡ ok u → bad ≡ false
refuse_if-ok true e h = cc
refuse_if-ok false e h = refl

module _ {J : Type 0} (marshal : State J → Option Bytes)
    (unmarshal : Bytes → Option (State J × Stream)) (stream_of : Bytes → Stream) where
  -- What a prepared mutation consists of.
  abbrev pub Prepared :
      Option Bytes
      → String
      → ℕ
      → (State J → Outcome StateRefusal (State J))
      → State J
      → Bytes
      → Type 0
  Prepared content change revision mutator next encoded =
      (bytes : Bytes) × (current : State J) × (mutated : State J) × (content ≡ some bytes)
      × (decode marshal unmarshal stream_of bytes change ≡ ok current)
      × (current.revision ≡ revision)
      × (mutator current ≡ ok mutated)
      × (next ≡ record mutated { revision = count_up mutated.revision })
      × (encode marshal unmarshal stream_of next ≡ ok encoded)
      × IsValid change current
      × IsValid change next
      × (mutated.revision < 2 ^ 64 → next.revision ≡ mutated.revision + 1)

  decode-IsValid :
      (bytes : Bytes) (change : String) {s : State J}
      → decode marshal unmarshal stream_of bytes change ≡ ok s
      → IsValid change s
  unfolding decode
  decode-IsValid bytes change {s} h = ground (arith, validate-IsValid s change {u = tt})

  encode-IsValid :
      (s : State J) {encoded : Bytes}
      → encode marshal unmarshal stream_of s ≡ ok encoded
      → IsValid s.change s
  unfolding encode
  encode-IsValid s h = ground (arith, validate-IsValid s s.change {u = tt})

  prepare_mutation-Prepared :
      (content : Option Bytes) (change : String) (revision : ℕ)
      (mutator : State J → Outcome StateRefusal (State J)) (next : State J) (encoded : Bytes)
      → prepare_mutation marshal unmarshal stream_of content change revision mutator
        ≡ ok (next, encoded)
      → Prepared content change revision mutator next encoded
  unfolding prepare_mutation
  prepare_mutation-Prepared none change revision mutator next encoded h = cc
  prepare_mutation-Prepared (some bytes) change revision mutator next encoded h =
      elim (Outcome-cases (decode marshal unmarshal stream_of bytes change)) [
        | inr (e, refused) ↦ absurd (ground (arith, refused))
        | inl (current, read) ↦ elim (Outcome-cases (mutator current)) [
          | inr (e, refused) ↦ absurd (ground (arith, read, refused))
          | inl (mutated, made) ↦
              let encodes : encode marshal unmarshal stream_of next ≡ ok encoded =
                ground (arith, read, made) in
              let same : next.change ≡ current.change =
                ground (arith, read, made, eq_iff mutated.change current.change) in
              let counted : next.revision ≡ count_up mutated.revision =
                ground (arith, read, made) in
              let valid = decode-IsValid bytes change read in
              let valid' : IsValid change next =
                subst (λ c. IsValid c next) (same ∙ valid.1) (encode-IsValid next encodes) in
              (
                bytes,
                current,
                mutated,
                refl,
                read,
                ground (arith, read, made),
                made,
                ground (arith, read, made),
                encodes,
                valid,
                valid',
                λ b. counted ∙ count_up-lt mutated.revision b (rw counted at valid'.5),
              )
        ]
      ]

  -- A mutation that succeeds read a valid state under the expected revision, and left the encoding of
  -- a valid state in the file: the one that the mutator makes of it, its revision counted up by one
  -- (which is no wrap-around, since 0 would be refused). A mutation that fails leaves the content
  -- as it was, unless the directory could not be synced after the rename.
  pub mutate_state-commits :
      (system : System) (locked : Bool) (files : Files) (change : String) (revision : ℕ)
      (mutator : State J → Outcome StateRefusal (State J))
      → let (result, files') =
          mutate_state marshal unmarshal stream_of system locked files change revision mutator in
        ((next : State J)
          → result ≡ ok next
          → (encoded : Bytes) × Prepared files.content change revision mutator next encoded
            × (files'.content ≡ some encoded))
        × ((e : StateRefusal)
            → result ≡ err e
            → (files'.content ≡ files.content) ⊎ (e ≡ replace_fails sync_directory))
  unfolding mutate_state
  mutate_state-commits system locked files change revision mutator = elim (Bool-cases locked) [
    | inr free ↦ rw free (λ next h. cc, λ e h. inl refl)
    | inl held ↦
        elim (Outcome-cases
          (prepare_mutation marshal unmarshal stream_of files.content change revision mutator)) [
            | inr (e, refused) ↦ rw (held, refused) (λ next h. cc, λ e' h. inl refl)
            | inl ((next, encoded), prepared) ↦
                let whole = atomic_replace-whole system (λ step. false) encoded files in
                let parts =
                  prepare_mutation-Prepared files.content change revision mutator next encoded
                    prepared in
                elim (Replaced-cases (atomic_replace system (λ step. false) encoded files).0) [
                  | inl done ↦
                      rw (held, prepared, done)
                        (
                          λ next' h.
                              let same : next ≡ next' = ground arith in
                              (
                                encoded,
                                subst
                                    (λ n. Prepared files.content change revision mutator n encoded)
                                    same parts,
                                (whole.0 done).0,
                              ),
                          λ e h. cc,
                        )
                  | inr (a, stopped) ↦
                      rw (held, prepared, stopped)
                        (
                          λ next' h. cc,
                          λ e h. elim (Action-cases a) [
                            | inl late ↦ inr (ground arith)
                            | inr early ↦ inl (whole.1 a stopped early)
                          ],
                        )
                ]
          ]
  ]

  mutate_state-stale :
      (system : System) (files : Files) (change : String) (revision : ℕ)
      (mutator : State J → Outcome StateRefusal (State J)) (bytes : Bytes) (s : State J)
      → files.content ≡ some bytes
      → decode marshal unmarshal stream_of bytes change ≡ ok s
      → nat_eq s.revision revision ≡ false
      → (mutate_state marshal unmarshal stream_of system true files change revision mutator).0
        ≡ err (stale_revision revision s.revision)
  unfolding mutate_state prepare_mutation
  mutate_state-stale system files change revision mutator bytes s found read other =
      rw (found, read, other)

  -- Of two mutations that expect the same revision the second is refused as stale: where the first
  -- succeeds with a mutator that leaves the revision alone, and the written file decodes to the state
  -- that was encoded, any mutation of that file under the old revision reports the new one.
  pub second_mutation-stale :
      (system : System) (locked : Bool) (files : Files) (change : String) (revision : ℕ)
      (mutator : State J → Outcome StateRefusal (State J)) (next : State J)
      → revision < 2 ^ 64
      → ((s s' : State J) → mutator s ≡ ok s' → s'.revision ≡ s.revision)
      → ((encoded : Bytes)
          → encode marshal unmarshal stream_of next ≡ ok encoded
          → decode marshal unmarshal stream_of encoded change ≡ ok next)
      → (mutate_state marshal unmarshal stream_of system locked files change revision mutator).0
        ≡ ok next
      → (system' : System) (mutator' : State J → Outcome StateRefusal (State J))
      → (mutate_state marshal unmarshal stream_of system' true
          (mutate_state marshal unmarshal stream_of system locked files change revision mutator).1
          change
          revision
          mutator').0
        ≡ err (stale_revision revision (revision + 1))
  second_mutation-stale system locked files change revision mutator next bound keeps reads_back h
        system' mutator' =
      let (encoded, parts, written) =
        (mutate_state-commits system locked files change revision mutator).0 next h in
      let (
        bytes, current, mutated, found, read, expected, made, is, encodes, before, after, counted,
      ) =
        parts in
      let kept : mutated.revision ≡ revision = keeps current mutated made ∙ expected in
      let number : next.revision ≡ revision + 1 = counted (rw kept bound) ∙ ap (λ n. n + 1) kept in
      let again = reads_back encoded encodes in
      mutate_state-stale system' _ change revision mutator' encoded next written again
        (ground (arith, number))
      ∙ ap (λ n. err (stale_revision revision n)) number
