-- ===== src/Record/Failures.antt =====
-- What a failing append (internal/core/record/append.go) leaves of the ledger.
use specd_cli.Base.{
  ◌≡◌, refl, sym, ap, ◌∙◌, ℕ, zero, suc, ◌≤◌, String, true, false, Option, none, some, List, [],
  ◌∷◌, ◌++◌, arith, has_code, nat_eq, length, Outcome, ok, err, Outcome-cases, Option-cases,
  some_injective, inl, inr, ◌⊎◌, is_ok,
}
use specd_cli.State.Replace.{Bytes}
use specd_cli.Record.Types.{Record, Codec}
use specd_cli.Record.Replay.{LedgerRefusal, replay, replay_file}
use specd_cli.Record.Append.{
  Disk, LedgerPath, take, bytes_of, write_line, prepare_append, check_append, append_under_lock,
  append_locked,
}
use specd_cli.Record.Extend.{replay-torn}
use specd_cli.Record.Appends.{healthy, bytes-replay, append-of_checks}

module _ (disk : Disk) (content : Option Bytes) (line : Bytes) where
  write_line-truncated :
      disk.truncate_fails ≡ false
      → (is_ok (write_line disk content line).0 ≡ false
          → bytes_of (write_line disk content line).1 ≡ bytes_of content)
        × (is_ok (write_line disk content line).0 ≡ true
            → bytes_of (write_line disk content line).1 ≡ bytes_of content ++ line)
  unfolding write_line
  write_line-truncated t = (λ h. ground (arith, h), λ h. ground (arith, h))

-- The two ways an append goes: refused before the file is opened, or writing its line.
append-cases :
    (codec : Codec) (path : LedgerPath) (disk : Disk) (content : Option Bytes) (family : String)
    (r : Record)
    → ((e : LedgerRefusal) × (append_under_lock codec path disk content family r
          ≡ (err e, content)))
      ⊎ ((line : Bytes) × ((prepare_append codec disk content family r ≡ ok line)
            × (append_under_lock codec path disk content family r ≡ write_line disk content line)))
unfolding append_under_lock append_locked
append-cases codec path disk content family r =
    elim (Outcome-cases (check_append codec path family r)) [
      | inr (e, refused) ↦ inl (e, rw (append_under_lock, refused) refl)
      | inl (done, checked) ↦ elim (Outcome-cases (prepare_append codec disk content family r)) [
        | inr (e, refused) ↦ inl (e, rw (append_under_lock, append_locked, checked, refused) refl)
        | inl (line, prepared) ↦ inr (
          line,
          (prepared, append-of_checks codec path disk content family r line checked prepared),
        )
      ]
    ]

prepare-line :
    (codec : Codec) (disk : Disk) (content : Option Bytes) (family : String) (r : Record)
    (line : Bytes)
    → prepare_append codec disk content family r ≡ ok line
    → (raw : Bytes) × ((codec.marshal_record r ≡ some raw) × (line ≡ raw ++ 10 ∷ []))
unfolding prepare_append
prepare-line codec disk content family r line h =
    elim (Outcome-cases (replay_file codec family disk.read_fails content)) [
      | inr (e, refused) ↦ absurd (ground (arith, refused, h))
      | inl (replayed, done) ↦ elim (Option-cases (codec.marshal_record r)) [
        | inl missing ↦ absurd (ground (arith, done, missing, h))
        | inr (raw, e) ↦ (raw, (e, ground (arith, done, e, h)))
      ]
    ]

take-append : (n : ℕ) (a b : Bytes) → n ≤ length a → take n (a ++ b) ≡ take n a
take-append zero a b h = refl
take-append (suc n) [] b h = absurd (omega (arith, h))
take-append (suc n) (x ∷ a) b h = ap (λ l. x ∷ l) (take-append n a b (omega (arith, h)))

has_code-take : (n : ℕ) (a : Bytes) (c : ℕ) → has_code a c ≡ false → has_code (take n a) c ≡ false
unfolding has_code
has_code-take zero a c h = refl
has_code-take (suc n) [] c h = refl
has_code-take (suc n) (x ∷ a) c h =
    let here : nat_eq x c ≡ false = ground (arith, h) in
    let rest = has_code-take n a c (ground (arith, h)) in ground (arith, here, rest)

-- When truncating works, an append that returns an error leaves the bytes of the ledger as they were,
-- and one that succeeds has put the record's line, with its newline, behind them.
pub append-all_or_nothing :
    (codec : Codec) (path : LedgerPath) (disk : Disk) (content : Option Bytes) (family : String)
    (r : Record)
    → disk.truncate_fails ≡ false
    → (is_ok (append_under_lock codec path disk content family r).0 ≡ false
        → bytes_of (append_under_lock codec path disk content family r).1 ≡ bytes_of content)
      × (is_ok (append_under_lock codec path disk content family r).0 ≡ true
          → (raw : Bytes) × ((codec.marshal_record r ≡ some raw)
              × (bytes_of (append_under_lock codec path disk content family r).1
                  ≡ bytes_of content ++ (raw ++ 10 ∷ []))))
append-all_or_nothing codec path disk content family r t =
    elim (append-cases codec path disk content family r) [
      | inl (e, refused) ↦
          (λ h. ap (λ o. bytes_of o.1) refused, λ h. cc (h, ap (λ o. is_ok o.0) refused))
      | inr (line, (prepared, done)) ↦
          let written = write_line-truncated disk content line t in
          let (raw, (e, is_line)) = prepare-line codec disk content family r line prepared in
          (
            λ h. ap (λ o. bytes_of o.1) done ∙ written.0 (sym (ap (λ o. is_ok o.0) done) ∙ h),
            λ h. (
              raw,
              (
                e,
                ap (λ o. bytes_of o.1) done
                    ∙ written.1 (sym (ap (λ o. is_ok o.0) done) ∙ h)
                    ∙ ap (λ l. bytes_of content ++ l) is_line,
              ),
            ),
          )
    ]

-- Write stops after `n` bytes, and Truncate fails too.
abbrev pub stops_at : ℕ → Disk
stops_at n = record healthy { written = some n; truncate_fails = true }

-- An append whose write stops inside the line, and whose truncation fails, leaves a ledger that reads
-- as the same records, given that what was written of the line is not a JSON value.
pub torn_write-keeps_records :
    (codec : Codec) (path : LedgerPath) (family : String) (content : Option Bytes)
    (records : List Record) (r : Record) (raw : Bytes) (n : ℕ)
    → replay_file codec family false content ≡ ok (records, none)
    → codec.marshal_record r ≡ some raw
    → has_code raw 10 ≡ false
    → n ≤ length raw
    → codec.is_json (take n raw) ≡ false
    → (torn : Option ℕ) × (replay_file codec family false
          (append_under_lock codec path (stops_at n) content family r).1
        ≡ ok (records, torn))
unfolding write_line replay_file
torn_write-keeps_records codec path family content records r raw n h m one short torn =
    elim (append-cases codec path (stops_at n) content family r) [
      | inl (e, refused) ↦ (
        none,
        ap
              (λ (o : Outcome LedgerRefusal (Unit {0}) × Option Bytes).
                replay_file codec family false o.1)
              refused
            ∙ h,
      )
      | inr (line, (prepared, done)) ↦
          let (raw', (e, is_line)) =
            prepare-line codec (stops_at n) content family r line prepared in
          let same : raw' ≡ raw = some_injective (sym e ∙ m) in
          let part : take n line ≡ take n raw =
            ap (take n) (is_line ∙ ap (λ l. l ++ 10 ∷ []) same)
            ∙ take-append n raw (10 ∷ []) short in
          let read =
            replay-torn codec family (bytes_of content) records
              (bytes-replay codec family content records h) (take n raw)
              (has_code-take n raw 10 one) torn in
          (
            read.0,
            ap
                  (λ (o : Outcome LedgerRefusal (Unit {0}) × Option Bytes).
                    replay_file codec family false o.1)
                  done
                ∙ ap (λ l. replay codec family (bytes_of content ++ l)) part
                ∙ read.1,
          )
    ]
