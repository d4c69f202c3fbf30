-- ===== src/Record/Appends.antt =====
-- What the append of a record (internal/core/record/append.go) does to what `replay` reads.
use specd_cli.Base.{
  ◌≡◌, refl, sym, ap, ◌∙◌, ◌↔◌, String, true, false, not, Option, none, some, List, [], ◌∷◌, ◌++◌,
  ◌==◌, eq_iff, arith, ok, Outcome-cases, inl, inr, refuse_if-eq-ok, >>-eq-ok, refuse_if, ◌>>◌,
}
use specd_cli.State.Replace.{Bytes}
use specd_cli.State.Defs.{refused_as, refused_as-eq-ok}
use specd_cli.Record.Types.{Record, Codec}
use specd_cli.Record.Defs.{validate_record}
use specd_cli.Record.Replay.{
  record_family, record_invalid, record_duplicate, revision_chain, replay_lines, cut_lines, replay,
  replay_file,
}
use specd_cli.Record.Append.{
  Disk, LedgerPath, bytes_of, has_id, prior_revision, breaks_chain, validate_path, write_line,
  prepare_append, append_locked, check_append, append_under_lock,
}
use specd_cli.Record.Fits.{Fits}
use specd_cli.Record.Extend.{IsLine, replay-line, Fits-of_replay}

abbrev pub healthy : Disk
healthy = record {
  is_symlink = false;
  lstat_fails = false;
  read_fails = false;
  open_fails = false;
  stat_fails = false;
  written = none;
  sync_fails = false;
  truncate_fails = false;
}

pub bytes-replay :
    (codec : Codec) (family : String) (content : Option Bytes) (records : List Record)
    → replay_file codec family false content ≡ ok (records, none)
    → replay codec family (bytes_of content) ≡ ok (records, none)
unfolding replay_file replay cut_lines replay_lines
bytes-replay codec family none records h = h
bytes-replay codec family (some raw) records h = h

pub append-of_checks :
    (codec : Codec) (path : LedgerPath) (disk : Disk) (content : Option Bytes) (family : String)
    (r : Record) (line : Bytes)
    → check_append codec path family r ≡ ok tt
    → prepare_append codec disk content family r ≡ ok line
    → append_under_lock codec path disk content family r ≡ write_line disk content line
unfolding append_under_lock append_locked
append-of_checks codec path disk content family r line c p =
    rw (append_under_lock, append_locked, c, p) refl

-- An append that succeeds passed both checks.
pub checks-of_append :
    (codec : Codec) (path : LedgerPath) (disk : Disk) (content : Option Bytes) (family : String)
    (r : Record)
    → (append_under_lock codec path disk content family r).0 ≡ ok tt
    → (check_append codec path family r ≡ ok tt)
      × ((line : Bytes) × (prepare_append codec disk content family r ≡ ok line))
unfolding append_under_lock append_locked
checks-of_append codec path disk content family r h =
    elim (Outcome-cases (check_append codec path family r)) [
      | inr (e, refused) ↦ absurd (ground (arith, refused, h))
      | inl (done, checked) ↦ elim (Outcome-cases (prepare_append codec disk content family r)) [
        | inr (e, refused) ↦ absurd (ground (arith, checked, refused, h))
        | inl (line, prepared) ↦ (checked, (line, prepared))
      ]
    ]

module _ (codec : Codec) (path : LedgerPath) (family : String) (content : Option Bytes)
    (records : List Record) (h : replay_file codec family false content ≡ ok (records, none))
    (r : Record) (raw : Bytes) (marshalled : codec.marshal_record r ≡ some raw) where
  prepare-is : prepare_append codec healthy content family r ≡ (
      refuse_if (has_id r.id records) record_duplicate
      >> (refuse_if
            (breaks_chain r.expected_revision (prior_revision r.change records))
            revision_chain
          >> ok (raw ++ 10 ∷ [])))
  unfolding prepare_append
  prepare-is = rw (h, marshalled) refl

  append-of_Fits :
      validate_path path family ≡ ok tt
      → Fits codec family records r
      → append_under_lock codec path healthy content family r
        ≡ (ok tt, some (bytes_of content ++ (raw ++ 10 ∷ [])))
  unfolding check_append write_line
  append-of_Fits p f =
      let same : (r.family == family) ≡ true = (eq_iff r.family family).1 f.same_family in
      append-of_checks codec path healthy content family r (raw ++ 10 ∷ [])
        (rw (same, f.valid, p) refl) (prepare-is ∙ rw (f.fresh, f.follows) refl)

  Fits-of_append :
      (append_under_lock codec path healthy content family r).0 ≡ ok tt
      → Fits codec family records r
  unfolding check_append
  Fits-of_append done =
      let (checked, (line, prepared)) = checks-of_append codec path healthy content family r done in
      let a = refuse_if-eq-ok (not (r.family == family)) record_family _ checked in
      let b = >>-eq-ok (refused_as record_invalid (validate_record codec r)) _ a.1 in
      let c =
        refuse_if-eq-ok (has_id r.id records) record_duplicate _ (sym prepare-is ∙ prepared) in
      let d =
        refuse_if-eq-ok (breaks_chain r.expected_revision (prior_revision r.change records))
          revision_chain _ c.1 in
      record {
        valid = refused_as-eq-ok record_invalid (validate_record codec r) b.0;
        same_family = (eq_iff r.family family).0 (ground (arith, a.0));
        fresh = c.0;
        follows = d.0;
      }

-- On a ledger that reads without a torn tail, at the path of its family's ledger, and with no failing
-- system call, an append of a record that encodes to one line, from which exactly that record decodes,
-- succeeds exactly when the ledger with the line behind it reads as the records and the new one.
pub append-iff-replay :
    (codec : Codec) (path : LedgerPath) (family : String) (content : Option Bytes)
    (records : List Record) (r : Record) (raw : Bytes)
    → replay_file codec family false content ≡ ok (records, none)
    → validate_path path family ≡ ok tt
    → IsLine codec r raw
    → (append_under_lock codec path healthy content family r
        ≡ (ok tt, some (bytes_of content ++ (raw ++ 10 ∷ []))))
      ↔ (replay codec family (bytes_of content ++ (raw ++ 10 ∷ [])) ≡ ok (records ++ r ∷ [], none))
append-iff-replay codec path family content records r raw h p l =
    let read = bytes-replay codec family content records h in
    (
      λ done. replay-line codec family (bytes_of content) records read raw r l (
          Fits-of_append codec path family content records h r raw l.marshalled
            (ap (λ o. o.0) done)),
      λ k.
          append-of_Fits codec path family content records h r raw l.marshalled p
            (Fits-of_replay codec family (bytes_of content) records read raw r k),
    )
