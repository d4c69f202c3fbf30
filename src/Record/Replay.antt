-- ===== src/Record/Replay.antt =====
-- internal/core/record/record.go: `replay`, which reads the bytes of a ledger, and `Replay`.
-- The lines up to the last newline are what bytes.Split gives on them, and the tail is what follows it.
-- A map from changes to revisions is an association list with the latest entry first.
use specd_cli.Base.{
  ℕ, suc, ◌+◌, String, Bool, false, not, ◌&&◌, Option, none, some, List, [], ◌∷◌, ◌==◌,
  if◌then◌else◌, nat_eq, length, contains, Outcome, ok, err, ◌>>=◌, ◌>>◌, refuse_if,
}
use specd_cli.State.Replace.{Bytes}
use specd_cli.State.Defs.{refused_as}
use specd_cli.Record.Types.{Record, Codec, RecordRefusal}
use specd_cli.Record.Defs.{no_bytes, decode_with, validate_record}

-- The refusals of the package with the line they name. `nil_pointer` stands for a panic.
pub data LedgerRefusal : Type 0 where
  lacks_newline empty_line duplicate_line gap_line line_family : ℕ → LedgerRefusal
  line_malformed line_invalid : ℕ → RecordRefusal → LedgerRefusal
  nil_pointer : ℕ → LedgerRefusal
  record_read record_symlink record_family record_path torn_tail : LedgerRefusal
  record_duplicate revision_chain record_encode record_append record_sync record_open lock_fails :
      LedgerRefusal
  record_invalid : RecordRefusal → LedgerRefusal

unfoldable pub push_byte : ℕ → List Bytes × Bytes → List Bytes × Bytes
push_byte b ([], tail) = ([], b ∷ tail)
push_byte b (line ∷ lines, tail) = ((b ∷ line) ∷ lines, tail)

unfoldable pub cut_lines : Bytes → List Bytes × Bytes
unfolding push_byte
cut_lines [] = ([], [])
cut_lines (b ∷ bs) =
    let rest = cut_lines bs in if nat_eq b 10 then ([] ∷ rest.0, rest.1) else push_byte b rest

abbrev pub Chains : Type 0
Chains = List (String × ℕ)

unfoldable pub chain_of : Chains → String → Option ℕ
chain_of [] change = none
chain_of ((name, revision) ∷ chains) change =
    let rest = chain_of chains change in if name == change then some revision else rest

abbrev pub is_gap : Option ℕ → ℕ → Bool
is_gap none expected = false
is_gap (some previous) expected = not (nat_eq expected previous)

unfoldable pub next_chains : ℕ → Chains → Record → Outcome LedgerRefusal Chains
next_chains number chains r = elim r.expected_revision [
  | none ↦ ok chains
  | some expected ↦ do
    refuse_if (is_gap (chain_of chains r.change) expected) (gap_line number)
    elim r.resulting_revision [
      | none ↦ err (nil_pointer number)
      | some resulting ↦ ok ((r.change, resulting) ∷ chains)
    ]
]

abbrev pub torn_line : List Bytes × Bytes → Option ℕ
torn_line (lines, tail) = if no_bytes tail then none else some (length lines + 1)

module _ (codec : Codec) (family : String) where
  -- The rest of a turn of the loop, once the line is decoded: the chains after it.
  unfoldable pub judge_record : ℕ → List String → Chains → Record → Outcome LedgerRefusal Chains
  judge_record number ids chains r = do
    refused_as (line_invalid number) (validate_record codec r)
    refuse_if (not (r.family == family)) (line_family number)
    refuse_if (contains ids r.id) (duplicate_line number)
    next_chains number chains r

  unfoldable pub replay_line :
      ℕ → List String → Chains → Bytes → Outcome LedgerRefusal (Record × Chains)
  unfolding judge_record
  replay_line number ids chains line = do
    refuse_if (no_bytes line) (empty_line number)
    r ← refused_as (line_malformed number) (decode_with codec codec.unmarshal_record line)
    chains' ← judge_record number ids chains r
    ok (r, chains')

  unfoldable pub replay_lines :
      ℕ → List String → Chains → List Bytes → Outcome LedgerRefusal (List Record)
  unfolding replay_line
  replay_lines number ids chains [] = ok []
  replay_lines number ids chains (line ∷ lines) = do
    step ← replay_line number ids chains line
    records ← replay_lines (suc number) (step.0.id ∷ ids) step.1 lines
    ok (step.0 ∷ records)

  -- `replay`: the records, and the line of a torn tail that was ignored.
  unfoldable pub replay : Bytes → Outcome LedgerRefusal (List Record × Option ℕ)
  unfolding cut_lines replay_lines
  replay raw =
      let cut = cut_lines raw in
      do
        refuse_if (not (no_bytes cut.1) && codec.is_json cut.1) (lacks_newline (length cut.0 + 1))
        records ← replay_lines 1 [] [] cut.0
        ok (records, torn_line cut)

  -- `Replay` on a file that may be missing
  unfoldable pub replay_file : Bool → Option Bytes → Outcome LedgerRefusal (List Record × Option ℕ)
  unfolding replay
  replay_file read_fails none = ok ([], none)
  replay_file read_fails (some raw) = do refuse_if read_fails record_read; replay raw
