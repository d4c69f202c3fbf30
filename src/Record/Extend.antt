-- ===== src/Record/Extend.antt =====
-- What `replay` (internal/core/record/record.go) reads when bytes stand behind a ledger.
use specd_cli.Base.{
  ◌≡◌, refl, sym, ap, ◌∙◌, subst, ℕ, String, false, Option, none, some, List, [], ◌∷◌, ◌++◌, arith,
  has_code, ok,
}
use mathlib.Core.List.{append-nil}
use specd_cli.State.Replace.{Bytes}
use specd_cli.Record.Types.{Record, Codec}
use specd_cli.Record.Defs.{no_bytes, decode_with}
use specd_cli.Record.Replay.{cut_lines, torn_line, replay}
use specd_cli.Record.Fits.{Fits}
use specd_cli.Record.Lines.{FitAll, DecodeAll}
use specd_cli.Record.Cut.{cut_lines-append, cut_lines-tail, cut_lines-line}
use specd_cli.Record.Ledger.{Reads, append-cons, FitAll-at, replay-of_Reads, replay-Reads}

-- encoding/json writes the record on one line, and reads the record back from it.
pub record IsLine (codec : Codec) (r : Record) (raw : Bytes) : Type 0 where
  pub marshalled : codec.marshal_record r ≡ some raw
  pub one_line : has_code raw 10 ≡ false
  pub full : no_bytes raw ≡ false
  pub decodes : decode_with codec codec.unmarshal_record raw ≡ ok r

FitAll-snoc :
    (codec : Codec) (family : String) (front records : List Record) (r : Record)
    → FitAll codec family front records
    → Fits codec family (front ++ records) r
    → FitAll codec family front (records ++ r ∷ [])
FitAll-snoc codec family front [] r f h =
    (subst (λ l. Fits codec family l r) (append-nil front) h, tt)
FitAll-snoc codec family front (x ∷ rs) r f h = (
  f.0,
  FitAll-snoc codec family (front ++ x ∷ []) rs r f.1
      (subst (λ l. Fits codec family l r) (sym (append-cons front rs x)) h),
)

DecodeAll-snoc :
    (codec : Codec) (lines : List Bytes) (records : List Record) (line : Bytes) (r : Record)
    → DecodeAll codec lines records
    → no_bytes line ≡ false
    → decode_with codec codec.unmarshal_record line ≡ ok r
    → DecodeAll codec (lines ++ line ∷ []) (records ++ r ∷ [])
DecodeAll-snoc codec [] [] line r d e h = (e, h, tt)
DecodeAll-snoc codec [] (x ∷ rs) line r d e h = absurd d
DecodeAll-snoc codec (l ∷ lines) [] line r d e h = absurd d
DecodeAll-snoc codec (l ∷ lines) (x ∷ rs) line r d e h =
    (d.0, d.1, DecodeAll-snoc codec lines rs line r d.2 e h)

tail-of_torn : (cut : List Bytes × Bytes) → torn_line cut ≡ none → cut.1 ≡ []
tail-of_torn (lines, []) h = refl
tail-of_torn (lines, b ∷ tail) h = cc

module _ (codec : Codec) (family : String) (raw : Bytes) (records : List Record)
    (h : replay codec family raw ≡ ok (records, none)) where
  reads : Reads codec family raw records none
  reads = replay-Reads codec family raw records none h

  no_tail : (cut_lines raw).1 ≡ []
  no_tail = tail-of_torn (cut_lines raw) (sym reads.tail)

  cut-line :
      (line : Bytes)
      → has_code line 10 ≡ false
      → cut_lines (raw ++ (line ++ 10 ∷ [])) ≡ ((cut_lines raw).0 ++ line ∷ [], [])
  cut-line line one =
      cut_lines-append raw (line ++ 10 ∷ []) no_tail
      ∙ ap (λ (c : List Bytes × Bytes). ((cut_lines raw).0 ++ c.0, c.1)) (cut_lines-line line one)

  pub replay-line :
      (line : Bytes) (r : Record)
      → IsLine codec r line
      → Fits codec family records r
      → replay codec family (raw ++ (line ++ 10 ∷ [])) ≡ ok (records ++ r ∷ [], none)
  replay-line line r l f =
      replay-of_Reads codec family (raw ++ (line ++ 10 ∷ [])) (records ++ r ∷ []) none (record {
        no_json_tail = rw (cut-line line l.one_line) refl;
        lines =
            subst (λ (c : List Bytes × Bytes). DecodeAll codec c.0 (records ++ r ∷ []))
              (sym (cut-line line l.one_line))
              (DecodeAll-snoc codec (cut_lines raw).0 records line r reads.lines l.full l.decodes);
        fit = FitAll-snoc codec family [] records r reads.fit f;
        tail = ap torn_line (sym (cut-line line l.one_line));
      })

  pub Fits-of_replay :
      (line : Bytes) (r : Record)
      → replay codec family (raw ++ (line ++ 10 ∷ [])) ≡ ok (records ++ r ∷ [], none)
      → Fits codec family records r
  Fits-of_replay line r k =
      FitAll-at codec family [] records [] r
        (replay-Reads codec family (raw ++ (line ++ 10 ∷ [])) (records ++ r ∷ []) none k).fit

  -- A tail that is not JSON: what a write that stopped short left of its line.
  pub replay-torn :
      (part : Bytes)
      → has_code part 10 ≡ false
      → codec.is_json part ≡ false
      → (torn : Option ℕ) × (replay codec family (raw ++ part) ≡ ok (records, torn))
  replay-torn part one no_json =
      let cut : cut_lines (raw ++ part) ≡ ((cut_lines raw).0 ++ [], part) =
        cut_lines-append raw part no_tail
        ∙ ap (λ (c : List Bytes × Bytes). ((cut_lines raw).0 ++ c.0, c.1))
            (cut_lines-tail part one) in
      (
        torn_line (cut_lines (raw ++ part)),
        replay-of_Reads codec family (raw ++ part) records (torn_line (cut_lines (raw ++ part)))
            (record {
              no_json_tail = rw (cut, no_json) (ground arith);
              lines =
                  subst (λ (c : List Bytes). DecodeAll codec c records)
                    (sym (append-nil (cut_lines raw).0)
                      ∙ sym (ap (λ (c : List Bytes × Bytes). c.0) cut))
                    reads.lines;
              fit = reads.fit;
              tail = refl;
            }),
      )
