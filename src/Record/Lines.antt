-- ===== src/Record/Lines.antt =====
-- The loop of `replay` (internal/core/record/record.go): which lines it reads as which records.
use specd_cli.Base.{
  ◌≡◌, refl, ℕ, suc, String, false, List, [], ◌∷◌, ◌++◌, arith, ok, Outcome-cases, ok_injective,
  inl, inr, subst,
}
use specd_cli.State.Replace.{Bytes}
use specd_cli.Record.Types.{Record, Codec}
use specd_cli.Record.Defs.{no_bytes, decode_with}
use specd_cli.Record.Replay.{Chains, replay_line, replay_lines}
use specd_cli.Record.Fits.{
  Fits, Holds, replay_line-parts, replay_line-of_parts, judge-Fits, judge-of_Fits,
}

-- Each record may follow `front` and the records before it.
abbrev pub FitAll : Codec → String → List Record → List Record → Type 0
FitAll codec family front [] = Unit
FitAll codec family front (r ∷ rs) =
    Fits codec family front r × FitAll codec family (front ++ r ∷ []) rs

-- The lines are not empty, and they are the encodings of the records.
abbrev pub DecodeAll : Codec → List Bytes → List Record → Type 0
DecodeAll codec [] [] = Unit
DecodeAll codec (line ∷ lines) (r ∷ rs) =
    (no_bytes line ≡ false)
    × (decode_with codec codec.unmarshal_record line ≡ ok r)
    × DecodeAll codec lines rs
DecodeAll codec lines rs = ⊥

module _ (codec : Codec) (family : String) where
  replay_lines-cons :
      (number : ℕ) (ids : List String) (chains chains' : Chains) (line : Bytes) (lines : List Bytes)
      (r : Record) (records : List Record)
      → replay_line codec family number ids chains line ≡ ok (r, chains')
      → replay_lines codec family (suc number) (r.id ∷ ids) chains' lines ≡ ok records
      → replay_lines codec family number ids chains (line ∷ lines) ≡ ok (r ∷ records)
  unfolding replay_lines
  replay_lines-cons number ids chains chains' line lines r records h k = rw (h, k) refl

  pub replay_lines-reads :
      (number : ℕ) (front : List Record) (ids : List String) (chains : Chains) (lines : List Bytes)
      (records : List Record)
      → Holds front ids chains
      → replay_lines codec family number ids chains lines ≡ ok records
      → DecodeAll codec lines records × FitAll codec family front records
  unfolding replay_lines
  replay_lines-reads number front ids chains [] records k h =
      subst (λ rs. DecodeAll codec [] rs × FitAll codec family front rs) (ok_injective refl h)
        (tt, tt)
  replay_lines-reads number front ids chains (line ∷ lines) records k h =
      elim (Outcome-cases (replay_line codec family number ids chains line)) [
        | inr (e, refused) ↦ absurd (ground (arith, refused, h))
        | inl ((r, chains'), done) ↦
            elim (Outcome-cases
              (replay_lines codec family (suc number) (r.id ∷ ids) chains' lines)) [
                | inr (e, refused) ↦ absurd (ground (arith, done, refused, h))
                | inl (rest, more) ↦
                    let same : r ∷ rest ≡ records =
                      ok_injective
                        (replay_lines-cons number ids chains chains' line lines r rest done more)
                        h in
                    let parts =
                      replay_line-parts codec family number ids chains line r chains' done in
                    let fits =
                      judge-Fits codec family front ids chains k number r chains' parts.2 in
                    let after =
                      replay_lines-reads (suc number) (front ++ r ∷ []) (r.id ∷ ids) chains' lines
                        rest fits.1 more in
                    subst (λ rs. DecodeAll codec (line ∷ lines) rs × FitAll codec family front rs)
                      same ((parts.0, parts.1, after.0), (fits.0, after.1))
              ]
      ]

  pub replay_lines-takes :
      (number : ℕ) (front : List Record) (ids : List String) (chains : Chains) (lines : List Bytes)
      (records : List Record)
      → Holds front ids chains
      → DecodeAll codec lines records
      → FitAll codec family front records
      → replay_lines codec family number ids chains lines ≡ ok records
  unfolding replay_lines
  replay_lines-takes number front ids chains [] [] k d f = refl
  replay_lines-takes number front ids chains [] (r ∷ records) k d f = absurd d
  replay_lines-takes number front ids chains (line ∷ lines) [] k d f = absurd d
  replay_lines-takes number front ids chains (line ∷ lines) (r ∷ records) k d f =
      let (chains', judged) = judge-of_Fits codec family front ids chains k number r f.0 in
      let held = (judge-Fits codec family front ids chains k number r chains' judged).1 in
      replay_lines-cons number ids chains chains' line lines r records
        (replay_line-of_parts codec family number ids chains line r chains' d.0 d.1 judged)
        (replay_lines-takes (suc number) (front ++ r ∷ []) (r.id ∷ ids) chains' lines records held
          d.2 f.1)
