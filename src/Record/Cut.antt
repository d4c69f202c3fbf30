-- ===== src/Record/Cut.antt =====
-- The cut of a ledger's bytes into lines (internal/core/record/record.go), after an append to them.
use specd_cli.Base.{
  ◌≡◌, refl, sym, ap, ◌∙◌, ℕ, true, false, List, [], ◌∷◌, ◌++◌, arith, nat_eq, inl, inr, Bool-cases,
  has_code,
}
use specd_cli.State.Replace.{Bytes}
use specd_cli.Record.Replay.{push_byte, cut_lines}

abbrev add_lines : List Bytes → List Bytes × Bytes → List Bytes × Bytes
add_lines lines (more, tail) = (lines ++ more, tail)

push_byte-add_lines :
    (b : ℕ) (front cut : List Bytes × Bytes)
    → (push_byte b front).1 ≡ []
    → push_byte b (add_lines front.0 cut) ≡ add_lines (push_byte b front).0 cut
unfolding push_byte
push_byte-add_lines b ([], tail) cut h = cc
push_byte-add_lines b (line ∷ lines, tail) cut h = refl

push_byte-tail : (b : ℕ) (front : List Bytes × Bytes) → (push_byte b front).1 ≡ [] → front.1 ≡ []
unfolding push_byte
push_byte-tail b ([], tail) h = cc
push_byte-tail b (line ∷ lines, tail) h = h

module _ (x : ℕ) (bs : Bytes) where
  cut_lines-newline :
      nat_eq x 10 ≡ true → cut_lines (x ∷ bs) ≡ ([] ∷ (cut_lines bs).0, (cut_lines bs).1)
  unfolding cut_lines
  cut_lines-newline e = rw e refl

  cut_lines-other : nat_eq x 10 ≡ false → cut_lines (x ∷ bs) ≡ push_byte x (cut_lines bs)
  unfolding cut_lines
  cut_lines-other e = rw e refl

pub cut_lines-append :
    (a b : Bytes)
    → (cut_lines a).1 ≡ []
    → cut_lines (a ++ b) ≡ add_lines (cut_lines a).0 (cut_lines b)
unfolding cut_lines
cut_lines-append [] b h = refl
cut_lines-append (x ∷ a) b h = elim (Bool-cases (nat_eq x 10)) [
  | inl e ↦
      let tail = ap (λ (c : List Bytes × Bytes). c.1) (cut_lines-newline x a e) in
      let rest = cut_lines-append a b (sym tail ∙ h) in
      cut_lines-newline x (a ++ b) e
      ∙ ap (λ c. ([] ∷ c.0, c.1)) rest
      ∙ ap (λ c. add_lines c.0 (cut_lines b)) (sym (cut_lines-newline x a e))
  | inr e ↦
      let pushed = sym (ap (λ (c : List Bytes × Bytes). c.1) (cut_lines-other x a e)) ∙ h in
      let rest = cut_lines-append a b (push_byte-tail x (cut_lines a) pushed) in
      cut_lines-other x (a ++ b) e
      ∙ ap (push_byte x) rest
      ∙ push_byte-add_lines x (cut_lines a) (cut_lines b) pushed
      ∙ ap (λ c. add_lines c.0 (cut_lines b)) (sym (cut_lines-other x a e))
]

pub cut_lines-tail : (b : Bytes) → has_code b 10 ≡ false → cut_lines b ≡ ([], b)
unfolding cut_lines has_code push_byte
cut_lines-tail [] h = refl
cut_lines-tail (x ∷ b) h =
    cut_lines-other x b (ground (arith, h))
    ∙ ap (push_byte x) (cut_lines-tail b (ground (arith, h)))

pub cut_lines-line : (b : Bytes) → has_code b 10 ≡ false → cut_lines (b ++ 10 ∷ []) ≡ (b ∷ [], [])
unfolding cut_lines has_code push_byte
cut_lines-line [] h = refl
cut_lines-line (x ∷ b) h =
    cut_lines-other x (b ++ 10 ∷ []) (ground (arith, h))
    ∙ ap (push_byte x) (cut_lines-line b (ground (arith, h)))
