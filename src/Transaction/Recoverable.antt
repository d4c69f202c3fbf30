-- ===== src/Transaction/Recoverable.antt =====
-- What the files hold while a transaction of internal/core/transaction is applied: each output its
-- new bytes, or its old ones with the new ones staged.
use specd_cli.Base.{
  ◌≡◌, refl, sym, ap, ◌∙◌, subst, ◌⊎◌, inl, inr, ℕ, zero, suc, String, Bool, true, false, not, ◌&&◌,
  Option, none, some, List, [], ◌∷◌, ◌==◌, eq_iff, arith, Bool-cases, if◌then◌else◌, nat_eq,
  some_injective,
}
use specd_cli.State.Replace.{Bytes}
use specd_cli.Transaction.Types.{Output, Manifest, Node, absent, directory, special, regular, Store}
use specd_cli.Transaction.Plan.{under}
use specd_cli.Transaction.Steps.{made, make_parents, put_staged, staged_file, drop_staged}

abbrev pub nth {ℓ} : {A : Type ℓ} → ℕ → List A → Option A
nth i [] = none
nth zero (x ∷ xs) = some x
nth (suc i) (x ∷ xs) = nth i xs

-- The digest that the code reads of a node; a node that is neither absent nor a file has none.
abbrev pub digest_of : (Bytes → String) → Node → Option String
digest_of hash absent = some ""
digest_of hash (regular raw) = some (hash raw)
digest_of hash node = none

module _ (hash : Bytes → String) where
  abbrev pub Settled : Store → Output → Type 0
  Settled s o = digest_of hash (s.nodes o.path) ≡ some o.after

  pub record Waiting (s : Store) (id : String) (i : ℕ) (o : Output) : Type 0 where
    pub old : digest_of hash (s.nodes o.path) ≡ some o.before
    pub staged : Bytes
    pub is_staged : staged_file (s.stages id) i ≡ some staged
    pub is_new : hash staged ≡ o.after

  abbrev pub Recoverable : Manifest → Store → Type 0
  Recoverable m s =
      (i : ℕ) (o : Output) → nth i m.outputs ≡ some o → Settled s o ⊎ Waiting s m.id i o

  abbrev pub AllSettled : Manifest → Store → Type 0
  AllSettled m s = (i : ℕ) (o : Output) → nth i m.outputs ≡ some o → Settled s o

-- No output stands on or above the path of another.
abbrev pub Apart : List Output → Type 0
Apart outputs =
    (i j : ℕ) (o p : Output)
    → nth i outputs ≡ some o
    → nth j outputs ≡ some p
    → (nat_eq i j ≡ true) ⊎ (under o.path p.path ≡ false)

under_self : (p : String) → under p p ≡ true
unfolding under
under_self p = ground (arith, eq_iff p p)

made-not : (above : Bool) (node : Node) → above ≡ false → made above node ≡ node
made-not true node h = cc
made-not false absent h = refl
made-not false directory h = refl
made-not false special h = refl
made-not false (regular raw) h = refl

drop_staged-other :
    (i j : ℕ) (stage : Option (ℕ → Option Bytes))
    → nat_eq i j ≡ false
    → staged_file (drop_staged i stage) j ≡ staged_file stage j
drop_staged-other i j none h = refl
drop_staged-other i j (some stage) h =
    let other : nat_eq j i ≡ false = ground (arith, h) in rw other refl

module _ (s : Store) (id : String) (i : ℕ) (target : String) (raw : Bytes) where
  make_parents-apart :
      (p : String) → under target p ≡ false → (make_parents target s).nodes p ≡ s.nodes p
  unfolding make_parents
  make_parents-apart p h =
      made-not (under target p && not (target == p)) (s.nodes p) (ground (arith, h))

  put_staged-apart :
      (p : String) → under target p ≡ false → (put_staged id i target raw s).nodes p ≡ s.nodes p
  unfolding put_staged under
  put_staged-apart p h =
      let other : (p == target) ≡ false = ground (arith, h, eq_iff p target, eq_iff target p) in
      rw other refl

  put_staged-here : (put_staged id i target raw s).nodes target ≡ regular raw
  unfolding put_staged
  put_staged-here = rw ((eq_iff target target).1 refl) refl

  put_staged-staged :
      (j : ℕ)
      → nat_eq i j ≡ false
      → staged_file ((put_staged id i target raw s).stages id) j ≡ staged_file (s.stages id) j
  unfolding put_staged
  put_staged-staged j h =
      ap (λ b. staged_file (if b then drop_staged i (s.stages id) else s.stages id) j)
        ((eq_iff id id).1 refl)
      ∙ drop_staged-other i j (s.stages id) h

make_parents_self :
    (s : Store) (target : String) → (make_parents target s).nodes target ≡ s.nodes target
unfolding make_parents
make_parents_self s target =
    made-not (under target target && not (target == target)) (s.nodes target)
      (ground (arith, eq_iff target target))

module _ (hash : Bytes → String) where
  keep-Settled :
      (s s' : Store) (o : Output)
      → s'.nodes o.path ≡ s.nodes o.path
      → Settled hash s o
      → Settled hash s' o
  keep-Settled s s' o e h = ap (digest_of hash) e ∙ h

  pub keep_status :
      (s s' : Store) (id : String) (i : ℕ) (o : Output)
      → s'.nodes o.path ≡ s.nodes o.path
      → staged_file (s'.stages id) i ≡ staged_file (s.stages id) i
      → Settled hash s o ⊎ Waiting hash s id i o
      → Settled hash s' o ⊎ Waiting hash s' id i o
  keep_status s s' id i o e f (inl h) = inl (keep-Settled s s' o e h)
  keep_status s s' id i o e f (inr w) = inr (record {
    old = ap (digest_of hash) e ∙ w.old;
    staged = w.staged;
    is_staged = f ∙ w.is_staged;
    is_new = w.is_new;
  })

module _ (hash : Bytes → String) (m : Manifest) (apart : Apart m.outputs) (i : ℕ) (o : Output)
    (here : nth i m.outputs ≡ some o) where
  same_output : (j : ℕ) (p : Output) → nth j m.outputs ≡ some p → nat_eq i j ≡ true → o ≡ p
  same_output j p there e =
      let same : i ≡ j = ground (arith, e) in
      some_injective (sym here ∙ ap (λ k. nth k m.outputs) same ∙ there)

  make_parents-nodes :
      (s : Store) (j : ℕ) (p : Output)
      → nth j m.outputs ≡ some p
      → (make_parents o.path s).nodes p.path ≡ s.nodes p.path
  make_parents-nodes s j p there = elim (apart i j o p here there) [
    | inl e ↦
        subst (λ (q : Output). (make_parents o.path s).nodes q.path ≡ s.nodes q.path)
          (same_output j p there e) (make_parents_self s o.path)
    | inr e ↦ make_parents-apart s m.id i o.path [] p.path e
  ]

  pub make_parents-Recoverable :
      (s : Store) → Recoverable hash m s → Recoverable hash m (make_parents o.path s)
  unfolding make_parents
  make_parents-Recoverable s k j p there =
      keep_status hash s (make_parents o.path s) m.id j p (make_parents-nodes s j p there) refl
        (k j p there)

  pub make_parents-Settled :
      (s : Store) (j : ℕ) (p : Output)
      → nth j m.outputs ≡ some p
      → Settled hash s p
      → Settled hash (make_parents o.path s) p
  make_parents-Settled s j p there h =
      keep-Settled hash s (make_parents o.path s) p (make_parents-nodes s j p there) h

  module _ (raw : Bytes) (is_new : hash raw ≡ o.after) (s : Store) where
    pub put_staged-Settled : Settled hash (put_staged m.id i o.path raw s) o
    put_staged-Settled = ap (digest_of hash) (put_staged-here s m.id i o.path raw) ∙ ap some is_new

    put_staged-cases :
        (j : ℕ) (p : Output)
        → nth j m.outputs ≡ some p
        → Settled hash (put_staged m.id i o.path raw s) p
          ⊎ ((nat_eq i j ≡ false) × (under o.path p.path ≡ false))
    put_staged-cases j p there = elim (Bool-cases (nat_eq i j)) [
      | inl e ↦ inl (
          subst (Settled hash (put_staged m.id i o.path raw s)) (same_output j p there e)
            put_staged-Settled)
      | inr e ↦ elim (apart i j o p here there) [ inl f ↦ absurd (cc (e, f)) | inr f ↦ inr (e, f) ]
    ]

    pub put_staged-keeps :
        (j : ℕ) (p : Output)
        → nth j m.outputs ≡ some p
        → Settled hash s p
        → Settled hash (put_staged m.id i o.path raw s) p
    put_staged-keeps j p there h = elim (put_staged-cases j p there) [
      | inl k ↦ k
      | inr (e, f) ↦
          keep-Settled hash s (put_staged m.id i o.path raw s) p
            (put_staged-apart s m.id i o.path raw p.path f) h
    ]

    pub put_staged-Recoverable :
        Recoverable hash m s → Recoverable hash m (put_staged m.id i o.path raw s)
    put_staged-Recoverable k j p there = elim (put_staged-cases j p there) [
      | inl h ↦ inl h
      | inr (e, f) ↦
          keep_status hash s (put_staged m.id i o.path raw s) m.id j p
            (put_staged-apart s m.id i o.path raw p.path f)
            (put_staged-staged s m.id i o.path raw j e) (k j p there)
    ]
