-- ===== src/Transaction/Triples.antt =====
-- Steps of internal/core/transaction with what holds before one, wherever it stops, and when it
-- succeeds.
use specd_cli.Base.{◌≡◌, refl, Bool, true, false, Outcome, ok, err}
use specd_cli.Transaction.Types.{TransactionRefusal, Store}
use specd_cli.Transaction.Steps.{Step, go_on, ◌⨾◌, skip, quiet, change}

-- From files with `P` the step leaves files with `I`, and when it succeeds files with `Q`.
abbrev pub Triple : (Store → Type 0) → Step → (Store → Type 0) → (Store → Type 0) → Type 0
Triple P f I Q = (s : Store) → P s → I (f s).1 × ((f s).0 ≡ ok tt → Q (f s).1)

module _ (I : Store → Type 0) where
  go_on-Triple :
      (Q R : Store → Type 0) (g : Step) (o : Outcome TransactionRefusal (Unit {0}) × Store)
      → I o.1
      → (o.0 ≡ ok tt → Q o.1)
      → Triple Q g I R
      → I (go_on g o).1 × ((go_on g o).0 ≡ ok tt → R (go_on g o).1)
  go_on-Triple Q R g (err e, s) i q t = (i, λ h. cc)
  go_on-Triple Q R g (ok done, s) i q t = t s (q refl)

  pub ⨾-Triple :
      (P Q R : Store → Type 0) (f g : Step) → Triple P f I Q → Triple Q g I R → Triple P (f ⨾ g) I R
  ⨾-Triple P Q R f g t u s p = go_on-Triple Q R g (f s) (t s p).0 (t s p).1 u

  pub skip-Triple : (P : Store → Type 0) → ((s : Store) → P s → I s) → Triple P skip I P
  skip-Triple P i s p = (i s p, λ h. p)

  pub quiet-Triple :
      (P : Store → Type 0) (failing : Bool) (e : TransactionRefusal)
      → ((s : Store) → P s → I s)
      → Triple P (quiet failing e) I P
  quiet-Triple P true e i s p = (i s p, λ h. p)
  quiet-Triple P false e i s p = (i s p, λ h. p)

  pub change-Triple :
      (P Q : Store → Type 0) (failing : Bool) (e : TransactionRefusal) (f : Store → Store)
      → ((s : Store) → P s → I s)
      → ((s : Store) → Q s → I s)
      → ((s : Store) → P s → Q (f s))
      → Triple P (change failing e f) I Q
  change-Triple P Q true e f i j q s p = (i s p, λ h. cc)
  change-Triple P Q false e f i j q s p = (j (f s) (q s p), λ h. q s p)

pub weaken-Triple :
    (P I J Q : Store → Type 0) (f : Step)
    → ((s : Store) → I s → J s)
    → Triple P f I Q
    → Triple P f J Q
weaken-Triple P I J Q f w t s p = (w (f s).1 (t s p).0, (t s p).1)

pub both-Triple :
    (P I Q P' I' Q' : Store → Type 0) (f : Step)
    → Triple P f I Q
    → Triple P' f I' Q'
    → Triple (λ s. P s × P' s) f (λ s. I s × I' s) (λ s. Q s × Q' s)
both-Triple P I Q P' I' Q' f t u s p =
    (((t s p.0).0, (u s p.1).0), λ h. ((t s p.0).1 h, (u s p.1).1 h))

-- From files with `P` the step succeeds.
abbrev pub Ends : (Store → Type 0) → Step → Type 0
Ends P f = (s : Store) → P s → (f s).0 ≡ ok tt

pub go_on-ok :
    (g : Step) (o : Outcome TransactionRefusal (Unit {0}) × Store)
    → o.0 ≡ ok tt
    → (g o.1).0 ≡ ok tt
    → (go_on g o).0 ≡ ok tt
go_on-ok g (ok done, s) h k = k
go_on-ok g (err e, s) h k = cc

pub ⨾-Ends :
    (P I Q : Store → Type 0) (f g : Step) → Triple P f I Q → Ends P f → Ends Q g → Ends P (f ⨾ g)
⨾-Ends P I Q f g t e d s p = go_on-ok g (f s) (e s p) (d (f s).1 ((t s p).1 (e s p)))
