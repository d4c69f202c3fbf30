-- ===== src/Scope/Authority.antt =====
-- What a scope check that passes proves: internal/core/scope.go.
use specd_cli.Base.{
  String, ◌≡◌, refl, ap, ◌∙◌, inl, inr, Bool, true, false, not, ◌&&◌, ◌||◌, List, [], ◌∷◌, ◌++◌,
  ◌==◌, if◌then◌else◌, contains, contains-append, sort_texts, insert_text, contains-sort_texts, ok,
  arith, eq_iff, Bool-cases, Outcome-cases,
}
use specd_cli.Scope.Defs.{
  GitScopeChange, Paths, managed_scope_path, managed_lock_path, item_paths, drop_repeats,
  sorted_unique, is_nil, check_path, check_paths, check_change, check_changes, judge_changes,
}

contains-drop_repeats :
    (xs : List String) (z : String) → contains (drop_repeats xs) z ≡ contains xs z
unfolding drop_repeats contains
contains-drop_repeats [] z = refl
contains-drop_repeats (x ∷ []) z = refl
contains-drop_repeats (x ∷ y ∷ ys) z =
    ground (arith, contains-drop_repeats (y ∷ ys) z, eq_iff x y, eq_iff x z, eq_iff y z)

contains-sorted_unique :
    (xs : List String) (z : String) → contains (sorted_unique xs) z ≡ contains xs z
unfolding sorted_unique
contains-sorted_unique xs z = contains-drop_repeats (sort_texts xs) z ∙ contains-sort_texts xs z

is_nil-drop_repeats : (xs : List String) → is_nil (drop_repeats xs) ≡ is_nil xs
unfolding drop_repeats
is_nil-drop_repeats [] = refl
is_nil-drop_repeats (x ∷ []) = refl
is_nil-drop_repeats (x ∷ y ∷ ys) = ground (arith, is_nil-drop_repeats (y ∷ ys))

is_nil-insert_text : (x : String) (xs : List String) → is_nil (insert_text x xs) ≡ false
unfolding insert_text
is_nil-insert_text x [] = refl
is_nil-insert_text x (y ∷ ys) = ground arith

pub is_nil-sorted_unique : (xs : List String) → is_nil (sorted_unique xs) ≡ is_nil xs
unfolding sorted_unique sort_texts
is_nil-sorted_unique [] = is_nil-drop_repeats []
is_nil-sorted_unique (x ∷ xs) =
    is_nil-drop_repeats (insert_text x (sort_texts xs)) ∙ is_nil-insert_text x (sort_texts xs)

module _ (declared allowed traverses : String → Bool) where
  -- A path is within the authority of the attempt.
  abbrev pub within : String → Bool
  within path =
      managed_lock_path path || (if managed_scope_path path then allowed path else declared path)

  unfoldable pub all_within : List String → Bool
  all_within [] = true
  all_within (p ∷ ps) = within p && all_within ps

  abbrev pub change_within : GitScopeChange → Bool
  change_within item = (item.kind == "A" || item.kind == "M") && all_within (item_paths item)

  unfoldable pub changes_within : List GitScopeChange → Bool
  changes_within [] = true
  changes_within (item ∷ items) = change_within item && changes_within items

  -- Some change names the path.
  unfoldable pub touched : List GitScopeChange → String → Bool
  touched [] p = false
  touched (item ∷ items) p = contains (item_paths item) p || touched items p

  -- What the part of the loop from `s` to `t` did, over paths of which `good` says they are within.
  abbrev pub Grows : Paths → Paths → Bool → (String → Bool) → Type 0
  Grows s t good named =
      (is_nil t.offending ≡ (is_nil s.offending && good))
      × ((z : String)
          → is_nil t.offending ≡ true
          → contains t.changed z
            ≡ (contains s.changed z || (named z && not (managed_scope_path z))))

  Grows-trans :
      (s t u : Paths) (g h : Bool) (n m : String → Bool)
      → Grows s t g n
      → Grows t u h m
      → Grows s u (g && h) (λ z. n z || m z)
  Grows-trans s t u g h n m a b =
      (ground (arith, a.0, b.0), λ z k. ground (arith, a.0, b.0, a.1 z, b.1 z))

  lock-managed : (p : String) → managed_lock_path p ≡ true → managed_scope_path p ≡ true
  unfolding managed_lock_path
  lock-managed p h = ground arith

  is_nil-append : (xs : List String) (y : String) (ys : List String) → is_nil (xs ++ y ∷ ys) ≡ false
  is_nil-append [] y ys = refl
  is_nil-append (x ∷ xs) y ys = refl

  is_nil-item_paths :
      (xs : List String) (item : GitScopeChange) → is_nil (xs ++ item_paths item) ≡ false
  unfolding item_paths
  is_nil-item_paths xs item = elim (Bool-cases (item.previous_path == "")) [
    | inl alone ↦ rw alone (is_nil-append xs item.path [])
    | inr two ↦ rw two (is_nil-append xs item.previous_path (item.path ∷ []))
  ]

  check_path-Grows :
      (p : String) (s t : Paths)
      → check_path declared allowed traverses p s ≡ ok t
      → Grows s t (within p) (λ z. p == z)
  unfolding check_path contains
  check_path-Grows p s t h = (
    ground (arith, lock-managed p, is_nil-append s.offending p []),
    λ z k.
        let same : p == z ≡ true → managed_scope_path p ≡ managed_scope_path z =
          λ e. ap managed_scope_path ((eq_iff p z).0 e) in
        ground (
          arith,
          lock-managed p,
          is_nil-append s.offending p [],
          contains-append s.changed (p ∷ []) z,
          same,
        ),
  )

  check_paths-Grows :
      (ps : List String) (s t : Paths)
      → check_paths declared allowed traverses ps s ≡ ok t
      → Grows s t (all_within ps) (contains ps)
  unfolding check_paths all_within contains
  check_paths-Grows [] s t h = (ground arith, λ z k. ground arith)
  check_paths-Grows (p ∷ ps) s t h =
      elim (Outcome-cases (check_path declared allowed traverses p s)) [
        | inr (e, refused) ↦ absurd (ground (arith, refused))
        | inl (m, done) ↦
            Grows-trans s m t (within p) (all_within ps) (λ z. p == z) (contains ps)
              (check_path-Grows p s m done) (check_paths-Grows ps m t (ground (arith, done)))
      ]

  check_change-Grows :
      (item : GitScopeChange) (s t : Paths)
      → check_change declared allowed traverses item s ≡ ok t
      → Grows s t (change_within item) (contains (item_paths item))
  unfolding check_change
  check_change-Grows item s t h = elim (Bool-cases (item.kind == "A" || item.kind == "M")) [
    | inl plain ↦ rw plain (check_paths-Grows (item_paths item) s t (ground (arith, plain)))
    | inr odd ↦
        let never = is_nil-item_paths s.offending item in
        (ground (arith, odd, never), λ z k. absurd (ground (arith, odd, never)))
  ]

  pub check_changes-Grows :
      (items : List GitScopeChange) (s t : Paths)
      → check_changes declared allowed traverses items s ≡ ok t
      → Grows s t (changes_within items) (touched items)
  unfolding check_changes changes_within touched
  check_changes-Grows [] s t h = (ground arith, λ z k. ground arith)
  check_changes-Grows (item ∷ items) s t h =
      elim (Outcome-cases (check_change declared allowed traverses item s)) [
        | inr (e, refused) ↦ absurd (ground (arith, refused))
        | inl (m, done) ↦
            Grows-trans s m t (change_within item) (changes_within items)
              (contains (item_paths item)) (touched items) (check_change-Grows item s m done)
              (check_changes-Grows items m t (ground (arith, done)))
      ]

  pub judge_changes_within :
      (changes : List GitScopeChange) (changed : List String)
      → judge_changes declared allowed traverses changes ≡ ok changed
      → (changes_within changes ≡ true)
        × ((p : String) → contains changed p ≡ (touched changes p && not (managed_scope_path p)))
  unfolding judge_changes touched contains
  judge_changes_within changes changed h =
      let start : Paths = record { changed = []; offending = [] } in
      elim (Outcome-cases (check_changes declared allowed traverses changes start)) [
        | inr (e, refused) ↦ absurd (ground (arith, refused))
        | inl (s, done) ↦
            let grows = check_changes-Grows changes start s done in
            let none_left : is_nil s.offending ≡ true =
              ground (arith, done, is_nil-sorted_unique s.offending) in
            let is : changed ≡ sorted_unique s.changed = ground (arith, done) in
            (
              ground (arith, grows.0, none_left),
              λ p.
                  ap (λ l. contains l p) is
                  ∙ contains-sorted_unique s.changed p
                  ∙ grows.1 p none_left,
            )
      ]
