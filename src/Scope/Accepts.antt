-- ===== src/Scope/Accepts.antt =====
-- That the scope check of internal/core/scope.go refuses nothing within the authority.
use specd_cli.Base.{
  String, ◌≡◌, refl, Bool, true, false, List, [], ◌∷◌, is_ok, arith, Outcome-cases, inl, inr,
}
use specd_cli.Scope.Defs.{
  GitScopeChange, Paths, item_paths, check_path, check_paths, check_change, check_changes,
  judge_changes,
}
use specd_cli.Scope.Authority.{changes_within, check_changes-Grows, is_nil-sorted_unique}

module _ (declared allowed traverses : String → Bool)
    (plain : (p : String) → traverses p ≡ false) where
  check_path_accepts :
      (p : String) (s : Paths) → is_ok (check_path declared allowed traverses p s) ≡ true
  unfolding check_path
  check_path_accepts p s = ground (arith, plain p)

  check_paths_accepts :
      (ps : List String) (s : Paths) → is_ok (check_paths declared allowed traverses ps s) ≡ true
  unfolding check_paths
  check_paths_accepts [] s = refl
  check_paths_accepts (p ∷ ps) s =
      elim (Outcome-cases (check_path declared allowed traverses p s)) [
        | inr (e, refused) ↦ absurd (ground (arith, refused, check_path_accepts p s))
        | inl (t, done) ↦ rw done (check_paths_accepts ps t)
      ]

  check_change_accepts :
      (item : GitScopeChange) (s : Paths)
      → is_ok (check_change declared allowed traverses item s) ≡ true
  unfolding check_change
  check_change_accepts item s = ground (arith, check_paths_accepts (item_paths item) s)

  check_changes_accepts :
      (items : List GitScopeChange) (s : Paths)
      → is_ok (check_changes declared allowed traverses items s) ≡ true
  unfolding check_changes
  check_changes_accepts [] s = refl
  check_changes_accepts (item ∷ items) s =
      elim (Outcome-cases (check_change declared allowed traverses item s)) [
        | inr (e, refused) ↦ absurd (ground (arith, refused, check_change_accepts item s))
        | inl (t, done) ↦ rw done (check_changes_accepts items t)
      ]

  pub judge_changes_iff :
      (changes : List GitScopeChange)
      → is_ok (judge_changes declared allowed traverses changes)
        ≡ changes_within declared allowed traverses changes
  unfolding judge_changes
  judge_changes_iff changes =
      let start : Paths = record { changed = []; offending = [] } in
      elim (Outcome-cases (check_changes declared allowed traverses changes start)) [
        | inr (e, refused) ↦ absurd (ground (arith, refused, check_changes_accepts changes start))
        | inl (s, done) ↦
            let grows = (check_changes-Grows declared allowed traverses changes start s done).0 in
            ground (arith, done, grows, is_nil-sorted_unique s.offending)
      ]
