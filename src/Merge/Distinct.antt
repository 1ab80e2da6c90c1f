-- ===== src/Merge/Distinct.antt =====
-- What `distinct_windows` of flaredb/src/engine/window.rs keeps.
use flare_db.Base.{
  ◌≡◌, refl, sym, ap, ◌∙◌, inl, inr, String, Bool, true, false, ◌||◌, Bool-cases, List, [], ◌∷◌,
  arith,
}
use flare_db.Base.Text.{contains, str_eq, str_eq→eq}
use flare_db.Coders.Window.{BeamWindow}
use flare_db.Coders.Canonical.{canonical_key}
use flare_db.Merge.{keys_of, distinct_from, distinct_windows}
use flare_db.Merge.Consume.{IsFresh, or_move}

known : (a w s : Bool) → (a ≡ true → s ≡ true) → (w || s) ≡ ((a || w) || s)
known true w s h = rw (h refl) (ground arith)
known false w s h = refl

distinct_from-IsFresh :
    (seen : List String) (windows : List BeamWindow)
    → IsFresh seen (keys_of (distinct_from seen windows))
      × ((key : String)
          → (contains (keys_of (distinct_from seen windows)) key || contains seen key)
            ≡ (contains (keys_of windows) key || contains seen key))
unfolding distinct_from IsFresh contains
distinct_from-IsFresh seen [] = (_, λ key. refl)
distinct_from-IsFresh seen (window ∷ windows) =
    let own = canonical_key window in
    elim (Bool-cases (contains seen own)) [
      | inl t ↦ rw t (
          let rest = distinct_from-IsFresh seen windows in
          (
            rest.0,
            λ key.
                rest.1 key
                ∙ known (str_eq own key) (contains (keys_of windows) key) (contains seen key)
                    (λ e. ap (contains seen) (sym (str_eq→eq own key e)) ∙ t),
          ))
      | inr f ↦ rw f (
          let rest = distinct_from-IsFresh (own ∷ seen) windows in
          (
            (f, rest.0),
            λ key.
                sym (
                  or_move (contains (keys_of (distinct_from (own ∷ seen) windows)) key)
                    (str_eq own key) (contains seen key))
                ∙ rest.1 key
                ∙ or_move (contains (keys_of windows) key) (str_eq own key) (contains seen key),
          ))
    ]

or_false : (a : Bool) → (a || false) ≡ a
or_false a = ground arith

-- Of the windows of a request, the ones that are sent have different canonical keys, and they have
-- the same keys as all of them.
pub distinct_windows-IsFresh :
    (windows : List BeamWindow)
    → IsFresh [] (keys_of (distinct_windows windows))
      × ((key : String)
          → contains (keys_of (distinct_windows windows)) key ≡ contains (keys_of windows) key)
unfolding distinct_windows contains
distinct_windows-IsFresh windows =
    let all = distinct_from-IsFresh [] windows in
    (all.0, λ key. sym (or_false _) ∙ all.1 key ∙ or_false _)
