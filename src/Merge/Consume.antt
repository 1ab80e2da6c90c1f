-- ===== src/Merge/Consume.antt =====
-- The loops of `validate_merge_result` in flaredb/src/engine/window.rs.
use flare_db.Base.{
  ◌≡◌, ◌≢◌, ◌⊎◌, inl, inr, refl, sym, ap, ◌∙◌, String, Bool, true, false, ◌||◌, true≢false,
  Bool-cases, List, [], ◌∷◌, ◌++◌, arith,
}
use flare_db.Base.Text.{contains, str_eq, str_eq→eq, str_eq_refl}
use flare_db.Coders.Window.{BeamWindow}
use flare_db.Merge.{
  MergedWindows, Refusal, Consumed, consumed, refused, keys_of, consume, and_consume, consume_group,
  consume_merges,
}

-- No merge is without originals.
unfoldable pub IsGrouped : List MergedWindows → Type 0
IsGrouped [] = Unit {0}
IsGrouped (merge ∷ rest) = (merge.originals ≢ []) × IsGrouped rest

-- The keys of the originals of all merges.
unfoldable pub all_keys : List MergedWindows → List String
all_keys [] = []
all_keys (merge ∷ rest) = keys_of merge.originals ++ all_keys rest

-- No key has been seen, and none is repeated.
unfoldable pub IsFresh : List String → List String → Type 0
IsFresh seen [] = Unit {0}
IsFresh seen (key ∷ keys) = (contains seen key ≡ false) × IsFresh (key ∷ seen) keys

unfoldable pub AllIn : List String → List String → Type 0
AllIn requested keys = (k : String) → contains keys k ≡ true → contains requested k ≡ true

pub Consumed-cases :
    (c : Consumed) → ((out : List String) × (c ≡ consumed out)) ⊎ ((e : Refusal) × (c ≡ refused e))
Consumed-cases (consumed out) = inl (out, refl)
Consumed-cases (refused e) = inr (e, refl)

consumed_eq : (x y : List String) → consumed x ≡ consumed y → x ≡ y
consumed_eq x y h = cc

refused≢consumed : (e : Refusal) (x : List String) → refused e ≡ consumed x → ⊥
refused≢consumed e x h = cc

pub or_cases : (a b : Bool) → (a || b) ≡ true → (a ≡ true) ⊎ (b ≡ true)
or_cases true b h = inl refl
or_cases false b h = inr h

pub or_right : (a b : Bool) → b ≡ true → (a || b) ≡ true
or_right a b h = ground arith

pub or_move : (a b c : Bool) → (a || (b || c)) ≡ ((b || a) || c)
or_move a b c = ground arith

consume-append :
    (requested xs ys seen : List String)
    → consume requested (xs ++ ys) seen
      ≡ and_consume (consume requested xs seen) (λ out. consume requested ys out)
unfolding consume
consume-append requested [] ys seen = refl
consume-append requested (x ∷ xs) ys seen = elim (Bool-cases (contains requested x)) [
  | inl r ↦ elim (Bool-cases (contains seen x)) [
    | inl s ↦ rw (r, s) refl
    | inr s ↦ rw (r, s) (consume-append requested xs ys (x ∷ seen))
  ]
  | inr r ↦ rw (r) refl
]

-- One key that is consumed.
consume_first :
    (requested : List String) (key : String) (keys seen out : List String)
    → consume requested (key ∷ keys) seen ≡ consumed out
    → (contains requested key ≡ true)
      × (contains seen key ≡ false)
      × (consume requested keys (key ∷ seen) ≡ consumed out)
unfolding consume
consume_first requested key keys seen out h = elim (Bool-cases (contains requested key)) [
  | inl r ↦ elim (Bool-cases (contains seen key)) [
    | inl s ↦ absurd (refused≢consumed _ out (rw (r, s) at h))
    | inr s ↦ (r, s, rw (r, s) at h)
  ]
  | inr r ↦ absurd (refused≢consumed _ out (rw r at h))
]

pub consume-IsFresh :
    (requested keys seen out : List String)
    → consume requested keys seen ≡ consumed out
    → AllIn requested keys
      × IsFresh seen keys
      × ((k : String) → contains out k ≡ (contains keys k || contains seen k))
unfolding consume AllIn IsFresh contains
consume-IsFresh requested [] seen out h = (
  λ k e. absurd (true≢false false e refl),
  _,
  λ k. ap (λ xs. contains xs k) (consumed_eq out seen (sym h)),
)
consume-IsFresh requested (key ∷ keys) seen out h =
    let first = consume_first requested key keys seen out h in
    let rest = consume-IsFresh requested keys (key ∷ seen) out first.2 in
    (
      λ k e. elim (or_cases (str_eq key k) (contains keys k) e) [
        | inl t ↦ ap (contains requested) (sym (str_eq→eq key k t)) ∙ first.0
        | inr t ↦ rest.0 k t
      ],
      (first.1, rest.1),
      λ k. rest.2 k ∙ or_move (contains keys k) (str_eq key k) (contains seen k),
    )

pub IsFresh-consume :
    (requested keys seen : List String)
    → AllIn requested keys
    → IsFresh seen keys
    → (out : List String) × (consume requested keys seen ≡ consumed out)
unfolding consume AllIn IsFresh contains
IsFresh-consume requested [] seen all fresh = (seen, refl)
IsFresh-consume requested (key ∷ keys) seen all fresh =
    let here = all key (rw (str_eq_refl key) refl) in
    let rest =
      IsFresh-consume requested keys (key ∷ seen)
        (λ k e. all k (or_right (str_eq key k) (contains keys k) e)) fresh.1 in
    (rest.0, rw (here, fresh.0) rest.1)

consume_group-consume :
    (requested : List String) (originals : List BeamWindow) (seen : List String)
    (next : List String → Consumed)
    → originals ≢ []
    → consume_group requested originals seen next
      ≡ and_consume (consume requested (keys_of originals) seen) next
consume_group-consume requested [] seen next h = absurd (h refl)
consume_group-consume requested (original ∷ originals) seen next h = refl

and_consume-consumed :
    (c : Consumed) (next : List String → Consumed) (out : List String)
    → and_consume c next ≡ consumed out
    → (mid : List String) × (next mid ≡ consumed out)
and_consume-consumed (consumed mid) next out h = (mid, h)
and_consume-consumed (refused e) next out h = absurd (refused≢consumed e out h)

cons≢nil : (window : BeamWindow) (windows : List BeamWindow) → (window ∷ windows) ≢ []
cons≢nil window windows h = cc

consume_group-consumed :
    (requested : List String) (originals : List BeamWindow) (seen : List String)
    (next : List String → Consumed) (out : List String)
    → consume_group requested originals seen next ≡ consumed out
    → (originals ≢ []) × ((mid : List String) × (next mid ≡ consumed out))
consume_group-consumed requested [] seen next out h = absurd (refused≢consumed _ out h)
consume_group-consumed requested (original ∷ originals) seen next out h =
    (cons≢nil original originals, and_consume-consumed _ next out h)

pub IsGrouped-consume_merges :
    (requested : List String) (merged : List MergedWindows) (seen : List String)
    → IsGrouped merged
    → consume_merges requested merged seen ≡ consume requested (all_keys merged) seen
unfolding consume_merges consume IsGrouped all_keys
IsGrouped-consume_merges requested [] seen g = refl
IsGrouped-consume_merges requested (merge ∷ rest) seen g =
    consume_group-consume requested merge.originals seen _ g.0
    ∙ and_consume_ap (consume requested (keys_of merge.originals) seen) _ _
        (λ mid. IsGrouped-consume_merges requested rest mid g.1)
    ∙ sym (consume-append requested (keys_of merge.originals) (all_keys rest) seen)
  where
    and_consume_ap :
        (c : Consumed) (f g : List String → Consumed)
        → ((mid : List String) → f mid ≡ g mid)
        → and_consume c f ≡ and_consume c g
    and_consume_ap c f g h k = and_consume c (λ mid. h mid k)

pub consume_merges-IsGrouped :
    (requested : List String) (merged : List MergedWindows) (seen out : List String)
    → consume_merges requested merged seen ≡ consumed out
    → IsGrouped merged
unfolding consume_merges IsGrouped
consume_merges-IsGrouped requested [] seen out h = _
consume_merges-IsGrouped requested (merge ∷ rest) seen out h =
    let group = consume_group-consumed requested merge.originals seen _ out h in
    (group.0, consume_merges-IsGrouped requested rest group.1.0 out group.1.1)
