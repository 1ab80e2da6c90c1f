-- ===== src/Timers/Service/Order.antt =====
-- The order in which due timers are delivered, and the earliest deadline.
use flare_db.Base.{
  ◌≡◌, refl, sym, subst, ap, ◌∙◌, ◌⊎◌, inl, inr, ℤ, leb_ℤ, min_ℤ, ◌≤ℤ◌, ≤ℤ_trans, min_ℤ_left,
  min_ℤ_right, min_ℤ_cases, Bool-cases, Option-cases, none, some, some_eq, none≢some, List, [], ◌∷◌,
  arith,
}
use flare_db.Base.Members.{IsIn, here, there, IsIn-nil, IsIn-cases}
use flare_db.Timers.{TimerEntry}
use flare_db.Timers.Service.{insert_by_fire, sort_by_fire, min_fire}

-- Each timer is no later than those after it.
pub data IsAscending : List TimerEntry → Type 0 where
  nothing : IsAscending []
  first :
      (e : TimerEntry) (xs : List TimerEntry)
      → ((x : TimerEntry) → IsIn x xs → e.fire_timestamp ≤ℤ x.fire_timestamp)
      → IsAscending xs
      → IsAscending (e ∷ xs)

insert_by_fire-IsIn :
    (e x : TimerEntry) (xs : List TimerEntry) → IsIn x (insert_by_fire e xs) → (x ≡ e) ⊎ IsIn x xs
unfolding insert_by_fire
insert_by_fire-IsIn e x [] i = IsIn-cases x e [] i
insert_by_fire-IsIn e x (y ∷ ys) i = elim (Bool-cases (leb_ℤ e.fire_timestamp y.fire_timestamp)) [
  | inl t ↦ IsIn-cases x e (y ∷ ys) (rw t at i)
  | inr f ↦ elim (IsIn-cases x y (insert_by_fire e ys) (rw f at i)) [
    | inl p ↦ inr (here _ _ p)
    | inr j ↦ elim (insert_by_fire-IsIn e x ys j) [ inl p ↦ inl p | inr k ↦ inr (there _ _ k) ]
  ]
]

IsIn-insert_by_fire :
    (e x : TimerEntry) (xs : List TimerEntry) → (x ≡ e) ⊎ IsIn x xs → IsIn x (insert_by_fire e xs)
unfolding insert_by_fire
IsIn-insert_by_fire e x [] (inl p) = here _ _ p
IsIn-insert_by_fire e x [] (inr i) = absurd (IsIn-nil x i)
IsIn-insert_by_fire e x (y ∷ ys) i = elim (Bool-cases (leb_ℤ e.fire_timestamp y.fire_timestamp)) [
  | inl t ↦ rw t (elim i [ inl p ↦ here _ _ p | inr j ↦ there _ _ j ])
  | inr f ↦ rw f (elim i [
    | inl p ↦ there _ _ (IsIn-insert_by_fire e x ys (inl p))
    | inr j ↦ elim (IsIn-cases x y ys j) [
      | inl p ↦ here _ _ p
      | inr k ↦ there _ _ (IsIn-insert_by_fire e x ys (inr k))
    ]
  ])
]

-- `e` is no later than one timer more.
no_later-cons :
    (e y : TimerEntry) (ys : List TimerEntry)
    → e.fire_timestamp ≤ℤ y.fire_timestamp
    → ((x : TimerEntry) → IsIn x ys → e.fire_timestamp ≤ℤ x.fire_timestamp)
    → (x : TimerEntry) → IsIn x (y ∷ ys)
    → e.fire_timestamp ≤ℤ x.fire_timestamp
no_later-cons e y ys le below x i = elim (IsIn-cases x y ys i) [
  | inl p ↦ subst (λ (z : TimerEntry). e.fire_timestamp ≤ℤ z.fire_timestamp) (sym p) le
  | inr j ↦ below x j
]

insert_by_fire-IsAscending :
    (e : TimerEntry) (xs : List TimerEntry) → IsAscending xs → IsAscending (insert_by_fire e xs)
unfolding insert_by_fire
insert_by_fire-IsAscending e _ nothing = first e [] (λ x i. absurd (IsIn-nil x i)) nothing
insert_by_fire-IsAscending e _ (first y ys below rest) =
    elim (Bool-cases (leb_ℤ e.fire_timestamp y.fire_timestamp)) [
      | inl t ↦
          let le : e.fire_timestamp ≤ℤ y.fire_timestamp = ground arith in
          rw t (
            first e (y ∷ ys)
              (no_later-cons e y ys le
                λ x i. ≤ℤ_trans e.fire_timestamp y.fire_timestamp x.fire_timestamp le (below x i))
              (first y ys below rest))
      | inr f ↦
          let le : y.fire_timestamp ≤ℤ e.fire_timestamp = ground arith in
          rw f (
            first y (insert_by_fire e ys)
              (λ x i.
                no_later-cons y e ys le below x (elim (insert_by_fire-IsIn e x ys i) [
                  | inl p ↦ here _ _ p
                  | inr j ↦ there _ _ j
                ]))
              (insert_by_fire-IsAscending e ys rest))
    ]

-- Sorting keeps the timers.
pub sort_by_fire-IsIn :
    (x : TimerEntry) (xs : List TimerEntry) → IsIn x (sort_by_fire xs) → IsIn x xs
unfolding sort_by_fire
sort_by_fire-IsIn x [] i = i
sort_by_fire-IsIn x (y ∷ ys) i = elim (insert_by_fire-IsIn y x (sort_by_fire ys) i) [
  | inl p ↦ here _ _ p
  | inr j ↦ there _ _ (sort_by_fire-IsIn x ys j)
]

pub IsIn-sort_by_fire :
    (x : TimerEntry) (xs : List TimerEntry) → IsIn x xs → IsIn x (sort_by_fire xs)
unfolding sort_by_fire
IsIn-sort_by_fire x [] i = i
IsIn-sort_by_fire x (y ∷ ys) i = elim (IsIn-cases x y ys i) [
  | inl p ↦ IsIn-insert_by_fire y x (sort_by_fire ys) (inl p)
  | inr j ↦ IsIn-insert_by_fire y x (sort_by_fire ys) (inr (IsIn-sort_by_fire x ys j))
]

pub sort_by_fire-IsAscending : (xs : List TimerEntry) → IsAscending (sort_by_fire xs)
unfolding sort_by_fire
sort_by_fire-IsAscending [] = nothing
sort_by_fire-IsAscending (x ∷ xs) =
    insert_by_fire-IsAscending x (sort_by_fire xs) (sort_by_fire-IsAscending xs)

-- There is no earliest deadline only if there is no timer.
pub min_fire-none : (xs : List TimerEntry) → min_fire xs ≡ none → (x : TimerEntry) → IsIn x xs → ⊥
unfolding min_fire
min_fire-none [] h x i = IsIn-nil x i
min_fire-none (y ∷ ys) h x i = elim (Option-cases (min_fire ys)) [
  | inl n ↦ none≢some none _ refl (sym (rw n at h))
  | inr (u, s) ↦ none≢some none _ refl (sym (rw s at h))
]

at_most : {a b : ℤ} → a ≡ b → a ≤ℤ b
at_most {a} p = subst (λ z. a ≤ℤ z) p (omega arith)

-- The earliest deadline is that of a timer, and no later than any other.
pub min_fire-some :
    (xs : List TimerEntry) (t : ℤ)
    → min_fire xs ≡ some t
    → ((x : TimerEntry) → IsIn x xs → t ≤ℤ x.fire_timestamp)
      × (x : TimerEntry) × IsIn x xs
      × (x.fire_timestamp ≡ t)
unfolding min_fire
min_fire-some [] t h = absurd (none≢some none t refl h)
min_fire-some (y ∷ ys) t h = elim (Option-cases (min_fire ys)) [
  | inl n ↦
      let only : y.fire_timestamp ≡ t = some_eq _ _ (rw n at h) in
      (
        λ x i. elim (IsIn-cases x y ys i) [
          | inl p ↦ at_most (sym only ∙ ap (λ (z : TimerEntry). z.fire_timestamp) (sym p))
          | inr j ↦ absurd (min_fire-none ys n x j)
        ],
        y,
        here _ _ refl,
        only,
      )
  | inr (u, s) ↦
      let least : min_ℤ y.fire_timestamp u ≡ t = some_eq _ _ (rw s at h) in
      let rest = min_fire-some ys u s in
      let found : (x : TimerEntry) × IsIn x (y ∷ ys) × (x.fire_timestamp ≡ t) =
        elim (min_ℤ_cases y.fire_timestamp u) [
          | inl p ↦ (y, here _ _ refl, sym p ∙ least)
          | inr p ↦ (rest.1, there _ _ rest.2, rest.3 ∙ sym p ∙ least)
        ] in
      (
        λ x i.
            subst (λ z. z ≤ℤ x.fire_timestamp) least
              (elim (IsIn-cases x y ys i) [
                | inl p ↦
                    subst (λ (z : TimerEntry). min_ℤ y.fire_timestamp u ≤ℤ z.fire_timestamp) (sym p)
                      (min_ℤ_left y.fire_timestamp u)
                | inr j ↦
                    ≤ℤ_trans (min_ℤ y.fire_timestamp u) u x.fire_timestamp
                      (min_ℤ_right y.fire_timestamp u) (rest.0 x j)
              ]),
        found.0,
        found.1,
        found.2,
      )
]
