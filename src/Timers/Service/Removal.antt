-- ===== src/Timers/Service/Removal.antt =====
-- A batch of deletes removes its keys from a table, and changes nothing else.
use flare_db.Base.{
  ◌≡◌, refl, ap, ◌∙◌, Bool, false, ◌||◌, Option, none, List, [], ◌∷◌, if◌then◌else◌, Bool-cases,
  inl, inr, arith,
}
use flare_db.Timers.{Bytes, TimerEntry, storage_key}
use flare_db.Timers.Kv.{bytes_eq, bytes_eq→eq, written}
use flare_db.Timers.Store.Keyed.{IsKeyed}
use flare_db.Timers.Store.Keyed
use flare_db.Timers.Service.{put_pending, deletes}

data IsRemoval : List (Bytes × Option TimerEntry) → Type 0 where
  nothing : IsRemoval []
  one :
      (key : Bytes) (pending : List (Bytes × Option TimerEntry))
      → IsRemoval pending
      → IsRemoval ((key, none) ∷ pending)

put_pending-IsRemoval :
    (key : Bytes) (pending : List (Bytes × Option TimerEntry))
    → IsRemoval pending
    → IsRemoval (put_pending key none pending)
unfolding put_pending
put_pending-IsRemoval key _ nothing = one key [] nothing
put_pending-IsRemoval key _ (one k pending rest) = elim (Bool-cases (bytes_eq k key)) [
  | inl t ↦ rw t (one key pending rest)
  | inr f ↦ rw f (one k _ (put_pending-IsRemoval key pending rest))
]

deletes-IsRemoval : (es : List TimerEntry) → IsRemoval (deletes es)
unfolding deletes
deletes-IsRemoval [] = nothing
deletes-IsRemoval (e ∷ es) =
    put_pending-IsRemoval (storage_key e.key) (deletes es) (deletes-IsRemoval es)

removal-IsKeyed : (pending : List (Bytes × Option TimerEntry)) → IsRemoval pending → IsKeyed pending
removal-IsKeyed _ nothing = Keyed.nothing
removal-IsKeyed _ (one key pending rest) = Keyed.removal key pending (removal-IsKeyed pending rest)

pub deletes-IsKeyed : (es : List TimerEntry) → IsKeyed (deletes es)
deletes-IsKeyed es = removal-IsKeyed (deletes es) (deletes-IsRemoval es)

-- Whether a batch has a key, and whether a timer of a list stands at it.
unfoldable has : List (Bytes × Option TimerEntry) → Bytes → Bool
has [] key = false
has ((k, w) ∷ pending) key = bytes_eq k key || has pending key

unfoldable pub has_key : List TimerEntry → Bytes → Bool
has_key [] key = false
has_key (e ∷ es) key = bytes_eq (storage_key e.key) key || has_key es key

has-put_pending :
    (k key : Bytes) (w : Option TimerEntry) (pending : List (Bytes × Option TimerEntry))
    → has (put_pending k w pending) key ≡ (bytes_eq k key || has pending key)
unfolding has put_pending
has-put_pending k key w [] = refl
has-put_pending k key w ((j, v) ∷ pending) =
    ground (arith, has-put_pending k key w pending, bytes_eq→eq j k)

has-deletes : (es : List TimerEntry) (key : Bytes) → has (deletes es) key ≡ has_key es key
unfolding has deletes has_key
has-deletes [] key = refl
has-deletes (e ∷ es) key =
    has-put_pending (storage_key e.key) key none (deletes es) ∙ ap (◌||◌ _) (has-deletes es key)

written_removal :
    (f : Bytes → Option TimerEntry) (key : Bytes) (pending : List (Bytes × Option TimerEntry))
    → IsRemoval pending
    → written pending f key ≡ (if has pending key then none else f key)
unfolding written has
written_removal f key _ nothing = refl
written_removal f key _ (one k pending rest) =
    ground (arith, written_removal (λ j. if bytes_eq k j then none else f j) key pending rest)

pub written-deletes :
    (f : Bytes → Option TimerEntry) (key : Bytes) (es : List TimerEntry)
    → written (deletes es) f key ≡ (if has_key es key then none else f key)
written-deletes f key es =
    written_removal f key (deletes es) (deletes-IsRemoval es)
    ∙ (λ k. if has-deletes es key k then none else f key)
