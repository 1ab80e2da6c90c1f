-- ===== src/Timers/Key.antt =====
-- The storage key of a timer tells identities apart.
use flare_db.Base.{ℕ, zero, suc, ◌%◌, ◌<◌, ◌≡◌, refl, ap, ◌∙◌, List, [], ◌∷◌, ◌++◌, length, arith}
use flare_db.Base.Utf8.{as_bytes→eq}
use flare_db.Coders.Timestamp.{put_be, same_prefixed}
use flare_db.Timers.{Bytes, TimerKey, parts, write_parts, storage_key}

-- Every part has a length that a u32 holds.
pub data Fit : List Bytes → Type 0 where
  none_left : Fit []
  part : (p : Bytes) (rest : List Bytes) → length p < 4_294_967_296 → Fit rest → Fit (p ∷ rest)

abbrev pub IsStorable : TimerKey → Type 0
IsStorable k = Fit (parts k)

-- The first part of two equal writings.
same_first :
    (p q : Bytes) (x y : Bytes)
    → length p < 4_294_967_296
    → length q < 4_294_967_296
    → put_be 4 (length p % 4_294_967_296) ++ (p ++ x)
      ≡ put_be 4 (length q % 4_294_967_296) ++ (q ++ y)
    → (p ≡ q) × (x ≡ y)
same_first p q x y hp hq h =
    let short_p : length p ≡ length p % 4_294_967_296 = omega arith in
    let short_q : length q % 4_294_967_296 ≡ length q = omega arith in
    same_prefixed p q x y hp hq
      ((λ k. put_be 4 (short_p k) ++ (p ++ x)) ∙ h ∙ (λ k. put_be 4 (short_q k) ++ (q ++ y)))

write_parts→eq :
    (ps qs : List Bytes)
    → Fit ps
    → Fit qs
    → length ps ≡ length qs
    → write_parts ps ≡ write_parts qs
    → ps ≡ qs
unfolding write_parts
write_parts→eq [] [] fp fq n h = refl
write_parts→eq [] (q ∷ qs) fp fq n h = absurd (omega arith)
write_parts→eq (p ∷ ps) [] fp fq n h = absurd (omega arith)
write_parts→eq (p ∷ ps) (q ∷ qs) (part _ _ hp fp) (part _ _ hq fq) n h =
    let first = same_first p q (write_parts ps) (write_parts qs) hp hq h in
    λ k. first.0 k ∷ write_parts→eq ps qs fp fq (omega arith) first.1 k

part_at : ℕ → List Bytes → Bytes
part_at i [] = []
part_at zero (p ∷ ps) = p
part_at (suc i) (p ∷ ps) = part_at i ps

same_parts : (j k : TimerKey) → parts j ≡ parts k → j ≡ k
unfolding part_at
same_parts j k h = λ i. record {
  transform_id = as_bytes→eq j.transform_id k.transform_id (ap (part_at 0) h) i;
  timer_family_id = as_bytes→eq j.timer_family_id k.timer_family_id (ap (part_at 1) h) i;
  tag = as_bytes→eq j.tag k.tag (ap (part_at 2) h) i;
  window = as_bytes→eq j.window k.window (ap (part_at 3) h) i;
  user_key = part_at 4 (h i);
}

-- Two timer identities with the same storage key are the same identity, if the length of every part
-- fits in a u32.
pub storage_key→eq :
    (j k : TimerKey) → IsStorable j → IsStorable k → storage_key j ≡ storage_key k → j ≡ k
unfolding storage_key
storage_key→eq j k fj fk h = same_parts j k (write_parts→eq (parts j) (parts k) fj fk refl h)
