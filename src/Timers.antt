-- ===== src/Timers.antt =====
-- The timer types of flaredb/src/engine/timer.rs: `TimeDomain`, `TimerKey` and `TimerEntry`.
pub mod Key
pub mod Kv
pub mod Store
pub mod Service
pub mod Tests
use flare_db.Base.{
  ℕ, ◌%◌, ◌<◌, ◌≡◌, ℤ, leb_ℤ, String, Bool, true, false, ◌&&◌, List, [], ◌∷◌, ◌++◌, length,
}
use flare_db.Base.Utf8.{as_bytes}
use flare_db.Coders.Timestamp.{put_be}

-- A `Vec<u8>`.
abbrev pub Bytes : Type 0
Bytes = List ℕ

pub data TimeDomain : Type 0 where
  event_time processing_time : TimeDomain

-- `domain == TimeDomain::EventTime` and `domain == TimeDomain::ProcessingTime`.
abbrev pub is_event_time : TimeDomain → Bool
is_event_time event_time = true
is_event_time processing_time = false

abbrev pub is_processing_time : TimeDomain → Bool
is_processing_time event_time = false
is_processing_time processing_time = true

pub record TimerKey : Type 0 where
  pub transform_id : String
  pub timer_family_id : String
  pub tag : String
  pub window : String
  pub user_key : Bytes

pub record TimerEntry : Type 0 where
  pub key : TimerKey
  pub domain : TimeDomain
  pub fire_timestamp : ℤ
  pub hold_timestamp : ℤ

-- The parts of a key, in the order in which they are written.
abbrev pub parts : TimerKey → List Bytes
parts k =
    as_bytes k.transform_id
    ∷ as_bytes k.timer_family_id
    ∷ as_bytes k.tag
    ∷ as_bytes k.window
    ∷ k.user_key
    ∷ []

-- The loop of `storage_key`: each part after its length as a u32, most significant byte first.
unfoldable pub write_parts : List Bytes → Bytes
unfolding put_be
write_parts [] = []
write_parts (part ∷ rest) = put_be 4 (length part % 4_294_967_296) ++ (part ++ write_parts rest)

unfoldable pub storage_key : TimerKey → Bytes
unfolding write_parts
storage_key k = write_parts (parts k)

-- `TimerEntry::is_due_at_watermark`
unfoldable pub is_due_at_watermark : TimerEntry → ℤ → Bool
is_due_at_watermark e watermark = is_event_time e.domain && leb_ℤ e.fire_timestamp watermark
