-- ===== src/Merge.antt =====
-- The merging of windows by an SDK in flaredb/src/engine/window.rs: which windows are asked for, and
-- which answer is accepted.
pub mod Consume
pub mod Accepted
pub mod Distinct
pub mod Batch
pub mod Answered
pub mod Wire
pub mod Cache
pub mod Tests
use flare_db.Base.{
  ◌≡◌, String, Bool, true, false, not, Option, none, some, List, [], ◌∷◌, ◌++◌, map, if◌then◌else◌,
}
use flare_db.Base.Text.{contains, set_insert}
use flare_db.Base.Members.{filter}
use flare_db.Coders.Window.{BeamWindow}
use flare_db.Coders.Canonical.{canonical_key}

pub record MergedWindows : Type 0 where
  pub merged : BeamWindow
  pub originals : List BeamWindow

-- The errors of `validate_merge_result`, with the keys that their messages name.
pub data Refusal : Type 0 where
  no_originals : Refusal
  not_requested : String → Refusal
  consumed_twice : String → Refusal
  omitted : List String → Refusal

-- What the loop has: the keys consumed so far, or an error.
pub data Consumed : Type 0 where
  consumed : List String → Consumed
  refused : Refusal → Consumed

abbrev pub keys_of : List BeamWindow → List String
keys_of windows = map canonical_key windows

-- A `HashSet` of keys, of which the order is never read.
unfoldable pub key_set : List String → List String
unfolding set_insert
key_set [] = []
key_set (key ∷ keys) = set_insert key (key_set keys)

-- The inner loop, over the originals of one merge.
unfoldable pub consume : List String → List String → List String → Consumed
consume requested [] seen = consumed seen
consume requested (key ∷ keys) seen =
    let rest = consume requested keys (key ∷ seen) in
    if contains requested key
    then if contains seen key then refused (consumed_twice key) else rest
    else refused (not_requested key)

abbrev pub and_consume : Consumed → (List String → Consumed) → Consumed
and_consume (consumed seen) next = next seen
and_consume (refused e) next = refused e

-- One merge, with what comes after it.
abbrev pub consume_group :
    List String → List BeamWindow → List String → (List String → Consumed) → Consumed
consume_group requested [] seen next = refused no_originals
consume_group requested (original ∷ originals) seen next =
    and_consume (consume requested (keys_of (original ∷ originals)) seen) next

-- The outer loop.
unfoldable pub consume_merges : List String → List MergedWindows → List String → Consumed
consume_merges requested [] seen = consumed seen
consume_merges requested (merge ∷ rest) seen =
    consume_group requested merge.originals seen λ seen'. consume_merges requested rest seen'

-- `requested.difference(&consumed)`
unfoldable pub missing : List String → List String → List String
unfolding filter
missing requested seen = filter (λ key. not (contains seen key)) requested

abbrev pub complete : List String → Option Refusal
complete [] = none
complete (key ∷ keys) = some (omitted (key ∷ keys))

abbrev pub verdict : List String → Consumed → Option Refusal
verdict requested (consumed seen) = complete (missing requested seen)
verdict requested (refused e) = some e

-- `Ok(())` is `none`.
unfoldable pub validate_merge_result : List BeamWindow → List MergedWindows → Option Refusal
unfolding key_set consume_merges missing
validate_merge_result requested merged =
    let requested_keys = key_set (keys_of requested) in
    verdict requested_keys (consume_merges requested_keys merged [])

-- The filter of `distinct_windows`, which keeps the first window of each key.
unfoldable pub distinct_from : List String → List BeamWindow → List BeamWindow
distinct_from seen [] = []
distinct_from seen (window ∷ windows) =
    let kept = distinct_from (canonical_key window ∷ seen) windows in
    let rest = distinct_from seen windows in
    if contains seen (canonical_key window) then rest else window ∷ kept

unfoldable pub distinct_windows : List BeamWindow → List BeamWindow
unfolding distinct_from
distinct_windows windows = distinct_from [] windows
