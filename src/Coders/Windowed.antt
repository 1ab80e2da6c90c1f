-- ===== src/Coders/Windowed.antt =====
-- The list of windows and the prefix of a windowed value in flaredb/src/coders/primitives.rs. A panic
-- is `none`.
use flare_db.Base.{
  ℕ, zero, suc, ◌%◌, ◌^◌, ◌<◌, true, some_eq, ◌≡◌, refl, sym, ap, ◌∙◌, ℤ, Option, none, some, List,
  [], ◌∷◌, ◌++◌, append_append, length, ltb, if◌then◌else◌, arith,
}
use flare_db.Coders.Varint.{IsI64, decode_varint}
use flare_db.Coders.Timestamp.{
  put_be, get_be, get_be-put_be, encode_timestamp_millis, decode_timestamp_millis,
  decode_timestamp_millis-encode_timestamp_millis,
}
use flare_db.Coders.Window.{
  BeamWindow, WindowCoder, encode_window, decode_one_window, IsEncodable,
  decode_one_window-encode_window,
}
use flare_db.Coders.Pane.{
  PaneInfo, encode_pane_info, decode_pane_info, decode_pane_info-encode_pane_info,
}

abbrev pub then_some {ℓ κ} : {A : Type ℓ} {B : Type κ} → Option A → (A → Option B) → Option B
then_some none next = none
then_some (some a) next = next a

-- The loop of `encode_windows`.
unfoldable pub encode_each : WindowCoder → List BeamWindow → Option (List ℕ)
encode_each coder [] = some []
encode_each coder (window ∷ windows) =
    then_some (encode_window coder window)
      λ bytes. then_some (encode_each coder windows) λ rest. some (bytes ++ rest)

-- The length as an i32, in four bytes.
unfoldable pub encode_windows : WindowCoder → List BeamWindow → Option (List ℕ)
unfolding encode_each
encode_windows coder windows =
    then_some (encode_each coder windows)
      λ rest. some (put_be 4 (length windows % 4_294_967_296) ++ rest)

-- A number of windows, one after the other.
unfoldable pub decode_each : ℕ → WindowCoder → List ℕ → Option (List BeamWindow × List ℕ)
decode_each zero coder buf = some ([], buf)
decode_each (suc count) coder buf =
    then_some (decode_one_window coder buf)
      λ first. then_some (decode_each count coder first.1) λ rest. some (first.0 ∷ rest.0, rest.1)

-- The chunks of an unknown length, on fuel: the count of a chunk takes a byte.
unfoldable pub decode_chunks : ℕ → WindowCoder → List ℕ → Option (List BeamWindow × List ℕ)
unfolding decode_each
decode_chunks zero coder buf = none
decode_chunks (suc fuel) coder buf = then_some (decode_varint buf) λ chunk. elim chunk.0 [
  | zero ↦ some ([], chunk.1)
  | suc n ↦ then_some (decode_each (suc n) coder chunk.1) λ windows.
      then_some (decode_chunks fuel coder windows.1) λ rest. some (windows.0 ++ rest.0, rest.1)
]

-- A count below 2 ^ 31 is not negative as an i32.
unfoldable pub decode_windows : WindowCoder → List ℕ → Option (List BeamWindow × List ℕ)
unfolding decode_each decode_chunks
decode_windows coder buf = then_some (get_be 4 0 buf) λ count.
    if ltb count.0 2_147_483_648
    then decode_each count.0 coder count.1
    else decode_chunks (suc (length count.1)) coder count.1

unfoldable pub encode_windowed_value_header :
    ℤ → List BeamWindow → WindowCoder → PaneInfo → Option (List ℕ)
unfolding encode_windows
encode_windowed_value_header timestamp_millis windows coder pane =
    then_some (encode_windows coder windows)
      λ bytes. some (encode_timestamp_millis timestamp_millis ++ (bytes ++ encode_pane_info pane))

unfoldable pub decode_windowed_value_header :
    WindowCoder → List ℕ → Option ((ℤ × (List BeamWindow × PaneInfo)) × List ℕ)
unfolding decode_windows
decode_windowed_value_header coder buf = then_some (decode_timestamp_millis buf) λ timestamp.
    then_some (decode_windows coder timestamp.1) λ windows.
      then_some (decode_pane_info windows.1)
        λ pane. some ((timestamp.0, (windows.0, pane.0)), pane.1)

-- Every window of a list matches the coder, with bounds and a length that the wire can hold.
pub data AllEncodable (coder : WindowCoder) : List BeamWindow → Type 0 where
  no_windows : AllEncodable coder []
  window_and :
      (window : BeamWindow) (windows : List BeamWindow)
      → IsEncodable coder window
      → AllEncodable coder windows
      → AllEncodable coder (window ∷ windows)

-- The bytes of a window do not depend on what comes after them.
one_round_trip :
    (coder : WindowCoder) (window : BeamWindow)
    → IsEncodable coder window
    → (bytes : List ℕ) × (encode_window coder window ≡ some bytes)
      × ((buf : List ℕ) → decode_one_window coder (bytes ++ buf) ≡ some (window, buf))
one_round_trip coder window h =
    let first = decode_one_window-encode_window coder window [] h in
    (
      first.0,
      first.1,
      λ buf.
          let again = decode_one_window-encode_window coder window buf h in
          ap (λ bytes. decode_one_window coder (bytes ++ buf)) (some_eq _ _ (sym first.1 ∙ again.1))
          ∙ again.2,
    )

each_round_trip :
    (coder : WindowCoder) (windows : List BeamWindow)
    → AllEncodable coder windows
    → (bytes : List ℕ) × (encode_each coder windows ≡ some bytes)
      × ((buf : List ℕ) → decode_each (length windows) coder (bytes ++ buf) ≡ some (windows, buf))
unfolding encode_each decode_each
each_round_trip coder _ no_windows = ([], refl, λ buf. refl)
each_round_trip coder _ (window_and window windows h hs) =
    let rest = each_round_trip coder windows hs in
    let first = one_round_trip coder window h in
    (
      first.0 ++ rest.0,
      (λ i. then_some (first.1 i) λ bytes. then_some (rest.1 i) λ after. some (bytes ++ after)),
      λ buf.
          (λ i. then_some (decode_one_window coder (append_append first.0 rest.0 buf i)) λ one.
            then_some (decode_each (length windows) coder one.1)
              λ after. some (one.0 ∷ after.0, after.1))
          ∙ (λ i. then_some (first.2 (rest.0 ++ buf) i) λ one.
              then_some (decode_each (length windows) coder one.1)
                λ after. some (one.0 ∷ after.0, after.1))
          ∙ (λ i. then_some (rest.2 buf i) λ after. some (window ∷ after.0, after.1)),
    )

windows_round_trip :
    (coder : WindowCoder) (windows : List BeamWindow)
    → AllEncodable coder windows
    → length windows < 2_147_483_648
    → (bytes : List ℕ) × (encode_windows coder windows ≡ some bytes)
      × ((buf : List ℕ) → decode_windows coder (bytes ++ buf) ≡ some (windows, buf))
unfolding encode_windows decode_windows
windows_round_trip coder windows h fits =
    let each = each_round_trip coder windows h in
    let short : length windows % 4_294_967_296 ≡ length windows = omega arith in
    let small : ltb (length windows) 2_147_483_648 ≡ true = ground arith in
    let bound : length windows < 256 ^ 4 = omega arith in
    let count = put_be 4 (length windows % 4_294_967_296) in
    (
      count ++ each.0,
      (λ i. then_some (each.1 i) λ rest. some (count ++ rest)),
      λ buf.
          let read : get_be 4 0 ((count ++ each.0) ++ buf) ≡ some (length windows, each.0 ++ buf) =
            ap (get_be 4 0) (append_append count each.0 buf)
            ∙ (λ i. get_be 4 0 (put_be 4 (short i) ++ (each.0 ++ buf)))
            ∙ get_be-put_be 4 (length windows) (each.0 ++ buf) bound in
          rw (read, small) (each.2 buf),
    )

-- The prefix of a windowed value is written for windows that match their coder, fewer than 2 ^ 31, for
-- a timestamp and pane indices that an i64 holds and bounds and lengths that the wire can hold, and
-- decoding it, with an element after it, gives back the timestamp, the windows in their order and the
-- pane, and leaves the element.
pub decode_windowed_value_header-encode_windowed_value_header :
    (timestamp_millis : ℤ) (windows : List BeamWindow) (coder : WindowCoder) (pane : PaneInfo)
    (buf : List ℕ)
    → IsI64 timestamp_millis
    → AllEncodable coder windows
    → length windows < 2_147_483_648
    → IsI64 pane.index
    → IsI64 pane.non_speculative_index
    → (bytes : List ℕ) × (encode_windowed_value_header timestamp_millis windows coder pane
        ≡ some bytes)
      × (decode_windowed_value_header coder (bytes ++ buf)
          ≡ some ((timestamp_millis, (windows, pane)), buf))
unfolding encode_windowed_value_header decode_windowed_value_header
decode_windowed_value_header-encode_windowed_value_header t windows coder pane buf ht hw fits hi
      hn =
    let list = windows_round_trip coder windows hw fits in
    let stamp = encode_timestamp_millis t in
    let last = encode_pane_info pane in
    let apart : (stamp ++ (list.0 ++ last)) ++ buf ≡ stamp ++ (list.0 ++ (last ++ buf)) =
      append_append stamp (list.0 ++ last) buf ∙ ap (◌++◌ stamp) (append_append list.0 last buf) in
    let first : decode_timestamp_millis ((stamp ++ (list.0 ++ last)) ++ buf)
        ≡ some (t, list.0 ++ (last ++ buf)) =
      ap decode_timestamp_millis apart
      ∙ decode_timestamp_millis-encode_timestamp_millis t (list.0 ++ (last ++ buf)) ht in
    (
      stamp ++ (list.0 ++ last),
      (λ i. then_some (list.1 i) λ bytes. some (stamp ++ (bytes ++ last))),
      rw (first, list.2 (last ++ buf), decode_pane_info-encode_pane_info pane buf hi hn) refl,
    )
