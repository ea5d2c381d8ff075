-- ===== src/Hid/Screen.antt =====
-- src/hid.rs: `ScreenSpec::encode` and `send_screen_update`, a screen in reports of 64 bytes.
pub mod Whole
use puddle.Base.{
  ℕ, zero, suc, ◌+◌, ◌-◌, ◌*◌, ◌/◌, ◌%◌, Bool, true, false, Option, none, some, List, [], ◌∷◌, ◌++◌,
  ltb, if◌then◌else◌, min, length, take, drop, replicate,
}
use puddle.Base.Exec.{Result, ok, err, Exec, pure, raise, ◌>>=◌, ◌>>◌}
use puddle.Base.Bytes.{le16}
use puddle.Hid.Messages.{
  CString, MenuItem, DisplayContent, text_lines, menu, EncoderLabel, ScreenAnimation,
  animation_byte, ScreenSpec,
}

abbrev pub hid_report_len : ℕ
hid_report_len = 64

pub data HidError : Type 0 where
  -- lines, items, item_id, fragment_count
  too_many_lines too_many_items item_out_of_range too_large : ℕ → HidError
  write_failed : HidError

-- What grows the payload.
abbrev pub Encode : Type 0
Encode = Exec (List ℕ) HidError (Unit {0})

abbrev pub extend : List ℕ → Encode
extend bytes payload = (ok tt, payload ++ bytes)

-- `as_bytes_with_nul`
abbrev pub with_nul : CString → List ℕ
with_nul s = s ++ (0 ∷ [])

unfoldable pub encode_labels : List EncoderLabel → Encode
encode_labels [] = pure tt
encode_labels (label ∷ labels) = do
  extend (with_nul label.primary)
  extend (with_nul label.secondary)
  encode_labels labels

unfoldable pub encode_lines : List CString → Encode
encode_lines [] = pure tt
encode_lines (line ∷ lines) = do extend (with_nul line); encode_lines lines

abbrev bool_byte : Bool → ℕ
bool_byte true = 1
bool_byte false = 0

unfoldable pub encode_items : List MenuItem → Encode
encode_items [] = pure tt
encode_items (item ∷ items) =
    let rest = encode_items items in
    if ltb 63 item.item_id
    then raise (item_out_of_range item.item_id)
    else (extend (item.item_id ∷ bool_byte item.enabled ∷ with_nul item.label) >> rest)

unfoldable pub encode_content : DisplayContent → Encode
unfolding encode_lines encode_items
encode_content (text_lines top_margin lines) =
    if ltb 255 (length lines)
    then raise (too_many_lines (length lines))
    else (extend (0x00 ∷ top_margin ∷ length lines % 256 ∷ []) >> encode_lines lines)
encode_content (menu top_margin title items) =
    if ltb 255 (length items)
    then raise (too_many_items (length items))
    else (extend (0x01 ∷ top_margin ∷ with_nul title ++ (length items % 256 ∷ []))
        >> encode_items items)

unfoldable pub encode_area : DisplayContent → ScreenAnimation → ℕ → ℕ → Encode
unfolding encode_content
encode_area content animation duration delay = do
  encode_content content
  extend (animation_byte animation ∷ (le16 duration ++ le16 delay))

unfoldable pub encode : ScreenSpec → Result HidError (List ℕ)
unfolding encode_labels encode_area
encode spec =
    let (r, payload) =
      (do
        encode_labels spec.encoder_labels
        encode_area spec.left_main spec.left_animation_type spec.left_animation_duration
            spec.left_animation_delay
        encode_area spec.right_main spec.right_animation_type spec.right_animation_duration
            spec.right_animation_delay)
        [] in
    elim r [ ok u ↦ ok payload | err e ↦ err e ]

-- The device: whether it takes a report, after those that it took; and these.
abbrev pub Accepts : Type 0
Accepts = List (List ℕ) → List ℕ → Bool

abbrev pub Send : Type 0
Send = Exec (List (List ℕ)) HidError (Unit {0})

unfoldable pub write : Accepts → List ℕ → Send
write accepts report written =
    if accepts written report
    then (ok tt, written ++ (report ∷ []))
    else (err write_failed, written)

abbrev pub payload_per_fragment : ℕ
payload_per_fragment = hid_report_len - 4

unfoldable pub fragment_count : List ℕ → ℕ
fragment_count payload = (length payload + payload_per_fragment - 1) / payload_per_fragment

-- The bytes `start..end` of the payload.
abbrev pub chunk : List ℕ → ℕ → List ℕ
chunk payload i =
    let first = i * payload_per_fragment in
    take (min ((i + 1) * payload_per_fragment) (length payload) - first) (drop first payload)

unfoldable pub fragment : ℕ → ℕ → List ℕ → ℕ → List ℕ
fragment screen_id count payload i =
    let c = chunk payload i in
    0x01 ∷ screen_id ∷ count % 256 ∷ i % 256 ∷ (c ++ replicate (payload_per_fragment - length c) 0)

-- The fragments from `i` on, as many as are left.
unfoldable pub send_fragments : Accepts → ℕ → ℕ → List ℕ → ℕ → ℕ → Send
unfolding write fragment
send_fragments accepts screen_id count payload zero i = pure tt
send_fragments accepts screen_id count payload (suc left) i = do
  write accepts (fragment screen_id count payload i)
  send_fragments accepts screen_id count payload left (i + 1)

unfoldable pub send_payload : Accepts → ℕ → List ℕ → Send
unfolding fragment_count send_fragments
send_payload accepts screen_id payload =
    let count = fragment_count payload in
    if ltb 255 count
    then raise (too_large count)
    else send_fragments accepts screen_id count payload count 0

unfoldable pub send_screen_update : Accepts → ScreenSpec → Send
unfolding encode send_payload
send_screen_update accepts spec written = elim (encode spec) [
  | err e ↦ (err e, written)
  | ok payload ↦ send_payload accepts spec.screen_id payload written
]
