-- ===== src/Hid/Screen/Whole.antt =====
-- A screen arrives whole: its fragments in order hold the payload.
use puddle.Base.{
  ℕ, zero, suc, ◌+◌, ◌-◌, ◌*◌, ◌/◌, ◌%◌, ◌≤◌, ◌<◌, ◌≡◌, refl, sym, ap, ◌∙◌, true, false, List, [],
  ◌∷◌, ◌++◌, append_assoc, append-nil, ltb, min, length, take, drop, drop-drop, take-append-drop,
  length-append, length-take, length-drop, length-replicate, replicate, arith,
}
use puddle.Base.Exec.{ok}
use puddle.Hid.Messages.{ScreenSpec}
use puddle.Hid.Screen.{
  chunk, encode, fragment, fragment_count, send_fragments, send_payload, send_screen_update, write,
}

-- Each report has 64 bytes: its header, which counts from `i` on, and its part of the payload.
abbrev pub AreNumbered : ℕ → ℕ → ℕ → List (List ℕ) → Type 0
AreNumbered screen_id count i [] = Unit
AreNumbered screen_id count i (r ∷ reports) =
    (length r ≡ 64)
    × (take 4 r ≡ 0x01 ∷ screen_id ∷ count ∷ i ∷ [])
    × AreNumbered screen_id count (i + 1) reports

-- What follows the headers.
abbrev pub bodies : List (List ℕ) → List ℕ
bodies [] = []
bodies (r ∷ reports) = drop 4 r ++ bodies reports

-- The reports of `send_fragments`.
fragments : ℕ → ℕ → List ℕ → ℕ → ℕ → List (List ℕ)
fragments screen_id count payload zero i = []
fragments screen_id count payload (suc left) i =
    fragment screen_id count payload i ∷ fragments screen_id count payload left (i + 1)

sends_fragments :
    (screen_id count : ℕ) (payload : List ℕ) (left i : ℕ) (written : List (List ℕ))
    → send_fragments (λ _ _. true) screen_id count payload left i written
      ≡ (ok tt, written ++ fragments screen_id count payload left i)
unfolding send_fragments write fragments
sends_fragments screen_id count payload zero i written = rw append-nil
sends_fragments screen_id count payload (suc left) i written =
    rw
      (sends_fragments screen_id count payload left (i + 1)
        (written ++ (fragment screen_id count payload i ∷ [])))
      (rw append_assoc)

length-chunk :
    (payload : List ℕ) (i : ℕ) → length (chunk payload i) ≡ min 60 (length payload - i * 60)
length-chunk payload i = omega (
  arith,
  length-take (min ((i + 1) * 60) (length payload) - i * 60) (drop (i * 60) payload),
  length-drop (i * 60) payload,
)

fragments-AreNumbered :
    (screen_id count : ℕ) (payload : List ℕ) (left i : ℕ)
    → i + left ≡ count
    → count ≤ 255
    → AreNumbered screen_id count i (fragments screen_id count payload left i)
unfolding fragments fragment
fragments-AreNumbered screen_id count payload zero i e h = tt
fragments-AreNumbered screen_id count payload (suc left) i e h = (
  omega (
    arith,
    length-append (chunk payload i) (replicate (60 - length (chunk payload i)) 0),
    length-chunk payload i,
    length-replicate {A = ℕ} (60 - length (chunk payload i)) 0,
  ),
  rw (small count (omega arith), small i (omega arith)),
  fragments-AreNumbered screen_id count payload left (i + 1) (omega arith) h,
)
  where
    small : (n : ℕ) → n ≤ 255 → n % 256 ≡ n
    small n le = omega arith

all_left : (n : ℕ) (xs : List ℕ) → length xs ≤ n → take n xs ≡ xs
all_left zero [] h = refl
all_left (suc n) [] h = refl
all_left (suc n) (x ∷ xs) h = ap (λ (t : List ℕ). x ∷ t) (all_left n xs (omega arith))
all_left zero (x ∷ xs) h = absurd (omega arith)

chunk_last :
    (payload : List ℕ) (i : ℕ)
    → length payload ≤ (i + 1) * 60
    → chunk payload i ≡ drop (i * 60) payload
chunk_last payload i h =
    all_left (min ((i + 1) * 60) (length payload) - i * 60) (drop (i * 60) payload)
      (omega (arith, length-drop (i * 60) payload))

chunk_full :
    (payload : List ℕ) (i : ℕ)
    → (i + 1) * 60 ≤ length payload
    → chunk payload i ≡ take 60 (drop (i * 60) payload)
chunk_full payload i h = ap (λ n. take n (drop (i * 60) payload)) all_of_it
  where
    all_of_it : min ((i + 1) * 60) (length payload) - i * 60 ≡ 60
    all_of_it = omega arith

next_drop :
    (payload : List ℕ) (i : ℕ) → drop ((i + 1) * 60) payload ≡ drop 60 (drop (i * 60) payload)
next_drop payload i = ap (λ n. drop n payload) more ∙ sym (drop-drop 60 (i * 60) payload)
  where
    more : (i + 1) * 60 ≡ i * 60 + 60
    more = omega arith

zeros : {m n : ℕ} → m ≡ n → replicate {A = ℕ} m 0 ≡ replicate n 0
zeros e = ap (λ k. replicate {A = ℕ} k 0) e

no_padding :
    (payload : List ℕ) (i : ℕ)
    → (i + 1) * 60 ≤ length payload
    → replicate {A = ℕ} (60 - length (chunk payload i)) 0 ≡ []
no_padding payload i h =
    zeros {m = 60 - length (chunk payload i)} {n = 0} (omega (arith, length-chunk payload i))

rejoin :
    (n : ℕ) (xs : List ℕ) {ys zs : List ℕ} → ys ≡ zs → take n xs ++ (drop n xs ++ ys) ≡ xs ++ zs
rejoin n xs e = rw (e, ← append_assoc, take-append-drop n xs)

bodies-fragments :
    (screen_id count : ℕ) (payload : List ℕ) (left i : ℕ)
    → (i + left) * 60 < length payload
    → length payload ≤ (i + suc left) * 60
    → bodies (fragments screen_id count payload (suc left) i)
      ≡ drop (i * 60) payload ++ replicate ((i + suc left) * 60 - length payload) 0
unfolding fragments fragment
bodies-fragments screen_id count payload zero i lo hi =
    rw (append-nil, chunk_last payload i hi)
      (ap (λ (t : List ℕ). drop (i * 60) payload ++ t)
        (zeros (omega (arith, length-drop (i * 60) payload))))
bodies-fragments screen_id count payload (suc left) i lo hi =
    let rest = bodies-fragments screen_id count payload left (i + 1) (omega arith) (omega arith) in
    rw
      (
        no_padding payload i (omega arith),
        append-nil,
        chunk_full payload i (omega arith),
        rest,
        next_drop payload i,
      )
      (rejoin 60 (drop (i * 60) payload) (zeros (omega arith)))

-- The reports that a device takes for a screen: numbered, and whole but for trailing zeros.
pub record IsWhole (screen_id : ℕ) (payload : List ℕ) (reports : List (List ℕ)) : Type 0 where
  pub numbered : AreNumbered screen_id (fragment_count payload) 0 reports
  pub padding : ℕ
  pub padding_lt : padding < 60
  pub whole : bodies reports ≡ payload ++ replicate padding 0

count_le : (payload : List ℕ) → length payload ≤ 255 * 60 → fragment_count payload ≤ 255
unfolding fragment_count
count_le payload h = omega arith

count_fits :
    (payload : List ℕ) → length payload ≤ 255 * 60 → ltb 255 (fragment_count payload) ≡ false
count_fits payload h = ground (arith, count_le payload h)

-- As many fragments as it takes.
count-suc :
    (payload : List ℕ)
    → 0 < length payload
    → fragment_count payload ≡ suc ((length payload - 1) / 60)
unfolding fragment_count
count-suc payload h = omega arith

bodies-all :
    (screen_id count : ℕ) (payload : List ℕ) (n : ℕ)
    → 0 < length payload
    → n ≡ suc ((length payload - 1) / 60)
    → bodies (fragments screen_id count payload n 0)
      ≡ payload ++ replicate (n * 60 - length payload) 0
bodies-all screen_id count payload n h e = rw e (
    bodies-fragments screen_id count payload ((length payload - 1) / 60) 0 (omega arith)
      (omega arith)
    ∙ ap (λ (t : List ℕ). payload ++ t) (zeros (omega arith)))

bodies-whole :
    (screen_id : ℕ) (payload : List ℕ)
    → bodies (fragments screen_id (fragment_count payload) payload (fragment_count payload) 0)
      ≡ payload ++ replicate (fragment_count payload * 60 - length payload) 0
unfolding fragment_count fragments
bodies-whole screen_id [] = refl
bodies-whole screen_id (x ∷ xs) =
    bodies-all screen_id (fragment_count (x ∷ xs)) (x ∷ xs) (fragment_count (x ∷ xs)) (omega arith)
      (count-suc (x ∷ xs) (omega arith))

padding_small : (payload : List ℕ) → fragment_count payload * 60 - length payload < 60
unfolding fragment_count
padding_small payload = omega arith

fragments-IsWhole :
    (screen_id : ℕ) (payload : List ℕ)
    → length payload ≤ 255 * 60
    → IsWhole screen_id payload
        (fragments screen_id (fragment_count payload) payload (fragment_count payload) 0)
fragments-IsWhole screen_id payload h =
    let count = fragment_count payload in
    record {
      numbered =
          fragments-AreNumbered screen_id count payload count 0 (omega arith) (count_le payload h);
      padding = count * 60 - length payload;
      padding_lt = padding_small payload;
      whole = bodies-whole screen_id payload;
    }

-- A screen whose payload fits 255 fragments is sent, to a device that takes every report, as
-- numbered reports of 64 bytes which hold the payload and less than 60 zeros after it.
pub send_screen_update-IsWhole :
    (spec : ScreenSpec) (payload : List ℕ) (written : List (List ℕ))
    → encode spec ≡ ok payload
    → length payload ≤ 255 * 60
    → (reports : List (List ℕ)) × ((send_screen_update (λ _ _. true) spec written
          ≡ (ok tt, written ++ reports))
        × IsWhole spec.screen_id payload reports)
unfolding send_screen_update send_payload
send_screen_update-IsWhole spec payload written e h =
    let count = fragment_count payload in
    (
      fragments spec.screen_id count payload count 0,
      (
        rw (e, send_screen_update)
            (rw (count_fits payload h)
              (sends_fragments spec.screen_id count payload count 0 written)),
        fragments-IsWhole spec.screen_id payload h,
      ),
    )
