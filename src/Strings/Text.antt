-- ===== src/Strings/Text.antt =====
-- Strings as their text, which forgets the buffer.
use scheme2c.Prelude.{
  ℕ, suc, ◌+◌, ◌-◌, ◌*◌, ◌/◌, ◌≤◌, ◌<◌, ◌≡◌, refl, sym, ap, ◌∙◌, ◌⊎◌, inl, inr, true, false, Option,
  none, some, List, [], ◌∷◌, ◌++◌, arith, ltb, leb, if◌then◌else◌, lt→ltb, Bool-cases, length, set,
  length-append, length-set, take, replicate, take-set, take-append, length-take, length-replicate,
  take-take, take-append_self,
}
use mathlib.Core.Path.{subst}
use mathlib.Core.List.{append_assoc, append-nil}
use scheme2c.Strings.{
  assertion, StringDatum, Step, ok, overrun, ss_capac, ss_enlarge, put_units, terminated, ss_add,
}

abbrev pub text : StringDatum → List ℕ
text s = take s.len s.buf

-- There is room for the terminator, and the string may be changed.
abbrev pub Sound : StringDatum → Type 0
Sound s = (s.len < length s.buf) × (s.const ≡ false)

-- The result has the text `us`, no cached hash code and a sound state.
abbrev pub Became : List ℕ → Step → Type 0
Became us (ok s) = (text s ≡ us) × ((s.hash ≡ none) × Sound s)
Became us _ = ⊥

abbrev pub Filled : (buf : List ℕ) (i : ℕ) → List ℕ → Option (List ℕ) → Type 0
Filled buf i us none = ⊥
Filled buf i us (some new) =
    (take (i + length us) new ≡ take i buf ++ us) × (length new ≡ length buf)

Filled-step :
    (buf : List ℕ) (i u : ℕ) (us : List ℕ) (new : Option (List ℕ))
    → i < length buf
    → Filled (set buf i u) (suc i) us new
    → Filled buf i (u ∷ us) new
Filled-step buf i u us none h f = f
Filled-step buf i u us (some new) h f =
    let shift : i + suc (length us) ≡ suc i + length us = omega arith in
    (
      ap (λ n. take n new) shift
          ∙ f.0
          ∙ ap (λ xs. xs ++ us) (take-set buf i u h)
          ∙ append_assoc (take i buf) (u ∷ []) us,
      f.1 ∙ length-set buf i u,
    )

put_units-Filled :
    (buf : List ℕ) (i : ℕ) (us : List ℕ)
    → i + length us ≤ length buf
    → Filled buf i us (put_units buf i us)
unfolding put_units
put_units-Filled buf i [] h =
    let same : i + 0 ≡ i = omega arith in
    (ap (λ n. take n buf) same ∙ sym (append-nil (take i buf)), refl)
put_units-Filled buf i (u ∷ us) h =
    let in_range : i < length buf = omega arith in
    let same = length-set buf i u in
    rw (lt→ltb i (length buf) in_range) (
      Filled-step buf i u us (put_units (set buf i u) (suc i) us) in_range
        (put_units-Filled (set buf i u) (suc i) us (omega arith)))

-- Units and a terminator behind the text of a string of enough room.
Became-terminated :
    (s : StringDatum) (us : List ℕ) (new : Option (List ℕ))
    → s.const ≡ false
    → s.len + length us < length s.buf
    → Filled s.buf s.len (us ++ (0 ∷ [])) new
    → Became (text s ++ us) (terminated s (s.len + length us) new)
Became-terminated s us none c h f = elim f [ ]
Became-terminated s us (some new) c h f =
    let count = length-append us (0 ∷ []) in
    let all = length-append (text s) us in
    let kept = length-take s.len s.buf in
    let size : s.len + length (us ++ (0 ∷ [])) ≡ suc (s.len + length us) = omega arith in
    let here : s.len + length us ≡ length (text s ++ us) = omega arith in
    let same_size = f.1 in
    let shown : take (s.len + length us) new ≡ text s ++ us =
      sym (take-take (s.len + length us) new)
      ∙ ap (λ n. take (s.len + length us) (take n new)) (sym size)
      ∙ ap (take (s.len + length us)) (f.0 ∙ sym (append_assoc (text s) us (0 ∷ [])))
      ∙ ap (λ n. take n ((text s ++ us) ++ (0 ∷ []))) here
      ∙ take-append_self (text s ++ us) (0 ∷ []) in
    (shown, (refl, (omega arith, c)))

abbrev grown : StringDatum → StringDatum
grown s = if leb (ss_capac s) s.len then ss_enlarge s ((ss_capac s + 8) * 2) else s

abbrev written : StringDatum → List ℕ → Step
written s us =
    terminated (grown s) (s.len + length us) (put_units (grown s).buf s.len (us ++ (0 ∷ [])))

ss_add-written :
    (utf16 : ℕ → List ℕ) (s : StringDatum) (ch : ℕ)
    → s.const ≡ false
    → ss_add utf16 s ch ≡ written s (utf16 ch)
unfolding ss_add
ss_add-written utf16 s ch c = ap (λ b. if b then assertion else written s (utf16 ch)) c

-- `ss_add` on a string that is sound adds the units of the character behind its text, forgets the cached
-- hash code, and leaves a sound string, if the units fit or the string is full, so that it grows.
-- `utf16` gives one unit or two for a character.
pub ss_add-text :
    (utf16 : ℕ → List ℕ) (s : StringDatum) (ch : ℕ)
    → Sound s
    → length (utf16 ch) ≤ 2
    → (s.len + length (utf16 ch) < length s.buf) ⊎ (s.len + 1 ≡ length s.buf)
    → Became (text s ++ utf16 ch) (ss_add utf16 s ch)
unfolding ss_add ss_capac ss_enlarge
ss_add-text utf16 s ch sound few room =
    subst (Became (text s ++ utf16 ch)) (sym (ss_add-written utf16 s ch sound.1))
      (added (Bool-cases (leb (ss_capac s) s.len)))
  where
    added :
        (leb (ss_capac s) s.len ≡ true) ⊎ (leb (ss_capac s) s.len ≡ false)
        → Became (text s ++ utf16 ch) (written s (utf16 ch))
    added (inl full) =
        let at_end : s.len + 1 ≡ length s.buf = ground arith in
        let g = ss_enlarge s ((ss_capac s + 8) * 2) in
        let pad = (ss_capac s + 8) * 2 / 2 - s.len in
        let zeros : List ℕ = replicate pad 0 in
        let size : length g.buf ≡ length (take s.len s.buf) + length zeros =
          length-append (take s.len s.buf) zeros in
        let capac : ss_capac s ≡ length s.buf - 1 = refl in
        let kept = length-take s.len s.buf in
        let padded : length zeros ≡ pad = length-replicate pad 0 in
        let count = length-append (utf16 ch) (0 ∷ []) in
        let same : text g ≡ text s = take-append s.len s.buf zeros (omega arith) in
        let fits : s.len + length (utf16 ch) < length g.buf = omega arith in
        rw full (
          subst
            (λ xs. Became (xs ++ utf16 ch) (
              terminated g (s.len + length (utf16 ch))
                (put_units g.buf s.len (utf16 ch ++ (0 ∷ [])))))
            same
            (Became-terminated g (utf16 ch) (put_units g.buf s.len (utf16 ch ++ (0 ∷ []))) sound.1
              fits (put_units-Filled g.buf s.len (utf16 ch ++ (0 ∷ [])) (omega arith))))
    added (inr free) =
        let fits : s.len + length (utf16 ch) < length s.buf = ground arith in
        let count = length-append (utf16 ch) (0 ∷ []) in
        rw free (
          Became-terminated s (utf16 ch) (put_units s.buf s.len (utf16 ch ++ (0 ∷ []))) sound.1 fits
            (put_units-Filled s.buf s.len (utf16 ch ++ (0 ∷ [])) (omega arith)))

-- With room for one unit alone in front of the terminator, `ss_add` of a character of two units does not
-- grow the string: it writes the terminator behind the end of the buffer.
pub ss_add_overruns :
    (utf16 : ℕ → List ℕ) (s : StringDatum) (ch lead trail : ℕ)
    → Sound s
    → utf16 ch ≡ lead ∷ trail ∷ []
    → s.len + 2 ≡ length s.buf
    → ss_add utf16 s ch ≡ overrun
unfolding ss_add ss_capac put_units
ss_add_overruns utf16 s ch lead trail sound units last =
    let free : leb (ss_capac s) s.len ≡ false = ground arith in
    let one = length-set s.buf s.len lead in
    let two = length-set (set s.buf s.len lead) (suc s.len) trail in
    let first : ltb s.len (length s.buf) ≡ true = ground arith in
    let second : ltb (suc s.len) (length (set s.buf s.len lead)) ≡ true = ground arith in
    let third : ltb (suc (suc s.len)) (length (set (set s.buf s.len lead) (suc s.len) trail))
        ≡ false =
      ground arith in
    ss_add-written utf16 s ch sound.1 ∙ rw (free, units, first, second, third) refl
