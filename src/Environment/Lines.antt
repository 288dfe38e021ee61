-- ===== src/Environment/Lines.antt =====
-- The lines of the log are whole.
use mcmp.Common.{
  ℕ, zero, suc, ◌+◌, ◌≤◌, ◌<◌, ◌≡◌, refl, ap, arith, some, [], ◌∷◌, ◌++◌, length, length-append,
  get_or, get_elem?,
}
use mcmp.Environment.{Text, max_line_size, cut, loglevels, layout, formatted, log_line}

length-cut : (room : ℕ) (text : Text) → length (cut room text) ≤ room
length-cut zero text = omega arith
length-cut (suc room) [] = omega arith
length-cut (suc room) (byte ∷ text) = omega (arith, length-cut room text)

cut-short : (room : ℕ) (text : Text) → length text ≤ room → cut room text ≡ text
cut-short zero [] h = refl
cut-short zero (byte ∷ text) h = absurd (omega arith)
cut-short (suc room) [] h = refl
cut-short (suc room) (byte ∷ text) h = ap (λ t. byte ∷ t) (cut-short room text (omega arith))

length-layout :
    (time name message : Text)
    → length (layout time name message) ≡ length time + length name + length message + 9
length-layout time name message = omega (
  arith,
  length-append time (93 ∷ 32 ∷ 91 ∷ (name ++ (93 ∷ 32 ∷ 58 ∷ 32 ∷ (message ++ (10 ∷ []))))),
  length-append name (93 ∷ 32 ∷ 58 ∷ 32 ∷ (message ++ (10 ∷ []))),
  length-append message (10 ∷ []),
)

level_names :
    (level : ℕ)
    → level < 5
    → (get_elem? loglevels level ≡ some (get_or loglevels level []))
      × (length (get_or loglevels level []) ≡ 5)
level_names zero h = (refl, refl)
level_names (suc zero) h = (refl, refl)
level_names (suc (suc zero)) h = (refl, refl)
level_names (suc (suc (suc zero))) h = (refl, refl)
level_names (suc (suc (suc (suc zero)))) h = (refl, refl)
level_names (suc (suc (suc (suc (suc level))))) h = absurd (omega arith)

-- A line of the log, of one of the five levels, is whole: however long its text is, the line has the
-- time, the level, as much of the text as fits into 3995 bytes, and the end of the line, and is shorter
-- than the buffer. The time is what fits into its own buffer of 64 bytes.
pub log_line_lem :
    (time : Text) (level : ℕ) (text : Text)
    → length time < 64
    → level < 5
    → (log_line time level text ≡ some (layout time (get_or loglevels level []) (cut 3995 text)))
      × (length (layout time (get_or loglevels level []) (cut 3995 text)) < max_line_size)
unfolding log_line formatted
log_line_lem time level text short known =
    let (name, five) = level_names level known in
    let line = layout time (get_or loglevels level []) (cut 3995 text) in
    let fits : length line < max_line_size = omega (
      arith,
      length-layout time (get_or loglevels level []) (cut 3995 text),
      length-cut 3995 text,
      five,
      short,
    ) in
    (rw name (ap some (cut-short 4095 line (omega (arith, fits)))), fits)
